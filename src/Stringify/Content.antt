-- ===== src/Stringify/Content.antt =====
-- What the characters of a JSON string stand for, as RFC 8259 says it: for src/judo_scan.c,
-- `judo_stringify`.
use judo.Base.{
  ℕ, ◌+◌, ◌-◌, ◌*◌, ◌%◌, ◌^◌, ◌≤◌, ◌<◌, ◌≡◌, ◌≢◌, ◌⊎◌, refl, sym, ap, ◌∙◌, arith, some, List, [],
  ◌∷◌, ◌++◌, length,
}
use judo.Chars.{digit_value, parse_digits, parse_character}
use judo.Utf8.Scalar.{IsScalar, Holds, rfc3629}

-- The character is the hexadecimal digit of this value.
abbrev pub IsDigit : ℕ → ℕ → Type 0
IsDigit c v =
    ((v < 10) × (c ≡ b'0' + v))
    ⊎ ((10 ≤ v) × (v < 16) × (c ≡ b'A' + (v - 10)))
    ⊎ ((10 ≤ v) × (v < 16) × (c ≡ b'a' + (v - 10)))

-- Four hexadecimal digits stand at an index, and have this value.
pub record FourDigits (string : ℕ → ℕ) (i v : ℕ) : Type 0 where
  pub first : ℕ
  pub second : ℕ
  pub third : ℕ
  pub fourth : ℕ
  pub is_first : IsDigit (string i) first
  pub is_second : IsDigit (string (i + 1)) second
  pub is_third : IsDigit (string (i + 2)) third
  pub is_fourth : IsDigit (string (i + 3)) fourth
  pub value : v ≡ first * 4096 + second * 256 + third * 16 + fourth

-- The character that a named escape stands for, by the letter behind the backslash.
pub data Names : ℕ → ℕ → Type 0 where
  quotation_mark : Names b'"' 0x22
  reverse_solidus : Names b'\\' 0x5C
  solidus : Names b'/' 0x2F
  backspace : Names b'b' 0x08
  form_feed : Names b'f' 0x0C
  line_feed : Names b'n' 0x0A
  carriage_return : Names b'r' 0x0D
  tab : Names b't' 0x09

-- The bytes that the characters from an index to `stop` stand for, in UTF-8.
pub data Content (string : ℕ → ℕ) (stop : ℕ) : ℕ → List ℕ → Type 0 where
  done : Content string stop stop []
  plain :
      {i : ℕ} {bs : List ℕ} (c : ℕ)
      → IsScalar c
      → c ≢ 0x5C
      → Holds string i (rfc3629 c)
      → Content string stop (i + length (rfc3629 c)) bs
      → Content string stop i (rfc3629 c ++ bs)
  named :
      {i : ℕ} {bs : List ℕ} (letter c : ℕ)
      → string i ≡ 0x5C
      → string (i + 1) ≡ letter
      → Names letter c
      → Content string stop (i + 2) bs
      → Content string stop i (rfc3629 c ++ bs)
  unicode :
      {i : ℕ} {bs : List ℕ} (c : ℕ)
      → string i ≡ 0x5C
      → string (i + 1) ≡ b'u'
      → FourDigits string (i + 2) c
      → IsScalar c
      → Content string stop (i + 6) bs
      → Content string stop i (rfc3629 c ++ bs)
  surrogates :
      {i : ℕ} {bs : List ℕ} (high low : ℕ)
      → string i ≡ 0x5C
      → string (i + 1) ≡ b'u'
      → FourDigits string (i + 2) (0xD800 + high)
      → string (i + 6) ≡ 0x5C
      → string (i + 7) ≡ b'u'
      → FourDigits string (i + 8) (0xDC00 + low)
      → high < 0x400
      → low < 0x400
      → Content string stop (i + 12) bs
      → Content string stop i (rfc3629 (0x10000 + high * 0x400 + low) ++ bs)

pub digit_value-IsDigit : (c v : ℕ) → IsDigit c v → digit_value c ≡ some v
unfolding digit_value
digit_value-IsDigit c v h = ground arith

IsDigit-nonzero : (c v : ℕ) → IsDigit c v → (c ≢ 0) × (v < 16)
IsDigit-nonzero c v h = ground arith

pub IsDigit-small : (c v : ℕ) → IsDigit c v → v < 16
IsDigit-small c v h = (IsDigit-nonzero c v h).1

pub IsDigit-some : (c v : ℕ) → IsDigit c v → c ≢ 0
IsDigit-some c v h = (IsDigit-nonzero c v h).0

parse_digits-digit :
    (codepoint c v : ℕ) (cs : List ℕ)
    → IsDigit c v
    → parse_digits codepoint (c ∷ cs) ≡ parse_digits ((codepoint * 16 + v) % 2 ^ 32) cs
unfolding parse_digits
parse_digits-digit codepoint c v cs d = rw (digit_value-IsDigit c v d, parse_digits) refl

accumulated :
    (a b c d : ℕ)
    → a < 16
    → b < 16
    → c < 16
    → d < 16
    → ((((0 * 16 + a) % 2 ^ 32 * 16 + b) % 2 ^ 32 * 16 + c) % 2 ^ 32 * 16 + d) % 2 ^ 32
      ≡ a * 4096 + b * 256 + c * 16 + d
accumulated a b c d p q r s = omega arith

-- The value of four digits is what `parse_character` returns.
pub parse_character-FourDigits :
    (string : ℕ → ℕ) (i v : ℕ)
    → FourDigits string i v
    → parse_character (string i ∷ string (i + 1) ∷ string (i + 2) ∷ string (i + 3) ∷ []) ≡ some v
unfolding parse_character parse_digits
parse_character-FourDigits string i v f =
    parse_digits-digit 0 _ _ (string (i + 1) ∷ string (i + 2) ∷ string (i + 3) ∷ []) f.is_first
    ∙ parse_digits-digit _ _ _ (string (i + 2) ∷ string (i + 3) ∷ []) f.is_second
    ∙ parse_digits-digit _ _ _ (string (i + 3) ∷ []) f.is_third
    ∙ parse_digits-digit _ _ _ [] f.is_fourth
    ∙ ap some (
        accumulated f.first f.second f.third f.fourth (IsDigit-nonzero _ _ f.is_first).1
          (IsDigit-nonzero _ _ f.is_second).1 (IsDigit-nonzero _ _ f.is_third).1
          (IsDigit-nonzero _ _ f.is_fourth).1
        ∙ sym f.value)

-- The arithmetic on 32 bits that joins a surrogate pair.
pub joined :
    (high low : ℕ)
    → high < 0x400
    → low < 0x400
    → ((0xD800 + high) * 1024 + (0xDC00 + low) + 0xFCA02400) % 2 ^ 32 ≡ 0x10000 + high * 0x400 + low
joined high low h l = omega arith

pub length-rfc3629 : (c : ℕ) → 0 < length (rfc3629 c)
length-rfc3629 c = ground arith

pub Content-le : {string : ℕ → ℕ} {stop i : ℕ} {bs : List ℕ} → Content string stop i bs → i ≤ stop
Content-le done = omega arith
Content-le (plain c k n h s) = omega (arith, Content-le s)
Content-le (named l c b e n s) = omega (arith, Content-le s)
Content-le (unicode c b u f k s) = omega (arith, Content-le s)
Content-le (surrogates h l b u f b' u' f' hi lo s) = omega (arith, Content-le s)

pub Names-small : {letter c : ℕ} → Names letter c → c < 0x110000
Names-small quotation_mark = omega arith
Names-small reverse_solidus = omega arith
Names-small solidus = omega arith
Names-small backspace = omega arith
Names-small form_feed = omega arith
Names-small line_feed = omega arith
Names-small carriage_return = omega arith
Names-small tab = omega arith
