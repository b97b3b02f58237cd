-- ===== src/Stringify/Strings.antt =====
-- The loop over the characters of a string in `judo_stringify` of src/judo_scan.c, in a build for the
-- JSON standards.
use judo.Api.{Config}
use judo.Base.Int.{pos}
use judo.Base.{
  ℕ, zero, suc, ◌+◌, ◌-◌, ◌*◌, ◌≤◌, ◌<◌, ◌≡◌, ◌≢◌, refl, ap, ◌∙◌, arith, true, false, some, List,
  [], ◌∷◌, ◌++◌, ◌==◌, length,
}
use judo.Chars.{is_high_surrogate}
use judo.Stringify.{
  writes, before_null, four_digits, unicode_piece, escaped_piece, simple_escape, string_piece,
  writes_pair,
}
use judo.Stringify.Content.{
  Content, done, plain, named, unicode, surrogates, Names, quotation_mark, reverse_solidus, solidus,
  backspace, form_feed, line_feed, carriage_return, tab, FourDigits, IsDigit-some,
  parse_character-FourDigits, joined, length-rfc3629, Content-le, Names-small,
}
use judo.Stringify.Loops.{Stands, ended, written}
use judo.Utf8.{Source, utf8_encode}
use judo.Utf8.Complete.{utf8_decode-utf8_encode}
use judo.Utf8.Scalar.{IsScalar, Holds, rfc3629, utf8_encode-rfc3629}
use judo.Utf8.Sound.{IsBytes}

before_null-some :
    (a b c d : ℕ)
    → a ≢ 0
    → b ≢ 0
    → c ≢ 0
    → d ≢ 0
    → before_null (a ∷ b ∷ c ∷ d ∷ []) ≡ a ∷ b ∷ c ∷ d ∷ []
before_null-some a b c d p q r s = ground arith

not_backslash :
    (string : ℕ → ℕ) (i c : ℕ) → c ≢ 0x5C → Holds string i (rfc3629 c) → (string i == 0x5C) ≡ false
not_backslash string i c n h = ground arith

scalar_low : (c : ℕ) → IsScalar c → is_high_surrogate c ≡ false
unfolding is_high_surrogate
scalar_low c s = ground arith

high_surrogate : (high : ℕ) → high < 0x400 → is_high_surrogate (0xD800 + high) ≡ true
unfolding is_high_surrogate
high_surrogate high h = ground arith

abbrev pub given : (ℕ → ℕ) → ℕ → Source
given string n = record { string = string; length = pos n }

module _ (cfg : Config) (string : ℕ → ℕ) (n : ℕ) (bytes : IsBytes string) (json : cfg.json5 ≡ false)
    (small : n ≤ cfg.maximum_input_size) where
  four_digits_lem : (i v : ℕ) → FourDigits string i v → four_digits cfg (given string n) i ≡ some v
  four_digits_lem i v f =
      rw
        (before_null-some (string i) (string (i + 1)) (string (i + 2)) (string (i + 3))
          (IsDigit-some _ _ f.is_first) (IsDigit-some _ _ f.is_second) (IsDigit-some _ _ f.is_third)
          (IsDigit-some _ _ f.is_fourth))
        (parse_character-FourDigits string i v f)

  plain_lem :
      (i c : ℕ)
      → IsScalar c
      → c ≢ 0x5C
      → Holds string i (rfc3629 c)
      → i + length (rfc3629 c) ≤ n - 1
      → string_piece cfg (given string n) i ≡ writes c (i + length (rfc3629 c))
  unfolding string_piece
  plain_lem i c s b h le =
      let e : utf8_encode c ≡ rfc3629 c = utf8_encode-rfc3629 c (omega arith) in
      let some_bytes = length-rfc3629 c in
      let d =
        utf8_decode-utf8_encode cfg (given string n) bytes i c s (rw e h)
          (rw e (omega (arith, le, some_bytes))) (rw e (omega (arith, le, small, some_bytes))) in
      rw (not_backslash string i c b h, d, e) refl

  escape_lem :
      (i letter : ℕ)
      → string i ≡ 0x5C
      → string (i + 1) ≡ letter
      → string_piece cfg (given string n) i ≡ escaped_piece cfg (given string n) letter (i + 2)
  unfolding string_piece
  escape_lem i letter b l = rw (b, json, l) refl

  named_lem :
      (i letter c : ℕ) → Names letter c → escaped_piece cfg (given string n) letter i ≡ writes c i
  unfolding escaped_piece simple_escape
  named_lem i letter c quotation_mark = refl
  named_lem i letter c reverse_solidus = refl
  named_lem i letter c solidus = refl
  named_lem i letter c backspace = refl
  named_lem i letter c form_feed = refl
  named_lem i letter c line_feed = refl
  named_lem i letter c carriage_return = refl
  named_lem i letter c tab = refl

  u_lem : (i : ℕ) → escaped_piece cfg (given string n) b'u' i ≡ unicode_piece cfg (given string n) i
  unfolding escaped_piece simple_escape
  u_lem i = rw json refl

  unicode_lem :
      (i c : ℕ)
      → FourDigits string i c
      → IsScalar c
      → unicode_piece cfg (given string n) i ≡ writes c (i + 4)
  unfolding unicode_piece
  unicode_lem i c f s = rw (four_digits_lem i c f, unicode_piece) (rw (scalar_low c s) refl)

  surrogates_lem :
      (i high low : ℕ)
      → FourDigits string i (0xD800 + high)
      → FourDigits string (i + 6) (0xDC00 + low)
      → high < 0x400
      → low < 0x400
      → unicode_piece cfg (given string n) i ≡ writes (0x10000 + high * 0x400 + low) (i + 10)
  unfolding unicode_piece
  surrogates_lem i high low f g h l =
      rw (four_digits_lem i (0xD800 + high) f, unicode_piece)
        (rw (high_surrogate high h) (
          ap (λ o. writes_pair (0xD800 + high) o (i + 10))
            (four_digits_lem (i + 6) (0xDC00 + low) g)
          ∙ ap (λ c. writes c (i + 10)) (joined high low h l)))

  -- One more character, whose bytes are those of its encoding.
  one_more :
      (fuel i c next : ℕ) (bs : List ℕ)
      → i < n - 1
      → c < 0x110000
      → string_piece cfg (given string n) i ≡ writes c next
      → Stands (string_piece cfg (given string n)) (n - 1) fuel next bs
      → Stands (string_piece cfg (given string n)) (n - 1) (suc fuel) i (rfc3629 c ++ bs)
  one_more fuel i c next bs lt ok e s =
      rw (← utf8_encode-rfc3629 c ok) (written (ground arith) e (omega arith) s)

  -- With enough rounds, the characters stand for these bytes.
  pub Content-Stands :
      (fuel : ℕ) {i : ℕ} {bs : List ℕ}
      → n - 1 < i + fuel
      → Content string (n - 1) i bs
      → Stands (string_piece cfg (given string n)) (n - 1) fuel i bs
  Content-Stands zero h t = absurd (omega (arith, Content-le t))
  Content-Stands (suc fuel) h done = ended (ground arith)
  Content-Stands (suc fuel) h (plain {i} {bs} c s b held t) =
      let le = Content-le t in
      let more = length-rfc3629 c in
      one_more fuel i c (i + length (rfc3629 c)) bs (omega (arith, le, more)) (omega (arith, s))
        (plain_lem i c s b held le) (Content-Stands fuel (omega (arith, more)) t)
  Content-Stands (suc fuel) h (named {i} {bs} letter c b l k t) =
      one_more fuel i c (i + 2) bs (omega (arith, Content-le t)) (Names-small k)
        (escape_lem i letter b l ∙ named_lem (i + 2) letter c k)
        (Content-Stands fuel (omega arith) t)
  Content-Stands (suc fuel) h (unicode {i} {bs} c b u f s t) =
      let e : i + 2 + 4 ≡ i + 6 = omega arith in
      one_more fuel i c (i + 6) bs (omega (arith, Content-le t)) (omega (arith, s))
        (escape_lem i b'u' b u ∙ u_lem (i + 2) ∙ unicode_lem (i + 2) c f s ∙ ap (writes c) e)
        (Content-Stands fuel (omega arith) t)
  Content-Stands (suc fuel) h (surrogates {i} {bs} high low b u f b' u' g hi lo t) =
      let e : i + 2 + 6 ≡ i + 8 = omega arith in
      let k : i + 2 + 10 ≡ i + 12 = omega arith in
      one_more fuel i (0x10000 + high * 0x400 + low) (i + 12) bs (omega (arith, Content-le t))
        (omega arith)
        (escape_lem i b'u' b u
          ∙ u_lem (i + 2)
          ∙ surrogates_lem (i + 2) high low f (rw e g) hi lo
          ∙ ap (writes (0x10000 + high * 0x400 + low)) k)
        (Content-Stands fuel (omega arith) t)
