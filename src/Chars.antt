-- ===== src/Chars.antt =====
-- src/judo_scan.c: the character classes, hexadecimal digits and the comparison with a literal.
pub mod Match
use judo.Api.{Config}
use judo.Base.{
  ℕ, zero, suc, ◌+◌, ◌-◌, ◌*◌, ◌%◌, ◌^◌, Bool, true, false, ◌&&◌, ◌||◌, Option, none, some, List,
  [], ◌∷◌, leb, ◌==◌, if◌then◌else◌, bit_and,
}

abbrev between : ℕ → ℕ → ℕ → Bool
between lo hi c = leb lo c && leb c hi

unfoldable pub is_high_surrogate : ℕ → Bool
is_high_surrogate c = between 0xD800 0xDBFF c

unfoldable pub is_low_surrogate : ℕ → Bool
is_low_surrogate c = between 0xDC00 0xDFFF c

unfoldable pub judo_isalpha : ℕ → Bool
judo_isalpha c = if between b'a' b'z' c then true else if between b'A' b'Z' c then true else false

unfoldable pub judo_isdigit : ℕ → Bool
judo_isdigit c = between b'0' b'9' c

unfoldable pub judo_isxdigit : ℕ → Bool
unfolding judo_isdigit
judo_isxdigit c =
    if between b'a' b'f' c then true else if between b'A' b'F' c then true else judo_isdigit c

-- The value of one hexadecimal digit in `parse_character`; none where an assertion fails.
unfoldable pub digit_value : ℕ → Option ℕ
digit_value c =
    if leb c b'9'
    then (if leb b'0' c then some (c - b'0') else none)
    else if leb c b'F'
    then (if leb b'A' c then some (c - b'A' + 10) else none)
    else if between b'a' b'f' c
    then some (c - b'a' + 10)
    else none

-- codepoint = codepoint * 16 + digit, on 32 bits, for each digit up to the null terminator.
unfoldable pub parse_digits : ℕ → List ℕ → Option ℕ
unfolding digit_value
parse_digits codepoint [] = some codepoint
parse_digits codepoint (c ∷ cs) = elim (digit_value c) [
  | none ↦ none
  | some digit ↦ parse_digits ((codepoint * 16 + digit) % 2 ^ 32) cs
]

unfoldable pub parse_character : List ℕ → Option ℕ
unfolding parse_digits
parse_character digits = parse_digits 0 digits

-- The bytes from `index` on, as many as the length says, are those of the literal `prefix`.
unfoldable pub is_match : (ℕ → ℕ) → ℕ → List ℕ → ℕ → Bool
is_match string index [] zero = true
is_match string index [] (suc n) = false
is_match string index (p ∷ ps) zero = false
is_match string index (p ∷ ps) (suc n) =
    if string index == p then is_match string (index + 1) ps n else false

abbrev id_start : ℕ
id_start = 2

abbrev id_extend : ℕ
id_extend = 4

abbrev space_flag : ℕ
space_flag = 1

module _ (cfg : Config) where
  unfoldable pub is_starter : ℕ → Bool
  unfolding judo_isalpha
  is_starter c = if cfg.json5 then bit_and (cfg.uniflags c) id_start == id_start else judo_isalpha c

  unfoldable pub is_continue : ℕ → Bool
  unfolding is_starter judo_isdigit
  is_continue c =
      if cfg.json5
      then bit_and (cfg.uniflags c) id_extend == id_extend
      else is_starter c || judo_isdigit c

  -- The spaces of every standard, and the line and format spaces that JSON5 adds.
  unfoldable pub is_space : ℕ → Bool
  is_space c =
      if c == 0x20 || c == 0x09 || c == 0x0A || c == 0x0D
      then true
      else if cfg.json5
      then (c == 0x0B || c == 0x0C || c == 0xA0 || c == 0x2028 || c == 0x2029)
        || bit_and (cfg.uniflags c) space_flag == space_flag
      else false
