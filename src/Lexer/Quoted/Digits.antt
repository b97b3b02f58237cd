-- ===== src/Lexer/Quoted/Digits.antt =====
-- `scan_string` of src/judo_scan.c calls `parse_character` on hexadecimal digits only.
use judo.Api.{Config}
use judo.Base.{
  ℕ, zero, suc, ◌+◌, ◌*◌, ◌%◌, ◌^◌, ◌≡◌, ◌≢◌, refl, arith, true, Option, none, some, List, [], ◌∷◌,
}
use judo.Chars.{judo_isxdigit, judo_isdigit, digit_value, parse_digits, parse_character}
use judo.Lexer.Quoted.{hex_digits, low_digits, or_zero, parsed}
use judo.Utf8.{Source}

abbrev AreDigits : List ℕ → Type 0
AreDigits [] = Unit
AreDigits (c ∷ cs) = (judo_isxdigit c ≡ true) × AreDigits cs

some_of : (o : Option ℕ) → o ≢ none → (v : ℕ) × (o ≡ some v)
some_of none h = absurd (h refl)
some_of (some v) h = (v, refl)

some-or_zero : (o : Option ℕ) (c : ℕ) → o ≡ some c → o ≡ some (or_zero o)
some-or_zero none c e = cc
some-or_zero (some v) c e = refl

digit_value-parses : (c : ℕ) → judo_isxdigit c ≡ true → digit_value c ≢ none
unfolding judo_isxdigit judo_isdigit digit_value
digit_value-parses c h e = ground arith

digit_value-some : (c : ℕ) → judo_isxdigit c ≡ true → (digit : ℕ) × (digit_value c ≡ some digit)
digit_value-some c h = some_of (digit_value c) (digit_value-parses c h)

parse_digits-some :
    (codepoint : ℕ) (digits : List ℕ)
    → AreDigits digits
    → (c : ℕ) × (parse_digits codepoint digits ≡ some c)
unfolding parse_digits
parse_digits-some codepoint [] h = (codepoint, refl)
parse_digits-some codepoint (c ∷ cs) h =
    let (digit, e) = digit_value-some c h.0 in
    let (v, k) = parse_digits-some ((codepoint * 16 + digit) % 2 ^ 32) cs h.1 in
    (v, rw (e, parse_digits) k)

parsed-some : (digits : List ℕ) → AreDigits digits → parse_character digits ≡ some (parsed digits)
unfolding parse_character
parsed-some digits h =
    let (c, e) = parse_digits-some 0 digits h in some-or_zero (parse_character digits) c e

module _ (cfg : Config) (src : Source) where
  hex_digits-AreDigits : (count index : ℕ) → AreDigits (hex_digits cfg src count index)
  unfolding hex_digits
  hex_digits-AreDigits zero index = tt
  hex_digits-AreDigits (suc count) index = ground (arith, hex_digits-AreDigits count (index + 1))

  low_digits-AreDigits : (count index : ℕ) → AreDigits (low_digits cfg src count index)
  unfolding low_digits
  low_digits-AreDigits zero index = tt
  low_digits-AreDigits (suc count) index = ground (arith, low_digits-AreDigits count (index + 1))

  -- No assertion of `parse_character` fails on the digits of an escape sequence that is scanned.
  hex_digits-parsed :
      (count index : ℕ)
      → parse_character (hex_digits cfg src count index)
        ≡ some (parsed (hex_digits cfg src count index))
  hex_digits-parsed count index = parsed-some _ (hex_digits-AreDigits count index)

  -- Nor on those of the second half of a surrogate pair.
  low_digits-parsed :
      (count index : ℕ)
      → parse_character (low_digits cfg src count index)
        ≡ some (parsed (low_digits cfg src count index))
  low_digits-parsed count index = parsed-some _ (low_digits-AreDigits count index)
