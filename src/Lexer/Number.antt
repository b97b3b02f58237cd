-- ===== src/Lexer/Number.antt =====
-- src/judo_scan.c: `scan_number`, in its JSON5 version and in the version of the two RFCs.
pub mod Bounds
use judo.Api.{Config}
use judo.Base.{
  ℕ, zero, suc, ◌+◌, ◌-◌, Bool, true, false, not, ◌&&◌, ◌||◌, ltb, ◌==◌, if◌then◌else◌, codes,
}
use judo.Chars.{judo_isalpha, judo_isdigit, judo_isxdigit, is_match}
use judo.Lexer.Failure.{Result, ok, err, Lexeme, number, bad_syntax}
use judo.Utf8.{Source, is_bounded, utf8_decode}

-- An empty answer, or the failure that is held until the routine ends.
abbrev pub Held : Type 0
Held = Result (Unit {0})

-- The failure if there is one, else the end of the token.
unfoldable pub settle : Held → ℕ → Result ℕ
settle (ok _) index = ok index
settle (err e) index = err e

abbrev is_exponent : ℕ → Bool
is_exponent c = c == b'e' || c == b'E'

abbrev pub is_sign : ℕ → Bool
is_sign c = c == b'+' || c == b'-'

-- A token of type number that ends at `stop`.
unfoldable pub number_to : ℕ → Result ℕ → Result Lexeme
number_to start (ok stop) = ok (record { type = number; lexeme_length = stop - start })
number_to start (err e) = err e

module _ (cfg : Config) (src : Source) where
  abbrev pub peek_at : ℕ → ℕ
  peek_at index = (utf8_decode cfg src index).codepoint

  -- for (;;) { codepoint = utf8_decode(...); if (!p(codepoint)) break; index += 1; }
  unfoldable pub skip_while : (ℕ → Bool) → ℕ → ℕ → ℕ
  skip_while p zero index = index
  skip_while p (suc fuel) index = elim (p (peek_at index)) [
    | true ↦ skip_while p fuel (index + 1)
    | false ↦ index
  ]

  -- The fuel of the lexer's loops: one round for each position up to the size limit, and one more.
  unfoldable pub rounds : ℕ
  rounds = suc cfg.maximum_input_size

  unfoldable pub skip_digits : ℕ → ℕ
  unfolding skip_while rounds judo_isdigit
  skip_digits index = skip_while judo_isdigit rounds index

  -- ['e' | 'E'] ['+' | '-']? [0-9]+, where it stands; a missing exponent replaces an earlier failure.
  unfoldable pub scan_exponent : Held → ℕ → Result ℕ
  scan_exponent held index =
      if is_exponent (peek_at index)
      then (let digits = if is_sign (peek_at (index + 1)) then index + 2 else index + 1 in
          if not (judo_isdigit (peek_at digits))
          then err (bad_syntax digits 1 "missing exponent")
          else settle held (skip_digits digits))
      else settle held index

  -- The two RFCs: '.' [0-9]+, where it stands, and the exponent.
  unfoldable pub scan_fraction : ℕ → ℕ → Result ℕ
  scan_fraction start index =
      if peek_at index == b'.'
      then (let stop = skip_digits (index + 1) in
          scan_exponent
            (if stop - (index + 1) == 0
              then err (bad_syntax start (stop - start) "expected fractional part")
              else ok tt)
            stop)
      else scan_exponent (ok tt) index

  -- The two RFCs: [0-9]+ with no leading zero, and what follows it.
  unfoldable pub scan_integer : ℕ → ℕ → Result ℕ
  scan_integer start index =
      if not (judo_isdigit (peek_at index))
      then err (bad_syntax index 1 "expected number")
      else (let stop = skip_digits (index + 1) in
          if ltb 1 (stop - index) && peek_at index == b'0'
          then err (bad_syntax start (stop - start) "illegal octal number")
          else scan_fraction start stop)

  unfoldable pub scan_number_rfc : ℕ → Result Lexeme
  scan_number_rfc start =
      number_to start (scan_integer start (if src.string start == b'-' then start + 1 else start))

  -- JSON5: 0x and hexadecimal digits, from the digits on.
  unfoldable pub scan_hexadecimal : ℕ → Result ℕ
  scan_hexadecimal index =
      if not (judo_isxdigit (peek_at index))
      then err (bad_syntax index 1 "expected hexadecimal number")
      else ok (skip_while judo_isxdigit rounds index)

  -- JSON5: NaN and Infinite.
  unfoldable pub scan_number_word : ℕ → Result ℕ
  scan_number_word index =
      let stop = skip_while judo_isalpha rounds index in
      if not (is_match src.string index (codes "NaN") (stop - index))
        && not (is_match src.string index (codes "Infinite") (stop - index))
      then err (bad_syntax index (stop - index) "expected NaN or Infinite")
      else ok stop

  -- The number must hold more than a sign and a decimal point.
  unfoldable pub require_digits : ℕ → ℕ → Held
  require_digits digit_count index =
      if digit_count == 0 then err (bad_syntax index 1 "expected number") else ok tt

  -- JSON5: the decimal point, digits and exponent; `sign` counts the sign's characters.
  unfoldable pub scan_decimal : ℕ → ℕ → ℕ → Result ℕ
  scan_decimal start sign index =
      if peek_at index == b'.'
      then (let stop = skip_digits (index + 1) in
          scan_exponent (require_digits (stop - start - sign - 1) stop) stop)
      else scan_exponent (require_digits (index - start - sign) index) index

  -- JSON5: the decimal digits, with no leading zero, and what follows them.
  unfoldable pub scan_digits : ℕ → ℕ → ℕ → Result ℕ
  scan_digits start sign index =
      let stop = skip_digits (index + 1) in
      if ltb 1 (stop - index) && peek_at index == b'0'
      then err (bad_syntax start (stop - start) "illegal octal number")
      else scan_decimal start sign stop

  abbrev is_hexadecimal : ℕ → Bool
  is_hexadecimal index =
      is_bounded cfg src index 2
      && (is_match src.string index (codes "0x") 2 || is_match src.string index (codes "0X") 2)

  unfoldable pub scan_magnitude : ℕ → ℕ → ℕ → Result ℕ
  scan_magnitude start sign index =
      if judo_isdigit (peek_at index)
      then (if is_hexadecimal index
          then scan_hexadecimal (index + 2)
          else scan_digits start sign index)
      else if judo_isalpha (peek_at index)
      then scan_number_word index
      else scan_decimal start sign index

  -- JSON5: the sign, where it stands, and what follows it.
  unfoldable pub scan_signed : ℕ → Result ℕ
  scan_signed start =
      if is_sign (src.string start)
      then scan_magnitude start 1 (start + 1)
      else scan_magnitude start 0 start

  unfoldable pub scan_number_json5 : ℕ → Result Lexeme
  scan_number_json5 start = number_to start (scan_signed start)

  unfoldable pub scan_number : ℕ → Result Lexeme
  scan_number start = if cfg.json5 then scan_number_json5 start else scan_number_rfc start
