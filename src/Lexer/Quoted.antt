-- ===== src/Lexer/Quoted.antt =====
-- src/judo_scan.c: `is_newline` and `scan_string`.
pub mod Bounds
pub mod Digits
pub mod Ends
use judo.Api.{Config}
use judo.Base.{
  ℕ, zero, suc, ◌+◌, ◌-◌, Bool, true, false, ◌&&◌, ◌||◌, Option, none, some, List, [], ◌∷◌, ltb,
  leb, ◌==◌, if◌then◌else◌, codes, length,
}
use judo.Chars.{is_high_surrogate, is_low_surrogate, judo_isxdigit, parse_character, is_match}
use judo.Lexer.Failure.{
  Failure, Result, ok, err, Lexeme, string, bad_syntax, bad_encoding, bad_input_size,
}
use judo.Lexer.Number.{rounds}
use judo.Utf8.{Source, is_bounded, utf8_decode, bad_character_encoding, input_too_large}

-- One round of the loop over a string's characters: it goes on at an index, or reaches the closing
-- quote and ends behind it, or fails.
pub data Round : Type 0 where
  continue : ℕ → Round
  closed : ℕ → Round
  failed : Failure → Round

-- The characters after a backslash that stand for one character.
unfoldable pub is_simple_escape : Bool → ℕ → Bool
is_simple_escape json5 c =
    (c == b'"'
      || c == b'\\'
      || c == b'/'
      || c == b'b'
      || c == b'f'
      || c == b'n'
      || c == b'r'
      || c == b't')
    || (json5 && (c == b'\'' || c == b'v' || c == b'0'))

abbrev is_line_end : ℕ → Bool
is_line_end c = c == 0x0A || c == 0x0D || c == 0x2028 || c == 0x2029

abbrev pub or_zero : Option ℕ → ℕ
or_zero none = 0
or_zero (some codepoint) = codepoint

-- `parse_character` on digits that were tested; 0 stands for a failed assertion.
abbrev pub parsed : List ℕ → ℕ
parsed digits = or_zero (parse_character digits)

module _ (cfg : Config) (src : Source) where
  -- The length of the line end at `cursor`, or 0.
  unfoldable pub is_newline : ℕ → ℕ
  is_newline cursor =
      if is_bounded cfg src cursor 2 && is_match src.string cursor (codes "\r\n") 2
      then 2
      else if is_bounded cfg src cursor 1
      then (let d = utf8_decode cfg src cursor in
          if is_line_end d.codepoint then d.byte_count else 0)
      else 0

  -- The hexadecimal digits from `index` on, at most `count`, where each is in bounds.
  unfoldable pub hex_digits : ℕ → ℕ → List ℕ
  hex_digits zero index = []
  hex_digits (suc count) index =
      if is_bounded cfg src index 1 && judo_isxdigit (src.string index)
      then src.string index ∷ hex_digits count (index + 1)
      else []

  -- The same after one test of the bounds for all of them.
  unfoldable pub low_digits : ℕ → ℕ → List ℕ
  low_digits zero index = []
  low_digits (suc count) index =
      if judo_isxdigit (src.string index)
      then src.string index ∷ low_digits count (index + 1)
      else []

  abbrev has_second_escape : ℕ → Bool
  has_second_escape index = is_bounded cfg src index 6 && is_match src.string index (codes "\\u") 2

  -- The second half of a surrogate pair, behind a high surrogate that ends at `index`.
  unfoldable pub scan_low_surrogate : ℕ → ℕ → ℕ → Round
  scan_low_surrogate escape_start index high =
      if has_second_escape index
      then (let digits = low_digits 4 (index + 2) in
          let codepoint = if length digits == 4 then parsed digits else high in
          if is_low_surrogate codepoint
          then continue (index + 2 + length digits)
          else failed (bad_syntax escape_start (index - escape_start) "unmatched surrogate pair"))
      else failed (bad_syntax escape_start (index - escape_start) "unmatched surrogate pair")

  -- \uXXXX, from the first digit on.
  unfoldable pub scan_unicode : ℕ → ℕ → Round
  scan_unicode escape_start index =
      let digits = hex_digits 4 index in
      let stop = index + length digits in
      let codepoint = parsed digits in
      if ltb (length digits) 4
      then failed (bad_syntax escape_start (stop - escape_start) "expected four hex digits")
      else if is_high_surrogate codepoint
      then scan_low_surrogate escape_start stop codepoint
      else if is_low_surrogate codepoint
      then failed (bad_syntax escape_start (stop - escape_start) "unmatched surrogate pair")
      else continue stop

  -- JSON5: \xXX, from the first digit on.
  unfoldable pub scan_latin : ℕ → ℕ → Round
  scan_latin escape_start index =
      let count = length (hex_digits 2 index) in
      if ltb count 2
      then failed (bad_syntax escape_start (index + count - escape_start) "expected two hex digits")
      else continue (index + count)

  -- The character behind the backslash.
  unfoldable pub scan_escaped : ℕ → ℕ → Round
  scan_escaped escape_start index =
      let c = src.string index in
      if is_simple_escape cfg.json5 c
      then continue (index + 1)
      else if cfg.json5 && c == b'x'
      then scan_latin escape_start (index + 1)
      else if c == b'u'
      then scan_unicode escape_start (index + 1)
      else failed (
          bad_syntax escape_start (index + (utf8_decode cfg src index).byte_count - escape_start)
            "invalid escape sequence")

  -- An escape sequence; `index` is behind the backslash.
  unfoldable pub scan_escape : ℕ → ℕ → Round
  scan_escape escape_start index =
      if is_bounded cfg src index 1
      then (if cfg.json5 && leb 1 (is_newline index)
          then continue (index + is_newline index)
          else scan_escaped escape_start index)
      else continue index

  -- Consume a UTF-8 code point.
  unfoldable pub scan_plain : ℕ → Round
  scan_plain index =
      let d = utf8_decode cfg src index in
      if d.codepoint == bad_character_encoding
      then failed (bad_encoding index 1)
      else if d.codepoint == input_too_large
      then failed bad_input_size
      else continue (index + d.byte_count)

  unfoldable pub scan_round : ℕ → ℕ → Round
  scan_round quote_char index =
      let c = src.string index in
      if leb c 0x1F
      then failed (bad_syntax index 1 "unescaped control character")
      else if c == 0x5C
      then scan_escape index (index + 1)
      else if c == quote_char
      then closed (index + 1)
      else scan_plain index

  -- Loop until the closing quote is encountered or EOF. The answer is the end of the string.
  unfoldable pub scan_characters : ℕ → ℕ → ℕ → Result (Option ℕ)
  scan_characters quote_char zero index = ok none
  scan_characters quote_char (suc fuel) index = elim (is_bounded cfg src index 1) [
    | true ↦ elim (scan_round quote_char index) [
      | continue next ↦ scan_characters quote_char fuel next
      | closed stop ↦ ok (some stop)
      | failed e ↦ err e
    ]
    | false ↦ ok none
  ]

  unfoldable pub string_to : ℕ → Result (Option ℕ) → Result Lexeme
  string_to start (ok (some stop)) = ok (record { type = string; lexeme_length = stop - start })
  string_to start (ok none) = err (bad_syntax start 1 "unclosed string")
  string_to start (err e) = err e

  unfoldable pub scan_string : ℕ → Result Lexeme
  scan_string start =
      string_to start (scan_characters (src.string start) (rounds cfg src) (start + 1))
