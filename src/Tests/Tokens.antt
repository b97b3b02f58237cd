-- ===== src/Tests/Tokens.antt =====
-- Instances of the theorems on the tokens, spaces and comments of src/judo_scan.c.
use judo.Chars.Match.{is_match_iff}
use judo.Utf8.Scalar.{Holds}
use judo.Api.{zero_stream}
use judo.Base.{none, ◌≢◌, true, ℕ, ◌≡◌, refl, arith, false, ◌↔◌, codes, length}
use judo.Lexer.Failure.{TokenTag}
use judo.Lexer.Number.{
  peek_at, skip_while, scan_number, scan_number_rfc, number_to, scan_integer, skip_digits,
  scan_fraction, scan_exponent, settle, rounds,
}
use judo.Lexer.Number.Bounds.{skip_while_stops, scan_number-IsToken, IsToken, IsAscii}
use judo.Lexer.Quoted.{
  scan_string, string_to, scan_characters, scan_round, scan_plain, scan_escape, scan_escaped,
  is_simple_escape,
}
use judo.Lexer.Quoted.Bounds.{scan_string-IsToken}
use judo.Lexer.Peek.{Scanner, peek, lex, lex_character, starts_number}
use judo.Lexer.Space.{scan_multiline_comment}
use judo.Lexer.Space.Ends.{
  EndsSpaces, Behind, InComment, Reached, consume_space_and_comments_stops,
  scan_multiline_comment_stops,
}
use judo.Lexer.Quoted.Ends.{Ended, scan_characters_stops}
use judo.Lexer.Word.{skip_continue}
use judo.Lexer.Word.Ends.{EndsWords, skip_continue_stops}
use judo.Lexer.Peek.Bounds.{Peeks, peek-Peeks}
use judo.Chars.{is_continue, is_match, judo_isdigit, is_space}
use judo.Scanner.Scan.{judo_scan, pop_stack, run_state, expect_eof}
use judo.Utf8.{
  Source, utf8_decode, bytes_needed, is_bounded, is_end, decode_bounded, untruncated, decoded,
  decode_sequence, decode_rest, leading_mask, next_state, is_terminator,
}
use judo.Scanner.{
  parse_root, parse_array, parse_array_element_or_array_end, array_element_or_end, take,
  dispatch_root,
}
use judo.Lexer.Space.{consume_space_and_comments, consume_loop, pass_space}
use judo.Utf8.Tables.{bytes_needed_for_utf8_sequence, next_utf8_dfa, byte_to_character_class}
use judo.Tests.{rfc, text, bytes_of-IsBytes, start}

abbrev numeral : Source
numeral = text "-1.5e3,"

judo_isdigit-IsAscii : IsAscii judo_isdigit
unfolding judo_isdigit
judo_isdigit-IsAscii c h = ground arith

skip_while_stops_example :
    judo_isdigit (peek_at rfc numeral (skip_while rfc numeral judo_isdigit 0x40000001 3)) ≡ false
skip_while_stops_example =
    skip_while_stops rfc numeral (bytes_of-IsBytes "-1.5e3,") judo_isdigit judo_isdigit-IsAscii
      0x40000001 3 (omega arith)

abbrev at_numeral : Scanner
at_numeral = record { index = 0; stream = start }

peek-Peeks_example : Peeks numeral at_numeral (peek rfc numeral at_numeral)
peek-Peeks_example = peek-Peeks rfc numeral (bytes_of-IsBytes "-1.5e3,") at_numeral

scan_number-IsToken_example :
    IsToken numeral TokenTag.number 0 (record { type = TokenTag.number; lexeme_length = 6 })
unfolding judo_scan pop_stack run_state parse_root is_bounded peek consume_space_and_comments
    consume_loop rounds pass_space is_space utf8_decode is_end decode_bounded untruncated
    bytes_needed bytes_needed_for_utf8_sequence decoded decode_sequence decode_rest leading_mask
    next_state is_terminator next_utf8_dfa byte_to_character_class lex lex_character starts_number
    judo_isdigit parse_array parse_array_element_or_array_end zero_stream array_element_or_end take
    dispatch_root expect_eof scan_number scan_number_rfc number_to scan_integer skip_digits
    scan_fraction scan_exponent settle
scan_number-IsToken_example =
    scan_number-IsToken rfc numeral (bytes_of-IsBytes "-1.5e3,") 0
      (record { type = TokenTag.number; lexeme_length = 6 }) (omega arith) (omega arith) refl

abbrev quoted : Source
quoted = text "\"a\\n\""

scan_string-IsToken_example :
    IsToken quoted TokenTag.string 0 (record { type = TokenTag.string; lexeme_length = 5 })
unfolding judo_scan pop_stack run_state parse_root is_bounded peek consume_space_and_comments
    consume_loop rounds pass_space is_space utf8_decode is_end decode_bounded untruncated
    bytes_needed bytes_needed_for_utf8_sequence decoded decode_sequence decode_rest leading_mask
    next_state is_terminator next_utf8_dfa byte_to_character_class lex lex_character starts_number
    judo_isdigit parse_array parse_array_element_or_array_end zero_stream array_element_or_end take
    dispatch_root expect_eof scan_string string_to scan_characters scan_round scan_plain scan_escape
    scan_escaped is_simple_escape
scan_string-IsToken_example =
    scan_string-IsToken rfc quoted (bytes_of-IsBytes "\"a\\n\"") 0
      (record { type = TokenTag.string; lexeme_length = 5 }) (omega arith) (omega arith) refl

abbrev spaced : Source
spaced = text " \t\n[]"

spaced-EndsSpaces : EndsSpaces rfc spaced (bytes_of-IsBytes " \t\n[]")
unfolding is_space
spaced-EndsSpaces = record { at_null = refl; at_bad = refl; at_large = refl }

consume_space_and_comments_stops_example :
    Behind rfc spaced (bytes_of-IsBytes " \t\n[]") (consume_space_and_comments rfc spaced 0)
consume_space_and_comments_stops_example =
    consume_space_and_comments_stops rfc spaced (bytes_of-IsBytes " \t\n[]") spaced-EndsSpaces 0
      (omega arith)

abbrev unclosed_comment : Source
unclosed_comment = text "/* x"

scan_multiline_comment_stops_example :
    (j : ℕ) × InComment rfc unclosed_comment (bytes_of-IsBytes "/* x") 2 j
    × Reached rfc unclosed_comment
        (bytes_of-IsBytes "/* x")
        0
        j
        (scan_multiline_comment rfc unclosed_comment 0).byte_count
    × ((scan_multiline_comment rfc unclosed_comment 0).byte_count ≡ 0
        → (scan_multiline_comment rfc unclosed_comment 0).failure ≢ none)
scan_multiline_comment_stops_example =
    scan_multiline_comment_stops rfc unclosed_comment (bytes_of-IsBytes "/* x") 0

abbrev unclosed_string : Source
unclosed_string = text "\"a"

scan_characters_stops_example :
    Ended rfc unclosed_string
      (bytes_of-IsBytes "\"a")
      34
      1
      (scan_characters rfc unclosed_string 34 0x40000001 1)
scan_characters_stops_example =
    scan_characters_stops rfc unclosed_string (bytes_of-IsBytes "\"a") 34 0x40000001 1 (omega arith)
      (omega arith)

abbrev word : Source
word = text "null]"

rfc-EndsWords : EndsWords rfc
unfolding is_continue
rfc-EndsWords = record { at_null = refl; at_bad = refl; at_large = refl }

skip_continue_stops_example :
    is_continue rfc (peek_at rfc word (skip_continue rfc word 0x40000001 1)) ≡ false
skip_continue_stops_example =
    skip_continue_stops rfc word (bytes_of-IsBytes "null]") rfc-EndsWords 0x40000001 1 (omega arith)

is_match_iff_example :
    (is_match word.string 0 (codes "null") 4 ≡ true)
    ↔ ((4 ≡ length (codes "null")) × Holds word.string 0 (codes "null"))
is_match_iff_example = is_match_iff word.string 0 (codes "null") 4
