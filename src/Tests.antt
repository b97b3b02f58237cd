-- ===== src/Tests.antt =====
-- Runs of `judo_scan` of src/judo_scan.c on small texts, and instances of the theorems.
mod Codec
mod Parser
mod Program
mod Stringify
mod Numberify
mod Tokens
use judo.Api.{
  Config, JudoResult, Stream, zero_stream, success, array_begin, array_end, eof, root_value,
  finished_parsing_value, finished_parsing_array_element,
}
use judo.Base.Int.{pos}
use judo.Base.{
  ◌<◌, ◌^◌, ◌≤◌, ℕ, ◌%◌, ◌≡◌, ◌≢◌, refl, ap, arith, [], ◌∷◌, true, false, get_or, codes, length,
  String, some, none, inl,
}
use judo.Lexer.Failure.{TokenTag, result_of}
use judo.Lexer.Number.{
  peek_at, skip_while, scan_number, scan_number_rfc, number_to, scan_integer, skip_digits,
  scan_fraction, scan_exponent, settle, rounds,
}
use judo.Lexer.Number.Bounds.{skip_while_stops, scan_number-IsToken, IsToken, IsAscii}
use judo.Lexer.Quoted.{
  scan_string, string_to, scan_characters, scan_round, scan_plain, scan_escape, scan_escaped,
  is_simple_escape,
}
use judo.Lexer.Quoted.Bounds.{scan_string-IsToken}
use judo.Lexer.Peek.{Scanner, peek, lex, lex_character, starts_number}
use judo.Lexer.Space.{scan_multiline_comment, comment_to, find_comment_end}
use judo.Lexer.Space.Ends.{consume_space_and_comments_stops, scan_multiline_comment_stops}
use judo.Lexer.Quoted.Ends.{scan_characters_stops}
use judo.Lexer.Word.{skip_continue}
use judo.Lexer.Word.Ends.{EndsWords, skip_continue_stops}
use judo.Lexer.Peek.Bounds.{Peeks, peek-Peeks}
use judo.Chars.{is_continue, is_match, judo_isdigit, is_space}
use judo.Scanner.Grammar.{IsValue}
use judo.Scanner.Reader.{
  read_tokens, read_tokens-IsValue, read_tokens-finishes, zero_stream-Readable,
}
use judo.Scanner.Scan.{is_too_long, judo_scan, pop_stack, run_state, expect_eof}
use judo.Scanner.Scan.Cases.{Scans}
use judo.Scanner.Scan.Stable.{
  repeated, judo_scan-IsValid, judo_scan_failed_again, judo_scan_ended_again,
}
use judo.Scanner.Scan.Total.{judo_scan-Scans}
use judo.Scanner.Moves.{Waits}
use judo.Scanner.Stack.{IsValid}
use judo.Utf8.{
  Source, utf8_decode, utf8_encode, bytes_needed, is_bounded, is_end, decode_bounded, untruncated,
  decoded, decode_sequence, decode_rest, leading_mask, next_state, is_terminator,
}
use judo.Utf8.Bytes.{bytes_needed-announced_bytes, announced_bytes}
use judo.Utf8.Complete.{utf8_decode-utf8_encode}
use judo.Utf8.Scalar.{utf8_encode-rfc3629, rfc3629}
use judo.Utf8.Sound.{IsBytes, utf8_decode-Reads, Reads}
use judo.Scanner.{
  continue_array, after_array_element, parse_root, parse_array, parse_array_element_or_array_end,
  array_element_or_end, take, dispatch_root,
}
use judo.Lexer.Space.{consume_space_and_comments, consume_loop, pass_space}
use judo.Utf8.Tables.{bytes_needed_for_utf8_sequence, next_utf8_dfa, byte_to_character_class}

-- RFC 8259, with a small stack.
abbrev pub rfc : Config
rfc = record {
  json5 = false;
  rfc8259 = true;
  with_comments = false;
  with_trailing_commas = false;
  maxdepth = 4;
  maximum_input_size = 0x40000000;
  uniflags = λ c. 0;
}

abbrev pub bytes_of : String → ℕ → ℕ
bytes_of s i = get_or (codes s) i 0 % 256

abbrev pub text : String → Source
text s = record { string = bytes_of s; length = pos (length (codes s)) }

pub bytes_of-IsBytes : (s : String) → IsBytes (bytes_of s)
bytes_of-IsBytes s i = omega arith

abbrev pub start : Stream
start = zero_stream 4

start-IsValid : IsValid rfc start
start-IsValid = (zero_stream-Readable rfc (omega arith)).0

abbrev empty_array : Source
empty_array = text "[]"

-- The two calls that read the array, and the one that finds the end of the text.
read_empty_array :
    read_tokens rfc empty_array 3 start
    ≡ record { tokens = array_begin ∷ array_end ∷ []; result = some success }
unfolding judo_scan pop_stack run_state parse_root is_bounded peek consume_space_and_comments
    consume_loop rounds pass_space is_space utf8_decode is_end decode_bounded untruncated
    bytes_needed bytes_needed_for_utf8_sequence decoded decode_sequence decode_rest leading_mask
    next_state is_terminator next_utf8_dfa byte_to_character_class lex lex_character starts_number
    judo_isdigit parse_array parse_array_element_or_array_end zero_stream array_element_or_end take
    dispatch_root expect_eof read_tokens
read_empty_array = refl

abbrev unclosed_array : Source
unclosed_array = text "[1"

abbrev after_element : Stream
after_element = record start {
  s_at = 2;
  s_stack = 1;
  s_state = finished_parsing_array_element ∷ finished_parsing_value ∷ root_value ∷ root_value ∷ [];
}

after_element-IsValid : IsValid rfc after_element
after_element-IsValid = record { size = refl; fits = omega arith; waiting = (Waits.in_array, tt) }

unclosed_array_failed : (judo_scan rfc unclosed_array after_element).result ≡ JudoResult.bad_syntax
unfolding judo_scan pop_stack run_state parse_root is_bounded peek consume_space_and_comments
    consume_loop rounds pass_space is_space utf8_decode is_end decode_bounded untruncated
    bytes_needed bytes_needed_for_utf8_sequence decoded decode_sequence decode_rest leading_mask
    next_state is_terminator next_utf8_dfa byte_to_character_class lex lex_character starts_number
    judo_isdigit parse_array parse_array_element_or_array_end zero_stream array_element_or_end take
    dispatch_root expect_eof continue_array after_array_element result_of
unclosed_array_failed = refl

-- The stream behind both brackets of the array.
abbrev behind_array : Stream
behind_array = record start {
  s_at = 2;
  token = array_end;
  s_state = finished_parsing_value ∷ root_value ∷ root_value ∷ root_value ∷ [];
}

behind_array-IsValid : IsValid rfc behind_array
unfolding zero_stream
behind_array-IsValid = record { size = refl; fits = omega arith; waiting = tt }

array_ended : (judo_scan rfc empty_array behind_array).result ≡ success
unfolding judo_scan pop_stack run_state parse_root is_bounded peek consume_space_and_comments
    consume_loop rounds pass_space is_space utf8_decode is_end decode_bounded untruncated
    bytes_needed bytes_needed_for_utf8_sequence decoded decode_sequence decode_rest leading_mask
    next_state is_terminator next_utf8_dfa byte_to_character_class lex lex_character starts_number
    judo_isdigit parse_array parse_array_element_or_array_end zero_stream array_element_or_end take
    dispatch_root expect_eof
array_ended = refl

array_ended_eof : (judo_scan rfc empty_array behind_array).stream.token ≡ eof
unfolding judo_scan pop_stack run_state parse_root is_bounded peek consume_space_and_comments
    consume_loop rounds pass_space is_space utf8_decode is_end decode_bounded untruncated
    bytes_needed bytes_needed_for_utf8_sequence decoded decode_sequence decode_rest leading_mask
    next_state is_terminator next_utf8_dfa byte_to_character_class lex lex_character starts_number
    judo_isdigit parse_array parse_array_element_or_array_end zero_stream array_element_or_end take
    dispatch_root expect_eof
array_ended_eof = refl

judo_scan-Scans_example : Scans rfc empty_array start (judo_scan rfc empty_array start)
unfolding is_too_long
judo_scan-Scans_example =
    judo_scan-Scans rfc empty_array (bytes_of-IsBytes "[]") start start-IsValid refl

read_tokens-IsValue_example : IsValue (read_tokens rfc empty_array 3 start).tokens
unfolding is_too_long
read_tokens-IsValue_example =
    read_tokens-IsValue rfc empty_array (bytes_of-IsBytes "[]") refl 3 (omega arith)
      (ap (λ r. r.result) read_empty_array)

read_tokens-finishes_example : (read_tokens rfc empty_array 3 start).result ≢ none
unfolding zero_stream is_too_long
read_tokens-finishes_example =
    read_tokens-finishes rfc empty_array (bytes_of-IsBytes "[]") refl 2 3 start
      (λ h. omega (arith, h)) (omega arith) (omega arith) (zero_stream-Readable rfc (omega arith))

judo_scan-IsValid_example :
    IsValid rfc (judo_scan rfc unclosed_array after_element).stream
    × ((judo_scan rfc unclosed_array after_element).stream.s_stack < 2 ^ 7)
judo_scan-IsValid_example =
    judo_scan-IsValid rfc unclosed_array (omega arith) after_element (bytes_of-IsBytes "[1")
      after_element-IsValid

judo_scan_failed_again_example :
    judo_scan rfc unclosed_array (judo_scan rfc unclosed_array after_element).stream ≡ record {
      result = repeated (judo_scan rfc unclosed_array after_element).result;
      stream = (judo_scan rfc unclosed_array after_element).stream;
    }
unfolding is_too_long
judo_scan_failed_again_example =
    judo_scan_failed_again rfc unclosed_array after_element (bytes_of-IsBytes "[1")
      after_element-IsValid refl (rw unclosed_array_failed (λ e. cc))

judo_scan_ended_again_example :
    judo_scan rfc empty_array (judo_scan rfc empty_array behind_array).stream
    ≡ record { result = success; stream = (judo_scan rfc empty_array behind_array).stream }
unfolding is_too_long
judo_scan_ended_again_example =
    judo_scan_ended_again rfc empty_array behind_array (bytes_of-IsBytes "[]") behind_array-IsValid
      refl array_ended array_ended_eof
