-- ===== src/Scanner/Scan.antt =====
-- src/judo_scan.c: `judo_scan`.
pub mod Cases
pub mod Total
pub mod Stable
use judo.Api.{
  Config, JudoResult, JudoToken, ScanState, Stream, root_value, finished_parsing_value,
  parse_array_end_or_array_element, finished_parsing_array_element, parse_object_key_or_object_end,
  parse_object_value, finished_parsing_object_value, parsing_error, encoding_error,
  max_nesting_error, finished_parsing, success, illegal_byte_sequence, maximum_nesting,
  invalid_operation,
}
use judo.Base.Int.{ℤ, pos, negsuc}
use judo.Base.{ℕ, zero, suc, Bool, false, Option, none, some, leb, if◌then◌else◌}
use judo.Lexer.Failure.{Token, TokenTag, bad_input_size, report, result_of}
use judo.Lexer.Peek.{Outcome, done, stopped, M, ◌>>=◌, ◌>>◌, peek}
use judo.Scanner.{
  top_state, enter, yield_token, fail_here, parse_root, continue_array,
  parse_array_element_or_array_end, begin_member, continue_member, continue_object,
}
use judo.Utf8.{Source}

abbrev stop_with : JudoResult → M (Unit {0})
stop_with r sc = stopped r sc

-- The root value is finished: only the end of the text may follow.
unfoldable pub expect_eof : TokenTag → Token → M (Unit {0})
unfolding enter yield_token fail_here
expect_eof TokenTag.eof token = do yield_token JudoToken.eof token; enter finished_parsing
expect_eof _ token = fail_here "expected EOF"

-- The value on top of the stack is finished, and the stack holds so many values below it.
unfoldable pub pop_finished : Config → Source → ℕ → M (Unit {0})
unfolding expect_eof
pop_finished cfg src zero sc = (do token ← peek cfg src; expect_eof token.type token) sc
pop_finished cfg src (suc depth) sc =
    done tt (record sc { stream = record sc.stream { s_stack = depth } })

-- Pop a finished value, so that the switch always operates on an unfinished one.
unfoldable pub pop_stack : Config → Source → ScanState → M (Unit {0})
unfolding pop_finished
pop_stack cfg src finished_parsing_value sc = pop_finished cfg src sc.stream.s_stack sc
pop_stack cfg src _ sc = done tt sc

-- The switch on the state. A value on top of the stack is not finished here (`malfunction`).
unfoldable pub run_state : Config → Source → ScanState → M (Unit {0})
run_state cfg src root_value = parse_root cfg src
run_state cfg src finished_parsing_array_element = continue_array cfg src
run_state cfg src parse_array_end_or_array_element = parse_array_element_or_array_end cfg src
run_state cfg src parse_object_key_or_object_end = begin_member cfg src
run_state cfg src parse_object_value = continue_member cfg src
run_state cfg src finished_parsing_object_value = continue_object cfg src
run_state cfg src parsing_error = stop_with JudoResult.bad_syntax
run_state cfg src encoding_error = stop_with illegal_byte_sequence
run_state cfg src max_nesting_error = stop_with maximum_nesting
run_state cfg src finished_parsing = λ sc. done tt sc
run_state cfg src finished_parsing_value = stop_with JudoResult.malfunction

-- What a call returns, and the stream that it leaves.
pub record Scanned : Type 0 where
  pub result : JudoResult
  pub stream : Stream

-- stream->s_at = scanner.index;
unfoldable pub save_index : Outcome (Unit {0}) → Scanned
save_index (done _ sc) = record { result = success; stream = record sc.stream { s_at = sc.index } }
save_index (stopped r sc) = record { result = r; stream = record sc.stream { s_at = sc.index } }

-- The switch, if the pop before it succeeded.
unfoldable pub scan_popped : Config → Source → Outcome (Unit {0}) → Scanned
unfolding save_index
scan_popped cfg src (done _ sc) = save_index (run_state cfg src (top_state sc.stream) sc)
scan_popped cfg src (stopped r sc) = record { result = r; stream = sc.stream }

unfoldable pub is_too_long : Config → ℤ → Bool
is_too_long cfg (pos length) = leb cfg.maximum_input_size length
is_too_long cfg (negsuc _) = false

-- A call with a stream and a text.
unfoldable pub judo_scan : Config → Source → Stream → Scanned
unfolding scan_popped is_too_long
judo_scan cfg src stream =
    if is_too_long cfg src.length
    then record { result = result_of bad_input_size; stream = report bad_input_size stream }
    else scan_popped cfg src
        (pop_stack cfg src (top_state stream) (record { index = stream.s_at; stream = stream }))

-- A call with pointers, `none` being null. A null stream is dereferenced if the length is too large.
pub data Call : Type 0 where
  returned : JudoResult → Option Stream → Call
  null_dereference : Call

abbrev returned_stream : Scanned → Call
returned_stream r = returned r.result (some r.stream)

unfoldable pub scan_call : Config → Option (ℕ → ℕ) → ℤ → Option Stream → Call
scan_call cfg source length none =
    if is_too_long cfg length then null_dereference else returned invalid_operation none
scan_call cfg none length (some s) =
    if is_too_long cfg length
    then returned (result_of bad_input_size) (some (report bad_input_size s))
    else returned invalid_operation (some s)
scan_call cfg (some string) length (some s) =
    returned_stream (judo_scan cfg (record { string = string; length = length }) s)
