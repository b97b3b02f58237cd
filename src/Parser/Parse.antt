-- ===== src/Parser/Parse.antt =====
-- src/judo_parse.c: `judo_parse`.
pub mod Calls
pub mod Loop
pub mod Outcome
pub mod Valid
use judo.Api.{
  Config, JudoResult, JudoToken, Span, Stream, success, invalid_operation, out_of_memory, eof,
  zero_stream,
}
use judo.Base.Int.{ℤ}
use judo.Base.{ℕ, zero, suc, ◌*◌, Bool, true, false, Option, none, some, [], String, length}
use judo.Parser.Build.{Context, process_value}
use judo.Parser.Free.{judo_free}
use judo.Parser.{Heap, ◌>>=◌, zero_span}
use judo.Scanner.Scan.{judo_scan}
use judo.Utf8.{Source}

-- `struct judo_error`
pub record JudoError : Type 0 where
  pub where_at : Span
  pub description : String

-- Where the loop ends: the result code, the stream and the context.
pub record Ended : Type 0 where
  pub result : JudoResult
  pub stream : Stream
  pub context : Context

-- The loop goes on behind a value that was processed, up to the end of the text.
abbrev pub goes_on : JudoResult → JudoToken → Bool
goes_on success eof = false
goes_on success _ = true
goes_on _ _ = false

-- Process the token that was scanned.
unfoldable pub process_scanned : ℕ → (ℕ → Bool) → JudoResult → Stream → Context → Option Ended
process_scanned maxdepth available success stream ctx = do
  r ← process_value maxdepth available stream.token stream.where_at ctx
  some (record { result = r.0; stream = stream; context = r.1 })
process_scanned maxdepth available code stream ctx =
    some (record { result = code; stream = stream; context = ctx })

-- Scan and process a token.
unfoldable pub parse_round : Config → Source → (ℕ → Bool) → Stream → Context → Option Ended
parse_round cfg src available stream ctx =
    let s = judo_scan cfg src stream in process_scanned cfg.maxdepth available s.result s.stream ctx

unfoldable pub parse_loop : Config → Source → (ℕ → Bool) → ℕ → Stream → Context → Option Ended
parse_loop cfg src available zero stream ctx = none
parse_loop cfg src available (suc calls) stream ctx = do
  e ← parse_round cfg src available stream ctx
  elim (goes_on e.result e.stream.token) [
    | true ↦ parse_loop cfg src available calls e.stream e.context
    | false ↦ some e
  ]

-- What a call returns and stores: the result code, `*root`, `*error` unless that is NULL, and the
-- memory.
pub record Parsed : Type 0 where
  pub result : JudoResult
  pub root : Option ℕ
  pub error : Option JudoError
  pub heap : Heap

abbrev pub map_error : (JudoError → JudoError) → Option JudoError → Option JudoError
map_error f none = none
map_error f (some e) = some (f e)

abbrev pub description_of : JudoResult → String → String
description_of out_of_memory text = "memory allocation failed"
description_of _ text = text

-- Behind the loop: release everything behind a failure.
unfoldable pub finish : ℕ → JudoResult → Stream → Context → Option JudoError → Option Parsed
finish maxdepth success stream ctx error = some (record {
  result = success;
  root = ctx.root;
  error = map_error (λ _. record { where_at = zero_span; description = "" }) error;
  heap = ctx.heap;
})
finish maxdepth code stream ctx error = do
  r ← judo_free maxdepth (2 * length ctx.heap) true ctx.root ctx.heap
  some (record {
    result = code;
    root = none;
    error =
        map_error
          (λ _. record {
            where_at = stream.where_at;
            description = description_of code stream.error;
          })
          error;
    heap = r.1;
  })

abbrev pub empty_context : Context
empty_context = record { heap = []; root = none; stack = [] }

-- A call with a text, a place for the root, and a function for the memory; so many scans at most.
unfoldable pub judo_parse : Config → Source → (ℕ → Bool) → ℕ → Option JudoError → Option Parsed
judo_parse cfg src available calls error = do
  e ← parse_loop cfg src available calls (zero_stream cfg.maxdepth) empty_context
  finish cfg.maxdepth e.result e.stream e.context error

-- What a call with null pointers stores in `*root`, `none` where there is no place for it.
pub record Refused : Type 0 where
  pub result : JudoResult
  pub root : Option (Option ℕ)

pub data ParseCall : Type 0 where
  parsed : Parsed → ParseCall
  refused : Refused → ParseCall

unfoldable pub parse_call :
    Config → Option (ℕ → ℕ) → ℤ → Bool → Option (ℕ → Bool) → ℕ → Option JudoError → Option ParseCall
parse_call cfg source length false memfunc calls error =
    some (refused (record { result = invalid_operation; root = none }))
parse_call cfg none length true memfunc calls error =
    some (refused (record { result = invalid_operation; root = some none }))
parse_call cfg (some string) length true none calls error =
    some (refused (record { result = invalid_operation; root = some none }))
parse_call cfg (some string) length true (some available) calls error = do
  p ← judo_parse cfg (record { string = string; length = length }) available calls error
  some (parsed p)
