-- ===== src/Lexer/Failure.antt =====
-- src/judo_scan.c: the functions that report an error, and `struct token`.
-- A scanning routine hands its error over as a value; `report` then stores it in the stream as the
-- function of that name does. Where a routine reports twice, the later call stores the same four
-- fields, so the last error is the value.
use judo.Api.{
  JudoResult, Stream, ScanState, parsing_error, encoding_error, max_nesting_error, JudoToken,
}
use judo.Base.{ℕ, String, set}

pub data Failure : Type 0 where
  bad_syntax : ℕ → ℕ → String → Failure
  bad_encoding : ℕ → ℕ → Failure
  bad_input_size : Failure
  max_nesting_depth : ℕ → Failure

-- The result code that the function returns.
unfoldable pub result_of : Failure → JudoResult
result_of (bad_syntax cursor length msg) = JudoResult.bad_syntax
result_of (bad_encoding cursor length) = JudoResult.illegal_byte_sequence
result_of bad_input_size = JudoResult.input_too_large
result_of (max_nesting_depth index) = JudoResult.maximum_nesting

store_failure : Stream → ℕ → ℕ → ScanState → String → Stream
store_failure stream offset length state msg = record stream {
  where_at = record { offset = offset; length = length };
  token = JudoToken.invalid;
  s_state = set stream.s_state stream.s_stack state;
  error = msg;
}

-- What the function stores in the stream.
unfoldable pub report : Failure → Stream → Stream
unfolding store_failure
report (bad_syntax cursor length msg) s = store_failure s cursor length parsing_error msg
report (bad_encoding cursor length) s =
    store_failure s cursor length encoding_error "malformed encoded character"
report bad_input_size s = store_failure s 0 0 encoding_error "maximum input size exceeded"
report (max_nesting_depth index) s =
    store_failure s index 1 max_nesting_error "maximum nesting depth exceeded"

pub data Result {ℓ} (A : Type ℓ) : Type ℓ where
  ok : A → Result A
  err : Failure → Result A

-- Primitive JSON and JSON5 tokens.
pub data TokenTag : Type 0 where
  invalid eof null true_word false_word number string identifier : TokenTag
  comma colon lbrace rbrace lcurlyb rcurlyb : TokenTag

pub record Token : Type 0 where
  pub type : TokenTag
  pub lexeme : ℕ
  pub lexeme_length : ℕ

-- What a scanning routine stores in the token that it is given.
pub record Lexeme : Type 0 where
  pub type : TokenTag
  pub lexeme_length : ℕ
