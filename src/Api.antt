-- ===== src/Api.antt =====
-- include/judo.h and judo_config.h.in: the result codes, tokens, spans and the stream, and the
-- options that are fixed when the library is built. An option is a field of `Config`, so that the
-- code under `#if` is a test of that field. `JUDO_RFC4627` is the case where neither `rfc8259` nor
-- `json5` is set.
use judo.Base.{ℕ, Bool, List, String, replicate}

pub data JudoResult : Type 0 where
  success bad_syntax no_buffer_space illegal_byte_sequence out_of_range : JudoResult
  invalid_operation maximum_nesting input_too_large out_of_memory malfunction : JudoResult

pub data JudoToken : Type 0 where
  invalid null true_value false_value number string : JudoToken
  array_begin array_end object_begin object_end object_name eof : JudoToken

-- A range of UTF-8 code units in the JSON source text.
pub record Span : Type 0 where
  pub offset : ℕ
  pub length : ℕ

-- The states of the scanner's virtual stack (`SCAN_STATE_*`; the source has no state 2).
pub data ScanState : Type 0 where
  root_value finished_parsing_value : ScanState
  parse_array_end_or_array_element finished_parsing_array_element : ScanState
  parse_object_key_or_object_end parse_object_value finished_parsing_object_value : ScanState
  parsing_error encoding_error max_nesting_error finished_parsing : ScanState

-- `struct judo_stream`. `where` is a reserved word, so that field is `where_at`. `s_stack` is an
-- `int8_t` in C, and a natural number here, without its wrap-around: the model is one of the builds
-- with `maxdepth` of at most 128, where every index of `s_state` is a value of that type.
pub record Stream : Type 0 where
  pub s_at : ℕ
  pub where_at : Span
  pub token : JudoToken
  pub s_stack : ℕ
  pub s_state : List ScanState
  pub error : String

-- The build options. `uniflags` is `judo_uniflags`, a generated table of Unicode properties.
pub record Config : Type 0 where
  pub json5 : Bool
  pub rfc8259 : Bool
  pub with_comments : Bool
  pub with_trailing_commas : Bool
  pub maxdepth : ℕ
  pub maximum_input_size : ℕ
  pub uniflags : ℕ → ℕ

-- `struct judo_stream stream = {0}`
unfoldable pub zero_stream : ℕ → Stream
zero_stream maxdepth = record {
  s_at = 0;
  where_at = record { offset = 0; length = 0 };
  token = invalid;
  s_stack = 0;
  s_state = replicate maxdepth root_value;
  error = "";
}
