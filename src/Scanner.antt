-- ===== src/Scanner.antt =====
-- src/judo_scan.c: the state machine, from `accept` to `judo_scan`.
-- `s_state[s_stack]` is the state of the innermost value, and the entries below it are those of the
-- arrays and objects around it.
pub mod Scan
pub mod Moves
pub mod Outcomes
pub mod Stack
pub mod Grammar
pub mod Reader
use judo.Api.{
  Config, JudoResult, JudoToken, ScanState, Stream, Span, root_value, finished_parsing_value,
  parse_array_end_or_array_element, finished_parsing_array_element, parse_object_key_or_object_end,
  parse_object_value, finished_parsing_object_value, parsing_error, encoding_error,
  max_nesting_error, finished_parsing,
}
use judo.Base.Int.{ℤ, pos, negsuc}
use judo.Base.{
  ℕ, zero, suc, ◌+◌, ◌-◌, Bool, true, false, ◌&&◌, ◌||◌, Option, none, some, String, leb, ◌==◌,
  if◌then◌else◌, get_or, set,
}
use judo.Lexer.Failure.{
  Failure, Token, TokenTag, eof, comma, colon, lbrace, rbrace, lcurlyb, rcurlyb, true_word,
  bad_syntax, max_nesting_depth, bad_input_size, report, result_of,
}
use judo.Lexer.Peek.{Scanner, Outcome, done, stopped, M, ◌>>=◌, ◌>>◌, fail, peek}
use judo.Utf8.{Source, is_bounded}

abbrev pub top_state : Stream → ScanState
top_state s = get_or s.s_state s.s_stack root_value

unfoldable pub eat : Token → M (Unit {0})
eat token sc = done tt (record sc { index = sc.index + token.lexeme_length })

-- stream->s_state[stream->s_stack] = state;
unfoldable pub enter : ScanState → M (Unit {0})
enter state sc = done tt (record sc {
  stream = record sc.stream { s_state = set sc.stream.s_state sc.stream.s_stack state };
})

-- stream->where = (struct judo_span){token->lexeme, token->lexeme_length}; stream->token = kind;
unfoldable pub yield_token : JudoToken → Token → M (Unit {0})
yield_token kind token sc = done tt (record sc {
  stream = record sc.stream {
    where_at = record { offset = token.lexeme; length = token.lexeme_length };
    token = kind;
  };
})

-- An error at the scanner's own position.
unfoldable pub fail_here : String → M (Unit {0})
fail_here msg sc = fail (bad_syntax sc.index 1 msg) sc

-- The statements that the routines below share: eat the token, report it, and enter a state.
unfoldable pub take : JudoToken → ScanState → Token → M (Unit {0})
unfolding eat yield_token enter
take kind state token = do eat token; yield_token kind token; enter state

unfoldable pub parse_null : Token → M (Unit {0})
unfolding take
parse_null token = take JudoToken.null finished_parsing_value token

unfoldable pub parse_bool : Token → M (Unit {0})
unfolding take
parse_bool token =
    take (elim token.type [ true_word ↦ JudoToken.true_value | _ ↦ JudoToken.false_value ])
      finished_parsing_value token

unfoldable pub parse_number : Token → M (Unit {0})
unfolding take
parse_number token = take JudoToken.number finished_parsing_value token

unfoldable pub parse_string : Token → M (Unit {0})
unfolding take
parse_string token = take JudoToken.string finished_parsing_value token

unfoldable pub parse_array : Token → M (Unit {0})
unfolding take
parse_array token = take JudoToken.array_begin parse_array_end_or_array_element token

unfoldable pub parse_object : Token → M (Unit {0})
unfolding take
parse_object token = take JudoToken.object_begin parse_object_key_or_object_end token

-- The switch of `parse_value` on the token.
unfoldable pub dispatch_value : String → TokenTag → Token → M (Unit {0})
unfolding parse_null parse_bool parse_number parse_string parse_array parse_object fail_here
dispatch_value msg TokenTag.null token = parse_null token
dispatch_value msg TokenTag.number token = parse_number token
dispatch_value msg TokenTag.string token = parse_string token
dispatch_value msg TokenTag.true_word token = parse_bool token
dispatch_value msg TokenTag.false_word token = parse_bool token
dispatch_value msg TokenTag.lbrace token = parse_array token
dispatch_value msg TokenTag.lcurlyb token = parse_object token
dispatch_value msg _ token = fail_here msg

-- Reserve space on the stack for the next value's state. The index is an `int8_t` in C, which holds
-- every index of the array where `maxdepth` is at most 128.
unfoldable pub push_state : M (Unit {0})
push_state sc =
    done tt (record sc { stream = record sc.stream { s_stack = sc.stream.s_stack + 1 } })

-- The switch of `parse_root`; the two RFCs differ in the values that may be the root.
unfoldable pub dispatch_root : Bool → TokenTag → Token → M (Unit {0})
unfolding parse_null parse_bool parse_number parse_string parse_array parse_object
dispatch_root any TokenTag.lbrace token = parse_array token
dispatch_root any TokenTag.lcurlyb token = parse_object token
dispatch_root true TokenTag.null token = parse_null token
dispatch_root true TokenTag.number token = parse_number token
dispatch_root true TokenTag.string token = parse_string token
dispatch_root true TokenTag.true_word token = parse_bool token
dispatch_root true TokenTag.false_word token = parse_bool token
dispatch_root any _ token = fail (bad_syntax 0 0 "expected root value")

abbrev pub has_trailing_commas : Config → Bool
has_trailing_commas cfg = cfg.with_trailing_commas || cfg.json5

module _ (cfg : Config) (src : Source) where
  unfoldable pub parse_value : String → M (Unit {0})
  unfolding push_state dispatch_value
  parse_value msg sc =
      if leb (cfg.maxdepth - 1) sc.stream.s_stack
      then fail (max_nesting_depth sc.index) sc
      else (do push_state; token ← peek cfg src; dispatch_value msg token.type token) sc

  unfoldable pub parse_array_element : M (Unit {0})
  unfolding enter parse_value
  parse_array_element = do enter finished_parsing_array_element; parse_value "expected value"

  -- The end of the array, or one of its elements, by the type of the token.
  unfoldable pub array_element_or_end : TokenTag → Token → M (Unit {0})
  unfolding take parse_array_element
  array_element_or_end rbrace token = take JudoToken.array_end finished_parsing_value token
  array_element_or_end _ token = parse_array_element

  unfoldable pub parse_array_element_or_array_end : M (Unit {0})
  unfolding array_element_or_end
  parse_array_element_or_array_end = do token ← peek cfg src; array_element_or_end token.type token

  -- Behind an element: a comma or the end of the array.
  unfoldable pub after_array_element : TokenTag → Token → M (Unit {0})
  unfolding eat take parse_array_element parse_array_element_or_array_end fail_here
  after_array_element comma token = do
    eat token
    if has_trailing_commas cfg then parse_array_element_or_array_end else parse_array_element
  after_array_element rbrace token = take JudoToken.array_end finished_parsing_value token
  after_array_element _ token = fail_here "expected ']' or ','"

  -- `finished_parsing_array_element`
  unfoldable pub continue_array : M (Unit {0})
  unfolding after_array_element
  continue_array = do token ← peek cfg src; after_array_element token.type token

  -- By the type of the token; an identifier is a key in JSON5 only.
  unfoldable pub parse_object_key : TokenTag → Token → M (Unit {0})
  unfolding take fail_here
  parse_object_key TokenTag.string token = take JudoToken.object_name parse_object_value token
  parse_object_key TokenTag.identifier token =
      if cfg.json5
      then take JudoToken.object_name parse_object_value token
      else fail_here "expected '}' or string"
  parse_object_key _ token = fail_here "expected '}' or string"

  -- The value behind a colon.
  unfoldable pub parse_member_value : TokenTag → Token → M (Unit {0})
  unfolding eat enter parse_value fail_here
  parse_member_value colon token = do
    eat token
    enter finished_parsing_object_value
    parse_value "expected value after ':'"
  parse_member_value _ token = fail_here "expected ':'"

  -- `parse_object_value`, whose call of `accept` reads the token and eats it if it is a colon.
  unfoldable pub continue_member : M (Unit {0})
  unfolding parse_member_value
  continue_member = do token ← peek cfg src; parse_member_value token.type token

  unfoldable pub object_key_or_end : TokenTag → Token → M (Unit {0})
  unfolding take parse_object_key
  object_key_or_end rcurlyb token = take JudoToken.object_end finished_parsing_value token
  object_key_or_end tag token = parse_object_key tag token

  -- `parse_object_key_or_object_end`
  unfoldable pub begin_member : M (Unit {0})
  unfolding object_key_or_end
  begin_member = do token ← peek cfg src; object_key_or_end token.type token

  -- The next token, which is supposed to be an object name.
  unfoldable pub next_member : M (Unit {0})
  unfolding parse_object_key
  next_member = do name ← peek cfg src; parse_object_key name.type name

  -- Behind a member: a comma or the end of the object.
  unfoldable pub after_object_value : TokenTag → Token → M (Unit {0})
  unfolding eat take begin_member next_member fail_here
  after_object_value comma token = do
    eat token
    if has_trailing_commas cfg then begin_member else next_member
  after_object_value rcurlyb token = take JudoToken.object_end finished_parsing_value token
  after_object_value _ token = fail_here "expected '}' or ','"

  -- `finished_parsing_object_value`
  unfoldable pub continue_object : M (Unit {0})
  unfolding after_object_value
  continue_object = do token ← peek cfg src; after_object_value token.type token

  -- Skip UTF-8 BOM (if present).
  unfoldable pub skip_bom : M (Unit {0})
  skip_bom sc =
      if is_bounded cfg src sc.index 3
        && (src.string 0 == 0xEF && src.string 1 == 0xBB && src.string 2 == 0xBF)
      then done tt (record sc { index = sc.index + 3 })
      else done tt sc

  unfoldable pub parse_root : M (Unit {0})
  unfolding skip_bom dispatch_root
  parse_root = do
    skip_bom
    token ← peek cfg src
    dispatch_root (cfg.rfc8259 || cfg.json5) token.type token
