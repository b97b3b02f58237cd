-- ===== src/Lexer/Peek.antt =====
-- src/judo_scan.c: `struct scanner`, the switch of `peek`, and `peek` itself.
pub mod Bounds
use judo.Api.{Config, JudoResult, Stream}
use judo.Base.{ℕ, Bool, ◌&&◌, ◌||◌, none, some, ltb, ◌==◌, if◌then◌else◌}
use judo.Chars.{judo_isdigit}
use judo.Lexer.Failure.{
  Failure, Result, ok, err, Lexeme, Token, TokenTag, bad_syntax, bad_encoding, bad_input_size, eof,
  comma, colon, lbrace, rbrace, lcurlyb, rcurlyb, report, result_of,
}
use judo.Lexer.Number.{scan_number}
use judo.Lexer.Quoted.{scan_string}
use judo.Lexer.Space.{Consumed, consume_space_and_comments}
use judo.Lexer.Word.{scan_keyword, scan_es5_identifier}
use judo.Utf8.{Source, Decoded, utf8_decode, bad_character_encoding, input_too_large}

-- The fields of `struct scanner` that change; its text is a `Source`.
pub record Scanner : Type 0 where
  pub index : ℕ
  pub stream : Stream

-- A routine ends with a value, or with a result code other than success.
pub data Outcome {ℓ} (A : Type ℓ) : Type ℓ where
  done : A → Scanner → Outcome A
  stopped : JudoResult → Scanner → Outcome A

abbrev pub M {ℓ} : Type ℓ → Type ℓ
M A = Scanner → Outcome A

infixl 5 ◌>>=◌ ◌>>◌
abbrev pub ◌>>=◌ {ℓ κ} : {A : Type ℓ} {B : Type κ} → M A → (A → M B) → M B
◌>>=◌ m f sc = elim (m sc) [ done a sc' ↦ f a sc' | stopped r sc' ↦ stopped r sc' ]

abbrev pub ◌>>◌ {ℓ} : {B : Type ℓ} → M (Unit {0}) → M B → M B
m >> k = m >>= λ _. k

-- Report an error and return its result code.
abbrev pub fail {ℓ} : {A : Type ℓ} → Failure → M A
fail e sc = stopped (result_of e) (record sc { stream = report e sc.stream })

abbrev punctuation : TokenTag → Result Lexeme
punctuation tag = ok (record { type = tag; lexeme_length = 1 })

unfoldable pub starts_number : Bool → ℕ → Bool
starts_number json5 c = (json5 && (c == b'.' || c == b'+')) || (c == b'-' || judo_isdigit c)

-- What no routine took is refused.
unfoldable pub recognized : ℕ → ℕ → Result Lexeme → Result Lexeme
recognized index byte_count (err e) = err e
recognized index byte_count (ok l) = elim l.type [
  | TokenTag.invalid ↦ err (bad_syntax index byte_count "unrecognized token")
  | _ ↦ ok l
]

module _ (cfg : Config) (src : Source) where
  -- A keyword, or an identifier of JSON5.
  unfoldable pub scan_word : ℕ → Result Lexeme
  scan_word index =
      let l = scan_keyword cfg src index in
      elim l.type [
        | TokenTag.invalid ↦ if cfg.json5 then scan_es5_identifier cfg src index else ok l
        | _ ↦ ok l
      ]

  -- The cases of the switch behind those that end the text.
  unfoldable pub lex_character : ℕ → Decoded → Result Lexeme
  lex_character index d =
      let c = d.codepoint in
      if starts_number cfg.json5 c
      then scan_number cfg src index
      else if c == b'"' || (cfg.json5 && c == b'\'')
      then scan_string cfg src index
      else if c == b','
      then punctuation comma
      else if c == b':'
      then punctuation colon
      else if c == b'['
      then punctuation lbrace
      else if c == b']'
      then punctuation rbrace
      else if c == b'{'
      then punctuation lcurlyb
      else if c == b'}'
      then punctuation rcurlyb
      else recognized index d.byte_count (scan_word index)

  -- The switch on the code point at `index`.
  unfoldable pub lex : ℕ → Result Lexeme
  lex index =
      let d = utf8_decode cfg src index in
      if d.codepoint == bad_character_encoding
      then err (bad_encoding index 1)
      else if d.codepoint == input_too_large
      then err bad_input_size
      else if d.codepoint == 0
      then (if ltb 0 d.byte_count
          then err (bad_syntax index 1 "unexpected null byte")
          else ok (record { type = eof; lexeme_length = 0 }))
      else lex_character index d

  -- The token at `index`, or the error, with the index where the spaces end.
  unfoldable pub peek_from : Consumed → Stream → Outcome Token
  peek_from c s = elim c.failure [
    | some e ↦ fail e (record { index = c.index; stream = s })
    | none ↦ elim (lex c.index) [
      | ok l ↦
          done (record { type = l.type; lexeme = c.index; lexeme_length = l.lexeme_length })
            (record { index = c.index; stream = s })
      | err e ↦ fail e (record { index = c.index; stream = s })
    ]
  ]

  unfoldable pub peek : M Token
  unfolding peek_from
  peek sc = peek_from (consume_space_and_comments cfg src sc.index) sc.stream
