-- ===== src/Lexer/Word.antt =====
-- src/judo_scan.c: `scan_keyword`, and the identifiers of JSON5.
pub mod Bounds
pub mod Ends
use judo.Api.{Config}
use judo.Base.{
  ℕ, zero, suc, ◌+◌, ◌-◌, Bool, true, false, not, ◌&&◌, ◌||◌, List, [], ◌∷◌, String, ltb, ◌==◌,
  if◌then◌else◌, codes, length,
}
use judo.Chars.{is_starter, is_continue, is_match}
use judo.Lexer.Failure.{
  Result, ok, err, Lexeme, TokenTag, bad_syntax, null, true_word, false_word, number, identifier,
}
use judo.Lexer.Number.{rounds}
use judo.Lexer.Quoted.{low_digits}
use judo.Utf8.{Source, is_bounded, utf8_decode}

abbrev pub no_token : Lexeme
no_token = record { type = TokenTag.invalid; lexeme_length = 0 }

-- The words that no identifier may be, by their first character.
unfoldable pub reserved_words : ℕ → List String
reserved_words c =
    if c == b'b'
    then "break" ∷ []
    else if c == b'c'
    then "case" ∷ "catch" ∷ "const" ∷ "class" ∷ "continue" ∷ []
    else if c == b'd'
    then "do" ∷ "delete" ∷ "default" ∷ "debugger" ∷ []
    else if c == b'e'
    then "else" ∷ "enum" ∷ "export" ∷ "extends" ∷ []
    else if c == b'f'
    then "for" ∷ "finally" ∷ "function" ∷ []
    else if c == b'i'
    then "if" ∷ "in" ∷ "import" ∷ "interface" ∷ "implements" ∷ "instanceof" ∷ []
    else if c == b'l'
    then "let" ∷ []
    else if c == b'n'
    then "new" ∷ []
    else if c == b'p'
    then "public" ∷ "package" ∷ "private" ∷ "protected" ∷ []
    else if c == b'r'
    then "return" ∷ []
    else if c == b's'
    then "super" ∷ "static" ∷ "switch" ∷ []
    else if c == b't'
    then "try" ∷ "this" ∷ "throw" ∷ "typeof" ∷ []
    else if c == b'v'
    then "var" ∷ "void" ∷ []
    else if c == b'w'
    then "with" ∷ "while" ∷ []
    else if c == b'y'
    then "yield" ∷ []
    else []

module _ (cfg : Config) (src : Source) where
  abbrev matches : String → ℕ → ℕ → Bool
  matches word index token_length = is_match src.string index (codes word) token_length

  -- Consume the characters that may continue a word.
  unfoldable pub skip_continue : ℕ → ℕ → ℕ
  skip_continue zero index = index
  skip_continue (suc fuel) index =
      let d = utf8_decode cfg src index in
      elim (is_continue cfg d.codepoint) [
        | true ↦ skip_continue fuel (index + d.byte_count)
        | false ↦ index
      ]

  -- The token that the word of that length is.
  unfoldable pub keyword : ℕ → ℕ → Lexeme
  keyword start token_length =
      if matches "null" start token_length
      then record { type = null; lexeme_length = token_length }
      else if matches "true" start token_length
      then record { type = true_word; lexeme_length = token_length }
      else if matches "false" start token_length
      then record { type = false_word; lexeme_length = token_length }
      else if cfg.json5
          && (matches "NaN" start token_length || matches "Infinite" start token_length)
      then record { type = number; lexeme_length = token_length }
      else no_token

  unfoldable pub scan_keyword : ℕ → Lexeme
  scan_keyword start =
      let d = utf8_decode cfg src start in
      if is_starter cfg d.codepoint
      then keyword start (skip_continue (rounds cfg src) (start + d.byte_count) - start)
      else no_token

  -- `\uXXXX` in an identifier. The value is the length of the sequence.
  unfoldable pub scan_unicode_escape : ℕ → Result ℕ
  scan_unicode_escape cursor =
      if not (is_bounded cfg src (cursor + 1) 5)
      then err (bad_syntax cursor 1 "expected Unicode escape sequence")
      else if not (src.string (cursor + 1) == b'u')
      then err (bad_syntax cursor 2 "expected 'u' after backslash")
      else (let digit_count = length (low_digits cfg src 4 (cursor + 2)) in
          if ltb digit_count 4
          then err (bad_syntax cursor (cursor + 2 + digit_count) "expected four hex digits")
          else ok 6)

  -- The end of the identifier's characters.
  unfoldable pub scan_identifier_rest : ℕ → ℕ → Result ℕ
  scan_identifier_rest zero index = ok index
  scan_identifier_rest (suc fuel) index =
      let d = utf8_decode cfg src index in
      elim (d.codepoint == b'\\') [
        | true ↦ elim (scan_unicode_escape index) [
          | ok byte_count ↦ scan_identifier_rest fuel (index + byte_count)
          | err e ↦ err e
        ]
        | false ↦ elim (is_continue cfg d.codepoint) [
          | true ↦ scan_identifier_rest fuel (index + d.byte_count)
          | false ↦ ok index
        ]
      ]

  unfoldable pub is_reserved : ℕ → ℕ → List String → Bool
  is_reserved start token_length [] = false
  is_reserved start token_length (word ∷ words) =
      matches word start token_length || is_reserved start token_length words

  -- JSON5 requires that object keys may be an ECMAScript 5.1 IdentifierName.
  unfoldable pub identifier_to : ℕ → Result ℕ → Result Lexeme
  identifier_to start (err e) = err e
  identifier_to start (ok stop) =
      let token_length =
        if is_reserved start (stop - start) (reserved_words (src.string start))
        then 0
        else stop - start in
      if ltb 0 token_length
      then ok (record { type = identifier; lexeme_length = token_length })
      else err (bad_syntax start (stop - start) "reserved word")

  -- The identifier's first character, which may be an escape sequence.
  unfoldable pub scan_identifier_start : ℕ → Result ℕ
  scan_identifier_start start =
      let d = utf8_decode cfg src start in
      if d.codepoint == b'\\' then scan_unicode_escape start else ok d.byte_count

  unfoldable pub identifier_from : ℕ → Result ℕ → Result ℕ
  identifier_from start (ok byte_count) = scan_identifier_rest (rounds cfg src) (start + byte_count)
  identifier_from start (err e) = err e

  unfoldable pub scan_es5_identifier : ℕ → Result Lexeme
  scan_es5_identifier start =
      let c = (utf8_decode cfg src start).codepoint in
      if is_starter cfg c || c == b'\\'
      then identifier_to start (identifier_from start (scan_identifier_start start))
      else ok no_token
