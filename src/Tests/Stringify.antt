-- ===== src/Tests/Stringify.antt =====
-- Runs of `judo_stringify` of src/judo_scan.c, and instances of the theorems.
use judo.Api.{success, no_buffer_space}
use judo.Base.{ℕ, ◌≤◌, ◌≡◌, refl, arith, inl, none, some, List, [], ◌∷◌}
use judo.Lexer.Failure.{ok, string as string_token}
use judo.Lexer.Number.{rounds}
use judo.Lexer.Quoted.{
  scan_string, string_to, scan_characters, scan_round, scan_escape, scan_escaped, is_simple_escape,
  scan_plain,
}
use judo.Stringify.Scanned.{from, Converts, scan_string-judo_stringify}
use judo.Stringify.{Stringified, judo_stringify}
use judo.Stringify.Content.{Content, plain, named, done, line_feed}
use judo.Stringify.Protocol.{judo_stringify_measures, judo_stringify_copies, judo_stringify_lacks}
use judo.Stringify.Strings.{given}
use judo.Tests.{rfc, text, bytes_of-IsBytes}
use judo.Utf8.{
  Source, is_bounded, utf8_decode, bytes_needed, is_end, decode_bounded, untruncated, decoded,
  decode_sequence, decode_rest, leading_mask, next_state, is_terminator,
}
use judo.Utf8.Tables.{bytes_needed_for_utf8_sequence, next_utf8_dfa, byte_to_character_class}
use judo.Utf8.Sound.{IsBytes}

-- "a\n", with a backslash: the letter and a line feed.
abbrev lexeme : Source
lexeme = text "\"a\\n\""

abbrev two_bytes : List ℕ
two_bytes = 97 ∷ 10 ∷ []

lexeme-IsBytes : IsBytes lexeme.string
lexeme-IsBytes = bytes_of-IsBytes "\"a\\n\""

-- "a" and a line feed.
lexeme-Content : Content lexeme.string 4 1 two_bytes
lexeme-Content =
    plain {i = 1} {bs = 10 ∷ []} 97 (inl (omega arith)) (λ e. omega arith) (refl, tt)
      (named {i = 2} {bs = []} b'n' 10 refl refl line_feed done)

judo_stringify_measures_example :
    judo_stringify rfc (given lexeme.string 5) 5 5 none 0
    ≡ some (record { result = success; buflen = 2; buffer = none })
judo_stringify_measures_example =
    judo_stringify_measures rfc lexeme.string 5 5 two_bytes refl lexeme-IsBytes (omega arith)
      (omega arith) lexeme-Content

judo_stringify_copies_example :
    judo_stringify rfc (given lexeme.string 5) 5 5 (some (0 ∷ 0 ∷ 7 ∷ [])) 3
    ≡ some (record { result = success; buflen = 2; buffer = some (97 ∷ 10 ∷ 7 ∷ []) })
judo_stringify_copies_example =
    judo_stringify_copies rfc lexeme.string 5 5 two_bytes refl lexeme-IsBytes (omega arith)
      (omega arith) (0 ∷ 0 ∷ 7 ∷ []) lexeme-Content (omega arith)

judo_stringify_lacks_example :
    (s : Stringified) × (judo_stringify rfc (given lexeme.string 5) 5 5 (some (0 ∷ [])) 1 ≡ some s)
    × (s.result ≡ no_buffer_space)
    × (s.buflen ≤ 1)
judo_stringify_lacks_example =
    judo_stringify_lacks rfc lexeme.string 5 5 two_bytes refl lexeme-IsBytes (omega arith)
      (omega arith) (0 ∷ []) lexeme-Content (omega arith)

-- The same text is a string token of five bytes.
lexeme_scanned : scan_string rfc lexeme 0 ≡ ok (record { type = string_token; lexeme_length = 5 })
unfolding scan_string string_to scan_characters rounds scan_round scan_escape scan_escaped
    is_simple_escape scan_plain is_bounded utf8_decode is_end decode_bounded untruncated
    bytes_needed decoded decode_sequence decode_rest leading_mask next_state is_terminator
    bytes_needed_for_utf8_sequence next_utf8_dfa byte_to_character_class
lexeme_scanned = refl

scan_string-judo_stringify_example :
    (bs : List ℕ) × Converts rfc lexeme lexeme-IsBytes refl (from lexeme.string 0) 5 bs
scan_string-judo_stringify_example =
    scan_string-judo_stringify rfc lexeme lexeme-IsBytes refl 0
      (record { type = string_token; lexeme_length = 5 }) (omega arith) lexeme_scanned
