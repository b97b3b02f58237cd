-- ===== src/Tests/Program.antt =====
-- Runs of src/judo_main.c and src/judo_stdin.c, and instances of the theorems.
use judo.Api.{zero_stream, success, array_begin, array_end}
use judo.Base.{
  ℕ, suc, ◌+◌, ◌≤◌, ◌<◌, ◌≡◌, refl, ap, arith, true, false, none, some, List, [], ◌∷◌, ◌++◌, codes,
  zero,
}
use judo.Parser.Tree.{layout, height, size, count}
use judo.Program.{print_tree, print_bytes}
use judo.Program.Location.{
  Location, compulate_source_location, location_loop, location_round, has_crlf, decode_utf8,
  advance_location, unsafe_utf8_sequence_length, compulate_source_location_ends,
}
use judo.Program.Main.{Printing, byte_at, text_of, judo_main-compact}
use judo.Program.Options.{Strtoul, RunsWithWidth, main, main-RunsWithWidth, default_options}
use judo.Program.Pretty.{
  pretty_print_tree, pretty_print_typed, pretty_print_elements, pretty_print_indent,
}
use judo.Parser.{judo_gettype, judo_first, judo_next, judo_value2span, judo_len}
use judo.Program.Printed.{compact, print_tree-compact}
use judo.Program.Stdin.{ReadResult, chunk, Reads, judo_readstdin, all_bytes, judo_readstdin-Reads}
use judo.Scanner.Reader.{read_tokens}
use judo.Scanner.Scan.{judo_scan, pop_stack, run_state, expect_eof, is_too_long}
use judo.Scanner.{
  parse_root, parse_array, parse_array_element_or_array_end, array_element_or_end, take,
  dispatch_root,
}
use judo.Lexer.Number.{rounds}
use judo.Lexer.Peek.{peek, lex, lex_character, starts_number}
use judo.Lexer.Space.{consume_space_and_comments, consume_loop, pass_space}
use judo.Chars.{judo_isdigit, is_space}
use judo.Utf8.{
  utf8_decode, bytes_needed, is_bounded, is_end, decode_bounded, untruncated, decoded,
  decode_sequence, decode_rest, leading_mask, next_state, is_terminator,
}
use judo.Utf8.Sound.{IsBytes}
use judo.Utf8.Tables.{bytes_needed_for_utf8_sequence, next_utf8_dfa, byte_to_character_class}
use judo.Tests.{rfc, start, bytes_of}
use judo.Tests.Parser.{two_numbers, enough}

print_tree-compact_example :
    print_tree 3 (layout 0 none two_numbers ++ []) (bytes_of "[1,2]") (some 0)
    ≡ some (compact (bytes_of "[1,2]") two_numbers)
unfolding height
print_tree-compact_example = print_tree-compact (bytes_of "[1,2]") two_numbers 2 [] (omega arith)

-- The compact text of a text without spaces is the text.
compact_text : compact (bytes_of "[1,2]") two_numbers ≡ codes "[1,2]"
unfolding compact print_bytes
compact_text = refl

pretty_two_numbers :
    pretty_print_tree 3 default_options (layout 0 none two_numbers) (bytes_of "[1,2]") 0 (some 0)
    ≡ some (codes "[\n    1,\n    2\n]")
unfolding pretty_print_tree pretty_print_typed pretty_print_elements pretty_print_indent layout
    judo_gettype judo_first judo_next judo_value2span judo_len print_bytes size count
pretty_two_numbers = refl

abbrev two_lines : List ℕ
two_lines = codes "[\n1"

two_lines-lengths : (i : ℕ) → i < 2 → 0 < unsafe_utf8_sequence_length (byte_at two_lines i)
unfolding unsafe_utf8_sequence_length
two_lines-lengths zero h = omega arith
two_lines-lengths (suc zero) h = omega arith
two_lines-lengths (suc (suc i)) h = absurd (omega (arith, h))

compulate_source_location_ends_example :
    (l : Location) × (compulate_source_location (byte_at two_lines) 3 2 ≡ some l)
    × (1 ≤ l.line)
    × (1 ≤ l.column)
    × (l.line + l.column ≤ 4)
compulate_source_location_ends_example =
    compulate_source_location_ends (byte_at two_lines) 3 2 two_lines-lengths

second_line :
    compulate_source_location (byte_at two_lines) 3 2 ≡ some (record { line = 2; column = 1 })
unfolding compulate_source_location location_loop location_round has_crlf decode_utf8
    advance_location unsafe_utf8_sequence_length
second_line = refl

-- At the end of the text, a carriage return and a line feed are two line breaks.
third_line :
    compulate_source_location (byte_at (codes "[\r\n")) 3 3 ≡ some (record { line = 3; column = 1 })
unfolding compulate_source_location location_loop location_round has_crlf decode_utf8
    advance_location unsafe_utf8_sequence_length
third_line = refl

abbrev two_chunks : List ReadResult
two_chunks = chunk (codes "[1") ∷ chunk (codes "]") ∷ []

judo_readstdin-Reads_example : Reads (judo_readstdin enough two_chunks) (all_bytes two_chunks)
judo_readstdin-Reads_example = judo_readstdin-Reads enough two_chunks

abbrev empty_brackets : List ℕ
empty_brackets = codes "[]"

empty_brackets-IsBytes : IsBytes (byte_at empty_brackets)
empty_brackets-IsBytes zero = omega arith
empty_brackets-IsBytes (suc zero) = omega arith
empty_brackets-IsBytes (suc (suc i)) = omega arith

read_empty_brackets :
    read_tokens rfc (text_of empty_brackets) 3 start
    ≡ record { tokens = array_begin ∷ array_end ∷ []; result = some success }
unfolding judo_scan pop_stack run_state parse_root is_bounded peek consume_space_and_comments
    consume_loop rounds pass_space is_space utf8_decode is_end decode_bounded untruncated
    bytes_needed bytes_needed_for_utf8_sequence decoded decode_sequence decode_rest leading_mask
    next_state is_terminator next_utf8_dfa byte_to_character_class lex lex_character starts_number
    judo_isdigit parse_array parse_array_element_or_array_end zero_stream array_element_or_end take
    dispatch_root expect_eof read_tokens
read_empty_brackets = refl

judo_main-compact_example : Printing rfc enough 3 default_options empty_brackets
unfolding is_too_long
judo_main-compact_example =
    judo_main-compact rfc enough default_options empty_brackets 3 empty_brackets-IsBytes refl
      (omega arith) (omega arith) (λ k. refl) (ap (λ r. r.result) read_empty_brackets) refl refl

-- A C library that finds the number 2 everywhere.
abbrev always_two : List ℕ → Strtoul
always_two arg = record { value = 2; found = true; out_of_range = false }

main-RunsWithWidth_example :
    RunsWithWidth (main always_two (codes "-p" ∷ codes "-i" ∷ codes "2" ∷ []))
main-RunsWithWidth_example =
    main-RunsWithWidth always_two (codes "-p" ∷ codes "-i" ∷ codes "2" ∷ [])
