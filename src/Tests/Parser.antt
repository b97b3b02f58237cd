-- ===== src/Tests/Parser.antt =====
-- Runs of `judo_parse` and `judo_free` of src/judo_parse.c, and instances of the theorems.
use judo.Api.{
  JudoToken, Span, zero_stream, success, finished_parsing_value, parse_array_end_or_array_element,
  finished_parsing_array_element,
}
use judo.Base.{ℕ, ◌*◌, ◌≡◌, refl, arith, Bool, true, none, some, [], ◌∷◌, length, map, replicate}
use judo.Parser.{Block, released, update}
use judo.Parser.Build.{process_value, process_begin, process_end, track_new, track}
use judo.Parser.Build.Advance.{Step-Processes}
use judo.Parser.Build.Heights.{Fits, judo_free-context_of}
use judo.Parser.Build.Matches.{Matches, opened, Top, bottom}
use judo.Parser.Build.Steps.{Processes}
use judo.Parser.Free.{judo_free}
use judo.Parser.Free.Whole.{judo_free-layout}
use judo.Parser.Parse.{judo_parse, Parsed}
use judo.Parser.Parse.Outcome.{Parses, judo_parse-Parses, judo_parse-read_tokens}
use judo.Parser.Tree.{Node, array_node, element, no_elements, scalar, layout, size, height, events}
use judo.Parser.Tree.Layout.{no_elements_left}
use judo.Parser.Tree.Zipper.{Site, inside, array_frame, context_of}
use judo.Scanner.Grammar.{IsScalar, IsValue, Part}
use judo.Scanner.Moves.{Step, Opens, InArray, Begins}
use judo.Scanner.Reader.{read_tokens}
use judo.Scanner.Scan.{is_too_long}
use judo.Scanner.Scan.{judo_scan, pop_stack, run_state, expect_eof}
use judo.Utf8.{
  utf8_decode, bytes_needed, is_bounded, is_end, decode_bounded, untruncated, decoded,
  decode_sequence, decode_rest, leading_mask, next_state, is_terminator,
}
use judo.Utf8.Tables.{bytes_needed_for_utf8_sequence, next_utf8_dfa, byte_to_character_class}
use judo.Scanner.{
  parse_root, parse_array, parse_array_element_or_array_end, array_element_or_end, take,
  dispatch_root,
}
use judo.Lexer.Number.{rounds}
use judo.Lexer.Peek.{peek, lex, lex_character, starts_number}
use judo.Lexer.Space.{consume_space_and_comments, consume_loop, pass_space}
use judo.Chars.{judo_isdigit, is_space}
use judo.Parser.Parse.Valid.{judo_parse-IsValue, token_of}
use judo.Parser.Parse.{parse_loop, parse_round, process_scanned, finish}
use judo.Tests.{rfc, bytes_of-IsBytes, empty_array}

abbrev at : ℕ → Span
at i = record { offset = i; length = 1 }

-- [1,2]
abbrev pub two_numbers : Node Part.value
two_numbers =
    array_node (at 0) (some (at 4)) (
      element (scalar IsScalar.number (at 1)) (element (scalar IsScalar.number (at 3)) no_elements))

-- Every block is handed out.
abbrev pub enough : ℕ → Bool
enough n = true

judo_parse-Parses_example :
    Parses rfc empty_array enough 3 none (judo_parse rfc empty_array enough 3 none)
unfolding is_too_long
judo_parse-Parses_example =
    judo_parse-Parses rfc empty_array enough (bytes_of-IsBytes "[]") refl 2 3 none (omega arith)
      (λ h. omega (arith, h)) (omega arith)

judo_parse-read_tokens_example :
    (p : Parsed) × (judo_parse rfc empty_array enough 3 none ≡ some p)
    × ((read_tokens rfc empty_array 3 (zero_stream 4)).result ≡ some p.result)
unfolding is_too_long
judo_parse-read_tokens_example =
    judo_parse-read_tokens rfc empty_array enough (bytes_of-IsBytes "[]") refl 2 3 none
      (omega arith) (λ h. omega (arith, h)) (omega arith) (λ k. refl)

judo_free-layout_example :
    judo_free 2 6 true (some 0) (layout 0 none two_numbers)
    ≡ some (success, released ∷ released ∷ released ∷ [])
unfolding size height
judo_free-layout_example = judo_free-layout 2 two_numbers 6 (omega arith) (omega arith)

-- Behind `[`.
abbrev in_array : Site
in_array = inside (array_frame (at 0) no_elements no_elements_left) []

in_array-Matches : Matches (parse_array_end_or_array_element ∷ []) in_array
in_array-Matches = opened (Top.array InArray.first) bottom

Step-Processes_example :
    Processes 4 enough
      (finished_parsing_value ∷ finished_parsing_array_element ∷ [])
      JudoToken.number
      (at 1)
      in_array
      (process_value 4 enough JudoToken.number (at 1) (context_of in_array))
Step-Processes_example =
    Step-Processes 4 enough (at 1) (Step.opens (Opens.element InArray.first Begins.number))
      in_array-Matches (omega arith)

judo_free-context_of_example :
    judo_free 4
      (2 * length (context_of in_array).heap)
      true
      (context_of in_array).root
      (context_of in_array).heap
    ≡ some (success, replicate (length (context_of in_array).heap) released)
unfolding Fits height
judo_free-context_of_example = judo_free-context_of 4 in_array in_array-Matches (omega arith, tt)

abbrev array_in_memory : Parsed
array_in_memory = record {
  result = success;
  root = some 0;
  error = none;
  heap =
      Block.array (record { next = none; where_at = record { offset = 0; length = 2 } }) none 0
      ∷ [];
}

parse_empty_array : judo_parse rfc empty_array enough 3 none ≡ some array_in_memory
unfolding judo_scan pop_stack run_state parse_root is_bounded peek consume_space_and_comments
    consume_loop rounds pass_space is_space utf8_decode is_end decode_bounded untruncated
    bytes_needed bytes_needed_for_utf8_sequence decoded decode_sequence decode_rest leading_mask
    next_state is_terminator next_utf8_dfa byte_to_character_class lex lex_character starts_number
    judo_isdigit parse_array parse_array_element_or_array_end zero_stream array_element_or_end take
    dispatch_root expect_eof judo_parse parse_loop parse_round process_scanned process_value
    process_begin process_end track_new track update finish
parse_empty_array = refl

judo_parse-IsValue_example :
    (t : Node Part.value) × (array_in_memory.heap ≡ layout 0 none t)
    × IsValue (map token_of (events t))
unfolding is_too_long
judo_parse-IsValue_example =
    judo_parse-IsValue rfc empty_array enough (bytes_of-IsBytes "[]") refl 2 3 none array_in_memory
      (omega arith) (λ h. omega (arith, h)) (omega arith) parse_empty_array refl
