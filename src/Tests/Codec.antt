-- ===== src/Tests/Codec.antt =====
-- Instances of the theorems on `utf8_decode` and `utf8_encode` of src/judo_scan.c.
use judo.Api.{zero_stream}
use judo.Base.Int.{pos}
use judo.Base.{◌%◌, ◌≡◌, refl, arith, [], ◌∷◌, get_or, length, inl}
use judo.Lexer.Number.{rounds}
use judo.Lexer.Peek.{peek, lex, lex_character, starts_number}
use judo.Chars.{judo_isdigit, is_space}
use judo.Scanner.Scan.{judo_scan, pop_stack, run_state, expect_eof}
use judo.Utf8.{
  Source, utf8_decode, utf8_encode, bytes_needed, is_bounded, is_end, decode_bounded, untruncated,
  decoded, decode_sequence, decode_rest, leading_mask, next_state, is_terminator,
}
use judo.Utf8.Bytes.{bytes_needed-announced_bytes, announced_bytes}
use judo.Utf8.Complete.{utf8_decode-utf8_encode}
use judo.Utf8.Scalar.{utf8_encode-rfc3629, rfc3629}
use judo.Utf8.Sound.{IsBytes, utf8_decode-Reads, Reads}
use judo.Scanner.{
  parse_root, parse_array, parse_array_element_or_array_end, array_element_or_end, take,
  dispatch_root,
}
use judo.Lexer.Space.{consume_space_and_comments, consume_loop, pass_space}
use judo.Utf8.Tables.{bytes_needed_for_utf8_sequence, next_utf8_dfa, byte_to_character_class}
use judo.Tests.{rfc}

-- U+20AC
abbrev euro : Source
euro = record { string = λ i. get_or (0xE2 ∷ 0x82 ∷ 0xAC ∷ []) i 0 % 256; length = pos 3 }

euro-IsBytes : IsBytes euro.string
euro-IsBytes i = omega arith

utf8_decode-utf8_encode_example :
    utf8_decode rfc euro 0 ≡ record { codepoint = 0x20AC; byte_count = length (utf8_encode 0x20AC) }
unfolding utf8_encode
utf8_decode-utf8_encode_example =
    utf8_decode-utf8_encode rfc euro euro-IsBytes 0 0x20AC (inl (omega arith))
      (refl, (refl, (refl, tt))) (omega arith) (omega arith)

utf8_decode-Reads_example : Reads rfc euro 0 (utf8_decode rfc euro 0)
unfolding judo_scan pop_stack run_state parse_root is_bounded peek consume_space_and_comments
    consume_loop rounds pass_space is_space utf8_decode is_end decode_bounded untruncated
    bytes_needed bytes_needed_for_utf8_sequence decoded decode_sequence decode_rest leading_mask
    next_state is_terminator next_utf8_dfa byte_to_character_class lex lex_character starts_number
    judo_isdigit parse_array parse_array_element_or_array_end zero_stream array_element_or_end take
    dispatch_root expect_eof
utf8_decode-Reads_example = utf8_decode-Reads rfc euro euro-IsBytes 0 (omega arith)

bytes_needed-announced_bytes_example : bytes_needed 0xE2 ≡ announced_bytes 0xE2
bytes_needed-announced_bytes_example = bytes_needed-announced_bytes 0xE2 (omega arith)

utf8_encode-rfc3629_example : utf8_encode 0x20AC ≡ rfc3629 0x20AC
utf8_encode-rfc3629_example = utf8_encode-rfc3629 0x20AC (omega arith)
