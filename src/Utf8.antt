-- ===== src/Utf8.antt =====
-- src/judo_scan.c: `is_bounded`, `utf8_decode` and `utf8_encode`.
pub mod Tables
pub mod Bytes
pub mod Scalar
pub mod Sound
pub mod Complete
pub mod Text
pub mod Null
use judo.Api.{Config}
use judo.Base.Int.{ℤ, pos, negsuc}
use judo.Base.{
  ℕ, zero, suc, ◌+◌, ◌-◌, ◌%◌, Bool, true, false, not, List, [], ◌∷◌, ltb, leb, ◌==◌, if◌then◌else◌,
  get_or, shl, shr, bit_and, bit_or,
}
use Tables.{bytes_needed_for_utf8_sequence, next_utf8_dfa, byte_to_character_class}

-- The text that is read: the memory behind a `const uint8_t *`, byte by byte, and the length that
-- the caller states, which is negative if a null byte ends the text.
pub record Source : Type 0 where
  pub string : ℕ → ℕ
  pub length : ℤ

abbrev pub bad_character_encoding : ℕ
bad_character_encoding = 0x110000

abbrev pub input_too_large : ℕ
input_too_large = 0x110001

-- What `utf8_decode` returns, and what it stores through `byte_count`.
pub record Decoded : Type 0 where
  pub codepoint : ℕ
  pub byte_count : ℕ

-- for (i = start; i < start + count; i++) if (string[i] == '\0') return true;
unfoldable pub has_null : (ℕ → ℕ) → ℕ → ℕ → Bool
has_null string start zero = false
has_null string start (suc count) =
    if string start == 0 then true else has_null string (start + 1) count

-- `is_bounded`, by the sign of the length. The source asserts `cursor <= length`.
unfoldable pub is_bounded_by : ℕ → (ℕ → ℕ) → ℤ → ℕ → ℕ → Bool
is_bounded_by maximum string (negsuc _) cursor byte_count =
    if leb maximum cursor then false else not (has_null string cursor byte_count)
is_bounded_by maximum string (pos length) cursor byte_count = not (ltb (length - cursor) byte_count)

-- Check for the END of the string.
unfoldable pub is_end : ℤ → ℕ → Bool
is_end (pos length) cursor = leb length cursor
is_end (negsuc _) cursor = false

-- The length of the sequence at `cursor`, or 0 if the end of the string truncates it.
unfoldable pub untruncated : (ℕ → ℕ) → ℤ → ℕ → ℕ → ℕ
untruncated string (negsuc _) cursor seqlen =
    if has_null string (cursor + 1) (seqlen - 1) then 0 else seqlen
untruncated string (pos length) cursor seqlen = if ltb (length - cursor) seqlen then 0 else seqlen

-- The accumulated value and the state of the DFA.
pub record Partial : Type 0 where
  pub value : ℕ
  pub state : ℕ

unfoldable pub bytes_needed : ℕ → ℕ
bytes_needed byte = get_or bytes_needed_for_utf8_sequence byte 0

unfoldable pub leading_mask : ℕ → ℕ
leading_mask seqlen = get_or bytes_needed_for_utf8_sequence (256 + seqlen) 0

unfoldable pub next_state : ℕ → ℕ → ℕ
next_state state byte = get_or next_utf8_dfa (state + get_or byte_to_character_class byte 0) 0

-- Consume the remaining UTF-8 bytes.
unfoldable pub decode_rest : (ℕ → ℕ) → ℕ → ℕ → Partial → Partial
decode_rest string i zero p = p
decode_rest string i (suc count) p = decode_rest string (i + 1) count (record {
  value = bit_or (shl p.value 6) (bit_and (string i) 0x3F);
  state = next_state p.state (string i);
})

-- The whole sequence of `seqlen` bytes at `cursor`.
unfoldable pub decode_sequence : (ℕ → ℕ) → ℕ → ℕ → Partial
decode_sequence string cursor seqlen = decode_rest string (cursor + 1) (seqlen - 1) (record {
  value = bit_and (string cursor) (leading_mask seqlen);
  state = next_state 0 (string cursor);
})

-- A null character ends a string that has no length.
unfoldable pub is_terminator : ℤ → ℕ → Bool
is_terminator (negsuc _) value = value == 0
is_terminator (pos _) value = false

-- Verify the encoded character was well-formed, and tell the null terminator from a null byte.
unfoldable pub decoded : ℤ → ℕ → Partial → Decoded
decoded length seqlen p =
    if p.state == 0
    then (if is_terminator length p.value
        then record { codepoint = 0; byte_count = 0 }
        else record { codepoint = p.value; byte_count = seqlen })
    else record { codepoint = bad_character_encoding; byte_count = 0 }

module _ (cfg : Config) (src : Source) where
  unfoldable pub is_bounded : ℕ → ℕ → Bool
  unfolding is_bounded_by has_null
  is_bounded cursor byte_count =
      is_bounded_by cfg.maximum_input_size src.string src.length cursor byte_count

  -- Verify the input is bounded and the sequence is valid.
  unfoldable pub decode_bounded : ℕ → ℕ → Decoded
  decode_bounded cursor seqlen =
      if leb cfg.maximum_input_size (cursor + seqlen)
      then record { codepoint = input_too_large; byte_count = 0 }
      else if ltb 0 seqlen
      then decoded src.length seqlen (decode_sequence src.string cursor seqlen)
      else record { codepoint = bad_character_encoding; byte_count = 0 }

  unfoldable pub utf8_decode : ℕ → Decoded
  utf8_decode cursor =
      if is_end src.length cursor
      then record { codepoint = 0; byte_count = 0 }
      else decode_bounded cursor
          (untruncated src.string src.length cursor (bytes_needed (src.string cursor)))

-- A byte of a multi-byte sequence: `(uint8_t)bits | (uint8_t)mark`.
abbrev pub marked : ℕ → ℕ → ℕ
marked mark bits = bit_or (bits % 256) mark

-- The bytes that are stored; their number is what the source returns.
unfoldable pub utf8_encode : ℕ → List ℕ
utf8_encode codepoint =
    if leb codepoint 0x7F
    then (codepoint % 256) ∷ []
    else if leb codepoint 0x7FF
    then marked 0xC0 (shr codepoint 6) ∷ marked 0x80 (bit_and codepoint 0x3F) ∷ []
    else if leb codepoint 0xFFFF
    then marked 0xE0 (shr codepoint 12)
      ∷ marked 0x80 (bit_and (shr codepoint 6) 0x3F)
      ∷ marked 0x80 (bit_and codepoint 0x3F)
      ∷ []
    else marked 0xF0 (shr codepoint 18)
      ∷ marked 0x80 (bit_and (shr codepoint 12) 0x3F)
      ∷ marked 0x80 (bit_and (shr codepoint 6) 0x3F)
      ∷ marked 0x80 (bit_and codepoint 0x3F)
      ∷ []
