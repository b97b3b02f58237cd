-- ===== src/Utf8/Complete.antt =====
-- `utf8_decode` reads back whatever `utf8_encode` writes.
use judo.Api.{Config}
use judo.Base.Int.{ℤ, pos, negsuc}
use judo.Base.{ℕ, ◌+◌, ◌-◌, ◌*◌, ◌/◌, ◌%◌, ◌≤◌, ◌<◌, ◌≡◌, ◌≢◌, false, arith, length}
use judo.Utf8.{
  Source, Partial, has_null, is_end, untruncated, decode_sequence, decode_rest, decoded,
  is_terminator, decode_bounded, utf8_decode, utf8_encode,
}
use judo.Utf8.Bytes.{
  announced_bytes, bytes_needed-announced_bytes, next_state-first_state, next_state_last,
  next_state_two, next_state_e0, next_state_ed, next_state_f0, next_state_three, next_state_f4,
  leading_one, leading_two, leading_three, leading_four,
}
use judo.Utf8.Scalar.{IsScalar, Holds, rfc3629, utf8_encode-rfc3629, continued}
use judo.Utf8.Sound.{IsBytes}

-- The value and the state that the whole sequence of a scalar value ends in.
abbrev done : ℕ → Partial
done c = record { value = c; state = 0 }

module _ (string : ℕ → ℕ) (bytes : IsBytes string) (cursor c : ℕ) where
  decode_one : c < 0x80 → string cursor ≡ c → decode_sequence string cursor 1 ≡ done c
  unfolding decode_sequence decode_rest
  decode_one h e = ground (arith, leading_one c, next_state-first_state c)

  decode_two :
      0x80 ≤ c
      → c < 0x800
      → string cursor ≡ 0xC0 + c / 64
      → string (cursor + 1) ≡ 0x80 + c % 64
      → decode_sequence string cursor 2 ≡ done c
  unfolding decode_sequence decode_rest
  decode_two lo hi e0 e1 = ground (
    arith,
    leading_two (string cursor),
    continued (string cursor % 32) (string (cursor + 1)),
    next_state-first_state (string cursor),
    next_state_last (string (cursor + 1)),
  )

  decode_three :
      IsScalar c
      → 0x800 ≤ c
      → c < 0x10000
      → string cursor ≡ 0xE0 + c / 4096
      → string (cursor + 1) ≡ 0x80 + c / 64 % 64
      → string (cursor + 1 + 1) ≡ 0x80 + c % 64
      → decode_sequence string cursor 3 ≡ done c
  unfolding decode_sequence decode_rest
  decode_three s lo hi e0 e1 e2 = ground (
    arith,
    leading_three (string cursor),
    continued (string cursor % 16) (string (cursor + 1)),
    continued (string cursor % 16 * 64 + string (cursor + 1) % 64) (string (cursor + 1 + 1)),
    next_state-first_state (string cursor),
    next_state_two (string (cursor + 1)),
    next_state_e0 (string (cursor + 1)),
    next_state_ed (string (cursor + 1)),
    next_state_last (string (cursor + 1 + 1)),
  )

  decode_four :
      0x10000 ≤ c
      → c < 0x110000
      → string cursor ≡ 0xF0 + c / 262144
      → string (cursor + 1) ≡ 0x80 + c / 4096 % 64
      → string (cursor + 1 + 1) ≡ 0x80 + c / 64 % 64
      → string (cursor + 1 + 1 + 1) ≡ 0x80 + c % 64
      → decode_sequence string cursor 4 ≡ done c
  unfolding decode_sequence decode_rest
  decode_four lo hi e0 e1 e2 e3 = ground (
    arith,
    leading_four (string cursor),
    continued (string cursor % 8) (string (cursor + 1)),
    continued (string cursor % 8 * 64 + string (cursor + 1) % 64) (string (cursor + 1 + 1)),
    continued
        ((string cursor % 8 * 64 + string (cursor + 1) % 64) * 64 + string (cursor + 1 + 1) % 64)
        (string (cursor + 1 + 1 + 1)),
    next_state-first_state (string cursor),
    next_state_f0 (string (cursor + 1)),
    next_state_three (string (cursor + 1)),
    next_state_f4 (string (cursor + 1)),
    next_state_two (string (cursor + 1 + 1)),
    next_state_last (string (cursor + 1 + 1 + 1)),
  )

  -- The four layouts of `rfc3629`.
  decode_rfc3629 :
      IsScalar c
      → Holds string cursor (rfc3629 c)
      → decode_sequence string cursor (length (rfc3629 c)) ≡ done c
  decode_rfc3629 s h = ground (arith, decode_one, decode_two, decode_three s, decode_four)

  -- The first byte announces the length, and no later byte is null.
  rfc3629_layout :
      IsScalar c
      → Holds string cursor (rfc3629 c)
      → (announced_bytes (string cursor) ≡ length (rfc3629 c))
        × (has_null string (cursor + 1) (length (rfc3629 c) - 1) ≡ false)
        × (0 < length (rfc3629 c))
  unfolding has_null
  rfc3629_layout s h = ground arith

-- The text has room for the character, and it does not end the text.
abbrev pub Room : ℤ → ℕ → ℕ → ℕ → Type 0
Room (pos n) cursor k c = cursor + k ≤ n
Room (negsuc _) cursor k c = c ≢ 0

untruncated_whole :
    (string : ℕ → ℕ) (l : ℤ) (cursor k c : ℕ)
    → Room l cursor k c
    → has_null string (cursor + 1) (k - 1) ≡ false
    → 0 < k
    → (is_end l cursor ≡ false) × (untruncated string l cursor k ≡ k) × (is_terminator l c ≡ false)
unfolding is_end untruncated is_terminator
untruncated_whole string (pos n) cursor k c h e p = ground arith
untruncated_whole string (negsuc n) cursor k c h e p = rw e (ground arith)

module _ (cfg : Config) (src : Source) (bytes : IsBytes src.string) (cursor c : ℕ) where
  -- `utf8_decode` reads back every Unicode scalar value that `utf8_encode` writes, and reports how
  -- many bytes it takes, where the text has room for these bytes below the size limit; a null
  -- character is read back only from a text whose length is given.
  pub utf8_decode-utf8_encode :
      IsScalar c
      → Holds src.string cursor (utf8_encode c)
      → Room src.length cursor (length (utf8_encode c)) c
      → cursor + length (utf8_encode c) < cfg.maximum_input_size
      → utf8_decode cfg src cursor ≡ record { codepoint = c; byte_count = length (utf8_encode c) }
  unfolding utf8_decode decode_bounded decoded
  utf8_decode-utf8_encode s h room b =
      let e = utf8_encode-rfc3629 c (omega arith) in
      let held : Holds src.string cursor (rfc3629 c) = rw (← e) h in
      let (a, whole, p) = rfc3629_layout src.string bytes cursor c s held in
      let (open_end, fits, more) =
        untruncated_whole src.string src.length cursor _ c (rw e at room) whole p in
      rw e (
        rw (bytes_needed-announced_bytes (src.string cursor) (bytes cursor), a, open_end, fits)
          (ground (arith, decode_rfc3629 src.string bytes cursor c s held)))
