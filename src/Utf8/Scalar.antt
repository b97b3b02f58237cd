-- ===== src/Utf8/Scalar.antt =====
-- Unicode scalar values, and the bytes that encode them (RFC 3629) in plain arithmetic.
use judo.Base.{
  ℕ, ◌+◌, ◌*◌, ◌/◌, ◌%◌, ◌≤◌, ◌<◌, ◌≡◌, ap, ◌⊎◌, List, [], ◌∷◌, ltb, if◌then◌else◌, arith, bit_and,
  bit_or, shl, length,
}
use judo.Base.Bits.{bit_and_63, bit_or_shifted}
use judo.Utf8.{utf8_encode, decode_sequence, decode_rest, next_state}
use judo.Utf8.Bytes.{
  announced_bytes, next_state-first_state, next_state_rejected, next_state_last, next_state_two,
  next_state_e0, next_state_ed, next_state_f0, next_state_three, next_state_f4, leading_one,
  leading_two, leading_three, leading_four, mark_80, mark_c0, mark_e0, mark_f0,
}

-- A code point that is no surrogate.
abbrev pub IsScalar : ℕ → Type 0
IsScalar c = (c < 0xD800) ⊎ ((0xE000 ≤ c) × (c < 0x110000))

-- The encoding as RFC 3629 lays out its bits.
abbrev pub rfc3629 : ℕ → List ℕ
rfc3629 c =
    if ltb c 0x80
    then c ∷ []
    else if ltb c 0x800
    then (0xC0 + c / 64) ∷ (0x80 + c % 64) ∷ []
    else if ltb c 0x10000
    then (0xE0 + c / 4096) ∷ (0x80 + c / 64 % 64) ∷ (0x80 + c % 64) ∷ []
    else (0xF0 + c / 262144) ∷ (0x80 + c / 4096 % 64) ∷ (0x80 + c / 64 % 64) ∷ (0x80 + c % 64) ∷ []

-- For every code point below 0x110000, `utf8_encode` writes the bytes that RFC 3629 lays out.
pub utf8_encode-rfc3629 : (c : ℕ) → c < 0x110000 → utf8_encode c ≡ rfc3629 c
unfolding utf8_encode
utf8_encode-rfc3629 c h = ground (
  arith,
  bit_and_63 c,
  bit_and_63 (c / 64),
  bit_and_63 (c / 4096),
  mark_80 (c % 64),
  mark_80 (c / 64 % 64),
  mark_80 (c / 4096 % 64),
  mark_c0 (c / 64),
  mark_e0 (c / 4096),
  mark_f0 (c / 262144),
)

-- The bytes stand in the memory from `i` on.
abbrev pub Holds : (ℕ → ℕ) → ℕ → List ℕ → Type 0
Holds string i [] = Unit
Holds string i (b ∷ bs) = (string i ≡ b) × Holds string (i + 1) bs

pub continued : (v b : ℕ) → bit_or (shl v 6) (bit_and b 0x3F) ≡ v * 64 + b % 64
continued v b = omega (arith, ap (bit_or (v * 64)) (bit_and_63 b), bit_or_shifted v (b % 64))

abbrev IsAnnounced : ℕ → ℕ → Type 0
IsAnnounced k c = announced_bytes c ≡ k

-- Each accepted sequence stands for a scalar value, whose encoding it is.
pub record Accepted (string : ℕ → ℕ) (cursor v k : ℕ) : Type 0 where
  pub scalar : IsScalar v
  pub stands : Holds string cursor (rfc3629 v)
  pub takes : length (rfc3629 v) ≡ k

module _ (string : ℕ → ℕ) (bytes : (i : ℕ) → string i < 256) (cursor : ℕ) where
  pub Accepted-one :
      IsAnnounced 1 (string cursor)
      → ((decode_sequence string cursor 1).state ≡ 0)
        × Accepted string cursor (decode_sequence string cursor 1).value 1
  unfolding decode_sequence decode_rest
  Accepted-one h =
      ground
        (arith, bytes cursor, leading_one (string cursor), next_state-first_state (string cursor))

  pub Accepted-two :
      IsAnnounced 2 (string cursor)
      → (decode_sequence string cursor 2).state ≡ 0
      → Accepted string cursor (decode_sequence string cursor 2).value 2
  unfolding decode_sequence decode_rest
  Accepted-two h e = ground (
    arith,
    bytes cursor,
    bytes (cursor + 1),
    leading_two (string cursor),
    continued (string cursor % 32) (string (cursor + 1)),
    next_state-first_state (string cursor),
    next_state_last (string (cursor + 1)),
  )

  pub Accepted-three :
      IsAnnounced 3 (string cursor)
      → (decode_sequence string cursor 3).state ≡ 0
      → Accepted string cursor (decode_sequence string cursor 3).value 3
  unfolding decode_sequence decode_rest
  Accepted-three h e = ground (
    arith,
    bytes cursor,
    bytes (cursor + 1),
    bytes (cursor + 1 + 1),
    leading_three (string cursor),
    continued (string cursor % 16) (string (cursor + 1)),
    continued (string cursor % 16 * 64 + string (cursor + 1) % 64) (string (cursor + 1 + 1)),
    next_state-first_state (string cursor),
    next_state_two (string (cursor + 1)),
    next_state_e0 (string (cursor + 1)),
    next_state_ed (string (cursor + 1)),
    next_state_rejected (string (cursor + 1 + 1)),
    next_state_last (string (cursor + 1 + 1)),
  )

  -- The state after the first three bytes of four.
  third_state : ℕ
  third_state =
      next_state (next_state (next_state 0 (string cursor)) (string (cursor + 1)))
        (string (cursor + 1 + 1))

  four_leading :
      IsAnnounced 4 (string cursor)
      → next_state third_state (string (cursor + 1 + 1 + 1)) ≡ 0
      → (240 ≤ string cursor)
        × (string cursor < 245)
        × (128 ≤ string (cursor + 1))
        × (string (cursor + 1) < 192)
        × (128 ≤ string (cursor + 1 + 1))
        × (string (cursor + 1 + 1) < 192)
        × (128 ≤ string (cursor + 1 + 1 + 1))
        × (string (cursor + 1 + 1 + 1) < 192)
        × (string cursor ≡ 240 → 144 ≤ string (cursor + 1))
        × (string cursor ≡ 244 → string (cursor + 1) < 144)
  unfolding third_state
  four_leading h e = ground (
    arith,
    bytes cursor,
    bytes (cursor + 1),
    bytes (cursor + 1 + 1),
    bytes (cursor + 1 + 1 + 1),
    next_state-first_state (string cursor),
    next_state_f0 (string (cursor + 1)),
    next_state_three (string (cursor + 1)),
    next_state_f4 (string (cursor + 1)),
    next_state_two (string (cursor + 1 + 1)),
    next_state_rejected (string (cursor + 1 + 1)),
    next_state_rejected (string (cursor + 1 + 1 + 1)),
    next_state_last (string (cursor + 1 + 1 + 1)),
  )

  pub Accepted-four :
      IsAnnounced 4 (string cursor)
      → (decode_sequence string cursor 4).state ≡ 0
      → Accepted string cursor (decode_sequence string cursor 4).value 4
  unfolding decode_sequence decode_rest third_state
  Accepted-four h e =
      let ranges = four_leading h e in
      ground (
        arith,
        leading_four (string cursor),
        continued (string cursor % 8) (string (cursor + 1)),
        continued (string cursor % 8 * 64 + string (cursor + 1) % 64) (string (cursor + 1 + 1)),
        continued
            ((string cursor % 8 * 64 + string (cursor + 1) % 64) * 64
              + string (cursor + 1 + 1) % 64)
            (string (cursor + 1 + 1 + 1)),
      )
