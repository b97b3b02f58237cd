-- ===== src/Utf8/Bytes.antt =====
-- What the tables of `utf8_decode` hold, as ranges of bytes.
use judo.Base.{
  ℕ, ◌+◌, ◌%◌, ◌<◌, ◌≡◌, refl, ltb, leb, ◌==◌, if◌then◌else◌, agree_below, agree, bit_and, bit_or,
}
use judo.Utf8.{bytes_needed, next_state, leading_mask}
use judo.Utf8.Tables.{bytes_needed_for_utf8_sequence, next_utf8_dfa, byte_to_character_class}

-- The pseudo code of the comment above the table of sequence lengths.
abbrev pub announced_bytes : ℕ → ℕ
announced_bytes c =
    if leb c 127
    then 1
    else if leb c 193
    then 0
    else if leb c 223
    then 2
    else if leb c 239
    then 3
    else if leb c 244
    then 4
    else 0

-- The table of sequence lengths gives for every byte what the pseudo code in the comment above the
-- table gives.
pub bytes_needed-announced_bytes : (c : ℕ) → c < 256 → bytes_needed c ≡ announced_bytes c
unfolding agree bytes_needed bytes_needed_for_utf8_sequence
bytes_needed-announced_bytes c h = agree_below 256 bytes_needed announced_bytes c refl h

-- The state in which the DFA expects no byte, rejects, or expects one to three bytes more.
abbrev pub first_state : ℕ → ℕ
first_state c =
    if ltb c 128
    then 0
    else if ltb c 194
    then 12
    else if ltb c 224
    then 24
    else if c == 224
    then 48
    else if c == 237
    then 60
    else if ltb c 240
    then 36
    else if c == 240
    then 72
    else if ltb c 244
    then 84
    else if c == 244
    then 96
    else 12

pub next_state-first_state : (c : ℕ) → c < 256 → next_state 0 c ≡ first_state c
unfolding agree next_state next_utf8_dfa byte_to_character_class
next_state-first_state c h = agree_below 256 (next_state 0) first_state c refl h

-- The state `target` for a byte from `lo` to `hi`, and rejection for any other.
abbrev pub within : ℕ → ℕ → ℕ → ℕ → ℕ
within lo hi target c = if ltb c lo then 12 else if leb c hi then target else 12

pub next_state_last : (c : ℕ) → c < 256 → next_state 24 c ≡ within 128 191 0 c
unfolding agree next_state next_utf8_dfa byte_to_character_class
next_state_last c h = agree_below 256 (next_state 24) (within 128 191 0) c refl h

pub next_state_two : (c : ℕ) → c < 256 → next_state 36 c ≡ within 128 191 24 c
unfolding agree next_state next_utf8_dfa byte_to_character_class
next_state_two c h = agree_below 256 (next_state 36) (within 128 191 24) c refl h

pub next_state_e0 : (c : ℕ) → c < 256 → next_state 48 c ≡ within 160 191 24 c
unfolding agree next_state next_utf8_dfa byte_to_character_class
next_state_e0 c h = agree_below 256 (next_state 48) (within 160 191 24) c refl h

pub next_state_ed : (c : ℕ) → c < 256 → next_state 60 c ≡ within 128 159 24 c
unfolding agree next_state next_utf8_dfa byte_to_character_class
next_state_ed c h = agree_below 256 (next_state 60) (within 128 159 24) c refl h

pub next_state_f0 : (c : ℕ) → c < 256 → next_state 72 c ≡ within 144 191 36 c
unfolding agree next_state next_utf8_dfa byte_to_character_class
next_state_f0 c h = agree_below 256 (next_state 72) (within 144 191 36) c refl h

pub next_state_three : (c : ℕ) → c < 256 → next_state 84 c ≡ within 128 191 36 c
unfolding agree next_state next_utf8_dfa byte_to_character_class
next_state_three c h = agree_below 256 (next_state 84) (within 128 191 36) c refl h

pub next_state_f4 : (c : ℕ) → c < 256 → next_state 96 c ≡ within 128 143 36 c
unfolding agree next_state next_utf8_dfa byte_to_character_class
next_state_f4 c h = agree_below 256 (next_state 96) (within 128 143 36) c refl h

-- Nothing follows a rejection.
pub next_state_rejected : (c : ℕ) → c < 256 → next_state 12 c ≡ 12
unfolding agree next_state next_utf8_dfa byte_to_character_class
next_state_rejected c h = agree_below 256 (next_state 12) (λ _. 12) c refl h

-- The masks of a first byte.
pub leading_one : (c : ℕ) → c < 256 → bit_and c (leading_mask 1) ≡ c
unfolding agree leading_mask bytes_needed_for_utf8_sequence
leading_one c h = agree_below 256 (λ i. bit_and i 255) (λ i. i) c refl h

pub leading_two : (c : ℕ) → c < 256 → bit_and c (leading_mask 2) ≡ c % 32
unfolding agree leading_mask bytes_needed_for_utf8_sequence
leading_two c h = agree_below 256 (λ i. bit_and i 31) (λ i. i % 32) c refl h

pub leading_three : (c : ℕ) → c < 256 → bit_and c (leading_mask 3) ≡ c % 16
unfolding agree leading_mask bytes_needed_for_utf8_sequence
leading_three c h = agree_below 256 (λ i. bit_and i 15) (λ i. i % 16) c refl h

pub leading_four : (c : ℕ) → c < 256 → bit_and c (leading_mask 4) ≡ c % 8
unfolding agree leading_mask bytes_needed_for_utf8_sequence
leading_four c h = agree_below 256 (λ i. bit_and i 7) (λ i. i % 8) c refl h

-- The marks of the bytes that `utf8_encode` stores.
pub mark_80 : (x : ℕ) → x < 64 → bit_or (x % 256) 0x80 ≡ x + 0x80
unfolding agree
mark_80 x h = agree_below 64 (λ i. bit_or (i % 256) 0x80) (λ i. i + 0x80) x refl h

pub mark_c0 : (x : ℕ) → x < 32 → bit_or (x % 256) 0xC0 ≡ x + 0xC0
unfolding agree
mark_c0 x h = agree_below 32 (λ i. bit_or (i % 256) 0xC0) (λ i. i + 0xC0) x refl h

pub mark_e0 : (x : ℕ) → x < 16 → bit_or (x % 256) 0xE0 ≡ x + 0xE0
unfolding agree
mark_e0 x h = agree_below 16 (λ i. bit_or (i % 256) 0xE0) (λ i. i + 0xE0) x refl h

pub mark_f0 : (x : ℕ) → x < 8 → bit_or (x % 256) 0xF0 ≡ x + 0xF0
unfolding agree
mark_f0 x h = agree_below 8 (λ i. bit_or (i % 256) 0xF0) (λ i. i + 0xF0) x refl h
