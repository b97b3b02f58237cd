-- ===== src/Program/Location.antt =====
-- src/judo_main.c: `compulate_source_location`, the line and the column of an error.
use judo.Base.{
  ℕ, zero, suc, ◌+◌, ◌*◌, ◌≤◌, ◌<◌, ◌≡◌, refl, arith, Bool, false, Bool-cases, inl, inr, ◌&&◌, ◌||◌,
  Option, none, some, ltb, ◌==◌, if◌then◌else◌, bit_and, bit_or,
}

-- The table `unsafe_utf8_sequence_lengths`.
unfoldable pub unsafe_utf8_sequence_length : ℕ → ℕ
unsafe_utf8_sequence_length byte =
    if ltb byte 0xC0
    then 1
    else if ltb byte 0xE0
    then 2
    else if ltb byte 0xF0
    then 3
    else if ltb byte 0xF5
    then 4
    else 0

-- cp = (cp << 6) | (byte & 0x3F)
abbrev pub add_bits : ℕ → ℕ → ℕ
add_bits cp byte = bit_or (cp * 64) (bit_and byte 0x3F)

-- The scalar that stands at `i`, by the length of its sequence.
unfoldable pub decode_utf8 : (ℕ → ℕ) → ℕ → ℕ → ℕ
decode_utf8 string i n =
    if n == 1
    then string i
    else if n == 2
    then add_bits (bit_and (string i) 0x1F) (string (i + 1))
    else if n == 3
    then add_bits (add_bits (bit_and (string i) 0x0F) (string (i + 1))) (string (i + 2))
    else if n == 4
    then add_bits (add_bits (add_bits (bit_and (string i) 0x07) (string (i + 1))) (string (i + 2)))
        (string (i + 3))
    else 0

pub record Location : Type 0 where
  pub line : ℕ
  pub column : ℕ

abbrev next_line : Location → Location
next_line l = record { line = l.line + 1; column = 1 }

abbrev next_column : Location → Location
next_column l = record l { column = l.column + 1 }

abbrev breaks_line : ℕ → Bool
breaks_line cp = cp == 0x000A || (cp == 0x000D || (cp == 0x2028 || cp == 0x2029))

unfoldable pub advance_location : ℕ → Location → Location
advance_location cp l = if breaks_line cp then next_line l else next_column l

-- A carriage return and a line feed, with two characters behind them at least.
unfoldable pub has_crlf : (ℕ → ℕ) → ℕ → ℕ → Bool
has_crlf input input_length i =
    ltb (i + 2) input_length && (input i == 0x0D && input (i + 1) == 0x0A)

pub record Reached : Type 0 where
  pub at : ℕ
  pub location : Location

-- One round of the loop.
unfoldable pub location_round : (ℕ → ℕ) → ℕ → Reached → Reached
location_round input input_length r =
    let n = unsafe_utf8_sequence_length (input r.at) in
    if has_crlf input input_length r.at
    then record { at = r.at + 2; location = next_line r.location }
    else record { at = r.at + n; location = advance_location (decode_utf8 input r.at n) r.location }

-- So many rounds at most.
unfoldable pub location_loop : ℕ → (ℕ → ℕ) → ℕ → ℕ → Reached → Option Location
location_loop zero input input_length offset r = none
location_loop (suc rounds) input input_length offset r =
    let rest =
      location_loop rounds input input_length offset (location_round input input_length r) in
    if ltb r.at offset then rest else some r.location

unfoldable pub compulate_source_location : (ℕ → ℕ) → ℕ → ℕ → Option Location
compulate_source_location input input_length offset =
    location_loop (suc offset) input input_length offset
      (record { at = 0; location = record { line = 1; column = 1 } })

advance_bounds :
    (cp : ℕ) (l : Location)
    → 1 ≤ l.line
    → 1 ≤ l.column
    → (1 ≤ (advance_location cp l).line)
      × (1 ≤ (advance_location cp l).column)
      × ((advance_location cp l).line + (advance_location cp l).column ≤ l.line + l.column + 1)
unfolding advance_location
advance_bounds cp l a b = elim (Bool-cases (breaks_line cp)) [
  | inl yes_line ↦ rw yes_line (omega arith, omega arith, omega arith)
  | inr no_line ↦ rw no_line (omega arith, omega arith, omega arith)
]

-- What holds of a position that was reached in the text.
pub record InBounds (r : Reached) (bound : ℕ) : Type 0 where
  pub line : 1 ≤ r.location.line
  pub column : 1 ≤ r.location.column
  pub sum : r.location.line + r.location.column ≤ bound

round_bounds :
    (input : ℕ → ℕ) (input_length bound : ℕ) (r : Reached)
    → InBounds r bound
    → 0 < unsafe_utf8_sequence_length (input r.at)
    → InBounds (location_round input input_length r) (bound + 1)
      × (r.at < (location_round input input_length r).at)
unfolding location_round
round_bounds input input_length bound r h some_length =
    elim (Bool-cases (has_crlf input input_length r.at)) [
      | inl two ↦ rw two (
        record {
          line = omega (arith, h.line);
          column = omega arith;
          sum = omega (arith, h.line, h.column, h.sum);
        },
        omega arith,
      )
      | inr one ↦
          let n = unsafe_utf8_sequence_length (input r.at) in
          let (a, b, c) = advance_bounds (decode_utf8 input r.at n) r.location h.line h.column in
          rw one (
            record { line = a; column = b; sum = omega (arith, c, h.sum) },
            omega (arith, some_length),
          )
    ]

module _ (input : ℕ → ℕ) (input_length offset : ℕ)
    (lengths : (i : ℕ) → i < offset → 0 < unsafe_utf8_sequence_length (input i)) where
  location_loop_bounds :
      (rounds bound : ℕ) (r : Reached)
      → InBounds r bound
      → offset ≤ r.at + rounds
      → (l : Location) × (location_loop (suc rounds) input input_length offset r ≡ some l)
        × (1 ≤ l.line)
        × (1 ≤ l.column)
        × (l.line + l.column ≤ bound + rounds)
  unfolding location_loop
  location_loop_bounds zero bound r h enough =
      let over : ltb r.at offset ≡ false = ground arith in
      (r.location, rw over refl, h.line, h.column, omega (arith, h.sum))
  location_loop_bounds (suc rounds) bound r h enough = elim (Bool-cases (ltb r.at offset)) [
    | inl more ↦
        let (h', further) =
          round_bounds input input_length bound r h (lengths r.at (ground arith)) in
        let (l, e, a, b, c) =
          location_loop_bounds rounds (bound + 1) (location_round input input_length r) h'
            (omega (arith, enough, further)) in
        (l, rw more e, a, b, omega (arith, c))
    | inr over ↦ (r.location, rw over refl, h.line, h.column, omega (arith, h.sum))
  ]

  -- Where the table gives some length for each byte before the offset, the loop ends, and the line and
  -- the column are at least 1 and together at most two more than the offset.
  pub compulate_source_location_ends :
      (l : Location) × (compulate_source_location input input_length offset ≡ some l)
      × (1 ≤ l.line)
      × (1 ≤ l.column)
      × (l.line + l.column ≤ offset + 2)
  unfolding compulate_source_location
  compulate_source_location_ends =
      let (l, e, a, b, c) =
        location_loop_bounds offset 2
          (record { at = 0; location = record { line = 1; column = 1 } })
          (record { line = omega arith; column = omega arith; sum = omega arith }) (omega arith) in
      (l, e, a, b, omega (arith, c))
