-- ===== src/Lexer/Quoted/Ends.antt =====
-- How the loop of `scan_string` in src/judo_scan.c ends.
use judo.Api.{Config}
use judo.Base.Int.{ℤ, pos, negsuc}
use judo.Base.{
  ℕ, zero, suc, ◌+◌, ◌≤◌, ◌<◌, ◌≡◌, ◌≢◌, refl, arith, true, false, Bool-cases, inl, inr, Option,
  none, some,
}
use judo.Lexer.Failure.{Result, ok, err}
use judo.Lexer.Quoted.{
  Round, continue, closed, failed, scan_plain, scan_escape, scan_escaped, scan_latin, scan_unicode,
  scan_low_surrogate, scan_round, scan_characters,
}
use judo.Lexer.Quoted.Bounds.{Goes, scan_escape-Goes}
use judo.Utf8.{Source, utf8_decode, is_end, is_bounded, is_bounded_by}
use judo.Utf8.Null.{utf8_decode_null}
use judo.Utf8.Sound.{IsBytes}
use judo.Utf8.Text.{IsShort, is_bounded-lt, utf8_decode-IsSpecial}

bounded_open :
    (maximum : ℕ) (string : ℕ → ℕ) (l : ℤ) (i : ℕ)
    → is_bounded_by maximum string l i 1 ≡ true
    → is_end l i ≡ false
unfolding is_bounded_by is_end
bounded_open maximum string (pos n) i h = ground arith
bounded_open maximum string (negsuc n) i h = refl

abbrev Advances : ℕ → Round → Type 0
Advances i (continue j) = i < j
Advances i (closed j) = Unit
Advances i (failed e) = Unit

module _ (cfg : Config) (src : Source) (bytes : IsBytes src.string) where
  scan_plain-Advances :
      (i : ℕ) → is_bounded cfg src i 1 ≡ true → 0 < src.string i → Advances i (scan_plain cfg src i)
  unfolding scan_plain is_bounded
  scan_plain-Advances i h n =
      let open_end = bounded_open cfg.maximum_input_size src.string src.length i h in
      ground (arith, utf8_decode-IsSpecial cfg src i, utf8_decode_null cfg src bytes i open_end)

  Goes-Advances : (i : ℕ) (r : Round) → Goes cfg src bytes (i + 1) r → Advances i r
  Goes-Advances i (continue j) g = omega (arith, g.ordered)
  Goes-Advances i (closed j) g = tt
  Goes-Advances i (failed e) g = tt

  scan_round-Advances :
      (q i : ℕ) → is_bounded cfg src i 1 ≡ true → Advances i (scan_round cfg src q i)
  unfolding scan_round
  scan_round-Advances q i h = ground (
    arith,
    scan_plain-Advances i h,
    Goes-Advances i (scan_escape cfg src i (i + 1)) (scan_escape-Goes cfg src bytes i (i + 1)),
  )

  -- An escape sequence does not close the string.
  IsOpen : Round → Type 0
  IsOpen (continue j) = Unit
  IsOpen (closed j) = ⊥
  IsOpen (failed e) = Unit

  scan_escaped-IsOpen : (start i : ℕ) → IsOpen (scan_escaped cfg src start i)
  unfolding scan_escaped scan_latin scan_unicode scan_low_surrogate IsOpen
  scan_escaped-IsOpen start i = ground arith

  scan_escape-IsOpen : (start i : ℕ) → IsOpen (scan_escape cfg src start i)
  unfolding scan_escape IsOpen
  scan_escape-IsOpen start i = ground (arith, scan_escaped-IsOpen start i)

  -- A character before the closing quote `q`, from `i` to `next`: no control character and not `q`, or
  -- an escape sequence.
  pub data IsCharacter (q i next : ℕ) : Type 0 where
    plain :
        0x20 ≤ src.string i
        → src.string i ≢ 0x5C
        → src.string i ≢ q
        → 0 < (utf8_decode cfg src i).byte_count
        → next ≡ i + (utf8_decode cfg src i).byte_count
        → IsCharacter q i next
    escaped :
        src.string i ≡ 0x5C → scan_escape cfg src i (i + 1) ≡ continue next → IsCharacter q i next

  -- The characters from `i` to `j`, which are in bounds.
  pub data Characters (q : ℕ) : ℕ → ℕ → Type 0 where
    here : {i : ℕ} → Characters q i i
    passed :
        {i next j : ℕ}
        → is_bounded cfg src i 1 ≡ true
        → IsCharacter q i next
        → Characters q next j
        → Characters q i j

  abbrev Turns : ℕ → ℕ → Round → Type 0
  Turns q i (continue next) = IsCharacter q i next
  Turns q i (closed stop) = (src.string i ≡ q) × (stop ≡ i + 1)
  Turns q i (failed e) = Unit

  plain-Turns :
      (q i : ℕ)
      → 0x20 ≤ src.string i
      → src.string i ≢ 0x5C
      → src.string i ≢ q
      → (r : Round) → scan_plain cfg src i ≡ r
      → Advances i r
      → Turns q i r
  unfolding scan_plain
  plain-Turns q i lo b n (continue next) e a =
      let here : next ≡ i + (utf8_decode cfg src i).byte_count = ground arith in
      plain lo b n (omega arith) here
  plain-Turns q i lo b n (closed stop) e a = ground arith
  plain-Turns q i lo b n (failed f) e a = tt

  escape-Turns :
      (q i : ℕ)
      → src.string i ≡ 0x5C
      → (r : Round) → scan_escape cfg src i (i + 1) ≡ r
      → IsOpen r
      → Turns q i r
  unfolding IsOpen
  escape-Turns q i b (continue next) e o = escaped b e
  escape-Turns q i b (closed stop) e o = absurd o
  escape-Turns q i b (failed f) e o = tt

  escape_round : (q i : ℕ) → src.string i ≡ 0x5C → Turns q i (scan_escape cfg src i (i + 1))
  escape_round q i b = escape-Turns q i b _ refl (scan_escape-IsOpen i (i + 1))

  plain_round :
      (q i : ℕ)
      → is_bounded cfg src i 1 ≡ true
      → 0x20 ≤ src.string i
      → src.string i ≢ 0x5C
      → src.string i ≢ q
      → Turns q i (scan_plain cfg src i)
  plain_round q i h lo b n =
      plain-Turns q i lo b n _ refl (scan_plain-Advances i h (omega (arith, lo)))

  scan_round-Turns : (q i : ℕ) → is_bounded cfg src i 1 ≡ true → Turns q i (scan_round cfg src q i)
  unfolding scan_round
  scan_round-Turns q i h = ground (arith, escape_round q i, plain_round q i h)

  -- Where the characters from `i` end: at the end of the text, at the closing quote, or with an error.
  abbrev pub Ended : ℕ → ℕ → Result (Option ℕ) → Type 0
  Ended q i (ok none) = (j : ℕ) × Characters q i j × (is_bounded cfg src j 1 ≡ false)
  Ended q i (ok (some stop)) =
      (j : ℕ) × Characters q i j
      × (is_bounded cfg src j 1 ≡ true)
      × (src.string j ≡ q)
      × (stop ≡ j + 1)
  Ended q i (err e) =
      (j : ℕ) × Characters q i j
      × (is_bounded cfg src j 1 ≡ true)
      × (scan_round cfg src q j ≡ failed e)

  behind_character :
      (q i next : ℕ) (r : Result (Option ℕ))
      → is_bounded cfg src i 1 ≡ true
      → IsCharacter q i next
      → Ended q next r
      → Ended q i r
  behind_character q i next (ok none) h c (j, t, k) = (j, passed h c t, k)
  behind_character q i next (ok (some stop)) h c (j, t, k, e, p) = (j, passed h c t, k, e, p)
  behind_character q i next (err f) h c (j, t, k, e) = (j, passed h c t, k, e)

  -- With enough rounds, on a text of bytes whose stated length is below the maximum,
  -- `scan_characters` passes over characters that are no control character and not the closing quote,
  -- or escape sequences. It finds no closing quote only at the end of the text that it reaches so, ends
  -- one byte behind the first closing quote that it reaches, or fails at a character that its round
  -- refuses.
  pub scan_characters_stops :
      (q fuel i : ℕ)
      → IsShort cfg src.length
      → cfg.maximum_input_size < i + fuel
      → Ended q i (scan_characters cfg src q fuel i)
  unfolding scan_characters
  scan_characters_stops q zero i short h = elim (Bool-cases (is_bounded cfg src i 1)) [
    | inl more ↦ absurd (omega (arith, is_bounded-lt cfg src i 1 short (omega arith) more))
    | inr stop ↦ (i, here, stop)
  ]
  scan_characters_stops q (suc fuel) i short h = elim (Bool-cases (is_bounded cfg src i 1)) [
    | inl more ↦
        rw (more, scan_characters)
          (by_round more (λ next. scan_characters_stops q fuel next short) (scan_round cfg src q i)
            refl (scan_round-Turns q i more) (scan_round-Advances q i more))
    | inr stop ↦ rw (stop, scan_characters) (i, here, stop)
  ]
    where
      by_round :
          is_bounded cfg src i 1 ≡ true
          → ((next : ℕ)
              → cfg.maximum_input_size < next + fuel
              → Ended q next (scan_characters cfg src q fuel next))
          → (r : Round) → scan_round cfg src q i ≡ r
          → Turns q i r
          → Advances i r
          → Ended q i (elim r [
            | continue next ↦ scan_characters cfg src q fuel next
            | closed stop ↦ ok (some stop)
            | failed e ↦ err e
          ])
      by_round more ih (continue next) e t a =
          behind_character q i next _ more t (ih next (omega (arith, a)))
      by_round more ih (closed stop) e t a = (i, here, more, t.0, t.1)
      by_round more ih (failed f) e t a = (i, here, more, e)
