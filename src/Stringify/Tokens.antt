-- ===== src/Stringify/Tokens.antt =====
-- The string tokens of `scan_string` of src/judo_scan.c, in a build for the JSON standards: what their
-- characters stand for.
use judo.Api.{Config}
use judo.Base.{
  ℕ, zero, suc, ◌+◌, ◌-◌, ◌*◌, ◌≤◌, ◌<◌, ◌≡◌, ◌⊎◌, inl, inr, refl, sym, ap, ◌∙◌, arith, true, false,
  List, [], ◌∷◌, length, codes,
}
use judo.Chars.{judo_isxdigit, judo_isdigit, is_high_surrogate, is_low_surrogate, is_match}
use judo.Chars.Match.{is_match_iff}
use judo.Lexer.Quoted.{continue, hex_digits, low_digits, parsed, scan_unicode, scan_low_surrogate}
use judo.Stringify.Content.{IsDigit, FourDigits, IsDigit-small, parse_character-FourDigits}
use judo.Utf8.{Source}
use judo.Utf8.Scalar.{IsScalar}

xdigit_cases :
    (c : ℕ)
    → judo_isxdigit c ≡ true
    → ((48 ≤ c) × (c ≤ 57)) ⊎ ((65 ≤ c) × (c ≤ 70)) ⊎ ((97 ≤ c) × (c ≤ 102))
unfolding judo_isxdigit judo_isdigit
xdigit_cases c h = ground arith

IsDigit-of : (c : ℕ) → judo_isxdigit c ≡ true → (v : ℕ) × IsDigit c v
IsDigit-of c h = elim (xdigit_cases c h) [
  | inl d ↦ (c - 48, inl (omega (arith, d.0, d.1), omega (arith, d.0, d.1)))
  | inr (inl d) ↦ (c - 55, inr (inl (omega (arith, d.0), omega (arith, d.1), omega (arith, d.0))))
  | inr (inr d) ↦ (c - 87, inr (inr (omega (arith, d.0), omega (arith, d.1), omega (arith, d.0))))
]

module _ (cfg : Config) (src : Source) where
  -- The list holds the hexadecimal digits that stand at an index.
  abbrev Runs : List ℕ → ℕ → Type 0
  Runs [] i = Unit
  Runs (c ∷ cs) i = (c ≡ src.string i) × (judo_isxdigit (src.string i) ≡ true) × Runs cs (i + 1)

  hex_digits-Runs : (count i : ℕ) → Runs (hex_digits cfg src count i) i
  unfolding hex_digits
  hex_digits-Runs zero i = tt
  hex_digits-Runs (suc count) i = ground (arith, hex_digits-Runs count (i + 1))

  low_digits-Runs : (count i : ℕ) → Runs (low_digits cfg src count i) i
  unfolding low_digits
  low_digits-Runs zero i = tt
  low_digits-Runs (suc count) i = ground (arith, low_digits-Runs count (i + 1))

  abbrev AreFour : List ℕ → ℕ → Type 0
  AreFour digits i = FourDigits src.string i (parsed digits)

  four_bytes :
      (i : ℕ)
      → judo_isxdigit (src.string i) ≡ true
      → judo_isxdigit (src.string (i + 1)) ≡ true
      → judo_isxdigit (src.string (i + 2)) ≡ true
      → judo_isxdigit (src.string (i + 3)) ≡ true
      → FourDigits src.string i (
          parsed (src.string i ∷ src.string (i + 1) ∷ src.string (i + 2) ∷ src.string (i + 3) ∷ []))
  four_bytes i p q r s =
      let (a, a') = IsDigit-of (src.string i) p in
      let (b, b') = IsDigit-of (src.string (i + 1)) q in
      let (c, c') = IsDigit-of (src.string (i + 2)) r in
      let (d, d') = IsDigit-of (src.string (i + 3)) s in
      let f : FourDigits src.string i (a * 4096 + b * 256 + c * 16 + d) = record {
        first = a;
        second = b;
        third = c;
        fourth = d;
        is_first = a';
        is_second = b';
        is_third = c';
        is_fourth = d';
        value = refl;
      } in
      rw (parse_character-FourDigits src.string i _ f) f

  four_of : (digits : List ℕ) (i : ℕ) → Runs digits i → length digits ≡ 4 → AreFour digits i
  four_of [] i r e = absurd (omega (arith, e))
  four_of (a ∷ []) i r e = absurd (omega (arith, e))
  four_of (a ∷ b ∷ []) i r e = absurd (omega (arith, e))
  four_of (a ∷ b ∷ c ∷ []) i r e = absurd (omega (arith, e))
  four_of (a ∷ b ∷ c ∷ d ∷ x ∷ xs) i r e = absurd (omega (arith, e))
  four_of (a ∷ b ∷ c ∷ d ∷ []) i (p, p', (q, q', (r, r', (s, s', t)))) e =
      let two : i + 1 + 1 ≡ i + 2 = omega arith in
      let three : i + 1 + 1 + 1 ≡ i + 3 = omega arith in
      rw (p, q, r ∙ ap src.string two, s ∙ ap src.string three)
        (four_bytes i p' q' (rw two at r') (rw three at s'))

  -- What the digits of an escape sequence stand for, and the index behind it.
  abbrev pub Unicode : ℕ → ℕ → Type 0
  Unicode i next =
      ((c : ℕ) × FourDigits src.string i c × IsScalar c × (next ≡ i + 4))
      ⊎ ((high : ℕ) × (low : ℕ) × FourDigits src.string i (0xD800 + high)
          × (src.string (i + 4) ≡ 0x5C)
          × (src.string (i + 5) ≡ b'u')
          × FourDigits src.string (i + 6) (0xDC00 + low)
          × (high < 0x400)
          × (low < 0x400)
          × (next ≡ i + 10))

  hex_digits-le : (n i : ℕ) → length (hex_digits cfg src n i) ≤ n
  unfolding hex_digits
  hex_digits-le zero i = omega arith
  hex_digits-le (suc n) i = ground (arith, hex_digits-le n (i + 1))

  abbrev hex : ℕ → List ℕ
  hex i = hex_digits cfg src 4 i

  abbrev low_hex : ℕ → List ℕ
  low_hex i = low_digits cfg src 4 i

  scan_unicode_cases :
      (start i next : ℕ)
      → scan_unicode cfg src start i ≡ continue next
      → (4 ≤ length (hex i))
        × (((is_high_surrogate (parsed (hex i)) ≡ true)
              × (scan_low_surrogate cfg src start (i + length (hex i)) (parsed (hex i))
                  ≡ continue next))
            ⊎ ((is_high_surrogate (parsed (hex i)) ≡ false)
                × (is_low_surrogate (parsed (hex i)) ≡ false)
                × (next ≡ i + length (hex i))))
  unfolding scan_unicode
  scan_unicode_cases start i next h = ground arith

  high_low : (c : ℕ) → is_high_surrogate c ≡ true → is_low_surrogate c ≡ false
  unfolding is_high_surrogate is_low_surrogate
  high_low c h = ground arith

  scan_low_surrogate_cases :
      (start i high next : ℕ)
      → is_high_surrogate high ≡ true
      → scan_low_surrogate cfg src start i high ≡ continue next
      → (is_match src.string i (codes "\\u") 2 ≡ true)
        × (length (low_hex (i + 2)) ≡ 4)
        × (is_low_surrogate (parsed (low_hex (i + 2))) ≡ true)
        × (next ≡ i + 2 + length (low_hex (i + 2)))
  unfolding scan_low_surrogate
  scan_low_surrogate_cases start i high next k h = ground (arith, high_low high k)

  split_high : (c : ℕ) → is_high_surrogate c ≡ true → (h : ℕ) × (c ≡ 0xD800 + h) × (h < 0x400)
  unfolding is_high_surrogate
  split_high c h = (c - 0xD800, ground arith, ground arith)

  split_low : (c : ℕ) → is_low_surrogate c ≡ true → (l : ℕ) × (c ≡ 0xDC00 + l) × (l < 0x400)
  unfolding is_low_surrogate
  split_low c h = (c - 0xDC00, ground arith, ground arith)

  not_surrogate :
      (c : ℕ) → c < 0x110000 → is_high_surrogate c ≡ false → is_low_surrogate c ≡ false → IsScalar c
  unfolding is_high_surrogate is_low_surrogate
  not_surrogate c small h l = ground arith

  four_small : (i v : ℕ) → FourDigits src.string i v → v < 0x10000
  four_small i v f = omega (
    arith,
    f.value,
    IsDigit-small _ _ f.is_first,
    IsDigit-small _ _ f.is_second,
    IsDigit-small _ _ f.is_third,
    IsDigit-small _ _ f.is_fourth,
  )

  pub scan_unicode-Unicode :
      (start i next : ℕ) → scan_unicode cfg src start i ≡ continue next → Unicode i next
  scan_unicode-Unicode start i next h =
      let (long, k) = scan_unicode_cases start i next h in
      let four : length (hex i) ≡ 4 = omega (arith, long, hex_digits-le 4 i) in
      let f : AreFour (hex i) i = four_of (hex i) i (hex_digits-Runs 4 i) four in
      elim k [
        | inl (high, low) ↦
            pair start i next f (split_high (parsed (hex i)) high)
              (scan_low_surrogate_cases start (i + 4) (parsed (hex i)) next high (rw four at low))
        | inr (high, low, e) ↦ inl (
          parsed (hex i),
          f,
          not_surrogate (parsed (hex i)) (omega (arith, four_small i _ f)) high low,
          omega (arith, e, four),
        )
      ]
    where
      pair :
          (start i next : ℕ)
          → FourDigits src.string i (parsed (hex i))
          → (h : ℕ) × (parsed (hex i) ≡ 0xD800 + h) × (h < 0x400)
          → (is_match src.string (i + 4) (codes "\\u") 2 ≡ true)
            × (length (low_hex (i + 4 + 2)) ≡ 4)
            × (is_low_surrogate (parsed (low_hex (i + 4 + 2))) ≡ true)
            × (next ≡ i + 4 + 2 + length (low_hex (i + 4 + 2)))
          → Unicode i next
      pair start i next f (high, is_high, h) (m, four, low_is, e) =
          let six : i + 4 + 2 ≡ i + 6 = omega arith in
          let five : i + 4 + 1 ≡ i + 5 = omega arith in
          let g : AreFour (low_hex (i + 4 + 2)) (i + 4 + 2) =
            four_of (low_hex (i + 4 + 2)) (i + 4 + 2) (low_digits-Runs 4 (i + 4 + 2)) four in
          let (low, is_low, l) = split_low _ low_is in
          let held = ((is_match_iff src.string (i + 4) (codes "\\u") 2).0 m).1 in
          inr (
            high,
            low,
            rw is_high at f,
            held.0,
            ap src.string (sym five) ∙ held.1.0,
            rw (is_low, six) at g,
            h,
            l,
            omega (arith, e, four),
          )
