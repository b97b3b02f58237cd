-- ===== src/Utf8/Text.antt =====
-- The positions that belong to a text, and the positions that its readers pass over.
use native.Mathlib.Decide.{dec_lt, ℕ_discrete}
use judo.Api.{Config}
use judo.Base.Int.{ℤ, pos, negsuc}
use judo.Base.{
  ℕ, zero, suc, ◌+◌, ◌≤◌, ◌<◌, ◌≡◌, ◌≢◌, ◌⊎◌, true, false, arith, refl, sym, ◌∙◌, List, [], ◌∷◌,
  length,
}
use judo.Utf8.{
  Source, Decoded, Partial, has_null, is_bounded, is_bounded_by, untruncated, bytes_needed,
  is_terminator, decoded, decode_bounded, utf8_decode, bad_character_encoding, input_too_large,
}
use judo.Utf8.Scalar.{Holds, rfc3629, utf8_encode-rfc3629}
use judo.Utf8.Sound.{
  IsBytes, Inside, utf8_decode-Reads, decode_bounded_inversion, utf8_decode_inversion,
}

-- A byte of the text stands at `i`: it lies before the given length, or is no null byte.
abbrev pub IsText : ℤ → (ℕ → ℕ) → ℕ → Type 0
IsText (pos n) string i = i < n
IsText (negsuc _) string i = string i ≢ 0

-- All positions from `a` to before `b` belong to the text.
pub record Spans (src : Source) (a b : ℕ) : Type 0 where
  pub ordered : a ≤ b
  pub text : (i : ℕ) → a ≤ i → i < b → IsText src.length src.string i

module _ (src : Source) where
  pub Spans-refl : (a : ℕ) → Spans src a a
  Spans-refl a = record { ordered = omega arith; text = λ i h k. absurd (omega arith) }

  pub Spans-trans : (a b c : ℕ) → Spans src a b → Spans src b c → Spans src a c
  Spans-trans a b c p q = record {
    ordered = omega (arith, p.ordered, q.ordered);
    text = λ i h k. elim (dec_lt i b) [ yes l ↦ p.text i h l | no l ↦ q.text i (omega arith) k ];
  }

abbrev AllNonzero : List ℕ → Type 0
AllNonzero [] = Unit
AllNonzero (b ∷ bs) = (b ≢ 0) × AllNonzero bs

Holds-nonzero :
    (string : ℕ → ℕ) (a : ℕ) (bs : List ℕ)
    → AllNonzero bs
    → Holds string a bs
    → (i : ℕ) → a ≤ i
    → i < a + length bs
    → string i ≢ 0
Holds-nonzero string a [] n h i p q = absurd (omega arith)
Holds-nonzero string a (b ∷ bs) n h i p q = elim (ℕ_discrete i a) [
  | yes e ↦ rw e (λ z. n.0 (sym h.0 ∙ z))
  | no d ↦ Holds-nonzero string (a + 1) bs n.1 h.1 i (omega arith) (omega arith)
]

-- The bytes of an encoded character other than null are not null.
rfc3629-AllNonzero : (c : ℕ) → c ≢ 0 → AllNonzero (rfc3629 c)
rfc3629-AllNonzero c n = ground arith

decoded_nonzero :
    (l : ℤ) (k : ℕ) (p : Partial)
    → 0 < (decoded l k p).byte_count
    → is_terminator l (decoded l k p).codepoint ≡ false
unfolding decoded is_terminator
decoded_nonzero (pos n) k p h = refl
decoded_nonzero (negsuc n) k p h = ground arith

-- No byte is reported only with one of the three special code points.
abbrev pub IsSpecial : Decoded → Type 0
IsSpecial d =
    (d.codepoint ≡ 0) ⊎ (d.codepoint ≡ bad_character_encoding) ⊎ (d.codepoint ≡ input_too_large)

decode_bounded-IsSpecial :
    (cfg : Config) (src : Source) (cursor k : ℕ)
    → (decode_bounded cfg src cursor k).byte_count ≡ 0
    → IsSpecial (decode_bounded cfg src cursor k)
unfolding decode_bounded decoded
decode_bounded-IsSpecial cfg src cursor k h = ground arith

pub utf8_decode-IsSpecial :
    (cfg : Config) (src : Source) (cursor : ℕ)
    → (utf8_decode cfg src cursor).byte_count ≡ 0
    → IsSpecial (utf8_decode cfg src cursor)
unfolding utf8_decode
utf8_decode-IsSpecial cfg src cursor h = ground (
  arith,
  decode_bounded-IsSpecial cfg src cursor
      (untruncated src.string src.length cursor (bytes_needed (src.string cursor))),
)

has_null-IsText :
    (string : ℕ → ℕ) (cursor k : ℕ)
    → has_null string cursor k ≡ false
    → (i : ℕ) → cursor ≤ i
    → i < cursor + k
    → string i ≢ 0
unfolding has_null
has_null-IsText string cursor zero h i p q = absurd (omega arith)
has_null-IsText string cursor (suc k) h i p q = elim (ℕ_discrete i cursor) [
  | yes e ↦ rw e (ground arith)
  | no d ↦ has_null-IsText string (cursor + 1) k (ground arith) i (omega arith) (omega arith)
]

bounded-IsText :
    (maximum : ℕ) (string : ℕ → ℕ) (l : ℤ) (cursor k : ℕ)
    → is_bounded_by maximum string l cursor k ≡ true
    → (i : ℕ) → cursor ≤ i
    → i < cursor + k
    → IsText l string i
unfolding is_bounded_by
bounded-IsText maximum string (pos n) cursor k h i p q = ground arith
bounded-IsText maximum string (negsuc n) cursor k h i p q =
    has_null-IsText string cursor k (ground arith) i p q

rfc3629_ascii : (string : ℕ → ℕ) (a c : ℕ) → c < 0x80 → Holds string a (rfc3629 c) → string a ≡ c
rfc3629_ascii string a c h e = ground arith

length-rfc3629_ascii : (c : ℕ) → c < 0x80 → length (rfc3629 c) ≡ 1
length-rfc3629_ascii c h = ground arith

module _ (cfg : Config) (src : Source) (bytes : IsBytes src.string) where
  decode_nonzero :
      (cursor : ℕ)
      → 0 < (utf8_decode cfg src cursor).byte_count
      → is_terminator src.length (utf8_decode cfg src cursor).codepoint ≡ false
  decode_nonzero cursor h =
      let (more, e) = utf8_decode_inversion cfg src cursor h in
      let (b, p, d) = decode_bounded_inversion cfg src cursor _ (rw e at h) in
      rw (e, d) (decoded_nonzero src.length _ _ (rw (e, d) at h))

  Reads-IsText :
      (l : ℤ) (cursor k c : ℕ) (string : ℕ → ℕ)
      → is_terminator l c ≡ false
      → Inside l (cursor + k)
      → Holds string cursor (rfc3629 c)
      → length (rfc3629 c) ≡ k
      → (i : ℕ) → cursor ≤ i
      → i < cursor + k
      → IsText l string i
  unfolding is_terminator
  Reads-IsText (pos n) cursor k c string t r h e i p q = omega arith
  Reads-IsText (negsuc n) cursor k c string t r h e i p q =
      Holds-nonzero string cursor (rfc3629 c) (rfc3629-AllNonzero c (ground arith)) h i p
        (omega arith)

  -- The bytes of a decoded character belong to the text.
  pub utf8_decode-Spans :
      (cursor : ℕ) → Spans src cursor (cursor + (utf8_decode cfg src cursor).byte_count)
  utf8_decode-Spans cursor = record {
    ordered = omega arith;
    text = λ i p q.
        let r = utf8_decode-Reads cfg src bytes cursor (omega arith) in
        let e =
          utf8_encode-rfc3629 (utf8_decode cfg src cursor).codepoint (omega (arith, r.scalar)) in
        Reads-IsText src.length cursor _ _ src.string (decode_nonzero cursor (omega arith)) r.inside
          (rw e at r.stands) (rw e at r.takes) i p q;
  }

  -- An ASCII character other than null takes one byte, which is the character.
  pub ascii_decode :
      (cursor : ℕ)
      → 0 < (utf8_decode cfg src cursor).codepoint
      → (utf8_decode cfg src cursor).codepoint < 0x80
      → ((utf8_decode cfg src cursor).byte_count ≡ 1)
        × (src.string cursor ≡ (utf8_decode cfg src cursor).codepoint)
        × (cursor + 1 < cfg.maximum_input_size)
        × Spans src cursor (cursor + 1)
  ascii_decode cursor p q =
      let c = (utf8_decode cfg src cursor).codepoint in
      let some_bytes : 0 < (utf8_decode cfg src cursor).byte_count =
        ground (arith, utf8_decode-IsSpecial cfg src cursor) in
      let r = utf8_decode-Reads cfg src bytes cursor some_bytes in
      let e = utf8_encode-rfc3629 c (omega arith) in
      let held : Holds src.string cursor (rfc3629 c) = rw e at r.stands in
      let one : (utf8_decode cfg src cursor).byte_count ≡ 1 =
        sym (rw e at r.takes) ∙ length-rfc3629_ascii c q in
      (
        one,
        rfc3629_ascii src.string cursor c q held,
        omega (arith, r.bounded),
        rw one at (utf8_decode-Spans cursor),
      )

  -- Bytes that are in bounds belong to the text.
  pub is_bounded-Spans :
      (cursor k : ℕ) → is_bounded cfg src cursor k ≡ true → Spans src cursor (cursor + k)
  unfolding is_bounded
  is_bounded-Spans cursor k h = record {
    ordered = omega arith;
    text = λ i p q. bounded-IsText cfg.maximum_input_size src.string src.length cursor k h i p q;
  }

-- The length that the caller states is below the limit, as `judo_scan` requires.
abbrev pub IsShort : Config → ℤ → Type 0
IsShort cfg (pos n) = n < cfg.maximum_input_size
IsShort cfg (negsuc _) = Unit

bounded-lt :
    (cfg : Config) (l : ℤ) (string : ℕ → ℕ) (i k : ℕ)
    → IsShort cfg l
    → 0 < k
    → is_bounded_by cfg.maximum_input_size string l i k ≡ true
    → i < cfg.maximum_input_size
unfolding is_bounded_by
bounded-lt cfg (pos n) string i k short some h = ground arith
bounded-lt cfg (negsuc n) string i k short some h = ground arith

module _ (cfg : Config) (src : Source) where
  -- A position where bytes are in bounds lies below the size limit.
  pub is_bounded-lt :
      (i k : ℕ)
      → IsShort cfg src.length
      → 0 < k
      → is_bounded cfg src i k ≡ true
      → i < cfg.maximum_input_size
  unfolding is_bounded
  is_bounded-lt i k short some h = bounded-lt cfg src.length src.string i k short some h
