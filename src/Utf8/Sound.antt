-- ===== src/Utf8/Sound.antt =====
-- What `utf8_decode` accepts, at any position of any text.
use judo.Api.{Config}
use judo.Base.Int.{ℤ, pos, negsuc}
use judo.Base.{
  ℕ, zero, suc, ◌+◌, ◌-◌, ◌≤◌, ◌<◌, ◌≡◌, refl, sym, ◌⊎◌, inl, inr, false, arith, Bool-cases, length,
}
use judo.Utf8.{
  Source, Decoded, Partial, has_null, is_end, untruncated, bytes_needed, decode_sequence, decoded,
  decode_bounded, utf8_decode, utf8_encode,
}
use judo.Utf8.Bytes.{announced_bytes, bytes_needed-announced_bytes}
use judo.Utf8.Scalar.{
  IsScalar, Holds, Accepted, utf8_encode-rfc3629, Accepted-one, Accepted-two, Accepted-three,
  Accepted-four,
}

abbrev pub IsBytes : (ℕ → ℕ) → Type 0
IsBytes string = (i : ℕ) → string i < 256

-- The bytes before `stop` belong to the text.
abbrev pub Inside : ℤ → ℕ → Type 0
Inside (pos length) stop = stop ≤ length
Inside (negsuc _) stop = Unit

-- What `utf8_decode` reports of `byte_count` bytes that it read.
pub record Reads (cfg : Config) (src : Source) (cursor : ℕ) (d : Decoded) : Type 0 where
  pub scalar : IsScalar d.codepoint
  pub stands : Holds src.string cursor (utf8_encode d.codepoint)
  pub takes : length (utf8_encode d.codepoint) ≡ d.byte_count
  pub bounded : cursor + d.byte_count < cfg.maximum_input_size
  pub inside : Inside src.length (cursor + d.byte_count)

pub accepted :
    (string : ℕ → ℕ) (cursor k : ℕ)
    → IsBytes string
    → announced_bytes (string cursor) ≡ k
    → 0 < k
    → (decode_sequence string cursor k).state ≡ 0
    → Accepted string cursor (decode_sequence string cursor k).value k
accepted string cursor zero bytes h p e = absurd (omega arith)
accepted string cursor (suc zero) bytes h p e = (Accepted-one string bytes cursor h).1
accepted string cursor (suc (suc zero)) bytes h p e = Accepted-two string bytes cursor h e
accepted string cursor (suc (suc (suc zero))) bytes h p e = Accepted-three string bytes cursor h e
accepted string cursor (suc (suc (suc (suc zero)))) bytes h p e =
    Accepted-four string bytes cursor h e
accepted string cursor (suc (suc (suc (suc (suc k))))) bytes h p e = absurd (ground arith)

-- A sequence length that the text has room for.
abbrev pub Fits : Source → ℕ → ℕ → Type 0
Fits src cursor k =
    (k ≡ 0) ⊎ ((announced_bytes (src.string cursor) ≡ k) × Inside src.length (cursor + k))

pub untruncated-Fits :
    (string : ℕ → ℕ) (length : ℤ) (cursor k : ℕ)
    → announced_bytes (string cursor) ≡ k
    → is_end length cursor ≡ false
    → Fits (record { string = string; length = length }) cursor (untruncated string length cursor k)
unfolding untruncated is_end
untruncated-Fits string (pos n) cursor k h e = ground arith
untruncated-Fits string (negsuc n) cursor k h e =
    elim (Bool-cases (has_null string (cursor + 1) (k - 1))) [
      | inl cut ↦ rw cut (inl refl)
      | inr whole ↦ rw whole (inr (h, tt))
    ]

decoded_inversion :
    (length : ℤ) (k : ℕ) (p : Partial)
    → 0 < (decoded length k p).byte_count
    → (p.state ≡ 0) × (decoded length k p ≡ record { codepoint = p.value; byte_count = k })
unfolding decoded
decoded_inversion length k p h = ground arith

pub decode_bounded_inversion :
    (cfg : Config) (src : Source) (cursor k : ℕ)
    → 0 < (decode_bounded cfg src cursor k).byte_count
    → (cursor + k < cfg.maximum_input_size)
      × (0 < k)
      × (decode_bounded cfg src cursor k
          ≡ decoded src.length k (decode_sequence src.string cursor k))
unfolding decode_bounded
decode_bounded_inversion cfg src cursor k h = ground arith

pub utf8_decode_inversion :
    (cfg : Config) (src : Source) (cursor : ℕ)
    → 0 < (utf8_decode cfg src cursor).byte_count
    → (is_end src.length cursor ≡ false)
      × (utf8_decode cfg src cursor
          ≡ decode_bounded cfg src cursor
              (untruncated src.string src.length cursor (bytes_needed (src.string cursor))))
unfolding utf8_decode
utf8_decode_inversion cfg src cursor h = ground arith

module _ (cfg : Config) (src : Source) (bytes : IsBytes src.string) (cursor : ℕ) where
  Accepted-Reads :
      (k : ℕ) (v : ℕ)
      → Accepted src.string cursor v k
      → cursor + k < cfg.maximum_input_size
      → Inside src.length (cursor + k)
      → Reads cfg src cursor (record { codepoint = v; byte_count = k })
  Accepted-Reads k v a b i =
      let e = utf8_encode-rfc3629 v (omega (arith, a.scalar)) in
      record {
        scalar = a.scalar;
        stands = rw e a.stands;
        takes = rw e a.takes;
        bounded = b;
        inside = i;
      }

  decoded-Reads :
      (k : ℕ)
      → announced_bytes (src.string cursor) ≡ k
      → 0 < k
      → cursor + k < cfg.maximum_input_size
      → Inside src.length (cursor + k)
      → 0 < (decoded src.length k (decode_sequence src.string cursor k)).byte_count
      → Reads cfg src cursor (decoded src.length k (decode_sequence src.string cursor k))
  decoded-Reads k a p b i h =
      let (done, e) = decoded_inversion src.length k (decode_sequence src.string cursor k) h in
      rw e (Accepted-Reads k _ (accepted src.string cursor k bytes a p done) b i)

  decode_bounded-Reads :
      (k : ℕ)
      → Fits src cursor k
      → 0 < (decode_bounded cfg src cursor k).byte_count
      → Reads cfg src cursor (decode_bounded cfg src cursor k)
  decode_bounded-Reads k (inl none) h =
      let (b, p, e) = decode_bounded_inversion cfg src cursor k h in absurd (omega arith)
  decode_bounded-Reads k (inr (a, i)) h =
      let (b, p, e) = decode_bounded_inversion cfg src cursor k h in
      rw e (decoded-Reads k a p b i (rw e at h))

  -- A sequence that `utf8_decode` reports with a length of at least one is the encoding of the
  -- scalar value that it returns, and lies in the text and below the size limit.
  pub utf8_decode-Reads :
      0 < (utf8_decode cfg src cursor).byte_count
      → Reads cfg src cursor (utf8_decode cfg src cursor)
  utf8_decode-Reads h =
      let (more, e) = utf8_decode_inversion cfg src cursor h in
      rw e (
        decode_bounded-Reads _
          (untruncated-Fits src.string src.length cursor _
            (sym (bytes_needed-announced_bytes (src.string cursor) (bytes cursor))) more)
          (rw e at h))
