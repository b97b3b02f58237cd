-- ===== src/Utf8/Null.antt =====
-- When `utf8_decode` of src/judo_scan.c returns the null character.
use judo.Api.{Config}
use judo.Base.Int.{ℤ, pos, negsuc}
use judo.Base.{ℕ, ◌<◌, ◌≡◌, inl, inr, true, false, sym, ap, arith, Bool-cases}
use judo.Utf8.{
  Source, Partial, Decoded, is_end, decode_sequence, is_terminator, decoded, decode_bounded,
  utf8_decode,
}
use judo.Utf8.Bytes.{bytes_needed-announced_bytes}
use judo.Utf8.Scalar.{Accepted}
use judo.Utf8.Sound.{IsBytes, Fits, untruncated-Fits, accepted}
use judo.Utf8.Text.{IsText}

decoded_null :
    (l : ℤ) (k : ℕ) (p : Partial) → (decoded l k p).codepoint ≡ 0 → (p.state ≡ 0) × (p.value ≡ 0)
unfolding decoded is_terminator
decoded_null (pos n) k p h = ground arith
decoded_null (negsuc n) k p h = ground arith

decode_bounded_open :
    (cfg : Config) (src : Source) (cursor k : ℕ)
    → (decode_bounded cfg src cursor k).codepoint ≡ 0
    → (0 < k) × ((decoded src.length k (decode_sequence src.string cursor k)).codepoint ≡ 0)
unfolding decode_bounded
decode_bounded_open cfg src cursor k h = ground arith

null_byte :
    (string : ℕ → ℕ) (cursor v k : ℕ) → Accepted string cursor v k → v ≡ 0 → string cursor ≡ 0
null_byte string cursor v k a e = let held = rw e at a.stands in held.0

module _ (cfg : Config) (src : Source) (bytes : IsBytes src.string) (cursor : ℕ) where
  decode_bounded_null :
      (k : ℕ)
      → Fits src cursor k
      → (decode_bounded cfg src cursor k).codepoint ≡ 0
      → src.string cursor ≡ 0
  decode_bounded_null k (inl none) h =
      absurd (omega (arith, none, (decode_bounded_open cfg src cursor k h).0))
  decode_bounded_null k (inr (a, i)) h =
      let (some, e) = decode_bounded_open cfg src cursor k h in
      let (done, v) = decoded_null src.length k _ e in
      null_byte src.string cursor _ k (accepted src.string cursor k bytes a some done) v

  -- Where `utf8_decode` returns the null character before the end of the text, a null byte stands.
  pub utf8_decode_null :
      is_end src.length cursor ≡ false
      → (utf8_decode cfg src cursor).codepoint ≡ 0
      → src.string cursor ≡ 0
  unfolding utf8_decode
  utf8_decode_null e h =
      decode_bounded_null _
        (untruncated-Fits src.string src.length cursor _
          (sym (bytes_needed-announced_bytes (src.string cursor) (bytes cursor))) e)
        (rw e at h)

ends_bounded :
    (cfg : Config) (l : ℤ) (string : ℕ → ℕ) (cursor k : ℕ)
    → decode_bounded cfg (record { string = string; length = l }) cursor k
      ≡ record { codepoint = 0; byte_count = 0 }
    → string cursor ≡ 0
    → ¬ IsText l string cursor
unfolding decode_bounded decoded is_terminator
ends_bounded cfg (pos n) string cursor k d z t = ground arith
ends_bounded cfg (negsuc n) string cursor k d z t = t z

end_of_text :
    (l : ℤ) (string : ℕ → ℕ) (cursor : ℕ) → is_end l cursor ≡ true → ¬ IsText l string cursor
unfolding is_end
end_of_text (pos n) string cursor e t = ground arith
end_of_text (negsuc n) string cursor e t = cc

-- Where `utf8_decode` returns the null character and takes no byte, no byte of the text stands.
pub utf8_decode-ends :
    (cfg : Config) (src : Source)
    → IsBytes src.string
    → (cursor : ℕ) → utf8_decode cfg src cursor ≡ record { codepoint = 0; byte_count = 0 }
    → ¬ IsText src.length src.string cursor
unfolding utf8_decode
utf8_decode-ends cfg src bytes cursor d = elim (Bool-cases (is_end src.length cursor)) [
  | inl e ↦ end_of_text src.length src.string cursor e
  | inr e ↦
      ends_bounded cfg src.length src.string cursor _ (rw e at d)
        (utf8_decode_null cfg src bytes cursor e (ap (λ (x : Decoded). x.codepoint) d))
]
