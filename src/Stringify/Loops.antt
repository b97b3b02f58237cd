-- ===== src/Stringify/Loops.antt =====
-- The loops of `judo_stringify` in src/judo_scan.c, on characters that stand for some bytes.
use judo.Api.{success}
use judo.Base.{
  ℕ, zero, suc, ◌+◌, ◌-◌, ◌≤◌, ◌<◌, ◌≡◌, refl, ◌∙◌, arith, Bool-cases, inl, inr, true, false, some,
  List, [], ◌∷◌, ◌++◌, append_assoc, append-nil, ltb, leb, length, length-append,
}
use judo.Parser.{◌>>=◌}
use judo.Stringify.{ByteBuf, Piece, writes, skips, write_bytes, stringify_loop}
use judo.Stringify.Writes.{drop, filled, utf8_encode-some, write_bytes_fits, write_bytes_full}
use judo.Utf8.{utf8_encode}

-- The characters from an index up to `stop` stand for these bytes, in so many rounds.
pub data Stands (piece : ℕ → Piece) (stop : ℕ) : ℕ → ℕ → List ℕ → Type 0 where
  ended : {fuel index : ℕ} → ltb index stop ≡ false → Stands piece stop (suc fuel) index []
  written :
      {fuel index c next : ℕ} {bs : List ℕ}
      → ltb index stop ≡ true
      → piece index ≡ writes c next
      → c ≤ 0x10FFFF
      → Stands piece stop fuel next bs
      → Stands piece stop (suc fuel) index (utf8_encode c ++ bs)
  skipped :
      {fuel index next : ℕ} {bs : List ℕ}
      → ltb index stop ≡ true
      → piece index ≡ skips next
      → Stands piece stop fuel next bs
      → Stands piece stop (suc fuel) index bs

drop_add : (m n : ℕ) (xs : List ℕ) → drop n (drop m xs) ≡ drop (m + n) xs
drop_add zero n xs = let e : 0 + n ≡ n = omega arith in rw e refl
drop_add (suc m) zero [] = let e : suc m + 0 ≡ suc m = omega arith in rw e refl
drop_add (suc m) (suc n) [] = let e : suc m + suc n ≡ suc (m + suc n) = omega arith in rw e refl
drop_add (suc m) n (x ∷ xs) =
    let e : suc m + n ≡ suc (m + n) = omega arith in rw e (drop_add m n xs)

length-drop : (n : ℕ) (xs : List ℕ) → n ≤ length xs → length (drop n xs) ≡ length xs - n
length-drop zero xs h = omega arith
length-drop (suc n) [] h = absurd (omega (arith, h))
length-drop (suc n) (x ∷ xs) h = omega (arith, length-drop n xs (omega (arith, h)))

module _ (piece : ℕ → Piece) (stop : ℕ) where
  round_writes :
      (fuel index c next : ℕ) (b b' : ByteBuf)
      → ltb index stop ≡ true
      → piece index ≡ writes c next
      → write_bytes c b ≡ some b'
      → stringify_loop piece stop (suc fuel) index b ≡ stringify_loop piece stop fuel next b'
  unfolding stringify_loop
  round_writes fuel index c next b b' lt p w = rw (stringify_loop, lt, p) (rw (w, ◌>>=◌) refl)

  round_skips :
      (fuel index next : ℕ) (b : ByteBuf)
      → ltb index stop ≡ true
      → piece index ≡ skips next
      → stringify_loop piece stop (suc fuel) index b ≡ stringify_loop piece stop fuel next b
  unfolding stringify_loop
  round_skips fuel index next b lt p = rw (stringify_loop, lt, p) refl

  round_ends :
      (fuel index : ℕ) (b : ByteBuf)
      → ltb index stop ≡ false
      → stringify_loop piece stop (suc fuel) index b ≡ some (success, b)
  unfolding stringify_loop
  round_ends fuel index b ge = rw (stringify_loop, ge) refl

  -- Nothing more fits.
  pub full_loop :
      {fuel index : ℕ} {bs : List ℕ} (b : ByteBuf)
      → Stands piece stop fuel index bs
      → b.capacity ≤ b.length
      → stringify_loop piece stop fuel index b
        ≡ some (success, record b { length = b.length + length bs })
  full_loop b (ended {fuel} {index} ge) full =
      let e : b.length + 0 ≡ b.length = omega arith in rw e (round_ends fuel index b ge)
  full_loop b (written {fuel} {index} {c} {next} {bs} lt p a s) full =
      let n = length (utf8_encode c) in
      let e : b.length + length (utf8_encode c ++ bs) ≡ b.length + n + length bs =
        omega (arith, length-append (utf8_encode c) bs) in
      let w = write_bytes_full c b (omega (arith, full, utf8_encode-some c)) a in
      rw e (
        round_writes fuel index c next b _ lt p w
        ∙ full_loop (record b { length = b.length + n }) s (omega (arith, full)))
  full_loop b (skipped {fuel} {index} {next} lt p s) full =
      round_skips fuel index next b lt p ∙ full_loop b s full

  -- Everything fits.
  pub fit_loop :
      {fuel index : ℕ} {bs : List ℕ} (done rest : List ℕ) (capacity : ℕ)
      → Stands piece stop fuel index bs
      → length done + length rest ≡ capacity
      → length bs ≤ length rest
      → stringify_loop piece stop fuel index (filled done rest capacity)
        ≡ some (success, filled (done ++ bs) (drop (length bs) rest) capacity)
  fit_loop done rest capacity (ended {fuel} {index} ge) e le =
      rw (append-nil done) (round_ends fuel index (filled done rest capacity) ge)
  fit_loop done rest capacity (written {fuel} {index} {c} {next} {bs} lt p a s) e le =
      let bytes = utf8_encode c in
      let n = length bytes in
      let both = length-append bytes bs in
      let small : n ≤ length rest = omega (arith, both, le) in
      let left = length-drop n rest small in
      round_writes fuel index c next (filled done rest capacity)
        (filled (done ++ bytes) (drop n rest) capacity) lt p
        (write_bytes_fits c done rest capacity e small a)
      ∙ fit_loop (done ++ bytes) (drop n rest) capacity s
          (omega (arith, length-append done bytes, left, e, small))
          (omega (arith, left, both, le, small))
      ∙ rw (append_assoc done bytes bs, drop_add n (length bs) rest, both) refl
  fit_loop done rest capacity (skipped {fuel} {index} {next} lt p s) e le =
      round_skips fuel index next (filled done rest capacity) lt p
      ∙ fit_loop done rest capacity s e le

  -- Not everything fits.
  pub over_loop :
      {fuel index : ℕ} {bs : List ℕ} (done rest : List ℕ) (capacity : ℕ)
      → Stands piece stop fuel index bs
      → length done + length rest ≡ capacity
      → length rest < length bs
      → (b : ByteBuf) × (stringify_loop piece stop fuel index (filled done rest capacity)
          ≡ some (success, b))
        × (b.capacity ≡ capacity)
        × (capacity < b.length)
        × (b.written ≤ capacity)
  over_loop done rest capacity (ended {fuel} {index} ge) e lt = absurd (omega (arith, lt))
  over_loop done rest capacity (skipped {fuel} {index} {next} more p s) e lt =
      let (b, h, k, l, m) = over_loop done rest capacity s e lt in
      (b, round_skips fuel index next (filled done rest capacity) more p ∙ h, k, l, m)
  over_loop done rest capacity (written {fuel} {index} {c} {next} {bs} more p a s) e lt =
      let bytes = utf8_encode c in
      let n = length bytes in
      let both = length-append bytes bs in
      let here = filled done rest capacity in
      elim (Bool-cases (leb n (length rest))) [
        | inl fits ↦
            let small : n ≤ length rest = ground arith in
            let left = length-drop n rest small in
            let (b, h, k, l, m) =
              over_loop (done ++ bytes) (drop n rest) capacity s
                (omega (arith, length-append done bytes, left, e, small))
                (omega (arith, left, both, lt, small)) in
            (
              b,
              round_writes fuel index c next here (filled (done ++ bytes) (drop n rest) capacity)
                    more p (write_bytes_fits c done rest capacity e small a)
                  ∙ h,
              k,
              l,
              m,
            )
        | inr full ↦
            let large : length rest < n = ground arith in
            (
              _,
              round_writes fuel index c next here _ more p
                    (write_bytes_full c here (omega (arith, large, e)) a)
                  ∙ full_loop (record here { length = length done + n }) s
                      (omega (arith, large, e)),
              refl,
              omega (arith, large, e),
              omega (arith, e),
            )
      ]
