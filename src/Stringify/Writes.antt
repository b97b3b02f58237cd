-- ===== src/Stringify/Writes.antt =====
-- The writes of `judo_stringify`, src/judo_scan.c, into the caller's buffer.
use judo.Base.{
  ℕ, zero, suc, ◌+◌, ◌≤◌, ◌<◌, ◌≡◌, refl, sym, ap, ◌∙◌, arith, true, false, some, List, [], ◌∷◌,
  ◌++◌, append_assoc, append-nil, ltb, leb, length, length-append, set-append,
}
use judo.Parser.{◌>>=◌}
use judo.Stringify.{ByteBuf, copy_bytes, encode_asserted, append_bytes, write_bytes}
use judo.Utf8.{utf8_encode}

abbrev pub drop : {A : Type 0} → ℕ → List A → List A
drop zero xs = xs
drop (suc n) [] = []
drop (suc n) (x ∷ xs) = drop n xs

-- Bytes copied behind those that are there.
copy_bytes-append :
    (bs done rest : List ℕ) (i : ℕ)
    → length done ≡ i
    → length bs ≤ length rest
    → copy_bytes i bs (done ++ rest) ≡ some ((done ++ bs) ++ drop (length bs) rest)
unfolding copy_bytes
copy_bytes-append [] done rest i e le = rw (append-nil done) refl
copy_bytes-append (b ∷ bs) done [] i e le = absurd (omega (arith, le))
copy_bytes-append (b ∷ bs) done (r ∷ rest) i e le =
    let inside : ltb i (length (done ++ (r ∷ rest))) ≡ true =
      rw (length-append done (r ∷ rest), e) (ground arith) in
    let there : length (done ++ (b ∷ [])) ≡ i + 1 = omega (arith, length-append done (b ∷ []), e) in
    rw (inside, set-append done i r b rest e)
      (ap (copy_bytes (i + 1) bs) (sym (append_assoc done (b ∷ []) rest))
        ∙ copy_bytes-append bs (done ++ (b ∷ [])) rest (i + 1) there (omega (arith, le))
        ∙ ap (λ l. some (l ++ drop (length bs) rest)) (append_assoc done (b ∷ []) bs))

pub utf8_encode-some : (c : ℕ) → 0 < length (utf8_encode c)
unfolding utf8_encode
utf8_encode-some c = ground arith

-- The buffer behind so many bytes of the text.
abbrev pub filled : List ℕ → List ℕ → ℕ → ByteBuf
filled done rest capacity = record {
  written = length done;
  length = length done;
  capacity = capacity;
  dest = some (done ++ rest);
}

asserted_bytes : (c : ℕ) → c ≤ 0x10FFFF → encode_asserted c ≡ some (utf8_encode c)
unfolding encode_asserted
asserted_bytes c small = ground arith

pub write_bytes_fits :
    (c : ℕ) (done rest : List ℕ) (capacity : ℕ)
    → length done + length rest ≡ capacity
    → length (utf8_encode c) ≤ length rest
    → c ≤ 0x10FFFF
    → write_bytes c (filled done rest capacity)
      ≡ some (filled (done ++ utf8_encode c) (drop (length (utf8_encode c)) rest) capacity)
unfolding write_bytes append_bytes
write_bytes_fits c done rest capacity e le small =
    let bytes = utf8_encode c in
    let room : leb (length done + length bytes) capacity ≡ true = ground arith in
    rw (asserted_bytes c small, ◌>>=◌, room)
      (rw (copy_bytes-append bytes done rest (length done) refl le, ◌>>=◌)
        (rw (length-append done bytes) refl))

pub write_bytes_full :
    (c : ℕ) (b : ByteBuf)
    → b.capacity < b.length + length (utf8_encode c)
    → c ≤ 0x10FFFF
    → write_bytes c b ≡ some (record b { length = b.length + length (utf8_encode c) })
unfolding write_bytes append_bytes
write_bytes_full c b lt small =
    let full : leb (b.length + length (utf8_encode c)) b.capacity ≡ false = ground arith in
    rw (asserted_bytes c small, ◌>>=◌, full) refl
