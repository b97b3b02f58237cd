-- ===== src/Program/Stdin.antt =====
-- src/judo_stdin.c: `judo_readstdin`. The results of `read` are given.
use judo.Base.{
  ℕ, ◌+◌, ◌≤◌, ◌<◌, ◌≡◌, refl, sym, ap, append_assoc, append-nil, arith, Bool, true, false,
  Bool-cases, ◌⊎◌, inl, inr, Option, none, some, List, [], ◌∷◌, ◌++◌, length, length-append, leb,
  if◌then◌else◌,
}

-- What `read` returns, with the bytes that it stores.
pub data ReadResult : Type 0 where
  chunk : List ℕ → ReadResult
  failed : ReadResult

-- The bytes that are held, and the size of the allocation, null if there is none.
pub record DynamicBuffer : Type 0 where
  pub bytes : List ℕ
  pub capacity : Option ℕ

pub data Input : Type 0 where
  input : List ℕ → Input
  null_pointer : Input
  overrun : Input

pub data Stored : Type 0 where
  stored : DynamicBuffer → Stored
  refused : Stored
  out_of_bounds : Stored

abbrev pub size_of : Option ℕ → ℕ
size_of none = 0
size_of (some n) = n

-- memcpy(&dynbuf[dynbuf_length], buffer, buffer_length)
unfoldable pub copy_in : List ℕ → DynamicBuffer → Stored
copy_in read buffer =
    if leb (length buffer.bytes + length read) (size_of buffer.capacity)
    then stored (record buffer { bytes = buffer.bytes ++ read })
    else out_of_bounds

-- `available n` says if `realloc` hands out so many bytes.
unfoldable pub store : (ℕ → Bool) → List ℕ → DynamicBuffer → Stored
store available read buffer =
    let new_capacity = length buffer.bytes + length read in
    if leb 10485760 new_capacity
    then refused
    else if leb (size_of buffer.capacity) new_capacity
    then (if available new_capacity
        then copy_in read (record buffer { capacity = some new_capacity })
        else refused)
    else copy_in read buffer

abbrev pub finish_reading : DynamicBuffer → Input
finish_reading buffer = elim buffer.capacity [ none ↦ null_pointer | some n ↦ input buffer.bytes ]

-- Behind the results that are given, `read` returns 0.
unfoldable pub read_rest : (ℕ → Bool) → List ReadResult → DynamicBuffer → Input
read_rest available [] buffer = finish_reading buffer
read_rest available (failed ∷ reads) buffer = null_pointer
read_rest available (chunk [] ∷ reads) buffer = finish_reading buffer
read_rest available (chunk (b ∷ bs) ∷ reads) buffer = elim (store available (b ∷ bs) buffer) [
  | stored buffer' ↦ read_rest available reads buffer'
  | refused ↦ null_pointer
  | out_of_bounds ↦ overrun
]

unfoldable pub judo_readstdin : (ℕ → Bool) → List ReadResult → Input
judo_readstdin available reads = read_rest available reads (record { bytes = []; capacity = none })

abbrev pub behind : List ℕ → Option (List ℕ) → Option (List ℕ)
behind bytes none = none
behind bytes (some more) = some (bytes ++ more)

-- All bytes up to the end of the input; none where a read fails before it.
unfoldable pub all_bytes : List ReadResult → Option (List ℕ)
all_bytes [] = some []
all_bytes (failed ∷ reads) = none
all_bytes (chunk [] ∷ reads) = some []
all_bytes (chunk (b ∷ bs) ∷ reads) = behind (b ∷ bs) (all_bytes reads)

-- The allocation holds the bytes, and there is one if there are any.
pub record Holds (buffer : DynamicBuffer) : Type 0 where
  pub fits : length buffer.bytes ≤ size_of buffer.capacity
  pub small : size_of buffer.capacity < 10485760

copied :
    (read bytes : List ℕ) (n : ℕ)
    → length bytes + length read ≤ n
    → copy_in read (record { bytes = bytes; capacity = some n })
      ≡ stored (record { bytes = bytes ++ read; capacity = some n })
unfolding copy_in
copied read bytes n le =
    let fits : leb (length bytes + length read) n ≡ true = ground arith in rw fits refl

-- The bytes are stored, and the allocation holds them, or the buffer is not enlarged.
abbrev Stores : (available : ℕ → Bool) (read bytes : List ℕ) (capacity : Option ℕ) → Type 0
Stores available read bytes capacity =
    (store available read (record { bytes = bytes; capacity = capacity }) ≡ refused)
    ⊎ ((n : ℕ) × (store available read (record { bytes = bytes; capacity = capacity })
          ≡ stored (record { bytes = bytes ++ read; capacity = some n }))
        × Holds (record { bytes = bytes ++ read; capacity = some n }))

store-roomy :
    (available : ℕ → Bool) (read bytes : List ℕ) (capacity : Option ℕ)
    → leb 10485760 (length bytes + length read) ≡ false
    → leb (size_of capacity) (length bytes + length read) ≡ false
    → size_of capacity < 10485760
    → Stores available read bytes capacity
unfolding store
store-roomy available read bytes none small room bounded =
    let less : length bytes + length read < 0 = ground arith in absurd (omega (arith, less))
store-roomy available read bytes (some n) small room bounded = inr (
  n,
  rw (small, room, copied read bytes n (ground arith)) refl,
  record { fits = rw (length-append bytes read) (ground arith); small = bounded },
)

store-Stores :
    (available : ℕ → Bool) (read bytes : List ℕ) (capacity : Option ℕ)
    → size_of capacity < 10485760
    → Stores available read bytes capacity
unfolding store
store-Stores available read bytes capacity bounded =
    let new = length bytes + length read in
    elim (Bool-cases (leb 10485760 new)) [
      | inl large ↦ inl (rw large refl)
      | inr small ↦ elim (Bool-cases (leb (size_of capacity) new)) [
        | inl grows ↦ elim (Bool-cases (available new)) [
          | inl given ↦ inr (
            new,
            rw (small, grows, given, copied read bytes new (omega arith)) refl,
            record { fits = rw (length-append bytes read) (omega arith); small = ground arith },
          )
          | inr lacking ↦ inl (rw (small, grows, lacking) refl)
        ]
        | inr room ↦ store-roomy available read bytes capacity small room bounded
      ]
    ]

-- What is returned for an input of these bytes, or one that cannot be read to its end.
abbrev pub Reads : Input → Option (List ℕ) → Type 0
Reads o none = o ≡ null_pointer
Reads o (some bytes) = (o ≡ null_pointer) ⊎ ((o ≡ input bytes) × (length bytes < 10485760))

null-Reads : (o : Input) (bytes : Option (List ℕ)) → o ≡ null_pointer → Reads o bytes
null-Reads o none e = e
null-Reads o (some bytes) e = inl e

behind_append :
    (xs ys : List ℕ) (more : Option (List ℕ)) → behind (xs ++ ys) more ≡ behind xs (behind ys more)
behind_append xs ys none = refl
behind_append xs ys (some more) = ap some (append_assoc xs ys more)

-- The end of the input.
finished-Reads :
    (bytes : List ℕ) (capacity : Option ℕ)
    → Holds (record { bytes = bytes; capacity = capacity })
    → Reads (finish_reading (record { bytes = bytes; capacity = capacity })) (some (bytes ++ []))
finished-Reads bytes none h = inl refl
finished-Reads bytes (some n) h =
    inr (ap input (sym (append-nil bytes)), rw (append-nil bytes) (omega (arith, h.fits, h.small)))

no_bytes : (more : Option (List ℕ)) → behind [] more ≡ more
no_bytes none = refl
no_bytes (some more) = refl

module _ (available : ℕ → Bool) where
  read_rest-Reads :
      (reads : List ReadResult) (bytes : List ℕ) (capacity : Option ℕ)
      → Holds (record { bytes = bytes; capacity = capacity })
      → Reads
          (read_rest available reads (record { bytes = bytes; capacity = capacity }))
          (behind bytes (all_bytes reads))
  unfolding read_rest all_bytes
  read_rest-Reads [] bytes capacity h = finished-Reads bytes capacity h
  read_rest-Reads (failed ∷ reads) bytes capacity h = refl
  read_rest-Reads (chunk [] ∷ reads) bytes capacity h = finished-Reads bytes capacity h
  read_rest-Reads (chunk (b ∷ bs) ∷ reads) bytes capacity h =
      elim (store-Stores available (b ∷ bs) bytes capacity h.small) [
        | inl e ↦
            null-Reads _ (behind bytes (behind (b ∷ bs) (all_bytes reads))) (rw (e, read_rest) refl)
        | inr s ↦
            rw (s.1, read_rest, ← behind_append bytes (b ∷ bs) (all_bytes reads))
              (read_rest-Reads reads (bytes ++ (b ∷ bs)) (some s.0) s.2)
      ]

  -- Nothing is copied behind the end of the allocation. Where a read fails before the end of the
  -- input, the function returns null. Otherwise it returns null or all bytes up to the end of the
  -- input, which are fewer than 10 megabytes then.
  pub judo_readstdin-Reads :
      (reads : List ReadResult) → Reads (judo_readstdin available reads) (all_bytes reads)
  unfolding judo_readstdin
  judo_readstdin-Reads reads =
      let e : behind [] (all_bytes reads) ≡ all_bytes reads = no_bytes (all_bytes reads) in
      rw e at (read_rest-Reads reads [] none (record { fits = omega arith; small = omega arith }))
