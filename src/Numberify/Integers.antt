-- ===== src/Numberify/Integers.antt =====
-- `judo_numberify` of src/judo_scan.c on integers.
use judo.Api.{Config, success, out_of_range}
use judo.Base.{
  ℕ, zero, suc, ◌+◌, ◌-◌, ◌<◌, ◌≡◌, ◌⊎◌, inl, inr, refl, sym, ap, ◌∙◌, arith, true, false, ◌||◌,
  some, ◌==◌, if◌then◌else◌,
}
use judo.Chars.{judo_isdigit}
use judo.Numberify.{
  Floats, Digits, read_digits, read_fraction, finish_exponent, finish_number, scale, atof_from,
  json_atof, convert, judo_numberify,
}
use judo.Parser.{◌>>=◌}

module _ (string : ℕ → ℕ) {F : Type 0} (floats : Floats F) where
  -- The value of so many digits from `start` on, the last of which counts once.
  unfoldable pub whole_number : ℕ → ℕ → F
  whole_number start zero = floats.of_int 0
  whole_number start (suc n) =
      floats.add (floats.mul (whole_number start n) (floats.of_int 10))
        (floats.of_int (string (start + n) - 48))

  -- The digits were read, and the last character is one, or none was read.
  read_digits-whole_number :
      (left start n last count : ℕ)
      → ((i : ℕ) → i < n + left → judo_isdigit (string (start + i)) ≡ true)
      → (c : ℕ) × (read_digits string floats left (start + n) last (whole_number start n) count
          ≡ record {
            value = whole_number start (n + left);
            last = c;
            index = start + n + left;
            count = count + left;
          })
        × ((c ≡ last) ⊎ (judo_isdigit c ≡ true))
  unfolding read_digits whole_number
  read_digits-whole_number zero start n last count h =
      let e : n + 0 ≡ n = omega arith in
      let e' : start + n + 0 ≡ start + n = omega arith in
      let e'' : count + 0 ≡ count = omega arith in (last, rw (e, e', e'') refl, inl refl)
  read_digits-whole_number (suc left) start n last count h =
      let more : n + suc left ≡ suc n + left = omega arith in
      let here : start + n + 1 ≡ start + suc n = omega arith in
      let there : start + suc n + left ≡ start + n + suc left = omega arith in
      let counted : count + 1 + left ≡ count + suc left = omega arith in
      let digit = h n (omega arith) in
      let (c, e, k) =
        read_digits-whole_number left start (suc n) (string (start + n)) (count + 1)
          (rw (← more) h) in
      (
        c,
        rw (digit, here, more, ← there, ← counted) e,
        elim k [ inl same ↦ inr (rw same digit) | inr is ↦ inr is ],
      )

  -- No fraction and no exponent follows a digit, or the begin of the number.
  plain_character :
      (c : ℕ)
      → (c ≡ 0) ⊎ (judo_isdigit c ≡ true)
      → ((c == b'.') ≡ false) × ((c == b'e' || c == b'E') ≡ false)
  unfolding judo_isdigit
  plain_character c (inl e) = (ground arith, ground arith)
  plain_character c (inr h) = (ground arith, ground arith)

  finish-integer :
      (length : ℕ) (d : Digits F) (sign : F)
      → (d.last ≡ 0) ⊎ (judo_isdigit d.last ≡ true)
      → finish_exponent string floats length (read_fraction string floats length d) sign
        ≡ some (finish_number string floats d.value sign)
  unfolding finish_exponent read_fraction scale
  finish-integer length d sign h =
      let (no_fraction, no_exponent) = plain_character d.last h in
      rw (no_fraction, no_exponent, ◌>>=◌) refl

  read_digits_all :
      (left start : ℕ)
      → ((i : ℕ) → i < left → judo_isdigit (string (start + i)) ≡ true)
      → (c : ℕ) × (read_digits string floats left start 0 (floats.of_int 0) 0 ≡ record {
        value = whole_number start left;
        last = c;
        index = start + left;
        count = left;
      })
        × ((c ≡ 0) ⊎ (judo_isdigit c ≡ true))
  unfolding whole_number
  read_digits_all left start h =
      let e : start + 0 ≡ start = omega arith in
      let e' : 0 + left ≡ left = omega arith in
      let (c, r, k) = read_digits-whole_number left start 0 0 0 (rw e' h) in (c, rw (e, e') at r, k)

  atof_from-whole_number :
      (length start : ℕ) (sign : F)
      → ((i : ℕ) → i < length - start → judo_isdigit (string (start + i)) ≡ true)
      → atof_from string floats length start sign
        ≡ some (finish_number string floats (whole_number start (length - start)) sign)
  unfolding atof_from
  atof_from-whole_number length start sign h =
      let (c, r, k) = read_digits_all (length - start) start h in
      rw r (finish-integer length _ sign k)

  same_start :
      (length start start' : ℕ) (sign sign' : F)
      → start ≡ start'
      → sign ≡ sign'
      → atof_from string floats length start' sign' ≡ atof_from string floats length start sign
  same_start length start start' sign sign' e g =
      ap (λ i. atof_from string floats length i sign') (sym e)
      ∙ ap (λ x. atof_from string floats length start x) (sym g)

  -- In a build for JSON, a lexeme of digits behind a minus or none is converted to the number that its
  -- digits stand for with the operations of the floating-point type, times minus one behind a minus;
  -- the code says if the number without its sign is infinite.
  pub judo_numberify-whole_number :
      (cfg : Config) (length start : ℕ) (sign : F)
      → cfg.json5 ≡ false
      → ((string 0 ≡ b'-') × (start ≡ 1) × (sign ≡ floats.minus_one))
        ⊎ ((judo_isdigit (string 0) ≡ true) × (start ≡ 0) × (sign ≡ floats.of_int 1))
      → ((i : ℕ) → i < length - start → judo_isdigit (string (start + i)) ≡ true)
      → judo_numberify string floats cfg length
        ≡ some (record {
          result =
              if floats.is_infinity (whole_number start (length - start))
              then out_of_range
              else success;
          number = floats.mul (whole_number start (length - start)) sign;
        })
  unfolding judo_numberify convert json_atof finish_number
  judo_numberify-whole_number cfg length start sign json (inl (minus, s, g)) h =
      let is_minus : (string 0 == b'-') ≡ true = ground arith in
      let r = atof_from-whole_number length start sign h in
      rw (is_minus, json) (same_start length start 1 sign floats.minus_one s g ∙ r)
  judo_numberify-whole_number cfg length start sign json (inr (digit, s, g)) h =
      let no_minus : (string 0 == b'-') ≡ false = no_sign (string 0) digit in
      let r = atof_from-whole_number length start sign h in
      rw (no_minus, json) (same_start length start 0 sign (floats.of_int 1) s g ∙ r)
    where
      no_sign : (c : ℕ) → judo_isdigit c ≡ true → (c == b'-') ≡ false
      no_sign c h = unfold judo_isdigit in ground arith
