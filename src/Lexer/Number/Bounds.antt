-- ===== src/Lexer/Number/Bounds.antt =====
-- Where `scan_number` ends: every character that it passes belongs to the text.
use judo.Api.{Config}
use judo.Base.{
  ℕ, zero, suc, ◌+◌, ◌-◌, ◌≤◌, ◌<◌, ◌≡◌, ◌≢◌, inl, inr, refl, true, false, Bool, arith, Bool-cases,
  ◌==◌, if◌then◌else◌,
}
use judo.Chars.{judo_isdigit, judo_isxdigit, judo_isalpha}
use judo.Lexer.Failure.{Failure, Result, ok, err, Lexeme, TokenTag, number, bad_syntax}
use judo.Lexer.Number.{
  scan_signed, Held, settle, number_to, peek_at, skip_while, rounds, skip_digits, scan_exponent,
  scan_fraction, scan_integer, scan_number_rfc, scan_hexadecimal, scan_number_word, require_digits,
  scan_decimal, scan_digits, scan_magnitude, scan_number_json5, scan_number,
}
use judo.Utf8.{Source}
use judo.Utf8.Sound.{IsBytes}
use judo.Utf8.Text.{Spans, Spans-refl, Spans-trans, ascii_decode, is_bounded-Spans}

-- A test that only ASCII characters other than null pass.
abbrev pub IsAscii : (ℕ → Bool) → Type 0
IsAscii p = (c : ℕ) → p c ≡ true → (0 < c) × (c < 0x80)

pub judo_isdigit-IsAscii : IsAscii judo_isdigit
unfolding judo_isdigit
judo_isdigit-IsAscii c h = ground arith

pub judo_isxdigit-IsAscii : IsAscii judo_isxdigit
unfolding judo_isxdigit
judo_isxdigit-IsAscii c h = ground arith

pub judo_isalpha-IsAscii : IsAscii judo_isalpha
unfolding judo_isalpha
judo_isalpha-IsAscii c h = ground arith

-- A token of the given type that takes some characters of the text, and no more.
abbrev pub IsToken : Source → TokenTag → ℕ → Lexeme → Type 0
IsToken src type start l =
    (l.type ≡ type) × Spans src start (start + l.lexeme_length) × (0 < l.lexeme_length)

module _ (cfg : Config) (src : Source) (bytes : IsBytes src.string) where
  pub peek_at-Spans :
      (i : ℕ) → 0 < peek_at cfg src i → peek_at cfg src i < 0x80 → Spans src i (i + 1)
  peek_at-Spans i p q = (ascii_decode cfg src bytes i p q).3

  pub skip_while-Spans :
      (p : ℕ → Bool) → IsAscii p → (fuel i : ℕ) → Spans src i (skip_while cfg src p fuel i)
  unfolding skip_while
  skip_while-Spans p a zero i = Spans-refl src i
  skip_while-Spans p a (suc fuel) i = elim (Bool-cases (p (peek_at cfg src i))) [
    | inl more ↦
        rw (more, skip_while)
          (let c = a (peek_at cfg src i) more in
            Spans-trans src i (i + 1) _ (peek_at-Spans i c.0 c.1)
              (skip_while-Spans p a fuel (i + 1)))
    | inr stop ↦ rw (stop, skip_while) (Spans-refl src i)
  ]

  -- On a text of bytes, with as many rounds as there are positions up to the size limit, the loop
  -- over characters that pass an ASCII test `p` ends by its test: the one where it stops fails `p`.
  pub skip_while_stops :
      (p : ℕ → Bool)
      → IsAscii p
      → (fuel i : ℕ) → cfg.maximum_input_size < i + fuel
      → p (peek_at cfg src (skip_while cfg src p fuel i)) ≡ false
  unfolding skip_while
  skip_while_stops p a zero i h = elim (Bool-cases (p (peek_at cfg src i))) [
    | inl more ↦
        let c = a (peek_at cfg src i) more in
        absurd (omega (arith, (ascii_decode cfg src bytes i c.0 c.1).2))
    | inr stop ↦ stop
  ]
  skip_while_stops p a (suc fuel) i h = elim (Bool-cases (p (peek_at cfg src i))) [
    | inl more ↦ rw (more, skip_while) (skip_while_stops p a fuel (i + 1) (omega arith))
    | inr stop ↦ rw (stop, skip_while) stop
  ]

  pub skip_digits-Spans : (i : ℕ) → Spans src i (skip_digits cfg src i)
  unfolding skip_digits
  skip_digits-Spans i = skip_while-Spans judo_isdigit judo_isdigit-IsAscii (rounds cfg src) i

  -- One ASCII character.
  pub advance :
      (i j : ℕ) → j ≡ i + 1 → 0 < peek_at cfg src i → peek_at cfg src i < 0x80 → Spans src i j
  advance i j e p q = rw e (peek_at-Spans i p q)

  scan_exponent-Spans :
      (held : Held) (i stop : ℕ) → scan_exponent cfg src held i ≡ ok stop → Spans src i stop
  unfolding scan_exponent settle
  scan_exponent-Spans held i stop h = ground (
    arith,
    Spans-refl src i,
    advance i (i + 1) (omega arith),
    advance (i + 1) (i + 2) (omega arith),
    skip_digits-Spans (i + 1),
    skip_digits-Spans (i + 2),
    Spans-trans src i (i + 1) (i + 2),
    Spans-trans src i (i + 1) (skip_digits cfg src (i + 1)),
    Spans-trans src i (i + 2) (skip_digits cfg src (i + 2)),
  )

  skip_digits-le : (i : ℕ) → i ≤ skip_digits cfg src i
  skip_digits-le i = (skip_digits-Spans i).ordered

  scan_exponent-le : (held : Held) (i stop : ℕ) → scan_exponent cfg src held i ≡ ok stop → i ≤ stop
  scan_exponent-le held i stop h = (scan_exponent-Spans held i stop h).ordered

  -- A held failure is not lost.
  scan_exponent-err : (e : Failure) (i stop : ℕ) → scan_exponent cfg src (err e) i ≢ ok stop
  unfolding scan_exponent settle
  scan_exponent-err e i stop h = ground arith

  scan_fraction-Spans :
      (start i stop : ℕ) → scan_fraction cfg src start i ≡ ok stop → Spans src i stop
  unfolding scan_fraction
  scan_fraction-Spans start i stop h = ground (
    arith,
    advance i (i + 1) (omega arith),
    skip_digits-Spans (i + 1),
    Spans-trans src i (i + 1) (skip_digits cfg src (i + 1)),
    Spans-trans src i (skip_digits cfg src (i + 1)) stop,
    scan_exponent-Spans (ok tt) i stop,
    scan_exponent-Spans (ok tt) (skip_digits cfg src (i + 1)) stop,
    scan_exponent-Spans
        (err (bad_syntax start (skip_digits cfg src (i + 1) - start) "expected fractional part"))
        (skip_digits cfg src (i + 1)) stop,
  )

  -- A number that is read from `i` on takes one character at least.
  Takes : ℕ → ℕ → Type 0
  Takes i stop = Spans src i stop × (i < stop)

  scan_integer-Takes : (start i stop : ℕ) → scan_integer cfg src start i ≡ ok stop → Takes i stop
  unfolding scan_integer Takes
  scan_integer-Takes start i stop h =
      let digit = judo_isdigit-IsAscii (peek_at cfg src i) in
      let tail = skip_digits-Spans (i + 1) in
      ground (
        arith,
        digit,
        tail,
        advance i (i + 1) (omega arith),
        scan_fraction-Spans start (skip_digits cfg src (i + 1)) stop,
        Spans-trans src i (i + 1) (skip_digits cfg src (i + 1)),
        Spans-trans src i (skip_digits cfg src (i + 1)) stop,
      )

  scan_decimal-Takes :
      (start sign i stop : ℕ)
      → scan_decimal cfg src start sign i ≡ ok stop
      → Spans src i stop × (start < stop)
  unfolding scan_decimal require_digits
  scan_decimal-Takes start sign i stop h =
      let point = skip_digits cfg src (i + 1) in
      ground (
        arith,
        advance i (i + 1) (omega arith),
        skip_digits-Spans (i + 1),
        Spans-trans src i (i + 1) point,
        Spans-trans src i point stop,
        scan_exponent-Spans (ok tt) i stop,
        scan_exponent-Spans (ok tt) point stop,
        scan_exponent-le (ok tt) i stop,
        scan_exponent-le (ok tt) point stop,
        scan_exponent-err (bad_syntax i 1 "expected number") i stop,
        scan_exponent-err (bad_syntax point 1 "expected number") point stop,
      )

  scan_digits-Takes :
      (start sign i stop : ℕ)
      → scan_digits cfg src start sign i ≡ ok stop
      → judo_isdigit (peek_at cfg src i) ≡ true
      → Spans src i stop × (start < stop)
  unfolding scan_digits
  scan_digits-Takes start sign i stop h d =
      let tail = skip_digits cfg src (i + 1) in
      let c = judo_isdigit-IsAscii (peek_at cfg src i) d in
      ground (
        arith,
        c,
        skip_digits-Spans (i + 1),
        advance i (i + 1) (omega arith),
        scan_decimal-Takes start sign tail stop,
        Spans-trans src i (i + 1) tail,
        Spans-trans src i tail stop,
      )

  scan_hexadecimal-Takes : (i stop : ℕ) → scan_hexadecimal cfg src i ≡ ok stop → Spans src i stop
  unfolding scan_hexadecimal
  scan_hexadecimal-Takes i stop h =
      ground (arith, skip_while-Spans judo_isxdigit judo_isxdigit-IsAscii (rounds cfg src) i)

  -- A letter that starts a word is passed.
  skip_while_first :
      (p : ℕ → Bool) (fuel i : ℕ)
      → IsAscii p
      → p (peek_at cfg src i) ≡ true
      → i < skip_while cfg src p (suc fuel) i
  unfolding skip_while
  skip_while_first p fuel i a h =
      rw (h, skip_while) (omega (arith, (skip_while-Spans p a fuel (i + 1)).ordered))

  scan_number_word-Takes :
      (i stop : ℕ)
      → scan_number_word cfg src i ≡ ok stop
      → judo_isalpha (peek_at cfg src i) ≡ true
      → Spans src i stop × (i < stop)
  unfolding scan_number_word rounds
  scan_number_word-Takes i stop h a = ground (
    arith,
    skip_while-Spans judo_isalpha judo_isalpha-IsAscii (rounds cfg src) i,
    skip_while_first judo_isalpha cfg.maximum_input_size i judo_isalpha-IsAscii a,
  )

  scan_magnitude-Takes :
      (start sign i stop : ℕ)
      → scan_magnitude cfg src start sign i ≡ ok stop
      → start ≤ i
      → Spans src i stop × (start < stop)
  unfolding scan_magnitude
  scan_magnitude-Takes start sign i stop h s = ground (
    arith,
    scan_digits-Takes start sign i stop,
    scan_decimal-Takes start sign i stop,
    scan_number_word-Takes i stop,
    scan_hexadecimal-Takes (i + 2) stop,
    (scan_hexadecimal-le (i + 2) stop),
    is_bounded-Spans cfg src bytes i 2,
    Spans-trans src i (i + 2) stop,
  )
    where
      scan_hexadecimal-le : (i stop : ℕ) → scan_hexadecimal cfg src i ≡ ok stop → i ≤ stop
      scan_hexadecimal-le i stop h = (scan_hexadecimal-Takes i stop h).ordered

  number_to-IsToken :
      (start : ℕ) (r : Result ℕ) (l : Lexeme)
      → number_to start r ≡ ok l
      → ((stop : ℕ) → r ≡ ok stop → Spans src start stop × (start < stop))
      → IsToken src number start l
  unfolding number_to
  number_to-IsToken start (ok stop) l h takes =
      let (s, p) = takes stop refl in
      let e : start + (stop - start) ≡ stop = omega arith in ground (arith, rw (← e) at s)
  number_to-IsToken start (err e) l h takes = cc

  scan_integer-start :
      (start i stop : ℕ)
      → Spans src start i
      → scan_integer cfg src start i ≡ ok stop
      → Spans src start stop × (start < stop)
  unfolding Takes
  scan_integer-start start i stop s h =
      let (t, p) = scan_integer-Takes start i stop h in
      (Spans-trans src start i stop s t, omega (arith, s.ordered))

  scan_magnitude-start :
      (start sign i stop : ℕ)
      → Spans src start i
      → scan_magnitude cfg src start sign i ≡ ok stop
      → Spans src start stop × (start < stop)
  scan_magnitude-start start sign i stop s h =
      let (t, p) = scan_magnitude-Takes start sign i stop h s.ordered in
      (Spans-trans src start i stop s t, p)

  -- On a text of bytes, the token that `scan_number` reads at an ASCII character other than null is
  -- a number, has some length, and lies in the text.
  pub scan_number-IsToken :
      (start : ℕ) (l : Lexeme)
      → 0 < peek_at cfg src start
      → peek_at cfg src start < 0x80
      → scan_number cfg src start ≡ ok l
      → IsToken src number start l
  scan_number-IsToken start l p q h = elim (Bool-cases cfg.json5) [
    | inl five ↦
        number_to-IsToken start (scan_signed cfg src start) l
          (unfold scan_number scan_number_json5 in ground arith)
          λ stop e.
            unfold scan_signed in
            ground (
              arith,
              advance start (start + 1) (omega arith) p q,
              Spans-refl src start,
              scan_magnitude-start start 1 (start + 1) stop,
              scan_magnitude-start start 0 start stop,
            )
    | inr rfc ↦
        number_to-IsToken start
          (scan_integer cfg src start (if src.string start == b'-' then start + 1 else start)) l
          (unfold scan_number scan_number_rfc in ground arith)
          λ stop e. ground (
            arith,
            advance start (start + 1) (omega arith) p q,
            Spans-refl src start,
            scan_integer-start start (start + 1) stop,
            scan_integer-start start start stop,
          )
  ]
