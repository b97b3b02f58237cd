-- ===== src/Lexer/Quoted/Bounds.antt =====
-- Where `is_newline` and `scan_string` end: every byte that they pass belongs to the text.
use judo.Api.{Config}
use judo.Base.{
  ℕ, zero, suc, ◌+◌, ◌-◌, ◌≤◌, ◌<◌, ◌≡◌, inl, inr, true, arith, Bool-cases, length, Option, none,
  some,
}
use judo.Lexer.Failure.{Result, ok, err, Lexeme, string}
use judo.Lexer.Number.{peek_at, rounds}
use judo.Lexer.Number.Bounds.{IsToken}
use judo.Lexer.Quoted.{
  parsed, Round, continue, closed, failed, is_newline, hex_digits, low_digits, scan_low_surrogate,
  scan_unicode, scan_latin, scan_escaped, scan_escape, scan_plain, scan_round, scan_characters,
  string_to, scan_string,
}
use judo.Utf8.{Source, is_bounded}
use judo.Utf8.Sound.{IsBytes}
use judo.Utf8.Text.{
  Spans, Spans-refl, Spans-trans, ascii_decode, is_bounded-Spans, utf8_decode-Spans,
}

pub Spans-prefix : (src : Source) (a b c : ℕ) → Spans src a c → a ≤ b → b ≤ c → Spans src a b
Spans-prefix src a b c s p q = record { ordered = p; text = λ i h k. s.text i h (omega arith) }

module _ (cfg : Config) (src : Source) (bytes : IsBytes src.string) where
  pub is_newline-Spans : (i : ℕ) → Spans src i (i + is_newline cfg src i)
  unfolding is_newline
  is_newline-Spans i = ground (
    arith,
    is_bounded-Spans cfg src bytes i 2,
    utf8_decode-Spans cfg src bytes i,
    Spans-refl src i,
    zero_more,
  )
    where
      zero_more : i + 0 ≡ i
      zero_more = omega arith

  hex_digits-Spans : (n i : ℕ) → Spans src i (i + length (hex_digits cfg src n i))
  unfolding hex_digits
  hex_digits-Spans zero i = let e : i + 0 ≡ i = omega arith in rw e (Spans-refl src i)
  hex_digits-Spans (suc n) i =
      let e : i + 0 ≡ i = omega arith in
      let tail = length (hex_digits cfg src n (i + 1)) in
      let e' : i + suc tail ≡ i + 1 + tail = omega arith in
      ground (
        arith,
        e,
        e',
        Spans-refl src i,
        is_bounded-Spans cfg src bytes i 1,
        hex_digits-Spans n (i + 1),
        Spans-trans src i (i + 1) (i + 1 + tail),
      )

  low_digits-le : (n i : ℕ) → length (low_digits cfg src n i) ≤ n
  unfolding low_digits
  low_digits-le zero i = omega arith
  low_digits-le (suc n) i = ground (arith, low_digits-le n (i + 1))

  -- Where a round goes on, it has passed bytes of the text only.
  abbrev pub Goes : ℕ → Round → Type 0
  Goes i (continue j) = Spans src i j
  Goes i (closed j) = Spans src i j × (i < j)
  Goes i (failed e) = Unit

  Goes-trans : (i j : ℕ) (r : Round) → Spans src i j → Goes j r → Goes i r
  Goes-trans i j (continue k) s t = Spans-trans src i j k s t
  Goes-trans i j (closed k) s (t, p) = (Spans-trans src i j k s t, omega (arith, s.ordered))
  Goes-trans i j (failed e) s t = tt

  scan_low_surrogate-Goes : (start i high : ℕ) → Goes i (scan_low_surrogate cfg src start i high)
  unfolding scan_low_surrogate
  scan_low_surrogate-Goes start i high =
      let n = length (low_digits cfg src 4 (i + 2)) in
      ground (
        arith,
        low_digits-le 4 (i + 2),
        is_bounded-Spans cfg src bytes i 6,
        Spans-prefix src i (i + 2 + n) (i + 6),
      )

  scan_unicode-Goes : (start i : ℕ) → Goes i (scan_unicode cfg src start i)
  unfolding scan_unicode
  scan_unicode-Goes start i =
      let digits = hex_digits cfg src 4 i in
      let stop = i + length digits in
      let high = parsed digits in
      ground (
        arith,
        hex_digits-Spans 4 i,
        scan_low_surrogate-Goes start stop high,
        Goes-trans i stop (scan_low_surrogate cfg src start stop high),
      )

  scan_latin-Goes : (start i : ℕ) → Goes i (scan_latin cfg src start i)
  unfolding scan_latin
  scan_latin-Goes start i = ground (arith, hex_digits-Spans 2 i)

  scan_escaped-Goes :
      (start i : ℕ) → is_bounded cfg src i 1 ≡ true → Goes i (scan_escaped cfg src start i)
  unfolding scan_escaped
  scan_escaped-Goes start i h = ground (
    arith,
    is_bounded-Spans cfg src bytes i 1 h,
    scan_latin-Goes start (i + 1),
    scan_unicode-Goes start (i + 1),
    Goes-trans i (i + 1) (scan_latin cfg src start (i + 1)),
    Goes-trans i (i + 1) (scan_unicode cfg src start (i + 1)),
  )

  pub scan_escape-Goes : (start i : ℕ) → Goes i (scan_escape cfg src start i)
  unfolding scan_escape
  scan_escape-Goes start i =
      ground (arith, Spans-refl src i, is_newline-Spans i, scan_escaped-Goes start i)

  scan_plain-Goes : (i : ℕ) → Goes i (scan_plain cfg src i)
  unfolding scan_plain
  scan_plain-Goes i = ground (arith, utf8_decode-Spans cfg src bytes i)

  scan_round-Goes :
      (quote_char i : ℕ) → is_bounded cfg src i 1 ≡ true → Goes i (scan_round cfg src quote_char i)
  unfolding scan_round
  scan_round-Goes quote_char i h = ground (
    arith,
    is_bounded-Spans cfg src bytes i 1 h,
    scan_plain-Goes i,
    scan_escape-Goes i (i + 1),
    Goes-trans i (i + 1) (scan_escape cfg src i (i + 1)),
  )

  Closes : ℕ → Result (Option ℕ) → Type 0
  Closes i (ok (some stop)) = Spans src i stop × (i < stop)
  Closes i (ok none) = Unit
  Closes i (err e) = Unit

  Closes-trans : (i j : ℕ) (r : Result (Option ℕ)) → Spans src i j → Closes j r → Closes i r
  unfolding Closes
  Closes-trans i j (ok (some k)) s (t, p) = (Spans-trans src i j k s t, omega (arith, s.ordered))
  Closes-trans i j (ok none) s t = tt
  Closes-trans i j (err e) s t = tt

  scan_characters-Closes :
      (quote_char fuel i : ℕ) → Closes i (scan_characters cfg src quote_char fuel i)
  unfolding scan_characters Closes
  scan_characters-Closes quote_char zero i = tt
  scan_characters-Closes quote_char (suc fuel) i = elim (Bool-cases (is_bounded cfg src i 1)) [
    | inl more ↦
        rw (more, scan_characters)
          (by_round (scan_round cfg src quote_char i) (scan_round-Goes quote_char i more)
            (λ j. scan_characters-Closes quote_char fuel j))
    | inr stop ↦ rw (stop, scan_characters) tt
  ]
    where
      by_round :
          (r : Round)
          → Goes i r
          → ((j : ℕ) → Closes j (scan_characters cfg src quote_char fuel j))
          → Closes i (elim r [
            | continue next ↦ scan_characters cfg src quote_char fuel next
            | closed stop ↦ ok (some stop)
            | failed e ↦ err e
          ])
      by_round (continue j) g ih = Closes-trans i j _ g (ih j)
      by_round (closed j) g ih = g
      by_round (failed e) g ih = tt

  string_to-IsToken :
      (start : ℕ) (r : Result (Option ℕ)) (l : Lexeme)
      → Spans src start (start + 1)
      → Closes (start + 1) r
      → string_to cfg src start r ≡ ok l
      → IsToken src string start l
  unfolding string_to Closes
  string_to-IsToken start (ok (some stop)) l a (s, p) h =
      let e : start + (stop - start) ≡ stop = omega arith in
      ground (arith, rw (← e) at (Spans-trans src start (start + 1) stop a s))
  string_to-IsToken start (ok none) l a c h = cc
  string_to-IsToken start (err e) l a c h = cc

  -- On a text of bytes, the token that `scan_string` reads at an ASCII character other than null is
  -- a string, has some length, and lies in the text.
  pub scan_string-IsToken :
      (start : ℕ) (l : Lexeme)
      → 0 < peek_at cfg src start
      → peek_at cfg src start < 0x80
      → scan_string cfg src start ≡ ok l
      → IsToken src string start l
  unfolding scan_string
  scan_string-IsToken start l p q h =
      string_to-IsToken start _ l (ascii_decode cfg src bytes start p q).3
        (scan_characters-Closes (src.string start) (rounds cfg src) (start + 1)) h
