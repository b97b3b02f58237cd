-- ===== src/Lexer/Word/Bounds.antt =====
-- Where keywords and identifiers end: every character that they pass belongs to the text.
use judo.Api.{Config}
use judo.Base.{
  ℕ, zero, suc, ◌+◌, ◌-◌, ◌<◌, ◌≡◌, ◌≢◌, inl, inr, refl, true, false, Bool, arith, Bool-cases, ◌==◌,
  List, ◌∷◌, codes, ==_iff,
}
use judo.Chars.{is_match, is_continue}
use judo.Lexer.Failure.{Result, ok, err, Lexeme, TokenTag, eof}
use judo.Lexer.Number.{peek_at, rounds}
use judo.Lexer.Word.{
  skip_continue, keyword, scan_keyword, scan_unicode_escape, scan_identifier_rest, identifier_to,
  scan_identifier_start, identifier_from, scan_es5_identifier,
}
use judo.Utf8.{Source, utf8_decode}
use judo.Utf8.Sound.{IsBytes}
use judo.Utf8.Text.{
  Spans, Spans-refl, Spans-trans, ascii_decode, is_bounded-Spans, utf8_decode-Spans,
}

-- A token other than the end of the text, if there is one: it takes characters of the text only.
abbrev pub IsWord : Source → ℕ → Lexeme → Type 0
IsWord src start l =
    l.type ≢ TokenTag.invalid
    → (l.type ≢ eof) × Spans src start (start + l.lexeme_length) × (0 < l.lexeme_length)

-- No literal but the empty one matches no characters.
is_match_pos :
    (string : ℕ → ℕ) (i p n : ℕ) (ps : List ℕ) → is_match string i (p ∷ ps) n ≡ true → 0 < n
unfolding is_match
is_match_pos string i p zero ps h = cc
is_match_pos string i p (suc n) ps h = omega arith

module _ (cfg : Config) (src : Source) (bytes : IsBytes src.string) where
  skip_continue-Spans : (fuel i : ℕ) → Spans src i (skip_continue cfg src fuel i)
  unfolding skip_continue
  skip_continue-Spans zero i = Spans-refl src i
  skip_continue-Spans (suc fuel) i =
      let j = i + (utf8_decode cfg src i).byte_count in
      ground (
        arith,
        Spans-refl src i,
        utf8_decode-Spans cfg src bytes i,
        skip_continue-Spans fuel j,
        Spans-trans src i j (skip_continue cfg src fuel j),
      )

  keyword-IsWord :
      (start n : ℕ) → Spans src start (start + n) → IsWord src start (keyword cfg src start n)
  unfolding keyword
  keyword-IsWord start n s = ground (
    arith,
    is_match_pos src.string start b'n' n (codes "ull"),
    is_match_pos src.string start b't' n (codes "rue"),
    is_match_pos src.string start b'f' n (codes "alse"),
    is_match_pos src.string start b'N' n (codes "aN"),
    is_match_pos src.string start b'I' n (codes "nfinite"),
  )

  pub scan_keyword-IsWord : (start : ℕ) → IsWord src start (scan_keyword cfg src start)
  unfolding scan_keyword
  scan_keyword-IsWord start =
      let j = start + (utf8_decode cfg src start).byte_count in
      let stop = skip_continue cfg src (rounds cfg src) j in
      let s =
        Spans-trans src start j stop (utf8_decode-Spans cfg src bytes start)
          (skip_continue-Spans (rounds cfg src) j) in
      let e : start + (stop - start) ≡ stop = omega (arith, s.ordered) in
      ground (arith, keyword-IsWord start (stop - start) (rw e s))

  -- An escape sequence at a backslash.
  scan_unicode_escape-Spans :
      (i n : ℕ)
      → peek_at cfg src i ≡ b'\\'
      → scan_unicode_escape cfg src i ≡ ok n
      → Spans src i (i + n)
  unfolding scan_unicode_escape
  scan_unicode_escape-Spans i n b h =
      let one = (ascii_decode cfg src bytes i (omega arith) (omega arith)).3 in
      let e : i + 6 ≡ i + 1 + 5 = omega arith in
      ground (
        arith,
        e,
        is_bounded-Spans cfg src bytes (i + 1) 5,
        Spans-trans src i (i + 1) (i + 1 + 5) one,
      )

  Ends : ℕ → Result ℕ → Type 0
  Ends i (ok stop) = Spans src i stop
  Ends i (err e) = Unit

  Ends-trans : (i j : ℕ) (r : Result ℕ) → Spans src i j → Ends j r → Ends i r
  unfolding Ends
  Ends-trans i j (ok k) s t = Spans-trans src i j k s t
  Ends-trans i j (err e) s t = tt

  scan_identifier_rest-Ends : (fuel i : ℕ) → Ends i (scan_identifier_rest cfg src fuel i)
  unfolding scan_identifier_rest Ends
  scan_identifier_rest-Ends zero i = Spans-refl src i
  scan_identifier_rest-Ends (suc fuel) i = elim (Bool-cases (peek_at cfg src i == b'\\')) [
    | inl escape ↦
        rw (escape, scan_identifier_rest)
          (by_escape (scan_unicode_escape cfg src i) refl
            ((==_iff (peek_at cfg src i) b'\\').0 escape) (λ j. scan_identifier_rest-Ends fuel j))
    | inr plain ↦
        rw (plain, scan_identifier_rest)
          (by_continue (is_continue cfg (peek_at cfg src i))
            (λ j. scan_identifier_rest-Ends fuel j))
  ]
    where
      by_escape :
          (r : Result ℕ)
          → scan_unicode_escape cfg src i ≡ r
          → peek_at cfg src i ≡ b'\\'
          → ((j : ℕ) → Ends j (scan_identifier_rest cfg src fuel j))
          → Ends i (elim r [
            | ok byte_count ↦ scan_identifier_rest cfg src fuel (i + byte_count)
            | err e ↦ err e
          ])
      by_escape (ok n) e b ih =
          Ends-trans i (i + n) _ (scan_unicode_escape-Spans i n b e) (ih (i + n))
      by_escape (err e) h b ih = tt

      by_continue :
          (b : Bool)
          → ((j : ℕ) → Ends j (scan_identifier_rest cfg src fuel j))
          → Ends i (elim b [
            | true ↦ scan_identifier_rest cfg src fuel (i + (utf8_decode cfg src i).byte_count)
            | false ↦ ok i
          ])
      by_continue true ih =
          Ends-trans i (i + (utf8_decode cfg src i).byte_count) _
            (utf8_decode-Spans cfg src bytes i) (ih (i + (utf8_decode cfg src i).byte_count))
      by_continue false ih = Spans-refl src i

  identifier_to-IsWord :
      (start : ℕ) (r : Result ℕ) (l : Lexeme)
      → Ends start r
      → identifier_to cfg src start r ≡ ok l
      → IsWord src start l
  unfolding identifier_to Ends
  identifier_to-IsWord start (ok stop) l s h =
      let e : start + (stop - start) ≡ stop = omega (arith, s.ordered) in
      ground (arith, rw (← e) at s)
  identifier_to-IsWord start (err e) l s h = cc

  scan_identifier_start-Spans :
      (start n : ℕ) → scan_identifier_start cfg src start ≡ ok n → Spans src start (start + n)
  unfolding scan_identifier_start
  scan_identifier_start-Spans start n h = elim (Bool-cases (peek_at cfg src start == b'\\')) [
    | inl escape ↦
        scan_unicode_escape-Spans start n ((==_iff (peek_at cfg src start) b'\\').0 escape)
          (rw escape at h)
    | inr plain ↦ ground (arith, utf8_decode-Spans cfg src bytes start)
  ]

  identifier_from-Ends :
      (start : ℕ) (r : Result ℕ)
      → ((n : ℕ) → r ≡ ok n → Spans src start (start + n))
      → Ends start (identifier_from cfg src start r)
  unfolding identifier_from
  identifier_from-Ends start (ok n) s =
      Ends-trans start (start + n) _ (s n refl)
        (scan_identifier_rest-Ends (rounds cfg src) (start + n))
  identifier_from-Ends start (err e) s = unfold Ends in tt

  pub scan_es5_identifier-IsWord :
      (start : ℕ) (l : Lexeme) → scan_es5_identifier cfg src start ≡ ok l → IsWord src start l
  unfolding scan_es5_identifier
  scan_es5_identifier-IsWord start l h =
      let from = identifier_from cfg src start (scan_identifier_start cfg src start) in
      let ends = identifier_from-Ends start _ (scan_identifier_start-Spans start) in
      ground (arith, identifier_to-IsWord start from l ends)
