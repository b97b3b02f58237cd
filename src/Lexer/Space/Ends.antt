-- ===== src/Lexer/Space/Ends.antt =====
-- How the loops over spaces and comments in src/judo_scan.c end.
use judo.Api.{Config}
use judo.Base.{
  ℕ, zero, suc, ◌+◌, ◌-◌, ◌≤◌, ◌<◌, ◌≡◌, ◌≢◌, ◌⊎◌, refl, arith, Bool, true, false, ◌&&◌, ◌||◌, not,
  ◌==◌, Bool-cases, ltb, inl, inr, none, List, codes,
}
use judo.Chars.{is_space, is_match}
use judo.Lexer.Number.{rounds}
use judo.Lexer.Quoted.{is_newline}
use judo.Lexer.Space.{
  Consumed, comment_to, skip_line, scan_comment, find_comment_end, scan_multiline_comment,
  pass_space, consume_loop, consume_space_and_comments,
}
use judo.Lexer.Space.Bounds.{skip_line-Spans}
use judo.Utf8.{Source, utf8_decode, is_bounded, bad_character_encoding, input_too_large}
use judo.Utf8.Text.{IsShort, is_bounded-lt, utf8_decode-IsSpecial}
use judo.Utf8.Sound.{IsBytes, utf8_decode-Reads}

module _ (cfg : Config) (src : Source) (bytes : IsBytes src.string) where
  pub decoded-lt :
      (i : ℕ)
      → 0 < (utf8_decode cfg src i).byte_count
      → i + (utf8_decode cfg src i).byte_count < cfg.maximum_input_size
  decoded-lt i h = (utf8_decode-Reads cfg src bytes i h).bounded

  pass_space-lt :
      (i : ℕ)
      → IsShort cfg src.length
      → 0 < (pass_space cfg src i).byte_count
      → i < cfg.maximum_input_size
  unfolding pass_space
  pass_space-lt i short h =
      ground (arith, decoded-lt i, is_bounded-lt cfg src i 2 short (omega arith))

  -- The comment that runs to the end of the line ends at a line end, or where no character is decoded.
  skip_line_stops :
      (fuel i : ℕ)
      → cfg.maximum_input_size < i + fuel
      → (is_newline cfg src (skip_line cfg src fuel i) == 0
          && not ((utf8_decode cfg src (skip_line cfg src fuel i)).byte_count == 0))
        ≡ false
  unfolding skip_line
  skip_line_stops zero i h = ground (arith, decoded-lt i)
  skip_line_stops (suc fuel) i h =
      let next = i + (utf8_decode cfg src i).byte_count in
      elim (Bool-cases
        (is_newline cfg src i == 0 && not ((utf8_decode cfg src i).byte_count == 0))) [
          | inl more ↦ rw (more, skip_line) (skip_line_stops fuel next (ground arith))
          | inr stop ↦ rw (stop, skip_line) stop
        ]

  abbrev pub closes_at : ℕ → Bool
  closes_at i = is_bounded cfg src i 2 && is_match src.string i (codes "*/") 2

  -- The characters of a multi-line comment from `i` to `j`, none of which closes it.
  pub data InComment : ℕ → ℕ → Type 0 where
    here : {i : ℕ} → InComment i i
    passed :
        {i j : ℕ}
        → closes_at i ≡ false
        → 0 < (utf8_decode cfg src i).byte_count
        → InComment (i + (utf8_decode cfg src i).byte_count) j
        → InComment i j

  -- The comment is closed at `j`, or no character can be decoded there.
  abbrev pub Reached : ℕ → ℕ → ℕ → Type 0
  Reached start j count =
      ((closes_at j ≡ true) × (count ≡ j + 2 - start))
      ⊎ ((closes_at j ≡ false) × ((utf8_decode cfg src j).byte_count ≡ 0) × (count ≡ 0))

  find_comment_end_stops :
      (start fuel i c : ℕ)
      → 0 < fuel
      → cfg.maximum_input_size < i + fuel
      → (j : ℕ) × InComment i j
        × Reached start j (find_comment_end cfg src start fuel i c).byte_count
  unfolding find_comment_end
  find_comment_end_stops start zero i c p h = absurd (omega (arith, p))
  find_comment_end_stops start (suc fuel) i c p h = elim (Bool-cases (closes_at i)) [
    | inl close ↦ (i, here, inl (close, rw (close, find_comment_end) refl))
    | inr open_at ↦ elim (Bool-cases (ltb 0 (utf8_decode cfg src i).byte_count)) [
      | inl more ↦
          let d = utf8_decode cfg src i in
          let (j, t, k) =
            find_comment_end_stops start fuel (i + d.byte_count) d.codepoint
              (ground (arith, decoded-lt i)) (ground arith) in
          (j, passed open_at (ground arith) t, rw (open_at, more, find_comment_end) k)
      | inr stop ↦ (i, here, inr (open_at, ground arith, rw (open_at, stop, find_comment_end) refl))
    ]
  ]

  -- On a text of bytes, `scan_multiline_comment` passes over characters that do not close the comment,
  -- up to the first `*/`, behind which it ends, or to a position where no character can be decoded:
  -- then it takes no bytes, and reports an error.
  pub scan_multiline_comment_stops :
      (i : ℕ)
      → (j : ℕ) × InComment (i + 2) j
        × Reached i j (scan_multiline_comment cfg src i).byte_count
        × ((scan_multiline_comment cfg src i).byte_count ≡ 0
            → (scan_multiline_comment cfg src i).failure ≢ none)
  unfolding scan_multiline_comment comment_to rounds
  scan_multiline_comment_stops i =
      let (j, t, k) =
        find_comment_end_stops i (rounds cfg src) (i + 2) 0 (omega arith) (omega arith) in
      (j, t, k, λ z e. ground arith)

  -- On a text of bytes, the comment that `scan_comment` passes over ends at a line end, or where no
  -- character can be decoded.
  pub scan_comment_stops :
      (i : ℕ)
      → (is_newline cfg src (i + (scan_comment cfg src i).byte_count) == 0
          && not ((utf8_decode cfg src (i + (scan_comment cfg src i).byte_count)).byte_count == 0))
        ≡ false
  unfolding scan_comment rounds
  scan_comment_stops i =
      let stop = skip_line cfg src (rounds cfg src) (i + 2) in
      let e : i + (stop - i) ≡ stop =
        omega (arith, (skip_line-Spans cfg src bytes (rounds cfg src) (i + 2)).ordered) in
      rw e (skip_line_stops (rounds cfg src) (i + 2) (omega arith))

  -- No byte is decoded with a space: not at the null character, nor with the codes for an error.
  pub record EndsSpaces : Type 0 where
    pub at_null : is_space cfg 0 ≡ false
    pub at_bad : is_space cfg bad_character_encoding ≡ false
    pub at_large : is_space cfg input_too_large ≡ false

  abbrev pub has_comments : Bool
  has_comments = cfg.with_comments || cfg.json5

  abbrev pub literal_at : ℕ → List ℕ → Bool
  literal_at i literal = is_bounded cfg src i 2 && is_match src.string i literal 2

  -- Behind the spaces and comments: no space and no comment of one line stands there; where the begin
  -- of another comment stands, there is an error, and elsewhere there is none.
  pub record Behind (c : Consumed) : Type 0 where
    pub no_space : is_space cfg (utf8_decode cfg src c.index).codepoint ≡ false
    pub no_comment : (has_comments && literal_at c.index (codes "//")) ≡ false
    pub open_comment : (has_comments && literal_at c.index (codes "/*")) ≡ true → c.failure ≢ none
    pub no_failure : (has_comments && literal_at c.index (codes "/*")) ≡ false → c.failure ≡ none

  scan_comment-some : (i : ℕ) → 0 < (scan_comment cfg src i).byte_count
  unfolding scan_comment
  scan_comment-some i =
      omega (arith, (skip_line-Spans cfg src bytes (rounds cfg src) (i + 2)).ordered)

  no_space_decoded :
      EndsSpaces
      → (i : ℕ) → (utf8_decode cfg src i).byte_count ≡ 0
      → is_space cfg (utf8_decode cfg src i).codepoint ≡ false
  no_space_decoded spaces i z = elim (utf8_decode-IsSpecial cfg src i z) [
    | inl e ↦ rw e spaces.at_null
    | inr (inl e) ↦ rw e spaces.at_bad
    | inr (inr e) ↦ rw e spaces.at_large
  ]

  pass_space-Behind :
      EndsSpaces
      → (i : ℕ) → (pass_space cfg src i).byte_count ≡ 0
      → Behind (record { index = i; failure = (pass_space cfg src i).failure })
  unfolding pass_space
  pass_space-Behind spaces i z =
      let comment = (scan_multiline_comment_stops i).3 in
      record {
        no_space = ground (arith, no_space_decoded spaces i);
        no_comment = ground (arith, no_space_decoded spaces i, scan_comment-some i);
        open_comment = ground (arith, no_space_decoded spaces i, scan_comment-some i, comment);
        no_failure = ground (arith, no_space_decoded spaces i, scan_comment-some i);
      }

  consume_loop-Behind :
      EndsSpaces
      → (fuel i : ℕ) → IsShort cfg src.length
      → cfg.maximum_input_size ≤ i + fuel
      → Behind (consume_loop cfg src (suc fuel) i)
  unfolding consume_loop
  consume_loop-Behind spaces zero i short h =
      elim (Bool-cases ((pass_space cfg src i).byte_count == 0)) [
        | inl stop ↦ rw (stop, consume_loop) (pass_space-Behind spaces i (ground arith))
        | inr more ↦ absurd (omega (arith, pass_space-lt i short (ground arith)))
      ]
  consume_loop-Behind spaces (suc fuel) i short h =
      elim (Bool-cases ((pass_space cfg src i).byte_count == 0)) [
        | inl stop ↦ rw (stop, consume_loop) (pass_space-Behind spaces i (ground arith))
        | inr more ↦
            let next = i + (pass_space cfg src i).byte_count in
            rw (more, consume_loop) (consume_loop-Behind spaces fuel next short (ground arith))
      ]

  -- On a text of bytes, whose stated length is below the maximum, where no space is among the code
  -- points that are reported without a byte: `consume_space_and_comments` ends where no space and no
  -- comment of one line stands. Where comments are accepted and the begin of another comment stands
  -- there, it reports an error, and otherwise it reports none.
  pub consume_space_and_comments_stops :
      EndsSpaces → (i : ℕ) → IsShort cfg src.length → Behind (consume_space_and_comments cfg src i)
  unfolding consume_space_and_comments rounds
  consume_space_and_comments_stops spaces i short =
      consume_loop-Behind spaces cfg.maximum_input_size i short (omega arith)
