-- ===== src/Lexer/Space/Bounds.antt =====
-- Where spaces and comments end: every character that they pass belongs to the text.
use judo.Api.{Config}
use judo.Base.{ℕ, zero, suc, ◌+◌, ◌-◌, ◌≡◌, arith}
use judo.Lexer.Number.{rounds}
use judo.Lexer.Space.{
  skip_line, scan_comment, find_comment_end, comment_to, scan_multiline_comment, pass_space,
  consume_loop, consume_space_and_comments,
}
use judo.Utf8.{Source, utf8_decode}
use judo.Utf8.Sound.{IsBytes}
use judo.Utf8.Text.{Spans, Spans-refl, Spans-trans, is_bounded-Spans, utf8_decode-Spans}

module _ (cfg : Config) (src : Source) (bytes : IsBytes src.string) where
  pub skip_line-Spans : (fuel i : ℕ) → Spans src i (skip_line cfg src fuel i)
  unfolding skip_line
  skip_line-Spans zero i = Spans-refl src i
  skip_line-Spans (suc fuel) i =
      let j = i + (utf8_decode cfg src i).byte_count in
      ground (
        arith,
        Spans-refl src i,
        utf8_decode-Spans cfg src bytes i,
        skip_line-Spans fuel j,
        Spans-trans src i j (skip_line cfg src fuel j),
      )

  scan_comment-Spans :
      (i : ℕ) → Spans src i (i + 2) → Spans src i (i + (scan_comment cfg src i).byte_count)
  unfolding scan_comment
  scan_comment-Spans i s =
      let stop = skip_line cfg src (rounds cfg src) (i + 2) in
      let t = Spans-trans src i (i + 2) stop s (skip_line-Spans (rounds cfg src) (i + 2)) in
      let e : i + (stop - i) ≡ stop = omega (arith, t.ordered) in rw e t

  find_comment_end-Spans :
      (start fuel i c : ℕ)
      → Spans src start i
      → Spans src start (start + (find_comment_end cfg src start fuel i c).byte_count)
  unfolding find_comment_end
  find_comment_end-Spans start zero i c s =
      let e : start + 0 ≡ start = omega arith in rw e (Spans-refl src start)
  find_comment_end-Spans start (suc fuel) i c s =
      let d = utf8_decode cfg src i in
      let e : start + 0 ≡ start = omega arith in
      let e' : start + (i + 2 - start) ≡ i + 2 = omega (arith, s.ordered) in
      ground (
        arith,
        e,
        e',
        Spans-refl src start,
        is_bounded-Spans cfg src bytes i 2,
        utf8_decode-Spans cfg src bytes i,
        Spans-trans src start i (i + 2) s,
        Spans-trans src start i (i + d.byte_count) s,
        find_comment_end-Spans start fuel (i + d.byte_count) d.codepoint,
      )

  scan_multiline_comment-Spans :
      (i : ℕ)
      → Spans src i (i + 2)
      → Spans src i (i + (scan_multiline_comment cfg src i).byte_count)
  unfolding scan_multiline_comment comment_to
  scan_multiline_comment-Spans i s = find_comment_end-Spans i (rounds cfg src) (i + 2) 0 s

  pass_space-Spans : (i : ℕ) → Spans src i (i + (pass_space cfg src i).byte_count)
  unfolding pass_space
  pass_space-Spans i =
      let e : i + 0 ≡ i = omega arith in
      ground (
        arith,
        e,
        Spans-refl src i,
        utf8_decode-Spans cfg src bytes i,
        is_bounded-Spans cfg src bytes i 2,
        scan_comment-Spans i,
        scan_multiline_comment-Spans i,
      )

  consume_loop-Spans : (fuel i : ℕ) → Spans src i (consume_loop cfg src fuel i).index
  unfolding consume_loop
  consume_loop-Spans zero i = Spans-refl src i
  consume_loop-Spans (suc fuel) i =
      let j = i + (pass_space cfg src i).byte_count in
      ground (
        arith,
        Spans-refl src i,
        pass_space-Spans i,
        consume_loop-Spans fuel j,
        Spans-trans src i j (consume_loop cfg src fuel j).index,
      )

  pub consume_space_and_comments-Spans :
      (i : ℕ) → Spans src i (consume_space_and_comments cfg src i).index
  unfolding consume_space_and_comments
  consume_space_and_comments-Spans i = consume_loop-Spans (rounds cfg src) i
