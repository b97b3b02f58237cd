-- ===== src/Lexer/Space.antt =====
-- src/judo_scan.c: the comments, and `consume_space_and_comments`.
pub mod Bounds
pub mod Ends
use judo.Api.{Config}
use judo.Base.{
  ℕ, zero, suc, ◌+◌, ◌-◌, Bool, true, false, not, ◌&&◌, ◌||◌, Option, none, some, ltb, ◌==◌,
  if◌then◌else◌, codes,
}
use judo.Chars.{is_space, is_match}
use judo.Lexer.Failure.{Failure, bad_syntax, bad_encoding, bad_input_size}
use judo.Lexer.Number.{rounds}
use judo.Lexer.Quoted.{is_newline}
use judo.Utf8.{Source, is_bounded, utf8_decode, bad_character_encoding, input_too_large}

-- The variables of `scan_multiline_comment` behind its loop.
pub record Comment : Type 0 where
  pub index : ℕ
  pub byte_count : ℕ
  pub codepoint : ℕ

-- A count of bytes to pass over, and the failure if there is one.
pub record Passed : Type 0 where
  pub byte_count : ℕ
  pub failure : Option Failure

-- Where the spaces and comments end.
pub record Consumed : Type 0 where
  pub index : ℕ
  pub failure : Option Failure

module _ (cfg : Config) (src : Source) where
  abbrev stands_at : ℕ → Bool → Bool
  stands_at index matched = is_bounded cfg src index 2 && matched

  -- The end of a comment that runs to the end of the line.
  unfoldable pub skip_line : ℕ → ℕ → ℕ
  skip_line zero index = index
  skip_line (suc fuel) index =
      let seqlen = (utf8_decode cfg src index).byte_count in
      elim (is_newline cfg src index == 0 && not (seqlen == 0)) [
        | true ↦ skip_line fuel (index + seqlen)
        | false ↦ index
      ]

  unfoldable pub scan_comment : ℕ → Passed
  scan_comment start = record {
    byte_count = skip_line (rounds cfg src) (start + 2) - start;
    failure = none;
  }

  -- The do-while loop; `codepoint` is the last one that was decoded.
  unfoldable pub find_comment_end : ℕ → ℕ → ℕ → ℕ → Comment
  find_comment_end start zero index codepoint = record {
    index = index;
    byte_count = 0;
    codepoint = codepoint;
  }
  find_comment_end start (suc fuel) index codepoint =
      let d = utf8_decode cfg src index in
      elim (stands_at index (is_match src.string index (codes "*/") 2)) [
        | true ↦ record { index = index + 2; byte_count = index + 2 - start; codepoint = codepoint }
        | false ↦ elim (ltb 0 d.byte_count) [
          | true ↦ find_comment_end start fuel (index + d.byte_count) d.codepoint
          | false ↦ record { index = index; byte_count = 0; codepoint = d.codepoint }
        ]
      ]

  unfoldable pub comment_to : ℕ → Comment → Passed
  comment_to start c = record {
    byte_count = c.byte_count;
    failure =
        if c.codepoint == bad_character_encoding
        then some (bad_encoding c.index 1)
        else if c.codepoint == input_too_large
        then some bad_input_size
        else if c.byte_count == 0
        then some (bad_syntax start 2 "unterminated multi-line comment")
        else none;
  }

  unfoldable pub scan_multiline_comment : ℕ → Passed
  scan_multiline_comment start =
      comment_to start (find_comment_end start (rounds cfg src) (start + 2) 0)

  -- One round: the space or comment at `index`.
  unfoldable pub pass_space : ℕ → Passed
  pass_space index =
      let d = utf8_decode cfg src index in
      if is_space cfg d.codepoint
      then record { byte_count = d.byte_count; failure = none }
      else if (cfg.with_comments || cfg.json5)
          && stands_at index (is_match src.string index (codes "//") 2)
      then scan_comment index
      else if (cfg.with_comments || cfg.json5)
          && stands_at index (is_match src.string index (codes "/*") 2)
      then scan_multiline_comment index
      else record { byte_count = 0; failure = none }

  unfoldable pub consume_loop : ℕ → ℕ → Consumed
  consume_loop zero index = record { index = index; failure = none }
  consume_loop (suc fuel) index =
      let p = pass_space index in
      elim (p.byte_count == 0) [
        | true ↦ record { index = index; failure = p.failure }
        | false ↦ consume_loop fuel (index + p.byte_count)
      ]

  unfoldable pub consume_space_and_comments : ℕ → Consumed
  consume_space_and_comments index = consume_loop (rounds cfg src) index
