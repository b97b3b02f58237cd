-- ===== src/Lexer/Word/Ends.antt =====
-- How the loop of `scan_keyword` in src/judo_scan.c ends.
use judo.Api.{Config}
use judo.Base.{ℕ, zero, suc, ◌+◌, ◌<◌, ◌≡◌, arith, true, false, Bool-cases, inl, inr, ltb}
use judo.Chars.{is_continue}
use judo.Lexer.Number.{peek_at}
use judo.Lexer.Word.{skip_continue}
use judo.Utf8.{Source, utf8_decode, bad_character_encoding, input_too_large}
use judo.Utf8.Sound.{IsBytes, utf8_decode-Reads}
use judo.Utf8.Text.{utf8_decode-IsSpecial}

-- No character of a word is the null character, or one of the code points that stand for an error.
-- This is a property of the Unicode tables in the build for JSON5.
pub record EndsWords (cfg : Config) : Type 0 where
  pub at_null : is_continue cfg 0 ≡ false
  pub at_bad : is_continue cfg bad_character_encoding ≡ false
  pub at_large : is_continue cfg input_too_large ≡ false

module _ (cfg : Config) (src : Source) (bytes : IsBytes src.string) (words : EndsWords cfg) where
  special_stops :
      (i : ℕ) → (utf8_decode cfg src i).byte_count ≡ 0 → is_continue cfg (peek_at cfg src i) ≡ false
  special_stops i h = elim (utf8_decode-IsSpecial cfg src i h) [
    | inl e ↦ rw e words.at_null
    | inr (inl e) ↦ rw e words.at_bad
    | inr (inr e) ↦ rw e words.at_large
  ]

  continue-lt :
      (i : ℕ)
      → is_continue cfg (peek_at cfg src i) ≡ true
      → (0 < (utf8_decode cfg src i).byte_count)
        × (i + (utf8_decode cfg src i).byte_count < cfg.maximum_input_size)
  continue-lt i h = elim (Bool-cases (ltb 0 (utf8_decode cfg src i).byte_count)) [
    | inl some ↦ (ground arith, (utf8_decode-Reads cfg src bytes i (ground arith)).bounded)
    | inr none ↦ absurd (ground (arith, special_stops i))
  ]

  -- With enough rounds, on a text of bytes, the loop over the characters of a word ends where the
  -- character does not continue the word.
  pub skip_continue_stops :
      (fuel i : ℕ)
      → cfg.maximum_input_size < i + fuel
      → is_continue cfg (peek_at cfg src (skip_continue cfg src fuel i)) ≡ false
  unfolding skip_continue
  skip_continue_stops zero i h = elim (Bool-cases (is_continue cfg (peek_at cfg src i))) [
    | inl more ↦ absurd (omega (arith, (continue-lt i more).1))
    | inr stop ↦ stop
  ]
  skip_continue_stops (suc fuel) i h = elim (Bool-cases (is_continue cfg (peek_at cfg src i))) [
    | inl more ↦
        rw (more, skip_continue)
          (skip_continue_stops fuel (i + (utf8_decode cfg src i).byte_count)
            (omega (arith, (continue-lt i more).0)))
    | inr stop ↦ rw (stop, skip_continue) stop
  ]
