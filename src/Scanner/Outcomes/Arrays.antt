-- ===== src/Scanner/Outcomes/Arrays.antt =====
-- How the routines that read an array may end.
use judo.Api.{
  Config, ScanState, Stream, finished_parsing_value, finished_parsing_array_element, array_end,
}
use judo.Base.{ℕ, ◌+◌, inl, inr, refl, Bool-cases}
use judo.Lexer.Failure.{Token, TokenTag, bad_syntax}
use judo.Scanner.{
  parse_array_element, array_element_or_end, has_trailing_commas, parse_array_element_or_array_end,
  after_array_element, continue_array,
}
use judo.Scanner.Moves.{InArray, Stays, Opens, Waits}
use judo.Utf8.{Source}
use judo.Utf8.Sound.{IsBytes}
use judo.Utf8.Text.{Spans-refl}
use judo.Scanner.Outcomes.{
  Leads, stays, breaks, Ready, Values-Leads, Leads-from, after_peek, parse_value-Values, entered,
  unchanged,
}

module _ (cfg : Config) (src : Source) (bytes : IsBytes src.string) where
  parse_array_element-Leads :
      {x : ScanState} (i : ℕ) (s : Stream)
      → InArray x
      → Leads cfg src x i s (parse_array_element cfg src (record { index = i; stream = s }))
  unfolding parse_array_element
  parse_array_element-Leads {x} i s a =
      Values-Leads cfg src bytes x finished_parsing_array_element i s _ Waits.in_array
        (λ kind y b. Opens.element a b)
        (parse_value-Values cfg src bytes "expected value" i
          (entered finished_parsing_array_element s))

  array_element_or_end-Leads :
      {x : ScanState} (s : Stream)
      → InArray x
      → (tag : TokenTag) (token : Token) → Ready src token tag
      → Leads cfg src x token.lexeme s
          (array_element_or_end cfg src tag token (record { index = token.lexeme; stream = s }))
  unfolding array_element_or_end
  array_element_or_end-Leads s a TokenTag.rbrace token (inl e) = absurd (cc)
  array_element_or_end-Leads s a TokenTag.rbrace token (inr p) =
      stays array_end finished_parsing_value token (Stays.close_array a) p refl
  array_element_or_end-Leads s a _ token p = parse_array_element-Leads token.lexeme s a

  pub parse_array_element_or_array_end-Leads :
      {x : ScanState} (i : ℕ) (s : Stream)
      → InArray x
      → Leads cfg src x i s
          (parse_array_element_or_array_end cfg src (record { index = i; stream = s }))
  unfolding parse_array_element_or_array_end
  parse_array_element_or_array_end-Leads {x} i s a =
      after_peek cfg src bytes x i s (array_element_or_end cfg src)
        (λ token. array_element_or_end-Leads s a token.type token)

  after_array_element-Leads :
      {x : ScanState} (s : Stream)
      → InArray x
      → (tag : TokenTag) (token : Token) → Ready src token tag
      → Leads cfg src x token.lexeme s
          (after_array_element cfg src tag token (record { index = token.lexeme; stream = s }))
  unfolding after_array_element
  after_array_element-Leads {x} s a TokenTag.comma token (inl e) = absurd (cc)
  after_array_element-Leads {x} s a TokenTag.comma token (inr p) =
      let j = token.lexeme + token.lexeme_length in
      elim (Bool-cases (has_trailing_commas cfg)) [
        | inl trailing ↦ rw trailing (
            Leads-from cfg src bytes x token.lexeme j s _ p.within
              (parse_array_element_or_array_end-Leads j s a))
        | inr strict ↦ rw strict (
            Leads-from cfg src bytes x token.lexeme j s _ p.within
              (parse_array_element-Leads j s a))
      ]
  after_array_element-Leads s a TokenTag.rbrace token (inl e) = absurd (cc)
  after_array_element-Leads s a TokenTag.rbrace token (inr p) =
      stays array_end finished_parsing_value token (Stays.close_array a) p refl
  after_array_element-Leads s a _ token p =
      breaks (bad_syntax token.lexeme 1 "expected ']' or ','") token.lexeme s
        (Spans-refl src token.lexeme) unchanged refl

  pub continue_array-Leads :
      {x : ScanState} (i : ℕ) (s : Stream)
      → InArray x
      → Leads cfg src x i s (continue_array cfg src (record { index = i; stream = s }))
  unfolding continue_array
  continue_array-Leads {x} i s a =
      after_peek cfg src bytes x i s (after_array_element cfg src)
        (λ token. after_array_element-Leads s a token.type token)
