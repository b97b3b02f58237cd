-- ===== src/Scanner/Outcomes/Objects.antt =====
-- How the routines that read an object may end.
use judo.Api.{
  Config, ScanState, Stream, finished_parsing_value, parse_object_value,
  finished_parsing_object_value, object_end, object_name,
}
use judo.Base.{ℕ, ◌+◌, inl, inr, refl, Bool-cases}
use judo.Lexer.Failure.{Token, TokenTag, bad_syntax}
use judo.Scanner.{
  has_trailing_commas, parse_object_key, parse_member_value, continue_member, object_key_or_end,
  begin_member, next_member, after_object_value, continue_object,
}
use judo.Scanner.Moves.{InObject, Stays, Opens, Waits}
use judo.Utf8.{Source}
use judo.Utf8.Sound.{IsBytes}
use judo.Utf8.Text.{Spans-refl}
use judo.Scanner.Outcomes.{
  Leads, stays, breaks, Ready, Values-Leads, Leads-from, after_peek, parse_value-Values, entered,
  unchanged,
}

module _ (cfg : Config) (src : Source) (bytes : IsBytes src.string) where
  parse_object_key-Leads :
      {x : ScanState} (s : Stream)
      → InObject x
      → (tag : TokenTag) (token : Token) → Ready src token tag
      → Leads cfg src x token.lexeme s
          (parse_object_key cfg src tag token (record { index = token.lexeme; stream = s }))
  unfolding parse_object_key
  parse_object_key-Leads s a TokenTag.string token (inl e) = absurd (cc)
  parse_object_key-Leads s a TokenTag.string token (inr p) =
      stays object_name parse_object_value token (Stays.name a) p refl
  parse_object_key-Leads s a TokenTag.identifier token (inl e) = absurd (cc)
  parse_object_key-Leads s a TokenTag.identifier token (inr p) = elim (Bool-cases cfg.json5) [
    | inl five ↦ rw five (stays object_name parse_object_value token (Stays.name a) p refl)
    | inr rfc ↦ rw rfc (
        breaks (bad_syntax token.lexeme 1 "expected '}' or string") token.lexeme s
          (Spans-refl src token.lexeme) unchanged refl)
  ]
  parse_object_key-Leads s a _ token p =
      breaks (bad_syntax token.lexeme 1 "expected '}' or string") token.lexeme s
        (Spans-refl src token.lexeme) unchanged refl

  object_key_or_end-Leads :
      {x : ScanState} (s : Stream)
      → InObject x
      → (tag : TokenTag) (token : Token) → Ready src token tag
      → Leads cfg src x token.lexeme s
          (object_key_or_end cfg src tag token (record { index = token.lexeme; stream = s }))
  unfolding object_key_or_end
  object_key_or_end-Leads s a TokenTag.rcurlyb token (inl e) = absurd (cc)
  object_key_or_end-Leads s a TokenTag.rcurlyb token (inr p) =
      stays object_end finished_parsing_value token (Stays.close_object a) p refl
  object_key_or_end-Leads s a tag token p = parse_object_key-Leads s a tag token p

  pub begin_member-Leads :
      {x : ScanState} (i : ℕ) (s : Stream)
      → InObject x
      → Leads cfg src x i s (begin_member cfg src (record { index = i; stream = s }))
  unfolding begin_member
  begin_member-Leads {x} i s a =
      after_peek cfg src bytes x i s (object_key_or_end cfg src)
        (λ token. object_key_or_end-Leads s a token.type token)

  next_member-Leads :
      {x : ScanState} (i : ℕ) (s : Stream)
      → InObject x
      → Leads cfg src x i s (next_member cfg src (record { index = i; stream = s }))
  unfolding next_member
  next_member-Leads {x} i s a =
      after_peek cfg src bytes x i s (parse_object_key cfg src)
        (λ token. parse_object_key-Leads s a token.type token)

  after_object_value-Leads :
      {x : ScanState} (s : Stream)
      → InObject x
      → (tag : TokenTag) (token : Token) → Ready src token tag
      → Leads cfg src x token.lexeme s
          (after_object_value cfg src tag token (record { index = token.lexeme; stream = s }))
  unfolding after_object_value
  after_object_value-Leads s a TokenTag.comma token (inl e) = absurd (cc)
  after_object_value-Leads {x} s a TokenTag.comma token (inr p) =
      let j = token.lexeme + token.lexeme_length in
      elim (Bool-cases (has_trailing_commas cfg)) [
        | inl trailing ↦
            rw trailing
              (Leads-from cfg src bytes x token.lexeme j s _ p.within (begin_member-Leads j s a))
        | inr strict ↦
            rw strict
              (Leads-from cfg src bytes x token.lexeme j s _ p.within (next_member-Leads j s a))
      ]
  after_object_value-Leads s a TokenTag.rcurlyb token (inl e) = absurd (cc)
  after_object_value-Leads s a TokenTag.rcurlyb token (inr p) =
      stays object_end finished_parsing_value token (Stays.close_object a) p refl
  after_object_value-Leads s a _ token p =
      breaks (bad_syntax token.lexeme 1 "expected '}' or ','") token.lexeme s
        (Spans-refl src token.lexeme) unchanged refl

  pub continue_object-Leads :
      {x : ScanState} (i : ℕ) (s : Stream)
      → InObject x
      → Leads cfg src x i s (continue_object cfg src (record { index = i; stream = s }))
  unfolding continue_object
  continue_object-Leads {x} i s a =
      after_peek cfg src bytes x i s (after_object_value cfg src)
        (λ token. after_object_value-Leads s a token.type token)

  parse_member_value-Leads :
      (s : Stream) (tag : TokenTag) (token : Token)
      → Ready src token tag
      → Leads cfg src parse_object_value token.lexeme s
          (parse_member_value cfg src tag token (record { index = token.lexeme; stream = s }))
  unfolding parse_member_value
  parse_member_value-Leads s TokenTag.colon token (inl e) = absurd (cc)
  parse_member_value-Leads s TokenTag.colon token (inr p) =
      let j = token.lexeme + token.lexeme_length in
      Leads-from cfg src bytes parse_object_value token.lexeme j s _ p.within (
        Values-Leads cfg src bytes parse_object_value finished_parsing_object_value j s _
          Waits.in_object (λ kind y b. Opens.value b)
          (parse_value-Values cfg src bytes "expected value after ':'" j
            (entered finished_parsing_object_value s)))
  parse_member_value-Leads s _ token p =
      breaks (bad_syntax token.lexeme 1 "expected ':'") token.lexeme s (Spans-refl src token.lexeme)
        unchanged refl

  pub continue_member-Leads :
      (i : ℕ) (s : Stream)
      → Leads cfg src parse_object_value i s
          (continue_member cfg src (record { index = i; stream = s }))
  unfolding continue_member
  continue_member-Leads i s =
      after_peek cfg src bytes parse_object_value i s (parse_member_value cfg src)
        (λ token. parse_member_value-Leads s token.type token)
