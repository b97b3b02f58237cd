-- ===== src/Scanner/Outcomes/Roots.antt =====
-- How `parse_root` may end.
use judo.Api.{Config, Stream, root_value}
use judo.Base.{ℕ, ◌+◌, ◌≡◌, inl, inr, refl, ◌==◌, ◌&&◌, ◌||◌, true, false, Bool, Bool-cases}
use judo.Lexer.Failure.{Token, TokenTag, eof, bad_syntax}
use judo.Lexer.Peek.{Scanner, done, ◌>>=◌}
use judo.Scanner.{take, dispatch_root, skip_bom, parse_root}
use judo.Scanner.Moves.{Stays}
use judo.Utf8.{Source, is_bounded}
use judo.Utf8.Sound.{IsBytes}
use judo.Utf8.Text.{Spans, Spans-refl, is_bounded-Spans}
use judo.Scanner.Outcomes.{
  Leads, stays, breaks, Ready, Leads-from, after_peek, unchanged, dispatch_root-Dispatches, takes,
  refuses, Dispatches, broken,
}

module _ (cfg : Config) (src : Source) (bytes : IsBytes src.string) where
  dispatch_root-eof :
      (any : Bool) (tag : TokenTag) (token : Token) (sc : Scanner)
      → tag ≡ eof
      → dispatch_root any tag token sc
        ≡ broken (bad_syntax 0 0 "expected root value") sc.index sc.stream
  unfolding dispatch_root
  dispatch_root-eof true tag token sc e = rw e refl
  dispatch_root-eof false tag token sc e = rw e refl

  -- The switch of `parse_root` on a token that takes characters.
  dispatch_root-Leads :
      (any : Bool) (s : Stream) (token : Token)
      → Ready src token token.type
      → Leads cfg src root_value token.lexeme s
          (dispatch_root any token.type token (record { index = token.lexeme; stream = s }))
  unfolding take
  dispatch_root-Leads any s token (inl e) =
      breaks (bad_syntax 0 0 "expected root value") token.lexeme s (Spans-refl src token.lexeme)
        unchanged (dispatch_root-eof any token.type token _ e)
  dispatch_root-Leads any s token (inr p) =
      by_token (dispatch_root-Dispatches any token.type token _ refl)
    where
      by_token :
          Dispatches
            (record { index = token.lexeme; stream = s })
            token
            (dispatch_root any token.type token (record { index = token.lexeme; stream = s }))
          → Leads cfg src root_value token.lexeme s
              (dispatch_root any token.type token (record { index = token.lexeme; stream = s }))
      by_token (takes kind y b e) = stays kind y token (Stays.root b) p e
      by_token (refuses f e) = breaks f token.lexeme s (Spans-refl src token.lexeme) unchanged e

  -- `skip_bom` passes bytes of the text only.
  skip_bom-Spans :
      (i : ℕ) (s : Stream)
      → (j : ℕ) × (skip_bom cfg src (record { index = i; stream = s })
          ≡ done tt (record { index = j; stream = s }))
        × Spans src i j
  unfolding skip_bom
  skip_bom-Spans i s = elim (Bool-cases (is_bounded cfg src i 3)) [
    | inl room ↦ elim (Bool-cases bom) [
      | inl found ↦ (i + 3, rw (room, found) refl, is_bounded-Spans cfg src bytes i 3 room)
      | inr absent ↦ (i, rw (room, absent) refl, Spans-refl src i)
    ]
    | inr short ↦ (i, rw short refl, Spans-refl src i)
  ]
    where
      bom : Bool
      bom = src.string 0 == 0xEF && src.string 1 == 0xBB && src.string 2 == 0xBF

  pub parse_root-Leads :
      (i : ℕ) (s : Stream)
      → Leads cfg src root_value i s (parse_root cfg src (record { index = i; stream = s }))
  unfolding parse_root
  parse_root-Leads i s =
      let any = cfg.rfc8259 || cfg.json5 in
      let (j, e, sp) = skip_bom-Spans i s in
      rw (e, ◌>>=◌)
        (Leads-from cfg src bytes root_value i j s _ sp (
          after_peek cfg src bytes root_value j s (dispatch_root any)
            (λ token. dispatch_root-Leads any s token)))
