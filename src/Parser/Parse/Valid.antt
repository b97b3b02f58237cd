-- ===== src/Parser/Parse/Valid.antt =====
-- The tree that `judo_parse` of src/judo_parse.c builds, against the grammar of JSON values.
use mathlib.Core.Path.{subst}
use judo.Api.{Config, JudoResult, JudoToken, Span, Stream, success, eof, zero_stream}
use judo.Base.{
  ℕ, zero, suc, ◌<◌, ◌≡◌, refl, sym, ap, ◌∙◌, Bool, Option, none, some, List, ◌∷◌, map, false,
}
use judo.Parser.Parse.{JudoError, Parsed, judo_parse}
use judo.Parser.Parse.Calls.{read_events, events_on}
use judo.Parser.Parse.Outcome.{Parses, built, failed, judo_parse-Parses}
use judo.Parser.Tree.{Node, Event, events, layout}
use judo.Scanner.Grammar.{IsValue, Part}
use judo.Scanner.Reader.{Reading, read_on, read_tokens, read_tokens-IsValue}
use judo.Scanner.Scan.{judo_scan, is_too_long}
use judo.Utf8.{Source}
use judo.Utf8.Sound.{IsBytes}
use judo.Utf8.Text.{IsText}

abbrev pub token_of : Event → JudoToken
token_of e = e.0

same_tokens :
    (r : JudoResult) (t : JudoToken) (span : Span) (rest : List Event) (reading : Reading)
    → map token_of rest ≡ reading.tokens
    → map token_of (events_on r t span rest) ≡ (read_on r t reading).tokens
unfolding read_on
same_tokens success eof span rest reading e = refl
same_tokens success t span rest reading e = ap (◌∷◌ t) e
same_tokens r t span rest reading e = refl

read_events-read_tokens :
    (cfg : Config) (src : Source) (calls : ℕ) (s : Stream)
    → map token_of (read_events cfg src calls s) ≡ (read_tokens cfg src calls s).tokens
unfolding read_events read_tokens
read_events-read_tokens cfg src zero s = refl
read_events-read_tokens cfg src (suc calls) s =
    let r = judo_scan cfg src s in
    same_tokens r.result r.stream.token r.stream.where_at _ _
      (read_events-read_tokens cfg src calls r.stream)

module _ (cfg : Config) (src : Source) (available : ℕ → Bool) (bytes : IsBytes src.string)
    (short : is_too_long cfg src.length ≡ false) where
  -- Where the text is of bytes and shorter than the maximum, the stack has an entry at least, more calls
  -- of the scanner are allowed than the first position `n` behind the text, and a call of `judo_parse`
  -- succeeds, the memory holds one tree whose tokens are those of one JSON value, well nested.
  pub judo_parse-IsValue :
      (n calls : ℕ) (error : Option JudoError) (p : Parsed)
      → 0 < cfg.maxdepth
      → ¬ IsText src.length src.string n
      → n < calls
      → judo_parse cfg src available calls error ≡ some p
      → p.result ≡ success
      → (t : Node Part.value) × (p.heap ≡ layout 0 none t) × IsValue (map token_of (events t))
  judo_parse-IsValue n calls error p depth end enough e ok =
      by_outcome (judo_parse-Parses cfg src available bytes short n calls error depth end enough)
    where
      same : {q : Parsed} → judo_parse cfg src available calls error ≡ some q → some p ≡ some q
      same e' = sym e ∙ e'

      heap_of : {q : Parsed} → some p ≡ some q → p.heap ≡ q.heap
      heap_of h = cc

      result_of : {q : Parsed} → some p ≡ some q → p.result ≡ q.result
      result_of h = cc

      by_outcome :
          Parses cfg src available calls error (judo_parse cfg src available calls error)
          → (t : Node Part.value) × (p.heap ≡ layout 0 none t) × IsValue (map token_of (events t))
      by_outcome (built t le ev read e') = (
        t,
        heap_of (same e'),
        subst IsValue
            (sym (
              ap (map token_of) ev
              ∙ read_events-read_tokens cfg src calls (zero_stream cfg.maxdepth)))
            (read_tokens-IsValue cfg src bytes short calls depth read),
      )
      by_outcome (failed r s m ne why e') = absurd (ne (sym (result_of (same e')) ∙ ok))
