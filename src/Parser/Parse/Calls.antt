-- ===== src/Parser/Parse/Calls.antt =====
-- The calls of `judo_scan` in the loop of `judo_parse`, src/judo_parse.c.
use judo.Api.{
  Config, JudoResult, JudoToken, ScanState, Span, Stream, success, eof, finished_parsing_value,
}
use judo.Base.{
  ℕ, zero, suc, ◌≤◌, ◌≡◌, ◌≢◌, refl, ap, arith, Bool, true, false, some, List, [], ◌∷◌, length,
}
use judo.Parser.{◌>>=◌}
use judo.Parser.Build.{Context, process_value}
use judo.Parser.Build.Matches.{Matches, start, opened, behind, done, Top}
use judo.Parser.Parse.{goes_on, process_scanned}
use judo.Parser.Tree.{Node, Event}
use judo.Parser.Tree.Zipper.{Site, finished}
use judo.Scanner.Grammar.{Part}
use judo.Scanner.Moves.{InArray, InObject}
use judo.Scanner.Reader.{read_tokens, read_token, read_failure, read_end}
use judo.Scanner.Scan.{judo_scan}
use judo.Scanner.Stack.{IsValid, frames, below}
use judo.Utf8.{Source}

-- The tokens that `judo_scan` reports from a stream on, with their spans, in so many calls at most, up
-- to the end of the text or an error.
abbrev pub events_on : JudoResult → JudoToken → Span → List Event → List Event
events_on success eof span rest = []
events_on success t span rest = (t, span) ∷ rest
events_on r t span rest = []

unfoldable pub read_events : Config → Source → ℕ → Stream → List Event
read_events cfg src zero s = []
read_events cfg src (suc calls) s =
    let r = judo_scan cfg src s in
    let rest = read_events cfg src calls r.stream in
    events_on r.result r.stream.token r.stream.where_at rest

pub events_token :
    (r : JudoResult) (t : JudoToken) (span : Span) (rest : List Event)
    → r ≡ success
    → t ≢ eof
    → events_on r t span rest ≡ (t, span) ∷ rest
events_token success eof span rest e n = absurd (n refl)
events_token success t span rest e n = refl
events_token r t span rest e n = cc

pub events_end :
    (r : JudoResult) (t : JudoToken) (span : Span) (rest : List Event)
    → r ≡ success
    → t ≡ eof
    → events_on r t span rest ≡ []
events_end r t span rest e h = rw (e, h) refl

pub process_scanned_failure :
    (maxdepth : ℕ) (available : ℕ → Bool) (r : JudoResult) (s : Stream) (ctx : Context)
    → r ≢ success
    → process_scanned maxdepth available r s ctx
      ≡ some (record { result = r; stream = s; context = ctx })
unfolding process_scanned
process_scanned_failure maxdepth available success s ctx n = absurd (n refl)
process_scanned_failure maxdepth available r s ctx n = refl

pub goes_on_failure : (r : JudoResult) (t : JudoToken) → r ≢ success → goes_on r t ≡ false
goes_on_failure success t n = absurd (n refl)
goes_on_failure r t n = refl

pub goes_on_token : (t : JudoToken) → t ≢ eof → goes_on success t ≡ true
goes_on_token eof n = absurd (n refl)
goes_on_token t n = refl

length-below : (xs : List ScanState) (n : ℕ) → length (below xs n) ≡ n
length-below xs zero = refl
length-below xs (suc n) = ap suc (length-below xs n)

pub length-frames : (cfg : Config) (s : Stream) → IsValid cfg s → length (frames s) ≤ cfg.maxdepth
length-frames cfg s v = omega (arith, length-below s.s_state s.s_stack, v.fits)

pub process_scanned_success :
    (maxdepth : ℕ) (available : ℕ → Bool) (r c : JudoResult) (s : Stream) (ctx ctx' : Context)
    → r ≡ success
    → process_value maxdepth available s.token s.where_at ctx ≡ some (c, ctx')
    → process_scanned maxdepth available r s ctx
      ≡ some (record { result = c; stream = s; context = ctx' })
unfolding process_scanned
process_scanned_success maxdepth available r c s ctx ctx' e h = rw e (rw (h, ◌>>=◌) refl)

pub process_value_end :
    (maxdepth : ℕ) (available : ℕ → Bool) (t : JudoToken) (span : Span) (ctx : Context)
    → t ≡ eof
    → process_value maxdepth available t span ctx ≡ some (success, ctx)
unfolding process_value
process_value_end maxdepth available t span ctx e = rw e refl

array_unfinished :
    {x : ScanState} {xs ys : List ScanState} → InArray x → x ∷ xs ≢ finished_parsing_value ∷ ys
array_unfinished InArray.first e = cc
array_unfinished InArray.later e = cc

object_unfinished :
    {x : ScanState} {xs ys : List ScanState} → InObject x → x ∷ xs ≢ finished_parsing_value ∷ ys
object_unfinished InObject.first e = cc
object_unfinished InObject.later e = cc

pub Matches-finished :
    {xs : List ScanState} {site : Site}
    → xs ≡ finished_parsing_value ∷ []
    → Matches xs site
    → (t : Node Part.value) × (site ≡ finished t)
Matches-finished e start = cc
Matches-finished e (opened (Top.array i) b) = absurd (array_unfinished i e)
Matches-finished e (opened (Top.object i) b) = absurd (object_unfinished i e)
Matches-finished e (opened Top.named b) = cc
Matches-finished e (behind top b) = cc
Matches-finished e (done {t}) = (t, refl)

module _ (cfg : Config) (src : Source) where
  pub read_tokens-goes_on :
      (calls : ℕ) (s : Stream)
      → (judo_scan cfg src s).result ≡ success
      → (judo_scan cfg src s).stream.token ≢ eof
      → (read_tokens cfg src (suc calls) s).result
        ≡ (read_tokens cfg src calls (judo_scan cfg src s).stream).result
  unfolding read_tokens
  read_tokens-goes_on calls s ok n = ap (λ r. r.result) (read_token _ _ _ ok n)

  pub read_events-goes_on :
      (calls : ℕ) (s : Stream)
      → (judo_scan cfg src s).result ≡ success
      → (judo_scan cfg src s).stream.token ≢ eof
      → read_events cfg src (suc calls) s
        ≡ ((judo_scan cfg src s).stream.token, (judo_scan cfg src s).stream.where_at)
          ∷ read_events cfg src calls (judo_scan cfg src s).stream
  unfolding read_events
  read_events-goes_on calls s ok n = events_token _ _ _ _ ok n

  pub read_tokens-failure :
      (calls : ℕ) (s : Stream)
      → (judo_scan cfg src s).result ≢ success
      → (read_tokens cfg src (suc calls) s).result ≡ some (judo_scan cfg src s).result
  unfolding read_tokens
  read_tokens-failure calls s n = ap (λ r. r.result) (read_failure _ _ _ n)

  pub read_tokens-end :
      (calls : ℕ) (s : Stream)
      → (judo_scan cfg src s).result ≡ success
      → (judo_scan cfg src s).stream.token ≡ eof
      → (read_tokens cfg src (suc calls) s).result ≡ some success
  unfolding read_tokens
  read_tokens-end calls s ok e = ap (λ r. r.result) (read_end _ _ _ ok e)
