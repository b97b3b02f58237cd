-- ===== src/Parser/Parse/Loop.antt =====
-- The loop of `judo_parse` in src/judo_parse.c, against the tokens that `judo_scan` reports.
use mathlib.Core.Path.{subst}
use judo.Api.{Config, JudoResult, ScanState, Stream, success, eof, out_of_memory, finished_parsing}
use judo.Base.{
  ℕ, zero, suc, ◌-◌, ◌≤◌, ◌<◌, ◌≡◌, ◌≢◌, refl, sym, ◌∙◌, arith, Bool, true, false, Option, some,
  List, [], ◌∷◌, ◌++◌, append-nil, append_assoc,
}
use judo.Parser.{◌>>=◌}
use judo.Parser.Build.{Context, process_value}
use judo.Parser.Build.Advance.{Step-Processes}
use judo.Parser.Build.Heights.{Fits}
use judo.Parser.Build.Matches.{Matches, site_events}
use judo.Parser.Build.Steps.{Processes, makes, lacks}
use judo.Parser.Parse.Calls.{
  events_end, process_scanned_failure, goes_on_failure, goes_on_token, length-frames,
  process_scanned_success, process_value_end, Matches-finished, read_events, read_tokens-goes_on,
  read_events-goes_on, read_tokens-failure, read_tokens-end,
}
use judo.Parser.Parse.{Ended, goes_on, process_scanned, parse_round, parse_loop}
use judo.Parser.Tree.{Node, Event, events, height}
use judo.Parser.Tree.Zipper.{Site, finished, context_of}
use judo.Scanner.{top_state}
use judo.Scanner.Grammar.{Part, Step-no_eof}
use judo.Scanner.Reader.{Readable, read_tokens, Reports-Readable, Spans_end}
use judo.Scanner.Scan.{judo_scan, is_too_long}
use judo.Scanner.Scan.Cases.{Scans, reports, ends, idles, fails, repeats, Reports}
use judo.Scanner.Scan.Stable.{result_of-ne, Repeats-ne}
use judo.Scanner.Scan.Total.{judo_scan-Scans}
use judo.Scanner.Stack.{frames}
use judo.Utf8.{Source}
use judo.Utf8.Sound.{IsBytes}
use judo.Utf8.Text.{IsText, Spans-trans}

pub data Reason (cfg : Config) (src : Source) (available : ℕ → Bool) (calls : ℕ) (s : Stream)
    (r : JudoResult) : Type 0 where
  refused : (k : ℕ) → available k ≡ false → r ≡ out_of_memory → Reason cfg src available calls s r
  scanned : (read_tokens cfg src calls s).result ≡ some r → Reason cfg src available calls s r

-- The loop ends behind a whole tree of the tokens, or with a failure and what was built.
pub data Loops (cfg : Config) (src : Source) (available : ℕ → Bool) (site : Site) (s : Stream)
    (calls : ℕ) (o : Option Ended) : Type 0 where
  completes :
      (t : Node Part.value) (s' : Stream)
      → height t ≤ cfg.maxdepth
      → events t ≡ site_events site ++ read_events cfg src calls s
      → (read_tokens cfg src calls s).result ≡ some success
      → o ≡ some (record { result = success; stream = s'; context = context_of (finished t) })
      → Loops cfg src available site s calls o
  stops :
      (r : JudoResult) (s' : Stream) (xs : List ScanState) (site' : Site)
      → r ≢ success
      → Matches xs site'
      → Fits cfg.maxdepth site'
      → Reason cfg src available calls s r
      → o ≡ some (record { result = r; stream = s'; context = context_of site' })
      → Loops cfg src available site s calls o

module _ (cfg : Config) (src : Source) (available : ℕ → Bool) where
  round_goes_on :
      (calls : ℕ) (s : Stream) (ctx : Context) (e : Ended)
      → process_scanned cfg.maxdepth available
          (judo_scan cfg src s).result
          (judo_scan cfg src s).stream
          ctx
        ≡ some e
      → goes_on e.result e.stream.token ≡ true
      → parse_loop cfg src available (suc calls) s ctx
        ≡ parse_loop cfg src available calls e.stream e.context
  unfolding parse_loop parse_round
  round_goes_on calls s ctx e h g = rw (h, ◌>>=◌) (rw g refl)

  round_stops :
      (calls : ℕ) (s : Stream) (ctx : Context) (e : Ended)
      → process_scanned cfg.maxdepth available
          (judo_scan cfg src s).result
          (judo_scan cfg src s).stream
          ctx
        ≡ some e
      → goes_on e.result e.stream.token ≡ false
      → parse_loop cfg src available (suc calls) s ctx ≡ some e
  unfolding parse_loop parse_round
  round_stops calls s ctx e h g = rw (h, ◌>>=◌) (rw g refl)

  -- A token that was put into the tree, before the calls that follow.
  Loops-before :
      (site site' : Site) (s s' : Stream) (calls : ℕ) (event : Event) (o o' : Option Ended)
      → site_events site' ≡ site_events site ++ (event ∷ [])
      → read_events cfg src (suc calls) s ≡ event ∷ read_events cfg src calls s'
      → (read_tokens cfg src (suc calls) s).result ≡ (read_tokens cfg src calls s').result
      → o ≡ o'
      → Loops cfg src available site' s' calls o'
      → Loops cfg src available site s (suc calls) o
  Loops-before site site' s s' calls event o o' e r h q (completes t s'' le ev ok p) =
      completes t s'' le
        (ev
          ∙ rw (e, r) (append_assoc (site_events site) (event ∷ []) (read_events cfg src calls s')))
        (h ∙ ok) (q ∙ p)
  Loops-before site site' s s' calls event o o' e r h q
        (stops c s'' xs site'' n m f (refused k a b) p) =
      stops c s'' xs site'' n m f (refused k a b) (q ∙ p)
  Loops-before site site' s s' calls event o o' e r h q
        (stops c s'' xs site'' n m f (scanned a) p) =
      stops c s'' xs site'' n m f (scanned (h ∙ a)) (q ∙ p)

  -- A scan that failed.
  failure-Loops :
      (site : Site) (s : Stream) (xs : List ScanState) (calls : ℕ)
      → Matches xs site
      → Fits cfg.maxdepth site
      → (judo_scan cfg src s).result ≢ success
      → Loops cfg src available site s
          (suc calls)
          (parse_loop cfg src available (suc calls) s (context_of site))
  failure-Loops site s xs calls m f n =
      let r = judo_scan cfg src s in
      stops r.result r.stream xs site n m f (scanned (read_tokens-failure cfg src calls s n)) (
        round_stops calls s (context_of site) _
          (process_scanned_failure cfg.maxdepth available r.result r.stream (context_of site) n)
          (goes_on_failure r.result r.stream.token n))

  -- A scan that came to the end of the text.
  end-Loops :
      (site : Site) (s : Stream) (calls : ℕ) (t : Node Part.value)
      → site ≡ finished t
      → Fits cfg.maxdepth site
      → (judo_scan cfg src s).result ≡ success
      → (judo_scan cfg src s).stream.token ≡ eof
      → Loops cfg src available site s
          (suc calls)
          (parse_loop cfg src available (suc calls) s (context_of site))
  unfolding Fits read_events site_events
  end-Loops site s calls t e f ok at_end =
      let r = judo_scan cfg src s in
      subst
        (λ x.
          Fits cfg.maxdepth x
          → Loops cfg src available x s (suc calls)
              (parse_loop cfg src available (suc calls) s (context_of x)))
        (sym e)
        (λ le.
          completes t r.stream le
            (rw
              (events_end r.result r.stream.token r.stream.where_at
                (read_events cfg src calls r.stream) ok at_end)
              (sym (append-nil (events t))))
            (read_tokens-end cfg src calls s ok at_end)
            (round_stops calls s (context_of (finished t)) _
              (process_scanned_success cfg.maxdepth available r.result success r.stream
                (context_of (finished t)) (context_of (finished t)) ok
                (process_value_end cfg.maxdepth available r.stream.token r.stream.where_at
                  (context_of (finished t)) at_end))
              (rw at_end refl)))
        f

  -- A token that was scanned.
  token-Loops :
      (site : Site) (s : Stream) (calls : ℕ)
      → (judo_scan cfg src s).result ≡ success
      → (judo_scan cfg src s).stream.token ≢ eof
      → Matches (frames s) site
      → Fits cfg.maxdepth site
      → Processes cfg.maxdepth available
          (frames (judo_scan cfg src s).stream)
          (judo_scan cfg src s).stream.token
          (judo_scan cfg src s).stream.where_at
          site
          (process_value cfg.maxdepth available
            (judo_scan cfg src s).stream.token
            (judo_scan cfg src s).stream.where_at
            (context_of site))
      → ((site' : Site)
          → Matches (frames (judo_scan cfg src s).stream) site'
          → Fits cfg.maxdepth site'
          → Loops cfg src available site'
              (judo_scan cfg src s).stream
              calls
              (parse_loop cfg src available calls (judo_scan cfg src s).stream (context_of site')))
      → Loops cfg src available site s
          (suc calls)
          (parse_loop cfg src available (suc calls) s (context_of site))
  token-Loops site s calls ok n m f (makes site' m' ev fits p) ih =
      let r = judo_scan cfg src s in
      Loops-before site site' s r.stream calls (r.stream.token, r.stream.where_at) _ _ ev
        (read_events-goes_on cfg src calls s ok n) (read_tokens-goes_on cfg src calls s ok n)
        (round_goes_on calls s (context_of site) _
          (process_scanned_success cfg.maxdepth available r.result success r.stream
            (context_of site) (context_of site') ok p)
          (goes_on_token r.stream.token n))
        (ih site' m' (fits f))
  token-Loops site s calls ok n m f (lacks a p) ih =
      let r = judo_scan cfg src s in
      let failed : out_of_memory ≢ success = cc in
      stops out_of_memory r.stream (frames s) site failed m f (refused _ a refl) (
        round_stops calls s (context_of site) _
          (process_scanned_success cfg.maxdepth available r.result out_of_memory r.stream
            (context_of site) (context_of site) ok p)
          refl)

  scanned-Loops :
      (site : Site) (s : Stream) (calls : ℕ)
      → Scans cfg src s (judo_scan cfg src s)
      → top_state s ≢ finished_parsing
      → Matches (frames s) site
      → Fits cfg.maxdepth site
      → (Reports cfg src s (judo_scan cfg src s).stream
          → (site' : Site) → Matches (frames (judo_scan cfg src s).stream) site'
          → Fits cfg.maxdepth site'
          → Loops cfg src available site'
              (judo_scan cfg src s).stream
              calls
              (parse_loop cfg src available calls (judo_scan cfg src s).stream (context_of site')))
      → Loops cfg src available site s
          (suc calls)
          (parse_loop cfg src available (suc calls) s (context_of site))
  scanned-Loops site s calls (reports ok p) o m f ih =
      let r = judo_scan cfg src s in
      token-Loops site s calls ok (Step-no_eof p.step) m f
        (Step-Processes cfg.maxdepth available r.stream.where_at p.step m
          (length-frames cfg r.stream p.valid))
        (ih p)
  scanned-Loops site s calls (ends ok p) o m f ih =
      let (t, e) = Matches-finished p.finished m in end-Loops site s calls t e f ok p.token_is
  scanned-Loops site s calls (idles ok i p) o m f ih = absurd (o i)
  scanned-Loops site s calls (fails e c p) o m f ih =
      failure-Loops site s (frames s) calls m f (rw c (result_of-ne cfg src e))
  scanned-Loops site s calls (repeats k p) o m f ih =
      failure-Loops site s (frames s) calls m f (Repeats-ne cfg src k)

module _ (cfg : Config) (src : Source) (available : ℕ → Bool) (bytes : IsBytes src.string)
    (short : is_too_long cfg src.length ≡ false) where
  -- With more calls than there are positions left, the loop ends behind a whole tree or with a failure.
  pub parse_loop-Loops :
      (n calls : ℕ) (s : Stream) (site : Site)
      → ¬ IsText src.length src.string n
      → s.s_at ≤ n
      → n - s.s_at < calls
      → Readable cfg s
      → Matches (frames s) site
      → Fits cfg.maxdepth site
      → Loops cfg src available site s calls
          (parse_loop cfg src available calls s (context_of site))
  parse_loop-Loops n zero s site end a b p m f = absurd (omega (arith, b))
  parse_loop-Loops n (suc calls) s site end a b p m f =
      scanned-Loops cfg src available site s calls (judo_scan-Scans cfg src bytes s p.0 short) p.1 m
        f
        (λ q site' m' f'.
          let sp = Spans-trans src _ _ _ q.before q.within in
          let a' = Spans_end cfg src n s.s_at _ sp end a in
          parse_loop-Loops n calls (judo_scan cfg src s).stream site' end (rw q.behind a')
            (omega (arith, q.behind, q.some_length, q.before.ordered, a', a, b))
            (Reports-Readable cfg src s _ q) m' f')
