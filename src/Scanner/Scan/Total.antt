-- ===== src/Scanner/Scan/Total.antt =====
-- src/judo_scan.c: how a call of `judo_scan` ends, put together from the cases of its routines.
use mathlib.Core.Path.{subst}
use judo.Api.{
  Config, JudoResult, ScanState, Stream, finished_parsing_value, finished_parsing_array_element,
  eof, finished_parsing_object_value, finished_parsing,
}
use judo.Base.{ℕ, zero, suc, ◌≡◌, ◌≢◌, refl, sym, ap, ◌∙◌, arith, List, [], ◌∷◌, false}
use judo.Lexer.Failure.{
  Failure, Token, TokenTag, bad_syntax, bad_encoding, bad_input_size, max_nesting_depth, report,
  result_of,
}
use judo.Lexer.Peek.{Scanner, Outcome, peek}
use judo.Lexer.Peek.Bounds.{Peeks, peek-Peeks}
use judo.Scanner.{top_state, enter, yield_token, fail_here}
use judo.Scanner.Moves.{Step, Waits}
use judo.Scanner.Outcomes.{broken, bind_done, bind_stopped}
use judo.Scanner.Scan.{
  Scanned, save_index, run_state, pop_stack, pop_finished, expect_eof, scan_popped, judo_scan,
  is_too_long,
}
use judo.Scanner.Scan.Cases.{
  Scans, reports, ends, idles, fails, repeats, Fails, Repeats, at_index, report-Fails,
  run_state-Scans,
}
use judo.Scanner.Stack.{IsValid, frames, stored-IsValid, frames-entered, top_state-entered}
use judo.Utf8.{Source}
use judo.Utf8.Sound.{IsBytes}
use judo.Utf8.Text.{Spans, Spans-refl}

abbrev popped : ℕ → Stream → Stream
popped d s = record s { s_stack = d }

popped-IsValid :
    (cfg : Config) (s : Stream) (d : ℕ)
    → IsValid cfg s
    → s.s_stack ≡ suc d
    → IsValid cfg (popped d s) × Waits (top_state (popped d s))
popped-IsValid cfg s d v e =
    let w = rw e at v.waiting in
    (record { size = v.size; fits = omega (arith, v.fits); waiting = w.1 }, w.0)

report_same : (e : Failure) (s : Stream) → record (report e s) { s_at = s.s_at } ≡ report e s
unfolding report
report_same (bad_syntax c l m) s = refl
report_same (bad_encoding c l) s = refl
report_same bad_input_size s = refl
report_same (max_nesting_depth i) s = refl

Waits-ne : {x : ScanState} → Waits x → (x ≢ finished_parsing) × (x ≢ finished_parsing_value)
Waits-ne Waits.in_array = (cc, cc)
Waits-ne Waits.in_object = (cc, cc)

Waits-no_repeat : {x : ScanState} {r : JudoResult} → Waits x → ¬ Repeats x r
Waits-no_repeat Waits.in_array h = no_array h refl
  where
    no_array : {x : ScanState} {r : JudoResult} → Repeats x r → x ≢ finished_parsing_array_element
    no_array Repeats.syntax e = cc
    no_array Repeats.encoding e = cc
    no_array Repeats.nesting e = cc
Waits-no_repeat Waits.in_object h = no_object h refl
  where
    no_object : {x : ScanState} {r : JudoResult} → Repeats x r → x ≢ finished_parsing_object_value
    no_object Repeats.syntax e = cc
    no_object Repeats.encoding e = cc
    no_object Repeats.nesting e = cc

expect_eof-refuses :
    (tag : TokenTag) (token : Token) (sc : Scanner)
    → tag ≢ TokenTag.eof
    → expect_eof tag token sc ≡ broken (bad_syntax sc.index 1 "expected EOF") sc.index sc.stream
unfolding expect_eof fail_here
expect_eof-refuses TokenTag.eof token sc n = absurd (n refl)
expect_eof-refuses _ token sc n = refl

module _ (cfg : Config) (src : Source) (bytes : IsBytes src.string) where
  scanned_as :
      {s : Stream} {o o' : Outcome (Unit {0})}
      → o ≡ o'
      → Scans cfg src s (scan_popped cfg src o')
      → Scans cfg src s (scan_popped cfg src o)
  scanned_as e h = rw e h

  report-Scans :
      (e : Failure) (s : Stream)
      → IsValid cfg s
      → Scans cfg src s (record { result = result_of e; stream = report e s })
  report-Scans e s v = fails e refl (
      subst (Fails cfg src s e) (report_same e s)
        (report-Fails cfg src e s s s.s_at v (Spans-refl src s.s_at)))

  -- A finished value was popped, so the call goes on in the value around it.
  popped-Scans :
      (s : Stream) (d : ℕ) (r : Scanned)
      → IsValid cfg s
      → top_state s ≡ finished_parsing_value
      → s.s_stack ≡ suc d
      → Scans cfg src (popped d s) r
      → Scans cfg src s r
  popped-Scans s d r v t e (reports ok p) = reports ok (record {
    step =
        subst (λ (xs : List ScanState). Step xs r.stream.token (frames r.stream))
          (sym (frames_popped t e)) (Step.pops p.step);
    valid = p.valid;
    before = p.before;
    within = p.within;
    behind = p.behind;
    some_length = p.some_length;
  })
    where
      frames_popped :
          top_state s ≡ finished_parsing_value
          → s.s_stack ≡ suc d
          → frames s ≡ finished_parsing_value ∷ frames (popped d s)
      frames_popped t e = rw (t, e) refl
  popped-Scans s d r v t e (ends ok p) =
      absurd ((Waits-ne (popped-IsValid cfg s d v e).1).1 (head_of p.finished))
    where
      head_of :
          frames (popped d s) ≡ finished_parsing_value ∷ []
          → top_state (popped d s) ≡ finished_parsing_value
      head_of h = cc
  popped-Scans s d r v t e (idles ok i p) = absurd ((Waits-ne (popped-IsValid cfg s d v e).1).0 i)
  popped-Scans s d r v t e (fails f ok p) =
      fails f ok
        (record { valid = p.valid; state = p.state; no_token = p.no_token; before = p.before })
  popped-Scans s d r v t e (repeats h p) = absurd (Waits-no_repeat (popped-IsValid cfg s d v e).1 h)

  -- The end of the text was read behind the root value.
  finished_Scans :
      (s : Stream) (token : Token)
      → IsValid cfg s
      → top_state s ≡ finished_parsing_value
      → s.s_stack ≡ 0
      → token.lexeme_length ≡ 0
      → Spans src s.s_at token.lexeme
      → Scans cfg src s (
          scan_popped cfg src
            (expect_eof TokenTag.eof token (record { index = token.lexeme; stream = s })))
  unfolding scan_popped expect_eof enter yield_token save_index run_state
  finished_Scans s token v t z n sp = rw (top_state-entered cfg s finished_parsing v) (
      ends refl (record {
        finished = rw (t, z) refl;
        frames_after = frames-entered cfg s finished_parsing v ∙ rw z refl;
        valid = at_index (stored-IsValid cfg s eof finished_parsing token v);
        token_is = refl;
        before = sp;
        behind = refl;
        no_length = n;
      }))

  -- The text was read behind the root value.
  at_end_Scans :
      (s : Stream)
      → IsValid cfg s
      → top_state s ≡ finished_parsing_value
      → s.s_stack ≡ 0
      → Peeks src
          (record { index = s.s_at; stream = s })
          (peek cfg src (record { index = s.s_at; stream = s }))
      → Scans cfg src s
          (scan_popped cfg src (pop_finished cfg src 0 (record { index = s.s_at; stream = s })))
  unfolding scan_popped pop_finished
  at_end_Scans s v t z (Peeks.fails e j h sp) =
      scanned_as (bind_stopped (peek cfg src) (λ token. expect_eof token.type token) h)
        (report-Scans e s v)
  at_end_Scans s v t z (Peeks.real token h k sp w n) =
      scanned_as
        (bind_done (peek cfg src) (λ token. expect_eof token.type token) h
          ∙ expect_eof-refuses token.type token _ k)
        (report-Scans (bad_syntax token.lexeme 1 "expected EOF") s v)
  at_end_Scans s v t z (Peeks.ends token h k n e sp) =
      scanned_as
        (bind_done (peek cfg src) (λ token. expect_eof token.type token) h
          ∙ ap (λ tag. expect_eof tag token (record { index = token.lexeme; stream = s })) k)
        (finished_Scans s token v t z n sp)

  finished_value_Scans :
      (s : Stream)
      → IsValid cfg s
      → top_state s ≡ finished_parsing_value
      → (d : ℕ) → s.s_stack ≡ d
      → Scans cfg src s
          (scan_popped cfg src (pop_finished cfg src d (record { index = s.s_at; stream = s })))
  unfolding scan_popped pop_finished
  finished_value_Scans s v t zero z =
      at_end_Scans s v t z (peek-Peeks cfg src bytes (record { index = s.s_at; stream = s }))
  finished_value_Scans s v t (suc d) z =
      let p = popped-IsValid cfg s d v z in
      popped-Scans s d _ v t z (
        run_state-Scans cfg src bytes (popped d s) p.0 (Waits-ne p.1).1 (top_state (popped d s))
          refl)

  -- A call with a valid stream and a text of bytes, whose stated length is below the maximum, ends in
  -- one of the cases of `Scans`. It reports a token, which moves the stack by a step of the grammar
  -- and stands in the text behind the old position; it reports the end of the text, which only a
  -- finished root value allows; it does nothing, the end having been reported before; it reports an
  -- error, which leaves the stream valid and in the state of that error; or it repeats an error.
  pub judo_scan-Scans :
      (s : Stream)
      → IsValid cfg s
      → is_too_long cfg src.length ≡ false
      → Scans cfg src s (judo_scan cfg src s)
  unfolding judo_scan pop_stack scan_popped
  judo_scan-Scans s v short = rw short (by_state (top_state s) refl)
    where
      by_state :
          (x : ScanState)
          → top_state s ≡ x
          → Scans cfg src s
              (scan_popped cfg src (pop_stack cfg src x (record { index = s.s_at; stream = s })))
      by_state finished_parsing_value t = finished_value_Scans s v t s.s_stack refl
      by_state x t = run_state-Scans cfg src bytes s v (λ h. cc) (top_state s) refl
