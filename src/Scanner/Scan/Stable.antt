-- ===== src/Scanner/Scan/Stable.antt =====
-- What `judo_scan` does when it is called again behind an error or the end of the text, and the
-- invariant of the stream over every call.
use judo.Api.{
  Config, JudoResult, ScanState, Stream, success, illegal_byte_sequence, input_too_large,
  finished_parsing, eof,
}
use judo.Base.{
  ◌≤◌, ◌<◌, ◌^◌, arith, ◌≡◌, ◌≢◌, inl, inr, refl, sym, ap, ◌∙◌, [], ◌∷◌, false, Bool-cases,
}
use judo.Lexer.Failure.{
  Failure, bad_syntax, bad_encoding, bad_input_size, max_nesting_depth, result_of,
}
use judo.Scanner.{top_state}
use judo.Scanner.Scan.{
  Scanned, save_index, run_state, pop_stack, scan_popped, judo_scan, is_too_long,
}
use judo.Scanner.Scan.Cases.{
  Scans, reports, ends, idles, fails, repeats, Repeats, error_state, reported-IsValid,
}
use judo.Scanner.Scan.Total.{judo_scan-Scans}
use judo.Scanner.Grammar.{Step-no_eof}
use judo.Scanner.Stack.{IsValid, frames}
use judo.Utf8.{Source}
use judo.Utf8.Sound.{IsBytes}

-- The result code of the call behind the one that returned this code.
abbrev pub repeated : JudoResult → JudoResult
repeated input_too_large = illegal_byte_sequence
repeated r = r

module _ (cfg : Config) (src : Source) where
  Repeats-state :
      (s : Stream) (x : ScanState) (r : JudoResult)
      → is_too_long cfg src.length ≡ false
      → top_state s ≡ x
      → Repeats x r
      → judo_scan cfg src s ≡ record { result = r; stream = s }
  unfolding judo_scan scan_popped pop_stack save_index run_state
  Repeats-state s x r short t Repeats.syntax = rw (short, t) (rw t refl)
  Repeats-state s x r short t Repeats.encoding = rw (short, t) (rw t refl)
  Repeats-state s x r short t Repeats.nesting = rw (short, t) (rw t refl)

  finished_state :
      (s : Stream)
      → is_too_long cfg src.length ≡ false
      → top_state s ≡ finished_parsing
      → judo_scan cfg src s ≡ record { result = success; stream = s }
  unfolding judo_scan scan_popped pop_stack save_index run_state
  finished_state s short t = rw (short, t) (rw t refl)

  error_state-Repeats : (e : Failure) → Repeats (error_state e) (repeated (result_of e))
  unfolding result_of
  error_state-Repeats (bad_syntax c l m) = Repeats.syntax
  error_state-Repeats (bad_encoding c l) = Repeats.encoding
  error_state-Repeats bad_input_size = Repeats.encoding
  error_state-Repeats (max_nesting_depth i) = Repeats.nesting

  pub result_of-ne : (e : Failure) → result_of e ≢ success
  unfolding result_of
  result_of-ne (bad_syntax c l m) = cc
  result_of-ne (bad_encoding c l) = cc
  result_of-ne bad_input_size = cc
  result_of-ne (max_nesting_depth i) = cc

  repeated_again : {x : ScanState} {r : JudoResult} → Repeats x r → repeated r ≡ r
  repeated_again Repeats.syntax = refl
  repeated_again Repeats.encoding = refl
  repeated_again Repeats.nesting = refl

  pub Repeats-ne : {x : ScanState} {r : JudoResult} → Repeats x r → r ≢ success
  Repeats-ne Repeats.syntax = cc
  Repeats-ne Repeats.encoding = cc
  Repeats-ne Repeats.nesting = cc

  failed_again :
      (s : Stream) (r : Scanned)
      → is_too_long cfg src.length ≡ false
      → Scans cfg src s r
      → r.result ≢ success
      → judo_scan cfg src r.stream ≡ record { result = repeated r.result; stream = r.stream }
  failed_again s r short (reports ok p) n = absurd (n ok)
  failed_again s r short (ends ok p) n = absurd (n ok)
  failed_again s r short (idles ok i p) n = absurd (n ok)
  failed_again s r short (fails e c p) n =
      rw c (Repeats-state r.stream (error_state e) _ short p.state (error_state-Repeats e))
  failed_again s r short (repeats h p) n =
      rw (repeated_again h) (Repeats-state r.stream (top_state s) _ short (ap top_state p) h)

  -- Where a call with a valid stream and a text of bytes, whose stated length is below the maximum,
  -- fails, another call leaves the stream as it is and returns the same code, but for the code of a
  -- text that is too large: the next call returns that of an illegal byte sequence.
  pub judo_scan_failed_again :
      (s : Stream)
      → IsBytes src.string
      → IsValid cfg s
      → is_too_long cfg src.length ≡ false
      → (judo_scan cfg src s).result ≢ success
      → judo_scan cfg src (judo_scan cfg src s).stream ≡ record {
        result = repeated (judo_scan cfg src s).result;
        stream = (judo_scan cfg src s).stream;
      }
  judo_scan_failed_again s bytes v short n =
      failed_again s _ short (judo_scan-Scans cfg src bytes s v short) n

  ended_again :
      (s : Stream) (r : Scanned)
      → is_too_long cfg src.length ≡ false
      → Scans cfg src s r
      → r.result ≡ success
      → r.stream.token ≡ eof
      → judo_scan cfg src r.stream ≡ record { result = success; stream = r.stream }
  ended_again s r short (reports ok p) c t = absurd (Step-no_eof p.step t)
  ended_again s r short (ends ok p) c t = finished_state r.stream short (head_of p.frames_after)
    where
      head_of : frames r.stream ≡ finished_parsing ∷ [] → top_state r.stream ≡ finished_parsing
      head_of h = cc
  ended_again s r short (idles ok i p) c t = finished_state r.stream short (ap top_state p ∙ i)
  ended_again s r short (fails e k p) c t = absurd (result_of-ne e (sym k ∙ c))
  ended_again s r short (repeats h p) c t = absurd (Repeats-ne h c)

  -- Where a call with a valid stream and a text of bytes, whose stated length is below the maximum,
  -- succeeds with the end of the text, another call succeeds and leaves the stream as it is.
  pub judo_scan_ended_again :
      (s : Stream)
      → IsBytes src.string
      → IsValid cfg s
      → is_too_long cfg src.length ≡ false
      → (judo_scan cfg src s).result ≡ success
      → (judo_scan cfg src s).stream.token ≡ eof
      → judo_scan cfg src (judo_scan cfg src s).stream
        ≡ record { result = success; stream = (judo_scan cfg src s).stream }
  judo_scan_ended_again s bytes v short ok t =
      ended_again s _ short (judo_scan-Scans cfg src bytes s v short) ok t

  kept_IsValid :
      (s : Stream) → IsBytes src.string → IsValid cfg s → IsValid cfg (judo_scan cfg src s).stream
  unfolding judo_scan
  kept_IsValid s bytes v = elim (Bool-cases (is_too_long cfg src.length)) [
    | inl long ↦ rw long (reported-IsValid cfg src bad_input_size s v)
    | inr short ↦ of_case s _ v (judo_scan-Scans cfg src bytes s v short)
  ]
    where
      of_case :
          (s : Stream) (r : Scanned) → IsValid cfg s → Scans cfg src s r → IsValid cfg r.stream
      of_case s r v (reports ok p) = p.valid
      of_case s r v (ends ok p) = p.valid
      of_case s r v (idles ok i p) = rw p v
      of_case s r v (fails e c p) = p.valid
      of_case s r v (repeats h p) = rw p v

  -- In a build of at most 128 levels, a call leaves a valid stream valid, whatever it returns: the
  -- stack of states fits its array of `maxdepth` entries, the states below the top are those of arrays
  -- and objects that wait, and the index of the top is a value of the `int8_t` that holds it.
  pub judo_scan-IsValid :
      cfg.maxdepth ≤ 128
      → (s : Stream) → IsBytes src.string
      → IsValid cfg s
      → IsValid cfg (judo_scan cfg src s).stream × ((judo_scan cfg src s).stream.s_stack < 2 ^ 7)
  judo_scan-IsValid small s bytes v =
      let kept = kept_IsValid s bytes v in (kept, omega (arith, kept.fits))
