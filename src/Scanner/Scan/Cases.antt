-- ===== src/Scanner/Scan/Cases.antt =====
-- How a call of `judo_scan` may end, over every text and every valid stream.
use mathlib.Core.Path.{subst}
use judo.Api.{
  Config, JudoResult, JudoToken, ScanState, Stream, success, root_value, finished_parsing_value,
  parse_array_end_or_array_element, finished_parsing_array_element, invalid, eof,
  parse_object_key_or_object_end, parse_object_value, finished_parsing_object_value, parsing_error,
  encoding_error, max_nesting_error, finished_parsing, illegal_byte_sequence, maximum_nesting,
}
use judo.Base.{ℕ, ◌+◌, ◌-◌, ◌<◌, ◌≡◌, ◌≢◌, refl, sym, ap, ◌∙◌, [], ◌∷◌, length}
use judo.Lexer.Failure.{
  Failure, bad_syntax, bad_encoding, bad_input_size, max_nesting_depth, report, result_of,
}
use judo.Lexer.Peek.{Outcome}
use judo.Scanner.{top_state}
use judo.Scanner.Moves.{Step, Stays, Opens, Waits, InArray, InObject}
use judo.Scanner.Outcomes.Arrays.{continue_array-Leads, parse_array_element_or_array_end-Leads}
use judo.Scanner.Outcomes.Objects.{begin_member-Leads, continue_member-Leads, continue_object-Leads}
use judo.Scanner.Outcomes.Roots.{parse_root-Leads}
use judo.Utf8.Sound.{IsBytes}
use judo.Scanner.Outcomes.{
  Leads, stays, opens, breaks, Partway, unchanged, changed, pushed, entered, deeper,
}
use judo.Scanner.Scan.{Scanned, save_index, run_state}
use judo.Scanner.Stack.{
  IsValid, frames, entered-IsValid, deeper-IsValid, stored-IsValid, frames-entered,
  top_state-entered, below-deeper,
}
use judo.Utf8.{Source}
use judo.Utf8.Text.{Spans}

-- A token was reported: the stack made a step, and the token lies behind the last position.
pub record Reports (cfg : Config) (src : Source) (s s' : Stream) : Type 0 where
  pub step : Step (frames s) s'.token (frames s')
  pub valid : IsValid cfg s'
  pub before : Spans src s.s_at s'.where_at.offset
  pub within : Spans src s'.where_at.offset (s'.where_at.offset + s'.where_at.length)
  pub behind : s'.s_at ≡ s'.where_at.offset + s'.where_at.length
  pub some_length : 0 < s'.where_at.length

-- The state that an error leaves.
abbrev pub error_state : Failure → ScanState
error_state (bad_syntax cursor length msg) = parsing_error
error_state (bad_encoding cursor length) = encoding_error
error_state bad_input_size = encoding_error
error_state (max_nesting_depth index) = max_nesting_error

-- An error was reported.
pub record Fails (cfg : Config) (src : Source) (s : Stream) (e : Failure) (s' : Stream)
    : Type 0 where
  pub valid : IsValid cfg s'
  pub state : top_state s' ≡ error_state e
  pub no_token : s'.token ≡ invalid
  pub before : Spans src s.s_at s'.s_at

-- The position is no part of the invariant.
pub at_index :
    {cfg : Config} {s : Stream} {i : ℕ} → IsValid cfg s → IsValid cfg (record s { s_at = i })
at_index v = record { size = v.size; fits = v.fits; waiting = v.waiting }

module _ (cfg : Config) (src : Source) where
  pub reported-IsValid : (e : Failure) (s : Stream) → IsValid cfg s → IsValid cfg (report e s)
  unfolding report
  reported-IsValid (bad_syntax c l m) s v =
      let w = entered-IsValid cfg s parsing_error v in
      record { size = w.size; fits = w.fits; waiting = w.waiting }
  reported-IsValid (bad_encoding c l) s v =
      let w = entered-IsValid cfg s encoding_error v in
      record { size = w.size; fits = w.fits; waiting = w.waiting }
  reported-IsValid bad_input_size s v =
      let w = entered-IsValid cfg s encoding_error v in
      record { size = w.size; fits = w.fits; waiting = w.waiting }
  reported-IsValid (max_nesting_depth i) s v =
      let w = entered-IsValid cfg s max_nesting_error v in
      record { size = w.size; fits = w.fits; waiting = w.waiting }

  pub report-Fails :
      (e : Failure) (s₀ s : Stream) (i : ℕ)
      → IsValid cfg s
      → Spans src s₀.s_at i
      → Fails cfg src s₀ e (record (report e s) { s_at = i })
  unfolding report
  report-Fails (bad_syntax c l m) s₀ s i v sp = record {
    valid = at_index (reported-IsValid (bad_syntax c l m) s v);
    state = top_state-entered cfg s parsing_error v;
    no_token = refl;
    before = sp;
  }
  report-Fails (bad_encoding c l) s₀ s i v sp = record {
    valid = at_index (reported-IsValid (bad_encoding c l) s v);
    state = top_state-entered cfg s encoding_error v;
    no_token = refl;
    before = sp;
  }
  report-Fails bad_input_size s₀ s i v sp = record {
    valid = at_index (reported-IsValid bad_input_size s v);
    state = top_state-entered cfg s encoding_error v;
    no_token = refl;
    before = sp;
  }
  report-Fails (max_nesting_depth k) s₀ s i v sp = record {
    valid = at_index (reported-IsValid (max_nesting_depth k) s v);
    state = top_state-entered cfg s max_nesting_error v;
    no_token = refl;
    before = sp;
  }

-- The result code that a state of error repeats.
pub data Repeats : ScanState → JudoResult → Type 0 where
  syntax : Repeats parsing_error JudoResult.bad_syntax
  encoding : Repeats encoding_error illegal_byte_sequence
  nesting : Repeats max_nesting_error maximum_nesting

-- The end of the text was reported.
pub record Ends (cfg : Config) (src : Source) (s s' : Stream) : Type 0 where
  pub finished : frames s ≡ finished_parsing_value ∷ []
  pub frames_after : frames s' ≡ finished_parsing ∷ []
  pub valid : IsValid cfg s'
  pub token_is : s'.token ≡ eof
  pub before : Spans src s.s_at s'.where_at.offset
  pub behind : s'.s_at ≡ s'.where_at.offset
  pub no_length : s'.where_at.length ≡ 0

pub data Scans (cfg : Config) (src : Source) (s : Stream) (r : Scanned) : Type 0 where
  reports : r.result ≡ success → Reports cfg src s r.stream → Scans cfg src s r
  ends : r.result ≡ success → Ends cfg src s r.stream → Scans cfg src s r
  idles : r.result ≡ success → top_state s ≡ finished_parsing → r.stream ≡ s → Scans cfg src s r
  fails : (e : Failure) → r.result ≡ result_of e → Fails cfg src s e r.stream → Scans cfg src s r
  repeats : Repeats (top_state s) r.result → r.stream ≡ s → Scans cfg src s r

module _ (cfg : Config) (src : Source) where
  Partway-IsValid : (s s' : Stream) → IsValid cfg s → Partway cfg s s' → IsValid cfg s'
  Partway-IsValid s s' v unchanged = v
  Partway-IsValid s s' v (changed x w) = entered-IsValid cfg s x v
  Partway-IsValid s s' v (pushed x w d) =
      deeper-IsValid cfg (entered x s) (entered-IsValid cfg s x v)
        (rw (top_state-entered cfg s x v) w) d

  Opens-Waits : {x x' y : ScanState} {t : JudoToken} → Opens x x' t y → Waits x'
  Opens-Waits (Opens.element a b) = Waits.in_array
  Opens-Waits (Opens.value b) = Waits.in_object

  Stays-Step :
      (x : ScanState) (s : Stream) {kind : JudoToken} (y : ScanState)
      → IsValid cfg s
      → top_state s ≡ x
      → Stays x kind y
      → Step (frames s) kind (frames (entered y s))
  Stays-Step x s {kind} y v t m =
      subst (Step (frames s) kind) (sym (frames-entered cfg s y v)) (rw t (Step.stays m))

  Opens-Step :
      (x : ScanState) (s : Stream) {x' : ScanState} {kind : JudoToken} (y : ScanState)
      → IsValid cfg s
      → top_state s ≡ x
      → Opens x x' kind y
      → s.s_stack < cfg.maxdepth - 1
      → Step (frames s) kind (frames (entered y (deeper (entered x' s))))
  Opens-Step x s {x'} {kind} y v t m d =
      let inner = entered x' s in
      let w = Partway-IsValid s _ v (pushed x' (Opens-Waits m) d) in
      subst (Step (frames s) kind)
        (sym (
          frames-entered cfg (deeper inner) y w
          ∙ ap (◌∷◌ y) (below-deeper inner ∙ frames-entered cfg s x' v)))
        (rw t (Step.opens m))

  Leads-Scans :
      (x : ScanState) (s : Stream) (o : Outcome (Unit {0}))
      → IsValid cfg s
      → top_state s ≡ x
      → Leads cfg src x s.s_at s o
      → Scans cfg src s (save_index o)
  unfolding save_index
  Leads-Scans x s o v t (stays kind y token m p e) =
      rw (e, save_index)
        (reports refl (record {
          step = Stays-Step x s y v t m;
          valid = at_index (stored-IsValid cfg s kind y token v);
          before = p.before;
          within = p.within;
          behind = refl;
          some_length = p.some_length;
        }))
  Leads-Scans x s o v t (opens x' kind y token m p d e) =
      let w = Partway-IsValid s _ v (pushed x' (Opens-Waits m) d) in
      rw (e, save_index)
        (reports refl (record {
          step = Opens-Step x s y v t m d;
          valid = at_index (stored-IsValid cfg (deeper (entered x' s)) kind y token w);
          before = p.before;
          within = p.within;
          behind = refl;
          some_length = p.some_length;
        }))
  Leads-Scans x s o v t (breaks f j s' sp w e) =
      rw (e, save_index)
        (fails f refl (report-Fails cfg src f s s' j (Partway-IsValid s s' v w) sp))

  pub run_state-Scans :
      (bytes : IsBytes src.string) (s : Stream)
      → IsValid cfg s
      → top_state s ≢ finished_parsing_value
      → (x : ScanState) → top_state s ≡ x
      → Scans cfg src s (save_index (run_state cfg src x (record { index = s.s_at; stream = s })))
  unfolding run_state save_index
  run_state-Scans bytes s v n root_value t =
      Leads-Scans root_value s _ v t (parse_root-Leads cfg src bytes s.s_at s)
  run_state-Scans bytes s v n finished_parsing_array_element t =
      Leads-Scans finished_parsing_array_element s _ v t
        (continue_array-Leads cfg src bytes s.s_at s InArray.later)
  run_state-Scans bytes s v n parse_array_end_or_array_element t =
      Leads-Scans parse_array_end_or_array_element s _ v t
        (parse_array_element_or_array_end-Leads cfg src bytes s.s_at s InArray.first)
  run_state-Scans bytes s v n parse_object_key_or_object_end t =
      Leads-Scans parse_object_key_or_object_end s _ v t
        (begin_member-Leads cfg src bytes s.s_at s InObject.first)
  run_state-Scans bytes s v n parse_object_value t =
      Leads-Scans parse_object_value s _ v t (continue_member-Leads cfg src bytes s.s_at s)
  run_state-Scans bytes s v n finished_parsing_object_value t =
      Leads-Scans finished_parsing_object_value s _ v t
        (continue_object-Leads cfg src bytes s.s_at s InObject.later)
  run_state-Scans bytes s v n parsing_error t = repeats (rw t Repeats.syntax) refl
  run_state-Scans bytes s v n encoding_error t = repeats (rw t Repeats.encoding) refl
  run_state-Scans bytes s v n max_nesting_error t = repeats (rw t Repeats.nesting) refl
  run_state-Scans bytes s v n finished_parsing t = idles refl t refl
  run_state-Scans bytes s v n finished_parsing_value t = absurd (n t)
