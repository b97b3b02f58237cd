-- ===== src/Scanner/Reader.antt =====
-- A caller of `judo_scan` that reads all tokens, as `judo_parse` in src/judo_parse.c and `main` of
-- src/judo_main.c do: it calls again until a call fails or returns the end of the text.
use mathlib.Core.Path.{subst}
use native.Mathlib.Decide.{dec_lt}
use judo.Api.{
  Config, JudoResult, JudoToken, ScanState, Stream, success, eof, root_value, finished_parsing,
  zero_stream,
}
use judo.Base.{
  ℕ, zero, suc, ◌-◌, ◌≤◌, ◌<◌, ◌≡◌, ◌≢◌, refl, sym, ap, ◌∙◌, arith, List, [], ◌∷◌, false, Option,
  none, some, length-replicate,
}
use judo.Scanner.{top_state}
use judo.Scanner.Grammar.{
  Unwinds, next, empty, IsValue, Unwinds-IsValue, Step-Unwinds, Step-no_eof, Step-IsOpen,
}
use judo.Scanner.Scan.{Scanned, judo_scan, is_too_long}
use judo.Scanner.Scan.Cases.{Scans, reports, ends, idles, fails, repeats, Reports}
use judo.Scanner.Scan.Stable.{result_of-ne, Repeats-ne}
use judo.Scanner.Scan.Total.{judo_scan-Scans}
use judo.Scanner.Stack.{IsValid, frames}
use judo.Utf8.{Source}
use judo.Utf8.Sound.{IsBytes}
use judo.Utf8.Text.{Spans, IsText, Spans-trans}

-- The tokens that were read, without the end of the text, and the code of the last call; `none`
-- stands for a caller that gave up before.
pub record Reading : Type 0 where
  pub tokens : List JudoToken
  pub result : Option JudoResult

unfoldable pub read_on : JudoResult → JudoToken → Reading → Reading
read_on success eof rest = record { tokens = []; result = some success }
read_on success t rest = record { tokens = t ∷ rest.tokens; result = rest.result }
read_on r t rest = record { tokens = []; result = some r }

-- So many calls at most.
unfoldable pub read_tokens : Config → Source → ℕ → Stream → Reading
unfolding read_on
read_tokens cfg src zero s = record { tokens = []; result = none }
read_tokens cfg src (suc calls) s =
    let r = judo_scan cfg src s in
    let rest = read_tokens cfg src calls r.stream in read_on r.result r.stream.token rest

pub read_token :
    (r : JudoResult) (t : JudoToken) (rest : Reading)
    → r ≡ success
    → t ≢ eof
    → read_on r t rest ≡ record { tokens = t ∷ rest.tokens; result = rest.result }
unfolding read_on
read_token success eof rest e n = absurd (n refl)
read_token success t rest e n = refl
read_token r t rest e n = cc

pub read_failure :
    (r : JudoResult) (t : JudoToken) (rest : Reading)
    → r ≢ success
    → read_on r t rest ≡ record { tokens = []; result = some r }
unfolding read_on
read_failure success t rest n = absurd (n refl)
read_failure r t rest n = refl

pub read_end :
    (r : JudoResult) (t : JudoToken) (rest : Reading)
    → r ≡ success
    → t ≡ eof
    → read_on r t rest ≡ record { tokens = []; result = some success }
unfolding read_on
read_end r t rest e h = rw (e, h) refl

some_success : {r : JudoResult} → some r ≡ some success → r ≡ success
some_success e = cc

-- What the reader needs of the stream before a call.
abbrev pub Readable : Config → Stream → Type 0
Readable cfg s = IsValid cfg s × (top_state s ≢ finished_parsing)

pub zero_frames : (n : ℕ) → frames (zero_stream n) ≡ root_value ∷ []
unfolding zero_stream
zero_frames zero = refl
zero_frames (suc n) = refl

pub zero_stream-Readable :
    (cfg : Config) → 0 < cfg.maxdepth → Readable cfg (zero_stream cfg.maxdepth)
unfolding zero_stream
zero_stream-Readable cfg h = (
  record { size = length-replicate cfg.maxdepth root_value; fits = h; waiting = tt },
  λ e. at_root (head_of (zero_frames cfg.maxdepth)) e,
)
  where
    head_of : {x : ScanState} → x ∷ [] ≡ root_value ∷ [] → x ≡ root_value
    head_of h = cc

    at_root : {x : ScanState} → x ≡ root_value → x ≢ finished_parsing
    at_root h e = cc

module _ (cfg : Config) (src : Source) where
  -- No position of the text lies behind the first that does not belong to it.
  pub Spans_end : (n a b : ℕ) → Spans src a b → ¬ IsText src.length src.string n → a ≤ n → b ≤ n
  Spans_end n a b sp end h = elim (dec_lt n b) [
    | yes l ↦ absurd (end (sp.text n h l))
    | no l ↦ omega arith
  ]

  pub Reports-Readable : (s s' : Stream) → Reports cfg src s s' → Readable cfg s'
  Reports-Readable s s' p = (p.valid, Step-IsOpen p.step)

  one_call-Unwinds :
      (s : Stream) (r : Scanned) (rest : Reading)
      → Scans cfg src s r
      → top_state s ≢ finished_parsing
      → (Readable cfg r.stream → rest.result ≡ some success → Unwinds (frames r.stream) rest.tokens)
      → (read_on r.result r.stream.token rest).result ≡ some success
      → Unwinds (frames s) (read_on r.result r.stream.token rest).tokens
  one_call-Unwinds s r rest (reports ok p) o ih h =
      let e = read_token r.result r.stream.token rest ok (Step-no_eof p.step) in
      rw e (Step-Unwinds p.step (ih (Reports-Readable s r.stream p) (rw e at h)))
  one_call-Unwinds s r rest (ends ok p) o ih h =
      rw (read_end r.result r.stream.token rest ok p.token_is, p.finished) (next [] refl empty)
  one_call-Unwinds s r rest (idles ok i p) o ih h = absurd (o i)
  one_call-Unwinds s r rest (fails e c p) o ih h =
      let n : r.result ≢ success = rw c (result_of-ne cfg src e) in
      let f = read_failure r.result r.stream.token rest n in
      absurd (n (some_success (sym (ap (λ z. z.result) f) ∙ h)))
  one_call-Unwinds s r rest (repeats k p) o ih h =
      let f = read_failure r.result r.stream.token rest (Repeats-ne cfg src k) in
      absurd (Repeats-ne cfg src k (some_success (sym (ap (λ z. z.result) f) ∙ h)))

  one_call-finishes :
      (n : ℕ) (s : Stream) (r : Scanned) (rest : Reading) (calls : ℕ)
      → ¬ IsText src.length src.string n
      → s.s_at ≤ n
      → n - s.s_at < suc calls
      → Scans cfg src s r
      → top_state s ≢ finished_parsing
      → (Readable cfg r.stream → r.stream.s_at ≤ n → n - r.stream.s_at < calls → rest.result ≢ none)
      → (read_on r.result r.stream.token rest).result ≢ none
  one_call-finishes n s r rest calls end a b (reports ok p) o ih =
      let e = read_token r.result r.stream.token rest ok (Step-no_eof p.step) in
      let sp = Spans-trans src _ _ _ p.before p.within in
      let a' = Spans_end n s.s_at _ sp end a in
      rw e (
        ih (Reports-Readable s r.stream p) (rw p.behind a')
          (omega (arith, p.behind, p.some_length, p.before.ordered, a', a, b)))
  one_call-finishes n s r rest calls end a b (ends ok p) o ih =
      rw (read_end r.result r.stream.token rest ok p.token_is) (λ z. cc)
  one_call-finishes n s r rest calls end a b (idles ok i p) o ih = absurd (o i)
  one_call-finishes n s r rest calls end a b (fails e c p) o ih =
      let n : r.result ≢ success = rw c (result_of-ne cfg src e) in
      rw (read_failure r.result r.stream.token rest n) (λ z. cc)
  one_call-finishes n s r rest calls end a b (repeats k p) o ih =
      rw (read_failure r.result r.stream.token rest (Repeats-ne cfg src k)) (λ z. cc)

module _ (cfg : Config) (src : Source) (bytes : IsBytes src.string)
    (short : is_too_long cfg src.length ≡ false) where
  -- If all calls succeed, the tokens finish the values of the stack.
  read_tokens-Unwinds :
      (calls : ℕ) (s : Stream)
      → Readable cfg s
      → (read_tokens cfg src calls s).result ≡ some success
      → Unwinds (frames s) (read_tokens cfg src calls s).tokens
  unfolding read_tokens
  read_tokens-Unwinds zero s p h = cc
  read_tokens-Unwinds (suc calls) s p h =
      one_call-Unwinds cfg src s _ _ (judo_scan-Scans cfg src bytes s p.0 short) p.1
        (read_tokens-Unwinds calls (judo_scan cfg src s).stream) h

  -- Where position `n` does not belong to the text, and the stream is valid, not at the end and not
  -- behind `n`, more calls than there are positions left before `n` are enough: one of them fails
  -- or returns the end of the text.
  pub read_tokens-finishes :
      (n calls : ℕ) (s : Stream)
      → ¬ IsText src.length src.string n
      → s.s_at ≤ n
      → n - s.s_at < calls
      → Readable cfg s
      → (read_tokens cfg src calls s).result ≢ none
  unfolding read_tokens
  read_tokens-finishes n zero s end a b p = absurd (omega (arith, b))
  read_tokens-finishes n (suc calls) s end a b p =
      one_call-finishes cfg src n s _ _ calls end a b (judo_scan-Scans cfg src bytes s p.0 short)
        p.1 (λ q a' b'. read_tokens-finishes n calls (judo_scan cfg src s).stream end a' b' q)

  -- The tokens that are read from a stream of zeros, for a stack of one state at least, up to the end
  -- of the text and without an error are those of one JSON value, well nested.
  pub read_tokens-IsValue :
      (calls : ℕ)
      → 0 < cfg.maxdepth
      → (read_tokens cfg src calls (zero_stream cfg.maxdepth)).result ≡ some success
      → IsValue (read_tokens cfg src calls (zero_stream cfg.maxdepth)).tokens
  read_tokens-IsValue calls m h =
      let tokens = (read_tokens cfg src calls (zero_stream cfg.maxdepth)).tokens in
      Unwinds-IsValue (
        subst (λ (xs : List ScanState). Unwinds xs tokens) (zero_frames cfg.maxdepth)
          (read_tokens-Unwinds calls (zero_stream cfg.maxdepth) (zero_stream-Readable cfg m) h))
