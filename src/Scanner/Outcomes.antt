-- ===== src/Scanner/Outcomes.antt =====
-- How each routine of the state machine may end, over every text.
pub mod Arrays
pub mod Objects
pub mod Roots
use mathlib.Core.Path.{subst}
use judo.Api.{
  Config, JudoResult, JudoToken, ScanState, Stream, root_value, finished_parsing_value,
  parse_array_end_or_array_element, finished_parsing_array_element, parse_object_key_or_object_end,
  parse_object_value, finished_parsing_object_value, true_value, false_value, array_begin,
  array_end, object_begin, object_end, object_name,
}
use judo.Base.{
  ℕ, ◌+◌, ◌-◌, ◌≤◌, ◌<◌, ◌≡◌, ◌≢◌, ◌⊎◌, inl, inr, refl, sym, ◌∙◌, true, false, Bool, arith,
  Bool-cases, leb, String, set, Option, if◌then◌else◌,
}
use judo.Lexer.Failure.{
  Failure, Token, TokenTag, eof, report, result_of, bad_syntax, max_nesting_depth, true_word,
  false_word, rbrace, lbrace, lcurlyb, rcurlyb, comma, colon,
}
use judo.Lexer.Peek.{Scanner, Outcome, done, stopped, M, ◌>>=◌, ◌>>◌, peek}
use judo.Lexer.Peek.Bounds.{Peeks, ends, real, fails, peek-Peeks}
use judo.Scanner.{
  take, enter, fail_here, dispatch_value, dispatch_root, push_state, parse_value,
  parse_array_element, array_element_or_end, eat, has_trailing_commas,
  parse_array_element_or_array_end, after_array_element, continue_array, parse_object_key,
  parse_member_value, continue_member, object_key_or_end, begin_member, next_member,
  after_object_value, continue_object, skip_bom, parse_root, parse_null, parse_bool, parse_number,
  parse_string, parse_array, parse_object,
}
use judo.Scanner.Moves
use judo.Scanner.Moves.{Begins, InArray, InObject, Stays, Opens, Waits}
use judo.Utf8.{Source}
use judo.Utf8.Sound.{IsBytes}
use judo.Utf8.Text.{Spans, Spans-refl, Spans-trans}

-- What `take` stores in the stream.
abbrev pub stored : JudoToken → ScanState → Token → Stream → Stream
stored kind state token s = record s {
  where_at = record { offset = token.lexeme; length = token.lexeme_length };
  token = kind;
  s_state = set s.s_state s.s_stack state;
}

abbrev pub entered : ScanState → Stream → Stream
entered state s = record s { s_state = set s.s_state s.s_stack state }

abbrev pub deeper : Stream → Stream
deeper s = record s { s_stack = s.s_stack + 1 }

-- The token was eaten.
abbrev pub behind : Token → Stream → Scanner
behind token s = record { index = token.lexeme + token.lexeme_length; stream = s }

abbrev pub broken : Failure → ℕ → Stream → Outcome (Unit {0})
broken e i s = stopped (result_of e) (record { index = i; stream = report e s })

-- The token stands behind `i`, and takes some characters of the text.
pub record Placed (src : Source) (i : ℕ) (token : Token) : Type 0 where
  pub before : Spans src i token.lexeme
  pub within : Spans src token.lexeme (token.lexeme + token.lexeme_length)
  pub some_length : 0 < token.lexeme_length

-- The token of a value, or an error.
pub data Dispatches (sc : Scanner) (token : Token) (o : Outcome (Unit {0})) : Type 0 where
  takes :
      (kind : JudoToken) (y : ScanState)
      → Begins kind y
      → o ≡ take kind y token sc
      → Dispatches sc token o
  refuses : (e : Failure) → o ≡ broken e sc.index sc.stream → Dispatches sc token o

dispatch_value-Dispatches :
    (msg : String) (tag : TokenTag) (token : Token) (sc : Scanner)
    → token.type ≡ tag
    → Dispatches sc token (dispatch_value msg tag token sc)
unfolding dispatch_value
dispatch_value-Dispatches msg TokenTag.null token sc e = takes _ _ Moves.Begins.null refl
dispatch_value-Dispatches msg TokenTag.number token sc e = takes _ _ Begins.number refl
dispatch_value-Dispatches msg TokenTag.string token sc e = takes _ _ Begins.string refl
dispatch_value-Dispatches msg TokenTag.true_word token sc e =
    takes true_value finished_parsing_value Begins.boolean_true (ground arith)
dispatch_value-Dispatches msg TokenTag.false_word token sc e =
    takes false_value finished_parsing_value Begins.boolean_false (ground arith)
dispatch_value-Dispatches msg TokenTag.lbrace token sc e = takes _ _ Begins.array refl
dispatch_value-Dispatches msg TokenTag.lcurlyb token sc e = takes _ _ Begins.object refl
dispatch_value-Dispatches msg _ token sc e = refuses (bad_syntax sc.index 1 msg) refl

pub dispatch_root-Dispatches :
    (any : Bool) (tag : TokenTag) (token : Token) (sc : Scanner)
    → token.type ≡ tag
    → Dispatches sc token (dispatch_root any tag token sc)
unfolding dispatch_root
dispatch_root-Dispatches any TokenTag.lbrace token sc e = takes _ _ Begins.array refl
dispatch_root-Dispatches any TokenTag.lcurlyb token sc e = takes _ _ Begins.object refl
dispatch_root-Dispatches true TokenTag.null token sc e = takes _ _ Begins.null refl
dispatch_root-Dispatches true TokenTag.number token sc e = takes _ _ Begins.number refl
dispatch_root-Dispatches true TokenTag.string token sc e = takes _ _ Begins.string refl
dispatch_root-Dispatches true TokenTag.true_word token sc e =
    takes true_value finished_parsing_value Begins.boolean_true (ground arith)
dispatch_root-Dispatches true TokenTag.false_word token sc e =
    takes false_value finished_parsing_value Begins.boolean_false (ground arith)
dispatch_root-Dispatches any _ token sc e = refuses (bad_syntax 0 0 "expected root value") refl

-- A value inside of the innermost one, or an error.
pub data Values (cfg : Config) (src : Source) (i : ℕ) (s : Stream) (o : Outcome (Unit {0}))
    : Type 0 where
  value :
      (kind : JudoToken) (y : ScanState) (token : Token)
      → Begins kind y
      → Placed src i token
      → s.s_stack < cfg.maxdepth - 1
      → o ≡ done tt (behind token (stored kind y token (deeper s)))
      → Values cfg src i s o
  too_deep : (e : Failure) → o ≡ broken e i s → Values cfg src i s o
  no_value :
      (e : Failure) (j : ℕ)
      → Spans src i j
      → s.s_stack < cfg.maxdepth - 1
      → o ≡ broken e j (deeper s)
      → Values cfg src i s o

-- The stream in which an error may be stored: that of the call, with the state of the innermost
-- value changed, or with a state pushed.
pub data Partway (cfg : Config) (s : Stream) : Stream → Type 0 where
  unchanged : Partway cfg s s
  changed : (x : ScanState) → Waits x → Partway cfg s (entered x s)
  pushed :
      (x : ScanState)
      → Waits x
      → s.s_stack < cfg.maxdepth - 1
      → Partway cfg s (deeper (entered x s))

-- A move from the state `x` of the innermost value, or an error.
pub data Leads (cfg : Config) (src : Source) (x : ScanState) (i : ℕ) (s : Stream)
    (o : Outcome (Unit {0})) : Type 0 where
  stays :
      (kind : JudoToken) (y : ScanState) (token : Token)
      → Stays x kind y
      → Placed src i token
      → o ≡ done tt (behind token (stored kind y token s))
      → Leads cfg src x i s o
  opens :
      (x' : ScanState) (kind : JudoToken) (y : ScanState) (token : Token)
      → Opens x x' kind y
      → Placed src i token
      → s.s_stack < cfg.maxdepth - 1
      → o ≡ done tt (behind token (stored kind y token (deeper (entered x' s))))
      → Leads cfg src x i s o
  breaks :
      (e : Failure) (j : ℕ) (s' : Stream)
      → Spans src i j
      → Partway cfg s s'
      → o ≡ broken e j s'
      → Leads cfg src x i s o

-- A routine that has read a token, or stopped, before it goes on.
pub bind_done {ℓ κ} :
    {A : Type ℓ} {B : Type κ} (m : M A) (f : A → M B) {sc sc' : Scanner} {a : A}
    → m sc ≡ done a sc'
    → (m >>= f) sc ≡ f a sc'
bind_done m f e = rw (e, ◌>>=◌)

pub bind_stopped {ℓ κ} :
    {A : Type ℓ} {B : Type κ} (m : M A) (f : A → M B) {sc sc' : Scanner} {r : JudoResult}
    → m sc ≡ stopped r sc'
    → (m >>= f) sc ≡ stopped r sc'
bind_stopped m f e = rw (e, ◌>>=◌)

Placed-from :
    {src : Source} (i j : ℕ) (token : Token)
    → Spans src i j
    → Placed src j token
    → Placed src i token
Placed-from {src} i j token sp p = record {
  before = Spans-trans src i j token.lexeme sp p.before;
  within = p.within;
  some_length = p.some_length;
}

-- The token that `peek` returned: the end of the text, or one that takes characters.
abbrev pub Ready : Source → Token → TokenTag → Type 0
Ready src token tag = (tag ≡ eof) ⊎ Placed src token.lexeme token

module _ (cfg : Config) (src : Source) (bytes : IsBytes src.string) where
  -- The last step of `parse_value`, behind the push.
  value_of :
      (msg : String) (i : ℕ) (s : Stream)
      → s.s_stack < cfg.maxdepth - 1
      → Peeks src
          (record { index = i; stream = deeper s })
          (peek cfg src (record { index = i; stream = deeper s }))
      → Values cfg src i s (
          (peek cfg src >>= λ token. dispatch_value msg token.type token)
            (record { index = i; stream = deeper s }))
  unfolding take
  value_of msg i s d (fails e j h sp) =
      no_value e j sp d
        (bind_stopped (peek cfg src) (λ token. dispatch_value msg token.type token) h)
  value_of msg i s d (ends token h t n e sp) =
      no_value (bad_syntax token.lexeme 1 msg) token.lexeme sp d (
        bind_done (peek cfg src) (λ token. dispatch_value msg token.type token) h
        ∙ unfold dispatch_value in rw t)
  value_of msg i s d (real token h t before within n) =
      by_token (dispatch_value-Dispatches msg token.type token _ refl)
    where
      by_token :
          Dispatches
            (record { index = token.lexeme; stream = deeper s })
            token
            (dispatch_value msg token.type token
              (record { index = token.lexeme; stream = deeper s }))
          → Values cfg src i s (
              (peek cfg src >>= λ token. dispatch_value msg token.type token)
                (record { index = i; stream = deeper s }))
      by_token (takes kind y b e) =
          value kind y token b (record { before = before; within = within; some_length = n }) d
            (bind_done (peek cfg src) (λ token. dispatch_value msg token.type token) h ∙ e)
      by_token (refuses f e) =
          no_value f token.lexeme before d
            (bind_done (peek cfg src) (λ token. dispatch_value msg token.type token) h ∙ e)

  pub parse_value-Values :
      (msg : String) (i : ℕ) (s : Stream)
      → Values cfg src i s (parse_value cfg src msg (record { index = i; stream = s }))
  unfolding parse_value
  parse_value-Values msg i s = elim (Bool-cases (leb (cfg.maxdepth - 1) s.s_stack)) [
    | inl deep ↦ too_deep (max_nesting_depth i) (rw deep)
    | inr room ↦ rw room (
        value_of msg i s (ground arith)
          (peek-Peeks cfg src bytes (record { index = i; stream = deeper s })))
  ]

  -- A value inside of the innermost one, whose state was changed to `x'`.
  pub Values-Leads :
      (x x' : ScanState) (i : ℕ) (s : Stream) (o : Outcome (Unit {0}))
      → Waits x'
      → ((kind : JudoToken) (y : ScanState) → Begins kind y → Opens x x' kind y)
      → Values cfg src i (entered x' s) o
      → Leads cfg src x i s o
  Values-Leads x x' i s o w allowed (value kind y token b p d e) =
      opens x' kind y token (allowed kind y b) p d e
  Values-Leads x x' i s o w allowed (too_deep f e) =
      breaks f i _ (Spans-refl src i) (changed x' w) e
  Values-Leads x x' i s o w allowed (no_value f j sp d e) = breaks f j _ sp (pushed x' w d) e

  pub Leads-from :
      (x : ScanState) (i j : ℕ) (s : Stream) (o : Outcome (Unit {0}))
      → Spans src i j
      → Leads cfg src x j s o
      → Leads cfg src x i s o
  Leads-from x i j s o sp (stays kind y token m p e) =
      stays kind y token m (Placed-from i j token sp p) e
  Leads-from x i j s o sp (opens x' kind y token m p d e) =
      opens x' kind y token m (Placed-from i j token sp p) d e
  Leads-from x i j s o sp (breaks f k s' sp' w e) = breaks f k s' (Spans-trans src i j k sp sp') w e

  -- A routine that reads a token first, and then leads on from the token's position.
  pub after_peek :
      (x : ScanState) (i : ℕ) (s : Stream) (k : TokenTag → Token → M (Unit {0}))
      → ((token : Token)
          → Ready src token token.type
          → Leads cfg src x token.lexeme s
              (k token.type token (record { index = token.lexeme; stream = s })))
      → Leads cfg src x i s
          ((peek cfg src >>= λ token. k token.type token) (record { index = i; stream = s }))
  after_peek x i s k at_token =
      by_peek (peek-Peeks cfg src bytes (record { index = i; stream = s }))
    where
      by_peek :
          Peeks src
            (record { index = i; stream = s })
            (peek cfg src (record { index = i; stream = s }))
          → Leads cfg src x i s
              ((peek cfg src >>= λ token. k token.type token) (record { index = i; stream = s }))
      by_peek (fails e j h sp) =
          breaks e j s sp unchanged (bind_stopped (peek cfg src) (λ token. k token.type token) h)
      by_peek (ends token h t n e sp) =
          subst (Leads cfg src x i s)
            (sym (bind_done (peek cfg src) (λ token. k token.type token) h))
            (Leads-from x i token.lexeme s _ sp (at_token token (inl t)))
      by_peek (real token h t before within n) =
          subst (Leads cfg src x i s)
            (sym (bind_done (peek cfg src) (λ token. k token.type token) h))
            (Leads-from x i token.lexeme s _ before (
              at_token token (
                inr (record {
                  before = Spans-refl src token.lexeme;
                  within = within;
                  some_length = n;
                }))))
