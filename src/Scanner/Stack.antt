-- ===== src/Scanner/Stack.antt =====
-- The stack of states as a list, the innermost value first, and the invariant of the stream.
use judo.Api.{Config, JudoToken, Stream, ScanState, root_value}
use judo.Base.{
  ℕ, zero, suc, ◌+◌, ◌-◌, ◌≤◌, ◌<◌, ◌≡◌, refl, arith, List, [], ◌∷◌, get_or, set, length,
  length-set, get_or-set_self, get_or-set_ne,
}
use judo.Lexer.Failure.{Token}
use judo.Scanner.{top_state}
use judo.Scanner.Moves.{Waits}
use judo.Scanner.Outcomes.{entered, deeper, stored}

abbrev pub below : List ScanState → ℕ → List ScanState
below xs zero = []
below xs (suc n) = get_or xs n root_value ∷ below xs n

-- s_state[s_stack], ..., s_state[0]
abbrev pub frames : Stream → List ScanState
frames s = top_state s ∷ below s.s_state s.s_stack

pub below-set :
    (xs : List ScanState) (n k : ℕ) (x : ScanState) → n ≤ k → below (set xs k x) n ≡ below xs n
below-set xs zero k x h = refl
below-set xs (suc n) k x h =
    ground
      (arith, get_or-set_ne xs k n x root_value (omega arith), below-set xs n k x (omega arith))

abbrev pub AllWait : List ScanState → Type 0
AllWait [] = Unit
AllWait (x ∷ xs) = Waits x × AllWait xs

-- The stack fits the array that holds it, and every state below the top is that of an array or
-- object that waits.
pub record IsValid (cfg : Config) (s : Stream) : Type 0 where
  pub size : length s.s_state ≡ cfg.maxdepth
  pub fits : s.s_stack < cfg.maxdepth
  pub waiting : AllWait (below s.s_state s.s_stack)

pub top_state-entered :
    (cfg : Config) (s : Stream) (x : ScanState) → IsValid cfg s → top_state (entered x s) ≡ x
top_state-entered cfg s x v =
    get_or-set_self s.s_state s.s_stack x root_value (omega (arith, v.size, v.fits))

pub entered-IsValid :
    (cfg : Config) (s : Stream) (x : ScanState) → IsValid cfg s → IsValid cfg (entered x s)
entered-IsValid cfg s x v = record {
  size = rw length-set v.size;
  fits = v.fits;
  waiting = rw (below-set s.s_state s.s_stack s.s_stack x (omega arith)) v.waiting;
}

pub deeper-IsValid :
    (cfg : Config) (s : Stream)
    → IsValid cfg s
    → Waits (top_state s)
    → s.s_stack < cfg.maxdepth - 1
    → IsValid cfg (deeper s)
deeper-IsValid cfg s v w d = record {
  size = v.size;
  fits = omega arith;
  waiting = let e : s.s_stack + 1 ≡ suc s.s_stack = omega arith in rw e (w, v.waiting);
}

pub frames-entered :
    (cfg : Config) (s : Stream) (x : ScanState)
    → IsValid cfg s
    → frames (entered x s) ≡ x ∷ below s.s_state s.s_stack
frames-entered cfg s x v =
    rw (top_state-entered cfg s x v, below-set s.s_state s.s_stack s.s_stack x (omega arith)) refl

pub below-deeper : (s : Stream) → below s.s_state (deeper s).s_stack ≡ frames s
below-deeper s = let e : s.s_stack + 1 ≡ suc s.s_stack = omega arith in rw e refl

pub stored-IsValid :
    (cfg : Config) (s : Stream) (kind : JudoToken) (x : ScanState) (token : Token)
    → IsValid cfg s
    → IsValid cfg (stored kind x token s)
stored-IsValid cfg s kind x token v =
    let e = entered-IsValid cfg s x v in
    record { size = e.size; fits = e.fits; waiting = e.waiting }
