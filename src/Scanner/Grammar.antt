-- ===== src/Scanner/Grammar.antt =====
-- The grammar of the tokens that the state machine reports: a JSON value as a sequence of tokens,
-- written down apart from the scanner, and the moves of the scanner's stack against it.
use mathlib.Core.Path.{subst}
use judo.Api.{
  JudoToken, ScanState, root_value, finished_parsing_value, parse_array_end_or_array_element,
  finished_parsing_array_element, parse_object_key_or_object_end, parse_object_value,
  finished_parsing_object_value, finished_parsing, array_begin, array_end, object_begin, object_end,
  object_name, eof, true_value, false_value,
}
use judo.Base.{◌≡◌, ◌≢◌, refl, List, [], ◌∷◌, ◌++◌, sym, ap, append_assoc, append-nil}
use judo.Scanner.Moves.{Begins, InArray, InObject, Stays, Opens, Step}

pub data IsScalar : JudoToken → Type 0 where
  null : IsScalar JudoToken.null
  boolean_true : IsScalar true_value
  boolean_false : IsScalar false_value
  number : IsScalar JudoToken.number
  string : IsScalar JudoToken.string

pub data Part : Type 0 where
  value elements members : Part

-- The tokens of a value; those of the elements of an array with its end; and those of the members
-- of an object with its end.
pub data IsPart : Part → List JudoToken → Type 0 where
  scalar : {t : JudoToken} → IsScalar t → IsPart value (t ∷ [])
  array : {ts : List JudoToken} → IsPart elements ts → IsPart value (array_begin ∷ ts)
  object : {ts : List JudoToken} → IsPart members ts → IsPart value (object_begin ∷ ts)
  end_array : IsPart elements (array_end ∷ [])
  element :
      {us vs : List JudoToken} → IsPart value us → IsPart elements vs → IsPart elements (us ++ vs)
  end_object : IsPart members (object_end ∷ [])
  member :
      {us vs : List JudoToken}
      → IsPart value us
      → IsPart members vs
      → IsPart members (object_name ∷ us ++ vs)

abbrev pub IsValue : List JudoToken → Type 0
IsValue = IsPart value

pub data IsMember : List JudoToken → Type 0 where
  member_value : {us vs : List JudoToken} → IsValue us → IsPart members vs → IsMember (us ++ vs)

-- The tokens that finish a value in this state.
abbrev pub Finishes : ScanState → List JudoToken → Type 0
Finishes root_value ts = IsValue ts
Finishes finished_parsing_value ts = ts ≡ []
Finishes parse_array_end_or_array_element ts = IsPart elements ts
Finishes finished_parsing_array_element ts = IsPart elements ts
Finishes parse_object_key_or_object_end ts = IsPart members ts
Finishes parse_object_value ts = IsMember ts
Finishes finished_parsing_object_value ts = IsPart members ts
Finishes _ ts = ⊥

-- The tokens that finish all values of the stack, the innermost first.
pub data Unwinds : List ScanState → List JudoToken → Type 0 where
  empty : Unwinds [] []
  next :
      {x : ScanState} {xs : List ScanState} (us : List JudoToken) {vs : List JudoToken}
      → Finishes x us
      → Unwinds xs vs
      → Unwinds (x ∷ xs) (us ++ vs)

Begins-IsValue :
    {t : JudoToken} {y : ScanState} {us : List JudoToken}
    → Begins t y
    → Finishes y us
    → IsValue (t ∷ us)
Begins-IsValue Begins.null e = rw e (scalar IsScalar.null)
Begins-IsValue Begins.boolean_true e = rw e (scalar IsScalar.boolean_true)
Begins-IsValue Begins.boolean_false e = rw e (scalar IsScalar.boolean_false)
Begins-IsValue Begins.number e = rw e (scalar IsScalar.number)
Begins-IsValue Begins.string e = rw e (scalar IsScalar.string)
Begins-IsValue Begins.array f = array f
Begins-IsValue Begins.object f = object f

elements_of : {x : ScanState} {ts : List JudoToken} → InArray x → IsPart elements ts → Finishes x ts
elements_of InArray.first p = p
elements_of InArray.later p = p

members_of : {x : ScanState} {ts : List JudoToken} → InObject x → IsPart members ts → Finishes x ts
members_of InObject.first p = p
members_of InObject.later p = p

Stays-Finishes :
    {x y : ScanState} {t : JudoToken} (us : List JudoToken)
    → Stays x t y
    → Finishes y us
    → Finishes x (t ∷ us)
Stays-Finishes us (Stays.root b) f = Begins-IsValue b f
Stays-Finishes us (Stays.close_array a) f = rw f (elements_of a end_array)
Stays-Finishes us (Stays.close_object a) f = rw f (members_of a end_object)
Stays-Finishes us (Stays.name a) (member_value p q) = members_of a (member p q)

Opens-Finishes :
    {x x' y : ScanState} {t : JudoToken} (us vs : List JudoToken)
    → Opens x x' t y
    → Finishes y us
    → Finishes x' vs
    → Finishes x (t ∷ us ++ vs)
Opens-Finishes us vs (Opens.element a b) f g = elements_of a (element (Begins-IsValue b f) g)
Opens-Finishes us vs (Opens.value b) f g = member_value (Begins-IsValue b f) g

pub Step-Unwinds :
    {xs ys : List ScanState} {t : JudoToken} {ts : List JudoToken}
    → Step xs t ys
    → Unwinds ys ts
    → Unwinds xs (t ∷ ts)
Step-Unwinds {t = t} (Step.stays m) (next us f u) = next (t ∷ us) (Stays-Finishes us m f) u
Step-Unwinds {t = t} (Step.opens m) (next us f (next vs g u)) =
    subst (Unwinds _) (ap (◌∷◌ t) (append_assoc us vs _))
      (next (t ∷ us ++ vs) (Opens-Finishes us vs m f g) u)
Step-Unwinds (Step.pops h) u = next [] refl (Step-Unwinds h u)

pub Unwinds-IsValue : {ts : List JudoToken} → Unwinds (root_value ∷ []) ts → IsValue ts
Unwinds-IsValue (next us p empty) = subst IsValue (sym (append-nil us)) p

Begins-no_eof : {t : JudoToken} {y : ScanState} → Begins t y → t ≢ eof
Begins-no_eof Begins.null = cc
Begins-no_eof Begins.boolean_true = cc
Begins-no_eof Begins.boolean_false = cc
Begins-no_eof Begins.number = cc
Begins-no_eof Begins.string = cc
Begins-no_eof Begins.array = cc
Begins-no_eof Begins.object = cc

pub Step-no_eof : {xs ys : List ScanState} {t : JudoToken} → Step xs t ys → t ≢ eof
Step-no_eof (Step.stays (Stays.root b)) = Begins-no_eof b
Step-no_eof (Step.stays (Stays.close_array a)) = cc
Step-no_eof (Step.stays (Stays.close_object a)) = cc
Step-no_eof (Step.stays (Stays.name a)) = cc
Step-no_eof (Step.opens (Opens.element a b)) = Begins-no_eof b
Step-no_eof (Step.opens (Opens.value b)) = Begins-no_eof b
Step-no_eof (Step.pops h) = Step-no_eof h

-- The states of a stack whose text is not at its end.
abbrev pub IsOpen : List ScanState → Type 0
IsOpen [] = Unit
IsOpen (x ∷ xs) = x ≢ finished_parsing

Begins-open : {t : JudoToken} {y : ScanState} → Begins t y → y ≢ finished_parsing
Begins-open Begins.null = cc
Begins-open Begins.boolean_true = cc
Begins-open Begins.boolean_false = cc
Begins-open Begins.number = cc
Begins-open Begins.string = cc
Begins-open Begins.array = cc
Begins-open Begins.object = cc

pub Step-IsOpen : {xs ys : List ScanState} {t : JudoToken} → Step xs t ys → IsOpen ys
Step-IsOpen (Step.stays (Stays.root b)) = Begins-open b
Step-IsOpen (Step.stays (Stays.close_array a)) = cc
Step-IsOpen (Step.stays (Stays.close_object a)) = cc
Step-IsOpen (Step.stays (Stays.name a)) = cc
Step-IsOpen (Step.opens (Opens.element a b)) = Begins-open b
Step-IsOpen (Step.opens (Opens.value b)) = Begins-open b
Step-IsOpen (Step.pops h) = Step-IsOpen h
