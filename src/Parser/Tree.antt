-- ===== src/Parser/Tree.antt =====
-- The trees that src/judo_parse.c builds, apart from the memory, and their layout in it.
pub mod Layout
pub mod Links
pub mod Zipper
use judo.Api.{
  JudoToken, Span, true_value, false_value, array_begin, array_end, object_begin, object_end,
  object_name,
}
use judo.Base.{ℕ, suc, ◌+◌, true, false, Option, none, some, List, [], ◌∷◌, ◌++◌, max}
use judo.Parser.{Plain, Value, Block, value, boolean, array, object, member, Heap}
use judo.Parser.Build.{span_to}
use judo.Scanner.Grammar.{IsScalar, Part, elements, members}

-- A value, the elements of an array, or the members of an object. The spans of an array or object
-- are those of its first and of its last token, `none` where that was not read; the last member
-- may lack its value.
pub data Node : Part → Type 0 where
  scalar : {t : JudoToken} → IsScalar t → Span → Node Part.value
  array_node : Span → Option Span → Node elements → Node Part.value
  object_node : Span → Option Span → Node members → Node Part.value
  no_elements : Node elements
  element : Node Part.value → Node elements → Node elements
  no_members : Node members
  pair : Span → Node Part.value → Node members → Node members
  pending : Span → Node members

abbrev pub Event : Type 0
Event = JudoToken × Span

abbrev pub end_events : JudoToken → Option Span → List Event
end_events t none = []
end_events t (some span) = (t, span) ∷ []

-- The tokens that the scanner reports of it.
unfoldable pub events : {p : Part} → Node p → List Event
events (scalar {t} k span) = (t, span) ∷ []
events (array_node s e xs) = (array_begin, s) ∷ (events xs ++ end_events array_end e)
events (object_node s e ms) = (object_begin, s) ∷ (events ms ++ end_events object_end e)
events no_elements = []
events (element x xs) = events x ++ events xs
events no_members = []
events (pair name x ms) = (object_name, name) ∷ (events x ++ events ms)
events (pending name) = (object_name, name) ∷ []

-- The number of its blocks.
unfoldable pub size : {p : Part} → Node p → ℕ
size (scalar k span) = 1
size (array_node s e xs) = 1 + size xs
size (object_node s e ms) = 1 + size ms
size no_elements = 0
size (element x xs) = size x + size xs
size no_members = 0
size (pair name x ms) = 1 + size x + size ms
size (pending name) = 1

-- The levels of values in it.
unfoldable pub height : {p : Part} → Node p → ℕ
height (scalar k span) = 1
height (array_node s e xs) = 1 + height xs
height (object_node s e ms) = 1 + height ms
height no_elements = 0
height (element x xs) = max (height x) (height xs)
height no_members = 0
height (pair name x ms) = max (height x) (height ms)
height (pending name) = 0

-- The elements, or the members that have a value.
unfoldable pub count : {p : Part} → Node p → ℕ
count (element x xs) = 1 + count xs
count (pair name x ms) = 1 + count ms
count _ = 0

abbrev pub whole : Span → Option Span → Span
whole s none = s
whole s (some e) = span_to s e

-- The pointer to a list that stands at `a`, if `after` is the pointer at its end.
abbrev pub head : {p : Part} → ℕ → Option ℕ → Node p → Option ℕ
head a after no_elements = after
head a after no_members = after
head a after _ = some a

abbrev pub placed : Option ℕ → Span → Value
placed next span = record { next = next; where_at = span }

abbrev pub scalar_block : {t : JudoToken} → IsScalar t → Value → Block
scalar_block IsScalar.null d = value Plain.null d
scalar_block IsScalar.boolean_true d = boolean d true
scalar_block IsScalar.boolean_false d = boolean d false
scalar_block IsScalar.number d = value Plain.number d
scalar_block IsScalar.string d = value Plain.string d

-- The blocks of a value at `a` whose successor is `after`, or of a list at `a`.
unfoldable pub layout : {p : Part} → ℕ → Option ℕ → Node p → Heap
unfolding size count
layout a after (scalar k span) = scalar_block k (placed after span) ∷ []
layout a after (array_node s e xs) =
    array (placed after (whole s e)) (head (a + 1) none xs) (count xs) ∷ layout (a + 1) none xs
layout a after (object_node s e ms) =
    object (placed after (whole s e)) (head (a + 1) none ms) (count ms) ∷ layout (a + 1) none ms
layout a after no_elements = []
layout a after (element x xs) =
    layout a (head (a + size x) after xs) x ++ layout (a + size x) after xs
layout a after no_members = []
layout a after (pair name x ms) =
    member (head (a + 1 + size x) after ms) (some (a + 1)) name
    ∷ (layout (a + 1) none x ++ layout (a + 1 + size x) after ms)
layout a after (pending name) = member after none name ∷ []
