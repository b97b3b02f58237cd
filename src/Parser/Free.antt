-- ===== src/Parser/Free.antt =====
-- src/judo_parse.c: `judo_free`.
-- The stack holds the entries below `depth`, the innermost first; those above it are zero.
pub mod Releases
pub mod Rounds
pub mod Whole
use judo.Api.{JudoResult, success, invalid_operation}
use judo.Base.{
  ℕ, zero, suc, Bool, true, false, Option, none, some, List, [], ◌∷◌, ltb, if◌then◌else◌, get_elem?,
  set, length,
}
use judo.Parser.{
  Block, value, boolean, array, object, member, released, Heap, ◌>>=◌, judo_next, judo_membnext,
  judo_membvalue,
}

-- `struct freestack`
pub record FreeStack : Type 0 where
  pub val : Option ℕ
  pub element : Option ℕ
  pub memb : Option ℕ

abbrev pub free_value : Option ℕ → FreeStack
free_value p = record { val = p; element = none; memb = none }

abbrev pub free_element : Option ℕ → FreeStack
free_element p = record { val = none; element = p; memb = none }

abbrev pub free_member : Option ℕ → FreeStack
free_member p = record { val = none; element = none; memb = p }

pub record FreeState : Type 0 where
  pub heap : Heap
  pub stack : List FreeStack

abbrev pub is_released : Block → Bool
is_released released = true
is_released _ = false

-- memfunc(udata, ptr, size): a block is released once.
unfoldable pub release : ℕ → Heap → Option Heap
release p heap = do b ← get_elem? heap p; if is_released b then none else some (set heap p released)

-- stack[depth] = ...; depth += 1;
unfoldable pub push : ℕ → FreeStack → List FreeStack → Option (List FreeStack)
push maxdepth f stack = if ltb (length stack) maxdepth then some (f ∷ stack) else none

-- The rest of a list, if there is any.
unfoldable pub push_rest : ℕ → (ℕ → FreeStack) → Option ℕ → List FreeStack → Option (List FreeStack)
push_rest maxdepth f none stack = some stack
push_rest maxdepth f (some p) stack = push maxdepth (f p) stack

-- The next element: the last one takes the place of the list on the stack.
unfoldable pub free_next_element :
    ℕ → ℕ → Option ℕ → FreeStack → List FreeStack → Option (List FreeStack)
free_next_element maxdepth e none top below =
    some (record top { val = some e; element = none } ∷ below)
free_next_element maxdepth e (some n) top below =
    push maxdepth (free_value (some e)) (record top { element = some n } ∷ below)

unfoldable pub free_next_member :
    ℕ → Option ℕ → Option ℕ → FreeStack → List FreeStack → Option (List FreeStack)
free_next_member maxdepth val none top below = some (record top { val = val; memb = none } ∷ below)
free_next_member maxdepth val (some n) top below =
    push maxdepth (free_value val) (record top { memb = some n } ∷ below)

-- The switch on the type of a value, which was popped.
unfoldable pub free_block : ℕ → ℕ → Block → List FreeStack → Heap → Option FreeState
free_block maxdepth p (array d first n) below heap = do
  stack ← push_rest maxdepth (λ e. free_element (some e)) first below
  h ← release p heap
  some (record { heap = h; stack = stack })
free_block maxdepth p (object d members n) below heap = do
  stack ← push_rest maxdepth (λ m. free_member (some m)) members below
  h ← release p heap
  some (record { heap = h; stack = stack })
free_block maxdepth p (value type d) below heap = do
  h ← release p heap
  some (record { heap = h; stack = below })
free_block maxdepth p (boolean d b) below heap = do
  h ← release p heap
  some (record { heap = h; stack = below })
free_block maxdepth p _ below heap = none

-- One round of the loop.
unfoldable pub free_round : ℕ → Heap → FreeStack → List FreeStack → Option FreeState
free_round maxdepth heap top below = elim top.element [
  | some e ↦ do
    next ← judo_next heap (some e)
    stack ← free_next_element maxdepth e next top below
    some (record { heap = heap; stack = stack })
  | none ↦ elim top.memb [
    | some m ↦ do
      next ← judo_membnext heap (some m)
      val ← judo_membvalue heap (some m)
      stack ← free_next_member maxdepth val next top below
      h ← release m heap
      some (record { heap = h; stack = stack })
    | none ↦ elim top.val [
      | none ↦ some (record { heap = heap; stack = below })
      | some p ↦ do b ← get_elem? heap p; free_block maxdepth p b below heap
    ]
  ]
]

-- So many rounds at most; none are left over if the stack is empty.
unfoldable pub free_loop : ℕ → ℕ → Heap → List FreeStack → Option Heap
free_loop maxdepth rounds heap [] = some heap
free_loop maxdepth zero heap (top ∷ below) = none
free_loop maxdepth (suc rounds) heap (top ∷ below) = do
  s ← free_round maxdepth heap top below
  free_loop maxdepth rounds s.heap s.stack

-- With a function for the memory, or without one.
unfoldable pub judo_free : ℕ → ℕ → Bool → Option ℕ → Heap → Option (JudoResult × Heap)
judo_free maxdepth rounds false root heap = some (invalid_operation, heap)
judo_free maxdepth rounds true none heap = some (success, heap)
judo_free maxdepth rounds true (some root) heap = do
  h ← free_loop maxdepth rounds heap (free_value (some root) ∷ [])
  some (success, h)
