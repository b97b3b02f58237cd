-- ===== src/Parser/Build.antt =====
-- src/judo_parse.c: the context of a parse, `track`, `process_value` and `judo_parse`.
-- The stack holds the entries below `stack_depth`, the innermost first; those above it are null.
pub mod Advance
pub mod Attach
pub mod Heights
pub mod Matches
pub mod Names
pub mod Sites
pub mod Steps
use judo.Api.{
  Config, JudoResult, JudoToken, Span, Stream, success, invalid_operation, out_of_memory,
  true_value, false_value, array_begin, array_end, object_begin, object_end, object_name, eof,
  zero_stream,
}
use judo.Base.{
  ℕ, zero, suc, ◌+◌, ◌-◌, Bool, true, false, Option, none, some, List, [], ◌∷◌, ◌++◌, String, ltb,
  if◌then◌else◌, get_elem?, set, length,
}
use judo.Parser.{
  Plain, Value, Block, value, boolean, array, object, member, released, Heap, ◌>>=◌, update,
  with_descriptor, zero_span,
}

-- `struct parse_stack`
pub record ParseStack : Type 0 where
  pub collection : ℕ
  pub elements_tail : Option ℕ
  pub members_tail : Option ℕ

-- `struct context`, with the memory that the caller's function hands out.
pub record Context : Type 0 where
  pub heap : Heap
  pub root : Option ℕ
  pub stack : List ParseStack

abbrev pub set_next : ℕ → Block → Option Block
set_next next = with_descriptor (λ d. record d { next = some next })

abbrev pub set_value : ℕ → Block → Option Block
set_value val (member next _ name) = some (member next (some val) name)
set_value val _ = none

abbrev pub set_member_next : ℕ → Block → Option Block
set_member_next next (member _ val name) = some (member (some next) val name)
set_member_next next _ = none

abbrev pub add_first : ℕ → Block → Option Block
add_first p (array d none n) = some (array d (some p) (n + 1))
add_first p _ = none

abbrev pub add_length : Block → Option Block
add_length (array d first n) = some (array d first (n + 1))
add_length _ = none

abbrev pub add_size : Block → Option Block
add_size (object d members n) = some (object d members (n + 1))
add_size _ = none

-- What `track` does with the array or object on top of the stack, by the block that it is.
unfoldable pub attach : ℕ → ParseStack → Block → Heap → Option (Heap × ParseStack)
attach p top (array d first n) heap = elim top.elements_tail [
  | none ↦ do
    h ← update top.collection (add_first p) heap
    some (h, record top { elements_tail = some p })
  | some tail ↦ do
    h ← update tail (set_next p) heap
    h' ← update top.collection add_length h
    some (h', record top { elements_tail = some p })
]
attach p top (object d members n) heap = elim top.members_tail [
  | none ↦ none
  | some tail ↦ do
    h ← update tail (set_value p) heap
    h' ← update top.collection add_size h
    some (h', top)
]
attach p top _ heap = none

abbrev pub attach_to : ℕ → List ParseStack → Heap → Option (Heap × List ParseStack)
attach_to p [] heap = some (heap, [])
attach_to p (top ∷ below) heap = do
  b ← get_elem? heap top.collection
  r ← attach p top b heap
  some (r.0, r.1 ∷ below)

abbrev pub root_or : ℕ → Option ℕ → Option ℕ
root_or p none = some p
root_or p (some r) = some r

unfoldable pub track : ℕ → Context → Option Context
unfolding attach
track p ctx = do
  r ← attach_to p ctx.stack ctx.heap
  some (record { heap = r.0; root = root_or p ctx.root; stack = r.1 })

-- A new block, filled in, that is tracked.
unfoldable pub track_new : Block → Context → Option Context
unfolding track
track_new b ctx = track (length ctx.heap) (record ctx { heap = ctx.heap ++ (b ∷ []) })

abbrev pub fresh : Span → Value
fresh span = record { next = none; where_at = span }

abbrev pub entry : ℕ → ParseStack
entry p = record { collection = p; elements_tail = none; members_tail = none }

abbrev pub Done : Type 0
Done = Option (JudoResult × Context)

-- Allocate and track the block of a value without others in it.
unfoldable pub process_scalar : (ℕ → Bool) → Block → Context → Done
process_scalar available b ctx =
    if available (length ctx.heap)
    then (do c ← track_new b ctx; some (success, c))
    else some (out_of_memory, ctx)

-- Allocate and track the block of an array or object, and push it.
unfoldable pub process_begin : ℕ → (ℕ → Bool) → Block → Context → Done
process_begin maxdepth available b ctx =
    if ltb (length ctx.stack) maxdepth
    then (if available (length ctx.heap)
        then (do
          c ← track_new b ctx
          some (success, record c { stack = entry (length ctx.heap) ∷ c.stack }))
        else some (out_of_memory, ctx))
    else none

-- The span from the begin of an array or object to the end of its last token.
abbrev pub span_to : Span → Span → Span
span_to begin end = record begin { length = end.offset + end.length - begin.offset }

abbrev pub extend : Span → Block → Option Block
extend end = with_descriptor (λ d. record d { where_at = span_to d.where_at end })

unfoldable pub process_end : Span → List ParseStack → Context → Done
process_end end [] ctx = none
process_end end (top ∷ below) ctx = do
  h ← update top.collection (extend end) ctx.heap
  some (success, record ctx { heap = h; stack = below })

-- Link the new member `p` into the object on top of the stack.
unfoldable pub link_member : ℕ → ParseStack → Block → Heap → Option Heap
link_member p top (object d none n) heap = elim top.members_tail [
  | none ↦ some (set heap top.collection (object d (some p) n))
  | some _ ↦ none
]
link_member p top (object d (some first) n) heap = elim top.members_tail [
  | none ↦ none
  | some tail ↦ update tail (set_member_next p) heap
]
link_member p top _ heap = none

abbrev pub is_object : Block → Bool
is_object (object d members n) = true
is_object _ = false

unfoldable pub process_name : (ℕ → Bool) → Span → List ParseStack → Context → Done
unfolding link_member
process_name available name [] ctx = none
process_name available name (top ∷ below) ctx = do
  b ← get_elem? ctx.heap top.collection
  if is_object b
      then (if available (length ctx.heap)
          then (do
            h ← link_member (length ctx.heap) top b (ctx.heap ++ (member none none name ∷ []))
            some (
              success,
              record ctx {
                heap = h;
                stack = record top { members_tail = some (length ctx.heap) } ∷ below;
              },
            ))
          else some (out_of_memory, ctx))
      else none

-- By the token that the scanner reported, at a span. `available n` says if the caller's function
-- hands out a block when it has handed out `n`.
unfoldable pub process_value : ℕ → (ℕ → Bool) → JudoToken → Span → Context → Done
process_value maxdepth available array_begin span ctx =
    process_begin maxdepth available (array (fresh span) none 0) ctx
process_value maxdepth available object_begin span ctx =
    process_begin maxdepth available (object (fresh span) none 0) ctx
process_value maxdepth available array_end span ctx = process_end span ctx.stack ctx
process_value maxdepth available object_end span ctx = process_end span ctx.stack ctx
process_value maxdepth available JudoToken.null span ctx =
    process_scalar available (value Plain.null (fresh span)) ctx
process_value maxdepth available true_value span ctx =
    process_scalar available (boolean (fresh span) true) ctx
process_value maxdepth available false_value span ctx =
    process_scalar available (boolean (fresh span) false) ctx
process_value maxdepth available JudoToken.number span ctx =
    process_scalar available (value Plain.number (fresh span)) ctx
process_value maxdepth available JudoToken.string span ctx =
    process_scalar available (value Plain.string (fresh span)) ctx
process_value maxdepth available object_name span ctx = process_name available span ctx.stack ctx
process_value maxdepth available eof span ctx = some (success, ctx)
process_value maxdepth available JudoToken.invalid span ctx = none
