-- ===== src/Parser/Tree/Zipper.antt =====
-- A tree that src/judo_parse.c is building: the arrays and objects that are open, the innermost
-- first, each with what it holds already.
use judo.Api.{Span}
use judo.Base.{
  ℕ, ◌+◌, ◌≡◌, refl, ◌∙◌, arith, Option, none, some, List, [], ◌∷◌, ◌++◌, append_assoc, append-nil,
  length, length-append,
}
use judo.Parser.{array, object, member, Heap}
use judo.Parser.Build.{Context, ParseStack}
use judo.Parser.Tree.{
  Node, array_node, object_node, no_elements, element, no_members, pair, pending, size, count, head,
  placed, layout,
}
use judo.Parser.Tree.Layout.{
  Full, no_elements_left, element_before, no_members_left, pair_before, join, join-Full, last,
  length-layout, layout-join, head-join, count-join,
}
use judo.Scanner.Grammar.{Part, elements, members}

-- An open array with its elements, or an open object with its members and the name that waits for
-- its value.
pub data Frame : Type 0 where
  array_frame : (s : Span) (xs : Node elements) → Full elements xs → Frame
  object_frame : (s : Span) (ms : Node members) → Full members ms → Option Span → Frame

abbrev pub name_size : Option Span → ℕ
name_size none = 0
name_size (some n) = 1

unfoldable pub frame_size : Frame → ℕ
frame_size (array_frame s xs f) = 1 + size xs
frame_size (object_frame s ms f n) = 1 + size ms + name_size n

abbrev pub children : Option ℕ → ℕ
children none = 0
children (some c) = 1

-- The pointer to the member without a value that stands at `m`.
abbrev pub waiting : ℕ → Option Span → Option ℕ
waiting m none = none
waiting m (some n) = some m

abbrev pub waiting_block : Option ℕ → Option Span → Heap
waiting_block child none = []
waiting_block child (some n) = member none child n ∷ []

-- The blocks of an open array or object at `a`, in which the value at `child` was begun.
unfoldable pub frame_layout : ℕ → Option ℕ → Frame → Heap
frame_layout a child (array_frame s xs f) =
    array (placed none s) (head (a + 1) child xs) (count xs + children child)
    ∷ layout (a + 1) child xs
frame_layout a child (object_frame s ms f n) =
    object (placed none s) (head (a + 1) (waiting (a + 1 + size ms) n) ms)
      (count ms + children child)
    ∷ (layout (a + 1) (waiting (a + 1 + size ms) n) ms ++ waiting_block child n)

-- The entry of the stack for it.
unfoldable pub frame_entry : ℕ → Option ℕ → Frame → ParseStack
frame_entry a child (array_frame s xs f) = record {
  collection = a;
  elements_tail = elim child [ none ↦ last (a + 1) none xs | some c ↦ some c ];
  members_tail = none;
}
frame_entry a child (object_frame s ms f n) = record {
  collection = a;
  elements_tail = none;
  members_tail = elim n [ none ↦ last (a + 1) none ms | some _ ↦ some (a + 1 + size ms) ];
}

unfoldable pub frames_size : List Frame → ℕ
unfolding frame_size
frames_size [] = 0
frames_size (f ∷ fs) = frames_size fs + frame_size f

unfoldable pub frames_layout : List Frame → Option ℕ → Heap
unfolding frame_layout frames_size
frames_layout [] child = []
frames_layout (f ∷ fs) child =
    frames_layout fs (some (frames_size fs)) ++ frame_layout (frames_size fs) child f

unfoldable pub entries : List Frame → Option ℕ → List ParseStack
unfolding frame_entry frames_size
entries [] child = []
entries (f ∷ fs) child = frame_entry (frames_size fs) child f ∷ entries fs (some (frames_size fs))

-- Nothing yet; open values; or the whole root value.
pub data Site : Type 0 where
  nothing : Site
  inside : Frame → List Frame → Site
  finished : Node Part.value → Site

-- The context of the parser.
unfoldable pub context_of : Site → Context
unfolding frames_layout entries
context_of nothing = record { heap = []; root = none; stack = [] }
context_of (inside f fs) = record {
  heap = frames_layout (f ∷ fs) none;
  root = some 0;
  stack = entries (f ∷ fs) none;
}
context_of (finished x) = record { heap = layout 0 none x; root = some 0; stack = [] }

-- A value that was completed is put into the innermost open one.
unfoldable pub put : Node Part.value → Frame → Frame
unfolding join
put x (array_frame s xs f) =
    array_frame s (join xs (element x no_elements))
      (join-Full xs (element x no_elements) f (element_before no_elements_left))
put x (object_frame s ms f (some n)) =
    object_frame s (join ms (pair n x no_members))
      (join-Full ms (pair n x no_members) f (pair_before no_members_left)) none
put x (object_frame s ms f none) = object_frame s ms f none

unfoldable pub put_in : Node Part.value → List Frame → Site
unfolding put
put_in x [] = finished x
put_in x (f ∷ fs) = inside (put x f) fs

-- The array or object of a frame, ended by a token at a span or not.
abbrev with_name : Node members → Option Span → Node members
with_name ms none = ms
with_name ms (some n) = join ms (pending n)

unfoldable pub node_of : Option Span → Frame → Node Part.value
unfolding join
node_of e (array_frame s xs f) = array_node s e xs
node_of e (object_frame s ms f n) = object_node s e (with_name ms n)

-- The frame accepts a value.
abbrev pub Accepts : Frame → Type 0
Accepts (array_frame s xs f) = Unit
Accepts (object_frame s ms f (some n)) = Unit
Accepts (object_frame s ms f none) = ⊥

one_more : (k : ℕ) → k + (1 + 0) + 0 ≡ k + 1
one_more k = omega arith

-- A value behind the blocks of the frame that it was begun in is one that was put into the frame.
pub frame_layout-put :
    (a : ℕ) (f : Frame) (x : Node Part.value)
    → Accepts f
    → frame_layout a (some (a + frame_size f)) f ++ layout (a + frame_size f) none x
      ≡ frame_layout a none (put x f)
unfolding frame_layout frame_size put count layout
frame_layout-put a (array_frame s xs f) x h =
    let e : a + (1 + size xs) ≡ a + 1 + size xs = omega arith in
    let one = element x no_elements in
    rw
      (
        e,
        head-join (a + 1) none xs one f,
        layout-join (a + 1) none xs one f,
        count-join xs one f,
        one_more (count xs),
      )
      (simp append-nil)
frame_layout-put a (object_frame s ms f (some n)) x h =
    let e : a + (1 + size ms + 1) ≡ a + 1 + size ms + 1 = omega arith in
    let one = pair n x no_members in
    rw
      (
        e,
        head-join (a + 1) none ms one f,
        layout-join (a + 1) none ms one f,
        count-join ms one f,
        one_more (count ms),
      )
      (simp (append-nil, append_assoc))
frame_layout-put a (object_frame s ms f none) x h = absurd h

pub length-frame_layout :
    (a : ℕ) (child : Option ℕ) (f : Frame) → length (frame_layout a child f) ≡ frame_size f
unfolding frame_layout frame_size
length-frame_layout a child (array_frame s xs f) = omega (arith, length-layout (a + 1) child xs)
length-frame_layout a child (object_frame s ms f none) =
    omega (arith, length-layout (a + 1) none ms, length-append (layout (a + 1) none ms) [])
length-frame_layout a child (object_frame s ms f (some n)) =
    let m : Option ℕ = some (a + 1 + size ms) in
    omega (
      arith,
      length-layout (a + 1) m ms,
      length-append (layout (a + 1) m ms) (member none child n ∷ []),
    )

pub length-frames_layout :
    (fs : List Frame) (child : Option ℕ) → length (frames_layout fs child) ≡ frames_size fs
unfolding frames_layout
length-frames_layout [] child = refl
length-frames_layout (f ∷ fs) child =
    let below = frames_layout fs (some (frames_size fs)) in
    omega (
      arith,
      length-append below (frame_layout (frames_size fs) child f),
      length-frames_layout fs (some (frames_size fs)),
      length-frame_layout (frames_size fs) child f,
    )

-- The blocks of a frame that holds no open value are those of its array or object, not ended.
pub frame_layout-node_of :
    (a : ℕ) (f : Frame) → frame_layout a none f ≡ layout a none (node_of none f)
unfolding frame_layout node_of layout
frame_layout-node_of a (array_frame s xs f) =
    let e : count xs + 0 ≡ count xs = omega arith in rw e refl
frame_layout-node_of a (object_frame s ms f none) =
    let e : count ms + 0 ≡ count ms = omega arith in rw e (simp append-nil)
frame_layout-node_of a (object_frame s ms f (some n)) =
    rw
      (
        head-join (a + 1) none ms (pending n) f,
        layout-join (a + 1) none ms (pending n) f,
        count-join ms (pending n) f,
      )
      refl

-- All open values below the innermost wait for one.
abbrev pub AllAccept : List Frame → Type 0
AllAccept [] = Unit
AllAccept (f ∷ fs) = Accepts f × AllAccept fs

-- The tree of all that was read, with its open values not ended.
unfoldable pub plug : List Frame → Node Part.value → Node Part.value
plug [] x = x
plug (f ∷ fs) x = plug fs (node_of none (put x f))

pub frames_layout-plug :
    (fs : List Frame) (x : Node Part.value)
    → AllAccept fs
    → frames_layout fs (some (frames_size fs)) ++ layout (frames_size fs) none x
      ≡ layout 0 none (plug fs x)
unfolding frames_layout plug
frames_layout-plug [] x h = refl
frames_layout-plug (f ∷ fs) x h =
    let a = frames_size fs in
    append_assoc (frames_layout fs (some a)) (frame_layout a (some (a + frame_size f)) f)
      (layout (a + frame_size f) none x)
    ∙ rw (frame_layout-put a f x h.0, frame_layout-node_of a (put x f))
        (frames_layout-plug fs (node_of none (put x f)) h.1)
