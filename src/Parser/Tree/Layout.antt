-- ===== src/Parser/Tree/Layout.antt =====
-- Lists of elements and members that are put together, and their blocks.
use judo.Api.{Span}
use judo.Base.{
  ℕ, ◌+◌, ◌≡◌, refl, arith, Option, none, some, ◌++◌, append_assoc, length, length-append, max,
}
use judo.Parser.Tree.{
  Node, scalar, array_node, object_node, no_elements, element, no_members, pair, pending, size,
  height, count, head, layout, events,
}
use judo.Scanner.Grammar.{Part, elements, members}

-- A list whose last member has its value.
pub data Full : (p : Part) → Node p → Type 0 where
  no_elements_left : Full elements no_elements
  element_before :
      {x : Node Part.value} {xs : Node elements} → Full elements xs → Full elements (element x xs)
  no_members_left : Full members no_members
  pair_before :
      {name : Span} {x : Node Part.value} {ms : Node members}
      → Full members ms
      → Full members (pair name x ms)

unfoldable pub join : {p : Part} → Node p → Node p → Node p
join no_elements ys = ys
join (element x xs) ys = element x (join xs ys)
join no_members ys = ys
join (pair name x ms) ys = pair name x (join ms ys)
join x ys = x

-- The last element or member of a list at `a`, or `before` if there is none.
unfoldable pub last : {p : Part} → ℕ → Option ℕ → Node p → Option ℕ
unfolding size
last a before (element x xs) = last (a + size x) (some a) xs
last a before (pair name x ms) = last (a + 1 + size x) (some a) ms
last a before (pending name) = some a
last a before _ = before

pub length-layout :
    {p : Part} (a : ℕ) (after : Option ℕ) (x : Node p) → length (layout a after x) ≡ size x
unfolding layout size
length-layout a after (scalar k span) = refl
length-layout a after (array_node s e xs) = omega (arith, length-layout (a + 1) none xs)
length-layout a after (object_node s e ms) = omega (arith, length-layout (a + 1) none ms)
length-layout a after no_elements = refl
length-layout a after (element x xs) = omega (
  arith,
  length-append (layout a (head (a + size x) after xs) x) (layout (a + size x) after xs),
  length-layout a (head (a + size x) after xs) x,
  length-layout (a + size x) after xs,
)
length-layout a after no_members = refl
length-layout a after (pair name x ms) = omega (
  arith,
  length-append (layout (a + 1) none x) (layout (a + 1 + size x) after ms),
  length-layout (a + 1) none x,
  length-layout (a + 1 + size x) after ms,
)
length-layout a after (pending name) = refl

pub join-Full : {p : Part} (xs ys : Node p) → Full p xs → Full p ys → Full p (join xs ys)
unfolding join
join-Full _ ys no_elements_left g = g
join-Full _ ys (element_before {x} {xs} f) g = element_before (join-Full xs ys f g)
join-Full _ ys no_members_left g = g
join-Full _ ys (pair_before {name} {x} {ms} f) g = pair_before (join-Full ms ys f g)

pub size-join : {p : Part} (xs ys : Node p) → Full p xs → size (join xs ys) ≡ size xs + size ys
unfolding join size
size-join _ ys no_elements_left = omega arith
size-join _ ys (element_before {x} {xs} f) = omega (arith, size-join xs ys f)
size-join _ ys no_members_left = omega arith
size-join _ ys (pair_before {name} {x} {ms} f) = omega (arith, size-join ms ys f)

pub count-join : {p : Part} (xs ys : Node p) → Full p xs → count (join xs ys) ≡ count xs + count ys
unfolding join count
count-join _ ys no_elements_left = omega arith
count-join _ ys (element_before {x} {xs} f) = omega (arith, count-join xs ys f)
count-join _ ys no_members_left = omega arith
count-join _ ys (pair_before {name} {x} {ms} f) = omega (arith, count-join ms ys f)

pub height-join :
    {p : Part} (xs ys : Node p) → Full p xs → height (join xs ys) ≡ max (height xs) (height ys)
unfolding join height
height-join _ ys no_elements_left = omega arith
height-join _ ys (element_before {x} {xs} f) = omega (arith, height-join xs ys f)
height-join _ ys no_members_left = omega arith
height-join _ ys (pair_before {name} {x} {ms} f) = omega (arith, height-join ms ys f)

pub events-join :
    {p : Part} (xs ys : Node p) → Full p xs → events (join xs ys) ≡ events xs ++ events ys
unfolding join events
events-join _ ys no_elements_left = refl
events-join _ ys (element_before {x} {xs} f) = rw (events-join xs ys f) (simp append_assoc)
events-join _ ys no_members_left = refl
events-join _ ys (pair_before {name} {x} {ms} f) = rw (events-join ms ys f) (simp append_assoc)

pub head-join :
    {p : Part} (a : ℕ) (after : Option ℕ) (xs ys : Node p)
    → Full p xs
    → head a after (join xs ys) ≡ head a (head (a + size xs) after ys) xs
unfolding join size
head-join a after _ ys no_elements_left = let e : a + 0 ≡ a = omega arith in rw e refl
head-join a after _ ys (element_before {x} {xs} f) = refl
head-join a after _ ys no_members_left = let e : a + 0 ≡ a = omega arith in rw e refl
head-join a after _ ys (pair_before {name} {x} {ms} f) = refl

pub layout-join :
    {p : Part} (a : ℕ) (after : Option ℕ) (xs ys : Node p)
    → Full p xs
    → layout a after (join xs ys)
      ≡ layout a (head (a + size xs) after ys) xs ++ layout (a + size xs) after ys
unfolding join layout size
layout-join a after _ ys no_elements_left = let e : a + 0 ≡ a = omega arith in rw e refl
layout-join a after _ ys (element_before {x} {xs} f) =
    let e : a + size x + size xs ≡ a + (size x + size xs) = omega arith in
    rw (head-join (a + size x) after xs ys f, layout-join (a + size x) after xs ys f, e)
      (simp append_assoc)
layout-join a after _ ys no_members_left = let e : a + 0 ≡ a = omega arith in rw e refl
layout-join a after _ ys (pair_before {name} {x} {ms} f) =
    let e : a + 1 + size x + size ms ≡ a + (1 + size x + size ms) = omega arith in
    rw (head-join (a + 1 + size x) after ms ys f, layout-join (a + 1 + size x) after ms ys f, e)
      (simp append_assoc)

pub last-join-element :
    (a : ℕ) (before : Option ℕ) (xs : Node elements) (x : Node Part.value)
    → last a before (join xs (element x no_elements)) ≡ some (a + size xs)
unfolding join last size
last-join-element a before no_elements x = let e : a + 0 ≡ a = omega arith in rw e refl
last-join-element a before (element y ys) x =
    let e : a + size y + size ys ≡ a + (size y + size ys) = omega arith in
    rw (← e) (last-join-element (a + size y) (some a) ys x)

pub last-join-pair :
    (a : ℕ) (before : Option ℕ) (ms : Node members) (name : Span) (x : Node Part.value)
    → Full members ms
    → last a before (join ms (pair name x no_members)) ≡ some (a + size ms)
unfolding join last size
last-join-pair a before _ name x no_members_left = let e : a + 0 ≡ a = omega arith in rw e refl
last-join-pair a before _ name x (pair_before {name = n} {x = y} {ms} f) =
    let e : a + 1 + size y + size ms ≡ a + (1 + size y + size ms) = omega arith in
    rw (← e) (last-join-pair (a + 1 + size y) (some a) ms name x f)
