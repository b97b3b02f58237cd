-- ===== src/Parser/Tree/Links.antt =====
-- The writes of src/judo_parse.c to blocks of a tree in memory.
use judo.Api.{Span}
use judo.Base.{
  ℕ, ◌+◌, ◌<◌, ◌≡◌, refl, sym, ap, ◌∙◌, arith, Option, none, some, List, [], ◌∷◌, ◌++◌,
  append_assoc, length, length-append, get_elem?-append, set-append,
}
use judo.Parser.{Block, array, object, member, Heap, update, ◌>>=◌}
use judo.Parser.Build.{set_next, set_member_next}
use judo.Parser.Tree.{
  Node, scalar, array_node, object_node, no_elements, element, pair, size, count, head, placed,
  scalar_block, whole, layout,
}
use judo.Parser.Tree.Layout.{Full, no_members_left, pair_before, last, length-layout}
use judo.Scanner.Grammar.{IsScalar, Part, elements, members}

pub update-append :
    (before : Heap) (p : ℕ) (f : Block → Option Block) (b b' : Block) (behind : Heap)
    → length before ≡ p
    → f b ≡ some b'
    → update p f (before ++ (b ∷ behind)) ≡ some (before ++ (b' ∷ behind))
unfolding update
update-append before p f b b' behind e h =
    rw (get_elem?-append before p b behind e, ◌>>=◌)
      (rw (h, ◌>>=◌) (rw (set-append before p b b' behind e) refl))

-- A write behind a block.
pub update_behind :
    (before : Heap) (p : ℕ) (f : Block → Option Block) (b : Block) (l l' : Heap)
    → update p f ((before ++ (b ∷ [])) ++ l) ≡ some ((before ++ (b ∷ [])) ++ l')
    → update p f (before ++ (b ∷ l)) ≡ some (before ++ (b ∷ l'))
update_behind before p f b l l' h =
    ap (update p f) (sym (append_assoc before (b ∷ []) l))
    ∙ h
    ∙ ap some (append_assoc before (b ∷ []) l')

-- The first block of a value, and the others.
unfoldable pub front : ℕ → Option ℕ → Node Part.value → Block
front a after (scalar k span) = scalar_block k (placed after span)
front a after (array_node s e xs) =
    array (placed after (whole s e)) (head (a + 1) none xs) (count xs)
front a after (object_node s e ms) =
    object (placed after (whole s e)) (head (a + 1) none ms) (count ms)

unfoldable pub inside : ℕ → Node Part.value → Heap
inside a (scalar k span) = []
inside a (array_node s e xs) = layout (a + 1) none xs
inside a (object_node s e ms) = layout (a + 1) none ms

pub layout-front :
    (a : ℕ) (after : Option ℕ) (x : Node Part.value)
    → layout a after x ≡ front a after x ∷ inside a x
unfolding layout front inside
layout-front a after (scalar k span) = refl
layout-front a after (array_node s e xs) = refl
layout-front a after (object_node s e ms) = refl

set_next-scalar :
    {t : _} (k : IsScalar t) (span : Span) (q : ℕ)
    → set_next q (scalar_block k (placed none span)) ≡ some (scalar_block k (placed (some q) span))
set_next-scalar IsScalar.null span q = refl
set_next-scalar IsScalar.boolean_true span q = refl
set_next-scalar IsScalar.boolean_false span q = refl
set_next-scalar IsScalar.number span q = refl
set_next-scalar IsScalar.string span q = refl

pub set_next-front :
    (a q : ℕ) (x : Node Part.value) → set_next q (front a none x) ≡ some (front a (some q) x)
unfolding front
set_next-front a q (scalar k span) = set_next-scalar k span q
set_next-front a q (array_node s e xs) = refl
set_next-front a q (object_node s e ms) = refl

pub regroup {ℓ} :
    {A : Type ℓ} (before l m behind : List A)
    → before ++ ((l ++ m) ++ behind) ≡ (before ++ l) ++ (m ++ behind)
regroup before l m behind = simp append_assoc

-- The last element of a list is linked to what follows it.
pub update-last-elements :
    (before : Heap) (a p q : ℕ) (x : Node Part.value) (xs : Node elements) (behind : Heap)
    → length before ≡ a
    → last (a + size x) (some a) xs ≡ some p
    → update p (set_next q) (before ++ (layout a none (element x xs) ++ behind))
      ≡ some (before ++ (layout a (some q) (element x xs) ++ behind))
unfolding layout last size
update-last-elements before a p q x no_elements behind e h =
    let e' : a ≡ p = cc in
    rw (layout-front a none x, layout-front a (some q) x)
      (simp append_assoc (
        update-append before p (set_next q) (front a none x) (front a (some q) x)
          (inside a x ++ behind) (e ∙ e') (set_next-front a q x)))
update-last-elements before a p q x (element y ys) behind e h =
    let l = layout a (some (a + size x)) x in
    let e' : length (before ++ l) ≡ a + size x =
      omega (arith, length-append before l, length-layout a (some (a + size x)) x) in
    rw
      (
        regroup before l (layout (a + size x) none (element y ys)) behind,
        regroup before l (layout (a + size x) (some q) (element y ys)) behind,
      )
      (update-last-elements (before ++ l) (a + size x) p q y ys behind e' h)

pub update-last-members :
    (before : Heap) (a p q : ℕ) (earlier : Option ℕ) (ms : Node members) (behind : Heap)
    → Full members ms
    → length before ≡ a
    → 0 < size ms
    → last a earlier ms ≡ some p
    → update p (set_member_next q) (before ++ (layout a none ms ++ behind))
      ≡ some (before ++ (layout a (some q) ms ++ behind))
unfolding layout last size
update-last-members before a p q earlier _ behind no_members_left e s h = absurd (omega (arith, s))
update-last-members before a p q earlier _ behind (pair_before {name} {x} no_members_left) e s h =
    let e' : a ≡ p = cc in
    let val = layout (a + 1) none x in
    update-append before p (set_member_next q) (member none (some (a + 1)) name)
      (member (some q) (some (a + 1)) name) ((val ++ []) ++ behind) (e ∙ e') refl
update-last-members before a p q earlier _ behind
      (pair_before {name} {x} (pair_before {name = n} {x = y} {ms} f)) e s h =
    let b = a + 1 + size x in
    let l = member (some b) (some (a + 1)) name ∷ layout (a + 1) none x in
    let e' : length (before ++ l) ≡ b =
      omega (arith, length-append before l, length-layout (a + 1) none x) in
    rw
      (
        regroup before l (layout b none (pair n y ms)) behind,
        regroup before l (layout b (some q) (pair n y ms)) behind,
      )
      (update-last-members (before ++ l) b p q (some a) (pair n y ms) behind (pair_before f) e'
        (omega arith) h)
