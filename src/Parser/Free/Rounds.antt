-- ===== src/Parser/Free/Rounds.antt =====
-- The rounds of `judo_free` in src/judo_parse.c, one at a time.
use judo.Base.{
  ℕ, suc, ◌<◌, ◌≡◌, refl, ap, arith, false, Option, none, some, List, ◌∷◌, ◌++◌, length, ltb, true,
  get_elem?, get_elem?-append, set-append,
}
use judo.Parser.{
  Block, Value, value, boolean, array, object, member, released, Heap, ◌>>=◌, judo_next,
  judo_membnext, judo_membvalue, descriptor,
}
use judo.Parser.Free.{
  FreeStack, FreeState, free_value, free_element, free_member, release, push, push_rest,
  free_next_element, free_next_member, free_block, free_round, free_loop, is_released,
}
use judo.Parser.Tree.{Node, scalar, array_node, object_node, scalar_block, placed, layout}
use judo.Parser.Tree.Links.{front, inside, layout-front}
use judo.Scanner.Grammar.{IsScalar, Part}

pub free_loop-free_round :
    (maxdepth k : ℕ) (h : Heap) (top : FreeStack) (st : List FreeStack) (s : FreeState)
    → free_round maxdepth h top st ≡ some s
    → free_loop maxdepth (suc k) h (top ∷ st) ≡ free_loop maxdepth k s.heap s.stack
unfolding free_loop
free_loop-free_round maxdepth k h top st s e = rw (e, ◌>>=◌) refl

pub release-append :
    (before : Heap) (a : ℕ) (b : Block) (behind : Heap)
    → length before ≡ a
    → is_released b ≡ false
    → release a (before ++ (b ∷ behind)) ≡ some (before ++ (released ∷ behind))
unfolding release
release-append before a b behind e h =
    rw (get_elem?-append before a b behind e, ◌>>=◌)
      (rw (h, set-append before a b released behind e) refl)

-- The list at a pointer, on the stack if there is one.
abbrev pub over : (ℕ → FreeStack) → Option ℕ → List FreeStack → List FreeStack
over f none st = st
over f (some p) st = f p ∷ st

push_room :
    (maxdepth : ℕ) (f : FreeStack) (st : List FreeStack)
    → length st < maxdepth
    → push maxdepth f st ≡ some (f ∷ st)
unfolding push
push_room maxdepth f st lt =
    let room : ltb (length st) maxdepth ≡ true = ground arith in rw room refl

push_rest_room :
    (maxdepth : ℕ) (f : ℕ → FreeStack) (p : Option ℕ) (st : List FreeStack)
    → length st < maxdepth
    → push_rest maxdepth f p st ≡ some (over f p st)
unfolding push_rest
push_rest_room maxdepth f none st lt = refl
push_rest_room maxdepth f (some p) st lt = push_room maxdepth (f p) st lt

abbrev pub one_element : ℕ → FreeStack
one_element p = free_element (some p)

abbrev pub one_member : ℕ → FreeStack
one_member p = free_member (some p)

-- What is pushed when a value is popped.
abbrev pub opens_rest : Block → List FreeStack → List FreeStack
opens_rest (array d first n) st = over one_element first st
opens_rest (object d members n) st = over one_member members st
opens_rest _ st = st

free_block-released :
    (maxdepth p : ℕ) (b : Block) (st : List FreeStack) (h h' : Heap) (d : Value)
    → descriptor b ≡ some d
    → length st < maxdepth
    → release p h ≡ some h'
    → free_block maxdepth p b st h ≡ some (record { heap = h'; stack = opens_rest b st })
unfolding free_block
free_block-released maxdepth p (value type d) st h h' v e lt r = rw (r, ◌>>=◌) refl
free_block-released maxdepth p (boolean d b) st h h' v e lt r = rw (r, ◌>>=◌) refl
free_block-released maxdepth p (array d first n) st h h' v e lt r =
    rw (push_rest_room maxdepth one_element first st lt, ◌>>=◌) (rw (r, ◌>>=◌) refl)
free_block-released maxdepth p (object d ms n) st h h' v e lt r =
    rw (push_rest_room maxdepth one_member ms st lt, ◌>>=◌) (rw (r, ◌>>=◌) refl)
free_block-released maxdepth p (member next val name) st h h' v e lt r = absurd (no_descriptor e)
  where
    no_descriptor : none ≡ some v → ⊥
    no_descriptor e = cc
free_block-released maxdepth p released st h h' v e lt r = absurd (no_descriptor e)
  where
    no_descriptor : none ≡ some v → ⊥
    no_descriptor e = cc

descriptor-scalar_block :
    {t : _} (k : IsScalar t) (d : Value) → descriptor (scalar_block k d) ≡ some d
descriptor-scalar_block IsScalar.null d = refl
descriptor-scalar_block IsScalar.boolean_true d = refl
descriptor-scalar_block IsScalar.boolean_false d = refl
descriptor-scalar_block IsScalar.number d = refl
descriptor-scalar_block IsScalar.string d = refl

pub descriptor-front :
    (a : ℕ) (after : Option ℕ) (x : Node Part.value)
    → (d : Value) × (descriptor (front a after x) ≡ some d) × (d.next ≡ after)
unfolding front
descriptor-front a after (scalar k span) = (placed after span, descriptor-scalar_block k _, refl)
descriptor-front a after (array_node s e xs) = (_, refl, refl)
descriptor-front a after (object_node s e ms) = (_, refl, refl)

module _ (before : Heap) (a : ℕ) (e : length before ≡ a) where
  pub get_elem?-layout :
      (after : Option ℕ) (x : Node Part.value) (behind : Heap)
      → get_elem? (before ++ (layout a after x ++ behind)) a ≡ some (front a after x)
  get_elem?-layout after x behind =
      rw (layout-front a after x)
        (get_elem?-append before a (front a after x) (inside a x ++ behind) e)

  pub judo_next-layout :
      (after : Option ℕ) (x : Node Part.value) (behind : Heap)
      → judo_next (before ++ (layout a after x ++ behind)) (some a) ≡ some after
  unfolding judo_next
  judo_next-layout after x behind =
      let (d, described, next) = descriptor-front a after x in
      rw (get_elem?-layout after x behind, ◌>>=◌) (rw (described, ◌>>=◌) (ap some next))

module _ (maxdepth : ℕ) where
  pub value_round :
      (h h' : Heap) (p : ℕ) (b : Block) (st : List FreeStack) (d : Value)
      → get_elem? h p ≡ some b
      → descriptor b ≡ some d
      → length st < maxdepth
      → release p h ≡ some h'
      → free_round maxdepth h (free_value (some p)) st
        ≡ some (record { heap = h'; stack = opens_rest b st })
  unfolding free_round
  value_round h h' p b st d g e lt r =
      rw (g, ◌>>=◌) (free_block-released maxdepth p b st h h' d e lt r)

  pub element_round :
      (h : Heap) (p : ℕ) (next : Option ℕ) (st : List FreeStack)
      → judo_next h (some p) ≡ some next
      → length (over one_element next st) < maxdepth
      → free_round maxdepth h (one_element p) st
        ≡ some (record { heap = h; stack = free_value (some p) ∷ over one_element next st })
  unfolding free_round free_next_element
  element_round h p none st g lt = rw (g, ◌>>=◌) refl
  element_round h p (some n) st g lt =
      rw (g, ◌>>=◌)
        (rw (push_room maxdepth (free_value (some p)) (one_element n ∷ st) lt, ◌>>=◌) refl)

  pub member_round :
      (h h' : Heap) (p : ℕ) (next val : Option ℕ) (st : List FreeStack)
      → judo_membnext h (some p) ≡ some next
      → judo_membvalue h (some p) ≡ some val
      → length (over one_member next st) < maxdepth
      → release p h ≡ some h'
      → free_round maxdepth h (one_member p) st
        ≡ some (record { heap = h'; stack = free_value val ∷ over one_member next st })
  unfolding free_round free_next_member
  member_round h h' p none val st g v lt r = rw (g, ◌>>=◌) (rw (v, ◌>>=◌) (rw (r, ◌>>=◌) refl))
  member_round h h' p (some n) val st g v lt r =
      rw (g, ◌>>=◌)
        (rw (v, ◌>>=◌)
          (rw (push_room maxdepth (free_value val) (one_member n ∷ st) lt, ◌>>=◌)
            (rw (r, ◌>>=◌) refl)))

  pub no_value_round :
      (h : Heap) (st : List FreeStack)
      → free_round maxdepth h (free_value none) st ≡ some (record { heap = h; stack = st })
  unfolding free_round
  no_value_round h st = refl

pub front_unreleased :
    (a : ℕ) (after : Option ℕ) (x : Node Part.value) → is_released (front a after x) ≡ false
unfolding front
front_unreleased a after (scalar k span) = by_scalar k (placed after span)
  where
    by_scalar : {t : _} (k : IsScalar t) (d : Value) → is_released (scalar_block k d) ≡ false
    by_scalar IsScalar.null d = refl
    by_scalar IsScalar.boolean_true d = refl
    by_scalar IsScalar.boolean_false d = refl
    by_scalar IsScalar.number d = refl
    by_scalar IsScalar.string d = refl
front_unreleased a after (array_node s e xs) = refl
front_unreleased a after (object_node s e ms) = refl
