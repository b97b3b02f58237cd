-- ===== src/Parser/Free/Releases.antt =====
-- `judo_free` of src/judo_parse.c on a tree in memory.
use judo.Api.{Span}
use judo.Base.{
  ℕ, suc, ◌+◌, ◌≤◌, ◌<◌, ◌≡◌, refl, sym, ap, ◌∙◌, arith, Option, none, some, List, [], ◌∷◌, ◌++◌,
  append_assoc, length, length-append, length-replicate, get_elem?-append, replicate, replicate_add,
}
use judo.Parser.{Value, member, released, Heap, ◌>>=◌, judo_membnext, judo_membvalue}
use judo.Parser.Free.{FreeStack, free_value, release, free_loop}
use judo.Parser.Free.Rounds.{
  free_loop-free_round, release-append, over, one_element, one_member, opens_rest, judo_next-layout,
  get_elem?-layout, descriptor-front, front_unreleased, value_round, element_round, member_round,
  no_value_round,
}
use judo.Parser.Tree.{
  Node, scalar, array_node, object_node, no_elements, element, no_members, pair, pending,
  scalar_block, placed, head, layout, size, height,
}
use judo.Parser.Tree.Links.{front, inside, layout-front}
use judo.Scanner.Grammar.{IsScalar, Part, elements, members}

-- The rounds that release a tree, before so many others.
unfoldable pub rounds_of : {p : Part} → Node p → ℕ → ℕ
rounds_of (scalar k span) n = suc n
rounds_of (array_node s e xs) n = suc (rounds_of xs n)
rounds_of (object_node s e ms) n = suc (rounds_of ms n)
rounds_of no_elements n = n
rounds_of (element x xs) n = suc (rounds_of x (rounds_of xs n))
rounds_of no_members n = n
rounds_of (pair name x ms) n = suc (rounds_of x (rounds_of ms n))
rounds_of (pending name) n = suc (suc n)

-- The entries of the stack for it, what stands behind it in a list, and the entries that it needs
-- besides one for each level.
abbrev pub on_stack : (p : Part) → ℕ → Node p → List FreeStack → List FreeStack
on_stack Part.value a x st = free_value (some a) ∷ st
on_stack elements a xs st = over one_element (head a none xs) st
on_stack members a ms st = over one_member (head a none ms) st

abbrev pub follows : Part → Option ℕ → Option ℕ
follows Part.value after = after
follows elements after = none
follows members after = none

abbrev pub own_level : Part → ℕ
own_level Part.value = 0
own_level _ = 1

pub height_positive : (x : Node Part.value) → 0 < height x
unfolding height
height_positive (scalar k span) = omega arith
height_positive (array_node s e xs) = omega arith
height_positive (object_node s e ms) = omega arith

length-over :
    (f : ℕ → FreeStack) (p : Option ℕ) (st : List FreeStack) → length (over f p st) ≤ length st + 1
length-over f none st = omega arith
length-over f (some p) st = omega arith

opens_rest-scalar_block :
    {t : _} (k : IsScalar t) (d : Value) (st : List FreeStack)
    → opens_rest (scalar_block k d) st ≡ st
opens_rest-scalar_block IsScalar.null d st = refl
opens_rest-scalar_block IsScalar.boolean_true d st = refl
opens_rest-scalar_block IsScalar.boolean_false d st = refl
opens_rest-scalar_block IsScalar.number d st = refl
opens_rest-scalar_block IsScalar.string d st = refl

replicate_more :
    (before behind : Heap) (n : ℕ)
    → (before ++ (released ∷ [])) ++ (replicate n released ++ behind)
      ≡ before ++ (replicate (1 + n) released ++ behind)
replicate_more before behind n =
    let e : 1 + n ≡ suc n = omega arith in
    rw e (append_assoc before (released ∷ []) (replicate n released ++ behind))

replicate_both :
    (before behind : Heap) (m n : ℕ)
    → (before ++ replicate m released) ++ (replicate n released ++ behind)
      ≡ before ++ (replicate (m + n) released ++ behind)
replicate_both before behind m n = rw (replicate_add m n released) (simp append_assoc)

module _ (maxdepth : ℕ) where
  -- The first round releases the first block of a value.
  first_round :
      (x : Node Part.value) (k : ℕ) (before : Heap) (a : ℕ) (after : Option ℕ) (behind : Heap)
      (st : List FreeStack)
      → length before ≡ a
      → length st < maxdepth
      → free_loop maxdepth
          (suc k)
          (before ++ (layout a after x ++ behind))
          (free_value (some a) ∷ st)
        ≡ free_loop maxdepth k
            ((before ++ (released ∷ [])) ++ (inside a x ++ behind))
            (opens_rest (front a after x) st)
  first_round x k before a after behind st e lt =
      let (d, described, next) = descriptor-front a after x in
      let freed : release a (before ++ (layout a after x ++ behind))
          ≡ some ((before ++ (released ∷ [])) ++ (inside a x ++ behind)) =
        rw (layout-front a after x, append_assoc before (released ∷ []) (inside a x ++ behind))
          (release-append before a (front a after x) (inside a x ++ behind) e
            (front_unreleased a after x)) in
      free_loop-free_round maxdepth k _ (free_value (some a)) st _ (
        value_round maxdepth (before ++ (layout a after x ++ behind)) _ a (front a after x) st d
          (get_elem?-layout before a e after x behind) described lt freed)

  -- The round of an element, which pushes its value and the rest of the list.
  element_first :
      (x : Node Part.value) (k : ℕ) (before : Heap) (a : ℕ) (next : Option ℕ) (behind : Heap)
      (st : List FreeStack)
      → length before ≡ a
      → length (over one_element next st) < maxdepth
      → free_loop maxdepth (suc k) (before ++ (layout a next x ++ behind)) (one_element a ∷ st)
        ≡ free_loop maxdepth k
            (before ++ (layout a next x ++ behind))
            (free_value (some a) ∷ over one_element next st)
  element_first x k before a next behind st e lt =
      free_loop-free_round maxdepth k _ (one_element a) st _ (
        element_round maxdepth (before ++ (layout a next x ++ behind)) a next st
          (judo_next-layout before a e next x behind) lt)

  -- The round of a member, which releases it, and pushes its value and the rest of the list.
  member_first :
      (name : Span) (k : ℕ) (before : Heap) (a : ℕ) (next val : Option ℕ) (behind : Heap)
      (st : List FreeStack)
      → length before ≡ a
      → length (over one_member next st) < maxdepth
      → free_loop maxdepth (suc k) (before ++ (member next val name ∷ behind)) (one_member a ∷ st)
        ≡ free_loop maxdepth k
            ((before ++ (released ∷ [])) ++ behind)
            (free_value val ∷ over one_member next st)
  member_first name k before a next val behind st e lt =
      let h = before ++ (member next val name ∷ behind) in
      let read = get_elem?-append before a (member next val name) behind e in
      let next_is : judo_membnext h (some a) ≡ some next =
        unfold judo_membnext in rw (read, ◌>>=◌) refl in
      let val_is : judo_membvalue h (some a) ≡ some val =
        unfold judo_membvalue in rw (read, ◌>>=◌) refl in
      free_loop-free_round maxdepth k h (one_member a) st _ (
        member_round maxdepth h ((before ++ (released ∷ [])) ++ behind) a next val st next_is val_is
          lt
          (rw (append_assoc before (released ∷ []) behind)
            (release-append before a (member next val name) behind e refl)))

  pub frees :
      {p : Part} (x : Node p) (k : ℕ) (before : Heap) (a : ℕ) (after : Option ℕ) (behind : Heap)
      (st : List FreeStack)
      → length before ≡ a
      → length st + own_level p + height x ≤ maxdepth
      → free_loop maxdepth
          (rounds_of x k)
          (before ++ (layout a (follows p after) x ++ behind))
          (on_stack p a x st)
        ≡ free_loop maxdepth k (before ++ (replicate (size x) released ++ behind)) st
  unfolding rounds_of height size layout inside front
  frees (scalar c span) k before a after behind st e le =
      first_round (scalar c span) k before a after behind st e (omega arith)
      ∙ rw
          (
            opens_rest-scalar_block c (placed after span) st,
            append_assoc before (released ∷ []) behind,
          )
          refl
  frees (array_node s end xs) k before a after behind st e le =
      let there : length (before ++ (released ∷ [])) ≡ a + 1 =
        omega (arith, length-append before (released ∷ []), e) in
      first_round (array_node s end xs) (rounds_of xs k) before a after behind st e (omega arith)
      ∙ (frees xs k (before ++ (released ∷ [])) (a + 1) none behind st there (omega arith))
      ∙ ap (λ h. free_loop maxdepth k h st) (replicate_more before behind (size xs))
  frees (object_node s end ms) k before a after behind st e le =
      let there : length (before ++ (released ∷ [])) ≡ a + 1 =
        omega (arith, length-append before (released ∷ []), e) in
      first_round (object_node s end ms) (rounds_of ms k) before a after behind st e (omega arith)
      ∙ (frees ms k (before ++ (released ∷ [])) (a + 1) none behind st there (omega arith))
      ∙ ap (λ h. free_loop maxdepth k h st) (replicate_more before behind (size ms))
  frees no_elements k before a after behind st e le = refl
  frees no_members k before a after behind st e le = refl
  frees (element x xs) k before a after behind st e le =
      let next = head (a + size x) none xs in
      let rest = layout (a + size x) none xs in
      let st' = over one_element next st in
      let deep = length-over one_element next st in
      let there : length (before ++ replicate (size x) released) ≡ a + size x = omega (
        arith,
        length-append before (replicate (size x) released),
        e,
        length-replicate (size x) released,
      ) in
      ap (λ h. free_loop maxdepth (suc (rounds_of x (rounds_of xs k))) h (one_element a ∷ st))
        (ap (λ h. before ++ h) (append_assoc (layout a next x) rest behind))
      ∙ element_first x (rounds_of x (rounds_of xs k)) before a next (rest ++ behind) st e
          (omega (arith, height_positive x, deep, le))
      ∙ frees x (rounds_of xs k) before a next (rest ++ behind) st' e (omega (arith, deep, le))
      ∙ ap (λ h. free_loop maxdepth (rounds_of xs k) h st')
          (sym (append_assoc before (replicate (size x) released) (rest ++ behind)))
      ∙ frees xs k (before ++ replicate (size x) released) (a + size x) none behind st there
          (omega (arith, le))
      ∙ ap (λ h. free_loop maxdepth k h st) (replicate_both before behind (size x) (size xs))
  frees (pair name x ms) k before a after behind st e le =
      let here = before ++ (released ∷ []) in
      let there : length here ≡ a + 1 = omega (arith, length-append before (released ∷ []), e) in
      let next = head (a + 1 + size x) none ms in
      let rest = layout (a + 1 + size x) none ms in
      let st' = over one_member next st in
      let deep = length-over one_member next st in
      let behind_x : length (here ++ replicate (size x) released) ≡ a + 1 + size x = omega (
        arith,
        length-append here (replicate (size x) released),
        there,
        length-replicate (size x) released,
      ) in
      member_first name (rounds_of x (rounds_of ms k)) before a next (some (a + 1))
        ((layout (a + 1) none x ++ rest) ++ behind) st e
        (omega (arith, height_positive x, deep, le))
      ∙ ap
          (λ h.
            free_loop maxdepth (rounds_of x (rounds_of ms k)) h (free_value (some (a + 1)) ∷ st'))
          (ap (λ h. here ++ h) (append_assoc (layout (a + 1) none x) rest behind))
      ∙ frees x (rounds_of ms k) here (a + 1) none (rest ++ behind) st' there
          (omega (arith, deep, le))
      ∙ ap (λ h. free_loop maxdepth (rounds_of ms k) h st')
          (sym (append_assoc here (replicate (size x) released) (rest ++ behind)))
      ∙ frees ms k (here ++ replicate (size x) released) (a + 1 + size x) none behind st behind_x
          (omega (arith, le))
      ∙ ap (λ h. free_loop maxdepth k h st)
          (replicate_both here behind (size x) (size ms)
            ∙ replicate_more before behind (size x + size ms)
            ∙ ap (λ n. before ++ (replicate n released ++ behind)) (omega arith))
  frees (pending name) k before a after behind st e le =
      member_first name (suc k) before a none none behind st e (omega (arith, le))
      ∙ free_loop-free_round maxdepth k _ (free_value none) st _
          (no_value_round maxdepth ((before ++ (released ∷ [])) ++ behind) st)
      ∙ ap (λ h. free_loop maxdepth k h st) (append_assoc before (released ∷ []) behind)
