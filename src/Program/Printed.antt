-- ===== src/Program/Printed.antt =====
-- What src/judo_main.c prints of a tree in memory.
use mathlib.Core.Path.{subst}
use judo.Base.{
  ℕ, zero, suc, ◌+◌, ◌≤◌, ◌≡◌, refl, sym, ap, ◌∙◌, arith, Option, none, some, List, [], ◌∷◌, ◌++◌,
  append_assoc, length, length-append, get_elem?-append, codes,
}
use judo.Parser.{Block, member, Heap}
use judo.Parser.Free.Rounds.{judo_next-layout}
use judo.Parser.Free.Releases.{follows}
use judo.Parser.Tree.{
  Node, scalar, array_node, object_node, no_elements, element, no_members, pair, pending,
  scalar_block, placed, head, layout, size, height, whole, count,
}
use judo.Parser.Tree.Layout.{length-layout}
use judo.Parser.Tree.Links.{front}
use judo.Program.{print_span, print_elements, print_members, print_tree, comma}
use judo.Scanner.Grammar.{Part, elements, members}
use judo.Program.Steps.{
  print_scalar, print_array, print_object, print_element, print_member, no_tree, no_more,
  size_positive, size-heap,
}

-- A comma before what follows in a list, if anything does.
abbrev separator : {p : Part} → Node p → List ℕ
separator no_elements = []
separator no_members = []
separator _ = codes ","

-- The text of a tree without spaces.
unfoldable pub compact : (ℕ → ℕ) → {p : Part} → Node p → List ℕ
compact source (scalar k span) = print_span source span
compact source (array_node s e xs) = codes "[" ++ (compact source xs ++ codes "]")
compact source (object_node s e ms) = codes "{" ++ (compact source ms ++ codes "}")
compact source no_elements = []
compact source (element x xs) = compact source x ++ (separator xs ++ compact source xs)
compact source no_members = []
compact source (pair name x ms) =
    print_span source name
    ++ (codes ":" ++ (compact source x ++ (separator ms ++ compact source ms)))
compact source (pending name) = print_span source name ++ (codes ":" ++ [])

comma-head : (a : ℕ) {p : Part} (xs : Node p) → comma (head a none xs) ≡ separator xs
comma-head a (scalar k span) = refl
comma-head a (array_node s e xs) = refl
comma-head a (object_node s e ms) = refl
comma-head a no_elements = refl
comma-head a (element x xs) = refl
comma-head a no_members = refl
comma-head a (pair name x ms) = refl
comma-head a (pending name) = refl

-- The text that is printed of a value, of elements and of members.
abbrev prints : Part → ℕ → ℕ → Heap → (ℕ → ℕ) → ℕ → Option ℕ → Option (List ℕ)
prints Part.value levels fuel heap source a first = print_tree levels heap source (some a)
prints elements levels fuel heap source a first =
    print_elements fuel (print_tree levels heap source) heap first
prints members levels fuel heap source a first =
    print_members fuel (print_tree levels heap source) heap source first

module _ (source : ℕ → ℕ) where
  printed :
      {p : Part} (x : Node p) (before : Heap) (a : ℕ) (after : Option ℕ) (behind : Heap)
      (levels fuel : ℕ)
      → length before ≡ a
      → height x ≤ levels
      → size x ≤ fuel
      → prints p
          (suc levels)
          fuel
          (before ++ (layout a (follows p after) x ++ behind))
          source
          a
          (head a none x)
        ≡ some (compact source x)
  unfolding height size compact layout front
  printed (scalar k span) before a after behind levels fuel e le s =
      print_scalar source k levels _ a after span
        (get_elem?-append before a (scalar_block k (placed after span)) behind e)
  printed (array_node sp end xs) before a after behind zero fuel e le s = absurd (omega (arith, le))
  printed (array_node sp end xs) before a after behind (suc levels) fuel e le s =
      let b = Block.array (placed after (whole sp end)) (head (a + 1) none xs) (count xs) in
      let rest = layout (a + 1) none xs ++ behind in
      let heap = before ++ (b ∷ rest) in
      let there : length (before ++ (b ∷ [])) ≡ a + 1 =
        omega (arith, length-append before (b ∷ []), e) in
      print_array source (suc levels) heap a (count xs) (placed after (whole sp end))
        (head (a + 1) none xs) (compact source xs) (get_elem?-append before a b rest e)
        (subst
          (λ h.
            prints elements (suc levels) (length h) h source (a + 1) (head (a + 1) none xs)
            ≡ some (compact source xs))
          (append_assoc before (b ∷ []) rest)
          (printed xs (before ++ (b ∷ [])) (a + 1) none behind levels _ there (omega (arith, le))
            (size-heap source xs (before ++ (b ∷ [])) (a + 1) none behind)))
  printed (object_node sp end ms) before a after behind zero fuel e le s =
      absurd (omega (arith, le))
  printed (object_node sp end ms) before a after behind (suc levels) fuel e le s =
      let b = Block.object (placed after (whole sp end)) (head (a + 1) none ms) (count ms) in
      let rest = layout (a + 1) none ms ++ behind in
      let heap = before ++ (b ∷ rest) in
      let there : length (before ++ (b ∷ [])) ≡ a + 1 =
        omega (arith, length-append before (b ∷ []), e) in
      print_object source (suc levels) heap a (count ms) (placed after (whole sp end))
        (head (a + 1) none ms) (compact source ms) (get_elem?-append before a b rest e)
        (subst
          (λ h.
            prints members (suc levels) (length h) h source (a + 1) (head (a + 1) none ms)
            ≡ some (compact source ms))
          (append_assoc before (b ∷ []) rest)
          (printed ms (before ++ (b ∷ [])) (a + 1) none behind levels _ there (omega (arith, le))
            (size-heap source ms (before ++ (b ∷ [])) (a + 1) none behind)))
  printed no_elements before a after behind levels fuel e le s = unfold print_elements in refl
  printed no_members before a after behind levels fuel e le s = unfold print_members in refl
  printed (element x xs) before a after behind levels zero e le s =
      absurd (omega (arith, s, size_positive source x))
  printed (element x xs) before a after behind levels (suc fuel) e le s =
      let next = head (a + size x) none xs in
      let rest = layout (a + size x) none xs ++ behind in
      let lx = layout a next x in
      let there : length (before ++ lx) ≡ a + size x =
        omega (arith, length-append before lx, e, length-layout a next x) in
      let at_x = printed x before a next rest levels (size x) e (omega (arith, le)) (omega arith) in
      let at_xs =
        subst
          (λ h.
            print_elements fuel (print_tree (suc levels) h source) h next
            ≡ some (compact source xs))
          (append_assoc before lx rest)
          (printed xs (before ++ lx) (a + size x) none behind levels fuel there (omega (arith, le))
            (omega (arith, s, size_positive source x))) in
      subst
        (λ h.
          print_elements (suc fuel) (print_tree (suc levels) h source) h (some a)
          ≡ some (compact source (element x xs)))
        (ap (λ h. before ++ h) (sym (append_assoc lx (layout (a + size x) none xs) behind)))
        (print_element source fuel a (print_tree (suc levels) (before ++ (lx ++ rest)) source)
            (before ++ (lx ++ rest)) next (compact source x) (compact source xs) at_x
            (judo_next-layout before a e next x rest) at_xs
          ∙ ap (λ c. some (compact source x ++ (c ++ compact source xs)))
              (comma-head (a + size x) xs))
  printed (pair name x ms) before a after behind levels zero e le s = absurd (omega (arith, s))
  printed (pair name x ms) before a after behind levels (suc fuel) e le s =
      let val = some (a + 1) in
      let next = head (a + 1 + size x) none ms in
      let lms = layout (a + 1 + size x) none ms in
      let lx = layout (a + 1) none x in
      let b = member next val name in
      let here = before ++ (b ∷ []) in
      let there : length here ≡ a + 1 = omega (arith, length-append before (b ∷ []), e) in
      let behind_x : length (here ++ lx) ≡ a + 1 + size x =
        omega (arith, length-append here lx, there, length-layout (a + 1) none x) in
      let heap = before ++ (b ∷ (lx ++ (lms ++ behind))) in
      let at_x =
        subst (λ h. print_tree (suc levels) h source val ≡ some (compact source x))
          (append_assoc before (b ∷ []) (lx ++ (lms ++ behind)))
          (printed x here (a + 1) none (lms ++ behind) levels (size x) there (omega (arith, le))
            (omega arith)) in
      let at_ms =
        subst
          (λ h.
            print_members fuel (print_tree (suc levels) h source) h source next
            ≡ some (compact source ms))
          (append_assoc here lx (lms ++ behind)
            ∙ append_assoc before (b ∷ []) (lx ++ (lms ++ behind)))
          (printed ms (here ++ lx) (a + 1 + size x) none behind levels fuel behind_x
            (omega (arith, le)) (omega (arith, s))) in
      subst
        (λ h.
          print_members (suc fuel) (print_tree (suc levels) h source) h source (some a)
          ≡ some (compact source (pair name x ms)))
        (ap (λ h. before ++ (b ∷ h)) (sym (append_assoc lx lms behind)))
        (print_member source fuel a (print_tree (suc levels) heap source) heap next val name
            (compact source x) (compact source ms)
            (get_elem?-append before a b (lx ++ (lms ++ behind)) e) at_x at_ms
          ∙ ap
              (λ c. some (
                print_span source name
                ++ (codes ":" ++ (compact source x ++ (c ++ compact source ms)))))
              (comma-head (a + 1 + size x) ms))
  printed (pending name) before a after behind levels zero e le s = absurd (omega (arith, s))
  printed (pending name) before a after behind levels (suc fuel) e le s =
      print_member source fuel a
        (print_tree (suc levels) (before ++ (member none none name ∷ behind)) source) _ none none
        name [] [] (get_elem?-append before a (member none none name) behind e)
        (no_tree source (suc levels) _ (omega arith)) (no_more source fuel _ _)

  -- A tree of so many levels at most, at the begin of the memory, is printed as its compact text.
  pub print_tree-compact :
      (x : Node Part.value) (levels : ℕ) (behind : Heap)
      → height x ≤ levels
      → print_tree (suc levels) (layout 0 none x ++ behind) source (some 0)
        ≡ some (compact source x)
  print_tree-compact x levels behind le =
      printed x [] 0 none behind levels (size x) refl le (omega arith)
