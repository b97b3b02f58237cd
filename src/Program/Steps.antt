-- ===== src/Program/Steps.antt =====
-- Single values, elements and members that `print_tree` of src/judo_main.c prints.
use judo.Api.{Span}
use judo.Base.{
  ℕ, zero, suc, ◌≤◌, ◌<◌, ◌≡◌, refl, arith, Option, none, some, List, [], ◌++◌, length,
  length-append, get_elem?, codes,
}
use judo.Parser.{
  Value, Block, member, Heap, ◌>>=◌, judo_gettype, judo_first, judo_next, judo_membfirst,
  judo_membnext, judo_membvalue, judo_name2span, judo_value2span,
}
use judo.Parser.Tree.{Node, scalar, array_node, object_node, scalar_block, placed, layout, size}
use judo.Parser.Tree.Layout.{length-layout}
use judo.Program.{print_span, print_elements, print_members, print_typed, print_tree, comma}
use judo.Scanner.Grammar.{IsScalar, Part}

module _ (source : ℕ → ℕ) where
  pub print_scalar :
      {t : _} (k : IsScalar t) (levels : ℕ) (heap : Heap) (a : ℕ) (after : Option ℕ) (span : Span)
      → get_elem? heap a ≡ some (scalar_block k (placed after span))
      → print_tree (suc levels) heap source (some a) ≡ some (print_span source span)
  unfolding print_tree print_typed judo_gettype judo_value2span
  print_scalar IsScalar.null levels heap a after span e = rw (e, ◌>>=◌) (rw (e, ◌>>=◌) refl)
  print_scalar IsScalar.boolean_true levels heap a after span e = rw (e, ◌>>=◌) (rw (e, ◌>>=◌) refl)
  print_scalar IsScalar.boolean_false levels heap a after span e =
      rw (e, ◌>>=◌) (rw (e, ◌>>=◌) refl)
  print_scalar IsScalar.number levels heap a after span e = rw (e, ◌>>=◌) (rw (e, ◌>>=◌) refl)
  print_scalar IsScalar.string levels heap a after span e = rw (e, ◌>>=◌) (rw (e, ◌>>=◌) refl)

  pub print_array :
      (levels : ℕ) (heap : Heap) (a n : ℕ) (d : Value) (first : Option ℕ) (out : List ℕ)
      → get_elem? heap a ≡ some (Block.array d first n)
      → print_elements (length heap) (print_tree levels heap source) heap first ≡ some out
      → print_tree (suc levels) heap source (some a) ≡ some (codes "[" ++ (out ++ codes "]"))
  print_array levels heap a n d first out e h =
      unfold print_tree in
      unfold judo_gettype in
      rw (e, ◌>>=◌) (unfold print_typed in unfold judo_first in rw (e, ◌>>=◌) (rw (h, ◌>>=◌) refl))

  pub print_object :
      (levels : ℕ) (heap : Heap) (a n : ℕ) (d : Value) (first : Option ℕ) (out : List ℕ)
      → get_elem? heap a ≡ some (Block.object d first n)
      → print_members (length heap) (print_tree levels heap source) heap source first ≡ some out
      → print_tree (suc levels) heap source (some a) ≡ some (codes "{" ++ (out ++ codes "}"))
  print_object levels heap a n d first out e h =
      unfold print_tree in
      unfold judo_gettype in
      rw (e, ◌>>=◌)
        (unfold print_typed in unfold judo_membfirst in rw (e, ◌>>=◌) (rw (h, ◌>>=◌) refl))

  pub print_element :
      (fuel a : ℕ) (print : Option ℕ → Option (List ℕ)) (heap : Heap) (next : Option ℕ)
      (out rest : List ℕ)
      → print (some a) ≡ some out
      → judo_next heap (some a) ≡ some next
      → print_elements fuel print heap next ≡ some rest
      → print_elements (suc fuel) print heap (some a) ≡ some (out ++ (comma next ++ rest))
  unfolding print_elements
  print_element fuel a print heap next out rest p n r =
      rw (p, ◌>>=◌) (rw (n, ◌>>=◌) (rw (r, ◌>>=◌) refl))

  pub print_member :
      (fuel a : ℕ) (print : Option ℕ → Option (List ℕ)) (heap : Heap) (next val : Option ℕ)
      (name : Span) (out rest : List ℕ)
      → get_elem? heap a ≡ some (member next val name)
      → print val ≡ some out
      → print_members fuel print heap source next ≡ some rest
      → print_members (suc fuel) print heap source (some a)
        ≡ some (print_span source name ++ (codes ":" ++ (out ++ (comma next ++ rest))))
  unfolding print_members judo_name2span judo_membvalue judo_membnext
  print_member fuel a print heap next val name out rest e p r =
      rw (e, ◌>>=◌) (rw (p, ◌>>=◌) (rw (r, ◌>>=◌) refl))

  pub no_tree :
      (levels : ℕ) (heap : Heap) → 0 < levels → print_tree levels heap source none ≡ some []
  no_tree zero heap h = absurd (omega (arith, h))
  no_tree (suc levels) heap h =
      unfold print_tree in unfold judo_gettype in unfold print_typed in refl

  pub no_more :
      (fuel : ℕ) (print : Option ℕ → Option (List ℕ)) (heap : Heap)
      → print_members fuel print heap source none ≡ some []
  unfolding print_members
  no_more fuel print heap = refl

  pub size_positive : (x : Node Part.value) → 0 < size x
  unfolding size
  size_positive (scalar k span) = omega arith
  size_positive (array_node s e xs) = omega arith
  size_positive (object_node s e ms) = omega arith

  pub size-heap :
      {p : Part} (x : Node p) (before : Heap) (a : ℕ) (after : Option ℕ) (behind : Heap)
      → size x ≤ length (before ++ (layout a after x ++ behind))
  size-heap x before a after behind = omega (
    arith,
    length-append before (layout a after x ++ behind),
    length-append (layout a after x) behind,
    length-layout a after x,
  )
