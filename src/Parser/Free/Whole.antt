-- ===== src/Parser/Free/Whole.antt =====
-- `judo_free` of src/judo_parse.c on a whole tree.
use judo.Api.{success}
use judo.Base.{
  ℕ, ◌+◌, ◌-◌, ◌*◌, ◌≤◌, ◌≡◌, refl, sym, ap, ◌∙◌, arith, none, some, [], ◌∷◌, ◌++◌, append-nil,
  replicate, true,
}
use judo.Parser.{released, Heap, ◌>>=◌}
use judo.Parser.Free.{free_value, free_loop, judo_free}
use judo.Parser.Free.Releases.{rounds_of, frees, own_level}
use judo.Parser.Tree.{
  Node, scalar, array_node, object_node, no_elements, element, no_members, pair, pending, layout,
  size, height,
}
use judo.Scanner.Grammar.{Part}

rounds_add : {p : Part} (x : Node p) (k : ℕ) → rounds_of x k ≡ rounds_of x 0 + k
unfolding rounds_of
rounds_add (scalar c span) k = omega arith
rounds_add (array_node s e xs) k = omega (arith, rounds_add xs k)
rounds_add (object_node s e ms) k = omega (arith, rounds_add ms k)
rounds_add no_elements k = omega arith
rounds_add (element x xs) k =
    omega (arith, rounds_add x (rounds_of xs k), rounds_add x (rounds_of xs 0), rounds_add xs k)
rounds_add no_members k = omega arith
rounds_add (pair name x ms) k =
    omega (arith, rounds_add x (rounds_of ms k), rounds_add x (rounds_of ms 0), rounds_add ms k)
rounds_add (pending name) k = omega arith

rounds_of-size : {p : Part} (x : Node p) (k : ℕ) → rounds_of x k + 1 ≤ 2 * size x + own_level p + k
unfolding rounds_of size
rounds_of-size (scalar c span) k = omega arith
rounds_of-size (array_node s e xs) k = omega (arith, rounds_of-size xs k)
rounds_of-size (object_node s e ms) k = omega (arith, rounds_of-size ms k)
rounds_of-size no_elements k = omega arith
rounds_of-size (element x xs) k =
    omega (arith, rounds_of-size x (rounds_of xs k), rounds_of-size xs k)
rounds_of-size no_members k = omega arith
rounds_of-size (pair name x ms) k =
    omega (arith, rounds_of-size x (rounds_of ms k), rounds_of-size ms k)
rounds_of-size (pending name) k = omega arith

ended : (maxdepth k : ℕ) (h : Heap) → free_loop maxdepth k h [] ≡ some h
unfolding free_loop
ended maxdepth k h = refl

module _ (maxdepth : ℕ) where
  whole_loop :
      (x : Node Part.value) (k : ℕ)
      → height x ≤ maxdepth
      → free_loop maxdepth (rounds_of x k) (layout 0 none x) (free_value (some 0) ∷ [])
        ≡ some (replicate (size x) released)
  whole_loop x k le =
      ap (λ h. free_loop maxdepth (rounds_of x k) h (free_value (some 0) ∷ []))
        (sym (append-nil (layout 0 none x)))
      ∙ frees maxdepth x k [] 0 none [] [] refl (omega (arith, le))
      ∙ ended maxdepth k (replicate (size x) released ++ [])
      ∙ ap some (append-nil (replicate (size x) released))

  -- The memory that holds a tree of at most `maxdepth` levels and nothing else is released, every block
  -- of it once, in two rounds for each block at most, and the stack of `maxdepth` entries is enough.
  pub judo_free-layout :
      (x : Node Part.value) (n : ℕ)
      → height x ≤ maxdepth
      → 2 * size x ≤ n
      → judo_free maxdepth n true (some 0) (layout 0 none x)
        ≡ some (success, replicate (size x) released)
  unfolding judo_free
  judo_free-layout x n le enough =
      let k = n - rounds_of x 0 in
      let e : n ≡ rounds_of x k = omega (arith, enough, rounds_of-size x 0, rounds_add x k) in
      rw e (rw (whole_loop x k le, ◌>>=◌) refl)
