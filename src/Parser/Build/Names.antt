-- ===== src/Parser/Build/Names.antt =====
-- `process_value` of src/judo_parse.c on the name of a member, in a tree that is being built.
use judo.Api.{Span, success}
use judo.Base.{
  ℕ, ◌+◌, ◌≡◌, refl, sym, ap, ◌∙◌, arith, Bool, true, Option, none, some, List, [], ◌∷◌, ◌++◌,
  append_assoc, append-nil, length, length-append, get_elem?, get_elem?-append, set-append,
}
use judo.Parser.{Value, Block, member, Heap, update, ◌>>=◌}
use judo.Parser.Build.{Context, ParseStack, process_name, set_member_next, link_member}
use judo.Parser.Tree.{Node, pair, size, count, head, placed, layout}
use judo.Parser.Tree.Layout.{Full, no_members_left, pair_before, last, length-layout}
use judo.Parser.Tree.Links.{update-last-members, update_behind}
use judo.Parser.Tree.Zipper.{
  Frame, object_frame, frame_size, frame_layout, frame_entry, frames_size, frames_layout, entries,
  inside, context_of, length-frames_layout,
}
use judo.Scanner.Grammar.{members}

last-some :
    (ms : Node members) (a b : ℕ) → Full members ms → (p : ℕ) × (last a (some b) ms ≡ some p)
unfolding last
last-some _ a b no_members_left = (b, refl)
last-some _ a b (pair_before {name} {x} {ms} f) = last-some ms (a + 1 + size x) a f

link_member-tail :
    (m c p first n : ℕ) (tail : Option ℕ) (d : Value) (h h' : Heap)
    → tail ≡ some p
    → update p (set_member_next m) h ≡ some h'
    → link_member m
        (record { collection = c; elements_tail = none; members_tail = tail })
        (Block.object d (some first) n)
        h
      ≡ some h'
unfolding link_member
link_member-tail m c p first n tail d h h' e u = rw e u

-- The members with a new one behind them.
members_linked :
    (l : Heap) (c m : ℕ) (s name : Span) (ms : Node members)
    → Full members ms
    → length l ≡ c
    → c + 1 + size ms ≡ m
    → link_member m
        (record { collection = c; elements_tail = none; members_tail = last (c + 1) none ms })
        (Block.object (placed none s) (head (c + 1) none ms) (count ms + 0))
        (l
          ++ (Block.object (placed none s) (head (c + 1) none ms) (count ms + 0)
              ∷ (layout (c + 1) none ms ++ (member none none name ∷ []))))
      ≡ some (
          l
          ++ (Block.object (placed none s) (head (c + 1) (some m) ms) (count ms + 0)
              ∷ (layout (c + 1) (some m) ms ++ (member none none name ∷ []))))
unfolding link_member last layout count size
members_linked l c m s name _ no_members_left e q = ap some (
    set-append l c (Block.object (placed none s) none 0) (Block.object (placed none s) (some m) 0)
      (member none none name ∷ []) e)
members_linked l c m s name _ (pair_before {name = n} {x} {ms} f) e q =
    let ms' = pair n x ms in
    let b = Block.object (placed none s) (some (c + 1)) (count ms' + 0) in
    let new : Heap = member none none name ∷ [] in
    let (p, tail) = last-some ms (c + 1 + 1 + size x) (c + 1) f in
    let there : length (l ++ (b ∷ [])) ≡ c + 1 = omega (arith, length-append l (b ∷ []), e) in
    let linked =
      update-last-members (l ++ (b ∷ [])) (c + 1) p m none ms' new (pair_before f) there
        (omega arith) tail in
    link_member-tail m c p (c + 1) (count ms' + 0) _ (placed none s)
      (l ++ (b ∷ (layout (c + 1) none ms' ++ new)))
      (l ++ (b ∷ (layout (c + 1) (some m) ms' ++ new))) tail
      (update_behind l p (set_member_next m) b (layout (c + 1) none ms' ++ new)
        (layout (c + 1) (some m) ms' ++ new) linked)

process_name-linked :
    (available : ℕ → Bool) (name : Span) (top : ParseStack) (below : List ParseStack)
    (ctx : Context) (d : Value) (first : Option ℕ) (n m : ℕ) (h : Heap)
    → length ctx.heap ≡ m
    → get_elem? ctx.heap top.collection ≡ some (Block.object d first n)
    → available m ≡ true
    → link_member m top (Block.object d first n) (ctx.heap ++ (member none none name ∷ [])) ≡ some h
    → process_name available name (top ∷ below) ctx
      ≡ some
          (success, record ctx { heap = h; stack = record top { members_tail = some m } ∷ below })
process_name-linked available name top below ctx d first n m h e g a l =
    unfold process_name in
    rw (← e) (
      rw (g, ◌>>=◌)
        (rw (ap available e, a)
          (rw
            (
              ap
                  (λ k.
                    link_member k top (Block.object d first n)
                      (ctx.heap ++ (member none none name ∷ [])))
                  e,
              l,
              ◌>>=◌,
            )
            refl)))

pub process_name-inside :
    (available : ℕ → Bool) (s name : Span) (ms : Node members) (f : Full members ms)
    (fs : List Frame)
    → available (frames_size (object_frame s ms f none ∷ fs)) ≡ true
    → process_name available name
        (context_of (inside (object_frame s ms f none) fs)).stack
        (context_of (inside (object_frame s ms f none) fs))
      ≡ some (success, context_of (inside (object_frame s ms f (some name)) fs))
unfolding context_of entries frames_layout frame_layout frame_entry
process_name-inside available s name ms f fs a =
    let c = frames_size fs in
    let l = frames_layout fs (some c) in
    let there = length-frames_layout fs (some c) in
    let b = Block.object (placed none s) (head (c + 1) none ms) (count ms + 0) in
    let m = c + 1 + size ms in
    let at_end : frames_size (object_frame s ms f none ∷ fs) ≡ m =
      unfold frames_size frame_size in omega arith in
    let whole : length (l ++ (b ∷ (layout (c + 1) none ms ++ []))) ≡ m =
      rw (append-nil (layout (c + 1) none ms)) (
        omega (
          arith,
          length-append l (b ∷ layout (c + 1) none ms),
          there,
          length-layout (c + 1) none ms,
        )) in
    process_name-linked available name (frame_entry c none (object_frame s ms f none))
      (entries fs (some c)) (context_of (inside (object_frame s ms f none) fs)) (placed none s)
      (head (c + 1) none ms) (count ms + 0) m _ whole
      (get_elem?-append l c b (layout (c + 1) none ms ++ []) there) (ap available (sym at_end) ∙ a)
      (rw
        (
          append_assoc l (b ∷ (layout (c + 1) none ms ++ [])) (member none none name ∷ []),
          append-nil (layout (c + 1) none ms),
        )
        (members_linked l c m s name ms f there refl))
