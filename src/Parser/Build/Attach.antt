-- ===== src/Parser/Build/Attach.antt =====
-- `track` of src/judo_parse.c on a tree that is being built.
use judo.Base.{
  ℕ, ◌+◌, ◌≡◌, refl, ap, arith, Option, none, some, List, [], ◌∷◌, ◌++◌, append_assoc, length,
  length-append, get_elem?, get_elem?-append,
}
use judo.Parser.{Value, Block, member, Heap, update, ◌>>=◌}
use judo.Parser.Build.{
  ParseStack, attach, add_first, add_length, add_size, set_next, set_value, track, track_new,
}
use judo.Parser.Tree.{Node, no_elements, element, size, count, head, placed, layout}
use judo.Parser.Tree.Layout.{no_elements_left, element_before, last, length-layout}
use judo.Parser.Tree.Links.{update-append, update-last-elements, update_behind, regroup}
use judo.Parser.Tree.Zipper.{
  Frame, array_frame, object_frame, frame_size, frame_layout, frame_entry, frames_size,
  frames_layout, entries, inside, context_of, Accepts, length-frames_layout, length-frame_layout,
}
use judo.Scanner.Grammar.{elements}

add_none : (k : ℕ) → k + 0 + 1 ≡ k + 1
add_none k = omega arith

last-some : (xs : Node elements) (a b : ℕ) → (p : ℕ) × (last a (some b) xs ≡ some p)
unfolding last
last-some no_elements a b = (b, refl)
last-some (element x xs) a b = last-some xs (a + size x) a

-- The two writes of `attach`, where there is a tail.
attach-array :
    (q c p n : ℕ) (tail first : Option ℕ) (d : Value) (h h' h'' : Heap)
    → tail ≡ some p
    → update p (set_next q) h ≡ some h'
    → update c add_length h' ≡ some h''
    → attach q
        (record { collection = c; elements_tail = tail; members_tail = none })
        (Block.array d first n)
        h
      ≡ some (h'', record { collection = c; elements_tail = some q; members_tail = none })
unfolding attach
attach-array q c p n tail first d h h' h'' t u v = rw t (rw (u, ◌>>=◌) (rw (v, ◌>>=◌) refl))

attach-object :
    (q c p n : ℕ) (members_of : Option ℕ) (d : Value) (h h' h'' : Heap)
    → update p (set_value q) h ≡ some h'
    → update c add_size h' ≡ some h''
    → attach q
        (record { collection = c; elements_tail = none; members_tail = some p })
        (Block.object d members_of n)
        h
      ≡ some (h'', record { collection = c; elements_tail = none; members_tail = some p })
unfolding attach
attach-object q c p n members_of d h h' h'' u v = rw (u, ◌>>=◌) (rw (v, ◌>>=◌) refl)

module _ (before : Heap) (c : ℕ) (e : length before ≡ c) (behind : Heap) (q : ℕ) where
  shifted : (b : Block) → length (before ++ (b ∷ [])) ≡ c + 1
  shifted b = omega (arith, length-append before (b ∷ []), e)

  -- The value `q` is attached to the open value at `c`.
  pub attach-frame :
      (f : Frame)
      → Accepts f
      → (b : Block) × (get_elem? (before ++ (frame_layout c none f ++ behind)) c ≡ some b)
        × (attach q (frame_entry c none f) b (before ++ (frame_layout c none f ++ behind))
            ≡ some (before ++ (frame_layout c (some q) f ++ behind), frame_entry c (some q) f))
  unfolding attach frame_layout frame_entry count layout last
  attach-frame (array_frame s _ no_elements_left) h = (
    Block.array (placed none s) none 0,
    get_elem?-append before c (Block.array (placed none s) none 0) behind e,
    rw
        (update-append before c (add_first q) (Block.array (placed none s) none 0)
          (Block.array (placed none s) (some q) 1) behind e refl)
        refl,
  )
  attach-frame (array_frame s _ (element_before {x} {xs} f)) h =
      let xs' = element x xs in
      let b = Block.array (placed none s) (some (c + 1)) (count xs' + 0) in
      let b' = Block.array (placed none s) (some (c + 1)) (count xs' + 1) in
      let l = layout (c + 1) none xs' ++ behind in
      let l' = layout (c + 1) (some q) xs' ++ behind in
      let (p, tail) = last-some xs (c + 1 + size x) (c + 1) in
      let linked =
        update-last-elements (before ++ (b ∷ [])) (c + 1) p q x xs behind (shifted b) tail in
      let added : add_length b ≡ some b' =
        ap (λ k. some (Block.array (placed none s) (some (c + 1)) k)) (add_none (count xs')) in
      (
        b,
        get_elem?-append before c b l e,
        attach-array q c p (count xs' + 0) _ (some (c + 1)) (placed none s) (before ++ (b ∷ l))
            (before ++ (b ∷ l')) (before ++ (b' ∷ l')) tail
            (update_behind before p (set_next q) b l l' linked)
            (update-append before c add_length b b' l' e added),
      )
  attach-frame (object_frame s ms f (some n)) h =
      let m = c + 1 + size ms in
      let first = head (c + 1) (some m) ms in
      let b = Block.object (placed none s) first (count ms + 0) in
      let b' = Block.object (placed none s) first (count ms + 1) in
      let ms' = layout (c + 1) (some m) ms in
      let l = (ms' ++ (member none none n ∷ [])) ++ behind in
      let l' = (ms' ++ (member none (some q) n ∷ [])) ++ behind in
      let at_m : length ((before ++ (b ∷ [])) ++ ms') ≡ m = omega (
        arith,
        length-append (before ++ (b ∷ [])) ms',
        shifted b,
        length-layout (c + 1) (some m) ms,
      ) in
      let valued : update m (set_value q) ((before ++ (b ∷ [])) ++ l)
          ≡ some ((before ++ (b ∷ [])) ++ l') =
        rw
          (
            regroup (before ++ (b ∷ [])) ms' (member none none n ∷ []) behind,
            regroup (before ++ (b ∷ [])) ms' (member none (some q) n ∷ []) behind,
          )
          (update-append ((before ++ (b ∷ [])) ++ ms') m (set_value q) (member none none n)
            (member none (some q) n) behind at_m refl) in
      let added : add_size b ≡ some b' =
        ap (λ k. some (Block.object (placed none s) first k)) (add_none (count ms)) in
      (
        b,
        get_elem?-append before c b l e,
        attach-object q c m (count ms + 0) first (placed none s) (before ++ (b ∷ l))
            (before ++ (b ∷ l')) (before ++ (b' ∷ l'))
            (update_behind before m (set_value q) b l l' valued)
            (update-append before c add_size b b' l' e added),
      )
  attach-frame (object_frame s ms f none) h = absurd h

pub frame_entry-collection :
    (c : ℕ) (child : Option ℕ) (f : Frame) → (frame_entry c child f).collection ≡ c
unfolding frame_entry
frame_entry-collection c child (array_frame s xs f) = refl
frame_entry-collection c child (object_frame s ms f n) = refl

track_new-attach :
    (b held : Block) (h h' : Heap) (q root : ℕ) (top top' : ParseStack) (below : List ParseStack)
    → length h ≡ q
    → get_elem? (h ++ (b ∷ [])) top.collection ≡ some held
    → attach q top held (h ++ (b ∷ [])) ≡ some (h', top')
    → track_new b (record { heap = h; root = some root; stack = top ∷ below })
      ≡ some (record { heap = h'; root = some root; stack = top' ∷ below })
unfolding track_new track
track_new-attach b held h h' q root top top' below e g a = rw e (rw (g, ◌>>=◌) (rw (a, ◌>>=◌) refl))

-- A new block, tracked as a value of the innermost open one.
pub track_new-inside :
    (f : Frame) (fs : List Frame) (b : Block)
    → Accepts f
    → track_new b (context_of (inside f fs))
      ≡ some (record {
        heap = frames_layout (f ∷ fs) (some (frames_size (f ∷ fs))) ++ (b ∷ []);
        root = some 0;
        stack = entries (f ∷ fs) (some (frames_size (f ∷ fs)));
      })
unfolding context_of frames_layout entries
track_new-inside f fs b h =
    let c = frames_size fs in
    let q = c + frame_size f in
    let l = frames_layout fs (some c) in
    let there = length-frames_layout fs (some c) in
    let (held, read, done) = attach-frame l c there (b ∷ []) q f h in
    let shift = append_assoc l (frame_layout c none f) (b ∷ []) in
    let shift' = append_assoc l (frame_layout c (some q) f) (b ∷ []) in
    track_new-attach b held (l ++ frame_layout c none f) _ q 0 (frame_entry c none f)
      (frame_entry c (some q) f) (entries fs (some c))
      (omega (arith, length-append l (frame_layout c none f), there, length-frame_layout c none f))
      (rw (shift, frame_entry-collection c none f) read) (rw (shift, shift') done)
