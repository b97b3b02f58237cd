-- ===== src/Parser/Build/Sites.antt =====
-- `process_value` of src/judo_parse.c on a tree that is being built.
use judo.Api.{JudoToken, Span, success}
use judo.Base.{
  ℕ, suc, ◌+◌, ◌<◌, ◌≡◌, refl, ap, ◌∙◌, arith, Bool, true, Option, none, some, List, [], ◌∷◌, ◌++◌,
  append_assoc, length, ltb,
}
use judo.Parser.{Block, Heap, update, ◌>>=◌}
use judo.Parser.Build.{
  Context, ParseStack, entry, fresh, extend, process_scalar, process_begin, process_end, track_new,
  span_to,
}
use judo.Parser.Build.Attach.{track_new-inside, frame_entry-collection}
use judo.Parser.Tree.{
  Node, scalar, scalar_block, no_elements, no_members, size, count, head, placed, layout,
}
use judo.Parser.Tree.Layout.{
  no_elements_left, no_members_left, last, last-join-element, last-join-pair,
}
use judo.Parser.Tree.Links.{update-append}
use judo.Parser.Tree.Zipper.{
  Frame, array_frame, object_frame, frame_size, frame_layout, frame_entry, frames_size,
  frames_layout, entries, Site, nothing, inside, context_of, put, put_in, node_of, Accepts,
  AllAccept, length-frames_layout, frame_layout-put, frame_layout-node_of,
}
use judo.Scanner.Grammar.{IsScalar, Part}

frame_entry-put :
    (c : ℕ) (f : Frame) (x : Node Part.value)
    → Accepts f
    → frame_entry c (some (c + frame_size f)) f ≡ frame_entry c none (put x f)
unfolding frame_entry put frame_size
frame_entry-put c (array_frame s xs f) x h =
    let e : c + (1 + size xs) ≡ c + 1 + size xs = omega arith in
    rw (e, last-join-element (c + 1) none xs x) refl
frame_entry-put c (object_frame s ms f (some n)) x h =
    rw (last-join-pair (c + 1) none ms n x f) refl
frame_entry-put c (object_frame s ms f none) x h = absurd h

-- The context behind a value at the end of the memory, linked into the frames around it.
abbrev pub behind_value : List Frame → Node Part.value → Context
behind_value fs x = record {
  heap = frames_layout fs (some (frames_size fs)) ++ layout (frames_size fs) none x;
  root = some 0;
  stack = entries fs (some (frames_size fs));
}

pub behind_value-put_in :
    (fs : List Frame) (x : Node Part.value)
    → AllAccept fs
    → behind_value fs x ≡ context_of (put_in x fs)
unfolding context_of put_in frames_layout entries
behind_value-put_in [] x h = refl
behind_value-put_in (f ∷ fs) x h =
    let c = frames_size fs in
    let l = frames_layout fs (some c) in
    rw
      (
        append_assoc l (frame_layout c (some (c + frame_size f)) f)
            (layout (c + frame_size f) none x),
        frame_layout-put c f x h.0,
        frame_entry-put c f x h.0,
      )
      refl

-- The context in which a new block was tracked.
abbrev pub tracked : List Frame → Block → Context
tracked fs b = record {
  heap = frames_layout fs (some (frames_size fs)) ++ (b ∷ []);
  root = some 0;
  stack = entries fs (some (frames_size fs));
}

behind_value-scalar :
    (fs : List Frame) {t : JudoToken} (k : IsScalar t) (span : Span)
    → AllAccept fs
    → tracked fs (scalar_block k (fresh span)) ≡ context_of (put_in (scalar k span) fs)
unfolding layout
behind_value-scalar fs k span h = behind_value-put_in fs (scalar k span) h

-- The frames in which a value may begin.
abbrev pub site_of : List Frame → Site
site_of [] = nothing
site_of (f ∷ fs) = inside f fs

pub track_new-site_of :
    (fs : List Frame) (b : Block)
    → AllAccept fs
    → track_new b (context_of (site_of fs)) ≡ some (tracked fs b)
unfolding context_of
track_new-site_of [] b h = unfold track_new frames_layout entries in refl
track_new-site_of (f ∷ fs) b h = track_new-inside f fs b h.0

pub length-site_of : (fs : List Frame) → length (context_of (site_of fs)).heap ≡ frames_size fs
unfolding context_of
length-site_of [] = unfold frames_size in refl
length-site_of (f ∷ fs) = length-frames_layout (f ∷ fs) none

length-entries : (fs : List Frame) (child : Option ℕ) → length (entries fs child) ≡ length fs
unfolding entries
length-entries [] child = refl
length-entries (f ∷ fs) child = ap suc (length-entries fs (some (frames_size fs)))

pub stack-site_of : (fs : List Frame) → length (context_of (site_of fs)).stack ≡ length fs
unfolding context_of
stack-site_of [] = refl
stack-site_of (f ∷ fs) = length-entries (f ∷ fs) none

process_scalar-track :
    (available : ℕ → Bool) (b : Block) (ctx c : Context) (n : ℕ)
    → length ctx.heap ≡ n
    → available n ≡ true
    → track_new b ctx ≡ some c
    → process_scalar available b ctx ≡ some (success, c)
unfolding process_scalar
process_scalar-track available b ctx c n e a h = rw (e, a) (rw (h, ◌>>=◌) refl)

pub process_scalar-put_in :
    (available : ℕ → Bool) (fs : List Frame) {t : JudoToken} (k : IsScalar t) (span : Span)
    → AllAccept fs
    → available (frames_size fs) ≡ true
    → process_scalar available (scalar_block k (fresh span)) (context_of (site_of fs))
      ≡ some (success, context_of (put_in (scalar k span) fs))
process_scalar-put_in available fs k span h a =
    process_scalar-track available (scalar_block k (fresh span)) (context_of (site_of fs))
      (tracked fs (scalar_block k (fresh span))) (frames_size fs) (length-site_of fs) a
      (track_new-site_of fs (scalar_block k (fresh span)) h)
    ∙ ap (λ c. some (success, c)) (behind_value-scalar fs k span h)

process_begin-track :
    (maxdepth : ℕ) (available : ℕ → Bool) (b : Block) (ctx c : Context) (n d : ℕ)
    → length ctx.heap ≡ n
    → length ctx.stack ≡ d
    → d < maxdepth
    → available n ≡ true
    → track_new b ctx ≡ some c
    → process_begin maxdepth available b ctx
      ≡ some (success, record c { stack = entry n ∷ c.stack })
unfolding process_begin
process_begin-track maxdepth available b ctx c n d e l lt a h =
    let deep : ltb d maxdepth ≡ true = ground arith in rw (l, deep, e, a) (rw (h, ◌>>=◌) refl)

pub process_begin-array :
    (maxdepth : ℕ) (available : ℕ → Bool) (fs : List Frame) (span : Span)
    → AllAccept fs
    → length fs < maxdepth
    → available (frames_size fs) ≡ true
    → process_begin maxdepth available (Block.array (fresh span) none 0) (context_of (site_of fs))
      ≡ some (success, context_of (inside (array_frame span no_elements no_elements_left) fs))
unfolding context_of frames_layout entries frame_layout frame_entry count layout last
process_begin-array maxdepth available fs span h lt a =
    process_begin-track maxdepth available (Block.array (fresh span) none 0)
      (context_of (site_of fs)) (tracked fs (Block.array (fresh span) none 0)) (frames_size fs)
      (length fs) (length-site_of fs) (stack-site_of fs) lt a
      (track_new-site_of fs (Block.array (fresh span) none 0) h)

pub process_begin-object :
    (maxdepth : ℕ) (available : ℕ → Bool) (fs : List Frame) (span : Span)
    → AllAccept fs
    → length fs < maxdepth
    → available (frames_size fs) ≡ true
    → process_begin maxdepth available (Block.object (fresh span) none 0) (context_of (site_of fs))
      ≡ some (success, context_of (inside (object_frame span no_members no_members_left none) fs))
unfolding context_of frames_layout entries frame_layout frame_entry count layout last
process_begin-object maxdepth available fs span h lt a =
    process_begin-track maxdepth available (Block.object (fresh span) none 0)
      (context_of (site_of fs)) (tracked fs (Block.object (fresh span) none 0)) (frames_size fs)
      (length fs) (length-site_of fs) (stack-site_of fs) lt a
      (track_new-site_of fs (Block.object (fresh span) none 0) h)

-- The array or object has no member that waits for its value.
abbrev pub Ends : Frame → Type 0
Ends (array_frame s xs f) = Unit
Ends (object_frame s ms f none) = Unit
Ends (object_frame s ms f (some n)) = ⊥

extend-node_of :
    (l : Heap) (c : ℕ) (f : Frame) (end : Span)
    → Ends f
    → length l ≡ c
    → update c (extend end) (l ++ layout c none (node_of none f))
      ≡ some (l ++ layout c none (node_of (some end) f))
unfolding node_of layout
extend-node_of l c (array_frame s xs f) end h e =
    update-append l c (extend end) (Block.array (placed none s) (head (c + 1) none xs) (count xs))
      (Block.array (placed none (span_to s end)) (head (c + 1) none xs) (count xs))
      (layout (c + 1) none xs) e refl
extend-node_of l c (object_frame s ms f none) end h e =
    update-append l c (extend end) (Block.object (placed none s) (head (c + 1) none ms) (count ms))
      (Block.object (placed none (span_to s end)) (head (c + 1) none ms) (count ms))
      (layout (c + 1) none ms) e refl
extend-node_of l c (object_frame s ms f (some n)) end h e = absurd h

process_end-update :
    (end : Span) (top : ParseStack) (below : List ParseStack) (ctx : Context) (h : Heap)
    → update top.collection (extend end) ctx.heap ≡ some h
    → process_end end (top ∷ below) ctx ≡ some (success, record ctx { heap = h; stack = below })
unfolding process_end
process_end-update end top below ctx h e = rw (e, ◌>>=◌) refl

pub process_end-put_in :
    (f : Frame) (fs : List Frame) (end : Span)
    → Ends f
    → AllAccept fs
    → process_end end (context_of (inside f fs)).stack (context_of (inside f fs))
      ≡ some (success, context_of (put_in (node_of (some end) f) fs))
unfolding context_of entries frames_layout
process_end-put_in f fs end h all =
    let c = frames_size fs in
    let l = frames_layout fs (some c) in
    let written : update (frame_entry c none f).collection (extend end) (l ++ frame_layout c none f)
        ≡ some (l ++ layout c none (node_of (some end) f)) =
      rw (frame_entry-collection c none f, frame_layout-node_of c f)
        (extend-node_of l c f end h (length-frames_layout fs (some c))) in
    process_end-update end (frame_entry c none f) (entries fs (some c)) (context_of (inside f fs))
      (l ++ layout c none (node_of (some end) f)) written
    ∙ ap (λ x. some (success, x)) (behind_value-put_in fs (node_of (some end) f) all)
