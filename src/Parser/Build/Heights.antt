-- ===== src/Parser/Build/Heights.antt =====
-- The levels of a tree that src/judo_parse.c is building, and the release of what was built.
use judo.Api.{Span, ScanState, success}
use judo.Base.{
  ℕ, ◌+◌, ◌-◌, ◌*◌, ◌≤◌, ◌≡◌, refl, arith, Option, none, some, List, [], ◌∷◌, length, replicate,
  true,
}
use judo.Parser.{released, Heap}
use judo.Parser.Build.Matches.{Matches, opened, behind, Below-AllAccept}
use judo.Parser.Build.Sites.{site_of}
use judo.Parser.Free.{judo_free}
use judo.Parser.Free.Whole.{judo_free-layout}
use judo.Parser.Tree.{Node, no_elements, element, no_members, pair, pending, size, height, layout}
use judo.Parser.Tree.Layout.{height-join, length-layout}
use judo.Parser.Tree.Zipper.{
  Frame, array_frame, object_frame, Site, nothing, inside, finished, context_of, put, put_in,
  node_of, AllAccept, frames_size, frames_layout, frame_layout-node_of, frames_layout-plug, plug,
}
use judo.Scanner.Grammar.{Part}

abbrev frame_height : Frame → ℕ
frame_height (array_frame s xs f) = height xs
frame_height (object_frame s ms f n) = height ms

-- The open values and what they hold have so many levels at most.
abbrev pub AllFit : ℕ → List Frame → Type 0
AllFit maxdepth [] = Unit
AllFit maxdepth (f ∷ fs) = (length fs + 1 + frame_height f ≤ maxdepth) × AllFit maxdepth fs

unfoldable pub Fits : ℕ → Site → Type 0
Fits maxdepth nothing = Unit
Fits maxdepth (inside f fs) = AllFit maxdepth (f ∷ fs)
Fits maxdepth (finished x) = height x ≤ maxdepth

frame_height-put :
    (f : Frame) (x : Node Part.value) (n : ℕ)
    → frame_height f ≤ n
    → height x ≤ n
    → frame_height (put x f) ≤ n
unfolding put height
frame_height-put (array_frame s xs f) x n h g =
    omega (arith, h, g, height-join xs (element x no_elements) f)
frame_height-put (object_frame s ms f (some m)) x n h g =
    omega (arith, h, g, height-join ms (pair m x no_members) f)
frame_height-put (object_frame s ms f none) x n h g = h

pub height-node_of : (e : Option Span) (f : Frame) → height (node_of e f) ≡ 1 + frame_height f
unfolding height node_of
height-node_of e (array_frame s xs f) = refl
height-node_of e (object_frame s ms f none) = refl
height-node_of e (object_frame s ms f (some n)) = omega (arith, height-join ms (pending n) f)

module _ (maxdepth : ℕ) where
  pub put_in-Fits :
      (x : Node Part.value) (fs : List Frame)
      → AllFit maxdepth fs
      → length fs + height x ≤ maxdepth
      → Fits maxdepth (put_in x fs)
  unfolding Fits put_in
  put_in-Fits x [] h le = omega (arith, le)
  put_in-Fits x (f ∷ fs) h le =
      let n =
        frame_height-put f x (maxdepth - (length fs + 1)) (omega (arith, h.0))
          (omega (arith, le)) in
      (omega (arith, n, le), h.1)

  pub site_of-AllFit : (fs : List Frame) → Fits maxdepth (site_of fs) → AllFit maxdepth fs
  unfolding Fits
  site_of-AllFit [] h = tt
  site_of-AllFit (f ∷ fs) h = h

  plug-height :
      (fs : List Frame) (x : Node Part.value)
      → AllFit maxdepth fs
      → length fs + height x ≤ maxdepth
      → height (plug fs x) ≤ maxdepth
  unfolding plug
  plug-height [] x h le = omega (arith, le)
  plug-height (f ∷ fs) x h le =
      let n =
        frame_height-put f x (maxdepth - (length fs + 1)) (omega (arith, h.0))
          (omega (arith, le)) in
      plug-height fs (node_of none (put x f)) h.1
        (omega (arith, n, le, height-node_of none (put x f)))

  -- A tree of which everything is in the memory is released.
  released_tree :
      (x : Node Part.value) (h : Heap)
      → h ≡ layout 0 none x
      → height x ≤ maxdepth
      → judo_free maxdepth (2 * length h) true (some 0) h
        ≡ some (success, replicate (length h) released)
  released_tree x h e le =
      rw (e, length-layout 0 none x) (judo_free-layout maxdepth x (2 * size x) le (omega arith))

  -- Where a tree that is being built, of at most `maxdepth` levels, matches the states of the scanner,
  -- `judo_free` releases every block of it in at most two rounds for each.
  pub judo_free-context_of :
      {xs : List ScanState} (site : Site)
      → Matches xs site
      → Fits maxdepth site
      → judo_free maxdepth
          (2 * length (context_of site).heap)
          true
          (context_of site).root
          (context_of site).heap
        ≡ some (success, replicate (length (context_of site).heap) released)
  unfolding context_of Fits
  judo_free-context_of nothing m h = unfold judo_free in refl
  judo_free-context_of (finished x) m h = released_tree x (layout 0 none x) refl h
  judo_free-context_of (inside f fs) m h =
      let x = node_of none f in
      let c = frames_size fs in
      released_tree (plug fs x) (frames_layout (f ∷ fs) none)
        (unfold frames_layout in rw (frame_layout-node_of c f) (frames_layout-plug fs x (accept m)))
        (plug-height fs x h.1 (omega (arith, h.0, height-node_of none f)))
    where
      accept :
          {xs : List ScanState} {f : Frame} {fs : List Frame}
          → Matches xs (inside f fs)
          → AllAccept fs
      accept (opened top b) = Below-AllAccept b
      accept (behind top b) = Below-AllAccept b
