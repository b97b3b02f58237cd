-- ===== src/Parser/Build/Steps.antt =====
-- `process_value` of src/judo_parse.c behind a step of the scanner.
use judo.Api.{
  JudoToken, ScanState, Span, success, out_of_memory, finished_parsing_value, parse_object_value,
  parse_array_end_or_array_element, parse_object_key_or_object_end, array_begin, object_begin,
  object_name,
}
use judo.Base.{
  ℕ, ◌+◌, ◌<◌, ◌≡◌, refl, sym, ap, ◌∙◌, arith, Bool, true, false, inl, inr, Bool-cases, Option,
  none, some, List, [], ◌∷◌, ◌++◌, append_assoc, length, ltb, get_elem?, get_elem?-append,
}
use judo.Parser.{Block, Value, ◌>>=◌}
use judo.Parser.Build.{
  Context, Done, ParseStack, fresh, process_scalar, process_begin, process_end, process_name,
  process_value,
}
use judo.Parser.Build.Matches.{
  Below, Top, Matches, opened, Below-AllAccept, put_in-Matches, frame_events, frames_events,
  site_events, site_events-put_in, site_events-site_of, end_token, events-node_of,
}
use judo.Parser.Build.Heights.{Fits, put_in-Fits, site_of-AllFit, height-node_of}
use judo.Parser.Build.Names.{process_name-inside}
use judo.Parser.Build.Sites.{
  Ends, site_of, length-site_of, stack-site_of, process_scalar-put_in, process_begin-array,
  process_begin-object, process_end-put_in,
}
use judo.Parser.Tree.{
  Node, scalar, scalar_block, no_elements, no_members, events, height, count, head, placed, layout,
}
use judo.Parser.Tree.Layout.{Full, no_elements_left, no_members_left}
use judo.Parser.Tree.Zipper.{
  Frame, array_frame, object_frame, Site, inside, context_of, put_in, node_of, frames_size,
  frames_layout, frame_layout, frame_entry, entries, length-frames_layout,
}
use judo.Scanner.Grammar.{IsScalar, members}
use judo.Scanner.Moves.{Begins, InArray, InObject}

-- The token is put into the tree, or the memory lacks a block for it.
pub data Processes (maxdepth : ℕ) (available : ℕ → Bool) (ys : List ScanState) (t : JudoToken)
    (span : Span) (site : Site) (o : Done) : Type 0 where
  makes :
      (site' : Site)
      → Matches ys site'
      → site_events site' ≡ site_events site ++ ((t, span) ∷ [])
      → (Fits maxdepth site → Fits maxdepth site')
      → o ≡ some (success, context_of site')
      → Processes maxdepth available ys t span site o
  lacks :
      available (length (context_of site).heap) ≡ false
      → o ≡ some (out_of_memory, context_of site)
      → Processes maxdepth available ys t span site o

process_scalar_lacks :
    (available : ℕ → Bool) (b : Block) (ctx : Context)
    → available (length ctx.heap) ≡ false
    → process_scalar available b ctx ≡ some (out_of_memory, ctx)
unfolding process_scalar
process_scalar_lacks available b ctx h = rw h refl

process_begin_lacks :
    (maxdepth : ℕ) (available : ℕ → Bool) (b : Block) (ctx : Context)
    → length ctx.stack < maxdepth
    → available (length ctx.heap) ≡ false
    → process_begin maxdepth available b ctx ≡ some (out_of_memory, ctx)
unfolding process_begin
process_begin_lacks maxdepth available b ctx lt h =
    let deep : ltb (length ctx.stack) maxdepth ≡ true = ground arith in rw (deep, h) refl

process_name_lacks :
    (available : ℕ → Bool) (name : Span) (top : ParseStack) (below : List ParseStack)
    (ctx : Context) (d : Value) (first : Option ℕ) (n : ℕ)
    → get_elem? ctx.heap top.collection ≡ some (Block.object d first n)
    → available (length ctx.heap) ≡ false
    → process_name available name (top ∷ below) ctx ≡ some (out_of_memory, ctx)
unfolding process_name
process_name_lacks available name top below ctx d first n g h = rw (g, ◌>>=◌) (rw h refl)

process_name-inside_lacks :
    (available : ℕ → Bool) (s name : Span) (ms : Node members) (f : Full members ms)
    (fs : List Frame)
    → available (length (context_of (inside (object_frame s ms f none) fs)).heap) ≡ false
    → process_name available name
        (context_of (inside (object_frame s ms f none) fs)).stack
        (context_of (inside (object_frame s ms f none) fs))
      ≡ some (out_of_memory, context_of (inside (object_frame s ms f none) fs))
unfolding context_of entries frames_layout frame_layout frame_entry
process_name-inside_lacks available s name ms f fs h =
    let c = frames_size fs in
    let first = head (c + 1) none ms in
    process_name_lacks available name (frame_entry c none (object_frame s ms f none))
      (entries fs (some c)) (context_of (inside (object_frame s ms f none) fs)) (placed none s)
      first (count ms + 0)
      (get_elem?-append (frames_layout fs (some c)) c
        (Block.object (placed none s) first (count ms + 0)) (layout (c + 1) none ms ++ [])
        (length-frames_layout fs (some c)))
      h

module _ (maxdepth : ℕ) (available : ℕ → Bool) where
  scalar_begins :
      {ss : List ScanState} {fs : List Frame} {t : JudoToken} (k : IsScalar t) (span : Span)
      → Below ss fs
      → length fs < maxdepth
      → Processes maxdepth available
          (finished_parsing_value ∷ ss)
          t
          span
          (site_of fs)
          (process_scalar available (scalar_block k (fresh span)) (context_of (site_of fs)))
  unfolding events height
  scalar_begins {fs} k span b lt = elim (Bool-cases (available (frames_size fs))) [
    | inl given ↦
        makes (put_in (scalar k span) fs) (put_in-Matches (scalar k span) b)
          (rw (site_events-site_of fs) (site_events-put_in fs (scalar k span) (Below-AllAccept b)))
          (λ h.
            put_in-Fits maxdepth (scalar k span) fs (site_of-AllFit maxdepth fs h)
              (omega (arith, lt)))
          (process_scalar-put_in available fs k span (Below-AllAccept b) given)
    | inr lacking ↦
        let l = ap available (length-site_of fs) ∙ lacking in
        lacks l (process_scalar_lacks available _ (context_of (site_of fs)) l)
  ]

  array_begins :
      {ss : List ScanState} {fs : List Frame} (span : Span)
      → Below ss fs
      → length fs < maxdepth
      → Processes maxdepth available
          (parse_array_end_or_array_element ∷ ss)
          array_begin
          span
          (site_of fs)
          (process_begin maxdepth available
            (Block.array (fresh span) none 0)
            (context_of (site_of fs)))
  unfolding site_events frames_events events Fits height
  array_begins {fs} span b lt = elim (Bool-cases (available (frames_size fs))) [
    | inl given ↦
        makes (inside (array_frame span no_elements no_elements_left) fs)
          (opened (Top.array InArray.first) b) (rw (site_events-site_of fs) refl)
          (λ h. (omega (arith, lt), site_of-AllFit maxdepth fs h))
          (process_begin-array maxdepth available fs span (Below-AllAccept b) lt given)
    | inr lacking ↦
        let l = ap available (length-site_of fs) ∙ lacking in
        lacks l (
          process_begin_lacks maxdepth available _ (context_of (site_of fs))
            (rw (stack-site_of fs) lt) l)
  ]

  object_begins :
      {ss : List ScanState} {fs : List Frame} (span : Span)
      → Below ss fs
      → length fs < maxdepth
      → Processes maxdepth available
          (parse_object_key_or_object_end ∷ ss)
          object_begin
          span
          (site_of fs)
          (process_begin maxdepth available
            (Block.object (fresh span) none 0)
            (context_of (site_of fs)))
  unfolding site_events frames_events events Fits height
  object_begins {fs} span b lt = elim (Bool-cases (available (frames_size fs))) [
    | inl given ↦
        makes (inside (object_frame span no_members no_members_left none) fs)
          (opened (Top.object InObject.first) b) (rw (site_events-site_of fs) refl)
          (λ h. (omega (arith, lt), site_of-AllFit maxdepth fs h))
          (process_begin-object maxdepth available fs span (Below-AllAccept b) lt given)
    | inr lacking ↦
        let l = ap available (length-site_of fs) ∙ lacking in
        lacks l (
          process_begin_lacks maxdepth available _ (context_of (site_of fs))
            (rw (stack-site_of fs) lt) l)
  ]

  -- A token that begins a value.
  pub Begins-Processes :
      {ss : List ScanState} {fs : List Frame} {t : JudoToken} {y : ScanState} (span : Span)
      → Begins t y
      → Below ss fs
      → length fs < maxdepth
      → Processes maxdepth available
          (y ∷ ss)
          t
          span
          (site_of fs)
          (process_value maxdepth available t span (context_of (site_of fs)))
  unfolding process_value
  Begins-Processes span Begins.null b lt = scalar_begins IsScalar.null span b lt
  Begins-Processes span Begins.boolean_true b lt = scalar_begins IsScalar.boolean_true span b lt
  Begins-Processes span Begins.boolean_false b lt = scalar_begins IsScalar.boolean_false span b lt
  Begins-Processes span Begins.number b lt = scalar_begins IsScalar.number span b lt
  Begins-Processes span Begins.string b lt = scalar_begins IsScalar.string span b lt
  Begins-Processes span Begins.array b lt = array_begins span b lt
  Begins-Processes span Begins.object b lt = object_begins span b lt

  -- A token that ends an array or object.
  pub end_Processes :
      {ss : List ScanState} {fs : List Frame} (f : Frame) (span : Span)
      → Ends f
      → Below ss fs
      → Processes maxdepth available
          (finished_parsing_value ∷ ss)
          (end_token f)
          span
          (inside f fs)
          (process_end span (context_of (inside f fs)).stack (context_of (inside f fs)))
  unfolding site_events frames_events Fits
  end_Processes {fs} f span h b =
      makes (put_in (node_of (some span) f) fs) (put_in-Matches (node_of (some span) f) b)
        (site_events-put_in fs (node_of (some span) f) (Below-AllAccept b)
          ∙ rw (events-node_of f span h) (sym (append_assoc (frames_events fs) (frame_events f) _)))
        (λ h.
          put_in-Fits maxdepth (node_of (some span) f) fs h.1
            (omega (arith, h.0, height-node_of (some span) f)))
        (process_end-put_in f fs span h (Below-AllAccept b))

  -- A name.
  pub name_Processes :
      {ss : List ScanState} {fs : List Frame} (s : Span) (ms : Node members) (f : Full members ms)
      (name : Span)
      → Below ss fs
      → Processes maxdepth available
          (parse_object_value ∷ ss)
          object_name
          name
          (inside (object_frame s ms f none) fs)
          (process_name available name
            (context_of (inside (object_frame s ms f none) fs)).stack
            (context_of (inside (object_frame s ms f none) fs)))
  unfolding site_events frames_events Fits
  name_Processes {fs} s ms f name b =
      let site = inside (object_frame s ms f none) fs in
      let n = frames_size (object_frame s ms f none ∷ fs) in
      elim (Bool-cases (available n)) [
        | inl given ↦
            makes (inside (object_frame s ms f (some name)) fs) (opened Top.named b)
              (simp append_assoc) (λ h. h) (process_name-inside available s name ms f fs given)
        | inr lacking ↦
            let l = ap available (length-site_of (object_frame s ms f none ∷ fs)) ∙ lacking in
            lacks l (process_name-inside_lacks available s name ms f fs l)
      ]
