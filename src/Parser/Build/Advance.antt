-- ===== src/Parser/Build/Advance.antt =====
-- `process_value` of src/judo_parse.c behind a step of the scanner: every token that may follow.
use mathlib.Core.Path.{subst}
use judo.Api.{
  JudoToken, ScanState, Span, root_value, finished_parsing_value, parse_object_value,
  finished_parsing_array_element, finished_parsing_object_value, array_end, object_end, object_name,
}
use judo.Base.{ℕ, ◌+◌, ◌<◌, ◌≤◌, ◌≡◌, refl, arith, Bool, List, ◌∷◌, length}
use judo.Parser.Build.{process_end, process_name, process_value}
use judo.Parser.Build.Matches.{
  Below, bottom, in_array, in_object, Top, Matches, start, opened, behind, done, length-Below,
  end_token,
}
use judo.Parser.Build.Steps.{Processes, Begins-Processes, end_Processes, name_Processes}
use judo.Parser.Build.Sites.{Ends}
use judo.Parser.Tree.Zipper.{Frame, Site, inside, context_of}
use judo.Scanner.Moves.{Begins, InArray, InObject, Stays, Opens, Step}

-- The states that are those of an open array or object.
abbrev Inner : ScanState → Type 0
Inner root_value = ⊥
Inner finished_parsing_value = ⊥
Inner _ = Unit

data Innermost : ScanState → List ScanState → Site → Type 0 where
  innermost :
      {x : ScanState} {f : Frame} {xs : List ScanState} {fs : List Frame}
      → Top x f
      → Below xs fs
      → Innermost x xs (inside f fs)

Matches-Innermost :
    {x : ScanState} {xs : List ScanState} {site : Site}
    → Inner x
    → Matches (x ∷ xs) site
    → Innermost x xs site
Matches-Innermost h start = absurd h
Matches-Innermost h (opened top b) = innermost top b
Matches-Innermost h (behind top b) = absurd h
Matches-Innermost h done = absurd h

InArray-Inner : {x : ScanState} → InArray x → Inner x
InArray-Inner InArray.first = tt
InArray-Inner InArray.later = tt

InObject-Inner : {x : ScanState} → InObject x → Inner x
InObject-Inner InObject.first = tt
InObject-Inner InObject.later = tt

InArray-no_object : {x : ScanState} → InArray x → InObject x → ⊥
InArray-no_object InArray.first i = elim i [ ]
InArray-no_object InArray.later i = elim i [ ]

Top-array : {x : ScanState} {f : Frame} → Top x f → InArray x → Ends f × (end_token f ≡ array_end)
Top-array (Top.array i) a = (tt, refl)
Top-array (Top.object i) a = absurd (InArray-no_object a i)
Top-array Top.named a = elim a [ ]

Top-object :
    {x : ScanState} {f : Frame} → Top x f → InObject x → Ends f × (end_token f ≡ object_end)
Top-object (Top.array i) a = absurd (InArray-no_object i a)
Top-object (Top.object i) a = (tt, refl)
Top-object Top.named a = elim a [ ]

module _ (maxdepth : ℕ) (available : ℕ → Bool) where
  -- The token ends the innermost array or object.
  closes :
      {t : JudoToken} {x : ScanState} {xs : List ScanState} {site : Site} (span : Span)
      → ((f : Frame) → Top x f → Ends f × (end_token f ≡ t))
      → Innermost x xs site
      → Processes maxdepth available
          (finished_parsing_value ∷ xs)
          t
          span
          site
          (process_end span (context_of site).stack (context_of site))
  closes {xs} span ends (innermost {f} {fs} top b) =
      subst
        (λ u.
          Processes maxdepth available (finished_parsing_value ∷ xs) u span (inside f fs)
            (process_end span (context_of (inside f fs)).stack (context_of (inside f fs))))
        (ends f top).1 (end_Processes maxdepth available f span (ends f top).0 b)

  names :
      {x : ScanState} {xs : List ScanState} {site : Site} (span : Span)
      → InObject x
      → Innermost x xs site
      → Processes maxdepth available
          (parse_object_value ∷ xs)
          object_name
          span
          site
          (process_name available span (context_of site).stack (context_of site))
  names span a (innermost (Top.array i) b) = absurd (InArray-no_object i a)
  names span a (innermost (Top.object {s} {ms} {f} i) b) =
      name_Processes maxdepth available s ms f span b
  names span a (innermost Top.named b) = elim a [ ]

  element_Processes :
      {x y : ScanState} {t : JudoToken} {xs : List ScanState} {site : Site} (span : Span)
      → InArray x
      → Begins t y
      → Innermost x xs site
      → length xs + 1 < maxdepth
      → Processes maxdepth available
          (y ∷ finished_parsing_array_element ∷ xs)
          t
          span
          site
          (process_value maxdepth available t span (context_of site))
  element_Processes span a b (innermost (Top.array i) c) lt =
      Begins-Processes maxdepth available span b (in_array c) (omega (arith, lt, length-Below c))
  element_Processes span a b (innermost (Top.object i) c) lt = absurd (InArray-no_object a i)
  element_Processes span a b (innermost Top.named c) lt = elim a [ ]

  member_Processes :
      {y : ScanState} {t : JudoToken} {xs : List ScanState} {site : Site} (span : Span)
      → Begins t y
      → Innermost parse_object_value xs site
      → length xs + 1 < maxdepth
      → Processes maxdepth available
          (y ∷ finished_parsing_object_value ∷ xs)
          t
          span
          site
          (process_value maxdepth available t span (context_of site))
  member_Processes span b (innermost (Top.array i) c) lt = elim i [ ]
  member_Processes span b (innermost (Top.object i) c) lt = elim i [ ]
  member_Processes span b (innermost Top.named c) lt =
      Begins-Processes maxdepth available span b (in_object c) (omega (arith, lt, length-Below c))

  Opens-Processes :
      {x x' y : ScanState} {t : JudoToken} {xs : List ScanState} {site : Site} (span : Span)
      → Opens x x' t y
      → Matches (x ∷ xs) site
      → length xs + 1 < maxdepth
      → Processes maxdepth available
          (y ∷ x' ∷ xs)
          t
          span
          site
          (process_value maxdepth available t span (context_of site))
  Opens-Processes span (Opens.element a b) m lt =
      element_Processes span a b (Matches-Innermost (InArray-Inner a) m) lt
  Opens-Processes span (Opens.value b) m lt = member_Processes span b (Matches-Innermost tt m) lt

  Stays-Processes :
      {x y : ScanState} {t : JudoToken} {xs : List ScanState} {site : Site} (span : Span)
      → Stays x t y
      → Matches (x ∷ xs) site
      → length xs < maxdepth
      → Processes maxdepth available
          (y ∷ xs)
          t
          span
          site
          (process_value maxdepth available t span (context_of site))
  unfolding process_value
  Stays-Processes span (Stays.root b) start lt =
      Begins-Processes maxdepth available span b bottom lt
  Stays-Processes span (Stays.root b) (opened (Top.array i) c) lt = elim i [ ]
  Stays-Processes span (Stays.root b) (opened (Top.object i) c) lt = elim i [ ]
  Stays-Processes span (Stays.close_array a) m lt =
      closes span (λ f top. Top-array top a) (Matches-Innermost (InArray-Inner a) m)
  Stays-Processes span (Stays.close_object a) m lt =
      closes span (λ f top. Top-object top a) (Matches-Innermost (InObject-Inner a) m)
  Stays-Processes span (Stays.name a) m lt = names span a (Matches-Innermost (InObject-Inner a) m)

  -- Where the states of the scanner match a tree that is being built, and a step of the scanner reports
  -- a token and leaves at most `maxdepth` states, `process_value` puts the token into the tree: the
  -- states behind the step match the new tree, its tokens are the old ones and then this one with its
  -- span, and it has at most `maxdepth` levels if the old one had. Or the caller's function refuses a
  -- block, the code says so, and the context does not change.
  pub Step-Processes :
      {xs ys : List ScanState} {t : JudoToken} {site : Site} (span : Span)
      → Step xs t ys
      → Matches xs site
      → length ys ≤ maxdepth
      → Processes maxdepth available ys t span site
          (process_value maxdepth available t span (context_of site))
  Step-Processes span (Step.stays h) m le = Stays-Processes span h m (omega arith)
  Step-Processes span (Step.opens h) m le = Opens-Processes span h m (omega arith)
  Step-Processes span (Step.pops h) (behind top b) le = Step-Processes span h (opened top b) le
  Step-Processes span (Step.pops h) (opened (Top.array i) b) le = elim i [ ]
  Step-Processes span (Step.pops h) (opened (Top.object i) b) le = elim i [ ]
