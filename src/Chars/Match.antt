-- ===== src/Chars/Match.antt =====
-- src/judo_scan.c: what `is_match` compares.
use judo.Base.{ℕ, zero, suc, ◌+◌, ◌≡◌, ◌↔◌, refl, arith, List, [], ◌∷◌, true, length}
use judo.Chars.{is_match}
use judo.Utf8.Scalar.{Holds}

is_match_sound :
    (string : ℕ → ℕ) (index : ℕ) (prefix : List ℕ) (n : ℕ)
    → is_match string index prefix n ≡ true
    → (n ≡ length prefix) × Holds string index prefix
unfolding is_match
is_match_sound string index [] zero h = (refl, tt)
is_match_sound string index [] (suc n) h = cc
is_match_sound string index (p ∷ ps) zero h = cc
is_match_sound string index (p ∷ ps) (suc n) h =
    ground (arith, is_match_sound string (index + 1) ps n)

is_match_complete :
    (string : ℕ → ℕ) (index : ℕ) (prefix : List ℕ)
    → Holds string index prefix
    → is_match string index prefix (length prefix) ≡ true
unfolding is_match
is_match_complete string index [] h = refl
is_match_complete string index (p ∷ ps) h =
    ground (arith, h.0, is_match_complete string (index + 1) ps h.1)

-- `is_match` holds exactly if the length is that of the literal, and the bytes from the index on are
-- those of the literal.
pub is_match_iff :
    (string : ℕ → ℕ) (index : ℕ) (prefix : List ℕ) (n : ℕ)
    → (is_match string index prefix n ≡ true) ↔ ((n ≡ length prefix) × Holds string index prefix)
is_match_iff string index prefix n =
    (is_match_sound string index prefix n, λ h. rw h.0 (is_match_complete string index prefix h.1))
