-- ===== src/Path/Rooted.antt =====
-- What `path.Clean` leaves of an absolute path.
use honeygen.Prelude.{◌≡◌, refl, ◌∙◌, ◌⊎◌, inl, inr, true, List, [], ◌∷◌, All}
use honeygen.Text.{Text, split, join}
use honeygen.Text.Parts.{split-join}
use honeygen.Path.{slash, is_abs, clean, path_segments, render}
use honeygen.Path.Clean.{IsName, path_segments-rooted}
use honeygen.Path.Below.{clean_lem, one_segments}

-- "/" or an absolute path of names
abbrev pub IsRooted : Text → Type 0
IsRooted p = (p ≡ slash ∷ []) ⊎ ((n : Text) × (p ≡ slash ∷ n) × All IsName (split slash n))

-- a cleaned absolute path is "/" or consists of names
pub clean-IsRooted : (t : Text) → IsRooted (clean (slash ∷ t))
clean-IsRooted t = go (path_segments (slash ∷ t)) (path_segments-rooted (slash ∷ t) abs) cleaned
  where
    abs : is_abs (slash ∷ t) ≡ true
    abs = unfold is_abs in refl

    cleaned : clean (slash ∷ t) ≡ slash ∷ join slash (path_segments (slash ∷ t))
    cleaned = clean_lem (slash ∷ t) ∙ (rw abs (unfold render in refl))

    go :
        (ss : List Text)
        → All IsName ss
        → clean (slash ∷ t) ≡ slash ∷ join slash ss
        → IsRooted (clean (slash ∷ t))
    go [] names e = inl (e ∙ (unfold join in refl))
    go (s ∷ ss) names e = inr (
      join slash (s ∷ ss),
      e,
      rw (split-join slash (s ∷ ss) (λ x. cc) (one_segments (s ∷ ss) names)) names,
    )
