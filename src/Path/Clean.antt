-- ===== src/Path/Clean.antt =====
-- What a cleaned path consists of.
use mathlib.Core.List.{reverse-append}
use honeygen.Prelude.{
  ◌≡◌, refl, ◌∙◌, ◌≢◌, ◌⊎◌, inl, inr, Bool, true, false, ◌||◌, List, [], ◌∷◌, ◌++◌, reverse,
  append_assoc, arith, Bool-cases, All, All-append, all,
}
use honeygen.Text.{Text, Lacks, text_eq, split}
use honeygen.Text.Equality.{text_eq_iff, text_eq_refl}
use honeygen.Text.Parts.{split-Lacks}
use honeygen.Path.{slash, dot, dotdot, is_abs, go_back, push_segment, clean_segments, path_segments}

-- a segment that names an entry of a directory
pub record IsName (s : Text) : Type 0 where
  pub not_empty : s ≢ []
  pub not_dot : s ≢ dot
  pub not_dotdot : s ≢ dotdot
  pub one_segment : Lacks slash s

-- what the stack may hold: names above a run of ".."
abbrev pub IsClean : List Text → Type 0
IsClean [] = Unit
IsClean (s ∷ st) = (IsName s × IsClean st) ⊎ ((s ≡ dotdot) × All (λ t. t ≡ dotdot) st)

IsClean-dots : (st : List Text) → All (λ t. t ≡ dotdot) st → IsClean st
IsClean-dots [] h = tt
IsClean-dots (s ∷ st) h = inr h

go_back-IsClean : (rooted : Bool) (st : List Text) → IsClean st → IsClean (go_back rooted st)
unfolding go_back
go_back-IsClean true [] h = tt
go_back-IsClean false [] h = inr (refl, tt)
go_back-IsClean rooted (s ∷ st) (inl (n, h)) = ground (arith, text_eq_iff s dotdot, n.not_dotdot)
go_back-IsClean rooted (s ∷ st) (inr (e, h)) = rw (e, text_eq_refl dotdot) (inr (refl, (refl, h)))

-- a name goes on top
pub push_segment-IsName :
    (rooted : Bool) (st : List Text) (s : Text) → IsName s → push_segment rooted st s ≡ s ∷ st
unfolding push_segment
push_segment-IsName rooted st s n = ground (
  arith,
  text_eq_iff s [],
  text_eq_iff s dot,
  text_eq_iff s dotdot,
  n.not_empty,
  n.not_dot,
  n.not_dotdot,
)

-- what a segment without a slash does: nothing, one step back, or one name more
push_segment-cases :
    (rooted : Bool) (st : List Text) (s : Text)
    → Lacks slash s
    → (push_segment rooted st s ≡ st)
      ⊎ (push_segment rooted st s ≡ go_back rooted st)
      ⊎ (IsName s × (push_segment rooted st s ≡ s ∷ st))
unfolding push_segment
push_segment-cases rooted st s l = elim (Bool-cases (text_eq s [] || text_eq s dot)) [
  | inl skip ↦ inl (rw skip)
  | inr keep ↦ elim (Bool-cases (text_eq s dotdot)) [
    | inl back ↦ inr (inl (rw (keep, back)))
    | inr name ↦ inr (inr (named keep name, rw (keep, name)))
  ]
]
  where
    named : (text_eq s [] || text_eq s dot) ≡ false → text_eq s dotdot ≡ false → IsName s
    named keep name = record {
      not_empty = λ e. ground (arith, text_eq_iff s []);
      not_dot = λ e. ground (arith, text_eq_iff s dot);
      not_dotdot = λ e. ground (arith, text_eq_iff s dotdot);
      one_segment = l;
    }

push_segment-IsClean :
    (rooted : Bool) (st : List Text) (s : Text)
    → Lacks slash s
    → IsClean st
    → IsClean (push_segment rooted st s)
push_segment-IsClean rooted st s l h = elim (push_segment-cases rooted st s l) [
  | inl e ↦ rw e h
  | inr (inl e) ↦ rw e (go_back-IsClean rooted st h)
  | inr (inr (n, e)) ↦ rw e (inl (n, h))
]

clean_segments-IsClean :
    (rooted : Bool) (st segs : List Text)
    → All (Lacks slash) segs
    → IsClean st
    → IsClean (clean_segments rooted st segs)
unfolding clean_segments
clean_segments-IsClean rooted st [] l h = h
clean_segments-IsClean rooted st (s ∷ segs) (ls, l) h =
    clean_segments-IsClean rooted (push_segment rooted st s) segs l
      (push_segment-IsClean rooted st s ls h)

-- names go on top, last one uppermost
pub clean_segments-IsName :
    (rooted : Bool) (st segs : List Text)
    → All IsName segs
    → clean_segments rooted st segs ≡ reverse segs ++ st
unfolding clean_segments
clean_segments-IsName rooted st [] h = refl
clean_segments-IsName rooted st (s ∷ segs) (n, h) = rw (push_segment-IsName rooted st s n) (
    clean_segments-IsName rooted (s ∷ st) segs h
    ∙ simp (reverse-append (s ∷ []) segs, append_assoc))

pub clean_segments-append :
    (rooted : Bool) (st xs ys : List Text)
    → clean_segments rooted st (xs ++ ys) ≡ clean_segments rooted (clean_segments rooted st xs) ys
unfolding clean_segments
clean_segments-append rooted st [] ys = refl
clean_segments-append rooted st (x ∷ xs) ys =
    clean_segments-append rooted (push_segment rooted st x) xs ys

-- a clean stack holds names only, or has ".." at its bottom
IsClean-cases :
    (st : List Text) → IsClean st → All IsName st ⊎ ((up : List Text) × (st ≡ up ++ dotdot ∷ []))
IsClean-cases [] h = inl tt
IsClean-cases (s ∷ []) (inl (n, h)) = inl (n, tt)
IsClean-cases (s ∷ []) (inr (e, h)) = inr ([], rw e)
IsClean-cases (s ∷ t ∷ st) (inl (n, h)) = below (IsClean-cases (t ∷ st) h)
  where
    below :
        All IsName (t ∷ st) ⊎ ((up : List Text) × (t ∷ st ≡ up ++ dotdot ∷ []))
        → All IsName (s ∷ t ∷ st) ⊎ ((up : List Text) × (s ∷ t ∷ st ≡ up ++ dotdot ∷ []))
    below (inl all) = inl (n, all)
    below (inr (up, e)) = inr (s ∷ up, rw e)
IsClean-cases (s ∷ t ∷ st) (inr (e, (et, h))) =
    below (IsClean-cases (t ∷ st) (IsClean-dots (t ∷ st) (et, h)))
  where
    below :
        All IsName (t ∷ st) ⊎ ((up : List Text) × (t ∷ st ≡ up ++ dotdot ∷ []))
        → All IsName (s ∷ t ∷ st) ⊎ ((up : List Text) × (s ∷ t ∷ st ≡ up ++ dotdot ∷ []))
    below (inl (n, all)) = absurd (n.not_dotdot et)
    below (inr (up, eu)) = inr (s ∷ up, rw eu)

pub All-reverse {ℓ κ} : {A : Type ℓ} (P : A → Type κ) (xs : List A) → All P xs → All P (reverse xs)
All-reverse P [] h = tt
All-reverse P (x ∷ xs) (px, h) =
    rw (reverse-append (x ∷ []) xs)
      (All-append P (reverse xs) (x ∷ []) (All-reverse P xs h) (px, tt))

-- the segments of a path are names, but for ".." at the front
pub path_segments-cases :
    (p : Text)
    → All IsName (path_segments p) ⊎ ((rest : List Text) × (path_segments p ≡ dotdot ∷ rest))
unfolding path_segments
path_segments-cases p = cases (
    IsClean-cases (clean_segments (is_abs p) [] (split slash p))
      (clean_segments-IsClean (is_abs p) [] (split slash p) (split-Lacks slash p) tt))
  where
    cases :
        {st : List Text}
        → All IsName st ⊎ ((up : List Text) × (st ≡ up ++ dotdot ∷ []))
        → All IsName (reverse st) ⊎ ((rest : List Text) × (reverse st ≡ dotdot ∷ rest))
    cases {st} (inl h) = inl (All-reverse IsName st h)
    cases {st} (inr (up, e)) = inr (reverse up, rw e (reverse-append up (dotdot ∷ [])))

-- at the root there is nothing to go back to: every segment is a name
go_back-names : (st : List Text) → All IsName st → All IsName (go_back true st)
unfolding go_back
go_back-names [] h = tt
go_back-names (s ∷ st) (n, h) = ground (arith, text_eq_iff s dotdot, n.not_dotdot)

clean_segments-names :
    (st segs : List Text)
    → All (Lacks slash) segs
    → All IsName st
    → All IsName (clean_segments true st segs)
unfolding clean_segments
clean_segments-names st [] l h = h
clean_segments-names st (s ∷ segs) (ls, l) h =
    clean_segments-names (push_segment true st s) segs l (elim (push_segment-cases true st s ls) [
      | inl e ↦ rw e h
      | inr (inl e) ↦ rw e (go_back-names st h)
      | inr (inr (n, e)) ↦ rw e (n, h)
    ])

pub path_segments-rooted : (p : Text) → is_abs p ≡ true → All IsName (path_segments p)
unfolding path_segments
path_segments-rooted p h =
    rw h (All-reverse IsName _ (clean_segments-names [] (split slash p) (split-Lacks slash p) tt))
