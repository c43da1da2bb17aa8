-- ===== src/Path/Below.antt =====
-- Names below a cleaned root, and what cleaning keeps.
use mathlib.Core.List.{reverse-append, reverse-reverse}
use honeygen.Prelude.{
  ◌≡◌, refl, sym, ◌≢◌, inl, inr, Bool, true, false, ◌||◌, List, [], ◌∷◌, ◌++◌, reverse, append-nil,
  append_assoc, arith, Bool-cases, All,
}
use honeygen.Text.{Text, Lacks, text_eq, split, join}
use honeygen.Text.Parts.{split-join, split-append_sep}
use honeygen.Path.{
  slash, dot, dotdot, is_abs, go_back, push_segment, clean_segments, path_segments, render, clean,
}
use honeygen.Path.Clean.{IsName, clean_segments-IsName, clean_segments-append, All-reverse}

pub one_segments : (ss : List Text) → All IsName ss → All (Lacks slash) ss
one_segments [] h = tt
one_segments (s ∷ ss) (n, h) = (n.one_segment, one_segments ss h)

-- a relative path of names is its own cleaned form
pub path_segments-join :
    (ss : List Text)
    → ss ≢ []
    → All IsName ss
    → is_abs (join slash ss) ≡ false
    → path_segments (join slash ss) ≡ ss
unfolding path_segments
path_segments-join ss ne h rel =
    rw (split-join slash ss ne (one_segments ss h), rel, clean_segments-IsName false [] ss h)
      (rw (append-nil, reverse-reverse))

pub is_abs-join : (ss : List Text) → ss ≢ [] → All IsName ss → is_abs (join slash ss) ≡ false
unfolding is_abs join
is_abs-join [] ne h = absurd (ne refl)
is_abs-join ([] ∷ ss) ne (n, h) = absurd (n.not_empty refl)
is_abs-join ((c ∷ s) ∷ []) ne (n, h) = ground (arith, n.one_segment)
is_abs-join ((c ∷ s) ∷ t ∷ ss) ne (n, h) = ground (arith, n.one_segment)

pub render-relative : (ss : List Text) → ss ≢ [] → render false ss ≡ join slash ss
unfolding render
render-relative [] ne = absurd (ne refl)
render-relative (s ∷ ss) ne = refl

pub clean_lem : (p : Text) → clean p ≡ render (is_abs p) (path_segments p)
unfolding clean
clean_lem p = refl

pub clean-join : (ss : List Text) → ss ≢ [] → All IsName ss → clean (join slash ss) ≡ join slash ss
clean-join ss ne h =
    let rel = is_abs-join ss ne h in
    rw (clean_lem, rel, path_segments-join ss ne h rel) (render-relative ss ne)

-- the cleaned root with the slash that a name below it stands behind
abbrev within : Bool → List Text → Text
within true [] = slash ∷ []
within true (s ∷ ss) = slash ∷ (join slash (s ∷ ss) ++ slash ∷ [])
within false [] = []
within false (s ∷ ss) = join slash (s ∷ ss) ++ slash ∷ []

unfoldable pub root_prefix : Text → Text
root_prefix root = within (is_abs root) (path_segments root)

join-append :
    (x : Text) (xs ys : List Text)
    → ys ≢ []
    → join slash (x ∷ (xs ++ ys)) ≡ join slash (x ∷ xs) ++ slash ∷ join slash ys
unfolding join
join-append x [] [] ne = absurd (ne refl)
join-append x [] (y ∷ ys) ne = refl
join-append x (z ∷ xs) ys ne =
    rw (join-append z xs ys ne)
      (unfold join in sym (append_assoc x (slash ∷ join slash (z ∷ xs)) _))

render-within :
    (rooted : Bool) (xs ys : List Text)
    → ys ≢ []
    → render rooted (xs ++ ys) ≡ within rooted xs ++ join slash ys
unfolding render
render-within true [] ys ne = refl
render-within true (x ∷ xs) ys ne = simp (join-append x xs ys ne, append_assoc)
render-within false [] ys ne = render-relative ys ne
render-within false (x ∷ xs) ys ne = simp (join-append x xs ys ne, append_assoc)

is_abs-append : (root rest : Text) → root ≢ [] → is_abs (root ++ rest) ≡ is_abs root
unfolding is_abs
is_abs-append [] rest ne = absurd (ne refl)
is_abs-append (c ∷ root) rest ne = refl

-- a path of names joined to a root lies below the root
pub clean-below :
    (root : Text) (ss : List Text)
    → root ≢ []
    → ss ≢ []
    → All IsName ss
    → clean (root ++ slash ∷ join slash ss) ≡ root_prefix root ++ join slash ss
unfolding clean path_segments root_prefix
clean-below root ss nr ns h =
    rw
      (
        is_abs-append root (slash ∷ join slash ss) nr,
        split-append_sep slash root (join slash ss),
        split-join slash ss ns (one_segments ss h),
        clean_segments-append (is_abs root) [] (split slash root) ss,
        clean_segments-IsName (is_abs root) (clean_segments (is_abs root) [] (split slash root)) ss
            h,
        reverse-append (reverse ss) (clean_segments (is_abs root) [] (split slash root)),
        reverse-reverse ss,
      )
      (render-within (is_abs root) (reverse (clean_segments (is_abs root) [] (split slash root))) ss
        ns)

-- a property of the segments of a path, true of "..", holds of the cleaned segments
module _ (P : Text → Type 0) (up : P dotdot) where
  go_back-All : (rooted : Bool) (st : List Text) → All P st → All P (go_back rooted st)
  unfolding go_back
  go_back-All true [] h = tt
  go_back-All false [] h = (up, tt)
  go_back-All rooted (s ∷ st) (ps, h) = elim (Bool-cases (text_eq s dotdot)) [
    | inl e ↦ rw e (up, (ps, h))
    | inr e ↦ rw e h
  ]

  push_segment-All :
      (rooted : Bool) (st : List Text) (s : Text)
      → P s
      → All P st
      → All P (push_segment rooted st s)
  unfolding push_segment
  push_segment-All rooted st s ps h = elim (Bool-cases (text_eq s [] || text_eq s dot)) [
    | inl e ↦ rw e h
    | inr e ↦ elim (Bool-cases (text_eq s dotdot)) [
      | inl b ↦ rw (e, b) (go_back-All rooted st h)
      | inr b ↦ rw (e, b) (ps, h)
    ]
  ]

  clean_segments-All :
      (rooted : Bool) (st segs : List Text)
      → All P segs
      → All P st
      → All P (clean_segments rooted st segs)
  unfolding clean_segments
  clean_segments-All rooted st [] h hs = hs
  clean_segments-All rooted st (s ∷ segs) (ps, h) hs =
      clean_segments-All rooted (push_segment rooted st s) segs h
        (push_segment-All rooted st s ps hs)

  pub path_segments-All : (p : Text) → All P (split slash p) → All P (path_segments p)
  unfolding path_segments
  path_segments-All p h = All-reverse P _ (clean_segments-All (is_abs p) [] (split slash p) h tt)
