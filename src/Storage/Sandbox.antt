-- ===== src/Storage/Sandbox.antt =====
-- What the guard of `normalizeRelativePath` lets through, and where `resolve` leads.
use honeygen.Prelude.{
  ℕ, ◌≡◌, refl, sym, ap, ◌∙◌, ◌≢◌, ◌⊎◌, inl, inr, true, false, some, List, [], ◌∷◌, ◌++◌, arith,
  Bool-cases, All, Result, ok, err, ◌>>=◌, err-ne-ok, ok-injective,
}
use honeygen.Text.{Text, Lacks, text_eq, trim_space, trim_prefix, has_prefix, split, join, replace}
use honeygen.Text.Equality.{
  text_eq_iff, has_prefix-append, append-trim_prefix, text_eq_of_ne, ne_of_text_eq,
}
use honeygen.Text.Parts.{
  join-split, split-join, split-ne-nil, split-append, replace-Lacks, replace_of_Lacks, Lacks-split,
  Lacks-join,
}
use honeygen.Path.{slash, dot, dotdot, is_abs, clean, render, path_segments, path_join}
use honeygen.Path.Clean.{IsName, path_segments-cases}
use honeygen.Path.Below.{
  root_prefix, one_segments, clean_lem, clean-join, clean-below, render-relative, is_abs-join,
  path_segments-All,
}
use honeygen.Storage.{
  backslash, refused_path, normalize_relative_path, StorageError, Filesystem, resolve,
  resolve_under, with_full, not_configured, invalid_path,
}

-- A path that the store works with: every segment names an entry, and none is ".", ".." or empty.
pub record IsSafe (p : Text) : Type 0 where
  pub names : All IsName (split slash p)
  pub no_backslash : Lacks backslash p

module _ (q : Text) (accepted : refused_path q ≡ false) where
  not_abs : is_abs q ≡ false
  unfolding refused_path
  not_abs = ground arith

  not_dot : text_eq q dot ≡ false
  unfolding refused_path
  not_dot = ground arith

  not_dotdot : text_eq q dotdot ≡ false
  unfolding refused_path
  not_dotdot = ground arith

  not_up : has_prefix q (b'.' ∷ b'.' ∷ slash ∷ []) ≡ false
  unfolding refused_path
  not_up = ground arith

-- a relative path that starts with ".." is ".." or has the prefix "../"
join-dotdot :
    (rest : List Text)
    → (join slash (dotdot ∷ rest) ≡ dotdot)
      ⊎ (has_prefix (join slash (dotdot ∷ rest)) (b'.' ∷ b'.' ∷ slash ∷ []) ≡ true)
unfolding join
join-dotdot [] = inl refl
join-dotdot (s ∷ rest) = inr (has_prefix-append (b'.' ∷ b'.' ∷ slash ∷ []) (join slash (s ∷ rest)))

is_abs-render : (segs : List Text) → is_abs (render true segs) ≡ true
unfolding is_abs render
is_abs-render segs = refl

-- what passes the guard is the join of names
module _ (t : Text) (accepted : refused_path (clean t) ≡ false) where
  relative : is_abs t ≡ false
  relative = elim (Bool-cases (is_abs t)) [
    | inl e ↦ cc (not_abs (clean t) accepted, clean_lem t, e, is_abs-render (path_segments t))
    | inr e ↦ e
  ]

  rendered : clean t ≡ render false (path_segments t)
  rendered = rw (clean_lem t, relative)

  segments-ne : path_segments t ≢ []
  segments-ne e =
      ne_of_text_eq (clean t) dot (not_dot (clean t) accepted)
        (rw (rendered, e) (unfold render in refl))

  joined : clean t ≡ join slash (path_segments t)
  joined = rendered ∙ render-relative (path_segments t) segments-ne

  not-up : (rest : List Text) → path_segments t ≢ dotdot ∷ rest
  not-up rest e = elim (join-dotdot rest) [
    | inl d ↦ ne_of_text_eq (clean t) dotdot (not_dotdot (clean t) accepted) (rw (joined, e) d)
    | inr u ↦ cc (not_up (clean t) accepted, joined, e, u)
  ]

  segments-names : All IsName (path_segments t)
  segments-names = elim (path_segments-cases t) [
    | inl names ↦ names
    | inr (rest, e) ↦ absurd (not-up rest e)
  ]

  split-clean : split slash (clean t) ≡ path_segments t
  split-clean =
      rw joined (split-join slash (path_segments t) segments-ne (one_segments _ segments-names))

-- the segments of the text that is cleaned hold no backslash, and so neither does the result
Lacks-clean :
    (s : Text)
    → refused_path (clean (replace backslash slash s)) ≡ false
    → Lacks backslash (clean (replace backslash slash s))
Lacks-clean s accepted =
    let t = replace backslash slash s in
    rw (joined t accepted) (
      Lacks-join backslash slash (path_segments t) (omega arith) (
        path_segments-All (Lacks backslash) (omega arith) t
          (Lacks-split backslash slash t (replace-Lacks backslash slash s (omega arith)))))

clean-IsSafe :
    (s : Text)
    → refused_path (clean (replace backslash slash s)) ≡ false
    → IsSafe (clean (replace backslash slash s))
clean-IsSafe s accepted = record {
  names =
      rw (split-clean (replace backslash slash s) accepted)
        (segments-names (replace backslash slash s) accepted);
  no_backslash = Lacks-clean s accepted;
}

-- Whatever the caller sends, a path that `normalizeRelativePath` returns is made of names only: no
-- segment is empty, "." or "..", and it holds no backslash.
pub normalize_relative_path-IsSafe : (raw p : Text) → normalize_relative_path raw ≡ ok p → IsSafe p
unfolding normalize_relative_path
normalize_relative_path-IsSafe raw p h =
    let n = clean (replace backslash slash (trim_space raw)) in
    elim (Bool-cases (refused_path n)) [
      | inl bad ↦ absurd (err-ne-ok (invalid_path raw) p (rw bad at h))
      | inr good ↦ rw (← ok-injective (rw good at h)) (clean-IsSafe (trim_space raw) good)
    ]

-- a path of names passes each test of the guard
names-ne :
    (q : Text) (s : Text) (ss : List Text)
    → (IsName s → ⊥)
    → split slash q ≡ s ∷ ss
    → (p : Text) → All IsName (split slash p)
    → text_eq p q ≡ false
names-ne q s ss bad e p names = elim (Bool-cases (text_eq p q)) [
  | inl same ↦ absurd (bad (head (split slash q) e (rw (← (text_eq_iff p q).0 same) names)))
  | inr other ↦ other
]
  where
    head : (l : List Text) → l ≡ s ∷ ss → All IsName l → IsName s
    head l el h = let h' : All IsName (s ∷ ss) = (rw el at h) in h'.0

names-not-up :
    (p : Text) → All IsName (split slash p) → has_prefix p (b'.' ∷ b'.' ∷ slash ∷ []) ≡ false
names-not-up p names = elim (Bool-cases (has_prefix p (b'.' ∷ b'.' ∷ slash ∷ []))) [
  | inl up ↦ absurd (
      go (trim_prefix p (b'.' ∷ b'.' ∷ slash ∷ []))
        (rw (← append-trim_prefix p (b'.' ∷ b'.' ∷ slash ∷ []) up) at names))
  | inr other ↦ other
]
  where
    go : (r : Text) → All IsName (split slash ((b'.' ∷ b'.' ∷ slash ∷ []) ++ r)) → ⊥
    go r h =
        let h' : All IsName (dotdot ∷ split slash r) =
          (rw (split-append slash dotdot r (omega arith)) at h) in
        h'.0.not_dotdot refl

names-not-abs : (p : Text) → All IsName (split slash p) → is_abs p ≡ false
names-not-abs p names =
    rw (← join-split slash p) (is_abs-join (split slash p) (split-ne-nil slash p) names)

pub refused_path-names : (p : Text) → All IsName (split slash p) → refused_path p ≡ false
unfolding refused_path
refused_path-names p names = rw (
  names-ne dot dot [] (λ n. n.not_dot refl) (unfold split in refl) p names,
  names-ne [] [] [] (λ n. n.not_empty refl) (unfold split in refl) p names,
  names-not-up p names,
  names-ne dotdot dotdot [] (λ n. n.not_dotdot refl) (unfold split in refl) p names,
  names-not-abs p names,
)

clean-names : (p : Text) → All IsName (split slash p) → clean p ≡ p
clean-names p names =
    ap clean (sym (join-split slash p))
    ∙ clean-join (split slash p) (split-ne-nil slash p) names
    ∙ join-split slash p

-- A path of names that is trimmed and has no backslash is returned as it is.
pub normalize_relative_path-fixed :
    (p : Text) → IsSafe p → trim_space p ≡ p → normalize_relative_path p ≡ ok p
unfolding normalize_relative_path
normalize_relative_path-fixed p s trimmed = rw (
  trimmed,
  replace_of_Lacks backslash slash p s.no_backslash,
  clean-names p s.names,
  refused_path-names p s.names,
)

names-ne-nil : (p : Text) → All IsName (split slash p) → p ≢ []
names-ne-nil p s e =
    let bad : refused_path [] ≡ true = (unfold refused_path text_eq in refl) in
    cc (refused_path-names p s, e, bad)

pub append-cons-ne : (s t : Text) (c : ℕ) → s ++ c ∷ t ≢ []
append-cons-ne [] t c e = cc
append-cons-ne (x ∷ s) t c e = cc

root_below :
    (root n : Text)
    → root ≢ []
    → All IsName (split slash n)
    → clean (root ++ slash ∷ n) ≡ root_prefix root ++ n
root_below root n nr s =
    let h = clean-below root (split slash n) nr (split-ne-nil slash n) s in
    rw (join-split slash n) at h

pub path_join-root :
    (root n : Text)
    → root ≢ []
    → All IsName (split slash n)
    → path_join (root ∷ n ∷ []) ≡ root_prefix root ++ n
unfolding path_join join
path_join-root root n nr s =
    rw
      (
        text_eq_of_ne root [] nr,
        text_eq_of_ne n [] (names-ne-nil n s),
        text_eq_of_ne (root ++ slash ∷ n) [] (append-cons-ne root n slash),
      )
      (root_below root n nr s)

-- `resolve` succeeds only with a root, and the full path is the cleaned root followed by the
-- normalized path, whose segments are all names: it lies below the root.
pub resolve_below :
    (f : Filesystem) (raw n full : Text)
    → resolve (some f) raw ≡ ok (n, full)
    → (f.root ≢ []) × (full ≡ root_prefix f.root ++ n) × All IsName (split slash n)
unfolding resolve resolve_under
resolve_below f raw n full h = elim (Bool-cases (text_eq f.root [])) [
  | inl e ↦ absurd (err-ne-ok not_configured (n, full) (rw e at h))
  | inr e ↦ found (ne_of_text_eq f.root [] e) (normalize_relative_path raw) refl (rw e at h)
]
  where
    found :
        f.root ≢ []
        → (r : Result StorageError Text) → normalize_relative_path raw ≡ r
        → (r >>= λ m. ok (with_full f.root m)) ≡ ok (n, full)
        → (f.root ≢ []) × (full ≡ root_prefix f.root ++ n) × All IsName (split slash n)
    found nr (err x) eq k = cc
    found nr (ok m) eq k =
        let s = normalize_relative_path-IsSafe raw m eq in
        let same : m ≡ n = cc in (nr, cc (path_join-root f.root m nr s.names), rw (← same) s.names)
