-- ===== src/Storage/Os/Directories.antt =====
-- What `os.Rename` of a directory does to the file at each path.
use honeygen.Prelude.{
  ◌≡◌, refl, sym, ap, ◌∙◌, inl, inr, Bool, true, false, none, List, [], ◌∷◌, ◌++◌, arith,
  if◌then◌else◌, Bool-cases, length, drop,
}
use honeygen.Text.{Text, text_eq, has_prefix}
use honeygen.Text.Equality.{text_eq_iff, text_eq-append}
use honeygen.Path.{slash}
use honeygen.Storage.Os.{
  Disk, Bytes, file_at, is_directory, move_directory, lookup, renamed, any_below,
}

-- strictly below a directory
abbrev pub is_below : Text → Text → Bool
is_below dir p = has_prefix p (dir ++ slash ∷ [])

pub has_prefix-below : (r s p : Text) → has_prefix (r ++ s) (r ++ p) ≡ has_prefix s p
unfolding has_prefix
has_prefix-below [] s p = refl
has_prefix-below (c ∷ r) s p = ground (arith, has_prefix-below r s p)

-- a path below a directory is the directory with a rest
below_rest : (dir p : Text) → is_below dir p ≡ true → dir ++ drop (length dir) p ≡ p
unfolding has_prefix
below_rest [] p h = refl
below_rest (c ∷ dir) [] h = cc
below_rest (c ∷ dir) (x ∷ p) h =
    let same : c ≡ x = ground (arith, h) in
    let rest : is_below dir p ≡ true = ground (arith, h) in rw (same, below_rest dir p rest) refl

-- the path in one directory that stands for a path in another
abbrev pub in_place_of : Text → Text → Text → Text
in_place_of to from p = to ++ drop (length from) p

in_place_of-below :
    (to from p : Text) → is_below from p ≡ true → is_below to (in_place_of to from p) ≡ true
in_place_of-below to from p h =
    has_prefix-below to (drop (length from) p) (slash ∷ [])
    ∙ sym (has_prefix-below from (drop (length from) p) (slash ∷ []))
    ∙ ap (is_below from) (below_rest from p h)
    ∙ h

-- the new path of a file is `p` just where its old path is the one that stands for `p`
same_place :
    (to from q p : Text)
    → is_below from q ≡ true
    → is_below to p ≡ true
    → text_eq (in_place_of to from q) p ≡ text_eq q (in_place_of from to p)
same_place to from q p hq hp =
    let r = drop (length from) q in
    let s = drop (length to) p in
    ap (text_eq (to ++ r)) (sym (below_rest to p hp))
    ∙ text_eq-append to r s
    ∙ sym (text_eq-append from r s)
    ∙ ap (λ x. text_eq x (from ++ s)) (below_rest from q hq)

told_apart : (f : Text → Bool) (q p : Text) → f q ≡ true → f p ≡ false → text_eq q p ≡ false
told_apart f q p yes_ no_ = elim (Bool-cases (text_eq q p)) [
  | inl e ↦ let same = ap f ((text_eq_iff q p).0 e) in cc
  | inr e ↦ e
]

told_apart' : (f : Text → Bool) (q p : Text) → f q ≡ false → f p ≡ true → text_eq q p ≡ false
told_apart' f q p no_ yes_ = elim (Bool-cases (text_eq q p)) [
  | inl e ↦ let same = ap f ((text_eq_iff q p).0 e) in cc
  | inr e ↦ e
]

module _ (from to : Text) where
  lookup-renamed :
      (files : List (Text × Bytes)) (p : Text)
      → any_below to files ≡ false
      → lookup p (renamed from to files) ≡ (
          if is_below to p
          then lookup (in_place_of from to p) files
          else if is_below from p
          then none
          else lookup p files)
  unfolding lookup renamed any_below
  lookup-renamed [] p free = ground arith
  lookup-renamed ((q, bytes) ∷ rest) p free =
      let later : any_below to rest ≡ false = ground (arith, free) in
      let outside : is_below to q ≡ false = ground (arith, free) in
      let ih = lookup-renamed rest p later in
      elim (Bool-cases (is_below from q)) [
        | inl hq ↦ elim (Bool-cases (is_below to p)) [
          | inl hp ↦ rw (hq, hp, same_place to from q p hq hp) (ground (arith, ih, hp))
          | inr hp ↦
              let moved_off =
                told_apart (is_below to) (in_place_of to from q) p (in_place_of-below to from q hq)
                  hp in
              elim (Bool-cases (is_below from p)) [
                | inl hf ↦ rw (hq, hp, moved_off, hf) (ground (arith, ih, hp, hf))
                | inr hf ↦
                    rw (hq, hp, moved_off, hf, told_apart (is_below from) q p hq hf)
                      (ground (arith, ih, hp, hf))
              ]
        ]
        | inr hq ↦ elim (Bool-cases (is_below to p)) [
          | inl hp ↦
              rw
                (
                  hq,
                  hp,
                  told_apart' (is_below to) q p outside hp,
                  told_apart' (is_below from) q (in_place_of from to p) hq
                      (in_place_of-below from to p hp),
                )
                (ground (arith, ih, hp))
          | inr hp ↦ elim (Bool-cases (is_below from p)) [
            | inl hf ↦
                rw (hq, hp, hf, told_apart' (is_below from) q p hq hf) (ground (arith, ih, hp, hf))
            | inr hf ↦ rw (hq, hp, hf) (ground (arith, ih, hp, hf))
          ]
        ]
      ]

pub file_at-move_directory :
    (d : Disk) (from to p : Text)
    → is_directory d to ≡ false
    → file_at (move_directory d from to) p ≡ (
        if is_below to p
        then file_at d (in_place_of from to p)
        else if is_below from p
        then none
        else file_at d p)
unfolding file_at move_directory is_directory
file_at-move_directory d from to p free = lookup-renamed from to d.files p free
