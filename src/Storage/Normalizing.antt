-- ===== src/Storage/Normalizing.antt =====
-- Which paths `normalizeRelativePath` accepts: what stands between the slashes may be empty.
use mathlib.Core.List.{reverse-append, reverse-reverse}
use honeygen.Prelude.{
  ℕ, ◌≡◌, ◌≢◌, refl, sym, ap, ◌∙◌, inl, inr, Bool, true, false, not, ◌&&◌, ◌==◌, List, [], ◌∷◌,
  ◌++◌, reverse, append-nil, append_assoc, arith, All, All-append, Bool-cases, ok,
}
use honeygen.Text.{Text, Lacks, text_eq, trim_space, trim, trim_left, is_space, split, join}
use honeygen.Text.Equality.{text_eq_iff}
use honeygen.Text.Parts.{split-join, replace_of_Lacks}
use honeygen.Path.{
  slash, dot, dotdot, is_abs, clean, path_segments, clean_segments, push_segment, nonempty,
}
use honeygen.Path.Clean.{IsName, push_segment-IsName, All-reverse}
use honeygen.Path.Below.{one_segments, clean_lem, render-relative}
use honeygen.Storage.{backslash, normalize_relative_path}
use honeygen.Storage.Sandbox.{refused_path-names}

-- a character that neither ends a segment nor is trimmed
abbrev pub plain : ℕ → Bool
plain c = not (c == slash) && not (c == backslash) && not (is_space c)

-- what may stand between two slashes
pub record IsPart (t : Text) : Type 0 where
  pub chars : All (λ c. plain c ≡ true) t
  pub not_dot : t ≢ dot
  pub not_dotdot : t ≢ dotdot

Lacks-plain :
    (t : Text)
    → All (λ c. plain c ≡ true) t
    → Lacks slash t × Lacks backslash t × All (λ c. is_space c ≡ false) t
Lacks-plain [] h = (tt, tt, tt)
Lacks-plain (c ∷ t) (hc, h) =
    let (s, b, w) = Lacks-plain t h in ((ground arith, s), (ground arith, b), (ground arith, w))

part-IsName : (t : Text) → t ≢ [] → IsPart t → IsName t
part-IsName t ne p = record {
  not_empty = ne;
  not_dot = p.not_dot;
  not_dotdot = p.not_dotdot;
  one_segment = (Lacks-plain t p.chars).0;
}

nonempty-IsName : (ts : List Text) → All IsPart ts → All IsName (nonempty ts)
unfolding nonempty
nonempty-IsName [] h = tt
nonempty-IsName (t ∷ ts) (p, h) = elim (Bool-cases (text_eq t [])) [
  | inl e ↦ rw e (nonempty-IsName ts h)
  | inr ne ↦ rw ne (part-IsName t (λ e. ground (arith, text_eq_iff t [])) p, nonempty-IsName ts h)
]

clean_segments-cons :
    (rooted : Bool) (st ts : List Text) (t : Text)
    → clean_segments rooted st (t ∷ ts) ≡ clean_segments rooted (push_segment rooted st t) ts
unfolding clean_segments
clean_segments-cons rooted st ts t = refl

push_segment-empty :
    (rooted : Bool) (st : List Text) (t : Text)
    → text_eq t [] ≡ true
    → push_segment rooted st t ≡ st
unfolding push_segment
push_segment-empty rooted st t e = ground arith

nonempty-empty : (t : Text) (ts : List Text) → text_eq t [] ≡ true → nonempty (t ∷ ts) ≡ nonempty ts
unfolding nonempty
nonempty-empty t ts e = rw e

nonempty-kept :
    (t : Text) (ts : List Text) → text_eq t [] ≡ false → nonempty (t ∷ ts) ≡ t ∷ nonempty ts
unfolding nonempty
nonempty-kept t ts e = rw e

reverse-cons : (t : Text) (ns st : List Text) → reverse ns ++ t ∷ st ≡ reverse (t ∷ ns) ++ st
reverse-cons t ns st = simp (reverse-append (t ∷ []) ns, append_assoc)

clean_segments-parts :
    (st ts : List Text) → All IsPart ts → clean_segments false st ts ≡ reverse (nonempty ts) ++ st
clean_segments-parts st [] h = unfold clean_segments nonempty in refl
clean_segments-parts st (t ∷ ts) (p, h) = elim (Bool-cases (text_eq t [])) [
  | inl e ↦
      clean_segments-cons false st ts t
      ∙ ap (λ st'. clean_segments false st' ts) (push_segment-empty false st t e)
      ∙ clean_segments-parts st ts h
      ∙ ap (λ ns. reverse ns ++ st) (sym (nonempty-empty t ts e))
  | inr ne ↦
      clean_segments-cons false st ts t
      ∙ ap (λ st'. clean_segments false st' ts)
          (push_segment-IsName false st t (part-IsName t (λ e. ground (arith, text_eq_iff t [])) p))
      ∙ clean_segments-parts (t ∷ st) ts h
      ∙ reverse-cons t (nonempty ts) st
      ∙ ap (λ ns. reverse ns ++ st) (sym (nonempty-kept t ts ne))
]

trim_left_none : (s : Text) → All (λ c. is_space c ≡ false) s → trim_left is_space s ≡ s
unfolding trim_left
trim_left_none [] h = refl
trim_left_none (c ∷ s) (hc, h) = rw hc

trim_space_none : (s : Text) → All (λ c. is_space c ≡ false) s → trim_space s ≡ s
unfolding trim_space trim
trim_space_none s h =
    rw (trim_left_none s h, trim_left_none (reverse s) (All-reverse (λ c. is_space c ≡ false) s h))
      (reverse-reverse s)

All-join :
    (ts : List Text)
    → All IsPart ts
    → All (λ c. is_space c ≡ false) (join slash ts) × Lacks backslash (join slash ts)
unfolding join
All-join [] h = (tt, tt)
All-join (t ∷ []) (p, h) = let (s, b, w) = Lacks-plain t p.chars in (w, b)
All-join (t ∷ u ∷ ts) (p, h) =
    let (s, b, w) = Lacks-plain t p.chars in
    let (w', b') = All-join (u ∷ ts) h in
    (
      All-append (λ c. is_space c ≡ false) t (slash ∷ join slash (u ∷ ts)) w
          (unfold is_space in ground arith, w'),
      All-append (λ c. c ≢ backslash) t (slash ∷ join slash (u ∷ ts)) b (omega arith, b'),
    )

parts-Lacks : (ts : List Text) → All IsPart ts → All (Lacks slash) ts
parts-Lacks [] h = tt
parts-Lacks (t ∷ ts) (p, h) = ((Lacks-plain t p.chars).0, parts-Lacks ts h)

is_abs-parts :
    (t : Text) (ts : List Text) → t ≢ [] → IsPart t → is_abs (join slash (t ∷ ts)) ≡ false
unfolding is_abs join
is_abs-parts [] ts ne p = absurd (ne refl)
is_abs-parts (c ∷ t) [] ne p = ground (arith, (Lacks-plain (c ∷ t) p.chars).0)
is_abs-parts (c ∷ t) (u ∷ ts) ne p = ground (arith, (Lacks-plain (c ∷ t) p.chars).0)

path_segments_lem :
    (p : Text)
    → is_abs p ≡ false
    → path_segments p ≡ reverse (clean_segments false [] (split slash p))
unfolding path_segments
path_segments_lem p rel = rw rel

-- A path of parts of which the first is not empty is accepted; the empty parts drop out.
pub normalize_relative_path-parts :
    (t : Text) (ts : List Text)
    → t ≢ []
    → All IsPart (t ∷ ts)
    → normalize_relative_path (join slash (t ∷ ts)) ≡ ok (join slash (nonempty (t ∷ ts)))
unfolding normalize_relative_path
normalize_relative_path-parts t ts ne h =
    let p = join slash (t ∷ ts) in
    let (spaceless, no_backslash) = All-join (t ∷ ts) h in
    let names = nonempty-IsName (t ∷ ts) h in
    let some_ = kept-ne in
    let cleaned : clean p ≡ join slash (nonempty (t ∷ ts)) =
      rw (clean_lem, is_abs-parts t ts ne h.0, segments)
        (render-relative (nonempty (t ∷ ts)) some_) in
    rw (
      trim_space_none p spaceless,
      replace_of_Lacks backslash slash p no_backslash,
      cleaned,
      refused_path-names (join slash (nonempty (t ∷ ts))) (
          rw (split-join slash (nonempty (t ∷ ts)) some_ (one_segments (nonempty (t ∷ ts)) names))
            names),
    )
  where
    kept-ne : nonempty (t ∷ ts) ≢ []
    kept-ne e = unfold nonempty in ground (arith, text_eq_iff t [])

    segments : path_segments (join slash (t ∷ ts)) ≡ nonempty (t ∷ ts)
    segments =
        path_segments_lem (join slash (t ∷ ts)) (is_abs-parts t ts ne h.0)
        ∙ ap (λ ss. reverse (clean_segments false [] ss))
            (split-join slash (t ∷ ts) (λ e. cc) (parts-Lacks (t ∷ ts) h))
        ∙ ap reverse (clean_segments-parts [] (t ∷ ts) h ∙ append-nil _)
        ∙ reverse-reverse (nonempty (t ∷ ts))
