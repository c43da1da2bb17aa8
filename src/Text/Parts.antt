-- ===== src/Text/Parts.antt =====
-- Splitting and joining at one character.
use honeygen.Prelude.{ℕ, ◌≡◌, ◌≢◌, refl, ap, ◌∙◌, List, [], ◌∷◌, ◌++◌, arith, All, All-append}
use honeygen.Text.{Text, Lacks, split, join, extend, replace}

pub split-ne-nil : (sep : ℕ) (s : Text) → split sep s ≢ []
unfolding split
split-ne-nil sep [] e = cc
split-ne-nil sep (c ∷ s) e = ground (arith, split-ne-nil sep s)

join-cons :
    (sep : ℕ) (p : Text) (ps : List Text) → ps ≢ [] → join sep (p ∷ ps) ≡ p ++ sep ∷ join sep ps
unfolding join
join-cons sep p [] h = absurd (h refl)
join-cons sep p (q ∷ ps) h = refl

join-extend : (sep c : ℕ) (ps : List Text) → join sep (extend c ps) ≡ c ∷ join sep ps
unfolding join extend
join-extend sep c [] = refl
join-extend sep c (p ∷ []) = refl
join-extend sep c (p ∷ q ∷ ps) = refl

-- joining the parts of a text gives the text back
pub join-split : (sep : ℕ) (s : Text) → join sep (split sep s) ≡ s
unfolding split
join-split sep [] = unfold join in refl
join-split sep (c ∷ s) = ground (
  arith,
  join-split sep s,
  join-extend sep c (split sep s),
  join-cons sep [] (split sep s) (split-ne-nil sep s),
)

Lacks-extend :
    (sep c : ℕ) (ps : List Text) → c ≢ sep → All (Lacks sep) ps → All (Lacks sep) (extend c ps)
unfolding extend
Lacks-extend sep c [] h hs = ((h, tt), tt)
Lacks-extend sep c (p ∷ ps) h (hp, hs) = ((h, hp), hs)

-- no part holds the separator
pub split-Lacks : (sep : ℕ) (s : Text) → All (Lacks sep) (split sep s)
unfolding split
split-Lacks sep [] = (tt, tt)
split-Lacks sep (c ∷ s) = ground (arith, split-Lacks sep s, Lacks-extend sep c (split sep s))

split_of_Lacks : (sep : ℕ) (p : Text) → Lacks sep p → split sep p ≡ p ∷ []
unfolding split extend
split_of_Lacks sep [] h = refl
split_of_Lacks sep (c ∷ p) (hc, hp) = ground (arith, split_of_Lacks sep p hp)

-- a separator splits
pub split-append : (sep : ℕ) (p s : Text) → Lacks sep p → split sep (p ++ sep ∷ s) ≡ p ∷ split sep s
unfolding split extend
split-append sep [] s h = ground arith
split-append sep (c ∷ p) s (hc, hp) = ground (arith, split-append sep p s hp)

extend-append : (c : ℕ) (ps qs : List Text) → ps ≢ [] → extend c (ps ++ qs) ≡ extend c ps ++ qs
unfolding extend
extend-append c [] qs h = absurd (h refl)
extend-append c (p ∷ ps) qs h = refl

pub split-append_sep :
    (sep : ℕ) (s t : Text) → split sep (s ++ sep ∷ t) ≡ split sep s ++ split sep t
unfolding split
split-append_sep sep [] t = ground arith
split-append_sep sep (c ∷ s) t = ground (
  arith,
  split-append_sep sep s t,
  extend-append c (split sep s) (split sep t) (split-ne-nil sep s),
)

pub split-join :
    (sep : ℕ) (ps : List Text) → ps ≢ [] → All (Lacks sep) ps → split sep (join sep ps) ≡ ps
unfolding join
split-join sep [] h hs = absurd (h refl)
split-join sep (p ∷ []) h (hp, hs) = split_of_Lacks sep p hp
split-join sep (p ∷ q ∷ ps) h (hp, hs) =
    split-append sep p _ hp ∙ ap (λ r. p ∷ r) (split-join sep (q ∷ ps) (λ e. cc) hs)

pub replace-Lacks : (a b : ℕ) (s : Text) → a ≢ b → Lacks a (replace a b s)
unfolding replace
replace-Lacks a b [] h = tt
replace-Lacks a b (c ∷ s) h = ground (arith, replace-Lacks a b s)

pub replace_of_Lacks : (a b : ℕ) (s : Text) → Lacks a s → replace a b s ≡ s
unfolding replace
replace_of_Lacks a b [] h = refl
replace_of_Lacks a b (c ∷ s) (hc, hs) = ground (arith, replace_of_Lacks a b s hs)

module _ (c sep : ℕ) where
  Lacks-extend_head :
      (x : ℕ) (ps : List Text) → x ≢ c → All (Lacks c) ps → All (Lacks c) (extend x ps)
  unfolding extend
  Lacks-extend_head x [] h hs = ((h, tt), tt)
  Lacks-extend_head x (p ∷ ps) h (hp, hs) = ((h, hp), hs)

  -- what a text lacks, its parts lack
  pub Lacks-split : (s : Text) → Lacks c s → All (Lacks c) (split sep s)
  unfolding split
  Lacks-split [] h = (tt, tt)
  Lacks-split (x ∷ s) (hx, h) = ground (arith, Lacks-split s h, Lacks-extend_head x (split sep s))

  pub Lacks-join : (ps : List Text) → sep ≢ c → All (Lacks c) ps → Lacks c (join sep ps)
  unfolding join
  Lacks-join [] ne h = tt
  Lacks-join (p ∷ []) ne (hp, h) = hp
  Lacks-join (p ∷ q ∷ ps) ne (hp, h) =
      All-append (λ x. x ≢ c) p (sep ∷ join sep (q ∷ ps)) hp (ne, Lacks-join (q ∷ ps) ne h)
