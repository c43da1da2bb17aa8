-- ===== src/Text/Trimming.antt =====
-- Trimming a text twice.
use mathlib.Core.List.{reverse-append, reverse-reverse}
use honeygen.Prelude.{
  ◌≡◌, refl, sym, ap, ◌∙◌, inl, inr, ℕ, Bool, false, [], ◌∷◌, ◌++◌, reverse, Bool-cases,
}
use honeygen.Text.{Text, trim_left, trim, trim_space, is_space}

module _ (p : ℕ → Bool) where
  -- the text does not start with such a character
  NoLead : Text → Type 0
  NoLead [] = Unit
  NoLead (c ∷ s) = p c ≡ false

  trim_left-NoLead : (s : Text) → NoLead (trim_left p s)
  unfolding trim_left NoLead
  trim_left-NoLead [] = tt
  trim_left-NoLead (c ∷ s) = elim (Bool-cases (p c)) [
    | inl y ↦ rw y (trim_left-NoLead s)
    | inr n ↦ rw n n
  ]

  trim_left_of_NoLead : (s : Text) → NoLead s → trim_left p s ≡ s
  unfolding trim_left NoLead
  trim_left_of_NoLead [] h = refl
  trim_left_of_NoLead (c ∷ s) h = rw h refl

  NoLead-append : (s t : Text) → NoLead (s ++ t) → NoLead s
  unfolding NoLead
  NoLead-append [] t h = tt
  NoLead-append (c ∷ s) t h = h

  -- what is cut off stands in front
  trim_left-suffix : (s : Text) → (pre : Text) × (pre ++ trim_left p s ≡ s)
  unfolding trim_left
  trim_left-suffix [] = ([], refl)
  trim_left-suffix (c ∷ s) = elim (Bool-cases (p c)) [
    | inl y ↦ let (pre, e) = trim_left-suffix s in (c ∷ pre, rw y (ap (λ t. c ∷ t) e))
    | inr n ↦ ([], rw n refl)
  ]

  pub trim-trim : (s : Text) → trim p (trim p s) ≡ trim p s
  unfolding trim
  trim-trim s =
      let u = trim_left p s in
      let v = trim_left p (reverse u) in
      let (pre, e) = trim_left-suffix (reverse u) in
      let whole : u ≡ reverse v ++ reverse pre =
        sym (reverse-reverse u) ∙ ap reverse (sym e) ∙ reverse-append pre v in
      let front : NoLead (reverse v) =
        NoLead-append (reverse v) (reverse pre) (rw (← whole) (trim_left-NoLead s)) in
      rw
        (
          trim_left_of_NoLead (reverse v) front,
          reverse-reverse v,
          trim_left_of_NoLead v (trim_left-NoLead (reverse u)),
        )
        refl

pub trim_space-trim_space : (s : Text) → trim_space (trim_space s) ≡ trim_space s
unfolding trim_space
trim_space-trim_space s = trim-trim is_space s
