-- ===== src/Generation/Planner/Slugs.antt =====
-- generation/planner.go, slugify: a slug may stand between two slashes of a path.
use honeygen.Prelude.{
  ℕ, ◌≡◌, ◌≢◌, refl, ap, inl, inr, Bool, true, false, not, ◌&&◌, ◌||◌, List, [], ◌∷◌, ◌++◌, ◌==◌,
  length, All, length-append, All-append, All-imp, arith, Bool-cases, all,
}
use honeygen.Text.{Text, codes, text_eq, trim_space, is_space, join}
use honeygen.Text.Equality.{text_eq_iff}
use honeygen.Path.{dot, dotdot}
use honeygen.Storage.Normalizing.{plain, IsPart}
use honeygen.Generation.Planner.{
  slug_char, replace_each, with_field, field_loop, fields_of, slugify,
}

-- a character that `slugify` leaves: white space, or one that may stand in a name
abbrev safe : ℕ → Bool
safe c = is_space c || plain c && not (c == b'.')

-- a character of a slug
abbrev Slug : ℕ → Type 0
Slug c = (plain c ≡ true) × (c ≢ b'.')

slug_char-safe : (c : ℕ) → All (λ d. safe d ≡ true) (slug_char c)
unfolding slug_char
slug_char-safe c = ground (arith, space, letter_a, letter_n, letter_d)
  where
    space : is_space 32 ≡ true
    space = unfold is_space in refl

    letter_a : is_space 97 ≡ false
    letter_a = unfold is_space in refl

    letter_n : is_space 110 ≡ false
    letter_n = unfold is_space in refl

    letter_d : is_space 100 ≡ false
    letter_d = unfold is_space in refl

replace_each-safe : (s : Text) → All (λ d. safe d ≡ true) (replace_each s)
unfolding replace_each
replace_each-safe [] = tt
replace_each-safe (c ∷ s) =
    All-append (λ d. safe d ≡ true) (slug_char c) (replace_each s) (slug_char-safe c)
      (replace_each-safe s)

with_field-Slug :
    (f : Text) (fields : List Text)
    → All Slug f
    → All (All Slug) fields
    → All (All Slug) (with_field f fields)
with_field-Slug [] fields h hs = hs
with_field-Slug (c ∷ f) fields h hs = (h, hs)

field_loop-Slug :
    (s : Text)
    → All (λ d. safe d ≡ true) s
    → All Slug (field_loop s).0 × All (All Slug) (field_loop s).1
unfolding field_loop
field_loop-Slug [] h = (tt, tt)
field_loop-Slug (c ∷ s) (hc, h) =
    let (f, fields) = field_loop-Slug s h in
    elim (Bool-cases (is_space c)) [
      | inl ends ↦ rw ends (tt, with_field-Slug (field_loop s).0 (field_loop s).1 f fields)
      | inr goes ↦ rw goes ((ground arith, f), fields)
    ]

join-Slug : (fields : List Text) → All (All Slug) fields → All Slug (join b'-' fields)
unfolding join
join-Slug [] h = tt
join-Slug (f ∷ []) (hf, h) = hf
join-Slug (f ∷ g ∷ fields) (hf, h) =
    All-append Slug f (b'-' ∷ join b'-' (g ∷ fields)) hf
      ((unfold is_space in refl, omega arith), join-Slug (g ∷ fields) h)

slugify-Slug : (lower : Text → Text) (value : Text) → All Slug (slugify lower value)
unfolding slugify fields_of
slugify-Slug lower value =
    let s = replace_each (lower (trim_space value)) in
    let (f, fields) = field_loop-Slug s (replace_each-safe (lower (trim_space value))) in
    join-Slug (with_field (field_loop s).0 (field_loop s).1)
      (with_field-Slug (field_loop s).0 (field_loop s).1 f fields)

pub slug-IsPart : (lower : Text → Text) (value : Text) → IsPart (slugify lower value)
slug-IsPart lower value = record {
  chars =
      All-imp Slug (λ c. plain c ≡ true) (slugify lower value) (λ c h. h.0)
        (slugify-Slug lower value);
  not_dot = λ e. let h : All Slug dot = rw e at (slugify-Slug lower value) in h.0.1 refl;
  not_dotdot = λ e. let h : All Slug dotdot = rw e at (slugify-Slug lower value) in h.0.1 refl;
}

abbrev pub good_part : Text → Bool
good_part t = all plain t && not (text_eq t dot) && not (text_eq t dotdot)

pub all-All : {A : Type 0} (p : A → Bool) (xs : List A) → all p xs ≡ true → All (λ x. p x ≡ true) xs
all-All p [] h = tt
all-All p (x ∷ xs) h = (ground arith, all-All p xs (ground arith))

pub good_part-IsPart : (t : Text) → good_part t ≡ true → IsPart t
good_part-IsPart t h = record {
  chars = all-All plain t (ground arith);
  not_dot = λ e. ground (arith, text_eq_iff t dot);
  not_dotdot = λ e. ground (arith, text_eq_iff t dotdot);
}

pub summary-IsPart :
    (lower : Text → Text) (value : Text) → IsPart (slugify lower value ++ codes "-summary.md")
summary-IsPart lower value = record {
  chars =
      All-append (λ c. plain c ≡ true) (slugify lower value) (codes "-summary.md")
        (slug-IsPart lower value).chars
        (all-All plain (codes "-summary.md") (unfold is_space in refl));
  not_dot = λ e. long (ap length e);
  not_dotdot = λ e. long' (ap length e);
}
  where
    long : length (slugify lower value ++ codes "-summary.md") ≡ 1 → ⊥
    long e = omega (arith, length-append (slugify lower value) (codes "-summary.md"))

    long' : length (slugify lower value ++ codes "-summary.md") ≡ 2 → ⊥
    long' e = omega (arith, length-append (slugify lower value) (codes "-summary.md"))
