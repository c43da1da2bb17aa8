-- ===== src/Database/Order.antt =====
-- Sorted and permuted rows: as many as before.
use honeygen.Prelude.{
  suc, ◌≡◌, refl, Bool, true, List, [], ◌∷◌, length, arith, All, ◌↔◌, Bool-cases, inl, inr,
}
use honeygen.Database.Table.{matching, order_by, insert_row}

pub length-matching : {A : Type 0} (xs : List A) → length xs ≡ matching (λ x. true) xs
unfolding matching
length-matching [] = refl
length-matching (x ∷ xs) = omega (arith, length-matching xs)

length-insert_row :
    {A : Type 0} (before : A → A → Bool) (a : A) (xs : List A)
    → length (insert_row before a xs) ≡ suc (length xs)
unfolding insert_row
length-insert_row before a [] = refl
length-insert_row before a (x ∷ xs) = ground (arith, length-insert_row before a xs)

pub length-order_by :
    {A : Type 0} (before : A → A → Bool) (xs : List A) → length (order_by before xs) ≡ length xs
unfolding order_by
length-order_by before [] = refl
length-order_by before (x ∷ xs) =
    omega (arith, length-order_by before xs, length-insert_row before x (order_by before xs))

module _ {A : Type 0} (P : A → Type 0) (before : A → A → Bool) where
  All-insert_row : (a : A) (xs : List A) → All P (insert_row before a xs) ↔ (P a × All P xs)
  unfolding insert_row
  All-insert_row a [] = (λ h. h, λ h. h)
  All-insert_row a (x ∷ xs) = elim (Bool-cases (before x a)) [
    | inl y ↦ rw y (
      (λ (px, h). let (pa, hs) = (All-insert_row a xs).0 h in (pa, (px, hs))),
      (λ (pa, (px, hs)). (px, (All-insert_row a xs).1 (pa, hs))),
    )
    | inr n ↦ rw n ((λ h. h), (λ h. h))
  ]

  -- sorting keeps what all rows have
  pub All-order_by : (xs : List A) → All P (order_by before xs) ↔ All P xs
  unfolding order_by
  All-order_by [] = (λ h. h, λ h. h)
  All-order_by (x ∷ xs) = (
    λ h. let (px, hs) = (All-insert_row x (order_by before xs)).0 h in (px, (All-order_by xs).0 hs),
    λ (px, hs). (All-insert_row x (order_by before xs)).1 (px, (All-order_by xs).1 hs),
  )
