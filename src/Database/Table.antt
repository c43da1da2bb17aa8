-- ===== src/Database/Table.antt =====
-- SQL statements on one table, as the repositories use them: rows in insertion order.
use honeygen.Prelude.{
  ℕ, ◌+◌, ◌≤◌, ◌≡◌, refl, ◌↔◌, inl, inr, Bool, true, false, ◌&&◌, Option, none, some, List, [], ◌∷◌,
  ◌++◌, arith, if◌then◌else◌, Bool-cases, All,
}
use honeygen.Text.{Text, text_eq}
use honeygen.Text.Equality.{text_eq_iff}

module _ {A : Type 0} where
  -- the first row of `SELECT … WHERE p`
  unfoldable pub find : (A → Bool) → List A → Option A
  find p [] = none
  find p (r ∷ rows) = if p r then some r else find p rows

  -- the rows of `SELECT … WHERE p`
  unfoldable pub select : (A → Bool) → List A → List A
  select p [] = []
  select p (r ∷ rows) = let rest = select p rows in if p r then r ∷ rest else rest

  -- `UPDATE … SET f WHERE p`
  unfoldable pub update : (A → Bool) → (A → A) → List A → List A
  update p f [] = []
  update p f (r ∷ rows) = (if p r then f r else r) ∷ update p f rows

  -- `DELETE … WHERE p`
  unfoldable pub delete : (A → Bool) → List A → List A
  delete p [] = []
  delete p (r ∷ rows) = let rest = delete p rows in if p r then rest else r ∷ rest

  -- the number of rows that a statement touches, `RowsAffected`
  unfoldable pub matching : (A → Bool) → List A → ℕ
  matching p [] = 0
  matching p (r ∷ rows) = (if p r then 1 else 0) + matching p rows

  -- `ORDER BY`: rows that tie keep their order
  unfoldable pub insert_row : (A → A → Bool) → A → List A → List A
  insert_row before a [] = a ∷ []
  insert_row before a (b ∷ bs) =
      let rest = insert_row before a bs in if before b a then b ∷ rest else a ∷ b ∷ bs

  unfoldable pub order_by : (A → A → Bool) → List A → List A
  unfolding insert_row
  order_by before [] = []
  order_by before (a ∷ rows) = insert_row before a (order_by before rows)

  pub matching-zero : (p : A → Bool) (rows : List A) → (find p rows ≡ none) ↔ (matching p rows ≡ 0)
  unfolding find matching
  matching-zero p [] = ground arith
  matching-zero p (r ∷ rows) = ground (arith, matching-zero p rows)

  -- an update that matches nothing changes nothing
  pub update_none :
      (p : A → Bool) (f : A → A) (rows : List A) → matching p rows ≡ 0 → update p f rows ≡ rows
  unfolding update matching
  update_none p f [] h = refl
  update_none p f (r ∷ rows) h = ground (arith, update_none p f rows)

  pub delete_none : (p : A → Bool) (rows : List A) → matching p rows ≡ 0 → delete p rows ≡ rows
  unfolding delete matching
  delete_none p [] h = refl
  delete_none p (r ∷ rows) h = ground (arith, delete_none p rows)

  pub find-append :
      (p : A → Bool) (rows more : List A)
      → find p (rows ++ more) ≡ elim (find p rows) [ none ↦ find p more | some r ↦ some r ]
  unfolding find
  find-append p [] more = refl
  find-append p (r ∷ rows) more = ground (arith, find-append p rows more)

  matching_part :
      (p g : A → Bool) (rows : List A) → matching (λ r. p r && g r) rows ≤ matching p rows
  unfolding matching
  matching_part p g [] = omega arith
  matching_part p g (r ∷ rows) = ground (arith, matching_part p g rows)

  -- where one row at most passes `p`, a further condition is that of the row that is found
  pub matching_found :
      (p g : A → Bool) (rows : List A) (r : A)
      → find p rows ≡ some r
      → matching p rows ≤ 1
      → matching (λ x. p x && g x) rows ≡ (if g r then 1 else 0)
  unfolding find matching
  matching_found p g [] r h one = cc
  matching_found p g (x ∷ rows) r h one =
      ground (arith, matching_part p g rows, matching_found p g rows r)

  pub matching-append :
      (p : A → Bool) (rows more : List A)
      → matching p (rows ++ more) ≡ matching p rows + matching p more
  unfolding matching
  matching-append p [] more = omega arith
  matching-append p (r ∷ rows) more = omega (arith, matching-append p rows more)

  pub matching-delete-le :
      (p q : A → Bool) (rows : List A) → matching p (delete q rows) ≤ matching p rows
  unfolding matching delete
  matching-delete-le p q [] = omega arith
  matching-delete-le p q (r ∷ rows) = ground (arith, matching-delete-le p q rows)

  -- an update that the test does not see changes no count
  pub matching-update :
      (p q : A → Bool) (f : A → A) (rows : List A)
      → ((r : A) → p (f r) ≡ p r)
      → matching p (update q f rows) ≡ matching p rows
  unfolding matching update
  matching-update p q f [] keeps = refl
  matching-update p q f (r ∷ rows) keeps = ground (arith, keeps r, matching-update p q f rows keeps)

  pub found_alone : (p : A → Bool) (n r : A) → find p (n ∷ []) ≡ some r → n ≡ r
  unfolding find
  found_alone p n r h = ground arith

  -- a found row passes the test
  pub find_passes : (p : A → Bool) (rows : List A) (r : A) → find p rows ≡ some r → p r ≡ true
  unfolding find
  find_passes p [] r h = cc
  find_passes p (x ∷ rows) r h = ground (arith, find_passes p rows r)

-- Rows with a key, as `WHERE id = ?` reads them.
module _ {A : Type 0} (key : A → Text) where
  abbrev pub has_key : Text → A → Bool
  has_key k r = text_eq (key r) k

  pub find-update :
      (k j : Text) (g : A → Bool) (f : A → A) (rows : List A)
      → ((r : A) → key (f r) ≡ key r)
      → find (has_key j) (update (λ r. has_key k r && g r) f rows) ≡ elim (find (has_key j) rows) [
        | none ↦ none
        | some r ↦ some (if text_eq k j && g r then f r else r)
      ]
  unfolding find update
  find-update k j g f [] keeps = refl
  find-update k j g f (r ∷ rows) keeps = ground (
    arith,
    keeps r,
    text_eq_iff (key r) j,
    text_eq_iff (key r) k,
    text_eq_iff k j,
    find-update k j g f rows keeps,
  )

  pub find-delete :
      (k j : Text) (rows : List A)
      → find (has_key j) (delete (has_key k) rows)
        ≡ (if text_eq k j then none else find (has_key j) rows)
  unfolding find delete
  find-delete k j [] = ground arith
  find-delete k j (r ∷ rows) =
      ground
        (arith, text_eq_iff (key r) j, text_eq_iff (key r) k, text_eq_iff k j, find-delete k j rows)

module _ {ℓ} {A : Type 0} (P Q : A → Type ℓ) where
  -- what holds of the rows that an update writes and leaves
  pub All-update :
      (p : A → Bool) (f : A → A) (rows : List A)
      → ((r : A) → P r → Q (if p r then f r else r))
      → All P rows
      → All Q (update p f rows)
  unfolding update
  All-update p f [] step h = tt
  All-update p f (r ∷ rows) step (hr, h) = (step r hr, All-update p f rows step h)

  -- what holds of the rows that a deletion leaves
  pub All-delete :
      (q : A → Bool) (rows : List A)
      → ((r : A) → P r → q r ≡ false → Q r)
      → All P rows
      → All Q (delete q rows)
  unfolding delete
  All-delete q [] step h = tt
  All-delete q (r ∷ rows) step (hr, h) = elim (Bool-cases (q r)) [
    | inl gone ↦ rw gone (All-delete q rows step h)
    | inr kept ↦ rw kept (step r hr kept, All-delete q rows step h)
  ]

module _ {A : Type 0} where
  -- the rows that a deletion takes, and those that it leaves
  pub matching-delete :
      (p q : A → Bool) (rows : List A)
      → matching p (delete q rows) + matching (λ r. p r && q r) rows ≡ matching p rows
  unfolding matching delete
  matching-delete p q [] = omega arith
  matching-delete p q (r ∷ rows) = ground (arith, matching-delete p q rows)

  -- tests that agree on every row count alike
  pub matching_congr :
      (p q : A → Bool) (rows : List A) → ((r : A) → p r ≡ q r) → matching p rows ≡ matching q rows
  unfolding matching
  matching_congr p q [] e = refl
  matching_congr p q (r ∷ rows) e = ground (arith, e r, matching_congr p q rows e)

  pub matching-false :
      (p : A → Bool) (rows : List A) → ((r : A) → p r ≡ false) → matching p rows ≡ 0
  unfolding matching
  matching-false p [] e = refl
  matching-false p (r ∷ rows) e = ground (arith, e r, matching-false p rows e)

  -- where no row passes a test, every row fails it
  pub All-unmatched :
      (p : A → Bool) (rows : List A) → matching p rows ≡ 0 → All (λ r. p r ≡ false) rows
  unfolding matching
  All-unmatched p [] h = tt
  All-unmatched p (r ∷ rows) h = (ground arith, All-unmatched p rows (ground arith))

module _ {A : Type 0} (key : A → Text) where
  -- deleting one key leaves the rows of the others
  pub matching-delete_ne :
      (k j : Text) (rows : List A)
      → text_eq k j ≡ false
      → matching (has_key key k) (delete (has_key key j) rows) ≡ matching (has_key key k) rows
  matching-delete_ne k j rows ne =
      let z =
        matching-false (λ r. has_key key k r && has_key key j r) rows
          (λ r. ground (arith, text_eq_iff (key r) k, text_eq_iff (key r) j, text_eq_iff k j)) in
      omega (arith, z, matching-delete (has_key key k) (has_key key j) rows)
