-- ===== src/Prelude/Results.antt =====
-- A pair `(value, error)` of Go as one result, and the chain `if err != nil { return err }`.
use mathlib.Core.Path.{◌≡◌, refl}

pub data Result {ℓ} (E A : Type ℓ) : Type ℓ where
  ok : A → Result E A
  err : E → Result E A

-- the caller's own errors pass; `>>` is for a call whose value is dropped
module _ {ℓ} {E A B : Type ℓ} where
  infixl 5 ◌>>=◌ ◌>>◌
  abbrev pub ◌>>=◌ : Result E A → (A → Result E B) → Result E B
  err e >>= next = err e
  ok a >>= next = next a

  abbrev pub ◌>>◌ : Result E A → Result E B → Result E B
  r >> after = r >>= λ _. after

  -- what a chain that succeeds went through
  pub >>=-eq-ok :
      (r : Result E A) (next : A → Result E B) {b : B}
      → (r >>= next) ≡ ok b
      → (a : A) × (r ≡ ok a) × (next a ≡ ok b)
  >>=-eq-ok (err e) next success = cc
  >>=-eq-ok (ok a) next success = (a, refl, success)

pub ok-ne-err {ℓ} : {E A : Type ℓ} (e : E) (a : A) → ok a ≡ err e → ⊥
ok-ne-err e a h = cc

pub err-ne-ok {ℓ} : {E A : Type ℓ} (e : E) (a : A) → err e ≡ ok a → ⊥
err-ne-ok e a h = cc

pub ok-injective {ℓ} : {E A : Type ℓ} {a b : A} → ◌≡◌ {A = Result E A} (ok a) (ok b) → a ≡ b
ok-injective h = cc
