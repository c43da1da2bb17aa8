-- ===== src/WorldModels/Checks.antt =====
-- worldmodels/service.go: the single checks of validatePayload, and chains of them.
use honeygen.Prelude.{
  ◌≡◌, ◌≢◌, ◌↔◌, refl, false, Option, some, none, List, [], ◌∷◌, Result, ok, err, ◌>>=◌, ◌>>◌, All,
  >>=-eq-ok, arith,
}
use honeygen.Text.{Text, trim_space}
use honeygen.Text.Equality.{text_eq_iff}
use honeygen.Json.{Json, RawMap, lookup, is_null}
use honeygen.WorldModels.{Employee}
use honeygen.WorldModels.Payload.{
  WorldModelError, Checked, or_invalid, present, non_blank, each, non_empty,
}

-- the map holds a value other than null at the key, which reads as `a`
pub record IsField {A : Type 0} (read : Json → Option A) (key : Text) (raw : RawMap) (a : A)
    : Type 0 where
  pub json : Json
  pub found : lookup key raw ≡ some json
  pub not_null : is_null json ≡ false
  pub reads : read json ≡ some a

abbrev pub NonBlank : Text → Type 0
NonBlank t = trim_space t ≢ []

abbrev pub EmployeeNonBlank : Employee → Type 0
EmployeeNonBlank e = NonBlank e.name × (NonBlank e.role × NonBlank e.department)

pub non_blank_iff : (message value : Text) → (non_blank message value ≡ ok tt) ↔ NonBlank value
unfolding non_blank
non_blank_iff message value = ground (arith, text_eq_iff (trim_space value) [])

pub or_invalid_iff :
    {A : Type 0} (message : Text) (o : Option A) (a : A)
    → (or_invalid message o ≡ ok a) ↔ (o ≡ some a)
unfolding or_invalid
or_invalid_iff message none a = ground arith
or_invalid_iff message (some b) a = ground arith

present_iff :
    (key : Text) (o : Option Json) (j : Json)
    → (present key o ≡ ok j) ↔ ((o ≡ some j) × (is_null j ≡ false))
unfolding present
present_iff key none j = ground arith
present_iff key (some i) j = ground arith

pub non_empty_iff :
    {A : Type 0} (message : Text) (xs : List A) → (non_empty message xs ≡ ok tt) ↔ (xs ≢ [])
unfolding non_empty
non_empty_iff message [] = ground arith
non_empty_iff message (a ∷ xs) = ground arith

pub each_iff :
    {A : Type 0} (check : A → Checked) (Right : A → Type 0) (xs : List A)
    → ((a : A) → (check a ≡ ok tt) ↔ Right a)
    → (each check xs ≡ ok tt) ↔ All Right xs
unfolding each
each_iff check Right [] h = (λ e. tt, λ e. refl)
each_iff check Right (a ∷ xs) h = (
  λ e.
      let (u, first, rest) = >>=-eq-ok (check a) (λ _. each check xs) e in
      ((h a).0 first, (each_iff check Right xs h).0 rest),
  λ (first, rest). rw ((h a).1 first) ((each_iff check Right xs h).1 rest),
)

module _ {A B : Type 0} (read : Json → Option A) (key message : Text) (raw : RawMap)
    (next : A → Result WorldModelError B) where
  abbrev reading : Result WorldModelError B
  reading = present key (lookup key raw) >>= λ j. or_invalid message (read j) >>= next

  pub reading-eq-ok : {b : B} → reading ≡ ok b → (a : A) × IsField read key raw a × (next a ≡ ok b)
  reading-eq-ok h =
      let (j, there, more) = >>=-eq-ok (present key (lookup key raw)) _ h in
      let (a, reads, last) = >>=-eq-ok (or_invalid message (read j)) next more in
      let (found, value) = (present_iff key (lookup key raw) j).0 there in
      (
        a,
        record {
          json = j;
          found = found;
          not_null = value;
          reads = (or_invalid_iff message (read j) a).0 reads;
        },
        last,
      )

  pub reading_lem : (a : A) → IsField read key raw a → reading ≡ next a
  reading_lem a f = rw (
    (present_iff key (lookup key raw) f.json).1 (f.found, f.not_null),
    (or_invalid_iff message (read f.json) a).1 f.reads,
  )

pub checked_lem :
    {B : Type 0} (r : Checked) (next : Result WorldModelError B) (b : B)
    → ((r >> next) ≡ ok b) ↔ ((r ≡ ok tt) × (next ≡ ok b))
checked_lem (ok tt) next b = (λ h. (refl, h), λ (e, h). h)
checked_lem (err e) next b = ground arith

-- a check in front of others
pub guarded :
    {B P Q : Type 0} (r : Checked) {next : Result WorldModelError B} {b : B}
    → (r ≡ ok tt) ↔ P
    → (next ≡ ok b) ↔ Q
    → ((r >> next) ≡ ok b) ↔ (P × Q)
guarded r h k = (
  λ e. let (first, rest) = (checked_lem r _ _).0 e in (h.0 first, k.0 rest),
  λ (p, q). (checked_lem r _ _).1 (h.1 p, k.1 q),
)
