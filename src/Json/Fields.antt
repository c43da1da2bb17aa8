-- ===== src/Json/Fields.antt =====
-- What a decoded map holds at a key, and what the field of a struct reads, where one member at most
-- goes to the field.
use honeygen.Prelude.{
  ◌≤◌, ◌≡◌, refl, sym, ap, ◌∙◌, inl, inr, Bool, true, false, Option, some, none, List, [], ◌∷◌,
  arith, Bool-cases, if◌then◌else◌,
}
use honeygen.Text.{Text, text_eq}
use honeygen.Text.Equality.{text_eq_iff, text_eq_refl}
use honeygen.Database.Table.{find, matching}
use honeygen.Json.{Json, Codec, key_is, set_key, enter, lookup, second, and_then, read_field}

-- the last value of a key
abbrev or_else : {A : Type 0} → Option A → Option A → Option A
or_else (some a) b = some a
or_else none b = b

abbrev pub last_at : Text → List (Text × Json) → Option Json
last_at key [] = none
last_at key ((k, j) ∷ ms) =
    let rest = last_at key ms in or_else rest (if text_eq k key then some j else none)

find-set_key :
    (key k : Text) (j : Json) (ms : List (Text × Json))
    → second (find (key_is key) (set_key k j ms))
      ≡ (if text_eq k key then some j else second (find (key_is key) ms))
unfolding find set_key second
find-set_key key k j [] = ground arith
find-set_key key k j ((q, b) ∷ ms) = elim (Bool-cases (text_eq q k)) [
  | inl same ↦ rw same (ground (arith, text_eq_iff q k, text_eq_iff k key, text_eq_iff q key))
  | inr other ↦ rw other (
      ground (
        arith,
        find-set_key key k j ms,
        text_eq_iff q k,
        text_eq_iff k key,
        text_eq_iff q key,
        text_eq_refl k,
      ))
]

lookup-enter :
    (key : Text) (m ms : List (Text × Json))
    → second (find (key_is key) (enter m ms))
      ≡ or_else (last_at key ms) (second (find (key_is key) m))
unfolding enter
lookup-enter key m [] = refl
lookup-enter key m ((k, j) ∷ ms) =
    lookup-enter key (set_key k j m) ms
    ∙ ap (or_else (last_at key ms)) (find-set_key key k j m)
    ∙ shift (last_at key ms) (text_eq k key)
  where
    shift :
        (o : Option Json) (b : Bool)
        → or_else o (if b then some j else second (find (key_is key) m))
          ≡ or_else (or_else o (if b then some j else none)) (second (find (key_is key) m))
    shift (some x) b = refl
    shift none true = refl
    shift none false = refl

or_else-none : (key : Text) (o : Option Json) → or_else o (second (find (key_is key) [])) ≡ o
unfolding find second
or_else-none key none = refl
or_else-none key (some j) = refl

pub lookup-last :
    (key : Text) (ms : List (Text × Json)) → lookup key (some (enter [] ms)) ≡ last_at key ms
unfolding lookup
lookup-last key ms = lookup-enter key [] ms ∙ or_else-none key (last_at key ms)

-- the members that go to a field of a struct
abbrev pub goes_to : Codec → Text → Text × Json → Bool
goes_to c key (k, j) = text_eq (c.fold_name k) (c.fold_name key)

module _ (c : Codec) {A : Type 0} (read : Json → A → Option A) (key : Text) where
  read_field-none :
      (ms : List (Text × Json)) (old : A)
      → matching (goes_to c key) ms ≡ 0
      → read_field c read key ms old ≡ some old
  unfolding read_field matching
  read_field-none [] old h = refl
  read_field-none ((k, j) ∷ ms) old h = ground (arith, read_field-none ms old)

  last_at-none : (ms : List (Text × Json)) → matching (goes_to c key) ms ≡ 0 → last_at key ms ≡ none
  unfolding matching
  last_at-none [] h = refl
  last_at-none ((k, j) ∷ ms) h =
      ground (arith, last_at-none ms, text_eq_iff k key, text_eq_refl (c.fold_name key))

  field_done :
      (ms : List (Text × Json)) (o : Option A)
      → matching (goes_to c key) ms ≡ 0
      → and_then o (read_field c read key ms) ≡ o
  unfolding and_then
  field_done ms none h = refl
  field_done ms (some a) h = read_field-none ms a h

  stays_last :
      (k : Text) (i j : Json) (ms : List (Text × Json))
      → text_eq (c.fold_name k) (c.fold_name key) ≡ false
      → last_at key ((k, i) ∷ ms) ≡ some j
      → last_at key ms ≡ some j
  stays_last k i j ms stays found =
      ground (arith, text_eq_iff k key, text_eq_refl (c.fold_name key))

  read_field-last :
      (ms : List (Text × Json)) (j : Json) (old : A)
      → matching (goes_to c key) ms ≤ 1
      → last_at key ms ≡ some j
      → read_field c read key ms old ≡ read j old
  unfolding matching read_field
  read_field-last [] j old one found = cc
  read_field-last ((k, i) ∷ ms) j old one found =
      elim (Bool-cases (text_eq (c.fold_name k) (c.fold_name key))) [
        | inl goes ↦
            let others : matching (goes_to c key) ms ≡ 0 = ground arith in
            let this : i ≡ j = ground (arith, last_at-none ms) in
            rw (goes, ← this) (field_done ms (read i old) others)
        | inr stays ↦
            rw stays (read_field-last ms j old (ground arith) (stays_last k i j ms stays found))
      ]

  -- where one member at most goes to a field, the field reads the value that the map holds at its key
  pub read_field-lookup :
      (ms : List (Text × Json)) (j : Json) (old : A)
      → matching (goes_to c key) ms ≤ 1
      → lookup key (some (enter [] ms)) ≡ some j
      → read_field c read key ms old ≡ read j old
  read_field-lookup ms j old one found =
      read_field-last ms j old one (sym (lookup-last key ms) ∙ found)
