-- ===== src/Json.antt =====
-- The package encoding/json as the backend uses it: documents as trees, the decoding of an object into
-- a map of raw values, and of values into the fields of a struct.
pub mod Fields
use honeygen.Prelude.{
  ℤ, pos, negsuc, ℕ, zero, suc, ◌+◌, ◌-◌, ◌*◌, Bool, true, false, ◌&&◌, ◌||◌, Option, none, some,
  List, [], ◌∷◌, ◌==◌, leb, ltb, if◌then◌else◌,
}
use honeygen.Text.{Text, text_eq}
use honeygen.Database.Table.{find, order_by}

mutual
  pub data Json : Type 0 where
    null : Json
    boolean : Bool → Json
    number : Text → Json
    string : Text → Json
    array : Items → Json
    object : Members → Json

  pub data Items : Type 0 where
    no_items : Items
    item : Json → Items → Items

  pub data Members : Type 0 where
    no_members : Members
    member : Text → Json → Members → Members

-- The reader and the printer of documents, and the folding of a key that has no exact match among the
-- fields of a struct. A number keeps its literal.
pub record Codec : Type 0 where
  pub parse : Text → Option Json
  pub print : Json → Text
  pub fold_name : Text → Text

abbrev pub items : Items → List Json
items no_items = []
items (item j rest) = j ∷ items rest

abbrev pub members : Members → List (Text × Json)
members no_members = []
members (member k j rest) = (k, j) ∷ members rest

abbrev pub to_items : List Json → Items
to_items [] = no_items
to_items (j ∷ js) = item j (to_items js)

abbrev pub to_members : List (Text × Json) → Members
to_members [] = no_members
to_members ((k, j) ∷ ms) = member k j (to_members ms)

unfoldable pub is_null : Json → Bool
is_null null = true
is_null _ = false

-- the next step, unless the last one failed
unfoldable pub and_then : {A B : Type 0} → Option A → (A → Option B) → Option B
and_then none f = none
and_then (some a) f = f a

-- A value of type `map[string]json.RawMessage`: `none` is the nil map, and a key stands once.
abbrev pub RawMap : Type 0
RawMap = Option (List (Text × Json))

abbrev pub key_is : Text → Text × Json → Bool
key_is k (k', j) = text_eq k' k

-- `m[k] = a`
unfoldable pub set_key : {A : Type 0} → Text → A → List (Text × A) → List (Text × A)
set_key k a [] = (k, a) ∷ []
set_key k a ((k', b) ∷ ms) =
    let rest = set_key k a ms in if text_eq k' k then (k, a) ∷ ms else (k', b) ∷ rest

-- the members of an object enter a map one by one, so that the last of a key stays
unfoldable pub enter : List (Text × Json) → List (Text × Json) → List (Text × Json)
unfolding set_key
enter m [] = m
enter m ((k, j) ∷ ms) = enter (set_key k j m) ms

-- `json.Unmarshal(data, &raw)` for a map of raw values
unfoldable pub raw_map : Json → Option RawMap
unfolding enter
raw_map null = some none
raw_map (object ms) = some (some (enter [] (members ms)))
raw_map _ = none

-- `value, ok := raw[k]`
unfoldable second : Option (Text × Json) → Option Json
second none = none
second (some (k, j)) = some j

unfoldable pub lookup : Text → RawMap → Option Json
unfolding find second
lookup k none = none
lookup k (some ms) = second (find (key_is k) ms)

-- the order of `<` on strings
unfoldable pub text_lt : Text → Text → Bool
text_lt s [] = false
text_lt [] (b ∷ t) = true
text_lt (a ∷ s) (b ∷ t) = ltb a b || a == b && text_lt s t

abbrev key_before : Text × Json → Text × Json → Bool
key_before (k, j) (k', j') = text_lt k k'

-- what `json.Marshal` prints of a map: its keys are sorted
unfoldable pub map_json : RawMap → Json
unfolding order_by text_lt
map_json none = null
map_json (some ms) = object (to_members (order_by key_before ms))

-- Decoding into a Go value that is there already: null leaves it as it is, and a value of another kind
-- is an error, for which the whole call fails.
unfoldable pub read_text : Json → Text → Option Text
read_text null old = some old
read_text (string s) old = some s
read_text _ old = none

digits : ℕ → Text → Option ℕ
digits n [] = some n
digits n (c ∷ s) =
    let rest = digits (n * 10 + (c - b'0')) s in if leb b'0' c && leb c b'9' then rest else none

-- 2 ^ 63
abbrev pub int_limit : ℕ
int_limit = 9223372036854775808

positive : Option ℕ → Option ℤ
positive none = none
positive (some n) = if ltb n int_limit then some (pos n) else none

negative : Option ℕ → Option ℤ
negative none = none
negative (some zero) = some (pos 0)
negative (some (suc n)) = if ltb n int_limit then some (negsuc n) else none

-- `strconv.ParseInt(literal, 10, 64)` on the literal of a number
unfoldable pub parse_int : Text → Option ℤ
unfolding digits positive negative
parse_int [] = none
parse_int (c ∷ s) = if c == b'-' then negative (digits 0 s) else positive (digits 0 (c ∷ s))

unfoldable pub read_int : Json → ℤ → Option ℤ
unfolding parse_int
read_int (number literal) old = parse_int literal
read_int null old = some old
read_int _ old = none

module _ {A : Type 0} (read : Json → A → Option A) (zero_value : A) where
  -- the elements are read into those that are there, then into new ones
  read_each : List Json → List A → Option (List A)
  read_each [] old = some []
  read_each (j ∷ js) [] =
      let rest = read_each js [] in
      and_then (read j zero_value) (λ a. and_then rest (λ tail. some (a ∷ tail)))
  read_each (j ∷ js) (o ∷ old) =
      let rest = read_each js old in
      and_then (read j o) (λ a. and_then rest (λ tail. some (a ∷ tail)))

  -- into a slice
  unfoldable pub read_list : Json → List A → Option (List A)
  unfolding read_each
  read_list null old = some []
  read_list (array js) old = read_each (items js) old
  read_list _ old = none

module _ (c : Codec) {A : Type 0} (read : Json → A → Option A) (name : Text) where
  -- the members that go to one field of a struct, in their order
  unfoldable pub read_field : List (Text × Json) → A → Option A
  read_field [] old = some old
  read_field ((k, j) ∷ ms) old =
      if text_eq (c.fold_name k) (c.fold_name name)
      then and_then (read j old) (read_field ms)
      else read_field ms old
