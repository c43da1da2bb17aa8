-- ===== src/WorldModels/Payload.antt =====
-- worldmodels/service.go: the validation of a document that a request brings, and its normalization.
use honeygen.Prelude.{
  Bool, Option, some, none, List, [], ◌∷◌, ◌++◌, not, false, if◌then◌else◌, Result, ok, err, ◌>>=◌,
  ◌>>◌,
}
use honeygen.Text.{Text, codes, text_eq, trim_space}
use honeygen.Json.{
  Json, array, no_items, Codec, and_then, RawMap, raw_map, lookup, is_null, set_key, map_json,
}
use honeygen.WorldModels.{
  Organization, Employee, no_organization, no_branding, read_organization, read_branding,
  read_texts, read_employees,
}

-- `ValidationError`, ErrNotFound, ErrAlreadyExists and the other errors of the package; `panics` is the
-- write to a nil map
pub data WorldModelError : Type 0 where
  invalid : Text → WorldModelError
  world_model_not_found already_exists decode_failed seed_failed world_db_failed panics :
      WorldModelError

abbrev pub Checked : Type 0
Checked = Result WorldModelError (Unit {0})

unfoldable pub or_invalid : {A : Type 0} → Text → Option A → Result WorldModelError A
or_invalid message none = err (invalid message)
or_invalid message (some a) = ok a

unfoldable pub present : Text → Option Json → Result WorldModelError Json
present key none = err (invalid (key ++ codes " is required"))
present key (some j) = if is_null j then err (invalid (key ++ codes " is required")) else ok j

-- `trimmed(value) == ""` is refused
unfoldable pub non_blank : Text → Text → Checked
non_blank message value = if text_eq (trim_space value) [] then err (invalid message) else ok tt

-- `for _, x := range xs`
unfoldable pub each : {A : Type 0} → (A → Checked) → List A → Checked
each check [] = ok tt
each check (x ∷ xs) = check x >> each check xs

unfoldable pub non_empty : {A : Type 0} → Text → List A → Checked
non_empty message [] = err (invalid message)
non_empty message (x ∷ xs) = ok tt

unfoldable pub check_employee : Employee → Checked
unfolding non_blank
check_employee e = do
  non_blank (codes "employees[].name is required") e.name
  non_blank (codes "employees[].role is required") e.role
  non_blank (codes "employees[].department is required") e.department

module _ (c : Codec) where
  unfoldable pub check_organization : RawMap → Result WorldModelError Organization
  unfolding or_invalid present non_blank
  check_organization raw = do
    data_ ← present (codes "organization") (lookup (codes "organization") raw)
    o ←
        or_invalid (codes "organization must be an object")
          (read_organization c data_ no_organization)
    non_blank (codes "organization.name is required") o.name
    non_blank (codes "organization.industry is required") o.industry
    non_blank (codes "organization.size is required") o.size
    non_blank (codes "organization.region is required") o.region
    non_blank (codes "organization.domain_theme is required") o.domain_theme
    ok o

  unfoldable pub check_branding : RawMap → Checked
  unfolding or_invalid present non_blank
  check_branding raw = do
    data_ ← present (codes "branding") (lookup (codes "branding") raw)
    b ← or_invalid (codes "branding must be an object") (read_branding c data_ no_branding)
    non_blank (codes "branding.tone is required") b.tone

  -- the three required arrays of texts
  unfoldable pub check_texts : Text → RawMap → Checked
  unfolding or_invalid present non_blank non_empty each
  check_texts key raw = do
    data_ ← present key (lookup key raw)
    texts ← or_invalid (key ++ codes " must be an array") (read_texts c data_ [])
    non_empty (key ++ codes " must not be empty") texts
    each (non_blank (key ++ codes "[] must be a non-empty string")) texts

  unfoldable pub check_employees : RawMap → Checked
  unfolding or_invalid present non_empty each check_employee
  check_employees raw = do
    data_ ← present (codes "employees") (lookup (codes "employees") raw)
    employees ← or_invalid (codes "employees must be an array") (read_employees c data_ [])
    non_empty (codes "employees must not be empty") employees
    each check_employee employees

  -- `json.Unmarshal` of the body into the map of raw values
  unfoldable pub raw_of : Text → Option RawMap
  raw_of body = and_then (c.parse body) raw_map

  unfoldable pub check_raw : RawMap → Result WorldModelError (Text × Text)
  unfolding check_organization check_branding check_texts check_employees
  check_raw raw = do
    o ← check_organization raw
    check_branding raw
    check_texts (codes "departments") raw
    check_employees raw
    check_texts (codes "projects") raw
    check_texts (codes "document_themes") raw
    ok (trim_space o.name, trim_space o.description)

  -- `validatePayload`: the name and the description of the document
  unfoldable pub validate_payload : Text → Result WorldModelError (Text × Text)
  unfolding raw_of check_raw or_invalid
  validate_payload body = do
    raw ← or_invalid (codes "request body must be a JSON object") (raw_of body)
    check_raw raw

-- a value that is there and not null
unfoldable pub has_value : Option Json → Bool
unfolding is_null
has_value none = false
has_value (some j) = not (is_null j)

-- behind the decoding of the object: `[]` enters where the key is missing or null
unfoldable pub with_array :
    Text → Text → List (Text × Json) → Option RawMap → Result WorldModelError RawMap
unfolding has_value
with_array object_key field_key ms none = err decode_failed
with_array object_key field_key ms (some none) = err panics
with_array object_key field_key ms (some (some nested)) =
    if has_value (lookup field_key (some nested))
    then ok (some ms)
    else ok
        (some (set_key object_key (map_json (some (set_key field_key (array no_items) nested))) ms))

-- `ensureNestedArrayField`
unfoldable pub ensure_nested_array_field : Text → Text → RawMap → Result WorldModelError RawMap
unfolding with_array
ensure_nested_array_field object_key field_key none = ok none
ensure_nested_array_field object_key field_key (some ms) =
    if has_value (lookup object_key (some ms))
    then with_array object_key field_key ms (and_then (lookup object_key (some ms)) raw_map)
    else ok (some ms)

-- `normalizeOptionalArrayFields`
unfoldable pub normalize_optional_array_fields : RawMap → Result WorldModelError RawMap
unfolding ensure_nested_array_field
normalize_optional_array_fields = ensure_nested_array_field (codes "branding") (codes "colors")

unfoldable pub or_decode_failed : {A : Type 0} → Option A → Result WorldModelError A
or_decode_failed none = err decode_failed
or_decode_failed (some a) = ok a

module _ (c : Codec) where
  -- `normalizedPayloadJSON`
  unfoldable pub normalized_payload_json : Text → Result WorldModelError Text
  unfolding raw_of or_decode_failed normalize_optional_array_fields
  normalized_payload_json json_blob = do
    raw ← or_decode_failed (raw_of c json_blob)
    normalized ← normalize_optional_array_fields raw
    ok (c.print (map_json normalized))
