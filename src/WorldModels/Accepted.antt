-- ===== src/WorldModels/Accepted.antt =====
-- worldmodels/service.go, validatePayload: which documents it accepts.
use mathlib.Core.Path.{subst}
use honeygen.Prelude.{
  ◌≡◌, ◌≢◌, ◌↔◌, refl, ap, ◌∙◌, Option, some, List, [], ◌++◌, Result, ok, ◌>>◌, All, >>=-eq-ok,
  ok-injective,
}
use honeygen.Text.{Text, codes, trim_space}
use honeygen.Json.{Json, Codec, RawMap}
use honeygen.WorldModels.{
  Organization, Branding, Employee, no_organization, no_branding, read_organization, read_branding,
  read_texts, read_employees,
}
use honeygen.WorldModels.Checks.{
  IsField, NonBlank, EmployeeNonBlank, non_blank_iff, or_invalid_iff, non_empty_iff, each_iff,
  reading-eq-ok, reading_lem, checked_lem, guarded,
}
use honeygen.WorldModels.Payload.{
  WorldModelError, or_invalid, non_blank, non_empty, check_organization, check_branding,
  check_texts, check_employee, check_employees, check_raw, raw_of, validate_payload,
}

-- a required array: at least one element, and each is right
pub record IsRequired {A : Type 0} (read : Json → Option (List A)) (Right : A → Type 0) (key : Text)
    (raw : RawMap) (xs : List A) : Type 0 where
  pub at_key : IsField read key raw xs
  pub not_empty : xs ≢ []
  pub right : All Right xs

-- what a document has that is accepted, as Go values
pub record IsAccepted (c : Codec) (raw : RawMap) (o : Organization) : Type 0 where
  pub organization :
      IsField (λ j. read_organization c j no_organization) (codes "organization") raw o
  pub name : NonBlank o.name
  pub industry : NonBlank o.industry
  pub size : NonBlank o.size
  pub region : NonBlank o.region
  pub domain_theme : NonBlank o.domain_theme
  pub branding :
      (b : Branding) × IsField (λ j. read_branding c j no_branding) (codes "branding") raw b
      × NonBlank b.tone
  pub departments :
      (ds : List Text) × IsRequired (λ j. read_texts c j []) NonBlank (codes "departments") raw ds
  pub employees :
      (es : List Employee) × IsRequired
        (λ j. read_employees c j [])
        EmployeeNonBlank
        (codes "employees")
        raw
        es
  pub projects :
      (ps : List Text) × IsRequired (λ j. read_texts c j []) NonBlank (codes "projects") raw ps
  pub document_themes :
      (ts : List Text) × IsRequired
        (λ j. read_texts c j [])
        NonBlank
        (codes "document_themes")
        raw
        ts

module _ (c : Codec) (raw : RawMap) where
  check_texts_iff :
      (key : Text)
      → (check_texts c key raw ≡ ok tt)
        ↔ ((ts : List Text) × IsRequired (λ j. read_texts c j []) NonBlank key raw ts)
  unfolding check_texts
  check_texts_iff key = (
    λ h.
        let (ts, field, more) =
          reading-eq-ok (λ j. read_texts c j []) key (key ++ codes " must be an array") raw _ h in
        let (some_, right) = (checked_lem (non_empty _ ts) _ tt).0 more in
        (
          ts,
          record {
            at_key = field;
            not_empty = (non_empty_iff _ ts).0 some_;
            right = (each_iff _ NonBlank ts (non_blank_iff _)).0 right;
          },
        ),
    λ (ts, r).
        reading_lem (λ j. read_texts c j []) key (key ++ codes " must be an array") raw _ ts
          r.at_key
        ∙ (checked_lem (non_empty _ ts) _ tt).1 (
          (non_empty_iff _ ts).1 r.not_empty,
          (each_iff _ NonBlank ts (non_blank_iff _)).1 r.right,
        ),
  )

  check_employee_iff : (e : Employee) → (check_employee e ≡ ok tt) ↔ EmployeeNonBlank e
  unfolding check_employee
  check_employee_iff e =
      guarded _ (non_blank_iff _ e.name)
        (guarded _ (non_blank_iff _ e.role) (non_blank_iff _ e.department))

  check_employees_iff : (check_employees c raw ≡ ok tt) ↔ (
      (es : List Employee) × IsRequired
        (λ j. read_employees c j [])
        EmployeeNonBlank
        (codes "employees")
        raw
        es)
  unfolding check_employees
  check_employees_iff = (
    λ h.
        let (es, field, more) =
          reading-eq-ok (λ j. read_employees c j []) (codes "employees")
            (codes "employees must be an array") raw _ h in
        let (some_, right) = (checked_lem (non_empty _ es) _ tt).0 more in
        (
          es,
          record {
            at_key = field;
            not_empty = (non_empty_iff _ es).0 some_;
            right = (each_iff _ EmployeeNonBlank es check_employee_iff).0 right;
          },
        ),
    λ (es, r).
        reading_lem (λ j. read_employees c j []) (codes "employees")
          (codes "employees must be an array") raw _ es r.at_key
        ∙ (checked_lem (non_empty _ es) _ tt).1 (
          (non_empty_iff _ es).1 r.not_empty,
          (each_iff _ EmployeeNonBlank es check_employee_iff).1 r.right,
        ),
  )

  check_branding_iff : (check_branding c raw ≡ ok tt) ↔ (
      (b : Branding) × IsField (λ j. read_branding c j no_branding) (codes "branding") raw b
      × NonBlank b.tone)
  unfolding check_branding
  check_branding_iff = (
    λ h.
        let (b, field, more) =
          reading-eq-ok (λ j. read_branding c j no_branding) (codes "branding")
            (codes "branding must be an object") raw _ h in
        (b, field, (non_blank_iff _ b.tone).0 more),
    λ (b, field, tone).
        reading_lem (λ j. read_branding c j no_branding) (codes "branding")
          (codes "branding must be an object") raw _ b field
        ∙ (non_blank_iff _ b.tone).1 tone,
  )

  abbrev Named : Organization → Type 0
  Named o =
      NonBlank o.name
      × (NonBlank o.industry × (NonBlank o.size × (NonBlank o.region × NonBlank o.domain_theme)))

  names_iff :
      (o : Organization) {next : Result WorldModelError Organization} {p : Organization}
      {Q : Type 0}
      → (next ≡ ok p) ↔ Q
      → ((non_blank (codes "organization.name is required") o.name
            >> (non_blank (codes "organization.industry is required") o.industry
                >> (non_blank (codes "organization.size is required") o.size
                    >> (non_blank (codes "organization.region is required") o.region
                        >> (non_blank (codes "organization.domain_theme is required") o.domain_theme
                            >> next)))))
          ≡ ok p)
        ↔ (NonBlank o.name
            × (NonBlank o.industry
                × (NonBlank o.size × (NonBlank o.region × (NonBlank o.domain_theme × Q)))))
  names_iff o k = guarded _ (non_blank_iff _ o.name) (
      guarded _ (non_blank_iff _ o.industry) (
        guarded _ (non_blank_iff _ o.size)
          (guarded _ (non_blank_iff _ o.region) (guarded _ (non_blank_iff _ o.domain_theme) k))))

  check_organization_iff :
      (p : Organization)
      → (check_organization c raw ≡ ok p) ↔ (
          IsField (λ j. read_organization c j no_organization) (codes "organization") raw p
          × Named p)
  unfolding check_organization
  check_organization_iff p = (
    λ h.
        let (o, field, more) =
          reading-eq-ok (λ j. read_organization c j no_organization) (codes "organization")
            (codes "organization must be an object") raw _ h in
        let (n, (i, (s, (r, (d, same))))) = (names_iff o (λ x. x, λ x. x)).0 more in
        let e : o ≡ p = ok-injective same in
        (
          subst (IsField (λ j. read_organization c j no_organization) (codes "organization") raw) e
              field,
          subst Named e (n, (i, (s, (r, d)))),
        ),
    λ (field, (n, (i, (s, (r, d))))).
        reading_lem (λ j. read_organization c j no_organization) (codes "organization")
          (codes "organization must be an object") raw _ p field
        ∙ (names_iff p (λ x. x, λ x. x)).1 (n, (i, (s, (r, (d, refl))))),
  )

  abbrev HasBranding : Type 0
  HasBranding =
      (b : Branding) × IsField (λ j. read_branding c j no_branding) (codes "branding") raw b
      × NonBlank b.tone

  abbrev HasTexts : Text → Type 0
  HasTexts key = (ts : List Text) × IsRequired (λ j. read_texts c j []) NonBlank key raw ts

  abbrev HasEmployees : Type 0
  HasEmployees =
      (es : List Employee) × IsRequired (λ j. read_employees c j []) EmployeeNonBlank
        (codes "employees") raw es

  arrays_iff :
      {B Q : Type 0} {next : Result WorldModelError B} {b : B}
      → (next ≡ ok b) ↔ Q
      → ((check_branding c raw
            >> (check_texts c (codes "departments") raw
                >> (check_employees c raw
                    >> (check_texts c (codes "projects") raw
                        >> (check_texts c (codes "document_themes") raw >> next)))))
          ≡ ok b)
        ↔ (HasBranding
            × (HasTexts (codes "departments")
                × (HasEmployees
                    × (HasTexts (codes "projects") × (HasTexts (codes "document_themes") × Q)))))
  arrays_iff k = guarded _ check_branding_iff (
      guarded _ (check_texts_iff (codes "departments")) (
        guarded _ check_employees_iff (
          guarded _ (check_texts_iff (codes "projects"))
            (guarded _ (check_texts_iff (codes "document_themes")) k))))

  -- the document that a request brings
  pub check_raw_iff :
      (name description : Text)
      → (check_raw c raw ≡ ok (name, description)) ↔ (
          (o : Organization) × IsAccepted c raw o
          × (trim_space o.name ≡ name)
          × (trim_space o.description ≡ description))
  unfolding check_raw
  check_raw_iff name description = (
    λ h.
        let (o, at_organization, more) = >>=-eq-ok (check_organization c raw) _ h in
        let (branding, (departments, (employees, (projects, (themes, e))))) =
          (arrays_iff (λ x. x, λ x. x)).0 more in
        let (field, (n, (i, (s, (r, d))))) = (check_organization_iff o).0 at_organization in
        (
          o,
          record {
            organization = field;
            name = n;
            industry = i;
            size = s;
            region = r;
            domain_theme = d;
            branding = branding;
            departments = departments;
            employees = employees;
            projects = projects;
            document_themes = themes;
          },
          ap (λ x. x.0) (ok-injective e),
          ap (λ x. x.1) (ok-injective e),
        ),
    λ (o, a, n, d).
        let first =
          (check_organization_iff o).1
            (a.organization, (a.name, (a.industry, (a.size, (a.region, a.domain_theme))))) in
        rw first (
          (arrays_iff (λ x. x, λ x. x)).1 (
            a.branding,
            (a.departments, (a.employees, (a.projects, (a.document_themes, rw (n, d))))),
          )),
  )

-- `validatePayload` accepts a body, with this name and description, exactly where the body is an object
-- (or null, which has no organization) in which each required part is there, is not null, decodes and is not blank; the name and the
-- description are those of the organization without outer space.
pub validate_payload_iff :
    (c : Codec) (body name description : Text)
    → (validate_payload c body ≡ ok (name, description)) ↔ (
        (raw : RawMap) × (raw_of c body ≡ some raw)
        × (o : Organization) × IsAccepted c raw o
        × (trim_space o.name ≡ name)
        × (trim_space o.description ≡ description))
unfolding validate_payload
validate_payload_iff c body name description = (
  λ h.
      let (raw, decoded, more) = >>=-eq-ok (or_invalid _ (raw_of c body)) _ h in
      let (o, a, n, d) = (check_raw_iff c raw name description).0 more in
      (raw, (or_invalid_iff _ (raw_of c body) raw).0 decoded, o, a, n, d),
  λ (raw, decoded, o, a, n, d).
      rw ((or_invalid_iff _ (raw_of c body) raw).1 decoded)
        ((check_raw_iff c raw name description).1 (o, a, n, d)),
)
