-- ===== src/WorldModels.antt =====
-- worldmodels/types.go: the document of a world model as Go values, and its decoding by encoding/json.
pub mod Payload
pub mod Checks
pub mod Accepted
pub mod Decoding
pub mod Rows
pub mod Catalog
pub mod Stored
pub mod Seeding
use honeygen.Prelude.{ℤ, pos, Option, some, none, List, []}
use honeygen.Text.{Text, codes}
use honeygen.Json.{
  Json, null, object, members, and_then, Codec, read_text, read_int, read_list, read_field,
}

pub record Organization : Type 0 where
  pub name : Text
  pub description : Text
  pub industry : Text
  pub size : Text
  pub region : Text
  pub domain_theme : Text

pub record Branding : Type 0 where
  pub tone : Text
  pub colors : List Text

pub record Employee : Type 0 where
  pub name : Text
  pub role : Text
  pub department : Text

pub record GenerationSettings : Type 0 where
  pub file_count_target : ℤ
  pub file_count_variance : ℤ

pub record WorldModel : Type 0 where
  pub organization : Organization
  pub branding : Branding
  pub departments : List Text
  pub employees : List Employee
  pub projects : List Text
  pub document_themes : List Text
  pub generation_settings : GenerationSettings

-- the zero values
abbrev pub no_organization : Organization
no_organization = record {
  name = [];
  description = [];
  industry = [];
  size = [];
  region = [];
  domain_theme = [];
}

abbrev pub no_branding : Branding
no_branding = record { tone = []; colors = [] }

abbrev pub no_employee : Employee
no_employee = record { name = []; role = []; department = [] }

abbrev pub no_settings : GenerationSettings
no_settings = record { file_count_target = pos 0; file_count_variance = pos 0 }

abbrev pub no_world_model : WorldModel
no_world_model = record {
  organization = no_organization;
  branding = no_branding;
  departments = [];
  employees = [];
  projects = [];
  document_themes = [];
  generation_settings = no_settings;
}

module _ (c : Codec) where
  abbrev pub text_field : Text → List (Text × Json) → Text → Option Text
  text_field name ms old = read_field c read_text name ms old

  -- `json.Unmarshal` into each of the types, on a value that holds `old`
  unfoldable pub read_organization : Json → Organization → Option Organization
  read_organization null old = some old
  read_organization (object o) old =
      let ms = members o in
      and_then (text_field (codes "name") ms old.name) (λ name.
        and_then (text_field (codes "description") ms old.description) (λ description.
          and_then (text_field (codes "industry") ms old.industry) (λ industry.
            and_then (text_field (codes "size") ms old.size) (λ size.
              and_then (text_field (codes "region") ms old.region) (λ region.
                and_then (text_field (codes "domain_theme") ms old.domain_theme) (λ domain_theme.
                  some (record {
                    name = name;
                    description = description;
                    industry = industry;
                    size = size;
                    region = region;
                    domain_theme = domain_theme;
                  })))))))
  read_organization _ old = none

  unfoldable pub read_texts : Json → List Text → Option (List Text)
  read_texts = read_list read_text []

  unfoldable pub read_branding : Json → Branding → Option Branding
  unfolding read_texts
  read_branding null old = some old
  read_branding (object o) old =
      let ms = members o in
      and_then (text_field (codes "tone") ms old.tone) (λ tone.
        and_then (read_field c read_texts (codes "colors") ms old.colors)
          (λ colors. some (record { tone = tone; colors = colors })))
  read_branding _ old = none

  unfoldable pub read_employee : Json → Employee → Option Employee
  read_employee null old = some old
  read_employee (object o) old =
      let ms = members o in
      and_then (text_field (codes "name") ms old.name) (λ name.
        and_then (text_field (codes "role") ms old.role) (λ role.
          and_then (text_field (codes "department") ms old.department)
            (λ department. some (record { name = name; role = role; department = department }))))
  read_employee _ old = none

  unfoldable pub read_employees : Json → List Employee → Option (List Employee)
  read_employees = read_list read_employee no_employee

  unfoldable pub read_settings : Json → GenerationSettings → Option GenerationSettings
  read_settings null old = some old
  read_settings (object o) old =
      let ms = members o in
      and_then (read_field c read_int (codes "file_count_target") ms old.file_count_target)
        (λ target.
          and_then (read_field c read_int (codes "file_count_variance") ms old.file_count_variance)
            (λ variance.
              some (record { file_count_target = target; file_count_variance = variance })))
  read_settings _ old = none

  unfoldable pub read_world_model : Json → WorldModel → Option WorldModel
  read_world_model null old = some old
  read_world_model (object o) old =
      let ms = members o in
      and_then (read_field c read_organization (codes "organization") ms old.organization)
        (λ organization.
          and_then (read_field c read_branding (codes "branding") ms old.branding) (λ branding.
            and_then (read_field c read_texts (codes "departments") ms old.departments)
              (λ departments.
                and_then (read_field c read_employees (codes "employees") ms old.employees)
                  (λ employees.
                    and_then (read_field c read_texts (codes "projects") ms old.projects)
                      (λ projects.
                        and_then
                          (read_field c read_texts (codes "document_themes") ms old.document_themes)
                          (λ document_themes.
                            and_then
                              (read_field c read_settings (codes "generation_settings") ms
                                old.generation_settings)
                              (λ settings. some (record {
                                organization = organization;
                                branding = branding;
                                departments = departments;
                                employees = employees;
                                projects = projects;
                                document_themes = document_themes;
                                generation_settings = settings;
                              }))))))))
  read_world_model _ old = none
