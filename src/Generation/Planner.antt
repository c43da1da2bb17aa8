-- ===== src/Generation/Planner.antt =====
-- generation/planner.go: the manifest of a world model. The packages math/rand, sort (where its order is
-- not stable) and unicode are a parameter.
pub mod Counts
pub mod Slugs
pub mod Paths
use honeygen.Prelude.{
  ℤ, pos, negsuc, ℕ, zero, suc, ◌+◌, ◌-◌, ◌*◌, ◌%◌, ◌<◌, ◌≡◌, Bool, ◌||◌, List, [], ◌∷◌, ◌++◌, map,
  leb, ◌==◌, if◌then◌else◌, Result, ok, err, ◌>>=◌, length, take,
}
use honeygen.Text.{Text, codes, text_eq, trim_space, is_space, join}
use honeygen.Json.{text_lt, int_limit}
use honeygen.Database.Table.{order_by, matching}
use honeygen.WorldModels.{WorldModel, Employee}
use honeygen.Generation.Worker.{ManifestEntry}
use honeygen.Generation.Templates.{Template, user_doc_templates, style_hints, fixed_entries}

-- `seeded` is `rand.New(rand.NewSource(seedFromString(id)))`. A drawing returns the state that the
-- source has behind it.
pub record Packages : Type 1 where
  pub Source : Type 0
  pub seeded : Text → Source
  pub intn : ℕ → Source → ℕ × Source
  pub shuffle : {A : Type 0} → List A → Source → List A × Source
  pub sort_slice : {A : Type 0} → (A → A → Bool) → List A → List A
  pub to_lower : Text → Text

-- what their documentation says: a drawing is below its bound, and a shuffled or sorted slice holds
-- the same elements
pub record IsDocumented (k : Packages) : Type 1 where
  pub intn-lt : (n : ℕ) (s : k.Source) → 0 < n → (k.intn n s).0 < n
  pub shuffle-matching :
      {A : Type 0} (p : A → Bool) (xs : List A) (s : k.Source)
      → matching p (k.shuffle xs s).0 ≡ matching p xs
  pub sort_slice-matching :
      {A : Type 0} (p : A → Bool) (before : A → A → Bool) (xs : List A)
      → matching p (k.sort_slice before xs) ≡ matching p xs

-- the `strings.NewReplacer` of `slugify`: each pair is about one character
unfoldable pub slug_char : ℕ → Text
slug_char c =
    if c == b'&'
    then codes " and "
    else if c == b'/' || c == 92 || c == b'_' || c == b'.' || c == b','
    then b' ' ∷ []
    else if c == 39
    then []
    else c ∷ []

unfoldable pub replace_each : Text → Text
unfolding slug_char
replace_each [] = []
replace_each (c ∷ s) = slug_char c ++ replace_each s

-- a field that ends
abbrev with_field : Text → List Text → List Text
with_field [] fields = fields
with_field (c ∷ f) fields = (c ∷ f) ∷ fields

-- the field that the text starts with, and the fields behind it
field_loop : Text → Text × List Text
field_loop [] = ([], [])
field_loop (c ∷ s) =
    let (f, fields) = field_loop s in
    if is_space c then ([], with_field f fields) else (c ∷ f, fields)

-- `strings.Fields`
unfoldable pub fields_of : Text → List Text
unfolding field_loop
fields_of s = let (f, fields) = field_loop s in with_field f fields

unfoldable pub slugify : (Text → Text) → Text → Text
unfolding replace_each fields_of
slugify to_lower value = join b'-' (fields_of (replace_each (to_lower (trim_space value))))

pub data PlanError : Type 0 where
  world_model_id_required model_incomplete intn_panics index_panics : PlanError

-- what `settings.FileCountTarget` and `settings.FileCountVariance` become
unfoldable pub count_target : ℤ → ℕ
count_target (pos zero) = 5
count_target (pos (suc n)) = suc n
count_target (negsuc n) = 5

unfoldable pub count_variance : ℤ → ℕ
count_variance (pos n) = n
count_variance (negsuc n) = 0

-- `fileCount` with the number drawn, at least 1; a sum beyond an int64 is negative
unfoldable pub file_count : ℕ → ℕ → ℕ → ℕ
file_count target variance drawn =
    let total = target + drawn - variance in if leb int_limit total || total == 0 then 1 else total

-- `xs[n]`
unfoldable pub element_at : {A : Type 0} → List A → ℕ → Result PlanError A
element_at [] n = err index_panics
element_at (x ∷ xs) zero = ok x
element_at (x ∷ xs) (suc n) = element_at xs n

module _ (k : Packages) where
  -- `rng.Intn(variance * 2 + 1)`, where the bound is negative beyond an int64
  unfoldable pub draw_count : ℕ → ℕ → k.Source → Result PlanError (ℕ × k.Source)
  unfolding file_count
  draw_count target zero source = ok (file_count target 0 0, source)
  draw_count target (suc v) source =
      if leb int_limit (suc v * 2 + 1)
      then err intn_panics
      else let (drawn, source') = k.intn (suc v * 2 + 1) source in
        ok (file_count target (suc v) drawn, source')

  abbrev slug : Text → Text
  slug = slugify k.to_lower

  unfoldable pub department_entry : Text → ManifestEntry
  department_entry department = record {
    path = codes "shared/" ++ slug department ++ codes "/team-memo.md";
    category = codes "internal-memo";
    title = department ++ codes " Team Memo";
    rendered_type = codes "markdown";
    source_type = codes "provider";
    prompt_hint = codes "Create a short internal team memo with operational updates.";
    tags = (codes "department:" ++ slug department) ∷ [];
  }

  unfoldable pub project_entry : Employee → Text → ManifestEntry
  project_entry e project = record {
    path =
        codes "users/"
        ++ (slug e.name ++ (codes "/Projects/" ++ (slug project ++ codes "-summary.md")));
    category = codes "project-summary";
    title = project ++ codes " Summary";
    rendered_type = codes "markdown";
    source_type = codes "provider";
    prompt_hint = codes "Create a project summary with objectives, current status, and next steps.";
    tags = (codes "employee:" ++ slug e.name) ∷ (codes "project:" ++ slug project) ∷ [];
  }

  unfoldable pub template_entry : Employee → Text → Template → ManifestEntry
  template_entry e style t = record {
    path =
        codes "users/" ++ (slug e.name ++ (codes "/" ++ (t.folder ++ (codes "/" ++ t.filename))));
    category = t.category;
    title = e.name ++ codes " " ++ t.title_suffix;
    rendered_type = t.rendered_type;
    source_type = codes "provider";
    prompt_hint = t.prompt_hint ++ codes " " ++ style;
    tags = (codes "employee:" ++ slug e.name) ∷ (codes "department:" ++ slug e.department) ∷ [];
  }

  -- behind the choice of the style: the shuffled templates stand in the place of their indices
  abbrev documents_of : Employee → ℕ → Text → k.Source → List ManifestEntry × k.Source
  documents_of e count style source =
      let (pool, source') = k.shuffle user_doc_templates source in
      (map (template_entry e style) (take count pool), source')

  -- the documents of one employee behind the project summary
  unfoldable pub employee_documents :
      ℕ → ℕ → Employee → k.Source → Result PlanError (List ManifestEntry × k.Source)
  unfolding draw_count element_at user_doc_templates style_hints template_entry
  employee_documents target variance e source = do
    (count, source₁) ← draw_count target variance source
    let (n, source₂) = k.intn (length style_hints) source₁
    style ← element_at style_hints n
    ok (documents_of e count style source₂)

  unfoldable pub employee_entries :
      ℕ → ℕ → List Text → ℕ → Employee → k.Source → Result PlanError (List ManifestEntry × k.Source)
  unfolding employee_documents project_entry
  employee_entries target variance projects index e source = do
    project ← element_at projects (index % length projects)
    (documents, source') ← employee_documents target variance e source
    ok (project_entry e project ∷ documents, source')

  -- `for index, employee := range employees`
  unfoldable pub all_employees :
      ℕ → ℕ → List Text → ℕ → List Employee → k.Source → Result PlanError (List ManifestEntry)
  unfolding employee_entries
  all_employees target variance projects index [] source = ok []
  all_employees target variance projects index (e ∷ es) source = do
    (entries, source') ← employee_entries target variance projects index e source
    rest ← all_employees target variance projects (suc index) es source'
    ok (entries ++ rest)

  abbrev pub by_name : Employee → Employee → Bool
  by_name a b = text_lt (k.to_lower a.name) (k.to_lower b.name)

  -- one of the three lists is empty
  abbrev pub is_incomplete : WorldModel → Bool
  is_incomplete m = length m.departments == 0 || length m.employees == 0 || length m.projects == 0

  -- `Planner.Plan`
  unfoldable pub plan : Text → WorldModel → Result PlanError (List ManifestEntry)
  unfolding fixed_entries department_entry all_employees count_target count_variance
  plan world_model_id m =
      if text_eq (trim_space world_model_id) []
      then err world_model_id_required
      else if is_incomplete m
      then err model_incomplete
      else do
        users ←
            all_employees (count_target m.generation_settings.file_count_target)
              (count_variance m.generation_settings.file_count_variance)
              (order_by text_lt m.projects) 0 (k.sort_slice by_name m.employees)
              (k.seeded world_model_id)
        ok (
            fixed_entries m.organization.name
            ++ map department_entry (order_by text_lt m.departments)
            ++ users)
