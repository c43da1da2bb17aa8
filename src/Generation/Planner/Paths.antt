-- ===== src/Generation/Planner/Paths.antt =====
-- generation/planner.go: the paths of a manifest.
use honeygen.Prelude.{
  ℕ, suc, ◌%◌, ◌≡◌, ◌≢◌, refl, ap, ◌∙◌, inl, inr, Bool, true, false, not, ◌&&◌, List, [], ◌∷◌, ◌++◌,
  map, ok, length, take, All, All-append, All-take, All-imp, arith, Bool-cases, >>=-eq-ok,
  ok-injective, err-ne-ok, all,
}
use honeygen.Text.{Text, codes, text_eq, trim_space, is_space, join, split}
use honeygen.Text.Equality.{text_eq_iff}
use honeygen.Text.Parts.{join-split}
use honeygen.Path.{slash}
use honeygen.Storage.{normalize_relative_path}
use honeygen.Storage.Normalizing.{IsPart, normalize_relative_path-parts}
use honeygen.Json.{text_lt}
use honeygen.Database.Table.{order_by, matching, All-unmatched}
use honeygen.WorldModels.{WorldModel, Employee}
use honeygen.Generation.Worker.{ManifestEntry}
use honeygen.Generation.Templates.{Template, user_doc_templates, style_hints, fixed_entries}
use honeygen.Generation.Planner.Slugs.{
  slug-IsPart, good_part, good_part-IsPart, all-All, summary-IsPart,
}
use honeygen.Generation.Planner.{
  Packages, IsDocumented, count_target, count_variance, element_at, draw_count, documents_of,
  template_entry, department_entry, project_entry, employee_documents, employee_entries,
  all_employees, by_name, is_incomplete, plan, slugify,
}

-- the store takes the path
abbrev pub Stores : Text → Type 0
Stores p = (n : Text) × (normalize_relative_path p ≡ ok n)

parts-Stores :
    (t : Text) (ts : List Text) → t ≢ [] → All IsPart (t ∷ ts) → Stores (join slash (t ∷ ts))
parts-Stores t ts ne h = (_, normalize_relative_path-parts t ts ne h)

abbrev first_nonempty : List Text → Bool
first_nonempty [] = false
first_nonempty (t ∷ ts) = not (text_eq t [])

abbrev good_path : Text → Bool
good_path p = first_nonempty (split slash p) && all good_part (split slash p)

good_path-Stores : (p : Text) → good_path p ≡ true → Stores p
good_path-Stores p h = rw (← join-split slash p) (go (split slash p) h)
  where
    go : (ts : List Text) → (first_nonempty ts && all good_part ts) ≡ true → Stores (join slash ts)
    go [] h = cc
    go (t ∷ ts) h =
        parts-Stores t ts (λ e. ground (arith, text_eq_iff t []))
          (All-imp (λ u. good_part u ≡ true) IsPart (t ∷ ts) good_part-IsPart
            (all-All good_part (t ∷ ts) (ground arith)))

fixed_entries-Stores : (name : Text) → All (λ e. Stores e.path) (fixed_entries name)
fixed_entries-Stores name =
    All-imp (λ (e : ManifestEntry). good_path e.path ≡ true) (λ e. Stores e.path)
      (fixed_entries name) (λ e. good_path-Stores e.path)
      (all-All (λ (e : ManifestEntry). good_path e.path) (fixed_entries name)
        (unfold fixed_entries text_eq is_space split in refl))

All-map :
    {A B : Type 0} (P : A → Type 0) (Q : B → Type 0) (f : A → B) (xs : List A)
    → ((x : A) → P x → Q (f x))
    → All P xs
    → All Q (map f xs)
All-map P Q f [] h hs = tt
All-map P Q f (x ∷ xs) h (p, hs) = (h x p, All-map P Q f xs h hs)

All-any : {A : Type 0} (P : A → Type 0) (xs : List A) → ((x : A) → P x) → All P xs
All-any P [] h = tt
All-any P (x ∷ xs) h = (h x, All-any P xs h)

abbrev bad_template : Template → Bool
bad_template t = not (good_part t.folder && good_part t.filename)

abbrev pub AllStored : List ManifestEntry → Type 0
AllStored = All (λ (e : ManifestEntry). Stores e.path)

module _ (k : Packages) (doc : IsDocumented k) where
  department_entry-Stores : (d : Text) → Stores (department_entry k d).path
  unfolding department_entry join text_eq is_space
  department_entry-Stores d =
      parts-Stores (codes "shared") (slugify k.to_lower d ∷ codes "team-memo.md" ∷ []) (λ e. cc)
        (
          good_part-IsPart (codes "shared") refl,
          (slug-IsPart k.to_lower d, (good_part-IsPart (codes "team-memo.md") refl, tt)),
        )

  project_entry-Stores : (e : Employee) (project : Text) → Stores (project_entry k e project).path
  unfolding project_entry join text_eq is_space
  project_entry-Stores e project =
      parts-Stores (codes "users")
        (slugify k.to_lower e.name
          ∷ codes "Projects"
          ∷ (slugify k.to_lower project ++ codes "-summary.md")
          ∷ [])
        (λ e. cc)
        (
          good_part-IsPart (codes "users") refl,
          (
            slug-IsPart k.to_lower e.name,
            (good_part-IsPart (codes "Projects") refl, (summary-IsPart k.to_lower project, tt)),
          ),
        )

  template_entry-Stores :
      (e : Employee) (style : Text) (t : Template)
      → bad_template t ≡ false
      → Stores (template_entry k e style t).path
  unfolding template_entry join text_eq is_space
  template_entry-Stores e style t h =
      parts-Stores (codes "users") (slugify k.to_lower e.name ∷ t.folder ∷ t.filename ∷ [])
        (λ e. cc)
        (
          good_part-IsPart (codes "users") refl,
          (
            slug-IsPart k.to_lower e.name,
            (
              good_part-IsPart t.folder (ground arith),
              (good_part-IsPart t.filename (ground arith), tt),
            ),
          ),
        )

  documents_of-Stores :
      (e : Employee) (count : ℕ) (style : Text) (s : k.Source)
      → AllStored (documents_of k e count style s).0
  documents_of-Stores e count style s =
      let pool = (k.shuffle user_doc_templates s).0 in
      let none_bad : matching bad_template pool ≡ 0 =
        doc.shuffle-matching bad_template user_doc_templates s
        ∙ (unfold user_doc_templates matching text_eq is_space in refl) in
      All-map (λ t. bad_template t ≡ false) (λ e. Stores e.path) (template_entry k e style)
        (take count pool) (template_entry-Stores e style)
        (All-take (λ t. bad_template t ≡ false) count pool
          (All-unmatched bad_template pool none_bad))

  employee_documents-Stores :
      (target variance : ℕ) (e : Employee) (s s' : k.Source) (es : List ManifestEntry)
      → employee_documents k target variance e s ≡ ok (es, s')
      → AllStored es
  unfolding employee_documents
  employee_documents-Stores target variance e s s' es h =
      let ((count, s₁), drawn, more) = >>=-eq-ok (draw_count k target variance s) _ h in
      let (n, s₂) = k.intn (length style_hints) s₁ in
      let (style, at, last) =
        >>=-eq-ok (element_at style_hints (k.intn (length style_hints) s₁).0) _ more in
      rw (← ap (λ r. r.0) (ok-injective last))
        (documents_of-Stores e count style (k.intn (length style_hints) s₁).1)

  all_employees-Stores :
      (target variance : ℕ) (projects : List Text) (index : ℕ) (es : List Employee) (s : k.Source)
      (out : List ManifestEntry)
      → all_employees k target variance projects index es s ≡ ok out
      → AllStored out
  unfolding all_employees employee_entries
  all_employees-Stores target variance projects index [] s out h = rw (← ok-injective h) tt
  all_employees-Stores target variance projects index (e ∷ es) s out h =
      let ((first, s'), one, more) =
        >>=-eq-ok (employee_entries k target variance projects index e s) _ h in
      let (rest, others, last) =
        >>=-eq-ok (all_employees k target variance projects (suc index) es s') _ more in
      let (project, at, one') = >>=-eq-ok (element_at projects (index % length projects)) _ one in
      let ((documents, s''), docs, one'') =
        >>=-eq-ok (employee_documents k target variance e s) _ one' in
      let first-Stores : AllStored first = rw (← ap (λ r. r.0) (ok-injective one'')) (
        project_entry-Stores e project,
        employee_documents-Stores target variance e s s'' documents docs,
      ) in
      rw (← ok-injective last) (
        All-append (λ e. Stores e.path) first rest first-Stores
          (all_employees-Stores target variance projects (suc index) es s' rest others))

  -- The store takes the path of every entry of a manifest, whatever the names in the world model are:
  -- `normalizeRelativePath` accepts it.
  pub plan-Stores :
      (world_model_id : Text) (m : WorldModel) (es : List ManifestEntry)
      → plan k world_model_id m ≡ ok es
      → AllStored es
  unfolding plan
  plan-Stores id m es h = elim (Bool-cases (text_eq (trim_space id) [])) [
    | inl blank ↦ absurd (err-ne-ok _ es (rw blank at h))
    | inr named ↦ elim (Bool-cases (is_incomplete k m)) [
      | inl missing ↦ absurd (err-ne-ok _ es (rw (named, missing) at h))
      | inr complete ↦
          let (users, r, last) =
            >>=-eq-ok (all_employees k target variance projects 0 employees (k.seeded id)) _
              (rw (named, complete) at h) in
          let same : fixed_entries m.organization.name ++ departments ++ users ≡ es =
            ok-injective last in
          rw (← same) (
            All-append (λ e. Stores e.path) (fixed_entries m.organization.name ++ departments) users
              (All-append (λ e. Stores e.path) (fixed_entries m.organization.name) departments
                (fixed_entries-Stores m.organization.name)
                (All-map (λ d. Unit {0}) (λ e. Stores e.path) (department_entry k) sorted
                  (λ d u. department_entry-Stores d) (All-any (λ d. Unit {0}) sorted (λ d. tt))))
              (all_employees-Stores target variance projects 0 employees (k.seeded id) users r))
    ]
  ]
    where
      target : ℕ
      target = count_target m.generation_settings.file_count_target

      variance : ℕ
      variance = count_variance m.generation_settings.file_count_variance

      projects : List Text
      projects = order_by text_lt m.projects

      employees : List Employee
      employees = k.sort_slice (by_name k) m.employees

      sorted : List Text
      sorted = order_by text_lt m.departments

      departments : List ManifestEntry
      departments = map (department_entry k) sorted
