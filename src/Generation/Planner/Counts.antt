-- ===== src/Generation/Planner/Counts.antt =====
-- generation/planner.go: when a manifest is planned, and how many entries it has.
use honeygen.Prelude.{
  ℕ, zero, suc, ◌+◌, ◌*◌, ◌%◌, ◌≤◌, ◌<◌, ◌≡◌, refl, sym, ◌∙◌, ◌⊎◌, inl, inr, true, false, List, [],
  ◌∷◌, ◌++◌, map, leb, Result, ok, err, length, take, length-append, arith, Bool-cases,
}
use honeygen.Text.{Text, text_eq, trim_space}
use honeygen.Json.{int_limit, text_lt}
use honeygen.Database.Table.{order_by, matching}
use honeygen.Database.Order.{length-matching, length-order_by}
use honeygen.WorldModels.{WorldModel, Employee}
use honeygen.Generation.Worker.{ManifestEntry}
use honeygen.Generation.Templates.{user_doc_templates, style_hints, fixed_entries}
use honeygen.Generation.Planner.{
  Packages, IsDocumented, PlanError, intn_panics, count_target, count_variance, file_count,
  element_at, draw_count, documents_of, template_entry, department_entry, project_entry,
  employee_documents, employee_entries, all_employees, by_name, is_incomplete, plan,
}

length-map : {A B : Type 0} (f : A → B) (xs : List A) → length (map f xs) ≡ length xs
length-map f [] = refl
length-map f (x ∷ xs) = omega (arith, length-map f xs)

length-take_le : {A : Type 0} (n : ℕ) (xs : List A) → length (take n xs) ≤ length xs
length-take_le zero xs = omega arith
length-take_le (suc n) [] = omega arith
length-take_le (suc n) (x ∷ xs) = omega (arith, length-take_le n xs)

length-take_pos :
    {A : Type 0} (n : ℕ) (xs : List A)
    → 1 ≤ n
    → 1 ≤ length xs
    → (1 ≤ length (take n xs)) × (length (take n xs) ≤ length xs)
length-take_pos zero xs h k = absurd (omega arith)
length-take_pos (suc n) [] h k = absurd (omega arith)
length-take_pos (suc n) (x ∷ xs) h k = (omega arith, omega (arith, length-take_le n xs))

element_at_ok :
    {A : Type 0} (xs : List A) (n : ℕ) → n < length xs → (a : A) × (element_at xs n ≡ ok a)
unfolding element_at
element_at_ok [] n h = absurd (omega arith)
element_at_ok (x ∷ xs) zero h = (x, refl)
element_at_ok (x ∷ xs) (suc n) h = element_at_ok xs n (omega arith)

mod_lt : (n m : ℕ) → 0 < m → n % m < m
mod_lt n m h = omega arith

file_count-pos : (target variance drawn : ℕ) → 1 ≤ file_count target variance drawn
unfolding file_count
file_count-pos target variance drawn = ground arith

module _ (k : Packages) (doc : IsDocumented k) where
  -- the bound of the drawing is no positive int64
  abbrev Panics : ℕ → {A : Type 0} → Result PlanError A → Type 0
  Panics variance r = (int_limit ≤ variance * 2 + 1) × (r ≡ err intn_panics)

  draw_count-cases :
      (target variance : ℕ) (s : k.Source)
      → Panics variance (draw_count k target variance s)
        ⊎ ((count : ℕ) × (s' : k.Source) × (draw_count k target variance s ≡ ok (count, s'))
            × (1 ≤ count))
  unfolding draw_count
  draw_count-cases target zero s = inr (_, _, refl, file_count-pos target 0 0)
  draw_count-cases target (suc v) s = elim (Bool-cases (leb int_limit (suc v * 2 + 1))) [
    | inl big ↦ inl (ground arith, ground arith)
    | inr small ↦ inr (
      file_count target (suc v) (k.intn (suc v * 2 + 1) s).0,
      (k.intn (suc v * 2 + 1) s).1,
      ground arith,
      file_count-pos target (suc v) (k.intn (suc v * 2 + 1) s).0,
    )
  ]

  -- between one and sixteen documents
  employee_documents-cases :
      (target variance : ℕ) (e : Employee) (s : k.Source)
      → Panics variance (employee_documents k target variance e s)
        ⊎ ((es : List ManifestEntry) × (s' : k.Source) × (employee_documents k target variance e s
              ≡ ok (es, s'))
            × (1 ≤ length es)
            × (length es ≤ 16))
  unfolding employee_documents
  employee_documents-cases target variance e s = elim (draw_count-cases target variance s) [
    | inl (big, r) ↦ inl (big, rw r)
    | inr (count, s', r, some_) ↦
        let drawn = k.intn (length style_hints) s' in
        let (style, at) = element_at_ok style_hints drawn.0 (styled s') in
        let (pool, s'') = documents_of k e count style drawn.1 in
        let (least, most) = documents-length e count style drawn.1 some_ in
        inr (pool, s'', rw (r, at), least, most)
  ]
    where
      styled : (s : k.Source) → (k.intn (length style_hints) s).0 < length style_hints
      styled s = doc.intn-lt (length style_hints) s (unfold style_hints in omega arith)

      documents-length :
          (e : Employee) (count : ℕ) (style : Text) (s : k.Source)
          → 1 ≤ count
          → (1 ≤ length (documents_of k e count style s).0)
            × (length (documents_of k e count style s).0 ≤ 16)
      documents-length e count style s h =
          let pool = (k.shuffle user_doc_templates s).0 in
          let many : length pool ≡ 16 =
            length-matching pool
            ∙ doc.shuffle-matching (λ x. true) user_doc_templates s
            ∙ (unfold user_doc_templates matching in refl) in
          let (least, most) = length-take_pos count pool h (omega (arith, many)) in
          let same = length-map (template_entry k e style) (take count pool) in
          (omega (arith, same, least), omega (arith, same, most, many))

  employee_entries-cases :
      (target variance : ℕ) (projects : List Text) (index : ℕ) (e : Employee) (s : k.Source)
      → 0 < length projects
      → Panics variance (employee_entries k target variance projects index e s)
        ⊎ ((es : List ManifestEntry) × (s' : k.Source) × (employee_entries k target variance
                projects index e s
              ≡ ok (es, s'))
            × (2 ≤ length es)
            × (length es ≤ 17))
  unfolding employee_entries
  employee_entries-cases target variance projects index e s h =
      let (project, at) =
        element_at_ok projects (index % length projects) (mod_lt index (length projects) h) in
      elim (employee_documents-cases target variance e s) [
        | inl (big, r) ↦ inl (big, rw (at, r))
        | inr (es, s', r, least, most) ↦
            inr (project_entry k e project ∷ es, s', rw (at, r), omega arith, omega arith)
      ]

  all_employees-cases :
      (target variance : ℕ) (projects : List Text) (index : ℕ) (es : List Employee) (s : k.Source)
      → 0 < length projects
      → Panics variance (all_employees k target variance projects index es s)
        ⊎ ((out : List ManifestEntry) × (all_employees k target variance projects index es s
              ≡ ok out)
            × (2 * length es ≤ length out)
            × (length out ≤ 17 * length es))
  unfolding all_employees
  all_employees-cases target variance projects index [] s h =
      inr ([], refl, omega arith, omega arith)
  all_employees-cases target variance projects index (e ∷ es) s h =
      elim (employee_entries-cases target variance projects index e s h) [
        | inl (big, r) ↦ inl (big, rw r)
        | inr (first, s', r, least, most) ↦
            elim (all_employees-cases target variance projects (suc index) es s' h) [
              | inl (big, r') ↦ inl (big, rw (r, r'))
              | inr (rest, r', least', most') ↦ inr (
                first ++ rest,
                rw (r, r'),
                omega (arith, length-append first rest),
                omega (arith, length-append first rest),
              )
            ]
      ]

  -- A world model with an id, departments, employees and projects is planned: the manifest has ten
  -- entries, one for each department, and between two and seventeen for each employee. The one
  -- exception is a variance for which twice itself plus one is no positive 64-bit integer: `Intn` then
  -- panics.
  pub plan-length :
      (world_model_id : Text) (m : WorldModel)
      → text_eq (trim_space world_model_id) [] ≡ false
      → is_incomplete k m ≡ false
      → Panics (count_variance m.generation_settings.file_count_variance) (plan k world_model_id m)
        ⊎ ((es : List ManifestEntry) × (plan k world_model_id m ≡ ok es)
            × (10 + length m.departments + 2 * length m.employees ≤ length es)
            × (length es ≤ 10 + length m.departments + 17 * length m.employees))
  unfolding plan
  plan-length id m named complete =
      let projects = order_by text_lt m.projects in
      let employees = k.sort_slice (by_name k) m.employees in
      let same : length employees ≡ length m.employees =
        length-matching employees
        ∙ doc.sort_slice-matching (λ x. true) (by_name k) m.employees
        ∙ sym (length-matching m.employees) in
      elim (all_employees-cases (count_target m.generation_settings.file_count_target)
        (count_variance m.generation_settings.file_count_variance) projects 0 employees
        (k.seeded id) (omega (arith, length-order_by text_lt m.projects, has_projects))) [
          | inl (big, r) ↦ inl (big, rw (named, complete, r))
          | inr (users, r, least, most) ↦ inr (
            fixed_entries m.organization.name
                ++ map (department_entry k) (order_by text_lt m.departments)
                ++ users,
            rw (named, complete, r),
            omega (arith, counted users, least, same),
            omega (arith, counted users, most, same),
          )
        ]
    where
      has_projects : 0 < length m.projects
      has_projects = ground arith

      counted :
          (users : List ManifestEntry)
          → length (
              fixed_entries m.organization.name
              ++ map (department_entry k) (order_by text_lt m.departments)
              ++ users)
            ≡ 10 + length m.departments + length users
      counted users =
          let departments = map (department_entry k) (order_by text_lt m.departments) in
          let ten : length (fixed_entries m.organization.name) ≡ 10 =
            (unfold fixed_entries in refl) in
          omega (
            arith,
            length-append (fixed_entries m.organization.name) (departments ++ users),
            length-append departments users,
            length-map (department_entry k) (order_by text_lt m.departments),
            length-order_by text_lt m.departments,
            ten,
          )
