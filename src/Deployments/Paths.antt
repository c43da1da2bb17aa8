-- ===== src/Deployments/Paths.antt =====
-- Where the directory of a deployment lies.
use honeygen.Prelude.{
  ◌≡◌, refl, sym, ap, ◌∙◌, ◌≢◌, ◌⊎◌, inl, inr, true, false, ◌||◌, [], ◌∷◌, ◌++◌, append_assoc,
  Bool-cases, All, All-append_right,
}
use honeygen.Text.{Text, text_eq, codes, trim_space, trim_prefix, has_prefix, split}
use honeygen.Text.Equality.{append-trim_prefix, trim_prefix-append, ne_of_text_eq}
use honeygen.Text.Parts.{split-append_sep}
use honeygen.Path.{slash, clean}
use honeygen.Path.Clean.{IsName}
use honeygen.Path.Below.{root_prefix}
use honeygen.Path.Rooted.{IsRooted, clean-IsRooted}
use honeygen.Storage.Sandbox.{path_join-root, append-cons-ne}
use honeygen.Database.{Deployment}
use honeygen.Deployments.{normalize_root_path, resolve_file_path, job_directory}

-- what follows a prefix and a slash in a path of names is a path of names
suffix-names :
    (p rest : Text) → All IsName (split slash (p ++ slash ∷ rest)) → All IsName (split slash rest)
suffix-names p rest h =
    All-append_right IsName (split slash p) (split slash rest)
      (rw (split-append_sep slash p rest) at h)

tail_of : (f : Text) → IsRooted f → (g : Text) × (f ≡ slash ∷ g)
tail_of f (inl e) = ([], e)
tail_of f (inr (n, e, names)) = (n, e)

rest-names : (c g r : Text) → IsRooted c → slash ∷ (g ++ slash ∷ r) ≡ c → All IsName (split slash r)
rest-names c g r (inl e) h = absurd (append-cons-ne g r slash (cc))
rest-names c g r (inr (n, e, names)) h =
    let same : g ++ slash ∷ r ≡ n = cc in suffix-names g r (rw (← same) at names)

-- the job's own prefix taken off
behind-prefix :
    (c f : Text)
    → IsRooted c
    → IsRooted f
    → has_prefix c (f ++ slash ∷ []) ≡ true
    → IsRooted (trim_prefix c f)
behind-prefix c f rc rf h =
    let r = trim_prefix c (f ++ slash ∷ []) in
    let e : f ++ slash ∷ r ≡ c =
      (sym (append_assoc f (slash ∷ []) r) ∙ append-trim_prefix c (f ++ slash ∷ []) h) in
    let t : trim_prefix c f ≡ slash ∷ r =
      (ap (λ x. trim_prefix x f) (sym e) ∙ trim_prefix-append f (slash ∷ r)) in
    let (g, eg) = tail_of f rf in
    inr (r, t, rest-names c g r rc (ap (λ x. x ++ slash ∷ r) (sym eg) ∙ e))

-- The root path of a deployment, whatever its record holds, is normalized to "/" or to an absolute
-- path of names: it has no "..", no "." and no empty segment.
pub normalize_root_path-IsRooted : (d : Deployment) → IsRooted (normalize_root_path d)
unfolding normalize_root_path
normalize_root_path-IsRooted d =
    let root_path = trim_space d.root_path in
    let c = clean (slash ∷ trim_prefix root_path (slash ∷ [])) in
    let f = clean (codes "/generated/" ++ d.world_model_id ++ slash ∷ d.generation_job_id) in
    elim (Bool-cases (text_eq root_path [] || text_eq root_path (slash ∷ []))) [
      | inl whole ↦ rw whole (inl refl)
      | inr some_path ↦ elim (Bool-cases (text_eq c f)) [
        | inl own ↦ rw (some_path, own) (inl refl)
        | inr other ↦ elim (Bool-cases (has_prefix c (f ++ slash ∷ []))) [
          | inl below ↦
              rw (some_path, other, below)
                (behind-prefix c f (clean-IsRooted (trim_prefix root_path (slash ∷ [])))
                  (clean-IsRooted
                    (codes "generated/" ++ d.world_model_id ++ slash ∷ d.generation_job_id))
                  below)
          | inr elsewhere ↦
              rw (some_path, other, elsewhere) (clean-IsRooted (trim_prefix root_path (slash ∷ [])))
        ]
      ]
    ]

-- Where the cleaned directory of the job is not empty, the directory that a deployment serves is
-- this directory, or lies below it: the cleaned job directory, a slash, and a path of names.
pub resolve_file_path_below :
    (storage_root : Text) (d : Deployment)
    → job_directory storage_root d ≢ []
    → (resolve_file_path storage_root d ≡ job_directory storage_root d)
      ⊎ ((n : Text) × (resolve_file_path storage_root d
            ≡ root_prefix (job_directory storage_root d) ++ n)
          × All IsName (split slash n))
unfolding resolve_file_path
resolve_file_path_below storage_root d ne =
    elim (Bool-cases (text_eq (normalize_root_path d) (slash ∷ []))) [
      | inl whole ↦ inl (rw whole refl)
      | inr part ↦ inr (below part (normalize_root_path-IsRooted d))
    ]
  where
    below :
        text_eq (normalize_root_path d) (slash ∷ []) ≡ false
        → IsRooted (normalize_root_path d)
        → (n : Text) × (resolve_file_path storage_root d
            ≡ root_prefix (job_directory storage_root d) ++ n)
          × All IsName (split slash n)
    below part (inl e) = absurd (ne_of_text_eq (normalize_root_path d) (slash ∷ []) part e)
    below part (inr (n, e, names)) = (
      n,
      rw (part, e, trim_prefix-append (slash ∷ []) n)
          (path_join-root (job_directory storage_root d) n ne names),
      names,
    )
