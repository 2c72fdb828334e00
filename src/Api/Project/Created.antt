-- ===== src/Api/Project/Created.antt =====
-- What is checked before a project is created, and what is not.
use tensor.Prelude.{
  ◌≡◌, ◌≢◌, refl, sym, ◌∙◌, ◌↔◌, ◌⊎◌, inl, inr, Bool, true, false, not, ◌||◌, Option, none, some,
  String, List, [], Bool-cases, if◌then◌else◌, arith,
}
use tensor.Models.{User, Credential}
use tensor.Rbac.Engine.{counted, has_global_read, has_organization_read}
use tensor.Rbac.Credential as rbac_credential
use tensor.Api.{Write, Event, insert, effects, bound}
use tensor.Api.Effects.{if-effects, effects-some, try-effects}
use tensor.Api.Project.{ProjectData, Reads, create, check_scm, insert_project, new_project}

-- The request names no source credential, or one that exists and can be read from the database.
abbrev ScmExists : Reads → ProjectData → Type 0
ScmExists r req =
    (req.scm.credential_id ≡ none)
    ⊎ ((id : String) × (credential : Credential) × (req.scm.credential_id ≡ some id)
        × (counted (r.count_scm id) ≡ true)
        × (r.db.find_credential id ≡ some credential))

is_kept : (b : Bool) → not b ≡ false → b ≡ true
is_kept b e = ground (arith, e)

some_cases : {A : Type 0} (o : Option A) → (o ≡ none) ⊎ ((a : A) × (o ≡ some a))
some_cases none = inl refl
some_cases (some a) = inr (a, refl)

-- The check of the right to read the credential only answers.
answered :
    (may : Bool) (n : List (Event ProjectData ProjectData))
    (rest : List (Event ProjectData ProjectData))
    → effects n ≡ effects rest
    → effects (if not may then n else rest) ≡ effects rest
answered true n rest e = refl
answered false n rest e = e

check_scm-passes :
    (r : Reads) (user : User) (req : ProjectData) (rest : List (Event ProjectData ProjectData))
    → ScmExists r req
    → effects (check_scm r user req rest) ≡ effects rest
unfolding check_scm effects
check_scm-passes r user req rest (inl none_) = rw none_ refl
check_scm-passes r user req rest (inr (id, credential, named, exists, found)) =
    rw named
      (rw exists (rw found (answered (rbac_credential.read r.db user credential) _ rest refl)))

check_scm-exists :
    (r : Reads) (user : User) (req : ProjectData) (rest : List (Event ProjectData ProjectData))
    → effects (check_scm r user req rest) ≢ []
    → ScmExists r req
unfolding check_scm effects
check_scm-exists r user req rest h = elim (some_cases req.scm.credential_id) [
  | inl none_ ↦ inl none_
  | inr (id, named) ↦ elim (Bool-cases (counted (r.count_scm id))) [
    | inl exists ↦ elim (some_cases (r.db.find_credential id)) [
      | inl lost ↦ absurd ((rw lost at (rw exists at (rw named at h))) refl)
      | inr (credential, found) ↦ inr (id, credential, named, exists, found)
    ]
    | inr missing ↦ absurd ((rw missing at (rw named at h)) refl)
  ]
]

-- What has to hold for a project to be stored.
abbrev pub IsAccepted : Reads → (Write ProjectData → Bool) → User → ProjectData → Type 0
IsAccepted r works user req =
    (counted (r.count_organization req.project.organization_id) ≡ true)
    × ((has_global_read user || has_organization_read r.db req.project.organization_id user.id)
        ≡ true)
    × (counted (r.count_named req.project.name req.project.organization_id) ≡ false)
    × ScmExists r req
    × (works (insert (new_project r user req)) ≡ true)

module _ (r : Reads) (works : Write ProjectData → Bool) (user : User) (req : ProjectData) where
  written :
      effects (insert_project r works user req) ≢ []
      → works (insert (new_project r user req)) ≡ true
  unfolding insert_project effects
  written h = try-effects works (insert (new_project r user req)) _ _ refl h

  writes :
      works (insert (new_project r user req)) ≡ true
      → effects (insert_project r works user req) ≢ []
  unfolding insert_project
  writes stored = effects-some _ (insert (new_project r user req)) _ stored

  accepted : effects (create r works user (bound req)) ≢ [] → IsAccepted r works user req
  unfolding create effects
  accepted h =
      let (exists, h1) =
        if-effects (not (counted (r.count_organization req.project.organization_id))) _ _ refl h in
      let (reads, h2) =
        if-effects
          (not (
            has_global_read user || has_organization_read r.db req.project.organization_id user.id))
          _ _ refl h1 in
      let (unused, h3) =
        if-effects (counted (r.count_named req.project.name req.project.organization_id)) _ _ refl
          h2 in
      let scm = check_scm-exists r user req _ h3 in
      let h4 : effects (insert_project r works user req) ≢ [] =
        λ e. h3 (check_scm-passes r user req _ scm ∙ e) in
      (is_kept _ exists, is_kept _ reads, unused, scm, written h4)

  stores : IsAccepted r works user req → effects (create r works user (bound req)) ≢ []
  unfolding create
  stores (exists, reads, unused, scm, stored) =
      rw exists
        (rw reads (rw unused (λ e. writes stored (sym (check_scm-passes r user req _ scm) ∙ e))))

  -- The creation of a project writes anything exactly if the organization exists, the user reads
  -- everything or is named in the organization, as the check asks the database, the name is not
  -- used in it, the source credential, if one is named, exists and can be read from the database,
  -- and the project itself can be written. Whether the user may read the credential does not
  -- matter.
  pub create-IsAccepted_iff :
      (effects (create r works user (bound req)) ≢ []) ↔ IsAccepted r works user req
  create-IsAccepted_iff = (accepted, stores)
