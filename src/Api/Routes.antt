-- ===== src/Api/Routes.antt =====
-- The middlewares of api/project.go, api/credential.go, api/inventory.go, api/organization.go,
-- api/team.go and api/user.go before a handler: who gets through to a change.
use tensor.Prelude.{
  ℕ, ◌≡◌, ◌≢◌, refl, ◌⊎◌, inl, inr, Bool, true, false, not, ◌||◌, Option, none, some, String, List,
  [], if◌then◌else◌, ◌==◌, string_eq, string_eq_iff, arith,
}
use tensor.Models.{User, Organization, Team}
use tensor.Database.{IsDocumented, IsUp}
use tensor.Rbac.Project as rbac_project
use tensor.Rbac.Credential as rbac_credential
use tensor.Rbac.Inventory as rbac_inventory
use tensor.Rbac.User as rbac_user
use tensor.Rbac.Decisions.{HasDirect, OwnsThrough, IsAdminRole, IsAdminOrUpdate, project-write_iff}
use tensor.Rbac.Resources.{MayOwnThrough, credential-write_iff, inventory-write_iff}
use tensor.Api.{Event, Passage, passed, refused, effects, through}
use tensor.Api.Effects.{through-effects}
use tensor.Api.Project as project_api
use tensor.Api.Credential as credential_api
use tensor.Api.Inventory as inventory_api
use tensor.Api.User as user_api

-- The methods for changes that every middleware knows.
abbrev pub IsChange : String → Type 0
IsChange method = (method ≡ "PUT") ⊎ (method ≡ "DELETE")

change_tests :
    (method : String) (b : Bool)
    → IsChange method
    → ((method == "GET") ≡ false)
      × ((method == "PUT" || method == "DELETE" || b) ≡ true)
      × ((method == "PUT" || method == "DELETE") ≡ true)
change_tests method b (inl e) = rw e (refl, refl, refl)
change_tests method b (inr e) = rw e (refl, refl, refl)

-- The shape of the middlewares: what is behind a test for a change.
pub guarded :
    {D : Type 0} (valid get change : Bool) (o : Option D) (reading writing rest : D → Passage D)
    (status : ℕ) (text absent : String) (p : D)
    → get ≡ false
    → change ≡ true
    → (if not valid then refused status text else elim o as (λ _. Passage D) [
      | none ↦ refused status absent
      | some d ↦ if get then reading d else if change then writing d else rest d
    ])
      ≡ passed p
    → (d : D) × (o ≡ some d) × (valid ≡ true) × (writing d ≡ passed p)
guarded false get change o reading writing rest status text absent p g c h = absurd (cc)
guarded true get change none reading writing rest status text absent p g c h = absurd (cc)
guarded true get change (some d) reading writing rest status text absent p g c h =
    (d, refl, refl, writes h)
  where
    writes :
        (if get then reading d else if change then writing d else rest d) ≡ passed p
        → writing d ≡ passed p
    writes e = rw c at (rw g at e)

-- The refusal of who may not change.
pub writable :
    {D : Type 0} (may : Bool) (status : ℕ) (text : String) (d p : D)
    → (if not may then refused status text else passed d) ≡ passed p
    → (may ≡ true) × (d ≡ p)
writable true status text d p h = (refl, cc)
writable false status text d p h = absurd (cc)

module _ (r : project_api.Reads) (user : User) (method id : String) (change : IsChange method) where
  project-passed :
      (p : project_api.ProjectData)
      → project_api.middleware r user method id ≡ passed p
      → (r.is_object_id id ≡ true)
        × (r.find id ≡ some p)
        × (rbac_project.write r.db user p.project ≡ true)
  unfolding project_api.middleware
  project-passed p h =
      let (get, change, _) = change_tests method (method == "PATCH") change in
      let (d, found, valid, writes) =
        guarded (r.is_object_id id) (method == "GET")
          (method == "PUT" || method == "DELETE" || method == "PATCH") (r.find id) _ _ _ _ _ _ p get
          change h in
      let (may, same) = writable (rbac_project.write r.db user d.project) _ _ d p writes in
      (valid, rw (← same) found, rw (← same) may)

  -- A request that puts or deletes a project, and writes anything, whatever its handler does, names
  -- a stored project, and its user may change it: on a database that answers as documented and
  -- whose counts succeed, he is a super user, acts as an admin of the project's organization, or
  -- has the direct role "admin" on it.
  pub project_route-effects :
      {A : Type 0} {organizations : List Organization} {teams : List Team}
      (handler : project_api.ProjectData → List (Event project_api.ProjectData A))
      → IsDocumented r.db organizations teams
      → IsUp r.db
      → effects (through (project_api.middleware r user method id) handler) ≢ []
      → (p : project_api.ProjectData) × (r.find id ≡ some p)
        × ((user.is_super_user ≡ true)
            ⊎ (OwnsThrough organizations p.project.organization_id user.id
                ⊎ HasDirect IsAdminRole user.id p.project.roles))
  project_route-effects handler documented up h =
      let (p, e) = through-effects (project_api.middleware r user method id) handler h in
      let (_, found, may) = project-passed p e in
      (p, found, (project-write_iff documented up user p.project).0 may)

module _ (r : credential_api.Reads) (user : User) (method id : String)
    (change : IsChange method) where
  credential-passed :
      (p : credential_api.CredentialData)
      → credential_api.middleware r user method id ≡ passed p
      → (r.is_object_id id ≡ true)
        × (r.find id ≡ some p)
        × (rbac_credential.write r.db user p.credential ≡ true)
  unfolding credential_api.middleware
  credential-passed p h =
      let (get, _, change) = change_tests method false change in
      let (d, found, valid, writes) =
        guarded (r.is_object_id id) (method == "GET") (method == "PUT" || method == "DELETE")
          (r.find id) _ _ _ _ _ _ p get change h in
      let (may, same) = writable (rbac_credential.write r.db user d.credential) _ _ d p writes in
      (valid, rw (← same) found, rw (← same) may)

  credential_route-effects :
      {A : Type 0} {organizations : List Organization} {teams : List Team}
      (handler : credential_api.CredentialData → List (Event credential_api.CredentialData A))
      → IsDocumented r.db organizations teams
      → IsUp r.db
      → effects (through (credential_api.middleware r user method id) handler) ≢ []
      → (p : credential_api.CredentialData) × (r.find id ≡ some p)
        × ((user.is_super_user ≡ true)
            ⊎ (MayOwnThrough organizations p.credential.organization_id user.id
                ⊎ HasDirect IsAdminRole user.id p.credential.roles))
  credential_route-effects handler documented up h =
      let (p, e) = through-effects (credential_api.middleware r user method id) handler h in
      let (_, found, may) = credential-passed p e in
      (p, found, (credential-write_iff documented up user p.credential).0 may)

module _ (r : inventory_api.Reads) (user : User) (method id : String)
    (change : IsChange method) where
  inventory-passed :
      (p : inventory_api.InventoryData)
      → inventory_api.middleware r user method id ≡ passed p
      → (r.is_object_id id ≡ true)
        × (r.find id ≡ some p)
        × (rbac_inventory.write r.db user p.inventory ≡ true)
  unfolding inventory_api.middleware
  inventory-passed p h =
      let (get, _, change) = change_tests method false change in
      let (d, found, valid, writes) =
        guarded (r.is_object_id id) (method == "GET") (method == "PUT" || method == "DELETE")
          (r.find id) _ _ _ _ _ _ p get change h in
      let (may, same) = writable (rbac_inventory.write r.db user d.inventory) _ _ d p writes in
      (valid, rw (← same) found, rw (← same) may)

  inventory_route-effects :
      {A : Type 0} {organizations : List Organization} {teams : List Team}
      (handler : inventory_api.InventoryData → List (Event inventory_api.InventoryData A))
      → IsDocumented r.db organizations teams
      → IsUp r.db
      → effects (through (inventory_api.middleware r user method id) handler) ≢ []
      → (p : inventory_api.InventoryData) × (r.find id ≡ some p)
        × ((user.is_super_user ≡ true)
            ⊎ (OwnsThrough organizations p.inventory.organization_id user.id
                ⊎ HasDirect IsAdminOrUpdate user.id p.inventory.roles))
  inventory_route-effects handler documented up h =
      let (p, e) = through-effects (inventory_api.middleware r user method id) handler h in
      let (_, found, may) = inventory-passed p e in
      (p, found, (inventory-write_iff documented up user p.inventory).0 may)

may_write :
    (user object : User)
    → rbac_user.write user object ≡ true
    → (user.is_super_user ≡ true) ⊎ ((user.is_system_auditor ≡ true) ⊎ (user.id ≡ object.id))
unfolding rbac_user.write
may_write user object h = ground (arith, h, string_eq_iff user.id object.id)

module _ (r : user_api.Reads) (login : User) (method id : String) (change : IsChange method) where
  user-passed :
      (u : user_api.UserData)
      → user_api.middleware r login method id ≡ passed u
      → (r.is_object_id id ≡ true) × (r.find id ≡ some u) × (rbac_user.write login u.user ≡ true)
  unfolding user_api.middleware
  user-passed u h =
      let (get, _, change) = change_tests method false change in
      let (d, found, valid, writes) =
        guarded (r.is_object_id id) (method == "GET") (method == "PUT" || method == "DELETE")
          (r.find id) _ _ _ _ _ _ u get change h in
      let (may, same) = writable (rbac_user.write login d.user) _ _ d u writes in
      (valid, rw (← same) found, rw (← same) may)

  -- A request that puts or deletes a user, and writes anything, whatever its handler does, names a
  -- stored user, and comes from a super user, from a system auditor, or from that user himself.
  user_route-effects :
      {A : Type 0} (handler : user_api.UserData → List (Event user_api.UserData A))
      → effects (through (user_api.middleware r login method id) handler) ≢ []
      → (u : user_api.UserData) × (r.find id ≡ some u)
        × ((login.is_super_user ≡ true)
            ⊎ ((login.is_system_auditor ≡ true) ⊎ (login.id ≡ u.user.id)))
  user_route-effects handler h =
      let (u, e) = through-effects (user_api.middleware r login method id) handler h in
      let (_, found, may) = user-passed u e in (u, found, may_write login u.user may)
