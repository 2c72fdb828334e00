-- ===== src/Rbac/Decisions.antt =====
-- Exactly who passes the checks of rbac/project.go, on a database that
-- answers as documented and whose counts succeed.
use tensor.Prelude.{
  ◌≡◌, ◌↔◌, ◌⊎◌, ◌≢◌, Bool, true, false, String, List, [], Some, Some-imp, arith, string_eq_iff,
  if◌then◌else◌,
}
use tensor.Models.{AccessControl, User, Organization, Team, Project}
use tensor.Database.{Database, IsDocumented, IsUp}
use tensor.Rbac.Engine.{
  is_organization_admin, has_global_read, has_global_write, in_granted_teams, is_in_teams, Scan,
  scan, conclude, allowed, pending, any_role,
}
use tensor.Rbac.Engine.Laws.{
  ActsAsAdmin, is_organization_admin_sound, is_organization_admin_complete, in_granted_teams-false,
  is_in_teams-false, scan-allowed_iff,
}
use tensor.Rbac.Project

-- An entry of the role list gives the user himself, not a team, a role that meets `P`.
abbrev pub HasDirect : (String → Type 0) → String → List AccessControl → Type 0
HasDirect P user_id roles =
    Some (λ v. (v.type ≡ "user") × (v.grantee_id ≡ user_id) × P v.role) roles

abbrev pub IsAnyRole : String → Type 0
IsAnyRole _ = Unit {0}

abbrev pub IsAdminRole : String → Type 0
IsAdminRole role = role ≡ "admin"

abbrev pub IsAdminOrUpdate : String → Type 0
IsAdminOrUpdate role = (role ≡ "admin") ⊎ (role ≡ "update")

abbrev pub IsGlobalReader : User → Type 0
IsGlobalReader user = (user.is_super_user ≡ true) ⊎ (user.is_system_auditor ≡ true)

-- The user acts as an admin of the organization with this id.
abbrev pub OwnsThrough : List Organization → String → String → Type 0
OwnsThrough organizations org_id user_id = (org_id ≢ "") × ActsAsAdmin organizations org_id user_id

-- The loop over the roles passes exactly the users with a direct role that is wanted.
pub scan-HasDirect :
    (wanted : String → Bool) (P : String → Type 0)
    → ((r : String) → (wanted r ≡ true) ↔ P r)
    → (user_id : String) (roles : List AccessControl)
    → (scan wanted user_id roles [] ≡ allowed) ↔ HasDirect P user_id roles
scan-HasDirect wanted P same user_id roles =
    let (to, from) = scan-allowed_iff wanted user_id roles [] in
    (
      λ h. Some-imp _ _ (λ v d. (d.0, d.1, (same v.role).0 d.2)) roles (to h),
      λ d. from (Some-imp _ _ (λ v d. (d.0, d.1, (same v.role).1 d.2)) roles d),
    )

pub any_role_iff : (r : String) → (any_role r ≡ true) ↔ IsAnyRole r
any_role_iff r = ground arith

pub project_write_iff : (r : String) → (Project.may_write r ≡ true) ↔ IsAdminRole r
project_write_iff r = string_eq_iff r "admin"

pub project_update_iff : (r : String) → (Project.may_update r ≡ true) ↔ IsAdminOrUpdate r
project_update_iff r = ground (arith, string_eq_iff r "admin", string_eq_iff r "update")

-- A ladder of a global right, the organization and the loop, where the teams give nothing.
pub ladder_iff :
    (global admin : Bool) (s : Scan) (in_teams : List String → Bool)
    → ((ids : List String) → in_teams ids ≡ false)
    → ((if global then true else if admin then true else conclude in_teams s) ≡ true)
      ↔ ((global ≡ true) ⊎ ((admin ≡ true) ⊎ (s ≡ allowed)))
ladder_iff global admin allowed in_teams h = ground arith
ladder_iff global admin (pending ids) in_teams h = ground (arith, h ids)

module _ {db : Database} {organizations : List Organization} {teams : List Team}
    (documented : IsDocumented db organizations teams) (up : IsUp db) where
  pub admin_iff :
      (org_id user_id : String)
      → (is_organization_admin db org_id user_id ≡ true) ↔ OwnsThrough organizations org_id user_id
  admin_iff org_id user_id = (
    is_organization_admin_sound documented org_id user_id,
    λ h. is_organization_admin_complete documented org_id user_id up h.0 h.1,
  )

  -- On a database that answers as documented and whose counts succeed, a user reads a project
  -- exactly if he reads everything, acts as an admin of its organization, or has a direct role on
  -- it, whichever. The roles of his teams give nothing.
  pub project-read_iff :
      (user : User) (project : Project)
      → (Project.read db user project ≡ true) ↔ (
          IsGlobalReader user
          ⊎ (OwnsThrough organizations project.organization_id user.id
              ⊎ HasDirect IsAnyRole user.id project.roles))
  unfolding Project.read has_global_read
  project-read_iff user project = ground (
    arith,
    ladder_iff (has_global_read user) (is_organization_admin db project.organization_id user.id)
        (scan any_role user.id project.roles []) (in_granted_teams db user.id)
        (in_granted_teams-false documented user.id),
    admin_iff project.organization_id user.id,
    scan-HasDirect any_role IsAnyRole any_role_iff user.id project.roles,
  )

  -- On a database that answers as documented and whose counts succeed, a user changes a project
  -- exactly if he is a super user, acts as an admin of its organization, or has the direct role
  -- "admin" on it. The roles of his teams give nothing.
  pub project-write_iff :
      (user : User) (project : Project)
      → (Project.write db user project ≡ true) ↔ (
          (user.is_super_user ≡ true)
          ⊎ (OwnsThrough organizations project.organization_id user.id
              ⊎ HasDirect IsAdminRole user.id project.roles))
  unfolding Project.write has_global_write
  project-write_iff user project = ground (
    arith,
    ladder_iff (has_global_write user) (is_organization_admin db project.organization_id user.id)
        (scan Project.may_write user.id project.roles []) (in_granted_teams db user.id)
        (in_granted_teams-false documented user.id),
    admin_iff project.organization_id user.id,
    scan-HasDirect Project.may_write IsAdminRole project_write_iff user.id project.roles,
  )

  -- On a database that answers as documented and whose counts succeed, a user updates a project
  -- exactly if he is a super user, acts as an admin of its organization, or has the direct role
  -- "admin" or "update" on it.
  project-update_iff :
      (user : User) (project : Project)
      → (Project.update db user project ≡ true) ↔ (
          (user.is_super_user ≡ true)
          ⊎ (OwnsThrough organizations project.organization_id user.id
              ⊎ HasDirect IsAdminOrUpdate user.id project.roles))
  unfolding Project.update
  project-update_iff user project = ground (
    arith,
    ladder_iff user.is_super_user (is_organization_admin db project.organization_id user.id)
        (scan Project.may_update user.id project.roles []) (is_in_teams db user.id)
        (is_in_teams-false documented user.id),
    admin_iff project.organization_id user.id,
    scan-HasDirect Project.may_update IsAdminOrUpdate project_update_iff user.id project.roles,
  )

-- A direct role "admin" on a project is enough, whatever the database answers.
pub direct-project_write :
    (db : Database) (user : User) (project : Project)
    → HasDirect IsAdminRole user.id project.roles
    → Project.write db user project ≡ true
unfolding Project.write
direct-project_write db user project d = ground (
  arith,
  (scan-HasDirect Project.may_write IsAdminRole project_write_iff user.id project.roles).1 d,
)
