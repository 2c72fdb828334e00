-- ===== src/Rbac/Order.antt =====
-- Who may change an object may read it, for the kinds of objects where the code has this.
use tensor.Prelude.{
  ◌≡◌, Bool, true, String, List, [], arith, Some-imp, any, any_iff, ◌&&◌, ◌==◌, string_eq,
}
use tensor.Models.{AccessControl, User, Organization, Team, Project}
use tensor.Database.{Database, IsDocumented, IsUp}
use tensor.Rbac.Engine.{
  is_organization_admin, has_global_read, has_global_write, in_granted_teams, scan, allowed,
  any_role,
}
use tensor.Rbac.Engine.Laws.{
  is_organization_admin_sound, in_granted_teams-false, scan-allowed_iff, member_found,
}
use tensor.Rbac.Decisions.{ladder_iff}
use tensor.Rbac.Team
use tensor.Rbac.Project

-- A loop that wants fewer roles passes fewer users.
scan_mono :
    (wanted : String → Bool) (user_id : String) (roles : List AccessControl)
    → scan wanted user_id roles [] ≡ allowed
    → scan any_role user_id roles [] ≡ allowed
scan_mono wanted user_id roles h = (scan-allowed_iff any_role user_id roles []).1 (
    Some-imp _ _ (λ v d. (d.0, d.1, ground arith)) roles
      ((scan-allowed_iff wanted user_id roles []).0 h))

any_mono :
    (p q : AccessControl → Bool) (roles : List AccessControl)
    → ((v : AccessControl) → p v ≡ true → q v ≡ true)
    → any p roles ≡ true
    → any q roles ≡ true
any_mono p q roles f h = (any_iff q roles).1 (Some-imp _ _ f roles ((any_iff p roles).0 h))

module _ {db : Database} {organizations : List Organization} {teams : List Team}
    (documented : IsDocumented db organizations teams) where
  -- On a database that answers as documented, who may change a project may read it.
  project-read_of_write :
      (user : User) (project : Project)
      → Project.write db user project ≡ true
      → Project.read db user project ≡ true
  unfolding Project.write Project.read has_global_read has_global_write
  project-read_of_write user project h = ground (
    arith,
    ladder_iff (has_global_write user) (is_organization_admin db project.organization_id user.id)
        (scan Project.may_write user.id project.roles []) (in_granted_teams db user.id)
        (in_granted_teams-false documented user.id),
    scan_mono Project.may_write user.id project.roles,
  )

  -- On a database that answers as documented and whose counts succeed, who may change a team may
  -- read it.
  team-read_of_write :
      (user : User) (team : Team)
      → IsUp db
      → Team.write db user team ≡ true
      → Team.read db user team ≡ true
  unfolding Team.write Team.read Team.in_organization has_global_read has_global_write
  team-read_of_write user team up h = ground (
    arith,
    any_mono (λ v. v.type == "user" && v.grantee_id == user.id && v.role == "admin")
        (λ v. v.type == "user" && v.grantee_id == user.id) team.roles (λ v g. ground arith),
    λ (g : is_organization_admin db team.organization_id user.id ≡ true).
        member_found documented team.organization_id user.id up
          (is_organization_admin_sound documented team.organization_id user.id g).1,
  )
