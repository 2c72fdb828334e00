-- ===== src/Rbac/Team.antt =====
-- rbac/team.go: who may read and change a team, and its role list.
use tensor.Prelude.{ltb, Bool, true, ◌&&◌, Option, String, string_eq, if◌then◌else◌, ◌==◌, any}
use tensor.Models.{User, Team}
use tensor.Database.{Database}
use tensor.Database.Server.{Server, teams, add_to_set, pull}
use tensor.Rbac.Engine.{
  role_type_user, is_organization_admin, has_global_read, has_global_write, member_query,
}

abbrev pub team_admin : String
team_admin = "admin"

-- Any role in the team's organization lets a user read the team. Here `count > 0` decides, and an
-- error is logged only.
unfoldable pub in_organization : Database → String → String → Bool
in_organization db org_id user_id =
    ltb 0 (db.count_organizations (member_query org_id user_id)).found

unfoldable pub read : Database → User → Team → Bool
read db user team =
    if has_global_read user
    then true
    else if in_organization db team.organization_id user.id
    then true
    else any (λ v. v.type == role_type_user && v.grantee_id == user.id) team.roles

unfoldable pub write : Database → User → Team → Bool
write db user team =
    if has_global_write user
    then true
    else if is_organization_admin db team.organization_id user.id
    then true
    else any (λ v. v.type == role_type_user && v.grantee_id == user.id && v.role == team_admin)
        team.roles

module _ (server : Server) where
  open server use {Store, update_id}

  unfoldable pub associate : String → String → String → String → Store → Store × Option String
  associate resource_id grantee role_type role =
      update_id teams resource_id
        (add_to_set (record { grantee_id = grantee; type = role_type; role = role }))

  unfoldable pub disassociate : String → String → String → String → Store → Store × Option String
  disassociate resource_id grantee role_type role =
      update_id teams resource_id
        (pull (record { grantee_id = grantee; type = role_type; role = role }))
