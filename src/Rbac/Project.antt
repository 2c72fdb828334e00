-- ===== src/Rbac/Project.antt =====
-- rbac/project.go: who may read, change and update a project, and its role list.
use tensor.Prelude.{
  Bool, true, false, ◌||◌, Option, none, some, String, string_eq, [], if◌then◌else◌, ◌==◌,
}
use tensor.Models.{User, Project}
use tensor.Database.{Database}
use tensor.Database.Server.{Server, projects, add_to_set, pull}
use tensor.Rbac.Engine.{
  is_organization_admin, has_global_read, has_global_write, scan, conclude, any_role,
  in_granted_teams, is_in_teams,
}

abbrev pub project_admin : String
project_admin = "admin"

abbrev pub project_use : String
project_use = "use"

abbrev pub project_update : String
project_update = "update"

unfoldable pub read : Database → User → Project → Bool
read db user project =
    if has_global_read user
    then true
    else if is_organization_admin db project.organization_id user.id
    then true
    else conclude (in_granted_teams db user.id) (scan any_role user.id project.roles [])

-- The role that the loop of `Write` asks for.
abbrev pub may_write : String → Bool
may_write role = role == project_admin

unfoldable pub write : Database → User → Project → Bool
write db user project =
    if has_global_write user
    then true
    else if is_organization_admin db project.organization_id user.id
    then true
    else conclude (in_granted_teams db user.id) (scan may_write user.id project.roles [])

abbrev pub may_update : String → Bool
may_update role = role == project_admin || role == project_update

unfoldable pub update : Database → User → Project → Bool
update db user project =
    if user.is_super_user
    then true
    else if is_organization_admin db project.organization_id user.id
    then true
    else conclude (is_in_teams db user.id) (scan may_update user.id project.roles [])

unfoldable pub read_by_id : Database → User → String → Bool
read_by_id db user project_id = elim (db.find_project project_id) [
  | none ↦ false
  | some project ↦ read db user project
]

module _ (server : Server) where
  open server use {Store, update_id}

  unfoldable pub associate : String → String → String → String → Store → Store × Option String
  associate resource_id grantee role_type role =
      update_id projects resource_id
        (add_to_set (record { grantee_id = grantee; type = role_type; role = role }))

  unfoldable pub disassociate : String → String → String → String → Store → Store × Option String
  disassociate resource_id grantee role_type role =
      update_id projects resource_id
        (pull (record { grantee_id = grantee; type = role_type; role = role }))
