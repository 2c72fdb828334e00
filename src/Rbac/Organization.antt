-- ===== src/Rbac/Organization.antt =====
-- rbac/organization.go: who may read and change an organization, and its role list.
use tensor.Prelude.{
  Bool, true, false, ◌&&◌, Option, none, some, String, string_eq, if◌then◌else◌, ◌==◌, any,
}
use tensor.Models.{User, Organization}
use tensor.Database.{Database}
use tensor.Database.Server.{Server, organizations, add_to_set, pull}
use tensor.Rbac.Engine.{role_type_user, has_global_read, has_global_write, organization_admin}

abbrev pub organization_auditor : String
organization_auditor = "auditor"

abbrev pub organization_member : String
organization_member = "member"

unfoldable pub read : User → Organization → Bool
read user organization =
    if has_global_read user
    then true
    else any (λ v. v.type == role_type_user && v.grantee_id == user.id) organization.roles

unfoldable pub write : User → Organization → Bool
write user organization =
    if has_global_write user
    then true
    else any
        (λ v. v.type == role_type_user && v.grantee_id == user.id && v.role == organization_admin)
        organization.roles

unfoldable pub write_by_id : Database → User → String → Bool
write_by_id db user organization_id = elim (db.find_organization organization_id) [
  | none ↦ false
  | some organization ↦ write user organization
]

module _ (server : Server) where
  open server use {Store, update_id}

  unfoldable pub associate : String → String → String → String → Store → Store × Option String
  associate resource_id grantee role_type role =
      update_id organizations resource_id
        (add_to_set (record { grantee_id = grantee; type = role_type; role = role }))

  unfoldable pub disassociate : String → String → String → String → Store → Store × Option String
  disassociate resource_id grantee role_type role =
      update_id organizations resource_id
        (pull (record { grantee_id = grantee; type = role_type; role = role }))
