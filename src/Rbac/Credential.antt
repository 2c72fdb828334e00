-- ===== src/Rbac/Credential.antt =====
-- rbac/credential.go: who may read and change a credential, and its role list. The organization of a
-- credential may be missing.
use tensor.Prelude.{
  Bool, true, false, Option, none, some, String, string_eq, [], if◌then◌else◌, ◌==◌,
}
use tensor.Models.{User, Credential}
use tensor.Database.{Database}
use tensor.Database.Server.{Server, credentials, add_to_set, pull}
use tensor.Rbac.Engine.{
  is_organization_admin, has_global_read, has_global_write, scan, conclude, any_role,
  in_granted_teams,
}

abbrev pub credential_admin : String
credential_admin = "admin"

abbrev pub credential_use : String
credential_use = "use"

-- `OrganizationID != nil`, and the user acts as an admin of it.
abbrev pub of_organization : Database → Option String → String → Bool
of_organization db none user_id = false
of_organization db (some org_id) user_id = is_organization_admin db org_id user_id

unfoldable pub read : Database → User → Credential → Bool
read db user credential =
    if has_global_read user
    then true
    else if of_organization db credential.organization_id user.id
    then true
    else conclude (in_granted_teams db user.id) (scan any_role user.id credential.roles [])

abbrev pub may_write : String → Bool
may_write role = role == credential_admin

unfoldable pub write : Database → User → Credential → Bool
write db user credential =
    if has_global_write user
    then true
    else if of_organization db credential.organization_id user.id
    then true
    else conclude (in_granted_teams db user.id) (scan may_write user.id credential.roles [])

unfoldable pub read_by_id : Database → User → String → Bool
read_by_id db user credential_id = elim (db.find_credential credential_id) [
  | none ↦ false
  | some credential ↦ read db user credential
]

module _ (server : Server) where
  open server use {Store, update_id}

  unfoldable pub associate : String → String → String → String → Store → Store × Option String
  associate resource_id grantee role_type role =
      update_id credentials resource_id
        (add_to_set (record { grantee_id = grantee; type = role_type; role = role }))

  unfoldable pub disassociate : String → String → String → String → Store → Store × Option String
  disassociate resource_id grantee role_type role =
      update_id credentials resource_id
        (pull (record { grantee_id = grantee; type = role_type; role = role }))
