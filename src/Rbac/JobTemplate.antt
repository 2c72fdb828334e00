-- ===== src/Rbac/JobTemplate.antt =====
-- rbac/jobtemplate.go: who may read and change an Ansible job template, and its role list.
use tensor.Prelude.{
  Bool, true, false, ◌||◌, Option, none, some, String, string_eq, [], if◌then◌else◌, ◌==◌,
}
use tensor.Models.{User, JobTemplate}
use tensor.Database.{Database}
use tensor.Database.Server.{Server, job_templates, add_to_set, pull}
use tensor.Rbac.Engine.{
  is_organization_admin, has_global_read, has_global_write, scan, conclude, any_role,
  in_granted_teams,
}
use tensor.Rbac.Project
use tensor.Rbac.Credential
use tensor.Rbac.Inventory

abbrev pub job_template_admin : String
job_template_admin = "admin"

abbrev pub job_template_execute : String
job_template_execute = "execute"

-- `GetOrganizationID`: the id in the organization that was read, and whether there was an error.
-- The organization is looked up by the id of the project, as in the source; a lookup that fails
-- leaves the zero value, whose id is empty.
unfoldable pub get_organization_id : Database → JobTemplate → String × Bool
get_organization_id db jtemplate = elim (db.find_project jtemplate.project_id) [
  | none ↦ ("", true)
  | some project ↦ elim (db.find_organization project.id) [
    | none ↦ ("", true)
    | some organization ↦ (organization.id, false)
  ]
]

-- The step `if orgID, err := …; err != nil { … }`.
unfoldable pub of_organization : Database → User → JobTemplate → Bool
of_organization db user jtemplate =
    let (org_id, err) = get_organization_id db jtemplate in
    if err then is_organization_admin db org_id user.id else false

-- The steps of `Read` after those on the credentials.
unfoldable pub read_parts : Database → User → JobTemplate → Bool
read_parts db user jtemplate =
    if Inventory.read_by_id db user jtemplate.inventory_id
    then true
    else if Project.read_by_id db user jtemplate.project_id
    then true
    else if of_organization db user jtemplate
    then true
    else conclude (in_granted_teams db user.id) (scan any_role user.id jtemplate.roles [])

-- The first credential that the template names decides alone.
unfoldable pub read_credentials :
    Database → User → Option String → Option String → Option String → Bool → Bool
read_credentials db user (some machine) cloud network others = Credential.read_by_id db user machine
read_credentials db user none (some cloud) network others = Credential.read_by_id db user cloud
read_credentials db user none none (some network) others = Credential.read_by_id db user network
read_credentials db user none none none others = others

unfoldable pub read : Database → User → JobTemplate → Bool
read db user jtemplate =
    if has_global_read user
    then true
    else read_credentials db user jtemplate.machine_credential_id jtemplate.cloud_credential_id
        jtemplate.network_credential_id (read_parts db user jtemplate)

abbrev pub may_write : String → Bool
may_write role = role == job_template_admin || role == job_template_execute

unfoldable pub write : Database → User → JobTemplate → Bool
write db user jtemplate =
    if has_global_write user
    then true
    else if of_organization db user jtemplate
    then true
    else conclude (in_granted_teams db user.id) (scan may_write user.id jtemplate.roles [])

unfoldable pub read_by_id : Database → User → String → Bool
read_by_id db user template_id = elim (db.find_job_template template_id) [
  | none ↦ false
  | some template ↦ read db user template
]

unfoldable pub write_by_id : Database → User → String → Bool
write_by_id db user template_id = elim (db.find_job_template template_id) [
  | none ↦ false
  | some template ↦ write db user template
]

module _ (server : Server) where
  open server use {Store, update_id}

  unfoldable pub associate : String → String → String → String → Store → Store × Option String
  associate resource_id grantee role_type role =
      update_id job_templates resource_id
        (add_to_set (record { grantee_id = grantee; type = role_type; role = role }))

  unfoldable pub disassociate : String → String → String → String → Store → Store × Option String
  disassociate resource_id grantee role_type role =
      update_id job_templates resource_id
        (pull (record { grantee_id = grantee; type = role_type; role = role }))
