-- ===== src/Api/User/AssignRole.antt =====
-- api/user.go, AssignRole: a user is given a role of an object, or loses it. Nothing asks whether the
-- actor may change the object.
use tensor.Prelude.{Bool, String, [], ◌∷◌, if◌then◌else◌, ◌==◌, string_eq, Option}
use tensor.Models.{User, Team}
use tensor.Database.{Database}
use tensor.Database.Server.{Server}
use tensor.Rbac.Engine.{role_type_user}
use tensor.Rbac.Organization
use tensor.Rbac.Team
use tensor.Rbac.Project
use tensor.Rbac.Credential
use tensor.Rbac.Inventory
use tensor.Rbac.JobTemplate
use tensor.Rbac.TerraformJobTemplate
use tensor.Api.{sent, errors, empty, Bound, bound, unbound}
use tensor.Api.Roles.{RoleObj, Answer, change_role, is_found}

module _ (server : Server) (noted : Bool) (db : Database) (find_team : String → Option Team) where
  -- The switch on the type of the resource. A type without a case changes nothing, and is answered
  -- like a success.
  unfoldable pub assign_to : (actor user : User) → RoleObj → server.Store → Answer server
  unfolding change_role
  assign_to actor user req s =
      let failure : String = "Error occured while modifying the role" in
      let id = req.resource_id in
      if req.resource_type == "credential"
      then change_role server noted (is_found (db.find_credential id)) (Credential.associate server)
          (Credential.disassociate server) actor.id user.id role_type_user failure req s
      else if req.resource_type == "organization"
      then change_role server noted (is_found (db.find_organization id))
          (Organization.associate server) (Organization.disassociate server) actor.id user.id
          role_type_user failure req s
      else if req.resource_type == "team"
      then change_role server noted (is_found (find_team id)) (Team.associate server)
          (Team.disassociate server) actor.id user.id role_type_user failure req s
      else if req.resource_type == "project"
      then change_role server noted (is_found (db.find_project id)) (Project.associate server)
          (Project.disassociate server) actor.id user.id role_type_user failure req s
      else if req.resource_type == "job_template"
      then change_role server noted (is_found (db.find_job_template id))
          (JobTemplate.associate server) (JobTemplate.disassociate server) actor.id user.id
          role_type_user failure req s
      else if req.resource_type == "terraform_job_template"
      then change_role server noted (is_found (db.find_terraform_job_template id))
          (TerraformJobTemplate.associate server) (TerraformJobTemplate.disassociate server)
          actor.id user.id role_type_user failure req s
      else if req.resource_type == "inventory"
      then change_role server noted (is_found (db.find_inventory id)) (Inventory.associate server)
          (Inventory.disassociate server) actor.id user.id role_type_user failure req s
      else (s, sent 204 empty ∷ [])

  unfoldable pub assign_role : (actor user : User) → Bound RoleObj → server.Store → Answer server
  unfolding assign_to
  assign_role actor user (unbound emsgs) s = (s, sent 400 (errors emsgs) ∷ [])
  assign_role actor user (bound req) s = assign_to actor user req s
