-- ===== src/Api/Team/AssignRole.antt =====
-- api/team.go, AssignRole: a team is given a role of an object, or loses it. Nothing asks whether the
-- user may change the object or the team.
use tensor.Prelude.{Bool, String, [], ◌∷◌, if◌then◌else◌, ◌==◌, string_eq, Option, none, some}
use tensor.Models.{User, Team}
use tensor.Database.{Database}
use tensor.Database.Server.{Server}
use tensor.Rbac.Engine.{role_type_team}
use tensor.Rbac.Team as rbac_team
use tensor.Rbac.Project
use tensor.Rbac.Credential
use tensor.Rbac.Inventory
use tensor.Rbac.JobTemplate
use tensor.Rbac.TerraformJobTemplate
use tensor.Api.{sent, errors, empty, Bound, bound, unbound}
use tensor.Api.Roles.{RoleObj, Answer, change_role, is_found}

-- The team that is read as the resource takes the place of the team of the request.
unfoldable pub replaced : Option Team → Team → Team
replaced none team = team
replaced (some found) team = found

module _ (server : Server) (noted : Bool) (db : Database) (find_team : String → Option Team) where
  unfoldable pub assign_to : (user : User) (team : Team) → RoleObj → server.Store → Answer server
  unfolding change_role replaced
  assign_to user team req s =
      let failure : String = "Error occured while adding role" in
      let id = req.resource_id in
      if req.resource_type == "credential"
      then change_role server noted (is_found (db.find_credential id)) (Credential.associate server)
          (Credential.disassociate server) user.id team.id role_type_team failure req s
      else if req.resource_type == "organization"
      then (
        s,
        sent 500
              (errors ("You cannot assign an organization role as a child role for a team." ∷ []))
            ∷ [],
      )
      else if req.resource_type == "team"
      then change_role server noted (is_found (find_team id)) (rbac_team.associate server)
          (rbac_team.disassociate server) user.id (replaced (find_team id) team).id role_type_team
          failure req s
      else if req.resource_type == "project"
      then change_role server noted (is_found (db.find_project id)) (Project.associate server)
          (Project.disassociate server) user.id team.id role_type_team failure req s
      else if req.resource_type == "job_template"
      then change_role server noted (is_found (db.find_job_template id))
          (JobTemplate.associate server) (JobTemplate.disassociate server) user.id team.id
          role_type_team failure req s
      else if req.resource_type == "terraform_job_template"
      then change_role server noted (is_found (db.find_terraform_job_template id))
          (TerraformJobTemplate.associate server) (TerraformJobTemplate.disassociate server) user.id
          team.id role_type_team failure req s
      else if req.resource_type == "inventory"
      then change_role server noted (is_found (db.find_inventory id)) (Inventory.associate server)
          (Inventory.disassociate server) user.id team.id role_type_team failure req s
      else (s, sent 204 empty ∷ [])

  unfoldable pub assign_role :
      (user : User) (team : Team) → Bound RoleObj → server.Store → Answer server
  unfolding assign_to
  assign_role user team (unbound emsgs) s = (s, sent 400 (errors emsgs) ∷ [])
  assign_role user team (bound req) s = assign_to user team req s
