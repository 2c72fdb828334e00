-- ===== src/Api/Project.antt =====
-- api/project.go: the requests on one project that read or change it. Its child Lists has those that
-- list.
pub mod Created
pub mod Lists
pub mod Update
use tensor.Prelude.{
  ℕ, Bool, true, false, not, ◌&&◌, ◌||◌, Option, none, some, String, List, [], ◌∷◌, if◌then◌else◌,
  ◌==◌, string_eq,
}
use tensor.Prelude.Int.{ℤ}
use tensor.Prelude.Text.{Text, trim_blanks}
use tensor.Mongo.{Count}
use tensor.Models.{AccessControl, User, Team, Project}
use tensor.Database.{Database}
use tensor.Database.Server.{projects, jobs, job_templates, add_to_set}
use tensor.QueryParser.{Query}
use tensor.Rbac.Engine.{
  counted, has_global_read, has_global_write, has_organization_read, is_organization_admin,
  role_type_user,
}
use tensor.Rbac.Project as rbac_project
use tensor.Rbac.Credential as rbac_credential
use tensor.Api.{
  Write, insert, update_id, remove_id, remove_where, change_roles, note, sync, Event, did, sent,
  panicked, message, item, empty, abort_with_error, try, fire, Cursor, Passage, passed, refused,
  Bound, bound, unbound, invalid_body, no_permission,
}

-- The fields that say where a project comes from.
pub record ScmSettings : Type 0 where
  pub scm_type : String
  pub url : String
  pub branch : String
  pub clean : Bool
  pub delete_on_update : Bool
  pub credential_id : Option String
  pub delete_on_next_update : Bool
  pub update_on_launch : Bool
  pub update_cache_timeout : ℤ

-- The document of a project, but for the fields that only jobs write; `project` are those that the
-- access checks read.
pub record ProjectData : Type 0 where
  pub project : Project
  pub description : String
  pub local_path : String
  pub kind : String
  pub scm : ScmSettings
  pub created_by_id : String
  pub modified_by_id : String
  pub created : ℕ
  pub modified : ℕ

-- What the handlers read: `is_object_id` is `bson.IsObjectIdHex`, `count_named` the query of
-- `IsUnique`, `count_organization` that of `OrganizationExist`, `count_scm` that of
-- `SCMCredentialExist`, and `path_of` is `path.Join` with the directory of the projects.
pub record Reads : Type 0 where
  pub db : Database
  pub is_object_id : String → Bool
  pub find : String → Option ProjectData
  pub find_team : String → Option Team
  pub select : Query → Text → Cursor ProjectData
  pub count_named : String → String → Count
  pub count_organization : String → Count
  pub count_scm : String → Count
  pub new_id : String
  pub now : ℕ
  pub path_of : String → String

unfoldable pub middleware : Reads → User → String → String → Passage ProjectData
middleware r user method id =
    let at : Passage ProjectData = elim (r.find id) [
      | none ↦ refused 404 "Project does not exist"
      | some p ↦
          if method == "GET"
          then if not (rbac_project.read r.db user p.project)
            then refused 401 no_permission
            else passed p
          else if method == "PUT" || method == "DELETE" || method == "PATCH"
          then if not (rbac_project.write r.db user p.project)
            then refused 401 no_permission
            else passed p
          else passed p
    ] in
    if not (r.is_object_id id) then refused 404 "Project does not exist" else at

unfoldable pub one : ProjectData → List (Event ProjectData ProjectData)
one p = sent 200 (item p) ∷ []

-- The project that is stored.
unfoldable pub new_project : Reads → User → ProjectData → ProjectData
new_project r user req = record req {
  project = record req.project { name = trim_blanks req.project.name; id = r.new_id };
  description = trim_blanks req.description;
  local_path = r.path_of r.new_id;
  created_by_id = user.id;
  modified_by_id = user.id;
  created = r.now;
  modified = r.now;
}

-- What follows the write of a project: the user becomes its admin, the source is fetched. Where that
-- fails, there is no job, whose id is to be logged.
unfoldable pub settle :
    Reads
    → (Write ProjectData → Bool)
    → User
    → ProjectData
    → List (Event ProjectData ProjectData)
    → List (Event ProjectData ProjectData)
settle r works user p rest =
    let synced = try works (sync p) (panicked ∷ []) rest in
    let entry : AccessControl = record {
      grantee_id = user.id;
      type = role_type_user;
      role = rbac_project.project_admin;
    } in
    if not (has_global_write user && is_organization_admin r.db p.project.organization_id user.id)
    then fire works (change_roles projects p.project.id (add_to_set entry))
        (fire works (note "associate" user.id p.project.id (some user.id)) synced)
    else synced

unfoldable pub insert_project :
    Reads → (Write ProjectData → Bool) → User → ProjectData → List (Event ProjectData ProjectData)
unfolding new_project settle
insert_project r works user req =
    let p = new_project r user req in
    try works (insert p) (abort_with_error 504 "Could not create project") (
      settle r works user p
        (fire works (note "create" user.id p.project.id none) (sent 201 (item p) ∷ [])))

-- The check of the credential. Where the user may not read it, a response is sent, and the handler
-- goes on.
unfoldable pub check_scm :
    Reads
    → User
    → ProjectData
    → List (Event ProjectData ProjectData)
    → List (Event ProjectData ProjectData)
check_scm r user req rest = elim req.scm.credential_id [
  | none ↦ rest
  | some id ↦
      if not (counted (r.count_scm id))
      then abort_with_error 400 "SCM Credential does not exists."
      else elim (r.db.find_credential id) [
        | none ↦ abort_with_error 400 "SCM Credential does not exists."
        | some credential ↦
            if not (rbac_credential.read r.db user credential)
            then sent 401 (message no_permission) ∷ rest
            else rest
      ]
]

unfoldable pub create :
    Reads
    → (Write ProjectData → Bool)
    → User
    → Bound ProjectData
    → List (Event ProjectData ProjectData)
unfolding check_scm insert_project
create r works user (unbound emsgs) = invalid_body emsgs
create r works user (bound req) =
    if not (counted (r.count_organization req.project.organization_id))
    then abort_with_error 400 "Organization does not exists."
    else if not
        (has_global_read user || has_organization_read r.db req.project.organization_id user.id)
    then abort_with_error 401 no_permission
    else if counted (r.count_named req.project.name req.project.organization_id)
    then abort_with_error 400 "Project with this Name and Organization already exists."
    else check_scm r user req (insert_project r works user req)
