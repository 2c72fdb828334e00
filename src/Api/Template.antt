-- ===== src/Api/Template.antt =====
-- api/template.go: the requests on one job template that read or change it. Its children have those
-- that list, and the launch.
pub mod Lists
pub mod Info
pub mod Launch
pub mod Launched
pub mod Queued
pub mod Update
use tensor.Prelude.{
  ℕ, Bool, true, false, not, ◌&&◌, ◌||◌, Option, none, some, String, List, [], ◌∷◌, if◌then◌else◌,
  ◌==◌, string_eq,
}
use tensor.Prelude.Text.{Text, trim_blanks}
use tensor.Mongo.{Count}
use tensor.Models.{AccessControl, User, Credential, Inventory, JobTemplate}
use tensor.Database.{Database}
use tensor.Database.Server.{jobs, job_templates, add_to_set}
use tensor.QueryParser.{Query}
use tensor.Rbac.Engine.{counted, has_global_write, is_organization_admin, role_type_user}
use tensor.Rbac.JobTemplate as rbac_job_template
use tensor.Rbac.JobTemplate.{get_organization_id}
use tensor.Rbac.Project as rbac_project
use tensor.Rbac.Inventory as rbac_inventory
use tensor.Rbac.Credential as rbac_credential
use tensor.Api.{
  Write, insert, update_id, remove_id, remove_where, change_roles, note, Event, sent, message, item,
  empty, errors, abort_with_error, try, fire, Cursor, Passage, passed, refused, Bound, bound,
  unbound, invalid_body, no_permission,
}

-- Extra variables, each with its value as JSON.
abbrev pub Extras : Type 0
Extras = List (String × String)

-- What a run takes over from its template.
pub record RunSettings : Type 0 where
  pub playbook : String
  pub verbosity : ℕ
  pub forks : ℕ
  pub limit : String
  pub extra_vars : Extras
  pub job_tags : String
  pub skip_tags : String
  pub start_at_task : String
  pub force_handlers : Bool
  pub become_enabled : Bool
  pub allow_simultaneous : Bool

-- What a launch has to be given.
pub record Prompts : Type 0 where
  pub variables : Bool
  pub limit : Bool
  pub inventory : Bool
  pub credential : Bool
  pub job_type : Bool
  pub tags : Bool
  pub skip_tags : Bool

-- The document of a job template, but for the fields that only jobs write.
pub record TemplateData : Type 0 where
  pub template : JobTemplate
  pub description : String
  pub job_type : String
  pub run : RunSettings
  pub prompts : Prompts
  pub polymorphic_ctype_id : Option String
  pub created_by_id : String
  pub modified_by_id : String
  pub created : ℕ
  pub modified : ℕ

-- `count_machine`, `count_network` and `count_cloud` are the queries of `MachineCredentialExist`,
-- `NetworkCredentialExist` and `CloudCredentialExist`.
pub record Reads : Type 0 where
  pub db : Database
  pub is_object_id : String → Bool
  pub find : String → Option TemplateData
  pub select : Query → Text → Cursor TemplateData
  pub count_named : String → String → Count
  pub count_project : String → Count
  pub count_inventory : String → Count
  pub count_machine : String → Count
  pub count_network : String → Count
  pub count_cloud : String → Count
  pub new_id : String
  pub now : ℕ

unfoldable pub middleware : Reads → User → String → String → Passage TemplateData
middleware r user method id =
    let at : Passage TemplateData = elim (r.find id) [
      | none ↦ refused 404 "Job Template does not exist"
      | some t ↦
          if method == "GET"
          then if not (rbac_job_template.read r.db user t.template)
            then refused 401 no_permission
            else passed t
          else if method == "PUT" || method == "DELETE"
          then if not (rbac_job_template.write r.db user t.template)
            then refused 401 no_permission
            else passed t
          else passed t
    ] in
    if not (r.is_object_id id) then refused 404 "Job template does not exist" else at

unfoldable pub one : TemplateData → List (Event TemplateData TemplateData)
one t = sent 200 (item t) ∷ []

-- A credential that the request names exists, and the user may read it.
unfoldable pub check_credential :
    {D A : Type 0}
    → Database
    → User
    → (String → Count)
    → String
    → Option String
    → List (Event D A)
    → List (Event D A)
check_credential db user count missing none rest = rest
check_credential db user count missing (some id) rest =
    if not (counted (count id))
    then sent 400 (errors (missing ∷ [])) ∷ []
    else if not (rbac_credential.read_by_id db user id)
    then abort_with_error 401 no_permission
    else rest

unfoldable pub check_credentials :
    Reads
    → User
    → TemplateData
    → List (Event TemplateData TemplateData)
    → List (Event TemplateData TemplateData)
unfolding check_credential
check_credentials r user req rest =
    check_credential r.db user r.count_machine "Machine Credential does not exists"
      req.template.machine_credential_id
      (check_credential r.db user r.count_network "Network credential does not exists"
        req.template.network_credential_id
        (check_credential r.db user r.count_cloud "Cloud credential does not exists"
          req.template.cloud_credential_id rest))

-- Where the user may not read the project, a response is sent, and the handler goes on.
unfoldable pub check_project :
    {D A : Type 0}
    → Database
    → User
    → (String → Count)
    → String
    → List (Event D A)
    → List (Event D A)
check_project db user count id rest =
    if not (counted (count id))
    then abort_with_error 400 "Project does not exists."
    else if not (rbac_project.read_by_id db user id)
    then sent 401 (message no_permission) ∷ rest
    else rest

unfoldable pub new_template : Reads → User → TemplateData → TemplateData
new_template r user req = record req {
  template = record req.template { id = r.new_id };
  created = r.now;
  modified = r.now;
  created_by_id = user.id;
  modified_by_id = user.id;
}

-- The user becomes an admin of the template `id`. `req` is the template of the request.
unfoldable pub settle :
    Reads
    → (Write TemplateData → Bool)
    → User
    → String
    → JobTemplate
    → List (Event TemplateData TemplateData)
    → List (Event TemplateData TemplateData)
settle r works user id req rest =
    let entry : AccessControl = record {
      grantee_id = user.id;
      type = role_type_user;
      role = rbac_job_template.job_template_admin;
    } in
    let granted =
      fire works (change_roles job_templates id (add_to_set entry))
        (fire works (note "associate" user.id id (some user.id)) rest) in
    let (org_id, err) = get_organization_id r.db req in
    if not (has_global_write user)
    then granted
    else if err && not (is_organization_admin r.db org_id user.id)
    then granted
    else rest

unfoldable pub insert_template :
    Reads
    → (Write TemplateData → Bool)
    → User
    → TemplateData
    → List (Event TemplateData TemplateData)
unfolding new_template settle
insert_template r works user req =
    let t = new_template r user req in
    try works (insert t) (abort_with_error 504 "Could not create job template") (
      settle r works user t.template.id t.template
        (fire works (note "create" user.id t.template.id none) (sent 201 (item t) ∷ [])))

unfoldable pub create :
    Reads
    → (Write TemplateData → Bool)
    → User
    → Bound TemplateData
    → List (Event TemplateData TemplateData)
unfolding check_project check_credentials insert_template
create r works user (unbound emsgs) = invalid_body emsgs
create r works user (bound req) = check_project r.db user r.count_project req.template.project_id (
    if counted (r.count_named req.template.name req.template.project_id)
    then abort_with_error 400 "Job Template with this Name already exists."
    else if not (counted (r.count_inventory req.template.inventory_id))
    then abort_with_error 400 "Inventory does not exists"
    else if not (rbac_inventory.read_by_id r.db user req.template.inventory_id)
    then abort_with_error 401 no_permission
    else check_credentials r user req (insert_template r works user req))
