-- ===== src/Api/TerraformTemplate.antt =====
-- api/terraformtemplate.go: the requests on one Terraform job template that read or change it. Its
-- children have those that list, and the launch.
pub mod Lists
pub mod Launch
pub mod Routes
use tensor.Prelude.{
  ℕ, Bool, true, false, not, ◌&&◌, ◌||◌, Option, none, some, String, List, [], ◌∷◌, if◌then◌else◌,
  ◌==◌, string_eq,
}
use tensor.Prelude.Text.{Text, trim_blanks}
use tensor.Mongo.{Count}
use tensor.Models.{AccessControl, User, TerraformJobTemplate}
use tensor.Database.{Database}
use tensor.Database.Server.{terraform_jobs, terraform_job_templates, add_to_set}
use tensor.QueryParser.{Query}
use tensor.Rbac.Engine.{counted, has_global_write, is_organization_admin, role_type_user}
use tensor.Rbac.TerraformJobTemplate as rbac_terraform_job_template
use tensor.Rbac.TerraformJobTemplate.{get_organization_id}
use tensor.Rbac.JobTemplate.{job_template_admin}
use tensor.Api.{
  Write, insert, update_id, remove_id, remove_where, change_roles, note, Event, sent, item, empty,
  abort_with_error, try, fire, Cursor, Passage, passed, refused, Bound, bound, unbound,
  invalid_body, no_permission,
}
use tensor.Api.Template.{Extras, check_credential, check_project}

-- What a run takes over from its template, and an update of the template leaves as it is.
pub record Scope : Type 0 where
  pub scm_credential_id : Option String
  pub parallelism : ℕ
  pub update_on_launch : Bool
  pub target : String
  pub directory : String

-- What a launch has to be given.
pub record Prompts : Type 0 where
  pub variables : Bool
  pub credential : Bool
  pub job_type : Bool

-- The document of a Terraform job template, but for the fields that only jobs write.
pub record TemplateData : Type 0 where
  pub template : TerraformJobTemplate
  pub description : String
  pub job_type : String
  pub vars : Extras
  pub prompts : Prompts
  pub allow_simultaneous : Bool
  pub scope : Scope
  pub created_by_id : String
  pub modified_by_id : String
  pub created : ℕ
  pub modified : ℕ

pub record Reads : Type 0 where
  pub db : Database
  pub is_object_id : String → Bool
  pub find : String → Option TemplateData
  pub select : Query → Text → Cursor TemplateData
  pub count_named : String → String → Count
  pub count_project : String → Count
  pub count_machine : String → Count
  pub count_network : String → Count
  pub count_cloud : String → Count
  pub new_id : String
  pub now : ℕ

-- A request that deletes is not checked, and one that launches is.
unfoldable pub middleware : Reads → User → String → String → Passage TemplateData
middleware r user method id =
    let at : Passage TemplateData = elim (r.find id) [
      | none ↦ refused 404 "Job Template does not exist"
      | some t ↦
          if method == "GET"
          then if not (rbac_terraform_job_template.read r.db user t.template)
            then refused 401 no_permission
            else passed t
          else if method == "PUT" || method == "POST"
          then if not (rbac_terraform_job_template.write r.db user t.template)
            then refused 401 no_permission
            else passed t
          else passed t
    ] in
    if not (r.is_object_id id) then refused 404 "Job template does not exist" else at

unfoldable pub one : TemplateData → List (Event TemplateData TemplateData)
one t = sent 200 (item t) ∷ []

unfoldable pub check_credentials :
    Reads
    → User
    → TemplateData
    → List (Event TemplateData TemplateData)
    → List (Event TemplateData TemplateData)
unfolding check_credential
check_credentials r user req rest =
    check_credential r.db user r.count_machine "Machine Credential does not exists"
      req.template.machine_credential_id
      (check_credential r.db user r.count_network "Network credential does not exists"
        req.template.network_credential_id
        (check_credential r.db user r.count_cloud "Cloud credential does not exists"
          req.template.cloud_credential_id rest))

unfoldable pub new_template : Reads → User → TemplateData → TemplateData
new_template r user req = record req {
  template = record req.template { id = r.new_id };
  created = r.now;
  modified = r.now;
  created_by_id = user.id;
  modified_by_id = user.id;
}

-- The user becomes an admin of the template `id`. `req` is the template of the request.
unfoldable pub settle :
    Reads
    → (Write TemplateData → Bool)
    → User
    → String
    → TerraformJobTemplate
    → List (Event TemplateData TemplateData)
    → List (Event TemplateData TemplateData)
settle r works user id req rest =
    let entry : AccessControl = record {
      grantee_id = user.id;
      type = role_type_user;
      role = job_template_admin;
    } in
    let granted =
      fire works (change_roles terraform_job_templates id (add_to_set entry))
        (fire works (note "associate" user.id id (some user.id)) rest) in
    let (org_id, err) = get_organization_id r.db req in
    if not (has_global_write user)
    then granted
    else if err && not (is_organization_admin r.db org_id user.id)
    then granted
    else rest

unfoldable pub insert_template :
    Reads
    → (Write TemplateData → Bool)
    → User
    → TemplateData
    → List (Event TemplateData TemplateData)
unfolding new_template settle
insert_template r works user req =
    let t = new_template r user req in
    try works (insert t) (abort_with_error 504 "Could not create job template") (
      settle r works user t.template.id t.template
        (fire works (note "create" user.id t.template.id none) (sent 201 (item t) ∷ [])))

unfoldable pub create :
    Reads
    → (Write TemplateData → Bool)
    → User
    → Bound TemplateData
    → List (Event TemplateData TemplateData)
unfolding check_project check_credentials insert_template
create r works user (unbound emsgs) = invalid_body emsgs
create r works user (bound req) = check_project r.db user r.count_project req.template.project_id (
    if counted (r.count_named req.template.name req.template.project_id)
    then abort_with_error 400 "Job Template with this Name already exists."
    else check_credentials r user req (insert_template r works user req))

unfoldable pub changed : Reads → User → TemplateData → TemplateData → TemplateData
changed r user t req = record t {
  template = record t.template {
    name = trim_blanks req.template.name;
    project_id = req.template.project_id;
    machine_credential_id = req.template.machine_credential_id;
    cloud_credential_id = req.template.cloud_credential_id;
    network_credential_id = req.template.network_credential_id;
  };
  description = trim_blanks req.description;
  job_type = req.job_type;
  vars = req.vars;
  prompts = req.prompts;
  allow_simultaneous = req.allow_simultaneous;
  modified = r.now;
  modified_by_id = user.id;
}

-- Whether the user may read the project is not asked.
unfoldable pub update :
    Reads
    → (Write TemplateData → Bool)
    → User
    → Bound TemplateData
    → TemplateData
    → List (Event TemplateData TemplateData)
unfolding check_credentials changed settle
update r works user (unbound emsgs) template = invalid_body emsgs
update r works user (bound req) template =
    let t = changed r user template req in
    let id = template.template.id in
    if not (counted (r.count_project req.template.project_id))
    then abort_with_error 400 "Project does not exists."
    else if not (req.template.name == template.template.name)
        && counted (r.count_named req.template.name req.template.project_id)
    then abort_with_error 400 "Job Template with this name already exists."
    else check_credentials r user req (
        try works (update_id id t) (abort_with_error 504 "Error while updating job template") (
          settle r works user id req.template
            (fire works (note "update" user.id id (some id)) (sent 200 (item t) ∷ []))))

unfoldable pub delete :
    (Write TemplateData → Bool) → User → TemplateData → List (Event TemplateData TemplateData)
delete works user t =
    let id = t.template.id in
    try works (remove_where terraform_jobs "job_template_id" (id ∷ []))
      (abort_with_error 504 "Error while removing jobs")
      (try works (remove_id terraform_job_templates id)
        (abort_with_error 504 "Error while removing job tempalte")
        (fire works (note "delete" user.id id none) (sent 204 empty ∷ [])))
