-- ===== src/Api/Template/Update.antt =====
-- api/template.go: the requests that change or remove a job template.
use tensor.Prelude.{Bool, not, ◌&&◌, none, some, List, [], ◌∷◌, if◌then◌else◌, ◌==◌, string_eq}
use tensor.Prelude.Text.{trim_blanks}
use tensor.Models.{User}
use tensor.Database.Server.{jobs, job_templates}
use tensor.Rbac.Engine.{counted}
use tensor.Api.{
  Write, update_id, remove_id, remove_where, note, Event, sent, item, empty, abort_with_error, try,
  fire, Bound, bound, unbound, invalid_body,
}
use tensor.Api.Template.{Reads, TemplateData, check_credentials, check_project, settle}

unfoldable pub changed : Reads → User → TemplateData → TemplateData → TemplateData
changed r user t req = record t {
  template = record t.template {
    name = trim_blanks req.template.name;
    project_id = req.template.project_id;
    inventory_id = req.template.inventory_id;
    machine_credential_id = req.template.machine_credential_id;
    cloud_credential_id = req.template.cloud_credential_id;
    network_credential_id = req.template.network_credential_id;
  };
  description = trim_blanks req.description;
  job_type = req.job_type;
  run = req.run;
  prompts = req.prompts;
  polymorphic_ctype_id = req.polymorphic_ctype_id;
  modified = r.now;
  modified_by_id = user.id;
}

-- The inventory of the request is not looked at.
unfoldable pub update :
    Reads
    → (Write TemplateData → Bool)
    → User
    → Bound TemplateData
    → TemplateData
    → List (Event TemplateData TemplateData)
unfolding check_project check_credentials changed settle
update r works user (unbound emsgs) template = invalid_body emsgs
update r works user (bound req) template =
    let t = changed r user template req in
    let id = template.template.id in
    check_project r.db user r.count_project req.template.project_id (
      if not (req.template.name == template.template.name)
        && counted (r.count_named req.template.name req.template.project_id)
      then abort_with_error 400 "Job Template with this name already exists."
      else check_credentials r user req (
          try works (update_id id t) (abort_with_error 504 "Error while updating job template") (
            settle r works user id req.template
              (fire works (note "update" user.id id (some id)) (sent 200 (item t) ∷ [])))))

unfoldable pub delete :
    (Write TemplateData → Bool) → User → TemplateData → List (Event TemplateData TemplateData)
delete works user t =
    let id = t.template.id in
    try works (remove_where jobs "job_template_id" (id ∷ []))
      (abort_with_error 504 "Error while removing jobs")
      (try works (remove_id job_templates id)
        (abort_with_error 504 "Error while removing job tempalte")
        (fire works (note "delete" user.id id none) (sent 204 empty ∷ [])))
