-- ===== src/Api/Project/Update.antt =====
-- api/project.go: the requests that change or remove a project, or fetch its source.
use tensor.Prelude.{
  Bool, true, not, ◌&&◌, ◌||◌, Option, none, some, String, List, [], ◌∷◌, if◌then◌else◌, ◌==◌,
  string_eq,
}
use tensor.Prelude.Text.{trim_blanks}
use tensor.Models.{User}
use tensor.Database.Server.{projects, jobs, job_templates}
use tensor.Rbac.Engine.{counted, has_global_read, has_organization_read}
use tensor.Rbac.Project as rbac_project
use tensor.Api.{
  Write, update_id, remove_id, remove_where, note, sync, Event, sent, item, empty, abort_with_error,
  try, fire, Bound, bound, unbound, invalid_body, no_permission,
}
use tensor.Api.Project.{ProjectData, Reads, settle}

-- The project with the fields of the request. The description is trimmed, and then replaced by the
-- one of the request.
unfoldable pub changed : Reads → ProjectData → ProjectData → ProjectData
changed r p req = record p {
  project = record p.project {
    name = trim_blanks req.project.name;
    organization_id = req.project.organization_id;
  };
  description = req.description;
  scm = req.scm;
  modified = r.now;
}

unfoldable pub is_nil_or : {A : Type 0} → (A → Bool) → Option A → Bool
is_nil_or test none = true
is_nil_or test (some a) = test a

unfoldable pub update :
    Reads
    → (Write ProjectData → Bool)
    → User
    → Bound ProjectData
    → ProjectData
    → List (Event ProjectData ProjectData)
unfolding changed settle is_nil_or
update r works user (unbound emsgs) project = invalid_body emsgs
update r works user (bound req) project =
    let p = changed r project req in
    if not (project.kind == req.kind) && not (req.kind == "")
    then abort_with_error 400 "Project Kind property cannot be modified."
    else if not (counted (r.count_organization req.project.organization_id))
    then abort_with_error 400 "Organization does not exists."
    else if not
        (has_global_read user || has_organization_read r.db req.project.organization_id user.id)
    then abort_with_error 401 no_permission
    else if not (req.project.name == project.project.name)
        && counted (r.count_named req.project.name req.project.organization_id)
    then abort_with_error 400 "Project with this name and organization already exists."
    else if not (is_nil_or (λ id. counted (r.count_scm id)) req.scm.credential_id)
    then abort_with_error 400 "SCM Credential does not exists."
    else try works (update_id project.project.id p)
        (abort_with_error 504 "Error while updating project")
        (settle r works user p (
          fire works (note "update" user.id project.project.id (some p.project.id))
            (sent 200 (item p) ∷ [])))

unfoldable pub delete :
    (Write ProjectData → Bool) → User → ProjectData → List (Event ProjectData ProjectData)
delete works user p =
    let id = p.project.id in
    try works (remove_where jobs "project_id" (id ∷ []))
      (abort_with_error 504 "Error while removing project jobs")
      (try works (remove_where job_templates "project_id" (id ∷ []))
        (abort_with_error 504 "Error while removing job templates")
        (try works (remove_id projects id) (abort_with_error 504 "Error while removing project")
          (fire works (note "delete" user.id id none) (sent 204 empty ∷ []))))

unfoldable pub scm_update_info : Reads → User → ProjectData → List (Event ProjectData Bool)
scm_update_info r user p =
    if not (rbac_project.update r.db user p.project)
    then abort_with_error 401 no_permission
    else sent 200 (item true) ∷ []

-- The body of the request may be missing, and is not used. The job has the id that is returned.
unfoldable pub scm_update :
    Reads
    → (Write ProjectData → Bool)
    → User
    → Bound (Unit {0})
    → String
    → ProjectData
    → List (Event ProjectData String)
scm_update r works user req job_id p =
    let go : List (Event ProjectData String) =
      try works (sync p) (abort_with_error 405 "SCM Update failed") (sent 202 (item job_id) ∷ []) in
    let with_body : List (Event ProjectData String) = elim req [
      | unbound emsgs ↦ invalid_body emsgs
      | bound _ ↦ go
    ] in
    if not (rbac_project.update r.db user p.project)
    then abort_with_error 401 no_permission
    else with_body
