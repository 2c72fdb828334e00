-- ===== src/Api/Job.antt =====
-- api/job.go: the requests on jobs of Ansible.
pub mod Unlisted
use tensor.Prelude.{
  ℕ, Bool, false, not, ◌&&◌, ◌||◌, Option, none, some, String, List, [], ◌∷◌, if◌then◌else◌, ◌==◌,
  string_eq, nat_eq,
}
use tensor.Prelude.Text.{Text, codes}
use tensor.Models.{User}
use tensor.Database.{Database}
use tensor.QueryParser.{Query, Form, match, lookups, order_by}
use tensor.Rbac.JobTemplate as rbac_job_template
use tensor.Api.{
  Event, sent, item, empty, abort_with_error, no_page, PageQuery, send_page, Cursor, keep, Passage,
  passed, refused, no_permission,
}
use tensor.Api.Template.Launch.{JobData}

-- The document of a job: what a launch stores, and what its run adds.
pub record JobDocument : Type 0 where
  pub job : JobData
  pub failed : Bool
  pub started : ℕ
  pub finished : ℕ
  pub elapsed : ℕ
  pub result_stdout : String
  pub result_traceback : String
  pub job_explanation : String
  pub scm_credential_id : Option String
  pub job_cwd : String
  pub job_args : List String
  pub job_env : List String

-- `size` is the number of bytes of an id.
pub record Reads : Type 0 where
  pub db : Database
  pub is_object_id : String → Bool
  pub size : String → ℕ
  pub find : String → Option JobDocument
  pub select : Query → Text → Cursor JobDocument

unfoldable pub middleware : Reads → User → String → String → Passage JobDocument
middleware r user method id =
    let at : Passage JobDocument = elim (r.find id) [
      | none ↦ refused 404 "Job does not exist"
      | some j ↦
          if method == "GET"
          then if (r.size j.job.job_template_id == 12)
              && not (rbac_job_template.read_by_id r.db user j.job.job_template_id)
            then refused 401 no_permission
            else passed j
          else if method == "PUT" || method == "DELETE"
          then if not (rbac_job_template.write_by_id r.db user j.job.job_template_id)
            then refused 401 no_permission
            else passed j
          else passed j
    ] in
    if not (r.is_object_id id) then refused 404 "Job does not exist" else at

unfoldable pub one : JobDocument → List (Event JobDocument JobDocument)
one j = sent 200 (item j) ∷ []

unfoldable pub asked : Form → Query
asked form =
    lookups form (codes "id" ∷ codes "name" ∷ codes "labels" ∷ [])
      (match form (codes "status" ∷ codes "type" ∷ codes "failed" ∷ []) [])

unfoldable pub all : Reads → User → Form → PageQuery → List (Event JobDocument JobDocument)
unfolding asked
all r user form q =
    let cursor = r.select (asked form) (order_by form) in
    if not cursor.closes
    then abort_with_error 504 "Error while getting job"
    else send_page no_page q
        (keep (λ j. rbac_job_template.read_by_id r.db user j.job.job_template_id) cursor.found)

-- The answer is the field "can_cancel".
unfoldable pub cancel_info : JobDocument → List (Event JobDocument Bool)
cancel_info j = sent 200 (item false) ∷ []

unfoldable pub cancel : JobDocument → List (Event JobDocument JobDocument)
cancel j = sent 405 empty ∷ []

unfoldable pub std_out : JobDocument → List (Event JobDocument String)
std_out j = sent 200 (item j.result_stdout) ∷ []
