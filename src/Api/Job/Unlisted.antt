-- ===== src/Api/Job/Unlisted.antt =====
-- Jobs without a template, such as those that update projects, and the requests of api/job.go.
use tensor.Prelude.{
  ◌≡◌, ◌≢◌, refl, true, false, none, some, String, List, [], ◌∷◌, All, not, ◌==◌, string_eq, nat_eq,
}
use tensor.Models.{User}
use tensor.QueryParser.{Form, order_by}
use tensor.Rbac.JobTemplate as rbac_job_template
use tensor.Api.{PageQuery, sent, item, through, keep, no_page}
use tensor.Api.Paging.{Shows, if-Events, send_page-Shows, keep-All}
use tensor.Api.Job.{JobDocument, Reads, middleware, one, all, asked, std_out}

All-weaken :
    {A : Type 0} (P Q : A → Type 0) (xs : List A) → ((a : A) → P a → Q a) → All P xs → All Q xs
All-weaken P Q [] h k = tt
All-weaken P Q (x ∷ xs) h k = (h x k.0, All-weaken P Q xs h k.1)

module _ (r : Reads) (user : User) (j : JobDocument)
    (absent : r.db.find_job_template j.job.job_template_id ≡ none) where
  unreadable : rbac_job_template.read_by_id r.db user j.job.job_template_id ≡ false
  unfolding rbac_job_template.read_by_id
  unreadable = rw (absent, rbac_job_template.read_by_id) refl

  -- No list of jobs, for nobody, shows a job of a template that is not found.
  all-unlisted :
      (form : Form) (q : PageQuery)
      → All (Shows (λ k. k.job.job_template_id ≢ j.job.job_template_id)) (all r user form q)
  unfolding all Shows
  all-unlisted form q =
      let readable =
        λ (k : JobDocument). rbac_job_template.read_by_id r.db user k.job.job_template_id in
      let other = λ (k : JobDocument). k.job.job_template_id ≢ j.job.job_template_id in
      let found = (r.select (asked form) (order_by form)).found in
      if-Events (Shows other) (not (r.select (asked form) (order_by form)).closes) _ _ (tt, tt)
        (send_page-Shows _ other no_page q (keep readable found) (λ n. tt)
          (All-weaken (λ k. readable k ≡ true) other (keep readable found)
            (λ k yes_ same. absurd (true_≢_false k yes_ same)) (keep-All readable found)))
    where
      true_≢_false :
          (k : JobDocument)
          → rbac_job_template.read_by_id r.db user k.job.job_template_id ≡ true
          → k.job.job_template_id ≡ j.job.job_template_id
          → ⊥
      true_≢_false k yes_ same = let no_ = unreadable in cc

  -- A stored job whose template id has not 12 bytes, and for which no template is found, is shown
  -- with its output to every user who asks for it by its id; and no list of jobs shows it, or
  -- another one with this template id, to anyone, not even to super users.
  pub std_out-unlisted :
      (id : String) (form : Form) (q : PageQuery)
      → r.is_object_id id ≡ true
      → r.find id ≡ some j
      → (r.size j.job.job_template_id == 12) ≡ false
      → (through (middleware r user "GET" id) one ≡ sent 200 (item j) ∷ [])
        × (through (middleware r user "GET" id) std_out ≡ sent 200 (item j.result_stdout) ∷ [])
        × All (Shows (λ k. k.job.job_template_id ≢ j.job.job_template_id)) (all r user form q)
  unfolding middleware one std_out through
  std_out-unlisted id form q valid found short = (
    rw valid (rw found (rw short refl)),
    rw valid (rw found (rw short refl)),
    all-unlisted form q,
  )
