-- ===== src/Api/Template/Launched.antt =====
-- What a launch does: who may launch, what is written in which order, and what can never be launched.
use tensor.Prelude.{
  ◌≡◌, refl, ◌⊎◌, inl, inr, Bool, true, false, not, ◌||◌, Option, none, some, String, List, [], ◌∷◌,
  All, if◌then◌else◌, ◌==◌, string_eq, nat_eq, Bool-cases,
}
use tensor.Models.{User, Credential}
use tensor.Api.{abort_with_error, Write, insert, sync, publish, did, effects, bound}
use tensor.Api.Project.{ProjectData}
use tensor.Api.Template.{TemplateData}
use tensor.Api.Template.Launch.{
  LaunchRequest, JobData, RunnerJob, Launched, stored, fetched, queued, Reads, Answer, new_job,
  prompted, directed, require, check_prompts, is_nonempty, with_credential, enqueue, store_job,
  collect, launch,
}

-- A write after the job was stored: an update of a project, or a message with the job `copied`.
abbrev pub Follows : JobData → Write Launched → Type 0
Follows copied w =
    ((p : ProjectData) × (w ≡ sync (fetched p)))
    ⊎ ((runner : RunnerJob) × (w ≡ publish (queued runner)) × (runner.job ≡ copied))

-- Nothing was written; or first the job was stored.
abbrev pub Stores : (job copied : JobData) → List (Write Launched) → Type 0
Stores job copied ws =
    (ws ≡ [])
    ⊎ ((more : List (Write Launched)) × (ws ≡ insert (stored job) ∷ more)
        × All (Follows copied) more)

module _ (r : Reads) (works : Write Launched → Bool) where
  enqueue-effects :
      (job : JobData) (runner : RunnerJob)
      → All (Follows runner.job) (effects (enqueue r works job runner))
  unfolding enqueue effects
  enqueue-effects job runner = elim (Bool-cases (r.encodes runner)) [
    | inl good ↦ elim (Bool-cases (works (publish (queued runner)))) [
      | inl sent_ ↦ rw good (rw sent_ (inr (runner, refl, refl), tt))
      | inr lost ↦ rw good (rw lost tt)
    ]
    | inr bad ↦ rw bad tt
  ]

  fetch-effects :
      (runner : RunnerJob) (p : ProjectData) (b : Bool) (failure rest : Answer)
      → effects failure ≡ []
      → All (Follows runner.job) (effects rest)
      → All
          (Follows runner.job)
          (effects (did (sync (fetched p)) b ∷ (if b then rest else failure)))
  unfolding effects
  fetch-effects runner p true failure rest e h = (inl (p, refl), h)
  fetch-effects runner p false failure rest e h = rw e tt

  either-effects :
      (copied : JobData) (b : Bool) (xs ys : Answer)
      → All (Follows copied) (effects xs)
      → All (Follows copied) (effects ys)
      → All (Follows copied) (effects (if b then xs else ys))
  either-effects copied true xs ys h k = h
  either-effects copied false xs ys h k = k

  stored-effects :
      (job copied : JobData) (b : Bool) (failure rest : Answer)
      → effects failure ≡ []
      → All (Follows copied) (effects rest)
      → Stores job copied (effects (did (insert (stored job)) b ∷ (if b then rest else failure)))
  unfolding effects
  stored-effects job copied true failure rest e h = inr (effects rest, refl, h)
  stored-effects job copied false failure rest e h = inl e

  store_job-effects :
      (job : JobData) (runner : RunnerJob)
      → Stores job runner.job (effects (store_job r works job runner))
  unfolding store_job effects
  store_job-effects job runner =
      let again = record runner { previous_job = some r.sync_id } in
      stored-effects job runner.job (works (insert (stored job))) _ _ refl (
        either-effects runner.job
          (r.is_missing runner.project.local_path || runner.project.scm.update_on_launch) _ _
          (fetch-effects runner runner.project (works (sync (fetched runner.project)))
            (abort_with_error 504 "Error while creating update job") (enqueue r works job again)
            refl (enqueue-effects job again))
          (enqueue-effects job runner))

  -- A step that reads something, or ends with an answer and without a write.
  read-effects :
      {X : Type 0} (job copied : JobData) (o : Option X) (failure : Answer) (rest : X → Answer)
      → effects failure ≡ []
      → ((x : X) → Stores job copied (effects (rest x)))
      → Stores job copied (effects (elim o as (λ _. Answer) [ none ↦ failure | some x ↦ rest x ]))
  read-effects job copied none failure rest e h = inl e
  read-effects job copied (some x) failure rest e h = h x

  credential-effects :
      (job copied : JobData) (id : Option String) (failure : String)
      (rest : Option Credential → Answer)
      → ((c : Option Credential) → Stores job copied (effects (rest c)))
      → Stores job copied (effects (with_credential r.find_credential id failure rest))
  unfolding with_credential effects
  credential-effects job copied none failure rest h = h none
  credential-effects job copied (some id) failure rest h =
      read-effects job copied (r.find_credential id) _ (λ c. rest (some c)) refl (λ c. h (some c))

  collect-effects :
      (user : User) (t : TemplateData) (copied job : JobData)
      → Stores job copied (effects (collect r works user t copied job))
  unfolding collect effects
  collect-effects user t copied job =
      credential-effects job copied job.network_credential_id _ _ (λ network.
        credential-effects job copied job.cloud_credential_id _ _ (λ cloud.
          read-effects job copied (r.find_inventory job.inventory_id) _ _ refl (λ inventory.
            credential-effects job copied job.machine_credential_id _ _ (λ machine.
              read-effects job copied (r.find_project job.project_id) _ _ refl (λ project.
                read-effects job copied r.token _ _ refl (λ token. store_job-effects job _))))))

  require-effects :
      (job copied : JobData) (asked given : Bool) (text : String) (rest : Answer)
      → Stores job copied (effects rest)
      → Stores job copied (effects (require asked given text rest))
  unfolding require effects
  require-effects job copied true true text rest h = h
  require-effects job copied true false text rest h = inl refl
  require-effects job copied false given text rest h = h

  check_prompts-effects :
      (job copied : JobData) (t : TemplateData) (req : LaunchRequest) (rest : Answer)
      → Stores job copied (effects rest)
      → Stores job copied (effects (check_prompts r t req rest))
  unfolding check_prompts
  check_prompts-effects job copied t req rest h =
      let p = t.prompts in
      let step = require-effects job copied in
      step p.variables (is_nonempty req.extra_vars) _ _ (
        step p.limit (not (req.limit == "")) _ _ (
          step p.tags (not (req.job_tags == "")) _ _ (
            step p.skip_tags (not (req.skip_tags == "")) _ _ (
              step p.job_type (not (req.job_type == "")) _ _ (
                step p.inventory (r.size req.inventory_id == 24) _ _
                  (step p.credential (r.size req.machine_credential_id == 24) _ _ h))))))

  -- Whatever the request: a launch writes nothing; or it first stores the job, as the template and
  -- the request make it, and after it come updates of projects and messages to the queue only. A
  -- message has the job with the answers to the prompts, but for those to the prompts for the
  -- inventory and the machine credential.
  pub launch-effects :
      (user : User) (t : TemplateData) (req : LaunchRequest)
      → Stores
          (directed t req (prompted t req (new_job r user t)))
          (prompted t req (new_job r user t))
          (effects (launch r works user (bound req) t))
  unfolding launch
  launch-effects user t req =
      let copied = prompted t req (new_job r user t) in
      let job = directed t req copied in
      check_prompts-effects job copied t req _ (collect-effects user t copied job)
