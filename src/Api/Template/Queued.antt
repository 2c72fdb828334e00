-- ===== src/Api/Template/Queued.antt =====
-- Which launches reach the queue.
use tensor.Prelude.{
  ◌≡◌, refl, ap, ◌∙◌, ◌⊎◌, inl, inr, Bool, true, false, not, ◌||◌, Option, none, some, String, [],
  ◌∷◌, Some, if◌then◌else◌, ◌==◌, string_eq, nat_eq, Option-cases, ◌≢◌,
}
use tensor.Models.{User, Credential, Inventory}
use tensor.Api.{try, Write, insert, sync, publish, did, effects, statuses, bound, through}
use tensor.Api.Project.{ProjectData}
use tensor.Api.Template as template_api
use tensor.Api.Template.{TemplateData, Prompts}
use tensor.Api.Template.Launch.{
  LaunchRequest, JobData, RunnerJob, Launched, stored, fetched, queued, Reads, Answer, new_job,
  prompted, directed, require, check_prompts, is_nonempty, with_credential, enqueue, store_job,
  collect, launch,
}

-- A message reached the queue, and the only response says that a job was made.
abbrev pub IsDelivered : Answer → Type 0
IsDelivered events =
    ((runner : RunnerJob) × Some (λ w. w ≡ publish (queued runner)) (effects events))
    × (statuses events ≡ 201 ∷ [])

-- Nothing was written, and the only response says that the request is bad.
abbrev pub IsRejected : Answer → Type 0
IsRejected events = (effects events ≡ []) × (statuses events ≡ 400 ∷ [])

-- A template that prompts for nothing.
abbrev pub no_prompts : Prompts
no_prompts = record {
  variables = false;
  limit = false;
  inventory = false;
  credential = false;
  job_type = false;
  tags = false;
  skip_tags = false;
}

module _ (r : Reads) where
  require-IsRejected :
      (asked given : Bool) (text : String) (rest : Answer)
      → IsRejected rest
      → IsRejected (require asked given text rest)
  unfolding require effects statuses
  require-IsRejected true true text rest h = h
  require-IsRejected true false text rest h = (refl, refl)
  require-IsRejected false given text rest h = h

  refuse-IsRejected :
      (asked given : Bool) (text : String) (rest : Answer)
      → asked ≡ true
      → given ≡ false
      → IsRejected (require asked given text rest)
  unfolding require effects statuses
  refuse-IsRejected true true text rest a g = absurd cc
  refuse-IsRejected true false text rest a g = (refl, refl)
  refuse-IsRejected false given text rest a g = absurd cc

  short : (id : String) → (r.size id ≡ 12) ⊎ (r.size id ≡ 0) → (r.size id == 24) ≡ false
  short id (inl e) = rw e refl
  short id (inr e) = rw e refl

  ids-IsRejected :
      (t : TemplateData) (req : LaunchRequest) (rest : Answer)
      → ((id : String) → (r.size id ≡ 12) ⊎ (r.size id ≡ 0))
      → (t.prompts.inventory ≡ true) ⊎ (t.prompts.credential ≡ true)
      → IsRejected (
          require t.prompts.inventory (r.size req.inventory_id == 24) "Inventory required." (
            require t.prompts.credential
              (r.size req.machine_credential_id == 24)
              "Credential required."
              rest))
  ids-IsRejected t req rest sizes (inl asks) =
      refuse-IsRejected _ (r.size req.inventory_id == 24) _ _ asks
        (short req.inventory_id (sizes req.inventory_id))
  ids-IsRejected t req rest sizes (inr asks) =
      require-IsRejected _ (r.size req.inventory_id == 24) _ _ (
        refuse-IsRejected _ (r.size req.machine_credential_id == 24) _ rest asks
          (short req.machine_credential_id (sizes req.machine_credential_id)))

  -- Where ids have 12 bytes, or none if they are missing: a launch of a template that prompts for
  -- the inventory or for the machine credential writes nothing and is answered with 400 alone,
  -- whatever the request has.
  pub launch-IsRejected :
      (works : Write Launched → Bool) (user : User) (t : TemplateData) (req : LaunchRequest)
      → ((id : String) → (r.size id ≡ 12) ⊎ (r.size id ≡ 0))
      → (t.prompts.inventory ≡ true) ⊎ (t.prompts.credential ≡ true)
      → IsRejected (launch r works user (bound req) t)
  unfolding launch check_prompts
  launch-IsRejected works user t req sizes asks =
      let p = t.prompts in
      let pass = require-IsRejected in
      pass p.variables (is_nonempty req.extra_vars) _ _ (
        pass p.limit (not (req.limit == "")) _ _ (
          pass p.tags (not (req.job_tags == "")) _ _ (
            pass p.skip_tags (not (req.skip_tags == "")) _ _ (
              pass p.job_type (not (req.job_type == "")) _ _ (ids-IsRejected t req _ sizes asks)))))

did-IsDelivered :
    (w : Write Launched) (rest : Answer) → IsDelivered rest → IsDelivered (did w true ∷ rest)
unfolding effects statuses
did-IsDelivered w rest ((runner, h), e) = ((runner, inr h), e)

unprompted :
    (r : Reads) (t : TemplateData) (req : LaunchRequest) (rest : Answer)
    → t.prompts ≡ no_prompts
    → check_prompts r t req rest ≡ rest
unfolding check_prompts require
unprompted r t req rest none_asked = rw none_asked refl

if-IsDelivered :
    (b : Bool) (xs ys : Answer)
    → IsDelivered xs
    → IsDelivered ys
    → IsDelivered (if b then xs else ys)
if-IsDelivered true xs ys h k = h
if-IsDelivered false xs ys h k = k

module _ (r : Reads) (works : Write Launched → Bool)
    (all_work : (w : Write Launched) → works w ≡ true)
    (encoded : (runner : RunnerJob) → r.encodes runner ≡ true) where
  try-IsDelivered :
      (w : Write Launched) (failure rest : Answer)
      → IsDelivered rest
      → IsDelivered (try works w failure rest)
  try-IsDelivered w failure rest h = rw (all_work w) (did-IsDelivered w rest h)

  enqueue-IsDelivered :
      (job : JobData) (runner : RunnerJob) → IsDelivered (enqueue r works job runner)
  unfolding enqueue effects statuses
  enqueue-IsDelivered job runner =
      rw (encoded runner) (rw (all_work (publish (queued runner))) ((runner, inl refl), refl))

  store_job-IsDelivered :
      (job : JobData) (runner : RunnerJob) → IsDelivered (store_job r works job runner)
  unfolding store_job
  store_job-IsDelivered job runner =
      let again = record runner { previous_job = some r.sync_id } in
      try-IsDelivered (insert (stored job)) _ _ (
        if-IsDelivered
          (r.is_missing runner.project.local_path || runner.project.scm.update_on_launch) _ _
          (try-IsDelivered (sync (fetched runner.project)) _ _ (enqueue-IsDelivered job again))
          (enqueue-IsDelivered job runner))

  credential-IsDelivered :
      (id : Option String) (failure : String) (rest : Option Credential → Answer)
      → ((id : String) → r.find_credential id ≢ none)
      → ((c : Option Credential) → IsDelivered (rest c))
      → IsDelivered (with_credential r.find_credential id failure rest)
  unfolding with_credential
  credential-IsDelivered none failure rest found h = h none
  credential-IsDelivered (some id) failure rest found h =
      elim (Option-cases (r.find_credential id)) [
        | inl absent ↦ absurd (found id absent)
        | inr (c, e) ↦ rw (e, with_credential) (h (some c))
      ]

  read-IsDelivered :
      {X : Type 0} (o : Option X) (x : X) (failure : Answer) (rest : X → Answer)
      → o ≡ some x
      → IsDelivered (rest x)
      → IsDelivered (elim o as (λ _. Answer) [ none ↦ failure | some x ↦ rest x ])
  read-IsDelivered o x failure rest e h = rw e h

  collect-IsDelivered :
      (user : User) (t : TemplateData) (copied job : JobData) (inventory : Inventory)
      (project : ProjectData) (token : String)
      → ((id : String) → r.find_credential id ≢ none)
      → r.find_inventory job.inventory_id ≡ some inventory
      → r.find_project job.project_id ≡ some project
      → r.token ≡ some token
      → IsDelivered (collect r works user t copied job)
  unfolding collect
  collect-IsDelivered user t copied job inventory project token found inventory_there project_there
        token_there =
      credential-IsDelivered job.network_credential_id _ _ found (λ network.
        credential-IsDelivered job.cloud_credential_id _ _ found (λ cloud.
          read-IsDelivered (r.find_inventory job.inventory_id) inventory _ _ inventory_there (
            credential-IsDelivered job.machine_credential_id _ _ found (λ machine.
              read-IsDelivered (r.find_project job.project_id) project _ _ project_there
                (read-IsDelivered r.token token _ _ token_there (store_job-IsDelivered job _))))))

  directed-same :
      (user : User) (t : TemplateData) (req : LaunchRequest)
      → t.prompts ≡ no_prompts
      → ((directed t req (prompted t req (new_job r user t))).inventory_id
          ≡ t.template.inventory_id)
        × ((directed t req (prompted t req (new_job r user t))).project_id ≡ t.template.project_id)
  unfolding directed prompted new_job
  directed-same user t req none_asked = rw none_asked (refl, refl)

  -- Whoever sends it, with any request: the launch of a stored template that prompts for nothing
  -- reaches the queue, and is answered with 201 alone, where all its documents can be read, a token
  -- is given, the message can be marshalled and all writes succeed. The middleware asks for no
  -- right.
  pub launch-IsDelivered :
      (templates : template_api.Reads) (user : User) (id : String) (t : TemplateData)
      (req : LaunchRequest) (inventory : Inventory) (project : ProjectData) (token : String)
      → templates.is_object_id id ≡ true
      → templates.find id ≡ some t
      → t.prompts ≡ no_prompts
      → ((id : String) → r.find_credential id ≢ none)
      → r.find_inventory t.template.inventory_id ≡ some inventory
      → r.find_project t.template.project_id ≡ some project
      → r.token ≡ some token
      → IsDelivered (
          through
            (template_api.middleware templates user "POST" id)
            (launch r works user (bound req)))
  unfolding template_api.middleware through launch
  launch-IsDelivered templates user id t req inventory project token valid there none_asked
        credentials inventory_there project_there token_there =
      rw valid (
        rw there (
          rw (unprompted r t req _ none_asked) (
            collect-IsDelivered user t _ (directed t req (prompted t req (new_job r user t)))
              inventory project token credentials
              (ap r.find_inventory (directed-same user t req none_asked).0 ∙ inventory_there)
              (ap r.find_project (directed-same user t req none_asked).1 ∙ project_there)
              token_there)))
