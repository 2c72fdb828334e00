-- ===== src/Api/Template/Launch.antt =====
-- api/template.go, Launch: a job is made from a template and the request, stored, and
-- handed to the queue.
use tensor.Prelude.{
  ℕ, Bool, true, false, not, ◌&&◌, ◌||◌, Option, none, some, String, List, [], ◌∷◌, if◌then◌else◌,
  ◌==◌, string_eq, nat_eq,
}
use tensor.Models.{User, Credential, Inventory}
use tensor.Api.{
  Write, insert, sync, publish, Event, sent, item, abort_with_error, try, fire, Bound, bound,
  unbound, invalid_body,
}
use tensor.Api.Project.{ProjectData}
use tensor.Api.Template.{Extras, RunSettings, Prompts, TemplateData}

-- models/ansible/launch.go.
pub record LaunchRequest : Type 0 where
  pub limit : String
  pub extra_vars : Extras
  pub job_tags : String
  pub skip_tags : String
  pub job_type : String
  pub inventory_id : String
  pub machine_credential_id : String

-- The document of a new job.
pub record JobData : Type 0 where
  pub id : String
  pub name : String
  pub description : String
  pub launch_type : String
  pub cancel_flag : Bool
  pub status : String
  pub job_type : String
  pub run : RunSettings
  pub machine_credential_id : Option String
  pub inventory_id : String
  pub job_template_id : String
  pub project_id : String
  pub network_credential_id : Option String
  pub cloud_credential_id : Option String
  pub created_by_id : String
  pub modified_by_id : String
  pub created : ℕ
  pub modified : ℕ
  pub prompts : Prompts

-- `types.AnsibleJob`, the message to the queue; what is not set is `none`.
pub record RunnerJob : Type 0 where
  pub job : JobData
  pub template : TemplateData
  pub user : User
  pub network : Option Credential
  pub cloud : Option Credential
  pub inventory : Inventory
  pub machine : Option Credential
  pub project : ProjectData
  pub token : String
  pub previous_job : Option String

-- The documents that a launch writes: the job, the project that is to be updated, the message.
pub data Launched : Type 0 where
  stored : JobData → Launched
  fetched : ProjectData → Launched
  queued : RunnerJob → Launched

-- `size` is the number of bytes of an id, `token` what `jwt.NewAuthToken` gives, `is_missing` says that
-- a path does not exist, `sync_id` is the job that updates the project, and `encodes` whether the
-- message can be marshalled.
pub record Reads : Type 0 where
  pub find_credential : String → Option Credential
  pub find_inventory : String → Option Inventory
  pub find_project : String → Option ProjectData
  pub size : String → ℕ
  pub token : Option String
  pub is_missing : String → Bool
  pub sync_id : String
  pub encodes : RunnerJob → Bool
  pub new_id : String
  pub now : ℕ

abbrev pub Answer : Type 0
Answer = List (Event Launched JobData)

-- The job that is made from the template alone.
unfoldable pub new_job : Reads → User → TemplateData → JobData
new_job r user t = record {
  id = r.new_id;
  name = t.template.name;
  description = t.description;
  launch_type = "manual";
  cancel_flag = false;
  status = "new";
  job_type = "ansible_job";
  run = t.run;
  machine_credential_id = t.template.machine_credential_id;
  inventory_id = t.template.inventory_id;
  job_template_id = t.template.id;
  project_id = t.template.project_id;
  network_credential_id = t.template.network_credential_id;
  cloud_credential_id = t.template.cloud_credential_id;
  created_by_id = user.id;
  modified_by_id = user.id;
  created = r.now;
  modified = r.now;
  prompts = t.prompts;
}

unfoldable pub is_nonempty : Extras → Bool
is_nonempty [] = false
is_nonempty (x ∷ extras) = true

-- The job with what the template prompts for, as far as the message to the queue has it.
unfoldable pub prompted : TemplateData → LaunchRequest → JobData → JobData
prompted t req job = record job {
  job_type = if t.prompts.job_type then req.job_type else job.job_type;
  run = record job.run {
    extra_vars = if t.prompts.variables then req.extra_vars else job.run.extra_vars;
    limit = if t.prompts.limit then req.limit else job.run.limit;
    job_tags = if t.prompts.tags then req.job_tags else job.run.job_tags;
    skip_tags = if t.prompts.skip_tags then req.skip_tags else job.run.skip_tags;
  };
}

-- The job with the inventory and the credential of the request too. It is stored, but the message to
-- the queue has been made before.
unfoldable pub directed : TemplateData → LaunchRequest → JobData → JobData
directed t req job = record job {
  inventory_id = if t.prompts.inventory then req.inventory_id else job.inventory_id;
  machine_credential_id =
      if t.prompts.credential then some req.machine_credential_id else job.machine_credential_id;
}

-- A prompt, and whether the request answers it.
unfoldable pub require : {D A : Type 0} → Bool → Bool → String → List (Event D A) → List (Event D A)
require asked given text rest = if asked && not given then abort_with_error 400 text else rest

unfoldable pub check_prompts : Reads → TemplateData → LaunchRequest → Answer → Answer
unfolding require is_nonempty
check_prompts r t req rest =
    require t.prompts.variables (is_nonempty req.extra_vars) "Additional variables required." (
      require t.prompts.limit (not (req.limit == "")) "Limit required." (
        require t.prompts.tags (not (req.job_tags == "")) "Job tags required." (
          require t.prompts.skip_tags (not (req.skip_tags == "")) "Skip tags required." (
            require t.prompts.job_type (not (req.job_type == "")) "Job type required." (
              require t.prompts.inventory (r.size req.inventory_id == 24) "Inventory required." (
                require t.prompts.credential (r.size req.machine_credential_id == 24)
                  "Credential required." rest))))))

-- A credential that the job names is read.
unfoldable pub with_credential :
    {D A : Type 0}
    → (String → Option Credential)
    → Option String
    → String
    → (Option Credential → List (Event D A))
    → List (Event D A)
with_credential find none failure rest = rest none
with_credential find (some id) failure rest = elim (find id) [
  | none ↦ abort_with_error 504 failure
  | some credential ↦ rest (some credential)
]

-- The message goes to the queue; its error is not looked at.
unfoldable pub enqueue : Reads → (Write Launched → Bool) → JobData → RunnerJob → Answer
enqueue r works job runner =
    if not (r.encodes runner)
    then abort_with_error 504 "Error while queueing job"
    else fire works (publish (queued runner)) (sent 201 (item job) ∷ [])

-- The job is stored, and the project updated where it must be, before the message goes to the queue.
unfoldable pub store_job : Reads → (Write Launched → Bool) → JobData → RunnerJob → Answer
unfolding enqueue
store_job r works job runner =
    try works (insert (stored job)) (abort_with_error 504 "Error while creating job") (
      if r.is_missing runner.project.local_path || runner.project.scm.update_on_launch
      then try works (sync (fetched runner.project))
          (abort_with_error 504 "Error while creating update job")
          (enqueue r works job (record runner { previous_job = some r.sync_id }))
      else enqueue r works job runner)

-- What the message needs is read. `copied` is the job as the message has it.
unfoldable pub collect :
    Reads → (Write Launched → Bool) → User → TemplateData → JobData → JobData → Answer
unfolding with_credential store_job
collect r works user t copied job =
    with_credential r.find_credential job.network_credential_id
      "Error while getting network credential"
      (λ network.
        with_credential r.find_credential job.cloud_credential_id
          "Error while getting cloud credential"
          (λ cloud. elim (r.find_inventory job.inventory_id) [
            | none ↦ abort_with_error 504 "Error while getting inventory"
            | some inventory ↦
                with_credential r.find_credential job.machine_credential_id
                  "Error while getting machine credential"
                  (λ machine. elim (r.find_project job.project_id) [
                    | none ↦ abort_with_error 504 "Error while getting project"
                    | some project ↦ elim r.token [
                      | none ↦ abort_with_error 504 "Error while getting token"
                      | some token ↦ store_job r works job (record {
                        job = copied;
                        template = t;
                        user = user;
                        network = network;
                        cloud = cloud;
                        inventory = inventory;
                        machine = machine;
                        project = project;
                        token = token;
                        previous_job = none;
                      })
                    ]
                  ])
          ]))

-- A missing body counts as an empty request.
unfoldable pub launch :
    Reads → (Write Launched → Bool) → User → Bound LaunchRequest → TemplateData → Answer
unfolding new_job prompted directed check_prompts collect
launch r works user (unbound emsgs) t = invalid_body emsgs
launch r works user (bound req) t =
    let copied = prompted t req (new_job r user t) in
    check_prompts r t req (collect r works user t copied (directed t req copied))
