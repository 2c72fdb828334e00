-- ===== src/Api/TerraformTemplate/Launch.antt =====
-- api/terraformtemplate.go, Launch and LaunchInfo: a job is made from a template and the request,
-- stored, and handed to the queue.
use tensor.Prelude.{
  ℕ, Bool, true, false, not, ◌&&◌, ◌||◌, Option, none, some, String, List, [], ◌∷◌, if◌then◌else◌,
  ◌==◌, string_eq,
}
use tensor.Models.{User, Credential}
use tensor.Api.{
  Write, insert, sync, publish, Event, sent, item, errors, abort_with_error, try, fire, Bound,
  bound, unbound, invalid_body,
}
use tensor.Api.Project.{ProjectData}
use tensor.Api.Template.{Extras}
use tensor.Api.Template.Launch.{is_nonempty, require, with_credential}
use tensor.Api.TerraformTemplate.{Scope, Prompts, TemplateData}

-- models/terraform/launch.go.
pub record LaunchRequest : Type 0 where
  pub vars : Extras
  pub job_type : String
  pub machine_credential_id : Option String

-- The document of a new job.
pub record JobData : Type 0 where
  pub id : String
  pub name : String
  pub description : String
  pub launch_type : String
  pub cancel_flag : Bool
  pub status : String
  pub job_type : String
  pub vars : Extras
  pub scope : Scope
  pub machine_credential_id : Option String
  pub job_template_id : String
  pub project_id : String
  pub network_credential_id : Option String
  pub cloud_credential_id : Option String
  pub created_by_id : String
  pub modified_by_id : String
  pub created : ℕ
  pub modified : ℕ
  pub prompts : Prompts
  pub allow_simultaneous : Bool

-- `types.TerraformJob`, the message to the queue; what is not set is `none`.
pub record RunnerJob : Type 0 where
  pub job : JobData
  pub template : TemplateData
  pub user : User
  pub network : Option Credential
  pub cloud : Option Credential
  pub machine : Option Credential
  pub project : ProjectData
  pub token : String
  pub previous_job : Option String

-- The documents that a launch writes: the job, the project that is to be updated, the message.
pub data Launched : Type 0 where
  stored : JobData → Launched
  fetched : ProjectData → Launched
  queued : RunnerJob → Launched

pub record Reads : Type 0 where
  pub find_credential : String → Option Credential
  pub find_project : String → Option ProjectData
  pub token : Option String
  pub is_missing : String → Bool
  pub sync_id : String
  pub encodes : RunnerJob → Bool
  pub new_id : String
  pub now : ℕ

abbrev pub Answer : Type 0
Answer = List (Event Launched JobData)

-- The job with what the template prompts for, as far as the message to the queue has it.
unfoldable pub prompted : Reads → User → TemplateData → LaunchRequest → JobData
prompted r user t req = record {
  id = r.new_id;
  name = t.template.name;
  description = t.description;
  launch_type = "manual";
  cancel_flag = false;
  status = "new";
  job_type = if t.prompts.job_type then req.job_type else t.job_type;
  vars = if t.prompts.variables then req.vars else t.vars;
  scope = t.scope;
  machine_credential_id = t.template.machine_credential_id;
  job_template_id = t.template.id;
  project_id = t.template.project_id;
  network_credential_id = t.template.network_credential_id;
  cloud_credential_id = t.template.cloud_credential_id;
  created_by_id = user.id;
  modified_by_id = user.id;
  created = r.now;
  modified = r.now;
  prompts = t.prompts;
  allow_simultaneous = t.allow_simultaneous;
}

-- The job with the credential of the request too. It is stored, but the message to the queue has been
-- made before.
unfoldable pub directed : TemplateData → LaunchRequest → JobData → JobData
directed t req job = record job {
  machine_credential_id =
      if t.prompts.credential then req.machine_credential_id else job.machine_credential_id;
}

unfoldable pub is_given : {A : Type 0} → Option A → Bool
is_given none = false
is_given (some a) = true

unfoldable pub check_prompts : TemplateData → LaunchRequest → Answer → Answer
unfolding require is_nonempty is_given
check_prompts t req rest =
    require t.prompts.variables (is_nonempty req.vars) "Additional variables required." (
      require t.prompts.job_type (not (req.job_type == "")) "Job type required." (
        if t.prompts.credential && not (is_given req.machine_credential_id)
        then sent 400 (errors ("Credential required" ∷ [])) ∷ []
        else rest))

-- The message goes to the queue; its error is not looked at.
unfoldable pub enqueue : Reads → (Write Launched → Bool) → JobData → RunnerJob → Answer
enqueue r works job runner =
    if not (r.encodes runner)
    then abort_with_error 504 "Error while queueing job"
    else fire works (publish (queued runner)) (sent 201 (item job) ∷ [])

-- The job is stored, and the project updated where it must be, before the message goes to the queue.
unfoldable pub store_job : Reads → (Write Launched → Bool) → JobData → RunnerJob → Answer
unfolding enqueue
store_job r works job runner =
    try works (insert (stored job)) (abort_with_error 504 "Error while creating job") (
      if r.is_missing runner.project.local_path || runner.project.scm.update_on_launch
      then try works (sync (fetched runner.project))
          (abort_with_error 504 "Error while creating update job")
          (enqueue r works job (record runner { previous_job = some r.sync_id }))
      else enqueue r works job runner)

-- What the message needs is read. `copied` is the job as the message has it.
unfoldable pub collect :
    Reads → (Write Launched → Bool) → User → TemplateData → JobData → JobData → Answer
unfolding with_credential store_job
collect r works user t copied job =
    with_credential r.find_credential job.network_credential_id
      "Error while getting network credential"
      (λ network.
        with_credential r.find_credential job.cloud_credential_id
          "Error while getting cloud credential"
          (λ cloud.
            with_credential r.find_credential job.machine_credential_id
              "Error while getting machine credential"
              (λ machine. elim (r.find_project job.project_id) [
                | none ↦ abort_with_error 504 "Error while getting project"
                | some project ↦ elim r.token [
                  | none ↦ abort_with_error 504 "Error while getting token"
                  | some token ↦ store_job r works job (record {
                    job = copied;
                    template = t;
                    user = user;
                    network = network;
                    cloud = cloud;
                    machine = machine;
                    project = project;
                    token = token;
                    previous_job = none;
                  })
                ]
              ])))

-- A missing body counts as an empty request.
unfoldable pub launch :
    Reads → (Write Launched → Bool) → User → Bound LaunchRequest → TemplateData → Answer
unfolding prompted directed check_prompts collect
launch r works user (unbound emsgs) t = invalid_body emsgs
launch r works user (bound req) t =
    let copied = prompted r user t req in
    check_prompts t req (collect r works user t copied (directed t req copied))

-- What LaunchInfo tells, but for the fields that are empty or repeat the template.
pub record LaunchInfo : Type 0 where
  pub asks_variables : Bool
  pub asks_job_type : Bool
  pub asks_credential : Bool
  pub credential : Option (String × String)
  pub needs_credential : Bool

unfoldable pub launch_info : Reads → TemplateData → List (Event Launched LaunchInfo)
launch_info r t =
    let credential : Option Credential = elim t.template.machine_credential_id [
      | none ↦ none
      | some id ↦ r.find_credential id
    ] in
    sent 200 (
      item (record {
        asks_variables = t.prompts.variables;
        asks_job_type = t.prompts.job_type;
        asks_credential = t.prompts.credential;
        credential = elim credential [ none ↦ none | some c ↦ some (c.id, c.name) ];
        needs_credential = elim credential [ none ↦ true | some c ↦ false ];
      }))
    ∷ []
