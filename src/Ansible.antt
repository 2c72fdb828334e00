-- ===== src/Ansible.antt =====
-- exec/ansible/ansible.go: the command line and the environment of a job, and what is recorded of
-- them (buildParams, getCmd). `encode` is `json.Marshal`, on the extra variables of the job (`V`) or
-- on the map that the server adds. The paths with their random names are part of the job. The
-- directories that are made, the logging and the removal afterwards are left out.
pub mod Command
pub mod Ends
pub mod Life
pub mod Moves
pub mod Phases
pub mod Recorded
pub mod Settled
pub mod Success
use tensor.Prelude.{
  ℕ, ◌+◌, ◌/◌, ◌%◌, Bool, true, false, not, ◌&&◌, Option, none, some, List, [], ◌∷◌, ◌++◌,
  if◌then◌else◌, ltb, length, ◌==◌, nat_eq,
}
use tensor.Prelude.Text.{Text, text_eq, codes}
use tensor.Cloud.{CloudCredential, Files, returned, panicked, get_cloud_credential}

-- The fields of the job (models/ansible/job.go) that are read here; `V` are the extra variables.
pub record Job (V : Type 0) : Type 0 where
  pub id : Text
  pub job_type : Text
  pub forks : ℕ
  pub limit : Text
  pub verbosity : ℕ
  pub extra_vars : V
  pub job_tags : Text
  pub skip_tags : Text
  pub force_handlers : Bool
  pub start_at_task : Text
  pub created_by_id : Text
  pub launch_type : Text
  pub become_enabled : Bool
  pub playbook : Text

-- The fields of the machine credential that are read here.
pub record Machine : Type 0 where
  pub kind : Text
  pub username : Text
  pub domain : Text
  pub password : Text
  pub become_method : Text
  pub become_username : Text
  pub become_password : Text

pub record JobPaths : Type 0 where
  pub etc : Text
  pub tmp : Text
  pub var_lib : Text
  pub var_lib_job_status : Text
  pub var_lib_projects : Text
  pub var_log : Text
  pub tmp_rand : Text

pub record AnsibleJob (V : Type 0) : Type 0 where
  pub job : Job V
  pub template_id : Text
  pub template_name : Text
  pub machine : Machine
  pub is_cloud : Bool
  pub cloud : CloudCredential
  pub inventory_id : Text
  pub project_id : Text
  pub token : Text
  pub paths : JobPaths

-- The configuration of the server; `join` is `filepath.Join` and `home` the variable HOME.
pub record Settings : Type 0 where
  pub projects_home : Text
  pub port : Text
  pub home : Text
  pub join : Text → Text → Text

-- What is outside the file: `size` and the encoder of extra variables, the encoder of the map of
-- texts, and the decryption of a stored secret, for secrets that `Decipher` (tensor.Cipher) opens
-- without a panic. `none` is an error.
pub record Encoder (V : Type 0) : Type 0 where
  pub size : V → ℕ
  pub encode : V → Option Text
  pub encode_extras : List (Text × Text) → Option Text
  pub decipher : Text → Text

-- An encoding that failed is logged, and counts as empty.
unfoldable pub or_empty : Option Text → Text
or_empty none = []
or_empty (some encoded) = encoded

-- Go's `string(n)` of a byte: the character with that code, in UTF-8.
unfoldable pub character : ℕ → Text
character n = if ltb n 128 then n ∷ [] else (192 + n / 64) ∷ (128 + n % 64) ∷ []

unfoldable pub is_set : Text → Bool
is_set s = ltb 0 (length s)

-- `params` are appended where the condition holds.
unfoldable pub when : Bool → List Text → List Text
when true params = params
when false params = []

unfoldable pub verbosity_flag : ℕ → List Text
verbosity_flag v =
    if v == 1
    then codes "-v" ∷ []
    else if v == 2
    then codes "-vv" ∷ []
    else if v == 3
    then codes "-vvv" ∷ []
    else if v == 4
    then codes "-vvvv" ∷ []
    else if v == 5
    then codes "-vvvv" ∷ []
    else []

unfoldable pub extras : {V : Type 0} → AnsibleJob V → List (Text × Text)
extras j =
    (codes "tensor_job_template_name", j.template_name)
    ∷ (codes "tensor_job_id", j.job.id)
    ∷ (codes "tensor_user_id", j.job.created_by_id)
    ∷ (codes "tensor_job_template_id", j.template_id)
    ∷ (codes "tensor_user_name", codes "admin")
    ∷ (codes "tensor_job_launch_type", j.job.launch_type)
    ∷ []

unfoldable pub build_params : {V : Type 0} → Encoder V → AnsibleJob V → List Text → List Text
unfolding or_empty character is_set when verbosity_flag extras
build_params world j params =
    params
    ++ when (j.job.job_type == codes "check") (codes "--check" ∷ [])
    ++ when (not (j.job.forks == 0)) (codes "-f" ∷ character j.job.forks ∷ [])
    ++ when (is_set j.job.limit) (codes "-l" ∷ j.job.limit ∷ [])
    ++ verbosity_flag j.job.verbosity
    ++ when (ltb 0 (world.size j.job.extra_vars))
        (codes "-e" ∷ or_empty (world.encode j.job.extra_vars) ∷ [])
    ++ when (is_set j.job.job_tags) (codes "-t" ∷ j.job.job_tags ∷ [])
    ++ when (is_set j.job.skip_tags) ((codes "--skip-tags=" ++ j.job.skip_tags) ∷ [])
    ++ when j.job.force_handlers (codes "--force-handlers" ∷ [])
    ++ when (is_set j.job.start_at_task) ((codes "--start-at-task=" ++ j.job.start_at_task) ∷ [])
    ++ codes "-e" ∷ or_empty (world.encode_extras (extras j)) ∷ []

-- The user name, with the domain if there is one.
unfoldable pub login : Machine → Text
unfolding is_set
login m = if is_set m.domain then m.username ++ codes "@" ++ m.domain else m.username

-- What the machine credential adds to the public parameters.
unfoldable pub user_params : Machine → List Text
unfolding is_set when login
user_params m = when (is_set m.username) (codes "-u" ∷ login m ∷ [])

-- What the machine credential adds to the parameters that are hidden from the output.
unfoldable pub user_secure : {V : Type 0} → Encoder V → Machine → List Text
unfolding is_set when
user_secure world m =
    when (is_set m.username && is_set m.password && m.kind == codes "ssh")
      (codes "-e" ∷ (codes "ansible_ssh_pass=" ++ world.decipher m.password) ∷ [])

-- Whether a Kerberos ticket is acquired.
unfoldable pub asks_ticket : Machine → Bool
unfolding is_set
asks_ticket m = is_set m.username && is_set m.password && m.kind == codes "windows"

unfoldable pub become_params : Bool → Machine → List Text
unfolding is_set when
become_params enabled m = when enabled (
    codes "-b" ∷ when (is_set m.become_method) ((codes "--become-method=" ++ m.become_method) ∷ [])
    ++ when (is_set m.become_username) ((codes "--become-user=" ++ m.become_username) ∷ []))

unfoldable pub become_secure : {V : Type 0} → Encoder V → Bool → Machine → List Text
unfolding is_set when
become_secure world enabled m = when (enabled && is_set m.become_password) (
    codes "-e"
    ∷ (codes "'ansible_become_pass=" ++ world.decipher m.become_password ++ codes "'")
    ∷ [])
