-- ===== src/Examples/Jobs.antt =====
-- The commands of Ansible jobs on concrete inputs.
use tensor.Prelude.{◌≡◌, refl, ◌⊎◌, ℕ, Bool, true, false, none, some, List, [], ◌∷◌, ◌++◌}
use tensor.Prelude.Text.{Text, codes}
use tensor.Cloud.{aws, rax, nothing_given, get_cloud_credential}
use tensor.Cloud.Laws.{IsSupported}
use tensor.Ansible.{
  Job, Machine, JobPaths, AnsibleJob, Settings, Encoder, or_empty, character, is_set, when,
  verbosity_flag, build_params, login, user_params, user_secure, asks_ticket, become_params,
  become_secure,
}
use tensor.Ansible.Command.{
  secure_params, variables, Command, made, command, hand_over, with_cloud, get_cmd,
}
use tensor.Ansible.Recorded.{with_secrets, get_cmd-with_secrets, get_cmd-env}
use tensor.Examples.Clouds.{credential_of, opened, all_files}

abbrev settings : Settings
settings = record {
  projects_home = codes "/p";
  port = codes ":8010";
  home = codes "/root";
  join = λ a b. a ++ codes "/" ++ b;
}

-- Extra variables are a number, and encode to nothing but their presence.
abbrev world : Encoder ℕ
world = record {
  size = λ n. n;
  encode = λ n. some (codes "{}");
  encode_extras = λ pairs. some (codes "{..}");
  decipher = opened;
}

abbrev paths : JobPaths
paths = record {
  etc = codes "1";
  tmp = codes "2";
  var_lib = codes "3";
  var_lib_job_status = codes "4";
  var_lib_projects = codes "5";
  var_log = codes "6";
  tmp_rand = codes "7";
}

abbrev job : Job ℕ
job = record {
  id = codes "j";
  job_type = codes "check";
  forks = 65;
  limit = [];
  verbosity = 5;
  extra_vars = 1;
  job_tags = codes "web";
  skip_tags = [];
  force_handlers = true;
  start_at_task = [];
  created_by_id = codes "alice";
  launch_type = codes "manual";
  become_enabled = true;
  playbook = codes "site.yml";
}

abbrev machine : Machine
machine = record {
  kind = codes "ssh";
  username = codes "root";
  domain = codes "d";
  password = codes "secret";
  become_method = [];
  become_username = codes "adm";
  become_password = codes "more";
}

abbrev ansible_job : Bool → Text → AnsibleJob ℕ
ansible_job is_cloud kind = record {
  job = job;
  template_id = codes "t";
  template_name = codes "deploy";
  machine = machine;
  is_cloud = is_cloud;
  cloud = credential_of kind;
  inventory_id = codes "i";
  project_id = codes "web";
  token = codes "token";
  paths = paths;
}

-- Sixty-five forks are the parameter "A".
params_built :
    build_params world (ansible_job false aws) []
    ≡ codes "--check"
      ∷ codes "-f"
      ∷ codes "A"
      ∷ codes "-vvvv"
      ∷ codes "-e"
      ∷ codes "{}"
      ∷ codes "-t"
      ∷ codes "web"
      ∷ codes "--force-handlers"
      ∷ codes "-e"
      ∷ codes "{..}"
      ∷ []
unfolding build_params is_set when verbosity_flag character or_empty
params_built = refl

secrets_of_job :
    secure_params world (ansible_job false aws)
    ≡ codes "-e"
      ∷ codes "ansible_ssh_pass=open-secret"
      ∷ codes "-e"
      ∷ codes "'ansible_become_pass=open-more'"
      ∷ []
unfolding secure_params user_secure become_secure is_set when
secrets_of_job = refl

login_of_job :
    user_params machine ++ become_params true machine
    ≡ codes "-u" ∷ codes "root@d" ∷ codes "-b" ∷ codes "--become-user=adm" ∷ []
unfolding user_params become_params login is_set when
login_of_job = refl

get_cmd-with_secrets_example :
    (get_cmd all_files settings world
      (with_secrets
        (codes "x")
        (codes "y")
        (codes "TOKEN")
        (credential_of rax)
        (ansible_job true aws))
      (codes "/s")
      (codes "9")).1
    ≡ (get_cmd all_files settings world (ansible_job true aws) (codes "/s") (codes "9")).1
get_cmd-with_secrets_example =
    get_cmd-with_secrets all_files settings world (ansible_job true aws) (codes "/s") (codes "9")
      (codes "x") (codes "y") (codes "TOKEN") (credential_of rax) refl

-- The command of a job with a cloud credential for which there is no case.
abbrev pub bare : Command
bare =
    let c = command settings world (ansible_job true (codes "vmware")) (codes "/s") (codes "9") in
    record { program = c.program; args = c.args; dir = c.dir; env = none }

bare_made :
    (get_cmd all_files settings world
      (ansible_job true (codes "vmware"))
      (codes "/s")
      (codes "9")).0
    ≡ made bare none false
unfolding get_cmd with_cloud hand_over get_cloud_credential nothing_given asks_ticket is_set
bare_made = refl

get_cmd-env_example :
    (((true ≡ false) ⊎ IsSupported (codes "vmware"))
      × (added : List Text) × (bare.env
          ≡ some (
              variables settings
                (ansible_job true (codes "vmware"))
                (codes "/s")
                (codes "9")
                (codes "token")
              ++ added)))
    ⊎ ((true ≡ true) × (IsSupported (codes "vmware") → ⊥) × (bare.env ≡ none))
get_cmd-env_example =
    get_cmd-env all_files settings world (ansible_job true (codes "vmware")) (codes "/s")
      (codes "9") bare none false bare_made
