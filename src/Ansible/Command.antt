-- ===== src/Ansible/Command.antt =====
-- The command of a job (exec/ansible/ansible.go, getCmd).
use tensor.Prelude.{Bool, Option, none, some, List, [], ◌∷◌, ◌++◌, map, if◌then◌else◌}
use tensor.Prelude.Text.{Text, codes}
use tensor.Cloud.{Files, Given, Outcome, returned, panicked, get_cloud_credential}
use tensor.Ansible.{
  AnsibleJob, Settings, Encoder, build_params, user_params, user_secure, asks_ticket, become_params,
  become_secure,
}

-- `strings.Join(texts, " ")`.
unfoldable pub join_spaced : List Text → Text
join_spaced [] = []
join_spaced (t ∷ []) = t
join_spaced (t ∷ u ∷ texts) = t ++ codes " " ++ join_spaced (u ∷ texts)

-- `strings.Repeat("*", len(token))`.
unfoldable pub masked : Text → Text
masked token = map (λ _. b'*') token

unfoldable pub project_root : {V : Type 0} → Settings → AnsibleJob V → Text
project_root s j = s.join s.projects_home j.project_id

-- The parameters of the sandbox.
unfoldable pub proot_params : {V : Type 0} → Settings → AnsibleJob V → List Text
unfolding project_root
proot_params s j =
    let p = j.paths in
    codes "-v"
    ∷ codes "0"
    ∷ codes "-r"
    ∷ codes "/"
    ∷ codes "-b"
    ∷ (p.etc ++ codes ":/etc/tensor")
    ∷ codes "-b"
    ∷ (p.tmp ++ codes ":/tmp")
    ∷ codes "-b"
    ∷ (p.var_lib ++ codes ":/var/lib/tensor")
    ∷ codes "-b"
    ∷ (p.var_lib_job_status ++ codes ":/var/lib/tensor/job_status")
    ∷ codes "-b"
    ∷ (p.var_lib_projects ++ codes ":" ++ s.projects_home)
    ∷ codes "-b"
    ∷ (p.var_log ++ codes ":/var/log")
    ∷ codes "-b"
    ∷ (p.tmp_rand ++ codes ":" ++ p.tmp_rand)
    ∷ codes "-b"
    ∷ (project_root s j ++ codes ":" ++ project_root s j)
    ∷ codes "-b"
    ∷ codes "/var/lib/tensor:/var/lib/tensor"
    ∷ codes "-w"
    ∷ project_root s j
    ∷ []

-- `pPlaybook` at its end.
unfoldable pub playbook_params : {V : Type 0} → Encoder V → AnsibleJob V → List Text
playbook_params world j =
    build_params world j (
      codes "ansible-playbook"
      ∷ codes "-i"
      ∷ codes "/var/lib/tensor/plugins/inventory/tensorrest.py"
      ∷ [])
    ++ user_params j.machine
    ++ become_params j.job.become_enabled j.machine

-- `pSecure` at its end.
unfoldable pub secure_params : {V : Type 0} → Encoder V → AnsibleJob V → List Text
secure_params world j =
    user_secure world j.machine ++ become_secure world j.job.become_enabled j.machine

-- The variables of the command and of the record, which differ in the token only. `pid` is the
-- decimal text of the agent's process id.
unfoldable pub variables : {V : Type 0} → Settings → AnsibleJob V → Text → Text → Text → List Text
unfolding project_root
variables s j socket pid token =
    codes "TERM=xterm"
    ∷ (codes "PROJECT_PATH=" ++ project_root s j)
    ∷ (codes "HOME_PATH=" ++ s.projects_home)
    ∷ (codes "PWD=" ++ project_root s j)
    ∷ codes "SHLVL=0"
    ∷ (codes "HOME=" ++ s.home)
    ∷ codes "_=/usr/bin/tensord"
    ∷ codes "PROOT_NO_SECCOMP=1"
    ∷ codes "PATH=/bin:/usr/local/sbin:/usr/local/bin:/usr/sbin:/usr/bin:/sbin:/bin"
    ∷ (codes "REST_API_TOKEN=" ++ token)
    ∷ codes "ANSIBLE_PARAMIKO_RECORD_HOST_KEYS=False"
    ∷ codes "ANSIBLE_CALLBACK_PLUGINS=/var/lib/tensor/plugins/callback"
    ∷ codes "ANSIBLE_HOST_KEY_CHECKING=False"
    ∷ (codes "JOB_ID=" ++ j.job.id)
    ∷ codes "ANSIBLE_FORCE_COLOR=True"
    ∷ (codes "REST_API_URL=http://localhost" ++ s.port)
    ∷ codes "INVENTORY_HOSTVARS=True"
    ∷ (codes "INVENTORY_ID=" ++ j.inventory_id)
    ∷ (codes "SSH_AUTH_SOCK=" ++ socket)
    ∷ (codes "SSH_AGENT_PID=" ++ pid)
    ∷ []

pub record Command : Type 0 where
  pub program : Text
  pub args : List Text
  pub dir : Text
  pub env : Option (List Text)

-- What the job keeps, and the handlers send to its readers.
pub record Record : Type 0 where
  pub job_args : List Text
  pub job_env : List Text

-- `made` also has the file of the cloud credential, and whether a Kerberos ticket was asked for.
pub data Prepared : Type 0 where
  made : Command → Option Text → Bool → Prepared
  failed : Text → Prepared
  crashed : Prepared

-- The command before the cloud credential.
unfoldable pub command : {V : Type 0} → Settings → Encoder V → AnsibleJob V → Text → Text → Command
unfolding proot_params playbook_params secure_params variables project_root
command s world j socket pid = record {
  program = codes "proot";
  args =
      proot_params s j ++ playbook_params world j ++ secure_params world j ++ j.job.playbook ∷ [];
  dir = project_root s j;
  env = some (variables s j socket pid j.token);
}

-- The assignments to `JobARGS` and `JobENV`.
unfoldable pub recorded : {V : Type 0} → Settings → Encoder V → AnsibleJob V → Text → Text → Record
unfolding proot_params playbook_params variables join_spaced masked
recorded s world j socket pid = record {
  job_args =
      (join_spaced (proot_params s j ++ playbook_params world j)
        ++ codes " "
        ++ j.job.playbook
        ++ codes "'")
      ∷ [];
  job_env = variables s j socket pid (masked j.token);
}

unfoldable pub hand_over : Command → Bool → Given → Option Text → Prepared
hand_over c ticket r (some e) = failed e
hand_over c ticket r none =
    made (record { program = c.program; args = c.args; dir = c.dir; env = r.env }) r.file ticket

-- The result of the cloud credential in the command.
unfoldable pub with_cloud : Command → Bool → Outcome → Prepared
unfolding hand_over
with_cloud c ticket panicked = crashed
with_cloud c ticket (returned r) = hand_over c ticket r r.error

unfoldable pub get_cmd :
    {V : Type 0} → Files → Settings → Encoder V → AnsibleJob V → Text → Text → Prepared × Record
unfolding command recorded with_cloud
get_cmd fs s world j socket pid =
    let c = command s world j socket pid in
    let base = variables s j socket pid j.token in
    let ticket = asks_ticket j.machine in
    let prepared =
      if j.is_cloud
      then with_cloud c ticket (get_cloud_credential fs world.decipher base j.cloud)
      else made c none ticket in
    (prepared, recorded s world j socket pid)
