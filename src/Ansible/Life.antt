-- ===== src/Ansible/Life.antt =====
-- The life of a job: exec/ansible/ansible.go (ansibleRun) and exec/ansible/logging.go.
-- What happens outside is an argument: the polls of the previous job, what the SSH agent prints and
-- whether it can be dialled, the keys that the SSH library reads, the command as `get_cmd` prepares it,
-- and how its process starts and ends. Left out are times,
-- logging, updates that the database refuses, which the code only logs, the parameters and variables
-- in the final update, which `get_cmd` records, and jobCancel, which nothing calls.
use tensor.Prelude.{
  Bool, true, false, ◌||◌, Option, none, some, List, [], ◌∷◌, ◌++◌, if◌then◌else◌, ◌==◌,
}
use tensor.Prelude.Text.{Text, text_eq, codes}
use tensor.Cipher.{Aes, decipher}
use tensor.Ssh.{Agent, start_agent}
use tensor.Ansible.{is_set}
use tensor.Ansible.Command.{Prepared, made, failed, crashed}

-- An update of the database: of the job's status, of all that a job has at its end, and of its
-- project and its template.
pub data Update : Type 0 where
  job_started job_status : Text → Update
  job_finished : Text → Bool → Text → Text → Update
  project template : Text → Bool → Update

-- The fields of the job that change, and the updates so far.
pub record Life : Type 0 where
  pub status : Text
  pub failed : Bool
  pub explanation : Text
  pub stdout : Text
  pub sent : List Update

abbrev pub missing : Text
missing = codes "stdout capture is missing"

unfoldable pub status : Text → Life → Life
status s t = record {
  status = s;
  failed = t.failed;
  explanation = t.explanation;
  stdout = t.stdout;
  sent = t.sent ++ job_status s ∷ [];
}

-- `start` leaves `Failed` of the job as it is, and writes false.
unfoldable pub start : Life → Life
start t = record {
  status = codes "running";
  failed = t.failed;
  explanation = t.explanation;
  stdout = t.stdout;
  sent = t.sent ++ job_started (codes "running") ∷ [];
}

-- jobFail, jobError and jobSuccess, which differ in the status and the flag, each with
-- updateProject and updateJobTemplate.
unfoldable pub finish : Text → Bool → Life → Life
finish s wrong t = record {
  status = s;
  failed = wrong;
  explanation = t.explanation;
  stdout = t.stdout;
  sent =
      t.sent
      ++ job_finished s wrong t.explanation t.stdout ∷ project s wrong ∷ template s wrong ∷ [];
}

unfoldable pub job_fail : Life → Life
unfolding finish
job_fail t = finish (codes "failed") true t

unfoldable pub job_error : Life → Life
unfolding finish
job_error t = finish (codes "error") true t

unfoldable pub job_success : Life → Life
unfolding finish
job_success t = finish (codes "successful") false t

-- The assignments of `JobExplanation` and `ResultStdout`.
unfoldable pub explain : Text → Life → Life
explain e t = record {
  status = t.status;
  failed = t.failed;
  explanation = e;
  stdout = t.stdout;
  sent = t.sent;
}

unfoldable pub capture : Text → Life → Life
capture out t = record {
  status = t.status;
  failed = t.failed;
  explanation = t.explanation;
  stdout = out;
  sent = t.sent;
}

-- `go` continues, `stop` returns; `waiting` polls on, and `panicked` is a panic.
pub data Step : Type 0 where
  go stop waiting panicked : Life → Step

unfoldable pub then_ : Step → (Life → Step) → Step
then_ (go t) f = f t
then_ (stop t) f = stop t
then_ (waiting t) f = waiting t
then_ (panicked t) f = panicked t

-- The run of a job. `previous` are the polls of the previous job, if there is one: a read that fails,
-- or its status. `agent_output` is what ssh-agent prints, `number` gives the number that
-- `strconv.Atoi` reads, and `dials` says whether `net.Dial` of a socket succeeds. `read_key` is
-- `ssh.GetKey`, with the error if there is one. `prepared` is what `get_cmd` gives for a socket and the
-- number of a process. `start_error` and `wait_error` are what the process gives.
pub record Run : Type 0 where
  pub previous : Option (List (Option Text))
  pub job_name : Text
  pub previous_id : Text
  pub agent_output : Text
  pub number : Text → Text
  pub dials : Text → Bool
  pub machine_key : Text
  pub machine_unlock : Text
  pub network_key : Text
  pub network_unlock : Text
  pub aes : Aes
  pub read_key : Text → Option Text → Option Text
  pub prepared : Text → Text → Prepared
  pub start_error : Option Text
  pub wait_error : Option Text
  pub output : Text

-- The explanation of a job whose previous job failed.
unfoldable pub previous_failed : Run → Text
previous_failed r =
    codes "Previous Task Failed: {\"job_type\": \"project_update\", \"job_name\": \""
    ++ r.job_name
    ++ codes "\", \"job_id\": \""
    ++ r.previous_id
    ++ codes "\"}"

-- The loop over the ticks; `e` is that explanation.
unfoldable pub poll : Text → List (Option Text) → Life → Step
unfolding job_error explain capture
poll e [] t = waiting t
poll e (none ∷ polls) t = poll e polls t
poll e (some s ∷ polls) t =
    let rest = poll e polls t in
    let wrong = stop (job_error (capture missing (explain e t))) in
    if s == codes "failed" || s == codes "error"
    then wrong
    else if s == codes "successful"
    then go t
    else rest

unfoldable pub wait_previous : Text → Option (List (Option Text)) → Life → Step
unfolding poll status
wait_previous e none t = go t
wait_previous e (some polls) t = poll e polls (status (codes "waiting") t)

-- Stop with a failure where there is an error.
unfoldable pub fail_on : Option Text → Life → Step
unfolding job_fail explain
fail_on none t = go t
fail_on (some e) t = stop (job_fail (explain e t))

-- `client.Add`: without a connection it panics, and its error is not looked at.
unfoldable pub add_key : Bool → Life → Step
add_key true t = go t
add_key false t = panicked t

-- A key, as `Decipher` gives it, and the phrase that it is read with.
unfoldable pub load_key : Run → Bool → Option Text → Option Text → Life → Step
unfolding fail_on then_ add_key
load_key r connected none phrase t = panicked t
load_key r connected (some key) phrase t =
    then_ (fail_on (r.read_key key phrase) t) (add_key connected)

-- A key with a phrase, both as `Decipher` gives them.
unfoldable pub load_locked : Run → Bool → Option Text → Option Text → Life → Step
unfolding load_key
load_locked r connected key none t = panicked t
load_locked r connected key (some phrase) t = load_key r connected key (some phrase) t

-- The keys of a credential: `key` is the one that is tested, `parsed` the one that is read.
unfoldable pub load_keys : Run → Bool → Text → Text → Text → Life → Step
unfolding load_key load_locked then_ is_set
load_keys r connected key unlock parsed t =
    let locked = load_locked r connected (decipher r.aes parsed) (decipher r.aes unlock) t in
    let plain = load_key r connected (decipher r.aes parsed) none in
    if is_set key then then_ (if is_set unlock then locked else go t) plain else go t

-- How the process ends: the error of `cmd.Wait`.
unfoldable pub exit : Text → Option Text → Life → Step
unfolding job_fail explain capture job_success
exit out (some e) t = stop (job_fail (capture out (explain e t)))
exit out none t = stop (job_success (capture out t))

-- The process, once the command is there: the errors of `cmd.Start` and `cmd.Wait`.
unfoldable pub execute : Text → Option Text → Option Text → Life → Step
unfolding job_fail explain capture exit
execute out (some e) wait_error t = stop (job_fail (capture [] (explain e t)))
execute out none wait_error t = exit out wait_error t

-- The deferred function, which closes the connection to the agent: without one it panics.
unfoldable pub clean_up : Bool → Step → Step
clean_up connected (go t) = go t
clean_up connected (stop t) = if connected then stop t else panicked t
clean_up connected (waiting t) = waiting t
clean_up connected (panicked t) = panicked t

-- The function is deferred once the command is there.
unfoldable pub run_command : Run → Bool → Prepared → Life → Step
unfolding execute job_fail explain capture clean_up
run_command r connected (made c file ticket) t =
    clean_up connected (execute r.output r.start_error r.wait_error t)
run_command r connected (failed e) t = stop (job_fail (explain e (capture missing t)))
run_command r connected crashed t = panicked t

-- What follows the start of the agent, if that has not panicked.
unfoldable pub with_agent : Run → Option Agent → Life → Step
unfolding load_keys run_command then_
with_agent r none t = panicked t
with_agent r (some agent) t =
    let connected = r.dials agent.socket in
    then_ (load_keys r connected r.machine_key r.machine_unlock r.machine_key t) (λ t2.
      then_ (load_keys r connected r.network_key r.network_unlock r.machine_key t2)
        (λ t3. run_command r connected (r.prepared agent.socket agent.pid) t3))

unfoldable pub ansible_run : Run → Life → Step
unfolding wait_previous previous_failed start with_agent then_
ansible_run r t =
    then_ (wait_previous (previous_failed r) r.previous t)
      (λ t1. with_agent r (start_agent r.number r.agent_output) (start t1))
