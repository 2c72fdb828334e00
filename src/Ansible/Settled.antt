-- ===== src/Ansible/Settled.antt =====
-- How a job ends (exec/ansible/ansible.go, ansibleRun).
use tensor.Prelude.{
  ◌≡◌, refl, ◌⊎◌, inl, inr, Bool, true, false, Option, none, some, List, [], ◌∷◌, ◌++◌,
  if◌then◌else◌, ◌||◌, ◌==◌,
}
use tensor.Prelude.Text.{Text, text_eq, codes}
use tensor.Ansible.{is_set}
use tensor.Cipher.{decipher}
use tensor.Ssh.{Agent, start_agent}
use tensor.Ansible.Command.{Prepared, made, failed, crashed}
use tensor.Ansible.Life.{
  Update, job_finished, project, template, Life, missing, start, finish, job_fail, job_error,
  job_success, explain, capture, Step, go, stop, waiting, panicked, then_, Run, poll, wait_previous,
  previous_failed, fail_on, load_keys, exit, execute, run_command, ansible_run, add_key, load_key,
  load_locked, clean_up, with_agent,
}

-- The states in which a step may return.
unfoldable pub Stops : (Life → Type 0) → Step → Type 0
Stops P (go t) = Unit {0}
Stops P (stop t) = P t
Stops P (waiting t) = Unit {0}
Stops P (panicked t) = Unit {0}

pub then_-Stops :
    (P : Life → Type 0) (p : Step) (f : Life → Step)
    → Stops P p
    → ((t : Life) → p ≡ go t → Stops P (f t))
    → Stops P (then_ p f)
unfolding then_ Stops
then_-Stops P (go t) f first next = next t refl
then_-Stops P (stop t) f first next = first
then_-Stops P (waiting t) f first next = tt
then_-Stops P (panicked t) f first next = tt

-- The end of a job that was told to everyone: the flag says whether the status is "successful", and
-- the last updates are those of the job, its project and its template.
unfoldable pub IsSettled : Life → Type 0
IsSettled t =
    ((t.status ≡ codes "successful") × (t.failed ≡ false)
      ⊎ ((t.status ≡ codes "failed") ⊎ (t.status ≡ codes "error")) × (t.failed ≡ true))
    × (before : List Update) × (t.sent
        ≡ before
          ++ job_finished t.status t.failed t.explanation t.stdout
            ∷ project t.status t.failed
            ∷ template t.status t.failed
            ∷ [])

pub job_fail-IsSettled : (t : Life) → IsSettled (job_fail t)
unfolding job_fail finish IsSettled
job_fail-IsSettled t = (inr (inl refl, refl), t.sent, refl)

pub job_error-IsSettled : (t : Life) → IsSettled (job_error t)
unfolding job_error finish IsSettled
job_error-IsSettled t = (inr (inr refl, refl), t.sent, refl)

pub job_success-IsSettled : (t : Life) → IsSettled (job_success t)
unfolding job_success finish IsSettled
job_success-IsSettled t = (inl (refl, refl), t.sent, refl)

if-Stops :
    (P : Life → Type 0) (b : Bool) (p q : Step)
    → Stops P p
    → Stops P q
    → Stops P (if b then p else q)
if-Stops P true p q hp hq = hp
if-Stops P false p q hp hq = hq

-- What a job that returns from a step satisfies, where every ending satisfies it.
poll-Stops :
    (P : Life → Type 0) (e : Text) (polls : List (Option Text)) (t : Life)
    → ((u : Life) → P (job_error u))
    → Stops P (poll e polls t)
unfolding poll Stops
poll-Stops P e [] t wrong = tt
poll-Stops P e (none ∷ polls) t wrong = poll-Stops P e polls t wrong
poll-Stops P e (some s ∷ polls) t wrong =
    if-Stops P (s == codes "failed" || s == codes "error") _ _
      (wrong (capture missing (explain e t)))
      (if-Stops P (s == codes "successful") (go t) (poll e polls t) tt
        (poll-Stops P e polls t wrong))

pub wait_previous-Stops :
    (P : Life → Type 0) (e : Text) (previous : Option (List (Option Text))) (t : Life)
    → ((u : Life) → P (job_error u))
    → Stops P (wait_previous e previous t)
unfolding wait_previous Stops
wait_previous-Stops P e none t wrong = tt
wait_previous-Stops P e (some polls) t wrong = poll-Stops P e polls _ wrong

fail_on-Stops :
    (P : Life → Type 0) (e : Option Text) (t : Life)
    → ((u : Life) → P (job_fail u))
    → Stops P (fail_on e t)
unfolding fail_on Stops
fail_on-Stops P none t wrong = tt
fail_on-Stops P (some e) t wrong = wrong (explain e t)

add_key-Stops : (P : Life → Type 0) (connected : Bool) (t : Life) → Stops P (add_key connected t)
unfolding add_key Stops
add_key-Stops P true t = tt
add_key-Stops P false t = tt

load_key-Stops :
    (P : Life → Type 0) (r : Run) (connected : Bool) (key phrase : Option Text) (t : Life)
    → ((u : Life) → P (job_fail u))
    → Stops P (load_key r connected key phrase t)
unfolding load_key Stops
load_key-Stops P r connected none phrase t wrong = tt
load_key-Stops P r connected (some key) phrase t wrong =
    then_-Stops P _ _ (fail_on-Stops P (r.read_key key phrase) t wrong)
      (λ u e. add_key-Stops P connected u)

load_locked-Stops :
    (P : Life → Type 0) (r : Run) (connected : Bool) (key phrase : Option Text) (t : Life)
    → ((u : Life) → P (job_fail u))
    → Stops P (load_locked r connected key phrase t)
unfolding load_locked Stops
load_locked-Stops P r connected key none t wrong = tt
load_locked-Stops P r connected key (some phrase) t wrong =
    load_key-Stops P r connected key (some phrase) t wrong

pub load_keys-Stops :
    (P : Life → Type 0) (r : Run) (connected : Bool) (key unlock parsed : Text) (t : Life)
    → ((u : Life) → P (job_fail u))
    → Stops P (load_keys r connected key unlock parsed t)
unfolding load_keys Stops
load_keys-Stops P r connected key unlock parsed t wrong =
    if-Stops P (is_set key) _ (go t)
      (then_-Stops P _ _
        (if-Stops P (is_set unlock) _ (go t)
          (load_locked-Stops P r connected (decipher r.aes parsed) (decipher r.aes unlock) t wrong)
          tt)
        (λ u e. load_key-Stops P r connected (decipher r.aes parsed) none u wrong))
      tt

exit-Stops :
    (P : Life → Type 0) (out : Text) (e : Option Text) (t : Life)
    → ((u : Life) → P (job_fail u))
    → (e ≡ none → P (job_success (capture out t)))
    → Stops P (exit out e t)
unfolding exit Stops
exit-Stops P out none t wrong right = right refl
exit-Stops P out (some e) t wrong right = wrong (capture out (explain e t))

execute-Stops :
    (P : Life → Type 0) (out : Text) (e e' : Option Text) (t : Life)
    → ((u : Life) → P (job_fail u))
    → (e ≡ none → e' ≡ none → P (job_success (capture out t)))
    → Stops P (execute out e e' t)
unfolding execute Stops
execute-Stops P out none e' t wrong right = exit-Stops P out e' t wrong (right refl)
execute-Stops P out (some e) e' t wrong right = wrong (capture [] (explain e t))

clean_up-Stops :
    (P : Life → Type 0) (connected : Bool) (p : Step) → Stops P p → Stops P (clean_up connected p)
unfolding clean_up Stops
clean_up-Stops P connected (go t) h = h
clean_up-Stops P connected (stop t) h = if-Stops P connected (stop t) (panicked t) h tt
clean_up-Stops P connected (waiting t) h = h
clean_up-Stops P connected (panicked t) h = h

run_command-Stops :
    (P : Life → Type 0) (r : Run) (connected : Bool) (prepared : Prepared) (t : Life)
    → ((u : Life) → P (job_fail u))
    → (r.start_error ≡ none → r.wait_error ≡ none → P (job_success (capture r.output t)))
    → Stops P (run_command r connected prepared t)
unfolding run_command Stops
run_command-Stops P r connected (made c file ticket) t wrong right =
    clean_up-Stops P connected _ (execute-Stops P r.output r.start_error r.wait_error t wrong right)
run_command-Stops P r connected (failed e) t wrong right = wrong (explain e (capture missing t))
run_command-Stops P r connected crashed t wrong right = tt

with_agent-Stops :
    (P : Life → Type 0) (r : Run) (agent : Option Agent) (t : Life)
    → ((u : Life) → P (job_fail u))
    → ((u : Life)
        → r.start_error ≡ none
        → r.wait_error ≡ none
        → P (job_success (capture r.output u)))
    → Stops P (with_agent r agent t)
unfolding with_agent Stops
with_agent-Stops P r none t wrong right = tt
with_agent-Stops P r (some agent) t wrong right =
    let connected = r.dials agent.socket in
    then_-Stops P _ _
      (load_keys-Stops P r connected r.machine_key r.machine_unlock r.machine_key t wrong)
      (λ t2 e2.
        then_-Stops P _ _
          (load_keys-Stops P r connected r.network_key r.network_unlock r.machine_key t2 wrong)
          (λ t3 e3.
            run_command-Stops P r connected (r.prepared agent.socket agent.pid) t3 wrong
              (right t3)))

-- Where every ending of a job has a property, so has the state in which its run returns; at the
-- successful one, the run has been through all its steps.
pub ansible_run-Stops :
    (P : Life → Type 0) (r : Run) (t : Life)
    → ((u : Life) → P (job_error u))
    → ((u : Life) → P (job_fail u))
    → ((u t1 : Life)
        → wait_previous (previous_failed r) r.previous t ≡ go t1
        → r.start_error ≡ none
        → r.wait_error ≡ none
        → P (job_success (capture r.output u)))
    → Stops P (ansible_run r t)
unfolding ansible_run
ansible_run-Stops P r t error wrong right =
    then_-Stops P _ _ (wait_previous-Stops P (previous_failed r) r.previous t error) (λ t1 e1.
      with_agent-Stops P r (start_agent r.number r.agent_output) (start t1) wrong
        (λ u. right u t1 e1))
