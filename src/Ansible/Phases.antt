-- ===== src/Ansible/Phases.antt =====
-- That the run of a job (exec/ansible/ansible.go, ansibleRun) keeps to the moves of a job.
use tensor.Prelude.{
  ◌≡◌, refl, ◌⊎◌, inl, inr, Bool, true, false, Option, none, some, List, [], ◌∷◌, if◌then◌else◌,
  ◌||◌, ◌==◌,
}
use tensor.Prelude.Text.{Text, text_eq, codes}
use tensor.Ansible.{is_set}
use tensor.Ssh.{Agent, start_agent}
use tensor.Ansible.Command.{Prepared, made, failed, crashed}
use tensor.Ansible.Moves.{
  Phase, fresh, waits, runs, over, wait, run_first, run_next, give_up, fail, succeed, History, move,
}
use tensor.Ansible.Life.{
  Life, missing, status, start, finish, job_fail, job_error, job_success, explain, capture, Step,
  go, stop, waiting, panicked, then_, Run, poll, wait_previous, previous_failed, fail_on, load_keys,
  exit, execute, run_command, ansible_run, add_key, load_key, load_locked, clean_up, with_agent,
}

-- What a step may lead to: `P` if the run goes on; else the job is over, with the status and the flag
-- that it has, or waits still. Where a panic comes, the job runs, or, if `closing` can happen, is over.
unfoldable pub Keeps : Type 0 → (Life → Type 0) → Step → Type 0
Keeps closing P (go t) = P t
Keeps closing P (stop t) = History t.sent (over t.status t.failed)
Keeps closing P (waiting t) = History t.sent waits
Keeps closing P (panicked t) =
    History t.sent runs ⊎ (closing × History t.sent (over t.status t.failed))

then_-Keeps :
    (C : Type 0) (P Q : Life → Type 0) (p : Step) (f : Life → Step)
    → Keeps C P p
    → ((t : Life) → P t → Keeps C Q (f t))
    → Keeps C Q (then_ p f)
unfolding then_ Keeps
then_-Keeps C P Q (go t) f h next = next t h
then_-Keeps C P Q (stop t) f h next = h
then_-Keeps C P Q (waiting t) f h next = h
then_-Keeps C P Q (panicked t) f h next = h

if-Keeps :
    (C : Type 0) (P : Life → Type 0) (b : Bool) (p q : Step)
    → Keeps C P p
    → Keeps C P q
    → Keeps C P (if b then p else q)
if-Keeps C P true p q h k = h
if-Keeps C P false p q h k = k

abbrev IsIn : Phase → Life → Type 0
IsIn p t = History t.sent p

-- A job that may start.
abbrev IsReady : Life → Type 0
IsReady t = IsIn fresh t ⊎ IsIn waits t

job_error-over :
    (t : Life)
    → IsIn waits t
    → History (job_error t).sent (over (job_error t).status (job_error t).failed)
unfolding job_error finish
job_error-over t h = move _ h (give_up t.explanation t.stdout)

job_fail-over :
    (t : Life)
    → IsIn runs t
    → History (job_fail t).sent (over (job_fail t).status (job_fail t).failed)
unfolding job_fail finish
job_fail-over t h = move _ h (fail t.explanation t.stdout)

job_success-over :
    (t : Life)
    → IsIn runs t
    → History (job_success t).sent (over (job_success t).status (job_success t).failed)
unfolding job_success finish
job_success-over t h = move _ h (succeed t.explanation t.stdout)

poll-Keeps :
    (C : Type 0) (e : Text) (polls : List (Option Text)) (t : Life)
    → IsIn waits t
    → Keeps C IsReady (poll e polls t)
unfolding poll Keeps explain capture
poll-Keeps C e [] t h = h
poll-Keeps C e (none ∷ polls) t h = poll-Keeps C e polls t h
poll-Keeps C e (some s ∷ polls) t h =
    if-Keeps C IsReady (s == codes "failed" || s == codes "error") _ _
      (job_error-over (capture missing (explain e t)) h)
      (if-Keeps C IsReady (s == codes "successful") (go t) (poll e polls t) (inr h)
        (poll-Keeps C e polls t h))

wait_previous-Keeps :
    (C : Type 0) (e : Text) (previous : Option (List (Option Text))) (t : Life)
    → IsIn fresh t
    → Keeps C IsReady (wait_previous e previous t)
unfolding wait_previous status Keeps
wait_previous-Keeps C e none t h = inl h
wait_previous-Keeps C e (some polls) t h = poll-Keeps C e polls _ (move _ h wait)

start-IsIn : (t : Life) → IsReady t → IsIn runs (start t)
unfolding start
start-IsIn t (inl h) = move _ h run_first
start-IsIn t (inr h) = move _ h run_next

fail_on-Keeps :
    (C : Type 0) (e : Option Text) (t : Life) → IsIn runs t → Keeps C (IsIn runs) (fail_on e t)
unfolding fail_on Keeps explain
fail_on-Keeps C none t h = h
fail_on-Keeps C (some e) t h = job_fail-over (explain e t) h

add_key-Keeps :
    (C : Type 0) (connected : Bool) (t : Life)
    → IsIn runs t
    → Keeps C (IsIn runs) (add_key connected t)
unfolding add_key Keeps
add_key-Keeps C true t h = h
add_key-Keeps C false t h = inl h

load_key-Keeps :
    (C : Type 0) (r : Run) (connected : Bool) (key phrase : Option Text) (t : Life)
    → IsIn runs t
    → Keeps C (IsIn runs) (load_key r connected key phrase t)
unfolding load_key Keeps
load_key-Keeps C r connected none phrase t h = inl h
load_key-Keeps C r connected (some key) phrase t h =
    then_-Keeps C (IsIn runs) (IsIn runs) _ _ (fail_on-Keeps C (r.read_key key phrase) t h)
      (λ u k. add_key-Keeps C connected u k)

load_locked-Keeps :
    (C : Type 0) (r : Run) (connected : Bool) (key phrase : Option Text) (t : Life)
    → IsIn runs t
    → Keeps C (IsIn runs) (load_locked r connected key phrase t)
unfolding load_locked Keeps
load_locked-Keeps C r connected key none t h = inl h
load_locked-Keeps C r connected key (some phrase) t h =
    load_key-Keeps C r connected key (some phrase) t h

load_keys-Keeps :
    (C : Type 0) (r : Run) (connected : Bool) (key unlock parsed : Text) (t : Life)
    → IsIn runs t
    → Keeps C (IsIn runs) (load_keys r connected key unlock parsed t)
unfolding load_keys Keeps
load_keys-Keeps C r connected key unlock parsed t h =
    if-Keeps C (IsIn runs) (is_set key) _ (go t)
      (then_-Keeps C (IsIn runs) (IsIn runs) _ _
        (if-Keeps C (IsIn runs) (is_set unlock) _ (go t) (load_locked-Keeps C r connected _ _ t h)
          h)
        (λ u k. load_key-Keeps C r connected _ none u k))
      h

-- Nothing follows the command.
abbrev pub Never : Life → Type 0
Never t = ⊥

-- Nor does a command itself panic.
exit-Keeps : (out : Text) (e : Option Text) (t : Life) → IsIn runs t → Keeps ⊥ Never (exit out e t)
unfolding exit Keeps explain capture
exit-Keeps out none t h = job_success-over (capture out t) h
exit-Keeps out (some e) t h = job_fail-over (capture out (explain e t)) h

execute-Keeps :
    (out : Text) (e e' : Option Text) (t : Life) → IsIn runs t → Keeps ⊥ Never (execute out e e' t)
unfolding execute Keeps explain capture
execute-Keeps out none e' t h = exit-Keeps out e' t h
execute-Keeps out (some e) e' t h = job_fail-over (capture [] (explain e t)) h

clean_up-Keeps :
    (connected : Bool) (p : Step)
    → Keeps ⊥ Never p
    → Keeps (connected ≡ false) Never (clean_up connected p)
unfolding clean_up Keeps
clean_up-Keeps connected (go t) h = h
clean_up-Keeps true (stop t) h = h
clean_up-Keeps false (stop t) h = inr (refl, h)
clean_up-Keeps connected (waiting t) h = h
clean_up-Keeps connected (panicked t) (inl h) = inl h
clean_up-Keeps connected (panicked t) (inr h) = absurd h.0

run_command-Keeps :
    (r : Run) (connected : Bool) (prepared : Prepared) (t : Life)
    → IsIn runs t
    → Keeps (connected ≡ false) Never (run_command r connected prepared t)
unfolding run_command Keeps explain capture
run_command-Keeps r connected (made c file ticket) t h =
    clean_up-Keeps connected _ (execute-Keeps r.output r.start_error r.wait_error t h)
run_command-Keeps r connected (failed e) t h = job_fail-over (explain e (capture missing t)) h
run_command-Keeps r connected crashed t h = inl h

-- The agent has started, but could not be dialled.
abbrev pub Unconnected : Run → Type 0
Unconnected r =
    (agent : Agent) × (start_agent r.number r.agent_output ≡ some agent)
    × (r.dials agent.socket ≡ false)

allow : (C D : Type 0) (P : Life → Type 0) (p : Step) → (C → D) → Keeps C P p → Keeps D P p
unfolding Keeps
allow C D P (go t) f h = h
allow C D P (stop t) f h = h
allow C D P (waiting t) f h = h
allow C D P (panicked t) f (inl h) = inl h
allow C D P (panicked t) f (inr h) = inr (f h.0, h.1)

with_agent-Keeps :
    (r : Run) (o : Option Agent) (t : Life)
    → start_agent r.number r.agent_output ≡ o
    → IsIn runs t
    → Keeps (Unconnected r) Never (with_agent r o t)
unfolding with_agent Keeps
with_agent-Keeps r none t e h = inl h
with_agent-Keeps r (some agent) t e h =
    let connected = r.dials agent.socket in
    let C = connected ≡ false in
    allow C (Unconnected r) Never _ (λ off. (agent, e, off))
      (then_-Keeps C (IsIn runs) Never _ _
        (load_keys-Keeps C r connected r.machine_key r.machine_unlock r.machine_key t h)
        (λ t2 h2.
          then_-Keeps C (IsIn runs) Never _ _
            (load_keys-Keeps C r connected r.network_key r.network_unlock r.machine_key t2 h2)
            (λ t3 h3. run_command-Keeps r connected (r.prepared agent.socket agent.pid) t3 h3)))

-- Whatever happens outside, the updates of the run of a new job are a history of the moves of a
-- job: it may wait and give up, or run, first or after waiting, and then fail or succeed. Where the
-- run returns, the job is over with its status and its flag; where it polls on, it waits; where it
-- panics, it runs, or, if the agent has started but could not be dialled, is over; and the run does
-- nothing else.
pub ansible_run-Keeps :
    (r : Run) (t : Life) → History t.sent fresh → Keeps (Unconnected r) Never (ansible_run r t)
unfolding ansible_run
ansible_run-Keeps r t h =
    then_-Keeps (Unconnected r) IsReady Never _ _
      (wait_previous-Keeps (Unconnected r) (previous_failed r) r.previous t h)
      (λ t1 ready. with_agent-Keeps r _ (start t1) refl (start-IsIn t1 ready))
