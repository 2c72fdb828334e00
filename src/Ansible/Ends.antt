-- ===== src/Ansible/Ends.antt =====
-- That a job ends (exec/ansible/ansible.go, ansibleRun).
use tensor.Prelude.{
  ◌≡◌, refl, subst, ◌≢◌, Bool, true, false, Option, none, some, List, [], ◌∷◌, if◌then◌else◌, ◌||◌,
  ◌==◌, any,
}
use tensor.Prelude.Text.{Text, text_eq, codes}
use tensor.Ansible.{is_set}
use tensor.Cipher.{Aes, decipher}
use tensor.Ssh.{Agent, start_agent}
use tensor.Ansible.Command.{Prepared, made, failed, crashed}
use tensor.Ansible.Life.{
  Life, missing, status, start, job_error, explain, capture, Step, go, stop, waiting, panicked,
  then_, Run, poll, wait_previous, previous_failed, fail_on, load_keys, exit, execute, run_command,
  ansible_run, add_key, load_key, load_locked, clean_up, with_agent,
}
use tensor.Ansible.Settled.{
  Stops, ansible_run-Stops, IsSettled, job_fail-IsSettled, job_error-IsSettled,
  job_success-IsSettled,
}

-- Steps that neither wait on nor panic.
Goes : Step → Type 0
Goes (go t) = Unit {0}
Goes (stop t) = Unit {0}
Goes (waiting t) = ⊥
Goes (panicked t) = ⊥

then_-Goes : (p : Step) (f : Life → Step) → Goes p → ((t : Life) → Goes (f t)) → Goes (then_ p f)
unfolding then_ Goes
then_-Goes (go t) f first next = next t
then_-Goes (stop t) f first next = tt
then_-Goes (waiting t) f first next = absurd first
then_-Goes (panicked t) f first next = absurd first

-- A poll that ends the loop.
unfoldable pub is_final : Option Text → Bool
is_final none = false
is_final (some s) = (s == codes "failed" || s == codes "error") || s == codes "successful"

-- There is no previous job, or one of its polls ends the loop.
unfoldable pub PreviousEnds : Option (List (Option Text)) → Type 0
PreviousEnds none = Unit {0}
PreviousEnds (some polls) = any is_final polls ≡ true

-- The step of the loop.
choice-Goes :
    (b c d : Bool) (p q s : Step)
    → Goes p
    → Goes q
    → ((b || c) || d ≡ true)
    → (d ≡ true → Goes s)
    → Goes (if b then p else if c then q else s)
choice-Goes true c d p q s hp hq any_of hs = hp
choice-Goes false true d p q s hp hq any_of hs = hq
choice-Goes false false d p q s hp hq any_of hs = hs any_of

poll-Goes :
    (e : Text) (polls : List (Option Text)) (t : Life)
    → any is_final polls ≡ true
    → Goes (poll e polls t)
unfolding poll Goes is_final
poll-Goes e [] t h = absurd cc
poll-Goes e (none ∷ polls) t h = poll-Goes e polls t h
poll-Goes e (some s ∷ polls) t h =
    choice-Goes (s == codes "failed" || s == codes "error") (s == codes "successful")
      (any is_final polls) (stop (job_error (capture missing (explain e t)))) (go t)
      (poll e polls t) tt tt h (poll-Goes e polls t)

wait_previous-Goes :
    (e : Text) (previous : Option (List (Option Text))) (t : Life)
    → PreviousEnds previous
    → Goes (wait_previous e previous t)
unfolding wait_previous PreviousEnds Goes
wait_previous-Goes e none t h = tt
wait_previous-Goes e (some polls) t h = poll-Goes e polls (status (codes "waiting") t) h

if-Goes : (b : Bool) (p q : Step) → Goes p → Goes q → Goes (if b then p else q)
if-Goes true p q hp hq = hp
if-Goes false p q hp hq = hq

fail_on-Goes : (e : Option Text) (t : Life) → Goes (fail_on e t)
unfolding fail_on Goes
fail_on-Goes none t = tt
fail_on-Goes (some e) t = tt

add_key-Goes : (connected : Bool) (t : Life) → connected ≡ true → Goes (add_key connected t)
unfolding add_key Goes
add_key-Goes true t h = tt
add_key-Goes false t h = absurd cc

load_key-Goes :
    (r : Run) (connected : Bool) (key phrase : Option Text) (t : Life)
    → connected ≡ true
    → key ≢ none
    → Goes (load_key r connected key phrase t)
unfolding load_key
load_key-Goes r connected none phrase t on opens = absurd (opens refl)
load_key-Goes r connected (some key) phrase t on opens =
    then_-Goes _ _ (fail_on-Goes (r.read_key key phrase) t) (λ u. add_key-Goes connected u on)

load_locked-Goes :
    (r : Run) (connected : Bool) (key phrase : Option Text) (t : Life)
    → connected ≡ true
    → key ≢ none
    → phrase ≢ none
    → Goes (load_locked r connected key phrase t)
unfolding load_locked
load_locked-Goes r connected key none t on opens phrase = absurd (phrase refl)
load_locked-Goes r connected key (some p) t on opens phrase =
    load_key-Goes r connected key (some p) t on opens

-- A text that can be deciphered without a panic.
abbrev Opens : Aes → Text → Type 0
Opens a text = decipher a text ≢ none

-- Where a credential has a key, the key that is read in its place can be deciphered, and its phrase,
-- if it has one.
abbrev KeyOpens : Aes → (key unlock parsed : Text) → Type 0
KeyOpens a key unlock parsed =
    is_set key ≡ true → Opens a parsed × (is_set unlock ≡ true → Opens a unlock)

when-Goes : (b : Bool) (p q : Step) → (b ≡ true → Goes p) → Goes q → Goes (if b then p else q)
when-Goes true p q hp hq = hp refl
when-Goes false p q hp hq = hq

load_keys-Goes :
    (r : Run) (connected : Bool) (key unlock parsed : Text) (t : Life)
    → connected ≡ true
    → KeyOpens r.aes key unlock parsed
    → Goes (load_keys r connected key unlock parsed t)
unfolding load_keys Goes
load_keys-Goes r connected key unlock parsed t on opens =
    when-Goes (is_set key) _ (go t)
      (λ set.
        then_-Goes _ _
          (when-Goes (is_set unlock) _ (go t)
            (λ locked. load_locked-Goes r connected _ _ t on (opens set).0 ((opens set).1 locked))
            tt)
          (λ u. load_key-Goes r connected _ none u on (opens set).0))
      tt

then_-stop :
    (p : Step) (f : Life → Step)
    → Goes p
    → ((t : Life) → (u : Life) × (f t ≡ stop u))
    → (u : Life) × (then_ p f ≡ stop u)
unfolding then_ Goes
then_-stop (go t) f first next = next t
then_-stop (stop t) f first next = (t, refl)
then_-stop (waiting t) f first next = absurd first
then_-stop (panicked t) f first next = absurd first

exit-stop : (out : Text) (e : Option Text) (t : Life) → (u : Life) × (exit out e t ≡ stop u)
unfolding exit
exit-stop out none t = (_, refl)
exit-stop out (some e) t = (_, refl)

execute-stop :
    (out : Text) (e e' : Option Text) (t : Life) → (u : Life) × (execute out e e' t ≡ stop u)
unfolding execute
execute-stop out none e' t = exit-stop out e' t
execute-stop out (some e) e' t = (_, refl)

clean_up-stop :
    (connected : Bool) (p : Step)
    → connected ≡ true
    → (u : Life) × (p ≡ stop u)
    → (u : Life) × (clean_up connected p ≡ stop u)
unfolding clean_up
clean_up-stop connected (go t) on (u, e) = absurd cc
clean_up-stop connected (stop t) on h = (t, rw on refl)
clean_up-stop connected (waiting t) on (u, e) = absurd cc
clean_up-stop connected (panicked t) on (u, e) = absurd cc

run_command-stop :
    (r : Run) (connected : Bool) (prepared : Prepared) (t : Life)
    → connected ≡ true
    → prepared ≢ crashed
    → (u : Life) × (run_command r connected prepared t ≡ stop u)
unfolding run_command
run_command-stop r connected (made c file ticket) t on h =
    clean_up-stop connected _ on (execute-stop r.output r.start_error r.wait_error t)
run_command-stop r connected (failed e) t on h = (_, refl)
run_command-stop r connected crashed t on h = absurd (h refl)

with_agent-stop :
    (r : Run) (o : Option Agent) (agent : Agent) (t : Life)
    → o ≡ some agent
    → r.dials agent.socket ≡ true
    → r.prepared agent.socket agent.pid ≢ crashed
    → KeyOpens r.aes r.machine_key r.machine_unlock r.machine_key
    → KeyOpens r.aes r.network_key r.network_unlock r.machine_key
    → (u : Life) × (with_agent r o t ≡ stop u)
unfolding with_agent
with_agent-stop r none agent t there on fine machine network = absurd cc
with_agent-stop r (some a) agent t there on fine machine network =
    let same : a ≡ agent = cc in
    let on : r.dials a.socket ≡ true = rw same on in
    let fine : r.prepared a.socket a.pid ≢ crashed = rw same fine in
    then_-stop _ _ (load_keys-Goes r _ r.machine_key r.machine_unlock r.machine_key t on machine)
      (λ t2.
        then_-stop _ _
          (load_keys-Goes r _ r.network_key r.network_unlock r.machine_key t2 on network)
          (λ t3. run_command-stop r _ (r.prepared a.socket a.pid) t3 on fine))

-- The run of a job ends without a panic where there is no previous job, or a poll finds it
-- "failed", "error" or "successful", where the SSH agent starts and can be dialled, where the
-- stored keys and phrases that it reads can be deciphered without a panic, and where its command
-- can be prepared without one. The job then is "successful" without the flag of a failure, or
-- "failed" or "error" with it, and the last updates told this to the job, its project and its
-- template.
pub ansible_run-IsSettled :
    (r : Run) (t : Life) (agent : Agent)
    → PreviousEnds r.previous
    → start_agent r.number r.agent_output ≡ some agent
    → r.dials agent.socket ≡ true
    → r.prepared agent.socket agent.pid ≢ crashed
    → KeyOpens r.aes r.machine_key r.machine_unlock r.machine_key
    → KeyOpens r.aes r.network_key r.network_unlock r.machine_key
    → (u : Life) × (ansible_run r t ≡ stop u) × IsSettled u
unfolding Stops ansible_run
ansible_run-IsSettled r t agent ends there on fine machine network =
    let (u, ended) =
      then_-stop _ _ (wait_previous-Goes (previous_failed r) r.previous t ends)
        (λ t1. with_agent-stop r _ agent (start t1) there on fine machine network) in
    let settled =
      ansible_run-Stops IsSettled r t job_error-IsSettled job_fail-IsSettled
        (λ v t1 waited started exited. job_success-IsSettled (capture r.output v)) in
    (u, ended, subst (Stops IsSettled) ended settled)
