-- ===== src/Ansible/Success.antt =====
-- When a job is successful (exec/ansible/ansible.go, ansibleRun).
use tensor.Prelude.{
  ◌≡◌, refl, subst, ◌⊎◌, inl, inr, ◌≢◌, Bool, true, false, Option, none, some, List, [], ◌∷◌,
  if◌then◌else◌, ◌||◌, ◌==◌, any,
}
use tensor.Prelude.Text.{Text, text_eq, codes}
use tensor.Ansible.{is_set}
use tensor.Cipher.{decipher}
use tensor.Ssh.{Agent}
use tensor.Ansible.Life.{
  Life, missing, status, start, finish, job_fail, job_error, job_success, explain, capture, Step,
  go, stop, waiting, panicked, then_, Run, poll, wait_previous, previous_failed, fail_on, load_keys,
  ansible_run, load_key, with_agent,
}
use tensor.Ansible.Settled.{
  Stops, then_-Stops, wait_previous-Stops, load_keys-Stops, ansible_run-Stops,
}

unfoldable pub is_successful : Option Text → Bool
is_successful none = false
is_successful (some s) = s == codes "successful"

-- There is no previous job, or one of its polls finds it successful.
unfoldable pub PreviousSucceeds : Option (List (Option Text)) → Type 0
PreviousSucceeds none = Unit {0}
PreviousSucceeds (some polls) = any is_successful polls ≡ true

choice-go :
    (b c : Bool) (t u v : Life) (s : Step)
    → (if b then stop u else if c then go t else s) ≡ go v
    → (c ≡ true) ⊎ (s ≡ go v)
choice-go true c t u v s h = absurd cc
choice-go false true t u v s h = inl refl
choice-go false false t u v s h = inr h

or_intro : (b c : Bool) → (b ≡ true) ⊎ (c ≡ true) → b || c ≡ true
or_intro true c h = refl
or_intro false c (inl h) = absurd cc
or_intro false c (inr h) = h

poll-go :
    (e : Text) (polls : List (Option Text)) (t u : Life)
    → poll e polls t ≡ go u
    → any is_successful polls ≡ true
unfolding poll is_successful
poll-go e [] t u h = absurd cc
poll-go e (none ∷ polls) t u h = poll-go e polls t u h
poll-go e (some s ∷ polls) t u h =
    or_intro (s == codes "successful") (any is_successful polls)
      (elim (choice-go (s == codes "failed" || s == codes "error") (s == codes "successful") t
        (job_error (capture missing (explain e t))) u (poll e polls t) h) [
          | inl found ↦ inl found
          | inr later ↦ inr (poll-go e polls t u later)
        ])

wait_previous-go :
    (e : Text) (previous : Option (List (Option Text))) (t u : Life)
    → wait_previous e previous t ≡ go u
    → PreviousSucceeds previous
unfolding wait_previous PreviousSucceeds
wait_previous-go e none t u h = tt
wait_previous-go e (some polls) t u h = poll-go e polls (status (codes "waiting") t) u h

-- What a successful status tells.
WasRun : Run → Life → Type 0
WasRun r u =
    u.status ≡ codes "successful"
    → PreviousSucceeds r.previous
      × (r.start_error ≡ none)
      × (r.wait_error ≡ none)
      × (u.stdout ≡ r.output)

job_fail-WasRun : (r : Run) (u : Life) → WasRun r (job_fail u)
unfolding WasRun job_fail finish
job_fail-WasRun r u = λ h. absurd cc

job_error-WasRun : (r : Run) (u : Life) → WasRun r (job_error u)
unfolding WasRun job_error finish
job_error-WasRun r u = λ h. absurd cc

job_success-WasRun :
    (r : Run) (t t1 u : Life)
    → wait_previous (previous_failed r) r.previous t ≡ go t1
    → r.start_error ≡ none
    → r.wait_error ≡ none
    → WasRun r (job_success (capture r.output u))
unfolding WasRun job_success finish capture
job_success-WasRun r t t1 u waited started exited =
    λ h. (wait_previous-go (previous_failed r) r.previous t t1 waited, started, exited, refl)

-- A run that returns with the status "successful" had no previous job or found it "successful" in a
-- poll, its process started and exited without an error, and the job keeps what the process wrote.
pub ansible_run-successful :
    (r : Run) (t u : Life)
    → ansible_run r t ≡ stop u
    → u.status ≡ codes "successful"
    → PreviousSucceeds r.previous
      × (r.start_error ≡ none)
      × (r.wait_error ≡ none)
      × (u.stdout ≡ r.output)
unfolding Stops WasRun
ansible_run-successful r t u ended good =
    let found =
      ansible_run-Stops (WasRun r) r t (job_error-WasRun r) (job_fail-WasRun r)
        (λ v t1 waited started exited. job_success-WasRun r t t1 v waited started exited) in
    let of_end : WasRun r u = subst (Stops (WasRun r)) ended found in of_end good

fail_on-ne : (o : Option Text) (e : Text) (t u : Life) → o ≡ some e → fail_on o t ≢ go u
unfolding fail_on
fail_on-ne none e t u refused = absurd cc
fail_on-ne (some e') e t u refused = λ same. cc

then_-ne : (p : Step) (f : Life → Step) (u : Life) → ((t : Life) → f t ≢ go u) → then_ p f ≢ go u
unfolding then_
then_-ne (go t) f u h = h t
then_-ne (stop t) f u h = λ same. cc
then_-ne (waiting t) f u h = λ same. cc
then_-ne (panicked t) f u h = λ same. cc

if-ne : (b : Bool) (p q : Step) (u : Life) → b ≡ true → p ≢ go u → (if b then p else q) ≢ go u
if-ne true p q u h ne = ne
if-ne false p q u h ne = absurd cc

then_-ne_first :
    (p : Step) (f : Life → Step) (u : Life) → ((t : Life) → p ≢ go t) → then_ p f ≢ go u
unfolding then_
then_-ne_first (go t) f u h = absurd (h t refl)
then_-ne_first (stop t) f u h = λ same. cc
then_-ne_first (waiting t) f u h = λ same. cc
then_-ne_first (panicked t) f u h = λ same. cc

load_key-ne :
    (r : Run) (connected : Bool) (o : Option Text) (key e : Text) (t u : Life)
    → o ≡ some key
    → r.read_key key none ≡ some e
    → load_key r connected o none t ≢ go u
unfolding load_key
load_key-ne r connected none key e t u opened refused = absurd cc
load_key-ne r connected (some k) key e t u opened refused =
    then_-ne_first _ _ u (λ v. fail_on-ne (r.read_key k none) e t v (cc))

-- A key that the library does not read without its passphrase does not pass.
load_keys-ne :
    (r : Run) (connected : Bool) (key unlock parsed k e : Text) (t u : Life)
    → is_set key ≡ true
    → decipher r.aes parsed ≡ some k
    → r.read_key k none ≡ some e
    → load_keys r connected key unlock parsed t ≢ go u
unfolding load_keys
load_keys-ne r connected key unlock parsed k e t u set opened refused =
    if-ne (is_set key) _ (go t) u set
      (then_-ne _ _ u (λ v. load_key-ne r connected (decipher r.aes parsed) k e v u opened refused))

NotSuccessful : Life → Type 0
NotSuccessful u = u.status ≢ codes "successful"

job_fail-NotSuccessful : (u : Life) → NotSuccessful (job_fail u)
unfolding NotSuccessful job_fail finish
job_fail-NotSuccessful u = λ h. cc

job_error-NotSuccessful : (u : Life) → NotSuccessful (job_error u)
unfolding NotSuccessful job_error finish
job_error-NotSuccessful u = λ h. cc

with_agent-locked :
    (r : Run) (agent : Option Agent) (t : Life) (k e : Text)
    → is_set r.machine_key ≡ true
    → decipher r.aes r.machine_key ≡ some k
    → r.read_key k none ≡ some e
    → Stops NotSuccessful (with_agent r agent t)
unfolding with_agent Stops
with_agent-locked r none t k e set opened refused = tt
with_agent-locked r (some agent) t k e set opened refused =
    then_-Stops NotSuccessful _ _
      (load_keys-Stops NotSuccessful r _ r.machine_key r.machine_unlock r.machine_key t
        job_fail-NotSuccessful)
      (λ t2 loaded. absurd (
        load_keys-ne r _ r.machine_key r.machine_unlock r.machine_key k e t t2 set opened refused
          loaded))

-- A job whose machine credential has a key that the SSH library does not read without its
-- passphrase is never "successful", whatever passphrase the credential has.
ansible_run-locked :
    (r : Run) (t u : Life) (k e : Text)
    → is_set r.machine_key ≡ true
    → decipher r.aes r.machine_key ≡ some k
    → r.read_key k none ≡ some e
    → ansible_run r t ≡ stop u
    → u.status ≢ codes "successful"
unfolding Stops NotSuccessful ansible_run
ansible_run-locked r t u k e set opened refused ended =
    let P = NotSuccessful in
    let found =
      then_-Stops P _ _
        (wait_previous-Stops P (previous_failed r) r.previous t job_error-NotSuccessful)
        (λ t1 waited. with_agent-locked r _ (start t1) k e set opened refused) in
    subst (Stops P) ended found
