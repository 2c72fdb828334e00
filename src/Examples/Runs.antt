-- ===== src/Examples/Runs.antt =====
-- Runs of Ansible jobs on concrete inputs.
use tensor.Prelude.{
  ◌≡◌, refl, if◌then◌else◌, Bool, true, false, Option, none, some, [], ◌∷◌, ◌++◌, ◌+◌, ◌-◌, map,
  arith,
}
use tensor.Prelude.Text.{Text, codes, split}
use tensor.Ansible.{is_set}
use tensor.Ansible.Command.{made}
use tensor.Ansible.Life.{
  Update, Life, status, start, finish, job_fail, job_success, explain, capture, stop, then_, Run,
  poll, wait_previous, fail_on, load_keys, exit, execute, run_command, ansible_run, add_key,
  load_key, load_locked, clean_up, with_agent,
}
use tensor.Ansible.Moves.{begin}
use tensor.Ansible.Phases.{Keeps, Never, Unconnected, ansible_run-Keeps}
use tensor.Cipher.{Aes, cipher, decipher, opened}
use tensor.Cipher.Laws.{Inverts, decipher-cipher}
use tensor.Ssh.{Agent, start_agent}
use tensor.Ansible.Settled.{IsSettled}
use tensor.Ansible.Ends.{is_final, PreviousEnds, ansible_run-IsSettled}
use tensor.Ansible.Success.{PreviousSucceeds, ansible_run-successful}
use tensor.Examples.Jobs.{bare}

abbrev fresh : Life
fresh = record {
  status = codes "pending";
  failed = false;
  explanation = [];
  stdout = [];
  sent = [];
}

-- Base64 is left out, and the key stream is that of the simplest cipher.
abbrev shift : Aes
shift = record {
  encode = λ text. text;
  decode = λ text. (text, true);
  has_key = true;
  encrypt = λ iv. map (λ c. c + 1);
  decrypt = λ iv. map (λ c. c - 1);
}

abbrev vector : Text
vector = codes "0123456789abcdef"

-- The previous job is read after one failure, is still running, and then is successful. A key is
-- read if and only if there is no passphrase, or it is refused, by `locked`.
abbrev run_of : Bool → Bool → Option Text → Run
run_of dialled locked wait_error = record {
  previous = some (none ∷ some (codes "running") ∷ some (codes "successful") ∷ []);
  job_name = codes "deploy";
  previous_id = codes "p";
  agent_output =
      codes "SSH_AUTH_SOCK=/tmp/a.7; export SSH_AUTH_SOCK;\nSSH_AGENT_PID=9; export SSH_AGENT_PID;";
  number = λ digits. digits;
  dials = λ socket. dialled;
  machine_key = vector ++ codes "lfz";
  machine_unlock = vector ++ codes "qisbtf";
  network_key = [];
  network_unlock = [];
  aes = shift;
  read_key = λ key phrase. elim phrase [
    | none ↦ if locked then some (codes "encrypted") else none
    | some _ ↦ none
  ];
  prepared = λ socket pid. made bare none false;
  start_error = none;
  wait_error = wait_error;
  output = codes "ok";
}

abbrev done_well : Life
done_well = record {
  status = codes "successful";
  failed = false;
  explanation = [];
  stdout = codes "ok";
  sent =
      Update.job_status (codes "waiting")
      ∷ Update.job_started (codes "running")
      ∷ Update.job_finished (codes "successful") false [] (codes "ok")
      ∷ Update.project (codes "successful") false
      ∷ Update.template (codes "successful") false
      ∷ [];
}

run_ended : ansible_run (run_of true false none) fresh ≡ stop done_well
unfolding ansible_run wait_previous poll status load_keys load_key load_locked add_key decipher
    opened start_agent split with_agent clean_up fail_on then_ is_set start run_command execute exit
    job_success finish capture
run_ended = refl

previous_ends : PreviousEnds (run_of true false none).previous
unfolding PreviousEnds is_final
previous_ends = refl

abbrev agent : Agent
agent = record { socket = codes "/tmp/a.7"; pid = codes "9" }

ansible_run-IsSettled_example :
    (u : Life) × (ansible_run (run_of true false none) fresh ≡ stop u) × IsSettled u
unfolding start_agent split decipher opened is_set
ansible_run-IsSettled_example =
    ansible_run-IsSettled (run_of true false none) fresh agent previous_ends refl refl (λ same. cc)
      (λ set. ((λ e. cc), λ locked. λ e. cc)) (λ set. ((λ e. cc), λ locked. λ e. cc))

ansible_run-successful_example :
    PreviousSucceeds (run_of true false none).previous
    × ((run_of true false none).start_error ≡ none)
    × ((run_of true false none).wait_error ≡ none)
    × (done_well.stdout ≡ codes "ok")
ansible_run-successful_example =
    ansible_run-successful (run_of true false none) fresh done_well run_ended refl

-- The key of a job that is refused without its passphrase.
abbrev locked_out : Life
locked_out = record {
  status = codes "failed";
  failed = true;
  explanation = codes "encrypted";
  stdout = [];
  sent =
      Update.job_status (codes "waiting")
      ∷ Update.job_started (codes "running")
      ∷ Update.job_finished (codes "failed") true (codes "encrypted") []
      ∷ Update.project (codes "failed") true
      ∷ Update.template (codes "failed") true
      ∷ [];
}

run_locked : ansible_run (run_of true true none) fresh ≡ stop locked_out
unfolding ansible_run wait_previous poll status load_keys load_key load_locked add_key decipher
    opened start_agent split with_agent clean_up fail_on then_ is_set start run_command execute exit
    job_fail finish explain
run_locked = refl

key_set : is_set (run_of true true none).machine_key ≡ true
unfolding is_set
key_set = refl

ansible_run-Keeps_example :
    Keeps
      (Unconnected (run_of false false none))
      Never
      (ansible_run (run_of false false none) fresh)
ansible_run-Keeps_example = ansible_run-Keeps (run_of false false none) fresh begin

shift-Inverts : Inverts shift
shift-Inverts = record {
  decoded = λ text. refl;
  decoded_empty = refl;
  decrypted = λ iv text. back text;
}
  where
    back : (text : Text) → map (λ c. c - 1) (map (λ c. c + 1) text) ≡ text
    back [] = refl
    back (c ∷ text) = let same : c + 1 - 1 ≡ c = omega arith in rw (same, back text) refl

decipher-cipher_example :
    (stored : Text) × (cipher shift (some vector) (codes "key") ≡ some stored)
    × (decipher shift stored ≡ some (codes "key"))
unfolding is_set
decipher-cipher_example = decipher-cipher shift vector (codes "key") shift-Inverts refl refl
