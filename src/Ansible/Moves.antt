-- ===== src/Ansible/Moves.antt =====
-- The states of a job (exec/ansible/logging.go) and their moves, as its updates tell them.
use tensor.Prelude.{Bool, true, false, List, [], ◌∷◌, ◌++◌}
use tensor.Prelude.Text.{Text, codes}
use tensor.Ansible.Life.{Update, job_started, job_status, job_finished, project, template}

-- A job is new, waits for its previous job, runs, or is over with a status and the flag of a failure.
pub data Phase : Type 0 where
  fresh waits runs : Phase
  over : Text → Bool → Phase

-- The updates that tell of the end: of the job, its project and its template.
abbrev pub ending : Text → Bool → Text → Text → List Update
ending s wrong e out = job_finished s wrong e out ∷ project s wrong ∷ template s wrong ∷ []

-- The moves of a job, each with its updates. A job that waits can only fail with "error", one that
-- runs only with "failed".
pub data Moves : Phase → List Update → Phase → Type 0 where
  wait : Moves fresh (job_status (codes "waiting") ∷ []) waits
  run_first : Moves fresh (job_started (codes "running") ∷ []) runs
  run_next : Moves waits (job_started (codes "running") ∷ []) runs
  give_up :
      (e out : Text) → Moves waits (ending (codes "error") true e out) (over (codes "error") true)
  fail :
      (e out : Text) → Moves runs (ending (codes "failed") true e out) (over (codes "failed") true)
  succeed :
      (e out : Text)
      → Moves runs (ending (codes "successful") false e out) (over (codes "successful") false)

-- The updates of a job so far, and where they lead.
pub data History : List Update → Phase → Type 0 where
  begin : History [] fresh
  move :
      {us : List Update} {p q : Phase} (ws : List Update)
      → History us p
      → Moves p ws q
      → History (us ++ ws) q
