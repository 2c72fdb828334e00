-- ===== src/Ssh.antt =====
-- ssh/agent.go: the start of the SSH agent.
use tensor.Prelude.{Option, none, some, List, [], ◌∷◌, if◌then◌else◌, ◌==◌, nat_eq}
use tensor.Prelude.Text.{Text, codes, split}

-- The agent's socket and the number of its process.
pub record Agent : Type 0 where
  pub socket : Text
  pub pid : Text

-- The second part of `SplitN(field, "=", 2)`, `none` for a panic.
unfoldable value : Text → Option Text
value [] = none
value (c ∷ s) = let rest = value s in if c == 61 then some s else rest

unfoldable first : List Text → Option Text
unfolding value
first [] = none
first (field ∷ fields) = value field

unfoldable third : List Text → Option Text
unfolding value
third (a ∷ b ∷ field ∷ fields) = value field
third _ = none

-- The agent, if nothing panics.
unfoldable found : (Text → Text) → Option Text → Option Text → Option Agent
found number (some socket) (some pid) = some (record { socket = socket; pid = number pid })
found number _ _ = none

-- `StartAgent`, with `none` for a panic. `out` is what ssh-agent prints, nothing if it cannot be run;
-- `number` gives the number that `strconv.Atoi` reads. Whether the socket can be dialled does not
-- matter here: the client is made without a connection then.
unfoldable pub start_agent : (Text → Text) → Text → Option Agent
unfolding found first third value
start_agent number out =
    let fields = split out (codes ";") in found number (first fields) (third fields)
