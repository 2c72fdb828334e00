-- ===== src/Ansible/Recorded.antt =====
-- What is recorded of a command, and the environment that it gets (exec/ansible/ansible.go,
-- getCmd).
use tensor.Prelude.{
  ◌≡◌, refl, ap, sym, ◌∙◌, ◌⊎◌, inl, inr, Bool, true, false, Option, none, some, List, [], ◌∷◌,
  ◌++◌, append-nil, arith, length, if◌then◌else◌,
}
use tensor.Prelude.Text.{Text}
use tensor.Cloud.{CloudCredential, Files, Given, Outcome, returned, panicked, get_cloud_credential}
use tensor.Cloud.Laws.{IsSupported, get_cloud_credential-env}
use tensor.Ansible.{
  AnsibleJob, Settings, Encoder, asks_ticket, build_params, user_params, become_params,
}
use tensor.Ansible.Command.{
  masked, variables, Command, made, command, recorded, hand_over, with_cloud, get_cmd,
}

-- The job with other passwords of the machine, another token and another cloud credential.
unfoldable pub with_secrets :
    {V : Type 0} → Text → Text → Text → CloudCredential → AnsibleJob V → AnsibleJob V
with_secrets password become_password token cloud j =
    let m = j.machine in
    record {
      job = j.job;
      template_id = j.template_id;
      template_name = j.template_name;
      machine = record {
        kind = m.kind;
        username = m.username;
        domain = m.domain;
        password = password;
        become_method = m.become_method;
        become_username = m.become_username;
        become_password = become_password;
      };
      is_cloud = j.is_cloud;
      cloud = cloud;
      inventory_id = j.inventory_id;
      project_id = j.project_id;
      token = token;
      paths = j.paths;
    }

masked-length : (s t : Text) → length s ≡ length t → masked s ≡ masked t
unfolding masked
masked-length [] [] same = refl
masked-length [] (b ∷ t) same = absurd (omega arith)
masked-length (a ∷ s) [] same = absurd (omega arith)
masked-length (a ∷ s) (b ∷ t) same = ap (λ u. b'*' ∷ u) (masked-length s t (omega arith))

-- What is recorded of a command, its parameters and its variables, does not depend on the password
-- of the machine credential, on its password for becoming another user, or on the cloud credential,
-- and of the token only on its length.
pub get_cmd-with_secrets :
    {V : Type 0} (fs : Files) (s : Settings) (world : Encoder V) (j : AnsibleJob V)
    (socket pid password become_password token : Text) (cloud : CloudCredential)
    → length token ≡ length j.token
    → (get_cmd fs s world (with_secrets password become_password token cloud j) socket pid).1
      ≡ (get_cmd fs s world j socket pid).1
unfolding get_cmd recorded with_secrets variables build_params user_params become_params
get_cmd-with_secrets fs s world j socket pid password become_password token cloud same =
    ap
      (λ stars. record {
        job_args = (recorded s world j socket pid).job_args;
        job_env = variables s j socket pid stars;
      })
      (masked-length token j.token same)

hand_over-made :
    (c c' : Command) (ticket ticket' : Bool) (r : Given) (error : Option Text) (file : Option Text)
    → hand_over c ticket r error ≡ made c' file ticket'
    → (error ≡ none) × (c'.env ≡ r.env)
unfolding hand_over
hand_over-made c c' ticket ticket' r none file h = (refl, cc)
hand_over-made c c' ticket ticket' r (some e) file h = absurd cc

with_cloud-made :
    (c c' : Command) (ticket ticket' : Bool) (o : Outcome) (file : Option Text)
    → with_cloud c ticket o ≡ made c' file ticket'
    → (r : Given) × (o ≡ returned r) × (r.error ≡ none) × (c'.env ≡ r.env)
unfolding with_cloud
with_cloud-made c c' ticket ticket' panicked file h = absurd cc
with_cloud-made c c' ticket ticket' (returned r) file h =
    let handed = hand_over-made c c' ticket ticket' r r.error file h in
    (r, refl, handed.0, handed.1)

-- A command that is made has its own variables, or those that came back with the cloud credential.
if_cloud-made :
    (b : Bool) (c c' : Command) (ticket ticket' : Bool) (o : Outcome) (file : Option Text)
    → (if b then with_cloud c ticket o else made c none ticket) ≡ made c' file ticket'
    → ((b ≡ false) × (c'.env ≡ c.env))
      ⊎ ((b ≡ true) × (r : Given) × (o ≡ returned r) × (r.error ≡ none) × (c'.env ≡ r.env))
if_cloud-made false c c' ticket ticket' o file h = inl (refl, cc)
if_cloud-made true c c' ticket ticket' o file h =
    let found = with_cloud-made c c' ticket ticket' o file h in
    inr (refl, found.0, found.1, found.2, found.3)

-- A command that is made for a job has the variables of the job, and perhaps others after them,
-- where the job has no cloud credential or one of the kinds "aws", "rax", "gce" and "azure". With a
-- cloud credential of any other kind it has a nil environment.
pub get_cmd-env :
    {V : Type 0} (fs : Files) (s : Settings) (world : Encoder V) (j : AnsibleJob V)
    (socket pid : Text) (c : Command) (file : Option Text) (ticket : Bool)
    → (get_cmd fs s world j socket pid).0 ≡ made c file ticket
    → (((j.is_cloud ≡ false) ⊎ IsSupported j.cloud.kind)
        × (added : List Text) × (c.env ≡ some (variables s j socket pid j.token ++ added)))
      ⊎ ((j.is_cloud ≡ true) × (IsSupported j.cloud.kind → ⊥) × (c.env ≡ none))
unfolding get_cmd command
get_cmd-env fs s world j socket pid c file ticket h =
    let base = variables s j socket pid j.token in
    elim (if_cloud-made j.is_cloud (command s world j socket pid) c (asks_ticket j.machine) ticket
      (get_cloud_credential fs world.decipher base j.cloud) file h) [
        | inl (off, same) ↦ inl (inl off, [], same ∙ ap some (sym (append-nil base)))
        | inr (on, r, given, fine, same) ↦
            elim (get_cloud_credential-env fs world.decipher base j.cloud r given fine) [
              | inl (kind, added, env) ↦ inl (inr kind, added, same ∙ env)
              | inr (kinds, env) ↦ inr (on, kinds, same ∙ env)
            ]
      ]
