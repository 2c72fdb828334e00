-- ===== src/Api/Credential/Update.antt =====
-- api/credential.go: the requests that change or remove a credential.
use tensor.Prelude.{
  Bool, not, ◌&&◌, none, some, String, List, [], ◌∷◌, if◌then◌else◌, ◌==◌, string_eq,
}
use tensor.Prelude.Text.{trim_blanks}
use tensor.Models.{User}
use tensor.Database.Server.{credentials}
use tensor.Rbac.Engine.{counted, has_global_write, is_organization_admin}
use tensor.Api.{
  Write, update_id, remove_id, note, Event, sent, item, empty, abort_with_error, try, fire, Bound,
  bound, unbound, invalid_body,
}
use tensor.Api.Credential.{
  CredentialData, Reads, Secrets, check_organization, encrypted, hide_encrypted, make_admin,
}

-- A secret of the request, unless it is the placeholder of a hidden one.
unfoldable pub reseal : (String → String) → String → String → String
reseal cipher old given = if not (given == encrypted) then cipher given else old

unfoldable pub changed_secrets : (String → String) → Secrets → Secrets → Secrets
unfolding reseal
changed_secrets cipher old req = record {
  password = reseal cipher old.password req.password;
  ssh_key_data = reseal cipher old.ssh_key_data req.ssh_key_data;
  ssh_key_unlock =
      if not (req.ssh_key_data == encrypted)
      then reseal cipher old.ssh_key_unlock req.ssh_key_unlock
      else old.ssh_key_unlock;
  become_password = reseal cipher old.become_password req.become_password;
  vault_password = reseal cipher old.vault_password req.vault_password;
  authorize_password = reseal cipher old.authorize_password req.authorize_password;
  secret = reseal cipher old.secret req.secret;
}

unfoldable pub changed : Reads → User → CredentialData → CredentialData → CredentialData
unfolding changed_secrets
changed r user c req = record c {
  credential = record c.credential {
    name = trim_blanks req.credential.name;
    organization_id = req.credential.organization_id;
  };
  description = trim_blanks req.description;
  settings = req.settings;
  secrets = changed_secrets r.cipher c.secrets req.secrets;
  modified_by_id = user.id;
  modified = r.now;
}

unfoldable pub settle :
    Reads
    → (Write CredentialData → Bool)
    → User
    → CredentialData
    → List (Event CredentialData CredentialData)
    → List (Event CredentialData CredentialData)
unfolding make_admin
settle r works user c rest =
    let of_organization : List (Event CredentialData CredentialData) =
      elim c.credential.organization_id [
        | none ↦ rest
        | some id ↦
            if not (is_organization_admin r.db id user.id)
            then make_admin works user c rest
            else rest
      ] in
    if not (has_global_write user) then make_admin works user c rest else of_organization

unfoldable pub update :
    Reads
    → (Write CredentialData → Bool)
    → User
    → Bound CredentialData
    → CredentialData
    → List (Event CredentialData CredentialData)
unfolding check_organization changed settle hide_encrypted
update r works user (unbound emsgs) credential = invalid_body emsgs
update r works user (bound req) credential =
    let c = changed r user credential req in
    let id = credential.credential.id in
    check_organization r user req.credential.organization_id (
      if not (req.credential.name == credential.credential.name)
        && counted (r.count_named req.credential.name)
      then abort_with_error 400 "Credential with this Name already exists."
      else try works (update_id id c) (abort_with_error 504 "Error while updating Credential") (
          settle r works user c (
            fire works (note "update" user.id id (some id))
              (sent 200 (item (hide_encrypted c)) ∷ []))))

unfoldable pub delete :
    (Write CredentialData → Bool)
    → User
    → CredentialData
    → List (Event CredentialData CredentialData)
delete works user c =
    let id = c.credential.id in
    try works (remove_id credentials id) (abort_with_error 504 "Error while deleting Credential")
      (fire works (note "delete" user.id id none) (sent 204 empty ∷ []))
