-- ===== src/Api/Credential.antt =====
-- api/credential.go, and hideEncrypted of api/util.go: the requests that read or
-- change one credential. Its child Lists has those that list.
-- `cipher` is util.Cipher, over the standard library's AES.
pub mod Lists
pub mod Created
pub mod Secrecy
pub mod Update
use tensor.Prelude.{
  ℕ, Bool, true, false, not, ◌&&◌, ◌||◌, Option, none, some, String, List, [], ◌∷◌, if◌then◌else◌,
  ◌==◌, string_eq, map,
}
use tensor.Prelude.Text.{Text, codes, trim_blanks}
use tensor.Mongo.{Count}
use tensor.Models.{AccessControl, User, Team, Credential}
use tensor.Database.{Database}
use tensor.Database.Server.{credentials, add_to_set}
use tensor.QueryParser.{Query, Form, match, lookups, order_by}
use tensor.Rbac.Engine.{
  counted, has_global_read, has_global_write, has_organization_read, is_organization_admin,
  role_type_user,
}
use tensor.Rbac.Credential as rbac_credential
use tensor.Api.{
  Write, insert, update_id, remove_id, change_roles, note, Event, sent, panicked, item, empty,
  no_page, abort_with_error, try, fire, Cursor, keep, PageQuery, send_page, Passage, passed,
  refused, Bound, bound, unbound, invalid_body, no_permission,
}

-- The fields that are stored encrypted.
pub record Secrets : Type 0 where
  pub password : String
  pub ssh_key_data : String
  pub ssh_key_unlock : String
  pub become_password : String
  pub vault_password : String
  pub authorize_password : String
  pub secret : String

-- The other fields that a request sets, but for the name, the description, the organization and the
-- e-mail address, which `update` leaves as it is.
pub record Settings : Type 0 where
  pub kind : String
  pub cloud : Bool
  pub host : String
  pub username : String
  pub security_token : String
  pub project : String
  pub domain : String
  pub become_method : String
  pub become_username : String
  pub subscription : String
  pub tenant : String
  pub client : String
  pub authorize : Bool

pub record CredentialData : Type 0 where
  pub credential : Credential
  pub description : String
  pub email : String
  pub settings : Settings
  pub secrets : Secrets
  pub created_by_id : String
  pub modified_by_id : String
  pub created : ℕ
  pub modified : ℕ

pub record Reads : Type 0 where
  pub db : Database
  pub is_object_id : String → Bool
  pub find : String → Option CredentialData
  pub find_team : String → Option Team
  pub find_user : String → Option User
  pub select : Query → Text → Cursor CredentialData
  pub count_named : String → Count
  pub count_organization : String → Count
  pub cipher : String → String
  pub new_id : String
  pub now : ℕ

abbrev pub encrypted : String
encrypted = "$encrypted$"

unfoldable pub hide_encrypted : CredentialData → CredentialData
hide_encrypted c = record c {
  secrets = record {
    password = encrypted;
    ssh_key_data = encrypted;
    ssh_key_unlock = encrypted;
    become_password = encrypted;
    vault_password = encrypted;
    authorize_password = encrypted;
    secret = encrypted;
  };
}

unfoldable pub middleware : Reads → User → String → String → Passage CredentialData
middleware r user method id =
    let at : Passage CredentialData = elim (r.find id) [
      | none ↦ refused 404 "Credential does not exist"
      | some c ↦
          if method == "GET"
          then if not (rbac_credential.read r.db user c.credential)
            then refused 401 no_permission
            else passed c
          else if method == "PUT" || method == "DELETE"
          then if not (rbac_credential.write r.db user c.credential)
            then refused 401 no_permission
            else passed c
          else passed c
    ] in
    if not (r.is_object_id id) then refused 404 "Credential does not exist" else at

unfoldable pub one : CredentialData → List (Event CredentialData CredentialData)
unfolding hide_encrypted
one c = sent 200 (item (hide_encrypted c)) ∷ []

-- The organization of the request exists, and the user may read it.
unfoldable pub check_organization :
    Reads
    → User
    → Option String
    → List (Event CredentialData CredentialData)
    → List (Event CredentialData CredentialData)
check_organization r user none rest = rest
check_organization r user (some id) rest =
    if not (counted (r.count_organization id))
    then abort_with_error 400 "Organization does not exists."
    else if not (has_global_read user || has_organization_read r.db id user.id)
    then abort_with_error 401 no_permission
    else rest

unfoldable pub seal : (String → String) → Secrets → Secrets
seal cipher s = record {
  password = cipher s.password;
  ssh_key_data = cipher s.ssh_key_data;
  ssh_key_unlock = cipher s.ssh_key_unlock;
  become_password = cipher s.become_password;
  vault_password = cipher s.vault_password;
  authorize_password = cipher s.authorize_password;
  secret = cipher s.secret;
}

unfoldable pub new_credential : Reads → User → CredentialData → CredentialData
unfolding seal
new_credential r user req = record req {
  credential = record req.credential { id = r.new_id; name = trim_blanks req.credential.name };
  description = trim_blanks req.description;
  secrets = seal r.cipher req.secrets;
  created_by_id = user.id;
  modified_by_id = user.id;
  created = r.now;
  modified = r.now;
}

-- The user becomes an admin of the credential.
unfoldable pub make_admin :
    (Write CredentialData → Bool)
    → User
    → CredentialData
    → List (Event CredentialData CredentialData)
    → List (Event CredentialData CredentialData)
make_admin works user c rest =
    let entry : AccessControl = record {
      grantee_id = user.id;
      type = role_type_user;
      role = rbac_credential.credential_admin;
    } in
    fire works (change_roles credentials c.credential.id (add_to_set entry))
      (fire works (note "associate" user.id c.credential.id (some user.id)) rest)

-- The test `!(global || !(id != nil || IsOrganizationAdmin(*id, user)))`: a nil id is dereferenced
-- where the user has no global write access.
unfoldable pub settle_new :
    (Write CredentialData → Bool)
    → User
    → CredentialData
    → List (Event CredentialData CredentialData)
    → List (Event CredentialData CredentialData)
unfolding make_admin
settle_new works user c rest =
    let checked : List (Event CredentialData CredentialData) = elim c.credential.organization_id [
      | none ↦ panicked ∷ []
      | some id ↦ make_admin works user c rest
    ] in
    if has_global_write user then rest else checked

unfoldable pub insert_credential :
    Reads
    → (Write CredentialData → Bool)
    → User
    → CredentialData
    → List (Event CredentialData CredentialData)
unfolding new_credential settle_new hide_encrypted
insert_credential r works user req =
    let c = new_credential r user req in
    try works (insert c) (abort_with_error 504 "Could not create Credential") (
      settle_new works user c (
        fire works (note "create" user.id c.credential.id none)
          (sent 201 (item (hide_encrypted c)) ∷ [])))

unfoldable pub create :
    Reads
    → (Write CredentialData → Bool)
    → User
    → Bound CredentialData
    → List (Event CredentialData CredentialData)
unfolding check_organization insert_credential
create r works user (unbound emsgs) = invalid_body emsgs
create r works user (bound req) = check_organization r user req.credential.organization_id (
    if counted (r.count_named req.credential.name)
    then abort_with_error 400 "Credential with this Name already exists."
    else insert_credential r works user req)
