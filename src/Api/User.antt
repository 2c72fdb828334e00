-- ===== src/Api/User.antt =====
-- api/user.go: the requests that read or change one user. Its children have those that list, and the
-- assignment of roles. `hash` is bcrypt, whose error is dropped.
pub mod Lists
pub mod AssignRole
pub mod Empty
pub mod Escalation
use tensor.Prelude.{
  ℕ, Bool, true, false, not, ◌&&◌, Option, none, some, String, List, [], ◌∷◌, if◌then◌else◌, ◌==◌,
  ◌||◌, string_eq, map,
}
use tensor.Prelude.Text.{Text, codes}
use tensor.Mongo.{Count}
use tensor.Models.{AccessControl, User}
use tensor.Database.Server.{
  Collection, projects, credentials, inventories, job_templates, terraform_job_templates, users,
}
use tensor.QueryParser.{Query, Form, lookups, order_by}
use tensor.Rbac.Engine.{counted}
use tensor.Rbac.User as rbac_user
use tensor.Api.{
  Write, insert, update_id, remove_id, pull_from, note, Event, sent, item, empty, no_page,
  abort_with_error, try, fire, Cursor, keep, PageQuery, send_page, Passage, passed, refused, Bound,
  bound, unbound, invalid_body, no_permission,
}

pub record UserData : Type 0 where
  pub user : User
  pub username : String
  pub first_name : String
  pub last_name : String
  pub email : String
  pub password : String
  pub organization_id : String
  pub created : ℕ
  pub modified : ℕ

-- `count_email` and `count_username` are the queries of `IsUniqueEmail` and `IsUniqueUsername`.
pub record Reads : Type 0 where
  pub is_object_id : String → Bool
  pub find : String → Option UserData
  pub select : Query → Text → Cursor UserData
  pub count_email : String → Count
  pub count_username : String → Count
  pub hash : String → String
  pub new_id : String
  pub now : ℕ

abbrev pub hidden : String
hidden = "$encrypted$"

unfoldable pub hide_password : UserData → UserData
hide_password u = record u { password = hidden }

unfoldable pub middleware : Reads → User → String → String → Passage UserData
middleware r login method id =
    let at : Passage UserData = elim (r.find id) [
      | none ↦ refused 404 "User does not exist"
      | some u ↦
          if method == "GET"
          then if not (rbac_user.read login u.user) then refused 401 no_permission else passed u
          else if method == "PUT" || method == "DELETE"
          then if not (rbac_user.write login u.user) then refused 401 no_permission else passed u
          else if method == "POST"
          then if not (rbac_user.write_special login u.user)
            then refused 401 no_permission
            else passed u
          else passed u
    ] in
    if not (r.is_object_id id) then refused 404 "User does not exist" else at

unfoldable pub one : UserData → List (Event UserData UserData)
unfolding hide_password
one u = sent 200 (item (hide_password u)) ∷ []

unfoldable pub new_user : Reads → UserData → UserData
new_user r req = record req {
  user = record req.user { id = r.new_id };
  password = r.hash req.password;
  created = r.now;
  modified = r.now;
}

unfoldable pub create :
    Reads → (Write UserData → Bool) → User → Bound UserData → List (Event UserData UserData)
unfolding new_user hide_password
create r works login req =
    let store = λ (req : UserData).
      let u = new_user r req in
      try works (insert u) (abort_with_error 504 "Error while creating user") (
        fire works (note "create" login.id u.user.id none)
          (sent 201 (item (hide_password u)) ∷ [])) in
    let with_body : List (Event UserData UserData) = elim req [
      | unbound emsgs ↦ invalid_body emsgs
      | bound req ↦
          if counted (r.count_email req.email)
          then abort_with_error 400 "Email is alredy in use."
          else if counted (r.count_username req.username)
          then abort_with_error 400 "Username is alredy in use."
          else store req
    ] in
    if not login.is_super_user then abort_with_error 401 no_permission else with_body

unfoldable pub changed : Reads → UserData → UserData → UserData
changed r u req = record u {
  username = req.username;
  first_name = req.first_name;
  last_name = req.last_name;
  email = req.email;
  password = if not (req.password == hidden) then r.hash req.password else u.password;
  modified = r.now;
}

unfoldable pub update :
    Reads
    → (Write UserData → Bool)
    → User
    → Bound UserData
    → UserData
    → List (Event UserData UserData)
unfolding changed hide_password
update r works actor (unbound emsgs) user = invalid_body emsgs
update r works actor (bound req) user =
    let u = changed r user req in
    if not (user.email == req.email) && counted (r.count_email req.email)
    then abort_with_error 400 "Email is alredy in use."
    else if not (user.username == req.username) && counted (r.count_username req.username)
    then abort_with_error 400 "Username is alredy in use."
    else try works (update_id user.user.id u) (abort_with_error 504 "Error while updating user.") (
        fire works (note "update" actor.id user.user.id (some u.user.id))
          (sent 200 (item (hide_password u)) ∷ []))

-- The entry that is pulled names the grantee only: its type and role are empty texts.
unfoldable pub grants_of : String → AccessControl
grants_of id = record { grantee_id = id; type = ""; role = "" }

-- The entries are pulled from one collection after the other, until one fails.
unfoldable pub pull_all :
    {D A : Type 0}
    → (Write D → Bool)
    → List Collection
    → AccessControl
    → String
    → List (Event D A)
    → List (Event D A)
pull_all works [] entry failure rest = rest
pull_all works (c ∷ cs) entry failure rest =
    let more = pull_all works cs entry failure rest in
    try works (pull_from c entry) (abort_with_error 504 failure) more

unfoldable pub granted : List Collection
granted = projects ∷ credentials ∷ inventories ∷ job_templates ∷ terraform_job_templates ∷ []

unfoldable pub delete : (Write UserData → Bool) → User → UserData → List (Event UserData UserData)
unfolding grants_of pull_all granted
delete works login u =
    let failure : String = "Error while removing user" in
    let id = u.user.id in
    pull_all works granted (grants_of id) failure (
      try works (remove_id users id) (abort_with_error 504 failure)
        (fire works (note "delete" login.id id none) (sent 204 empty ∷ [])))
