-- ===== src/Api/Team.antt =====
-- api/team.go: the requests that read or change one team. Its children have those that list, and the
-- assignment of roles.
pub mod Lists
pub mod AssignRole
pub mod Created
use tensor.Prelude.{
  ℕ, Bool, true, false, not, ◌&&◌, ◌||◌, Option, none, some, String, List, [], ◌∷◌, if◌then◌else◌,
  ◌==◌, string_eq,
}
use tensor.Prelude.Text.{Text, trim_blanks}
use tensor.Mongo.{Count}
use tensor.Models.{AccessControl, User, Team}
use tensor.Database.{Database}
use tensor.Database.Server.{teams, add_to_set}
use tensor.QueryParser.{Query}
use tensor.Rbac.Engine.{counted, has_global_write, is_organization_admin, role_type_user}
use tensor.Rbac.Organization as rbac_organization
use tensor.Rbac.Team as rbac_team
use tensor.Api.{
  Write, insert, update_id, remove_id, change_roles, note, Event, sent, message, item, empty,
  abort_with_error, try, fire, Cursor, Passage, passed, refused, Bound, bound, unbound,
  invalid_body, no_permission,
}
use tensor.Api.User.{pull_all, grants_of, granted}

pub record TeamData : Type 0 where
  pub team : Team
  pub description : String
  pub created_by_id : String
  pub modified_by_id : String
  pub created : ℕ
  pub modified : ℕ

pub record Reads : Type 0 where
  pub db : Database
  pub is_object_id : String → Bool
  pub find : String → Option TeamData
  pub find_user : String → Option User
  pub select : Query → Text → Cursor TeamData
  pub count_named : String → String → Count
  pub count_organization : String → Count
  pub new_id : String
  pub now : ℕ

unfoldable pub middleware : Reads → User → String → String → Passage TeamData
middleware r user method id =
    let at : Passage TeamData = elim (r.find id) [
      | none ↦ refused 404 "Team does not exist"
      | some t ↦
          if method == "GET"
          then if not (rbac_team.read r.db user t.team) then refused 401 no_permission else passed t
          else if method == "PUT" || method == "DELETE"
          then if not (rbac_team.write r.db user t.team)
            then refused 401 no_permission
            else passed t
          else passed t
    ] in
    if not (r.is_object_id id) then refused 404 "Team does not exist" else at

unfoldable pub one : TeamData → List (Event TeamData TeamData)
one t = sent 200 (item t) ∷ []

unfoldable pub new_team : Reads → User → TeamData → TeamData
new_team r user req = record req {
  team = record req.team { id = r.new_id };
  created = r.now;
  modified = r.now;
  created_by_id = user.id;
  modified_by_id = user.id;
}

unfoldable pub insert_team :
    Reads → (Write TeamData → Bool) → User → TeamData → List (Event TeamData TeamData)
unfolding new_team
insert_team r works user req =
    let t = new_team r user req in
    let entry : AccessControl = record {
      grantee_id = user.id;
      type = role_type_user;
      role = rbac_team.team_admin;
    } in
    let rest = fire works (note "create" user.id t.team.id none) (sent 201 (item t) ∷ []) in
    try works (insert t) (abort_with_error 504 "Error while creating team") (
      if not (has_global_write user)
        && not (is_organization_admin r.db t.team.organization_id user.id)
      then fire works (change_roles teams t.team.id (add_to_set entry))
          (fire works (note "associate" user.id t.team.id (some user.id)) rest)
      else rest)

-- Where the user may not change the organization, a response is sent, and the handler goes on.
unfoldable pub check_organization :
    Reads → User → String → List (Event TeamData TeamData) → List (Event TeamData TeamData)
check_organization r user id rest =
    if not (rbac_organization.write_by_id r.db user id)
    then sent 401 (message no_permission) ∷ rest
    else rest

unfoldable pub create :
    Reads → (Write TeamData → Bool) → User → Bound TeamData → List (Event TeamData TeamData)
unfolding check_organization insert_team
create r works user (unbound emsgs) = invalid_body emsgs
create r works user (bound req) =
    if not (counted (r.count_organization req.team.organization_id))
    then abort_with_error 400 "Organization does not exists."
    else check_organization r user req.team.organization_id (
        if counted (r.count_named req.team.name req.team.organization_id)
        then abort_with_error 400 "Team with this name and organization already exists."
        else insert_team r works user req)

unfoldable pub changed : Reads → User → TeamData → TeamData → TeamData
changed r user t req = record t {
  team = record t.team {
    name = trim_blanks req.team.name;
    organization_id = req.team.organization_id;
  };
  description = trim_blanks req.description;
  modified = r.now;
  modified_by_id = user.id;
}

unfoldable pub update :
    Reads
    → (Write TeamData → Bool)
    → User
    → Bound TeamData
    → TeamData
    → List (Event TeamData TeamData)
unfolding check_organization changed
update r works user (unbound emsgs) team = invalid_body emsgs
update r works user (bound req) team =
    let t = changed r user team req in
    if not (counted (r.count_organization req.team.organization_id))
    then abort_with_error 400 "Organization does not exists."
    else check_organization r user req.team.organization_id (
        if not (req.team.name == team.team.name)
          && counted (r.count_named req.team.name req.team.organization_id)
        then abort_with_error 400 "Team with this name and organization already exists."
        else try works (update_id team.team.id t)
            (abort_with_error 504 "Error while updating team.")
            (fire works (note "update" user.id t.team.id (some team.team.id))
              (sent 200 (item t) ∷ [])))

unfoldable pub delete : (Write TeamData → Bool) → User → TeamData → List (Event TeamData TeamData)
unfolding grants_of pull_all granted
delete works user t =
    let failure : String = "Error while removing team" in
    let id = t.team.id in
    pull_all works granted (grants_of id) failure (
      try works (remove_id teams id) (abort_with_error 504 failure)
        (fire works (note "delete" user.id id none) (sent 204 empty ∷ [])))
