-- ===== src/Api/Organization.antt =====
-- api/organization.go: the requests that read or change one organization. Its child Lists has those
-- that list.
pub mod Lists
use tensor.Prelude.{
  ℕ, Bool, true, false, not, ◌&&◌, ◌||◌, Option, none, some, String, List, [], ◌∷◌, if◌then◌else◌,
  ◌==◌, string_eq,
}
use tensor.Prelude.Text.{Text, trim_blanks}
use tensor.Mongo.{Count}
use tensor.Models.{AccessControl, User, Team, Organization}
use tensor.Database.Server.{
  Collection, organizations, teams, projects, credentials, inventories, job_templates,
  terraform_job_templates, jobs, terraform_jobs, hosts, groups,
}
use tensor.QueryParser.{Query}
use tensor.Rbac.Engine.{counted}
use tensor.Rbac.Organization as rbac_organization
use tensor.Api.{
  Write, insert, update_id, remove_id, remove_where, note, Event, sent, item, empty,
  abort_with_error, try, fire, Cursor, Passage, passed, refused, Bound, bound, unbound,
  invalid_body, no_permission,
}

pub record OrganizationData : Type 0 where
  pub organization : Organization
  pub description : String
  pub created_by_id : String
  pub modified_by_id : String
  pub created : ℕ
  pub modified : ℕ

-- `project_ids` and `inventory_ids` are the iterators over what belongs to an organization.
pub record Reads : Type 0 where
  pub is_object_id : String → Bool
  pub find : String → Option OrganizationData
  pub find_user : String → Option User
  pub find_team : String → Option Team
  pub select : Query → Text → Cursor OrganizationData
  pub count_named : String → Count
  pub project_ids : String → Cursor String
  pub inventory_ids : String → Cursor String
  pub new_id : String
  pub now : ℕ

unfoldable pub middleware : Reads → User → String → String → Passage OrganizationData
middleware r user method id =
    let at : Passage OrganizationData = elim (r.find id) [
      | none ↦ refused 404 "Organization does not exist"
      | some o ↦
          if method == "GET"
          then if not (rbac_organization.read user o.organization)
            then refused 401 no_permission
            else passed o
          else if method == "PUT" || method == "DELETE"
          then if not (rbac_organization.write user o.organization)
            then refused 401 no_permission
            else passed o
          else passed o
    ] in
    if not (r.is_object_id id) then refused 404 "Organization does not exist" else at

unfoldable pub one : OrganizationData → List (Event OrganizationData OrganizationData)
one o = sent 200 (item o) ∷ []

unfoldable pub new_organization : Reads → User → OrganizationData → OrganizationData
new_organization r user req = record req {
  organization = record req.organization {
    id = r.new_id;
    name = trim_blanks req.organization.name;
  };
  description = trim_blanks req.description;
  created = r.now;
  created_by_id = user.id;
  modified = r.now;
  modified_by_id = user.id;
}

unfoldable pub insert_organization :
    Reads
    → (Write OrganizationData → Bool)
    → User
    → OrganizationData
    → List (Event OrganizationData OrganizationData)
unfolding new_organization
insert_organization r works user req =
    let o = new_organization r user req in
    if counted (r.count_named req.organization.name)
    then abort_with_error 400 "Organization with this Name already exists."
    else try works (insert o) (abort_with_error 504 "Error while creating Organization")
        (fire works (note "create" user.id o.organization.id none) (sent 201 (item o) ∷ []))

unfoldable pub create :
    Reads
    → (Write OrganizationData → Bool)
    → User
    → Bound OrganizationData
    → List (Event OrganizationData OrganizationData)
unfolding insert_organization
create r works user req =
    let with_body : List (Event OrganizationData OrganizationData) = elim req [
      | unbound emsgs ↦ invalid_body emsgs
      | bound o ↦ insert_organization r works user o
    ] in
    if not user.is_super_user then abort_with_error 401 no_permission else with_body

unfoldable pub changed : Reads → User → OrganizationData → OrganizationData → OrganizationData
changed r user o req = record o {
  organization = record o.organization { name = trim_blanks req.organization.name };
  description = trim_blanks req.description;
  modified = r.now;
  modified_by_id = user.id;
}

unfoldable pub update :
    Reads
    → (Write OrganizationData → Bool)
    → User
    → Bound OrganizationData
    → OrganizationData
    → List (Event OrganizationData OrganizationData)
unfolding changed
update r works user (unbound emsgs) organization = invalid_body emsgs
update r works user (bound req) organization =
    let o = changed r user organization req in
    let id = organization.organization.id in
    if not (req.organization.name == organization.organization.name)
      && counted (r.count_named req.organization.name)
    then abort_with_error 400 "Organization with this Name already exists."
    else try works (update_id id o) (abort_with_error 504 "Error while updating Organization")
        (fire works (note "update" user.id id (some id)) (sent 200 (item o) ∷ []))

-- Removals in their order, each with the message of its failure, until one fails.
unfoldable pub remove_all :
    {D A : Type 0}
    → (Write D → Bool)
    → List (Write D × String)
    → List (Event D A)
    → List (Event D A)
remove_all works [] rest = rest
remove_all works ((w, failure) ∷ ws) rest =
    let more = remove_all works ws rest in try works w (abort_with_error 504 failure) more

-- The removals of `Delete`, the organization's own last.
unfoldable pub removals :
    String → (project_ids inventory_ids : List String) → List (Write OrganizationData × String)
removals id project_ids inventory_ids =
    (remove_where jobs "project_id" project_ids, "Error while removing jobs")
    ∷ (remove_where job_templates "project_id" project_ids, "Error while removing job tempaltes")
    ∷ (remove_where terraform_jobs "project_id" project_ids, "Error while removing terraform jobs")
    ∷ (
      remove_where terraform_job_templates "project_id" project_ids,
      "Error while removing terraform job templates",
    )
    ∷ (remove_where projects "organization_id" (id ∷ []), "Error while removing projects")
    ∷ (remove_where hosts "inventory_id" inventory_ids, "Error while removing hosts")
    ∷ (remove_where groups "inventory_id" inventory_ids, "Error while removing groups")
    ∷ (remove_where inventories "organization_id" (id ∷ []), "Error while removing inventories")
    ∷ (remove_where teams "organization_id" (id ∷ []), "Error while removing terraform teams")
    ∷ (
      remove_where credentials "organization_id" (id ∷ []),
      "Error while removing terraform credentials",
    )
    ∷ (remove_id organizations id, "Error while removing organization")
    ∷ []

-- The error of the second iterator is not looked at: the first one is closed once more.
unfoldable pub delete :
    Reads
    → (Write OrganizationData → Bool)
    → User
    → OrganizationData
    → List (Event OrganizationData OrganizationData)
unfolding remove_all removals
delete r works user o =
    let id = o.organization.id in
    if not (r.project_ids id).closes
    then abort_with_error 504 "Error while removing Projects"
    else remove_all works (removals id (r.project_ids id).found (r.inventory_ids id).found)
        (fire works (note "delete" user.id id none) (sent 204 empty ∷ []))
