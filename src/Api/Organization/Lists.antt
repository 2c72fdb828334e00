-- ===== src/Api/Organization/Lists.antt =====
-- api/organization.go: the requests that list organizations, or what belongs to one.
use tensor.Prelude.{
  false, not, ◌&&◌, Option, none, some, String, List, [], ◌∷◌, ◌++◌, if◌then◌else◌, ◌==◌, string_eq,
}
use tensor.Prelude.Text.{codes}
use tensor.Models.{AccessControl, User, Team, Project, Inventory}
use tensor.QueryParser.{Query, Form, lookups, order_by}
use tensor.Rbac.Organization as rbac_organization
use tensor.Api.{Event, abort_with_error, no_page, PageQuery, send_page, Cursor, keep, ObjectRole}
use tensor.Api.Organization.{OrganizationData, Reads}

unfoldable pub asked : Form → Query
asked form = lookups form (codes "name" ∷ codes "description" ∷ []) []

unfoldable pub all :
    Reads → User → Form → PageQuery → List (Event OrganizationData OrganizationData)
unfolding asked
all r user form q =
    let cursor = r.select (asked form) (order_by form) in
    if not cursor.closes
    then abort_with_error 504 "Error while getting Organization"
    else send_page no_page q (keep (λ o. rbac_organization.read user o.organization) cursor.found)

-- A list of what belongs to the organization. `find` is the query for the field "organization_id";
-- `none` is its error.
unfoldable pub send_owned :
    {A : Type 0}
    → String
    → (String → Option (List A))
    → PageQuery
    → OrganizationData
    → List (Event OrganizationData A)
send_owned failure find q o = elim (find o.organization.id) [
  | none ↦ abort_with_error 504 failure
  | some found ↦ send_page no_page q found
]

unfoldable pub get_users :
    (String → Option (List User))
    → PageQuery
    → OrganizationData
    → List (Event OrganizationData User)
unfolding send_owned
get_users find q o = send_owned "Error while getting Organization users" find q o

unfoldable pub get_teams :
    (String → Option (List Team))
    → PageQuery
    → OrganizationData
    → List (Event OrganizationData Team)
unfolding send_owned
get_teams find q o = send_owned "Error while getting organization teams" find q o

unfoldable pub get_projects :
    (String → Option (List Project))
    → PageQuery
    → OrganizationData
    → List (Event OrganizationData Project)
unfolding send_owned
get_projects find q o = send_owned "Error while getting organization projects" find q o

unfoldable pub get_inventories :
    (String → Option (List Inventory))
    → PageQuery
    → OrganizationData
    → List (Event OrganizationData Inventory)
unfolding send_owned
get_inventories find q o = send_owned "Error while getting organization inventories" find q o

abbrev pub no_user : User
no_user = record { id = ""; is_super_user = false; is_system_auditor = false }

-- The users of a team's role list. An entry that is no user adds the empty user.
unfoldable pub team_admins : (String → Option User) → List AccessControl → List User
team_admins find_user [] = []
team_admins find_user (v ∷ roles) =
    let rest = team_admins find_user roles in
    let read : List User = elim (find_user v.grantee_id) [ none ↦ rest | some u ↦ u ∷ rest ] in
    if v.type == "user" then read else no_user ∷ rest

-- The users with the role "admin", and those of the teams with it; what cannot be read is skipped.
unfoldable pub admins_of :
    (String → Option User) → (String → Option Team) → List AccessControl → List User
unfolding team_admins
admins_of find_user find_team [] = []
admins_of find_user find_team (v ∷ roles) =
    let rest = admins_of find_user find_team roles in
    let with_user : List User = elim (find_user v.grantee_id) [ none ↦ rest | some u ↦ u ∷ rest ] in
    let with_team : List User = elim (find_team v.grantee_id) [
      | none ↦ rest
      | some team ↦ team_admins find_user team.roles ++ rest
    ] in
    if v.type == "user" && v.role == "admin"
    then with_user
    else if v.type == "team" && v.role == "admin"
    then with_team
    else rest

unfoldable pub get_admins :
    Reads → PageQuery → OrganizationData → List (Event OrganizationData User)
unfolding admins_of
get_admins r q o = send_page no_page q (admins_of r.find_user r.find_team o.organization.roles)

unfoldable pub activity_stream :
    {A : Type 0}
    → (String → Cursor A)
    → PageQuery
    → OrganizationData
    → List (Event OrganizationData A)
activity_stream activities q o =
    let cursor = activities o.organization.id in
    if not cursor.closes
    then abort_with_error 504 "Error while getting activities"
    else send_page no_page q cursor.found

unfoldable pub object_roles :
    PageQuery → OrganizationData → List (Event OrganizationData ObjectRole)
object_roles q o =
    let role = λ (name description : String).
      let r : ObjectRole = record {
        resource_id = o.organization.id;
        resource_name = o.organization.name;
        resource_type = "organization";
        name = name;
        description = description;
      } in
      r in
    send_page no_page q (
      role "member" "User is a member of the organization"
      ∷ role "admin" "Can manage all aspects of the organization"
      ∷ role "auditor" "Can view all settings for the organization"
      ∷ [])
