-- ===== src/Api/Team/Lists.antt =====
-- api/team.go: the requests that list teams, or what belongs to one.
use tensor.Prelude.{not, String, List, [], ◌∷◌, if◌then◌else◌, map}
use tensor.Prelude.Text.{codes}
use tensor.Mongo as mongo
use tensor.Mongo.{object_id, text, equals}
use tensor.Models.{User, Project}
use tensor.QueryParser.{Query, Form, lookups, order_by}
use tensor.Rbac.Team as rbac_team
use tensor.Rbac.Project as rbac_project
use tensor.Rbac.Credential as rbac_credential
use tensor.Api.{
  Event, sent, errors, abort_with_error, no_page, bad_page, PageQuery, send_page, Cursor, keep,
}
use tensor.Api.Credential.{CredentialData, hide_encrypted}
use tensor.Api.Credential.Lists.{grantees}
use tensor.Api.Team.{TeamData, Reads}

unfoldable pub asked : Form → Query
asked form = lookups form (codes "name" ∷ codes "description" ∷ codes "organization" ∷ []) []

unfoldable pub all : Reads → User → Form → PageQuery → List (Event TeamData TeamData)
unfolding asked
all r user form q =
    let cursor = r.select (asked form) (order_by form) in
    if not cursor.closes
    then abort_with_error 504 "Error while getting teams"
    else send_page no_page q (keep (λ t. rbac_team.read r.db user t.team) cursor.found)

unfoldable pub team_users : Reads → PageQuery → TeamData → List (Event TeamData User)
unfolding grantees
team_users r q t = send_page bad_page q (grantees r.find_user "user" t.team.roles)

-- The filter on the role lists. The documents have the grantee under another name.
abbrev pub granted_query : String → mongo.Query
granted_query id =
    ("roles.type", equals (text "team")) ∷ ("roles.team_id", equals (object_id id)) ∷ []

unfoldable pub team_credentials :
    Reads
    → (mongo.Query → Cursor CredentialData)
    → User
    → PageQuery
    → TeamData
    → List (Event TeamData CredentialData)
team_credentials r find user q t =
    let cursor = find (granted_query t.team.id) in
    let kept = keep (λ c. rbac_credential.read r.db user c.credential) cursor.found in
    if not cursor.closes
    then sent 500 (errors ("Error while getting Credential" ∷ [])) ∷ []
    else send_page bad_page q (map hide_encrypted kept)

unfoldable pub team_projects :
    Reads
    → (mongo.Query → Cursor Project)
    → User
    → PageQuery
    → TeamData
    → List (Event TeamData Project)
team_projects r find user q t =
    let cursor = find (granted_query t.team.id) in
    if not cursor.closes
    then sent 500 (errors ("Error while getting Projects" ∷ [])) ∷ []
    else send_page bad_page q (keep (λ p. rbac_project.read r.db user p) cursor.found)

unfoldable pub activity_stream :
    {A : Type 0} → (String → Cursor A) → PageQuery → TeamData → List (Event TeamData A)
activity_stream activities q t =
    let cursor = activities t.team.id in
    if not cursor.closes
    then sent 500 (errors ("Error while getting Activities" ∷ [])) ∷ []
    else send_page bad_page q cursor.found
