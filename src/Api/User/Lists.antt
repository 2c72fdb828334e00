-- ===== src/Api/User/Lists.antt =====
-- api/user.go: the requests that list users, or what belongs to one.
use tensor.Prelude.{not, String, List, [], ◌∷◌, if◌then◌else◌, map}
use tensor.Prelude.Text.{codes}
use tensor.Mongo as mongo
use tensor.Mongo.{object_id, text, equals}
use tensor.Models.{User, Team, Organization, Project}
use tensor.QueryParser.{Query, Form, lookups, order_by}
use tensor.Rbac.User as rbac_user
use tensor.Api.{
  Event, sent, errors, abort_with_error, no_page, bad_page, PageQuery, send_page, Cursor, keep,
}
use tensor.Api.Credential.{CredentialData, hide_encrypted}
use tensor.Api.User.{UserData, Reads, hide_password}

unfoldable pub asked : Form → Query
asked form = lookups form (codes "username" ∷ codes "first_name" ∷ codes "last_name" ∷ []) []

unfoldable pub all : Reads → User → Form → PageQuery → List (Event UserData UserData)
unfolding asked hide_password
all r login form q =
    let cursor = r.select (asked form) (order_by form) in
    let kept = keep (λ u. rbac_user.read login u.user) cursor.found in
    if not cursor.closes
    then abort_with_error 504 "Error while getting users"
    else send_page no_page q (map hide_password kept)

-- A list of what a query finds.
unfoldable pub send_found : {A : Type 0} → String → PageQuery → Cursor A → List (Event UserData A)
send_found failure q cursor =
    if not cursor.closes
    then sent 500 (errors (failure ∷ [])) ∷ []
    else send_page bad_page q cursor.found

-- The filter on the role lists. The documents have the grantee under another name.
abbrev pub granted_query : String → mongo.Query
granted_query id =
    ("roles.user_id", equals (object_id id)) ∷ ("roles.type", equals (text "user")) ∷ []

abbrev pub administered_query : String → mongo.Query
administered_query id =
    ("roles.user_id", equals (object_id id))
    ∷ ("roles.type", equals (text "user"))
    ∷ ("roles.role", equals (text "admin"))
    ∷ []

unfoldable pub user_projects :
    (mongo.Query → Cursor Project) → PageQuery → UserData → List (Event UserData Project)
unfolding send_found
user_projects find q u =
    send_found "Error while getting Projects" q (find (granted_query u.user.id))

unfoldable pub user_credentials :
    (mongo.Query → Cursor CredentialData)
    → PageQuery
    → UserData
    → List (Event UserData CredentialData)
unfolding send_found
user_credentials find q u =
    let cursor = find (granted_query u.user.id) in
    send_found "Error while getting Credentials" q
      (record { found = map hide_encrypted cursor.found; closes = cursor.closes })

unfoldable pub user_teams :
    (mongo.Query → Cursor Team) → PageQuery → UserData → List (Event UserData Team)
unfolding send_found
user_teams find q u =
    send_found "Error while getting Credentials" q (find (granted_query u.user.id))

unfoldable pub user_organizations :
    (mongo.Query → Cursor Organization) → PageQuery → UserData → List (Event UserData Organization)
unfolding send_found
user_organizations find q u =
    send_found "Error while getting Organizations" q (find (granted_query u.user.id))

unfoldable pub admins_of_organizations :
    (mongo.Query → Cursor Organization) → PageQuery → UserData → List (Event UserData Organization)
unfolding send_found
admins_of_organizations find q u =
    send_found "Error while getting Organizations" q (find (administered_query u.user.id))

unfoldable pub activity_stream :
    {A : Type 0} → (String → Cursor A) → PageQuery → UserData → List (Event UserData A)
unfolding send_found
activity_stream activities q u =
    send_found "Error while getting Activities" q (activities u.user.id)
