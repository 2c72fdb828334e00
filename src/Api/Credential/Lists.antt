-- ===== src/Api/Credential/Lists.antt =====
-- api/credential.go: the requests that list credentials, or what belongs to one.
use tensor.Prelude.{
  not, Option, none, some, String, List, [], ◌∷◌, if◌then◌else◌, ◌==◌, string_eq, map,
}
use tensor.Prelude.Text.{codes}
use tensor.Models.{AccessControl, User, Team}
use tensor.QueryParser.{Query, Form, match, lookups, order_by}
use tensor.Rbac.Credential as rbac_credential
use tensor.Api.{Event, abort_with_error, no_page, PageQuery, send_page, Cursor, keep, ObjectRole}
use tensor.Api.Credential.{CredentialData, Reads, hide_encrypted}

unfoldable pub asked : Form → Query
asked form = lookups form (codes "name" ∷ codes "username" ∷ []) (match form (codes "kind" ∷ []) [])

unfoldable pub all : Reads → User → Form → PageQuery → List (Event CredentialData CredentialData)
unfolding asked hide_encrypted
all r user form q =
    let cursor = r.select (asked form) (order_by form) in
    let kept = keep (λ c. rbac_credential.read r.db user c.credential) cursor.found in
    if not cursor.closes
    then abort_with_error 504 "Error while getting credential"
    else send_page no_page q (map hide_encrypted kept)

-- The grantees of one type in a role list; those that cannot be read are skipped.
unfoldable pub grantees : {A : Type 0} → (String → Option A) → String → List AccessControl → List A
grantees find type [] = []
grantees find type (v ∷ roles) =
    let rest = grantees find type roles in
    if v.type == type then elim (find v.grantee_id) [ none ↦ rest | some a ↦ a ∷ rest ] else rest

unfoldable pub owner_teams : Reads → PageQuery → CredentialData → List (Event CredentialData Team)
unfolding grantees
owner_teams r q c = send_page no_page q (grantees r.find_team "team" c.credential.roles)

unfoldable pub owner_users : Reads → PageQuery → CredentialData → List (Event CredentialData User)
unfolding grantees
owner_users r q c = send_page no_page q (grantees r.find_user "user" c.credential.roles)

unfoldable pub activity_stream :
    {A : Type 0} → (String → Cursor A) → PageQuery → CredentialData → List (Event CredentialData A)
activity_stream activities q c =
    let cursor = activities c.credential.id in
    if not cursor.closes
    then abort_with_error 504 "Error while getting Activities"
    else send_page no_page q cursor.found

unfoldable pub object_roles : PageQuery → CredentialData → List (Event CredentialData ObjectRole)
object_roles q c =
    let role = λ (name description : String).
      let r : ObjectRole = record {
        resource_id = c.credential.id;
        resource_name = c.credential.name;
        resource_type = "credential";
        name = name;
        description = description;
      } in
      r in
    send_page no_page q (
      role "admin" "Can manage all aspects of the credential"
      ∷ role "use" "Can use the credential in a job template"
      ∷ [])
