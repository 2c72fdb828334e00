-- ===== src/Api/User/Empty.antt =====
-- The lists of what a user has been granted, on a database that answers as documented.
use tensor.Prelude.{◌≡◌, refl, Bool, true, false, String, List, [], ◌∷◌, All, arith}
use tensor.Mongo as mongo
use tensor.Mongo.{matches, holds}
use tensor.Models.{Team, Organization, team_document, organization_document, role_values}
use tensor.Api.{Cursor, PageQuery, bad_page, send_page}
use tensor.Api.User.{UserData}
use tensor.Api.User.Lists.{
  granted_query, administered_query, user_teams, user_organizations, admins_of_organizations,
  send_found,
}

no_team : (t : Team) (id : String) → matches (team_document t) (granted_query id) ≡ false
unfolding matches team_document role_values
no_team t id = refl

no_organization :
    (o : Organization) (id : String) → matches (organization_document o) (granted_query id) ≡ false
unfolding matches organization_document role_values
no_organization o id = refl

no_administered :
    (o : Organization) (id : String)
    → matches (organization_document o) (administered_query id) ≡ false
unfolding matches organization_document role_values
no_administered o id = refl

none_matches :
    {A : Type 0} (test : A → Bool) (found : List A)
    → ((a : A) → test a ≡ false)
    → All (λ a. test a ≡ true) found
    → found ≡ []
none_matches test [] h k = refl
none_matches test (a ∷ found) h k = absurd (ground (arith, h a, k.0))

module _ (teams : mongo.Query → Cursor Team) (organizations : mongo.Query → Cursor Organization)
    (q : PageQuery) (u : UserData) where
  -- Whatever roles a user has: where queries find only documents that match them, and end without
  -- an error, his list of teams, his list of organizations and that of the organizations of which
  -- he is an admin are answered as empty lists.
  pub granted-empty :
      ((asked : mongo.Query)
        → All (λ t. matches (team_document t) asked ≡ true) (teams asked).found)
      → ((asked : mongo.Query)
          → All (λ o. matches (organization_document o) asked ≡ true) (organizations asked).found)
      → ((asked : mongo.Query) → (teams asked).closes ≡ true)
      → ((asked : mongo.Query) → (organizations asked).closes ≡ true)
      → (user_teams teams q u ≡ send_page bad_page q [])
        × (user_organizations organizations q u ≡ send_page bad_page q [])
        × (admins_of_organizations organizations q u ≡ send_page bad_page q [])
  unfolding user_teams user_organizations admins_of_organizations send_found
  granted-empty matching_teams matching_organizations teams_close organizations_close =
      let id = u.user.id in
      (
        rw (teams_close (granted_query id))
            (rw (none_matches _ _ (λ t. no_team t id) (matching_teams (granted_query id))) refl),
        rw (organizations_close (granted_query id)) (
            rw
              (none_matches _ _ (λ t. no_organization t id)
                (matching_organizations (granted_query id)))
              refl),
        rw (organizations_close (administered_query id)) (
            rw
              (none_matches _ _ (λ t. no_administered t id)
                (matching_organizations (administered_query id)))
              refl),
      )
