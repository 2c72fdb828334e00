-- ===== src/Rbac/Engine/Laws.antt =====
-- What the shared checks decide, on a database that answers as documented.
use tensor.Prelude.{
  ◌<◌, ◌≡◌, refl, ◌↔◌, inl, inr, ◌≢◌, Bool, true, false, none, some, String, List, [], ◌∷◌, ◌++◌,
  map, arith, Some, Some-imp, count_if, count_if-pos_iff, any, string_eq_iff, Option-cases,
  count_if-none, ◌∙◌,
}
use tensor.Mongo.{object_id, text, value_beq, value_eq, Query, matches}
use tensor.Models.{AccessControl, Organization, Team, organization_document, team_document}
use tensor.Database.{Database, IsDocumented, IsUp}
use tensor.Rbac.Engine.{
  is_organization_admin, is_in_teams, in_granted_teams, admin_query, member_query, team_query,
  organization_admin, scan, allowed, counted,
}

-- Some entry of the role list names the user.
abbrev pub NamesUser : String → List AccessControl → Type 0
NamesUser user_id roles = Some (λ r. r.grantee_id ≡ user_id) roles

-- The stored organizations hold one with this id, of whose role entries one names the user
-- and one, perhaps another, carries the role "admin".
abbrev pub ActsAsAdmin : List Organization → String → String → Type 0
ActsAsAdmin organizations org_id user_id =
    Some
      (λ o.
        (o.id ≡ org_id)
        × NamesUser user_id o.roles
        × Some (λ r. r.role ≡ organization_admin) o.roles)
      organizations

-- The values of the role list at two paths.
any-grantees_iff :
    (user_id : String) (roles : List AccessControl)
    → (any (λ v. value_beq v (object_id user_id)) (map (λ r. object_id r.grantee_id) roles) ≡ true)
      ↔ NamesUser user_id roles
any-grantees_iff user_id [] = (λ h. cc, λ h. absurd h)
any-grantees_iff user_id (r ∷ roles) =
    ground (arith, string_eq_iff r.grantee_id user_id, any-grantees_iff user_id roles)

any-roles_iff :
    (name : String) (roles : List AccessControl)
    → (any (λ v. value_beq v (text name)) (map (λ r. text r.role) roles) ≡ true)
      ↔ Some (λ r. r.role ≡ name) roles
any-roles_iff name [] = (λ h. cc, λ h. absurd h)
any-roles_iff name (r ∷ roles) = ground (arith, string_eq_iff r.role name, any-roles_iff name roles)

matches-admin_query :
    (o : Organization) (org_id user_id : String)
    → (matches (organization_document o) (admin_query org_id user_id) ≡ true) ↔ (
        (o.id ≡ org_id)
        × NamesUser user_id o.roles
        × Some (λ r. r.role ≡ organization_admin) o.roles)
unfolding matches organization_document
matches-admin_query o org_id user_id = ground (
  arith,
  string_eq_iff o.id org_id,
  any-grantees_iff user_id o.roles,
  any-roles_iff organization_admin o.roles,
)

matches-member_query :
    (o : Organization) (org_id user_id : String)
    → (matches (organization_document o) (member_query org_id user_id) ≡ true)
      ↔ ((o.id ≡ org_id) × NamesUser user_id o.roles)
unfolding matches organization_document
matches-member_query o org_id user_id =
    ground (arith, string_eq_iff o.id org_id, any-grantees_iff user_id o.roles)

-- No team document has the path "_id:".
matches-team_query :
    (t : Team) (user_id : String) (teams : List String)
    → matches (team_document t) (team_query user_id teams) ≡ false
unfolding matches team_document
matches-team_query t user_id teams = refl

pub scan-allowed_iff :
    (wanted : String → Bool) (user_id : String) (roles : List AccessControl) (teams : List String)
    → (scan wanted user_id roles teams ≡ allowed)
      ↔ Some (λ v. (v.type ≡ "user") × (v.grantee_id ≡ user_id) × (wanted v.role ≡ true)) roles
unfolding scan
scan-allowed_iff wanted user_id [] teams = (λ h. cc, λ h. absurd h)
scan-allowed_iff wanted user_id (v ∷ roles) teams = ground (
  arith,
  string_eq_iff v.type "user",
  string_eq_iff v.grantee_id user_id,
  scan-allowed_iff wanted user_id roles teams,
  scan-allowed_iff wanted user_id roles (teams ++ v.grantee_id ∷ []),
)

module _ {db : Database} {organizations : List Organization} {teams : List Team}
    (documented : IsDocumented db organizations teams) where
  -- A count that succeeds and is positive has found a matching document.
  counted-Some :
      (q : Query)
      → counted (db.count_organizations q) ≡ true
      → Some (λ o. matches (organization_document o) q ≡ true) organizations
  counted-Some q h =
      let positive : 0 < count_if (λ o. matches (organization_document o) q) organizations =
        ground (arith, documented.organizations_counted q) in
      (count_if-pos_iff _ organizations).0 positive

  Some-counted :
      (q : Query)
      → (db.count_organizations q).error ≡ none
      → Some (λ o. matches (organization_document o) q ≡ true) organizations
      → counted (db.count_organizations q) ≡ true
  Some-counted q up h =
      ground (arith, documented.organizations_counted q, (count_if-pos_iff _ organizations).1 h)

  pub is_organization_admin_sound :
      (org_id user_id : String)
      → is_organization_admin db org_id user_id ≡ true
      → (org_id ≢ "") × ActsAsAdmin organizations org_id user_id
  unfolding is_organization_admin
  is_organization_admin_sound org_id user_id h = (
    ground (arith, string_eq_iff org_id ""),
    Some-imp _ _ (λ o m. (matches-admin_query o org_id user_id).0 m) organizations
        (counted-Some (admin_query org_id user_id) (ground arith)),
  )

  pub is_organization_admin_complete :
      (org_id user_id : String)
      → IsUp db
      → org_id ≢ ""
      → ActsAsAdmin organizations org_id user_id
      → is_organization_admin db org_id user_id ≡ true
  unfolding is_organization_admin
  is_organization_admin_complete org_id user_id up ne h =
      let found =
        Some-counted (admin_query org_id user_id) (up.organizations_up _)
          (Some-imp _ _ (λ o m. (matches-admin_query o org_id user_id).1 m) organizations h) in
      ground (arith, string_eq_iff org_id "")

  -- The query on the teams finds nothing, whatever the user, the teams and the stored documents.
  no_team :
      (user_id : String) (ids : List String) → (db.count_teams (team_query user_id ids)).found ≡ 0
  no_team user_id ids = elim (Option-cases (db.count_teams (team_query user_id ids)).error) [
    | inl up ↦
        documented.teams_counted _ up
        ∙ count_if-none _ teams (λ t. matches-team_query t user_id ids)
    | inr (e, down) ↦ documented.teams_failed _ e down
  ]

  pub in_granted_teams-false :
      (user_id : String) (ids : List String) → in_granted_teams db user_id ids ≡ false
  unfolding in_granted_teams
  in_granted_teams-false user_id ids = rw (no_team user_id ids)

  -- On a database that answers as documented, the check whether a user is in one of some teams
  -- never passes, whatever the user, the teams and the stored documents: the query names a path
  -- that no team document has.
  pub is_in_teams-false :
      (user_id : String) (ids : List String) → is_in_teams db user_id ids ≡ false
  unfolding is_in_teams
  is_in_teams-false user_id ids = rw (no_team user_id ids)

  -- An organization that the user acts as an admin of has him as a member.
  pub member_found :
      (org_id user_id : String)
      → IsUp db
      → ActsAsAdmin organizations org_id user_id
      → 0 < (db.count_organizations (member_query org_id user_id)).found
  member_found org_id user_id up h =
      let counted' = Some-counted (member_query org_id user_id) (up.organizations_up _) (
        Some-imp _ _ (λ o m. (matches-member_query o org_id user_id).1 (m.0, m.1)) organizations
          h) in
      ground arith

-- While no count of organizations succeeds, nobody acts as an admin.
pub is_organization_admin-down :
    (db : Database) (org_id user_id : String)
    → ((q : Query) → (e : String) × ((db.count_organizations q).error ≡ some e))
    → is_organization_admin db org_id user_id ≡ false
unfolding is_organization_admin
is_organization_admin-down db org_id user_id down =
    let (e, failed) = down (admin_query org_id user_id) in ground arith
