-- ===== src/Rbac/Engine.antt =====
-- rbac/engine.go: the checks that all kinds of objects share. Logging is left out.
pub mod Laws
use tensor.Prelude.{
  ℕ, Bool, true, false, not, ◌&&◌, ◌||◌, Option, none, some, String, string_eq, List, [], ◌∷◌, ◌++◌,
  map, ltb, if◌then◌else◌, ◌==◌,
}
use tensor.Mongo.{Value, object_id, text, Condition, equals, is_in, Query, Count}
use tensor.Models.{AccessControl, User}
use tensor.Database.{Database}

abbrev pub role_type_team : String
role_type_team = "team"

abbrev pub role_type_user : String
role_type_user = "user"

abbrev pub organization_admin : String
organization_admin = "admin"

abbrev pub is_nil : Option String → Bool
is_nil none = true
is_nil (some _) = false

-- `count > 0 && err == nil`
abbrev pub counted : Count → Bool
counted c = ltb 0 c.found && is_nil c.error

abbrev pub admin_query : String → String → Query
admin_query org_id user_id =
    ("roles.grantee_id", equals (object_id user_id))
    ∷ ("_id", equals (object_id org_id))
    ∷ ("roles.role", equals (text organization_admin))
    ∷ []

unfoldable pub is_organization_admin : Database → String → String → Bool
is_organization_admin db org_id user_id =
    if org_id == "" then false else counted (db.count_organizations (admin_query org_id user_id))

abbrev pub member_query : String → String → Query
member_query org_id user_id =
    ("roles.grantee_id", equals (object_id user_id)) ∷ ("_id", equals (object_id org_id)) ∷ []

unfoldable pub has_organization_read : Database → String → String → Bool
has_organization_read db org_id user_id =
    if org_id == "" then false else counted (db.count_organizations (member_query org_id user_id))

-- The key of the first condition is spelled as in the source, with a colon.
abbrev pub team_query : String → List String → Query
team_query user_id teams =
    ("_id:", is_in (map object_id teams)) ∷ ("roles.grantee_id", equals (object_id user_id)) ∷ []

unfoldable pub is_in_teams : Database → String → List String → Bool
is_in_teams db user_id teams = counted (db.count_teams (team_query user_id teams))

unfoldable pub has_global_read : User → Bool
has_global_read user = user.is_super_user || user.is_system_auditor

unfoldable pub has_global_write : User → Bool
has_global_write user = user.is_super_user

-- The query on the teams that the checks on the single kinds of objects write out: `count > 0`
-- decides, and an error is logged only.
unfoldable pub in_granted_teams : Database → String → List String → Bool
in_granted_teams db user_id teams = ltb 0 (db.count_teams (team_query user_id teams)).found

-- The loop over an object's roles: it collects the teams with a wanted role, and returns true
-- (`allowed`) at the first entry that gives the user one.
pub data Scan : Type 0 where
  allowed : Scan
  pending : List String → Scan

unfoldable pub scan : (String → Bool) → String → List AccessControl → List String → Scan
scan wanted user_id [] teams = pending teams
scan wanted user_id (v ∷ roles) teams =
    let teams' =
      if v.type == role_type_team && wanted v.role then teams ++ v.grantee_id ∷ [] else teams in
    let rest = scan wanted user_id roles teams' in
    if v.type == role_type_user && v.grantee_id == user_id && wanted v.role then allowed else rest

-- What follows the loop.
abbrev pub conclude : (List String → Bool) → Scan → Bool
conclude in_teams allowed = true
conclude in_teams (pending teams) = in_teams teams

abbrev pub any_role : String → Bool
any_role _ = true
