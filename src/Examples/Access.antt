-- ===== src/Examples/Access.antt =====
-- The checks on the small database.
use tensor.Prelude.{◌≡◌, refl, ◌↔◌, ◌⊎◌, inl, inr, true, false, [], ◌∷◌, arith, string_eq_iff}
use tensor.Rbac.Engine.{
  is_organization_admin, is_in_teams, has_global_read, has_global_write, in_granted_teams, scan,
}
use tensor.Rbac.Engine.Laws.{is_in_teams-false}
use tensor.Rbac.Decisions.{
  IsGlobalReader, OwnsThrough, HasDirect, IsAnyRole, IsAdminRole, project-read_iff,
  project-write_iff,
}
use tensor.Rbac.Escalation.{member-project_write}
use tensor.Rbac.Organization
use tensor.Rbac.Team
use tensor.Rbac.User
use tensor.Rbac.Project
use tensor.Rbac.Credential
use tensor.Rbac.Inventory
use tensor.Examples.Data.{
  plain, acme, ops, site, hosts, key, loose_key, organizations, teams, db, documented, up,
}
use tensor.Mongo.{matches}
use tensor.Models.{organization_document, team_document}
use tensor.Prelude.{count_if}

checks : Unit {0}
unfolding Project.read Project.write Project.update Credential.read Credential.write Inventory.read
    Inventory.write Team.read Team.write Organization.read Organization.write Team.in_organization
    is_organization_admin is_in_teams has_global_read has_global_write in_granted_teams scan matches
    organization_document team_document count_if
checks = tt

-- The organization's admin, the entry "update", a member of the team with the role "admin".
project_tests :
    (Project.write db (plain "ada") site ≡ true)
    × (Project.write db (plain "dev") site ≡ false)
    × (Project.update db (plain "dev") site ≡ true)
    × (Project.read db (plain "dev") site ≡ true)
    × (Project.read db (plain "tim") site ≡ false)
    × (Project.read db (plain "eve") site ≡ false)
unfolding checks
project_tests = (refl, refl, refl, refl, refl, refl)

-- The organization's member counts as its admin.
member_tests :
    (Project.write db (plain "mel") site ≡ true)
    × (Inventory.write db (plain "aud") hosts ≡ true)
    × (Credential.write db (plain "mel") key ≡ true)
    × (Credential.write db (plain "mel") loose_key ≡ false)
unfolding checks
member_tests = (refl, refl, refl, refl)

other_tests :
    (Organization.read (plain "mel") acme ≡ true)
    × (Organization.write (plain "mel") acme ≡ false)
    × (Team.read db (plain "tim") ops ≡ true)
    × (Team.write db (plain "tim") ops ≡ false)
    × (Team.write db (plain "lea") ops ≡ true)
unfolding checks
other_tests = (refl, refl, refl, refl, refl)

user_tests :
    (User.read (plain "mel") (plain "mel") ≡ true)
    × (User.write (plain "mel") (plain "ada") ≡ false)
    × (User.write_special (plain "mel") (plain "mel") ≡ false)
unfolding User.read User.write User.write_special
user_tests = (refl, refl, refl)

project-read_iff_example : (Project.read db (plain "dev") site ≡ true) ↔ (
    IsGlobalReader (plain "dev")
    ⊎ (OwnsThrough organizations "o1" "dev" ⊎ HasDirect IsAnyRole "dev" site.roles))
project-read_iff_example = project-read_iff documented up (plain "dev") site

project-write_iff_example : (Project.write db (plain "own") site ≡ true) ↔ (
    (false ≡ true)
    ⊎ (OwnsThrough organizations "o1" "own" ⊎ HasDirect IsAdminRole "own" site.roles))
project-write_iff_example = project-write_iff documented up (plain "own") site

is_in_teams-false_example : is_in_teams db "tim" ("t1" ∷ []) ≡ false
is_in_teams-false_example = is_in_teams-false documented "tim" ("t1" ∷ [])

o1_not_empty : (acme.id ≡ "") → ⊥
o1_not_empty e = ground (arith, string_eq_iff "o1" "")

member-project_write_example : Project.write db (plain "mel") site ≡ true
member-project_write_example =
    member-project_write db organizations teams documented up acme (plain "mel") site "ada"
      (inl refl) o1_not_empty (inr (inl refl)) (inl refl) refl
