-- ===== src/Examples/Data.antt =====
-- A small database: an organization with an admin, a member and an auditor, and a team.
use tensor.Prelude.{
  refl, false, none, some, String, List, [], ◌∷◌, count_if, string_eq, ◌==◌, if◌then◌else◌,
}
use tensor.Mongo.{matches}
use tensor.Models.{
  AccessControl, User, Organization, Team, Project, Credential, Inventory, JobTemplate,
  TerraformJobTemplate, organization_document, team_document,
}
use tensor.Database.{Database, IsDocumented, IsUp}

abbrev pub user_role : String → String → AccessControl
user_role id role = record { grantee_id = id; type = "user"; role = role }

abbrev pub team_role : String → String → AccessControl
team_role id role = record { grantee_id = id; type = "team"; role = role }

abbrev pub plain : String → User
plain id = record { id = id; is_super_user = false; is_system_auditor = false }

abbrev pub acme : Organization
acme = record {
  id = "o1";
  name = "acme";
  roles = user_role "ada" "admin" ∷ user_role "mel" "member" ∷ user_role "aud" "auditor" ∷ [];
}

abbrev pub ops : Team
ops = record {
  id = "t1";
  name = "ops";
  organization_id = "o1";
  roles = user_role "tim" "member" ∷ user_role "lea" "admin" ∷ [];
}

abbrev pub site : Project
site = record {
  id = "p1";
  name = "site";
  organization_id = "o1";
  roles = user_role "dev" "update" ∷ team_role "t1" "admin" ∷ user_role "own" "admin" ∷ [];
}

abbrev pub hosts : Inventory
hosts = record {
  id = "i1";
  name = "hosts";
  organization_id = "o1";
  roles = user_role "dev" "update" ∷ user_role "use" "use" ∷ [];
}

abbrev pub key : Credential
key = record {
  id = "c1";
  name = "key";
  organization_id = some "o1";
  roles = user_role "own" "admin" ∷ user_role "use" "use" ∷ [];
}

abbrev pub loose_key : Credential
loose_key = record key { organization_id = none }

abbrev pub deploy : JobTemplate
deploy = record {
  id = "j1";
  name = "deploy";
  project_id = "p1";
  inventory_id = "i1";
  machine_credential_id = some "c1";
  cloud_credential_id = none;
  network_credential_id = none;
  roles = user_role "run" "execute" ∷ user_role "boss" "admin" ∷ [];
}

abbrev pub plan : TerraformJobTemplate
plan = record {
  id = "f1";
  name = "plan";
  project_id = "p1";
  machine_credential_id = none;
  cloud_credential_id = none;
  network_credential_id = none;
  roles = user_role "run" "execute" ∷ [];
}

abbrev pub organizations : List Organization
organizations = acme ∷ []

abbrev pub teams : List Team
teams = ops ∷ []

abbrev pub db : Database
db = record {
  count_organizations = λ q. record {
    found = count_if (λ o. matches (organization_document o) q) organizations;
    error = none;
  };
  count_teams =
      λ q. record { found = count_if (λ t. matches (team_document t) q) teams; error = none };
  find_organization = λ id. if id == "o1" then some acme else none;
  find_project = λ id. if id == "p1" then some site else none;
  find_credential = λ id. if id == "c1" then some key else none;
  find_inventory = λ id. if id == "i1" then some hosts else none;
  find_job_template = λ id. if id == "j1" then some deploy else none;
  find_terraform_job_template = λ id. if id == "f1" then some plan else none;
}

pub documented : IsDocumented db organizations teams
documented = record {
  organizations_counted = λ q e. refl;
  organizations_failed = λ q e h. cc;
  teams_counted = λ q e. refl;
  teams_failed = λ q e h. cc;
}

pub up : IsUp db
up = record { organizations_up = λ q. refl; teams_up = λ q. refl }
