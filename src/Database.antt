-- ===== src/Database.antt =====
-- The database as the access checks see it: the reads of db/mongo.go's collections at one moment.
-- The driver and the server are not part of the repository, so every read is a field of a
-- parameter, and what the checks rely on is a record of hypotheses.
pub mod Server
use tensor.Prelude.{◌≡◌, Option, none, some, String, List, count_if}
use tensor.Mongo.{Query, Count, matches}
use tensor.Models.{
  Organization, Team, Project, Credential, Inventory, JobTemplate, TerraformJobTemplate,
  organization_document, team_document,
}

-- `find_x id` is `FindId(id).One(&x)`: `none` is the driver's error.
pub record Database : Type 0 where
  pub count_organizations : Query → Count
  pub count_teams : Query → Count
  pub find_organization : String → Option Organization
  pub find_project : String → Option Project
  pub find_credential : String → Option Credential
  pub find_inventory : String → Option Inventory
  pub find_job_template : String → Option JobTemplate
  pub find_terraform_job_template : String → Option TerraformJobTemplate

-- MongoDB's documented behaviour: a count that succeeds is the number of documents that match
-- the filter, and one that fails counts nothing.
pub record IsDocumented (db : Database) (organizations : List Organization) (teams : List Team)
    : Type 0 where
  pub organizations_counted :
      (q : Query)
      → (db.count_organizations q).error ≡ none
      → (db.count_organizations q).found
        ≡ count_if (λ o. matches (organization_document o) q) organizations
  pub organizations_failed :
      (q : Query) (e : String)
      → (db.count_organizations q).error ≡ some e
      → (db.count_organizations q).found ≡ 0
  pub teams_counted :
      (q : Query)
      → (db.count_teams q).error ≡ none
      → (db.count_teams q).found ≡ count_if (λ t. matches (team_document t) q) teams
  pub teams_failed :
      (q : Query) (e : String) → (db.count_teams q).error ≡ some e → (db.count_teams q).found ≡ 0

-- Every count succeeds.
pub record IsUp (db : Database) : Type 0 where
  pub organizations_up : (q : Query) → (db.count_organizations q).error ≡ none
  pub teams_up : (q : Query) → (db.count_teams q).error ≡ none
