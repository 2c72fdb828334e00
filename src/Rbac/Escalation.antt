-- ===== src/Rbac/Escalation.antt =====
-- Two consequences of the queries that the checks send.
use tensor.Prelude.{
  ◌≡◌, ◌↔◌, ◌⊎◌, inl, inr, ◌≢◌, true, false, some, String, List, [], Some, Some-imp, arith,
}
use tensor.Mongo.{Query}
use tensor.Models.{User, Organization, Team, Project}
use tensor.Database.{Database, IsDocumented, IsUp}
use tensor.Database.Server.{Has}
use tensor.Rbac.Engine.{is_organization_admin, has_global_read, scan, any_role, in_granted_teams}
use tensor.Rbac.Engine.Laws.{is_organization_admin-down, in_granted_teams-false}
use tensor.Rbac.Decisions.{
  HasDirect, IsAnyRole, IsGlobalReader, project-write_iff, scan-HasDirect, any_role_iff, ladder_iff,
}
use tensor.Rbac.Project

-- On a database that answers as documented and whose counts succeed: a user with the role "member"
-- in an organization may change every project of it, as soon as an entry of the organization gives
-- anyone the role "admin". The organization is stored and has an id that is not empty.
pub member-project_write :
    (db : Database) (organizations : List Organization) (teams : List Team)
    → IsDocumented db organizations teams
    → IsUp db
    → (o : Organization) (user : User) (project : Project) (admin : String)
    → Some (λ stored. stored ≡ o) organizations
    → o.id ≢ ""
    → Has (record { grantee_id = user.id; type = "user"; role = "member" }) o.roles
    → Has (record { grantee_id = admin; type = "user"; role = "admin" }) o.roles
    → project.organization_id ≡ o.id
    → Project.write db user project ≡ true
member-project_write db organizations teams documented up o user project admin stored ne member boss
      same =
    let acts =
      Some-imp (λ s. s ≡ o)
        (λ s.
          (s.id ≡ o.id)
          × Some (λ r. r.grantee_id ≡ user.id) s.roles
          × Some (λ r. r.role ≡ "admin") s.roles)
        (λ s e. (
          ground arith,
          rw e (Some-imp _ _ (λ r g. ground arith) o.roles member),
          rw e (Some-imp _ _ (λ r g. ground arith) o.roles boss),
        ))
        organizations stored in
    (project-write_iff documented up user project).1 (inr (inl (rw same (ne, acts))))

-- On a database that answers as documented and fails every count of organizations, a project is
-- read by exactly the users who read everything and those with a direct role on it.
project_read-down :
    (db : Database) (organizations : List Organization) (teams : List Team)
    → IsDocumented db organizations teams
    → ((q : Query) → (e : String) × ((db.count_organizations q).error ≡ some e))
    → (user : User) (project : Project)
    → (Project.read db user project ≡ true)
      ↔ (IsGlobalReader user ⊎ HasDirect IsAnyRole user.id project.roles)
unfolding Project.read has_global_read
project_read-down db organizations teams documented down user project = ground (
  arith,
  ladder_iff (has_global_read user) (is_organization_admin db project.organization_id user.id)
      (scan any_role user.id project.roles []) (in_granted_teams db user.id)
      (in_granted_teams-false documented user.id),
  no_admin,
  scan-HasDirect any_role IsAnyRole any_role_iff user.id project.roles,
)
  where
    no_admin : is_organization_admin db project.organization_id user.id ≡ false
    no_admin = is_organization_admin-down db project.organization_id user.id down
