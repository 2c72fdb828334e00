-- ===== src/Rbac/Grants.antt =====
-- What the updates of the role lists, `Associate` and `Disassociate`, do to the access checks.
use tensor.Prelude.{
  ◌≡◌, refl, sym, ◌∙◌, ◌↔◌, ◌⊎◌, inl, inr, true, none, some, String, List, Some-imp, arith,
}
use tensor.Models.{AccessControl, User, Organization, Team, Project}
use tensor.Database.{Database, IsDocumented, IsUp}
use tensor.Database.Server.{Server, Keeps, Has, projects}
use tensor.Rbac.Decisions.{
  HasDirect, OwnsThrough, IsAdminRole, project-write_iff, direct-project_write,
}
use tensor.Rbac.Project

-- The entry that gives the user himself the role "admin".
abbrev pub admin_entry : String → AccessControl
admin_entry user_id = record { grantee_id = user_id; type = "user"; role = "admin" }

HasDirect-Has :
    (user_id : String) (roles : List AccessControl)
    → HasDirect IsAdminRole user_id roles ↔ Has (admin_entry user_id) roles
HasDirect-Has user_id roles = (
  Some-imp _ _ (λ v d. ground arith) roles,
  Some-imp _ _ (λ v e. (ground arith, ground arith, ground arith)) roles,
)

some-eq : {a b : List AccessControl} → some a ≡ some b → a ≡ b
some-eq e = cc

still_writes : {A B C D : Type 0} → (C → D) → (D → ⊥) → A ⊎ (B ⊎ C) → A ⊎ B
still_writes f none_left (inl a) = inl a
still_writes f none_left (inr (inl b)) = inr b
still_writes f none_left (inr (inr c)) = absurd (none_left (f c))

module _ (server : Server) (keeps : Keeps server) (db : Database) (user : User) (project : Project)
    (s : server.Store) where
  -- On a server that keeps role lists as documented: once a user has been given the role "admin" on
  -- a project, by an update that succeeded, he may change the project as it is then stored,
  -- whatever the rest of the database answers.
  pub write-associate :
      (Project.associate server project.id user.id "user" "admin" s).1 ≡ none
      → server.roles
          (Project.associate server project.id user.id "user" "admin" s).0
          projects
          project.id
        ≡ some project.roles
      → Project.write db user project ≡ true
  unfolding Project.associate
  write-associate done stored =
      let (old, new, was, now, same) =
        keeps.added projects project.id (admin_entry user.id) s done in
      let listed : Has (admin_entry user.id) project.roles =
        rw (← some-eq (sym now ∙ stored)) ((same (admin_entry user.id)).1 (inr refl)) in
      direct-project_write db user project ((HasDirect-Has user.id project.roles).1 listed)

  -- On a server that keeps role lists as documented, and a database that answers as documented and
  -- whose counts succeed: once the role "admin" of a user on a project has been taken away, by an
  -- update that succeeded, he may change the project as it is then stored only if he is a super
  -- user or acts as an admin of its organization.
  pub write-disassociate :
      {organizations : List Organization} {teams : List Team}
      → IsDocumented db organizations teams
      → IsUp db
      → (Project.disassociate server project.id user.id "user" "admin" s).1 ≡ none
      → server.roles
          (Project.disassociate server project.id user.id "user" "admin" s).0
          projects
          project.id
        ≡ some project.roles
      → Project.write db user project ≡ true
      → (user.is_super_user ≡ true) ⊎ OwnsThrough organizations project.organization_id user.id
  unfolding Project.disassociate
  write-disassociate documented up done stored h =
      let (old, new, was, now, same) =
        keeps.pulled projects project.id (admin_entry user.id) s done in
      let gone : Has (admin_entry user.id) project.roles → ⊥ =
        λ g. ((same (admin_entry user.id)).0 (rw (← some-eq (sym now ∙ stored)) at g)).1 refl in
      still_writes (HasDirect-Has user.id project.roles).0 gone
        ((project-write_iff documented up user project).0 h)
