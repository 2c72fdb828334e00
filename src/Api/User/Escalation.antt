-- ===== src/Api/User/Escalation.antt =====
-- What a role that is assigned through api/user.go gives, and who may assign it.
use tensor.Prelude.{
  Bool, ◌≡◌, refl, true, false, Option, none, some, String, List, string_eq, subst, arith,
}
use tensor.Models.{AccessControl, User, Team, Project}
use tensor.Database.{Database}
use tensor.Database.Server.{Server, Keeps, projects}
use tensor.Rbac.User as rbac_user
use tensor.Rbac.Project as rbac_project
use tensor.Rbac.Grants.{write-associate}
use tensor.Api.{passed, bound}
use tensor.Api.Roles.{RoleObj, change_role}
use tensor.Api.User.{UserData, Reads, middleware}
use tensor.Api.User.AssignRole.{assign_role, assign_to}

abbrev pub admin_of : String → RoleObj
admin_of id = record {
  disassociate = false;
  role = "admin";
  resource_id = id;
  resource_type = "project";
}

module _ (server : Server) (keeps : Keeps server) (noted : Bool) (db : Database)
    (find_team : String → Option Team) (r : Reads) (actor : User) (u : UserData) (project : Project)
    (s : server.Store) where
  assigned :
      db.find_project project.id ≡ some project
      → (assign_role server noted db find_team actor u.user (bound (admin_of project.id)) s).0
        ≡ (rbac_project.associate server project.id u.user.id "user" "admin" s).0
  unfolding assign_role assign_to change_role
  assigned found = rw found refl

  -- A system auditor gets through to the assignment of roles to any stored user, himself among
  -- them. On a server that keeps role lists as documented: once the assignment has made this user
  -- an admin of a stored project, by an update that succeeded, he may change the project as it is
  -- then stored, whatever the rest of the database answers.
  pub auditor-assign_role :
      actor.is_system_auditor ≡ true
      → r.is_object_id u.user.id ≡ true
      → r.find u.user.id ≡ some u
      → db.find_project project.id ≡ some project
      → (rbac_project.associate server project.id u.user.id "user" "admin" s).1 ≡ none
      → (roles : List AccessControl)
      → server.roles
          (assign_role server noted db find_team actor u.user (bound (admin_of project.id)) s).0
          projects
          project.id
        ≡ some roles
      → (middleware r actor "POST" u.user.id ≡ passed u)
        × (rbac_project.write db u.user (record project { roles = roles }) ≡ true)
  unfolding middleware rbac_user.write_special
  auditor-assign_role auditor valid stored found done roles now = (
    rw valid (rw stored (ground (arith, auditor))),
    write-associate server keeps db u.user (record project { roles = roles }) s done
        (subst (λ t. server.roles t projects project.id ≡ some roles) (assigned found) now),
  )
