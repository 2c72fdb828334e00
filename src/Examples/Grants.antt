-- ===== src/Examples/Grants.antt =====
-- Grants and their withdrawal on the small server.
use tensor.Prelude.{◌≡◌, refl, ◌⊎◌, true, false, String, List, ◌∷◌, count_if}
use tensor.Models.{AccessControl, Project, organization_document}
use tensor.Mongo.{matches}
use tensor.Rbac.Engine.{has_global_write, is_organization_admin, scan}
use tensor.Rbac.Decisions.{OwnsThrough}
use tensor.Rbac.Grants.{write-disassociate}
use tensor.Rbac.Project
use tensor.Examples.Data.{plain, user_role, site, organizations, db, documented, up}
use tensor.Examples.Store.{kept, kept-Keeps}

-- The stored role lists before: those of the project and of the team.
abbrev before : String → List AccessControl
before id = site.roles

abbrev ada_listed : String → List AccessControl
ada_listed id = user_role "ada" "admin" ∷ site.roles

-- The project as it is stored once "new" is an admin of it.
abbrev granted : Project
granted = record site { roles = user_role "new" "admin" ∷ site.roles }

write-disassociate_example : (false ≡ true) ⊎ OwnsThrough organizations "o1" "ada"
unfolding Project.disassociate Project.write has_global_write is_organization_admin scan matches
    organization_document count_if
write-disassociate_example =
    write-disassociate kept kept-Keeps db (plain "ada") site ada_listed documented up refl refl refl
