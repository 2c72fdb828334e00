-- ===== src/Database/Server.antt =====
-- The updates of role lists: `UpdateId(id, {"$addToSet": …})` and `{"$pull": …}` on a collection.
-- The server is a parameter; what the code relies on is the record `Keeps`.
use tensor.Prelude.{◌≡◌, ◌↔◌, ◌⊎◌, ◌≢◌, Option, none, some, String, List, Some}
use tensor.Models.{AccessControl}

pub data Collection : Type 0 where
  organizations teams projects credentials inventories job_templates terraform_job_templates users
        jobs terraform_jobs hosts groups :
      Collection

pub data Change : Type 0 where
  add_to_set pull : AccessControl → Change

-- `roles` is the role list of a stored object, and `none` where the collection has no such object.
pub record Server : Type 1 where
  pub Store : Type 0
  pub roles : Store → Collection → String → Option (List AccessControl)
  pub update_id : Collection → String → Change → Store → Store × Option String

-- The entry is in the role list.
abbrev pub Has : AccessControl → List AccessControl → Type 0
Has x roles = Some (λ y. y ≡ x) roles

-- MongoDB's documented behaviour, for an update that succeeds: the object is there, `$addToSet`
-- leaves the old entries and the new one, `$pull` all entries but those equal to the given one.
pub record Keeps (server : Server) : Type 0 where
  pub added :
      (c : Collection) (id : String) (x : AccessControl) (s : server.Store)
      → (server.update_id c id (add_to_set x) s).1 ≡ none
      → (old new : List AccessControl) × (server.roles s c id ≡ some old)
        × (server.roles (server.update_id c id (add_to_set x) s).0 c id ≡ some new)
        × ((y : AccessControl) → Has y new ↔ (Has y old ⊎ (x ≡ y)))
  pub pulled :
      (c : Collection) (id : String) (x : AccessControl) (s : server.Store)
      → (server.update_id c id (pull x) s).1 ≡ none
      → (old new : List AccessControl) × (server.roles s c id ≡ some old)
        × (server.roles (server.update_id c id (pull x) s).0 c id ≡ some new)
        × ((y : AccessControl) → Has y new ↔ (Has y old × (x ≢ y)))
