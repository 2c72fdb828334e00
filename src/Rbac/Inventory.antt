-- ===== src/Rbac/Inventory.antt =====
-- rbac/inventory.go: who may read and change an inventory, and its role list.
use tensor.Prelude.{
  Bool, true, false, ◌||◌, Option, none, some, String, string_eq, [], if◌then◌else◌, ◌==◌,
}
use tensor.Models.{User, Inventory}
use tensor.Database.{Database}
use tensor.Database.Server.{Server, inventories, add_to_set, pull}
use tensor.Rbac.Engine.{
  is_organization_admin, has_global_read, has_global_write, scan, conclude, any_role,
  in_granted_teams,
}

abbrev pub inventory_admin : String
inventory_admin = "admin"

abbrev pub inventory_use : String
inventory_use = "use"

abbrev pub inventory_update : String
inventory_update = "update"

unfoldable pub read : Database → User → Inventory → Bool
read db user inventory =
    if has_global_read user
    then true
    else if is_organization_admin db inventory.organization_id user.id
    then true
    else conclude (in_granted_teams db user.id) (scan any_role user.id inventory.roles [])

abbrev pub may_write : String → Bool
may_write role = role == inventory_admin || role == inventory_update

unfoldable pub write : Database → User → Inventory → Bool
write db user inventory =
    if has_global_write user
    then true
    else if is_organization_admin db inventory.organization_id user.id
    then true
    else conclude (in_granted_teams db user.id) (scan may_write user.id inventory.roles [])

unfoldable pub read_by_id : Database → User → String → Bool
read_by_id db user inventory_id = elim (db.find_inventory inventory_id) [
  | none ↦ false
  | some inventory ↦ read db user inventory
]

unfoldable pub write_by_id : Database → User → String → Bool
write_by_id db user inventory_id = elim (db.find_inventory inventory_id) [
  | none ↦ false
  | some inventory ↦ write db user inventory
]

module _ (server : Server) where
  open server use {Store, update_id}

  unfoldable pub associate : String → String → String → String → Store → Store × Option String
  associate resource_id grantee role_type role =
      update_id inventories resource_id
        (add_to_set (record { grantee_id = grantee; type = role_type; role = role }))

  unfoldable pub disassociate : String → String → String → String → Store → Store × Option String
  disassociate resource_id grantee role_type role =
      update_id inventories resource_id
        (pull (record { grantee_id = grantee; type = role_type; role = role }))
