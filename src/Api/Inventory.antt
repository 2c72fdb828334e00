-- ===== src/Api/Inventory.antt =====
-- api/inventory.go: the requests that read, change or list inventories.
use tensor.Prelude.{
  ℕ, Bool, not, ◌&&◌, ◌||◌, Option, none, some, String, List, [], ◌∷◌, if◌then◌else◌, ◌==◌,
  string_eq,
}
use tensor.Prelude.Text.{Text, codes, trim_blanks}
use tensor.Mongo.{Count}
use tensor.Models.{AccessControl, User, Inventory}
use tensor.Database.{Database}
use tensor.Database.Server.{inventories, hosts, groups, add_to_set}
use tensor.QueryParser.{Query, Form, match, lookups, order_by}
use tensor.Rbac.Engine.{
  counted, has_global_read, has_global_write, has_organization_read, is_organization_admin,
  role_type_user,
}
use tensor.Rbac.Inventory as rbac_inventory
use tensor.Api.{
  Write, insert, update_id, remove_id, remove_where, change_roles, note, Event, sent, item, empty,
  no_page, abort_with_error, try, fire, Cursor, keep, PageQuery, send_page, Passage, passed,
  refused, Bound, bound, unbound, invalid_body, no_permission,
}

-- The document of an inventory, but for its counts.
pub record InventoryData : Type 0 where
  pub inventory : Inventory
  pub description : String
  pub variables : String
  pub created_by_id : String
  pub modified_by_id : String
  pub created : ℕ
  pub modified : ℕ

pub record Reads : Type 0 where
  pub db : Database
  pub is_object_id : String → Bool
  pub find : String → Option InventoryData
  pub select : Query → Text → Cursor InventoryData
  pub count_named : String → String → Count
  pub count_organization : String → Count
  pub new_id : String
  pub now : ℕ

unfoldable pub middleware : Reads → User → String → String → Passage InventoryData
middleware r user method id =
    let at : Passage InventoryData = elim (r.find id) [
      | none ↦ refused 404 "Inventory does not exist"
      | some v ↦
          if method == "GET"
          then if not (rbac_inventory.read r.db user v.inventory)
            then refused 401 no_permission
            else passed v
          else if method == "PUT" || method == "DELETE"
          then if not (rbac_inventory.write r.db user v.inventory)
            then refused 401 no_permission
            else passed v
          else passed v
    ] in
    if not (r.is_object_id id) then refused 404 "Inventory does not exist" else at

unfoldable pub one : InventoryData → List (Event InventoryData InventoryData)
one v = sent 200 (item v) ∷ []

unfoldable pub asked : Form → Query
asked form =
    lookups form (codes "name" ∷ codes "organization" ∷ [])
      (match form (codes "has_inventory_sources" ∷ codes "has_active_failures" ∷ []) [])

unfoldable pub all : Reads → User → Form → PageQuery → List (Event InventoryData InventoryData)
unfolding asked
all r user form q =
    let cursor = r.select (asked form) (order_by form) in
    if not cursor.closes
    then abort_with_error 504 "Error while getting Inventory"
    else send_page no_page q (keep (λ v. rbac_inventory.read r.db user v.inventory) cursor.found)

-- The organization of the request exists, and the user may read it.
unfoldable pub check_organization :
    Reads
    → User
    → String
    → List (Event InventoryData InventoryData)
    → List (Event InventoryData InventoryData)
check_organization r user id rest =
    if not (counted (r.count_organization id))
    then abort_with_error 400 "Organization does not exists."
    else if not (has_global_read user || has_organization_read r.db id user.id)
    then abort_with_error 401 no_permission
    else rest

-- The user becomes an admin of the inventory, unless he can change it anyway.
unfoldable pub settle :
    Reads
    → (Write InventoryData → Bool)
    → User
    → InventoryData
    → List (Event InventoryData InventoryData)
    → List (Event InventoryData InventoryData)
settle r works user v rest =
    let entry : AccessControl = record {
      grantee_id = user.id;
      type = role_type_user;
      role = rbac_inventory.inventory_admin;
    } in
    if not (has_global_write user || is_organization_admin r.db v.inventory.organization_id user.id)
    then fire works (change_roles inventories v.inventory.id (add_to_set entry))
        (fire works (note "associate" user.id v.inventory.id (some user.id)) rest)
    else rest

unfoldable pub new_inventory : Reads → User → InventoryData → InventoryData
new_inventory r user req = record req {
  inventory = record req.inventory { id = r.new_id };
  created = r.now;
  modified = r.now;
  created_by_id = user.id;
  modified_by_id = user.id;
}

unfoldable pub insert_inventory :
    Reads
    → (Write InventoryData → Bool)
    → User
    → InventoryData
    → List (Event InventoryData InventoryData)
unfolding new_inventory settle
insert_inventory r works user req =
    let v = new_inventory r user req in
    try works (insert v) (abort_with_error 504 "Error while creating inventory") (
      settle r works user v
        (fire works (note "create" user.id v.inventory.id none) (sent 201 (item v) ∷ [])))

unfoldable pub create :
    Reads
    → (Write InventoryData → Bool)
    → User
    → Bound InventoryData
    → List (Event InventoryData InventoryData)
unfolding check_organization insert_inventory
create r works user (unbound emsgs) = invalid_body emsgs
create r works user (bound req) = check_organization r user req.inventory.organization_id (
    if counted (r.count_named req.inventory.name req.inventory.organization_id)
    then abort_with_error 400 "Inventory with this Name already exists."
    else insert_inventory r works user req)

-- The description is trimmed, and then replaced by the one of the request.
unfoldable pub changed : Reads → User → InventoryData → InventoryData → InventoryData
changed r user v req = record v {
  inventory = record v.inventory {
    name = trim_blanks req.inventory.name;
    organization_id = req.inventory.organization_id;
  };
  description = req.description;
  variables = req.variables;
  modified = r.now;
  modified_by_id = user.id;
}

unfoldable pub update :
    Reads
    → (Write InventoryData → Bool)
    → User
    → Bound InventoryData
    → InventoryData
    → List (Event InventoryData InventoryData)
unfolding check_organization changed settle
update r works user (unbound emsgs) inventory = invalid_body emsgs
update r works user (bound req) inventory =
    let v = changed r user inventory req in
    let id = inventory.inventory.id in
    check_organization r user req.inventory.organization_id (
      if not (req.inventory.name == inventory.inventory.name)
        && counted (r.count_named req.inventory.name req.inventory.organization_id)
      then abort_with_error 400 "Inventory with this name already exists."
      else try works (update_id id v) (abort_with_error 504 "Error while updating inventory.") (
          settle r works user v
            (fire works (note "update" user.id id (some id)) (sent 200 (item v) ∷ []))))

unfoldable pub delete :
    (Write InventoryData → Bool) → User → InventoryData → List (Event InventoryData InventoryData)
delete works user v =
    let id = v.inventory.id in
    try works (remove_where hosts "inventory_id" (id ∷ []))
      (abort_with_error 504 "Error while removing inventory hosts")
      (try works (remove_where groups "inventory_id" (id ∷ []))
        (abort_with_error 504 "Error while removing inventory groups")
        (try works (remove_id inventories id)
          (abort_with_error 504 "Error while removing inventory")
          (fire works (note "delete" user.id id none) (sent 204 empty ∷ []))))
