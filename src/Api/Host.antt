-- ===== src/Api/Host.antt =====
-- api/host.go: the requests on the hosts of inventories.
pub mod Moved
use tensor.Prelude.{
  ℕ, Bool, true, not, ◌&&◌, ◌||◌, Option, none, some, String, List, [], ◌∷◌, if◌then◌else◌, ◌==◌,
  string_eq, nat_eq, length,
}
use tensor.Prelude.Text.{Text, codes, trim_blanks}
use tensor.Mongo.{Count}
use tensor.Models.{User}
use tensor.Database.{Database}
use tensor.Database.Server.{hosts}
use tensor.QueryParser.{Query, Form, match, lookups, order_by}
use tensor.Pagination.{Pagination, new_pagination, has_page, offset}
use tensor.Rbac.Engine.{counted}
use tensor.Rbac.Inventory as rbac_inventory
use tensor.Api.{
  Write, insert, update_id, remove_id, note, Event, sent, item, empty, errors, bad_page, no_page,
  listing, abort_with_error, try, fire, Cursor, keep, PageQuery, send_page, send_slice, slice,
  Passage, passed, refused, Bound, bound, unbound, invalid_body, no_permission,
}

-- The document of a host, but for what no request here writes.
pub record HostData : Type 0 where
  pub id : String
  pub name : String
  pub inventory_id : String
  pub description : String
  pub group_id : Option String
  pub instance_id : String
  pub variables : String
  pub enabled : Bool
  pub created_by_id : String
  pub modified_by_id : String
  pub created : ℕ
  pub modified : ℕ

pub record Reads : Type 0 where
  pub db : Database
  pub is_object_id : String → Bool
  pub find : String → Option HostData
  pub select : Query → Text → Cursor HostData
  pub count_named : String → String → Count
  pub count_inventory : String → Count
  pub count_group : String → Count
  pub new_id : String
  pub now : ℕ

unfoldable pub middleware : Reads → User → String → String → Passage HostData
middleware r user method id =
    let at : Passage HostData = elim (r.find id) [
      | none ↦ refused 404 "Host does not exist"
      | some h ↦
          if method == "GET"
          then if not (rbac_inventory.read_by_id r.db user h.inventory_id)
            then refused 401 no_permission
            else passed h
          else if method == "PUT" || method == "DELETE"
          then if not (rbac_inventory.write_by_id r.db user h.inventory_id)
            then refused 401 no_permission
            else passed h
          else passed h
    ] in
    if not (r.is_object_id id) then refused 404 "Host does not exist" else at

unfoldable pub one : HostData → List (Event HostData HostData)
one h = sent 200 (item h) ∷ []

unfoldable pub asked : Form → Query
asked form =
    lookups form (codes "name" ∷ codes "description" ∷ [])
      (match form (codes "enabled" ∷ codes "has_active_failures" ∷ []) [])

unfoldable pub all : Reads → User → Form → PageQuery → List (Event HostData HostData)
unfolding asked
all r user form q =
    let cursor = r.select (asked form) (order_by form) in
    if not cursor.closes
    then abort_with_error 504 "Error while getting hosts"
    else send_page no_page q
        (keep (λ h. rbac_inventory.read_by_id r.db user h.inventory_id) cursor.found)

-- The group that the request names, if it names one, exists: it is counted once.
unfoldable pub group_exists : Reads → Option String → Bool
group_exists r none = true
group_exists r (some id) = counted (r.count_group id) && ((r.count_group id).found == 1)

unfoldable pub new_host : Reads → User → HostData → HostData
new_host r user req = record req {
  id = r.new_id;
  created = r.now;
  modified = r.now;
  created_by_id = user.id;
  modified_by_id = user.id;
}

unfoldable pub create :
    Reads → (Write HostData → Bool) → User → Bound HostData → List (Event HostData HostData)
unfolding group_exists new_host
create r works user (unbound emsgs) = invalid_body emsgs
create r works user (bound req) =
    let h = new_host r user req in
    if not (counted (r.count_inventory req.inventory_id))
    then abort_with_error 400 "Inventory does not exists."
    else if not (rbac_inventory.write_by_id r.db user req.inventory_id)
    then abort_with_error 401 no_permission
    else if counted (r.count_named req.name req.inventory_id)
    then abort_with_error 400 "Host with this name and inventory already exists."
    else if not (group_exists r req.group_id)
    then abort_with_error 400 "Group does not exist."
    else try works (insert h) (abort_with_error 504 "Error while creating host")
        (fire works (note "create" user.id h.id none) (sent 201 (item h) ∷ []))

-- The time of the change is the one in the request.
unfoldable pub changed : User → HostData → HostData → HostData
changed user h req = record h {
  name = trim_blanks req.name;
  inventory_id = req.inventory_id;
  description = trim_blanks req.description;
  group_id = req.group_id;
  instance_id = req.instance_id;
  variables = req.variables;
  enabled = req.enabled;
  modified = req.modified;
  modified_by_id = user.id;
}

unfoldable pub update :
    Reads
    → (Write HostData → Bool)
    → User
    → Bound HostData
    → HostData
    → List (Event HostData HostData)
unfolding group_exists changed
update r works user (unbound emsgs) host = invalid_body emsgs
update r works user (bound req) host =
    let h = changed user host req in
    if not (counted (r.count_inventory req.inventory_id))
    then abort_with_error 400 "Inventory does not exists."
    else if not (req.name == host.name) && counted (r.count_named req.name req.inventory_id)
    then abort_with_error 400 "Host with this name and inventory already exists."
    else if not (group_exists r req.group_id)
    then abort_with_error 400 "Group does not exists."
    else try works (update_id host.id h) (abort_with_error 504 "Error while updating host.")
        (fire works (note "update" user.id host.id (some host.id)) (sent 200 (item h) ∷ []))

unfoldable pub delete : (Write HostData → Bool) → User → HostData → List (Event HostData HostData)
delete works user h =
    try works (remove_id hosts h.id) (abort_with_error 504 "Error while removing hosts")
      (fire works (note "delete" user.id h.id none) (sent 204 empty ∷ []))

-- `unmarshal` is that of encoding/json.
unfoldable pub variable_data :
    {V : Type 0} → (String → Option V) → HostData → List (Event HostData V)
variable_data unmarshal h = elim (unmarshal h.variables) [
  | none ↦ abort_with_error 500 "Error while getting host variables"
  | some variables ↦ sent 200 (item variables) ∷ []
]

-- `G` is the type of groups. Without a group the answer is null.
module _ {G : Type 0} (find_group : String → Option G) where
  unfoldable groups_of : Option String → List (Event HostData (Option G))
  groups_of none = sent 200 (item none) ∷ []
  groups_of (some id) = elim (find_group id) [
    | none ↦ abort_with_error 504 "Error while getting Groups"
    | some group ↦ sent 200 (item (some group)) ∷ []
  ]

  unfoldable pub groups : HostData → List (Event HostData (Option G))
  unfolding groups_of
  groups h = groups_of h.group_id

  -- The loop over the parents tests the group after it has been reset, and ends at once; the slice
  -- is taken from the limit to the offset.
  unfoldable all_groups_of : PageQuery → Option String → List (Event HostData G)
  all_groups_of q none =
      sent 200 (listing (record { count = 0; next = none; previous = none; items = [] })) ∷ []
  all_groups_of q (some id) = elim (find_group id) [
    | none ↦ sent 500 (errors ("Error while getting groups" ∷ [])) ∷ []
    | some group ↦
        let p = new_pagination q.page q.page_size 1 in
        if has_page p
        then sent 404 (bad_page p.page) ∷ []
        else send_slice p 1 (slice p.limit (offset p) (group ∷ []))
  ]

  unfoldable pub all_groups : PageQuery → HostData → List (Event HostData G)
  unfolding all_groups_of
  all_groups q h = all_groups_of q h.group_id

unfoldable pub activity_stream :
    {A : Type 0} → (String → Cursor A) → PageQuery → HostData → List (Event HostData A)
activity_stream activities q h =
    let cursor = activities h.id in
    if not cursor.closes
    then abort_with_error 504 "Error while getting activities"
    else send_page no_page q cursor.found
