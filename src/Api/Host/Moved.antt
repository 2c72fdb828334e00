-- ===== src/Api/Host/Moved.antt =====
-- Where a change of api/host.go may put a host.
use tensor.Prelude.{
  ◌≡◌, refl, Bool, true, Option, none, some, String, List, [], ◌∷◌, if◌then◌else◌, string_eq,
  string_eq_iff,
}
use tensor.Models.{User}
use tensor.Rbac.Engine.{counted}
use tensor.Rbac.Inventory as rbac_inventory
use tensor.Api.{Write, Event, update_id, note, did, sent, item, bound, through}
use tensor.Api.Host.{HostData, Reads, middleware, update, changed, group_exists}

changed-inventory_id :
    (user : User) (host req : HostData) → (changed user host req).inventory_id ≡ req.inventory_id
unfolding changed
changed-inventory_id user host req = refl

group_exists-none : (r : Reads) (o : Option String) → o ≡ none → group_exists r o ≡ true
unfolding group_exists
group_exists-none r none e = refl
group_exists-none r (some id) e = absurd cc

-- Two writes that succeed, of which the first is looked at.
written :
    {D A : Type 0} (w v : Write D) (b c : Bool) (failure rest : List (Event D A))
    → b ≡ true
    → c ≡ true
    → did w b ∷ (if b then did v c ∷ rest else failure) ≡ did w true ∷ did v true ∷ rest
written w v b c failure rest e f = rw e (rw f refl)

-- A user who may change the inventory of a stored host may move the host, under the same name and
-- without a group, to any inventory that exists, whatever his rights there and whatever hosts it
-- has: where all writes succeed, the request writes the moved host, notes it and is answered with
-- 200.
pub update-moved :
    (r : Reads) (works : Write HostData → Bool) (user : User) (id : String) (host req : HostData)
    → ((w : Write HostData) → works w ≡ true)
    → r.is_object_id id ≡ true
    → r.find id ≡ some host
    → rbac_inventory.write_by_id r.db user host.inventory_id ≡ true
    → counted (r.count_inventory req.inventory_id) ≡ true
    → req.name ≡ host.name
    → req.group_id ≡ none
    → (through (middleware r user "PUT" id) (update r works user (bound req))
        ≡ did (update_id host.id (changed user host req)) true
          ∷ did (note "update" user.id host.id (some host.id)) true
          ∷ sent 200 (item (changed user host req))
          ∷ [])
      × ((changed user host req).inventory_id ≡ req.inventory_id)
unfolding middleware update through
update-moved r works user id host req works_ valid found may there same alone =
    let named = (string_eq_iff req.name host.name).1 same in
    (
      rw valid (
          rw found (
            rw may (
              rw there (
                rw named (
                  rw (group_exists-none r req.group_id alone) (
                    written (update_id host.id (changed user host req))
                      (note "update" user.id host.id (some host.id)) _ _ _ _ (works_ _)
                      (works_ _))))))),
      changed-inventory_id user host req,
    )
