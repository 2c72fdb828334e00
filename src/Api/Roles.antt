-- ===== src/Api/Roles.antt =====
-- What AssignRole of api/user.go and api/team.go share: a role of an object is given or taken away by
-- an update of its role list. The server is a parameter, and the store is passed on.
use tensor.Prelude.{
  Bool, true, false, not, Option, none, some, String, List, [], ◌∷◌, if◌then◌else◌,
}
use tensor.Database.Server.{Server}
use tensor.Api.{Event, did, note, sent, errors, empty}

-- models/common/roleobj.go.
pub record RoleObj : Type 0 where
  pub disassociate : Bool
  pub role : String
  pub resource_id : String
  pub resource_type : String

module _ (server : Server) where
  open server use {Store}

  -- What a request for a role leads to: the store, and the events but for that update.
  abbrev pub Answer : Type 0
  Answer = Store × List (Event (Unit {0}) (Unit {0}))

  -- A method of package rbac: the resource, the grantee, the type of the grantee, the role.
  abbrev pub RoleChange : Type 0
  RoleChange = String → String → String → String → Store → Store × Option String

  unfoldable pub answer_change :
      String → String → Option String → List (Event (Unit {0}) (Unit {0}))
  answer_change operation failure none = sent 204 empty ∷ []
  answer_change operation failure (some e) = sent 500 (errors (failure ∷ [])) ∷ []

  -- One case of the switch. `found` says whether the resource can be read. The entry of the activity
  -- stream is sent whether or not the update succeeds, and `noted` says whether it is written.
  unfoldable pub change_role :
      (noted found : Bool) (associate disassociate : RoleChange)
      (actor grantee role_type failure : String)
      → RoleObj
      → Store
      → Answer
  unfolding answer_change
  change_role noted found associate disassociate actor grantee role_type failure req s =
      let operation = if req.disassociate then "disassociate" else "associate" in
      let result =
        if req.disassociate
        then disassociate req.resource_id grantee role_type req.role s
        else associate req.resource_id grantee role_type req.role s in
      if not found then (s, sent 400 (errors ("Could not find resource" ∷ [])) ∷ []) else (
        result.0,
        did (note operation actor req.resource_id (some grantee)) noted
            ∷ answer_change operation failure result.1,
      )

-- Whether a read found something.
abbrev pub is_found {ℓ} : {A : Type ℓ} → Option A → Bool
is_found none = false
is_found (some a) = true
