-- ===== src/Api/AccessList.antt =====
-- api/acl.go: who has access to an object. What the six handlers share; its child Kinds has each of
-- them. A description of a role is `gin.H` in the source.
pub mod Kinds
pub mod Laws
use tensor.Prelude.{
  Bool, Option, none, some, String, List, [], ◌∷◌, ◌++◌, if◌then◌else◌, ◌==◌, string_eq,
}
use tensor.Models.{AccessControl, User, Organization}
use tensor.Api.{Event, sent, panicked, errors, bad_page, PageQuery, send_page}

pub record Access : Type 0 where
  pub descendant_roles : List String
  pub resource_name : String
  pub description : String
  pub related : String × String
  pub resource_type : String
  pub name : String

pub record AccessType : Type 0 where
  pub direct_access : List Access
  pub indirect_access : List Access

-- The map from grantees to pointers. A key that it lacks gives a nil pointer.
abbrev pub AccessMap : Type 0
AccessMap = List (String × AccessType)

pub data Side : Type 0 where
  direct indirect : Side

unfoldable pub append_to : Side → Access → AccessType → AccessType
append_to direct a t = record t { direct_access = t.direct_access ++ a ∷ [] }
append_to indirect a t = record t { indirect_access = t.indirect_access ++ a ∷ [] }

-- `allaccess[id].XAccess = append(allaccess[id].XAccess, access)`, `none` for the panic on nil.
unfoldable pub append_access : Side → String → Access → AccessMap → Option AccessMap
unfolding append_to
append_access side id a [] = none
append_access side id a ((k, t) ∷ m) =
    let rest : Option AccessMap = elim (append_access side id a m) [
      | none ↦ none
      | some m' ↦ some ((k, t) ∷ m')
    ] in
    if k == id then some ((k, append_to side a t) ∷ m) else rest

-- The loop over a role list. `describe` is the switch on the role.
unfoldable pub collect :
    Side → (String → Option Access) → List AccessControl → AccessMap → Option AccessMap
unfolding append_access
collect side describe [] m = some m
collect side describe (v ∷ roles) m =
    let skipped = collect side describe roles m in
    let known : Option AccessMap = elim (describe v.role) [
      | none ↦ skipped
      | some a ↦ elim (append_access side v.grantee_id a m) [
        | none ↦ none
        | some m' ↦ collect side describe roles m'
      ]
    ] in
    if v.type == "user" then known else skipped

-- The users of the map; `none` where one cannot be read.
unfoldable pub users_of : (String → Option User) → AccessMap → Option (List (User × AccessType))
users_of find_user [] = some []
users_of find_user ((id, t) ∷ m) = elim (find_user id) [
  | none ↦ none
  | some user ↦ elim (users_of find_user m) [ none ↦ none | some us ↦ some ((user, t) ∷ us) ]
]

abbrev pub Answer : Type 0
Answer = List (Event (Unit {0}) (User × AccessType))

-- The end of a handler, once the map is built.
unfoldable pub send_access : (String → Option User) → PageQuery → Option AccessMap → Answer
unfolding users_of
send_access find_user q none = panicked ∷ []
send_access find_user q (some m) = elim (users_of find_user m) [
  | none ↦ sent 500 (errors ("Error while getting Access List" ∷ [])) ∷ []
  | some us ↦ send_page bad_page q us
]

-- Both loops, from the nil map.
unfoldable pub build_access :
    (of_organization of_object : String → Option Access)
    → (organization_roles object_roles : List AccessControl) → Option AccessMap
unfolding collect
build_access of_organization of_object organization_roles object_roles =
    elim (collect indirect of_organization organization_roles []) [
      | none ↦ none
      | some m ↦ collect direct of_object object_roles m
    ]

-- A handler, once the organization has been looked up.
unfoldable pub access_list :
    (String → Option User)
    → PageQuery
    → Option Organization
    → (Organization → String → Option Access)
    → (String → Option Access)
    → List AccessControl
    → Answer
unfolding build_access send_access
access_list find_user q none of_organization of_object roles =
    sent 500 (errors ("Error while getting Access List" ∷ [])) ∷ []
access_list find_user q (some o) of_organization of_object roles =
    send_access find_user q (build_access (of_organization o) of_object o.roles roles)
