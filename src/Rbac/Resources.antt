-- ===== src/Rbac/Resources.antt =====
-- Exactly who passes the checks of rbac/credential.go and rbac/inventory.go, on a database that
-- answers as documented and whose counts succeed.
use tensor.Prelude.{◌≡◌, ◌↔◌, ◌⊎◌, true, Option, none, some, String, List, [], arith}
use tensor.Models.{User, Organization, Team, Credential, Inventory}
use tensor.Database.{Database, IsDocumented, IsUp}
use tensor.Rbac.Engine.{
  is_organization_admin, has_global_read, has_global_write, in_granted_teams, scan, any_role,
}
use tensor.Rbac.Engine.Laws.{in_granted_teams-false}
use tensor.Rbac.Decisions.{
  HasDirect, IsAnyRole, IsAdminRole, IsAdminOrUpdate, IsGlobalReader, OwnsThrough, scan-HasDirect,
  any_role_iff, project_write_iff, project_update_iff, ladder_iff, admin_iff,
}
use tensor.Rbac.Credential
use tensor.Rbac.Inventory

-- The user acts as an admin of the organization, which may be missing.
abbrev pub MayOwnThrough : List Organization → Option String → String → Type 0
MayOwnThrough organizations none user_id = ⊥
MayOwnThrough organizations (some org_id) user_id = OwnsThrough organizations org_id user_id

module _ {db : Database} {organizations : List Organization} {teams : List Team}
    (documented : IsDocumented db organizations teams) (up : IsUp db) where
  of_organization_iff :
      (org_id : Option String) (user_id : String)
      → (Credential.of_organization db org_id user_id ≡ true)
        ↔ MayOwnThrough organizations org_id user_id
  of_organization_iff none user_id = (λ h. cc, λ h. absurd h)
  of_organization_iff (some org_id) user_id = admin_iff documented up org_id user_id

  -- On a database that answers as documented and whose counts succeed, a user reads a credential
  -- exactly if he reads everything, acts as an admin of the organization that it names, if any, or
  -- has a direct role on it, whichever.
  credential-read_iff :
      (user : User) (credential : Credential)
      → (Credential.read db user credential ≡ true) ↔ (
          IsGlobalReader user
          ⊎ (MayOwnThrough organizations credential.organization_id user.id
              ⊎ HasDirect IsAnyRole user.id credential.roles))
  unfolding Credential.read has_global_read
  credential-read_iff user credential = ground (
    arith,
    ladder_iff (has_global_read user)
        (Credential.of_organization db credential.organization_id user.id)
        (scan any_role user.id credential.roles []) (in_granted_teams db user.id)
        (in_granted_teams-false documented user.id),
    of_organization_iff credential.organization_id user.id,
    scan-HasDirect any_role IsAnyRole any_role_iff user.id credential.roles,
  )

  -- On a database that answers as documented and whose counts succeed, a user changes a credential
  -- exactly if he is a super user, acts as an admin of the organization that it names, if any, or
  -- has the direct role "admin" on it.
  pub credential-write_iff :
      (user : User) (credential : Credential)
      → (Credential.write db user credential ≡ true) ↔ (
          (user.is_super_user ≡ true)
          ⊎ (MayOwnThrough organizations credential.organization_id user.id
              ⊎ HasDirect IsAdminRole user.id credential.roles))
  unfolding Credential.write has_global_write
  credential-write_iff user credential = ground (
    arith,
    ladder_iff (has_global_write user)
        (Credential.of_organization db credential.organization_id user.id)
        (scan Credential.may_write user.id credential.roles []) (in_granted_teams db user.id)
        (in_granted_teams-false documented user.id),
    of_organization_iff credential.organization_id user.id,
    scan-HasDirect Credential.may_write IsAdminRole project_write_iff user.id credential.roles,
  )

  -- On a database that answers as documented and whose counts succeed, a user changes an inventory
  -- exactly if he is a super user, acts as an admin of its organization, or has the direct role
  -- "admin" or "update" on it.
  pub inventory-write_iff :
      (user : User) (inventory : Inventory)
      → (Inventory.write db user inventory ≡ true) ↔ (
          (user.is_super_user ≡ true)
          ⊎ (OwnsThrough organizations inventory.organization_id user.id
              ⊎ HasDirect IsAdminOrUpdate user.id inventory.roles))
  unfolding Inventory.write has_global_write
  inventory-write_iff user inventory = ground (
    arith,
    ladder_iff (has_global_write user) (is_organization_admin db inventory.organization_id user.id)
        (scan Inventory.may_write user.id inventory.roles []) (in_granted_teams db user.id)
        (in_granted_teams-false documented user.id),
    admin_iff documented up inventory.organization_id user.id,
    scan-HasDirect Inventory.may_write IsAdminOrUpdate project_update_iff user.id inventory.roles,
  )

  -- On a database that answers as documented and whose counts succeed, a user reads an inventory
  -- exactly if he reads everything, acts as an admin of its organization, or has a direct role on
  -- it, whichever.
  inventory-read_iff :
      (user : User) (inventory : Inventory)
      → (Inventory.read db user inventory ≡ true) ↔ (
          IsGlobalReader user
          ⊎ (OwnsThrough organizations inventory.organization_id user.id
              ⊎ HasDirect IsAnyRole user.id inventory.roles))
  unfolding Inventory.read has_global_read
  inventory-read_iff user inventory = ground (
    arith,
    ladder_iff (has_global_read user) (is_organization_admin db inventory.organization_id user.id)
        (scan any_role user.id inventory.roles []) (in_granted_teams db user.id)
        (in_granted_teams-false documented user.id),
    admin_iff documented up inventory.organization_id user.id,
    scan-HasDirect any_role IsAnyRole any_role_iff user.id inventory.roles,
  )
