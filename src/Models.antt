-- ===== src/Models.antt =====
-- The records of models/common, models/ansible and models/terraform, with the fields that the access
-- checks read, and the BSON documents that their tags give. A `bson.ObjectId` is a string of bytes;
-- the zero value is the empty string. A nil pointer is `none`. Grantee ids are not empty, so the tag
-- `omitempty` of `grantee_id` drops nothing.
use tensor.Prelude.{Bool, Option, String, List, [], ◌∷◌, map, if◌then◌else◌, ◌==◌, string_eq}
use tensor.Mongo.{Value, object_id, text, Document}

-- An entry of the role list of an object: `type` is "team" or "user".
pub record AccessControl : Type 0 where
  pub grantee_id : String
  pub type : String
  pub role : String

pub record User : Type 0 where
  pub id : String
  pub is_super_user : Bool
  pub is_system_auditor : Bool

pub record Organization : Type 0 where
  pub id : String
  pub name : String
  pub roles : List AccessControl

pub record Team : Type 0 where
  pub id : String
  pub name : String
  pub organization_id : String
  pub roles : List AccessControl

pub record Project : Type 0 where
  pub id : String
  pub name : String
  pub organization_id : String
  pub roles : List AccessControl

pub record Credential : Type 0 where
  pub id : String
  pub name : String
  pub organization_id : Option String
  pub roles : List AccessControl

pub record Inventory : Type 0 where
  pub id : String
  pub name : String
  pub organization_id : String
  pub roles : List AccessControl

-- The job template of models/ansible.
pub record JobTemplate : Type 0 where
  pub id : String
  pub name : String
  pub project_id : String
  pub inventory_id : String
  pub machine_credential_id : Option String
  pub cloud_credential_id : Option String
  pub network_credential_id : Option String
  pub roles : List AccessControl

-- The job template of models/terraform, which has no inventory.
pub record TerraformJobTemplate : Type 0 where
  pub id : String
  pub name : String
  pub project_id : String
  pub machine_credential_id : Option String
  pub cloud_credential_id : Option String
  pub network_credential_id : Option String
  pub roles : List AccessControl

-- The values under the path "roles.…" of a role list.
unfoldable pub role_values : String → List AccessControl → List Value
role_values path roles =
    if path == "roles.grantee_id"
    then map (λ r. object_id r.grantee_id) roles
    else if path == "roles.type"
    then map (λ r. text r.type) roles
    else if path == "roles.role"
    then map (λ r. text r.role) roles
    else []

unfoldable pub organization_document : Organization → Document
unfolding role_values
organization_document o path =
    if path == "_id"
    then object_id o.id ∷ []
    else if path == "name"
    then text o.name ∷ []
    else role_values path o.roles

unfoldable pub team_document : Team → Document
unfolding role_values
team_document t path =
    if path == "_id"
    then object_id t.id ∷ []
    else if path == "name"
    then text t.name ∷ []
    else if path == "organization_id"
    then object_id t.organization_id ∷ []
    else role_values path t.roles
