-- ===== src/Rbac/Templates.antt =====
-- What the checks of jobtemplate.go and terraformjobtemplate.go decide.
use tensor.Prelude.{
  ◌≡◌, refl, ◌↔◌, ◌⊎◌, inl, true, false, some, String, List, [], arith, Some-imp, string_eq_iff,
}
use tensor.Models.{User, Organization, Team, JobTemplate, TerraformJobTemplate}
use tensor.Database.{Database, IsDocumented}
use tensor.Rbac.Engine.{
  is_organization_admin, has_global_read, has_global_write, in_granted_teams, scan,
}
use tensor.Rbac.Engine.Laws.{in_granted_teams-false}
use tensor.Rbac.Decisions.{ladder_iff, scan-HasDirect, HasDirect}
use tensor.Rbac.Credential
use tensor.Rbac.JobTemplate
use tensor.Rbac.TerraformJobTemplate

abbrev pub IsAdminOrExecute : String → Type 0
IsAdminOrExecute role = (role ≡ "admin") ⊎ (role ≡ "execute")

execute_iff : (r : String) → (JobTemplate.may_write r ≡ true) ↔ IsAdminOrExecute r
execute_iff r = ground (arith, string_eq_iff r "admin", string_eq_iff r "execute")

terraform_execute_iff :
    (r : String) → (TerraformJobTemplate.may_write r ≡ true) ↔ IsAdminOrExecute r
terraform_execute_iff r = ground (arith, string_eq_iff r "admin", string_eq_iff r "execute")

-- An empty organization id is nobody's.
is_organization_admin_empty :
    (db : Database) (user_id : String) → is_organization_admin db "" user_id ≡ false
unfolding is_organization_admin
is_organization_admin_empty db user_id = refl

-- Whatever the database answers, nobody has access to an Ansible job template through the
-- organization: the step is taken only after a lookup that failed, and then with an empty id.
job_template-of_organization :
    (db : Database) (user : User) (jtemplate : JobTemplate)
    → JobTemplate.of_organization db user jtemplate ≡ false
unfolding JobTemplate.of_organization JobTemplate.get_organization_id
job_template-of_organization db user jtemplate =
    ground (arith, is_organization_admin_empty db user.id)

-- Whatever the database answers, nobody has access to a Terraform job template through the
-- organization: the step is taken only after a lookup that failed, and then with an empty id.
terraform_job_template-of_organization :
    (db : Database) (user : User) (jtemplate : TerraformJobTemplate)
    → TerraformJobTemplate.of_organization db user jtemplate ≡ false
unfolding TerraformJobTemplate.of_organization TerraformJobTemplate.get_organization_id
terraform_job_template-of_organization db user jtemplate =
    ground (arith, is_organization_admin_empty db user.id)

module _ {db : Database} {organizations : List Organization} {teams : List Team}
    (documented : IsDocumented db organizations teams) where
  -- On a database that answers as documented, a user changes an Ansible job template exactly if he
  -- is a super user or has the direct role "admin" or "execute" on it. Neither its organization nor
  -- his teams give him the right.
  pub job_template-write_iff :
      (user : User) (jtemplate : JobTemplate)
      → (JobTemplate.write db user jtemplate ≡ true)
        ↔ ((user.is_super_user ≡ true) ⊎ HasDirect IsAdminOrExecute user.id jtemplate.roles)
  unfolding JobTemplate.write has_global_write
  job_template-write_iff user jtemplate = ground (
    arith,
    ladder_iff (has_global_write user) (JobTemplate.of_organization db user jtemplate)
        (scan JobTemplate.may_write user.id jtemplate.roles []) (in_granted_teams db user.id)
        (in_granted_teams-false documented user.id),
    job_template-of_organization db user jtemplate,
    scan-HasDirect JobTemplate.may_write IsAdminOrExecute execute_iff user.id jtemplate.roles,
  )

  -- On a database that answers as documented, a user changes a Terraform job template exactly if he
  -- is a super user or has the direct role "admin" or "execute" on it. Neither its organization nor
  -- his teams give him the right.
  pub terraform_job_template-write_iff :
      (user : User) (jtemplate : TerraformJobTemplate)
      → (TerraformJobTemplate.write db user jtemplate ≡ true)
        ↔ ((user.is_super_user ≡ true) ⊎ HasDirect IsAdminOrExecute user.id jtemplate.roles)
  unfolding TerraformJobTemplate.write has_global_write
  terraform_job_template-write_iff user jtemplate = ground (
    arith,
    ladder_iff (has_global_write user) (TerraformJobTemplate.of_organization db user jtemplate)
        (scan TerraformJobTemplate.may_write user.id jtemplate.roles [])
        (in_granted_teams db user.id) (in_granted_teams-false documented user.id),
    terraform_job_template-of_organization db user jtemplate,
    scan-HasDirect TerraformJobTemplate.may_write IsAdminOrExecute terraform_execute_iff user.id
        jtemplate.roles,
  )

-- A user with the direct role "admin" on an Ansible job template may change it and yet not read it,
-- where he does not read everything and the template names a machine credential that he may not
-- read: the credential alone decides.
pub writer_cannot_read :
    (db : Database) (user : User) (jtemplate : JobTemplate) (machine : String)
    → has_global_read user ≡ false
    → jtemplate.machine_credential_id ≡ some machine
    → Credential.read_by_id db user machine ≡ false
    → HasDirect (λ r. r ≡ "admin") user.id jtemplate.roles
    → (JobTemplate.write db user jtemplate ≡ true) × (JobTemplate.read db user jtemplate ≡ false)
unfolding JobTemplate.write JobTemplate.read JobTemplate.read_credentials
writer_cannot_read db user jtemplate machine low has_machine denied direct = (
  ground (
    arith,
    (scan-HasDirect JobTemplate.may_write IsAdminOrExecute execute_iff user.id jtemplate.roles).1
        (Some-imp _ _ (λ v d. (d.0, d.1, inl d.2)) jtemplate.roles direct),
  ),
  ground arith,
)
