-- ===== src/Examples/Templates.antt =====
-- The checks on job templates.
use tensor.Prelude.{◌≡◌, refl, ◌↔◌, ◌⊎◌, inl, inr, true, false, count_if}
use tensor.Rbac.Engine.{has_global_read, is_organization_admin, in_granted_teams, scan}
use tensor.Rbac.Decisions.{HasDirect}
use tensor.Rbac.Templates.{IsAdminOrExecute, job_template-write_iff, writer_cannot_read}
use tensor.Rbac.Project
use tensor.Rbac.Credential
use tensor.Rbac.Inventory
use tensor.Rbac.JobTemplate
use tensor.Rbac.TerraformJobTemplate
use tensor.Mongo.{matches}
use tensor.Models.{organization_document, team_document}
use tensor.Examples.Data.{plain, deploy, plan, db, documented}

templates : Unit {0}
unfolding JobTemplate.read JobTemplate.write JobTemplate.read_credentials JobTemplate.read_parts
    JobTemplate.of_organization JobTemplate.get_organization_id TerraformJobTemplate.read
    TerraformJobTemplate.write TerraformJobTemplate.read_credentials TerraformJobTemplate.read_parts
    TerraformJobTemplate.of_organization TerraformJobTemplate.get_organization_id
    Credential.read_by_id Credential.read Inventory.read_by_id Inventory.read Project.read_by_id
    Project.read has_global_read is_organization_admin in_granted_teams scan matches
    organization_document team_document count_if
templates = tt

template_tests :
    (JobTemplate.read db (plain "own") deploy ≡ true)
    × (JobTemplate.read db (plain "run") deploy ≡ false)
    × (TerraformJobTemplate.read db (plain "run") plan ≡ true)
    × (TerraformJobTemplate.read db (plain "dev") plan ≡ true)
    × (TerraformJobTemplate.read db (plain "eve") plan ≡ false)
unfolding templates
template_tests = (refl, refl, refl, refl, refl)

job_template-write_iff_example :
    (JobTemplate.write db (plain "run") deploy ≡ true)
    ↔ ((false ≡ true) ⊎ HasDirect IsAdminOrExecute "run" deploy.roles)
job_template-write_iff_example = job_template-write_iff documented (plain "run") deploy

writer_cannot_read_example :
    (JobTemplate.write db (plain "boss") deploy ≡ true)
    × (JobTemplate.read db (plain "boss") deploy ≡ false)
unfolding templates
writer_cannot_read_example =
    writer_cannot_read db (plain "boss") deploy "c1" refl refl refl (inr (inl (refl, refl, refl)))
