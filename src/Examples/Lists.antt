-- ===== src/Examples/Lists.antt =====
-- The lists of api on concrete requests.
use tensor.Prelude.{
  ◌≡◌, ◌≢◌, refl, Bool, count_if, true, false, none, some, [], ◌∷◌, All, ◌==◌, string_eq,
  if◌then◌else◌,
}
use tensor.Rbac.Project as rbac_project
use tensor.Rbac.Credential as rbac_credential
use tensor.Rbac.Inventory as rbac_inventory
use tensor.Rbac.Organization as rbac_organization
use tensor.Rbac.Team as rbac_team
use tensor.Rbac.User as rbac_user
use tensor.Api.Paging.{Shows}
use tensor.Api.Listing.{all-IsReadable}
use tensor.Api.Project.Lists as project_lists
use tensor.Api.Credential.Lists as credential_lists
use tensor.Api.Inventory as inventory_api
use tensor.Api.Organization.Lists as organization_lists
use tensor.Api.Team.Lists as team_lists
use tensor.Api.User.Lists as user_lists
use tensor.QueryParser.{Form}
use tensor.Examples.Data.{plain, db}
use tensor.Examples.Things.{
  first_page, one_found, none_found, project_reads, credential_reads, inventory_reads,
  organization_reads, team_reads, user_reads,
}
use tensor.Rbac.JobTemplate as rbac_job_template
use tensor.Rbac.TerraformJobTemplate as rbac_terraform_job_template
use tensor.Api.Template.Lists as template_lists
use tensor.Api.TerraformTemplate.Lists as terraform_lists
use tensor.Examples.Launches.{template_reads, terraform_reads, launch_reads, deploy_data}
use tensor.Api.Job as job_api
use tensor.Rbac.Engine.{has_global_write, is_organization_admin, scan, in_granted_teams}
use tensor.Mongo.{matches}
use tensor.Models.{organization_document, team_document}
use tensor.Api.Host as host_api
use tensor.Api.Host.Moved.{update-moved}
use tensor.Api.{Write, did, update_id, note, bound}
use tensor.Api.Job.Unlisted.{std_out-unlisted}
use tensor.Api.TerraformJob as terraform_job_api
use tensor.Api.Template.Launch as launch_api
use tensor.Api.{through, sent, item}

abbrev no_form : Form
no_form name = []

-- A job of the template, and one that updates its project.
abbrev deploy_job : job_api.JobDocument
deploy_job = record {
  job = launch_api.new_job launch_reads (plain "run") deploy_data;
  failed = false;
  started = 3;
  finished = 5;
  elapsed = 2;
  result_stdout = "ok";
  result_traceback = "";
  job_explanation = "";
  scm_credential_id = none;
  job_cwd = "";
  job_args = [];
  job_env = [];
}

abbrev update_job : job_api.JobDocument
update_job = record deploy_job { job = record deploy_job.job { job_template_id = "" } }

abbrev job_reads : job_api.Reads
job_reads = record {
  db = db;
  is_object_id = λ id. true;
  size = λ id. if id == "" then 0 else 12;
  find = λ id. some update_job;
  select = λ q order. record { found = deploy_job ∷ update_job ∷ []; closes = true };
}

abbrev plan_job : terraform_job_api.JobDocument
plan_job = record {
  job = record {
    id = "r2";
    name = "plan";
    description = "";
    launch_type = "manual";
    cancel_flag = false;
    status = "new";
    job_type = "plan";
    vars = [];
    scope = record {
      scm_credential_id = none;
      parallelism = 0;
      update_on_launch = false;
      target = "";
      directory = "";
    };
    machine_credential_id = none;
    job_template_id = "f1";
    project_id = "p1";
    network_credential_id = none;
    cloud_credential_id = none;
    created_by_id = "run";
    modified_by_id = "run";
    created = 3;
    modified = 3;
    prompts = record { variables = false; credential = false; job_type = false };
    allow_simultaneous = false;
  };
  failed = false;
  started = 3;
  finished = 5;
  elapsed = 2;
  result_stdout = "ok";
  result_get_stdout = "";
  result_traceback = "";
  job_explanation = "";
  job_cwd = "";
  job_args = [];
  job_env = [];
}

abbrev terraform_job_reads : terraform_job_api.Reads
terraform_job_reads = record {
  db = db;
  is_object_id = λ id. true;
  size = λ id. if id == "" then 0 else 12;
  find = λ id. some plan_job;
  select = λ q order. record { found = plan_job ∷ []; closes = true };
}

abbrev web : host_api.HostData
web = record {
  id = "h1";
  name = "web";
  inventory_id = "i1";
  description = "";
  group_id = none;
  instance_id = "";
  variables = "";
  enabled = true;
  created_by_id = "own";
  modified_by_id = "own";
  created = 1;
  modified = 1;
}

abbrev host_reads : host_api.Reads
host_reads = record {
  db = db;
  is_object_id = λ id. true;
  find = λ id. some web;
  select = λ q order. record { found = web ∷ []; closes = true };
  count_named = λ name inventory. one_found;
  count_inventory = λ id. one_found;
  count_group = λ id. none_found;
  new_id = "h2";
  now = 2;
}

abbrev elsewhere : host_api.HostData
elsewhere = record web { inventory_id = "i2" }

abbrev works : {D : Type 0} → Write D → Bool
works w = true

update-moved_example :
    (through
        (host_api.middleware host_reads (plain "dev") "PUT" "h1")
        (host_api.update host_reads works (plain "dev") (bound elsewhere))
      ≡ did (update_id "h1" (host_api.changed (plain "dev") web elsewhere)) true
        ∷ did (note "update" "dev" "h1" (some "h1")) true
        ∷ sent 200 (item (host_api.changed (plain "dev") web elsewhere))
        ∷ [])
    × ((host_api.changed (plain "dev") web elsewhere).inventory_id ≡ "i2")
unfolding rbac_inventory.write_by_id rbac_inventory.write has_global_write is_organization_admin
    count_if matches organization_document scan in_granted_teams team_document
update-moved_example =
    update-moved host_reads works (plain "dev") "h1" web elsewhere (λ w. refl) refl refl refl refl
      refl refl

std_out-unlisted_example :
    (through (job_api.middleware job_reads (plain "dev") "GET" "u1") job_api.one
      ≡ sent 200 (item update_job) ∷ [])
    × (through (job_api.middleware job_reads (plain "dev") "GET" "u1") job_api.std_out
        ≡ sent 200 (item "ok") ∷ [])
    × All
        (Shows (λ k. k.job.job_template_id ≢ ""))
        (job_api.all job_reads (plain "dev") no_form first_page)
std_out-unlisted_example =
    std_out-unlisted job_reads (plain "dev") update_job refl "u1" no_form first_page refl refl refl

all-IsReadable_example :
    All
      (Shows (λ p. rbac_project.read db (plain "dev") p.project ≡ true))
      (project_lists.all project_reads (plain "dev") no_form first_page)
    × All
        (Shows (λ c. rbac_credential.read db (plain "dev") c.credential ≡ true))
        (credential_lists.all credential_reads (plain "dev") no_form first_page)
    × All
        (Shows (λ v. rbac_inventory.read db (plain "dev") v.inventory ≡ true))
        (inventory_api.all inventory_reads (plain "dev") no_form first_page)
    × All
        (Shows (λ o. rbac_organization.read (plain "dev") o.organization ≡ true))
        (organization_lists.all organization_reads (plain "dev") no_form first_page)
    × All
        (Shows (λ t. rbac_team.read db (plain "dev") t.team ≡ true))
        (team_lists.all team_reads (plain "dev") no_form first_page)
    × All
        (Shows (λ u. rbac_user.read (plain "dev") u.user ≡ true))
        (user_lists.all user_reads (plain "dev") no_form first_page)
    × All
        (Shows (λ t. rbac_job_template.read db (plain "dev") t.template ≡ true))
        (template_lists.all template_reads (plain "dev") no_form first_page)
    × All
        (Shows (λ t. rbac_terraform_job_template.read db (plain "dev") t.template ≡ true))
        (terraform_lists.all terraform_reads (plain "dev") no_form first_page)
    × All
        (Shows (λ j. rbac_job_template.read_by_id db (plain "dev") j.job.job_template_id ≡ true))
        (job_api.all job_reads (plain "dev") no_form first_page)
    × All
        (Shows (λ j.
          rbac_terraform_job_template.read_by_id db (plain "dev") j.job.job_template_id ≡ true))
        (terraform_job_api.all terraform_job_reads (plain "dev") no_form first_page)
    × All
        (Shows (λ h. rbac_inventory.read_by_id db (plain "dev") h.inventory_id ≡ true))
        (host_api.all host_reads (plain "dev") no_form first_page)
all-IsReadable_example =
    all-IsReadable project_reads credential_reads inventory_reads organization_reads team_reads
      user_reads template_reads terraform_reads job_reads terraform_job_reads host_reads
      (plain "dev") no_form first_page
