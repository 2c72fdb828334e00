-- ===== src/Examples/Launches.antt =====
-- Launches of job templates, and pages of empty lists.
use tensor.Prelude.{
  ℕ, ◌≡◌, ◌≢◌, refl, ◌⊎◌, inl, Bool, true, false, none, some, String, List, [], ◌∷◌, arith, ◌==◌,
  string_eq, if◌then◌else◌, count_if,
}
use tensor.Prelude.Text.{codes}
use tensor.Mongo.{matches}
use tensor.Models.{organization_document}
use tensor.Database.Server.{terraform_jobs, terraform_job_templates}
use tensor.Rbac.Engine.{has_global_write, scan, is_organization_admin}
use tensor.Rbac.TerraformJobTemplate as rbac_terraform_job_template
use tensor.Rbac.Decisions.{HasDirect}
use tensor.Rbac.Templates.{IsAdminOrExecute}
use tensor.Api.{
  Write, remove_id, remove_where, note, panicked, no_page, send_page, bound, effects, through,
}
use tensor.Api.Paging.{send_page-panicked}
use tensor.Api.Template as template_api
use tensor.Api.Template.Launch as launch_api
use tensor.Api.Template.Launched.{Stores, launch-effects}
use tensor.Api.Template.Queued.{
  IsRejected, IsDelivered, no_prompts, launch-IsRejected, launch-IsDelivered,
}
use tensor.Api.TerraformTemplate as terraform_api
use tensor.Api.TerraformTemplate.Routes.{template_route-effects, delete_route-effects}
use tensor.Pagination.{new_pagination, limit_parser, page_parser, parse_uint}
use tensor.Examples.Data.{plain, hosts, key, deploy, plan, db, documented}
use tensor.Examples.Things.{site_data, one_found, none_found}

abbrev works : {D : Type 0} → Write D → Bool
works w = true

abbrev pub deploy_data : template_api.TemplateData
deploy_data = record {
  template = deploy;
  description = "";
  job_type = "run";
  run = record {
    playbook = "site.yml";
    verbosity = 0;
    forks = 5;
    limit = "web";
    extra_vars = [];
    job_tags = "";
    skip_tags = "";
    start_at_task = "";
    force_handlers = false;
    become_enabled = false;
    allow_simultaneous = false;
  };
  prompts = no_prompts;
  polymorphic_ctype_id = none;
  created_by_id = "boss";
  modified_by_id = "boss";
  created = 1;
  modified = 1;
}

-- The same template, but it prompts for the inventory.
abbrev asking : template_api.TemplateData
asking = record deploy_data { prompts = record no_prompts { inventory = true } }

abbrev pub template_reads : template_api.Reads
template_reads = record {
  db = db;
  is_object_id = λ id. true;
  find = λ id. if id == "j1" then some deploy_data else none;
  select = λ q order. record { found = deploy_data ∷ []; closes = true };
  count_named = λ name project. none_found;
  count_project = λ id. one_found;
  count_inventory = λ id. one_found;
  count_machine = λ id. one_found;
  count_network = λ id. one_found;
  count_cloud = λ id. one_found;
  new_id = "j2";
  now = 2;
}

abbrev pub launch_reads : launch_api.Reads
launch_reads = record {
  find_credential = λ id. some key;
  find_inventory = λ id. some hosts;
  find_project = λ id. some site_data;
  size = λ id. if id == "" then 0 else 12;
  token = some "t";
  is_missing = λ path. false;
  sync_id = "s1";
  encodes = λ runner. true;
  new_id = "r1";
  now = 3;
}

abbrev request : launch_api.LaunchRequest
request = record {
  limit = "";
  extra_vars = [];
  job_tags = "";
  skip_tags = "";
  job_type = "";
  inventory_id = "i1";
  machine_credential_id = "";
}

sizes : (id : String) → (launch_reads.size id ≡ 12) ⊎ (launch_reads.size id ≡ 0)
sizes id = ground arith

launch-effects_example :
    Stores
      (launch_api.directed deploy_data request (
        launch_api.prompted deploy_data request
          (launch_api.new_job launch_reads (plain "run") deploy_data)))
      (launch_api.prompted deploy_data request
        (launch_api.new_job launch_reads (plain "run") deploy_data))
      (effects (launch_api.launch launch_reads works (plain "run") (bound request) deploy_data))
launch-effects_example = launch-effects launch_reads works (plain "run") deploy_data request

launch-IsRejected_example :
    IsRejected (launch_api.launch launch_reads works (plain "run") (bound request) asking)
launch-IsRejected_example =
    launch-IsRejected launch_reads works (plain "run") asking request sizes (inl refl)

launch-IsDelivered_example : IsDelivered (
    through
      (template_api.middleware template_reads (plain "nobody") "POST" "j1")
      (launch_api.launch launch_reads works (plain "nobody") (bound request)))
launch-IsDelivered_example =
    launch-IsDelivered launch_reads works (λ w. refl) (λ runner. refl) template_reads
      (plain "nobody") "j1" deploy_data request hosts site_data "t" refl refl refl (λ id e. cc) refl
      refl refl

abbrev plan_data : terraform_api.TemplateData
plan_data = record {
  template = plan;
  description = "";
  job_type = "plan";
  vars = [];
  prompts = record { variables = false; credential = false; job_type = false };
  allow_simultaneous = false;
  scope = record {
    scm_credential_id = none;
    parallelism = 0;
    update_on_launch = false;
    target = "";
    directory = "";
  };
  created_by_id = "run";
  modified_by_id = "run";
  created = 1;
  modified = 1;
}

abbrev pub terraform_reads : terraform_api.Reads
terraform_reads = record {
  db = db;
  is_object_id = λ id. true;
  find = λ id. if id == "f1" then some plan_data else none;
  select = λ q order. record { found = plan_data ∷ []; closes = true };
  count_named = λ name project. none_found;
  count_project = λ id. one_found;
  count_machine = λ id. one_found;
  count_network = λ id. one_found;
  count_cloud = λ id. one_found;
  new_id = "f2";
  now = 2;
}

some_write : {D : Type 0} {w : Write D} {ws : List (Write D)} → w ∷ ws ≢ []
some_write e = cc

template_route-effects_example :
    (t : terraform_api.TemplateData) × (terraform_reads.find "f1" ≡ some t)
    × ((false ≡ true) ⊎ HasDirect IsAdminOrExecute "run" t.template.roles)
unfolding terraform_api.middleware rbac_terraform_job_template.write
    rbac_terraform_job_template.of_organization rbac_terraform_job_template.get_organization_id scan
    has_global_write is_organization_admin terraform_api.delete effects through matches
    organization_document count_if
template_route-effects_example =
    template_route-effects terraform_reads (plain "run") "PUT" "f1" (inl refl)
      (terraform_api.delete works (plain "run")) documented some_write

delete_route-effects_example :
    effects (
      through
        (terraform_api.middleware terraform_reads (plain "nobody") "DELETE" "f1")
        (terraform_api.delete works (plain "nobody")))
    ≡ remove_where terraform_jobs "job_template_id" ("f1" ∷ [])
      ∷ remove_id terraform_job_templates "f1"
      ∷ note "delete" "nobody" "f1" none
      ∷ []
delete_route-effects_example =
    delete_route-effects terraform_reads works (plain "nobody") "f1" plan_data refl refl (λ w. refl)

send_page-panicked_example :
    send_page {D = ℕ} {A = ℕ} no_page
      (record { page = codes "4611686018427387905"; page_size = codes "2" })
      []
    ≡ panicked ∷ []
unfolding new_pagination limit_parser page_parser parse_uint
send_page-panicked_example =
    send_page-panicked no_page
      (record { page = codes "4611686018427387905"; page_size = codes "2" }) 2 4611686018427387904
      refl (omega arith) refl (omega arith) (omega arith) (omega arith)
