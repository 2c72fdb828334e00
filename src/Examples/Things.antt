-- ===== src/Examples/Things.antt =====
-- Documents and reads for the handlers of api, over the small database.
use tensor.Prelude.{true, false, none, some, [], ◌∷◌, ◌==◌, string_eq, if◌then◌else◌}
use tensor.Prelude.Int.{pos}
use tensor.Mongo.{Count}
use tensor.Models.{User}
use tensor.Api.{PageQuery}
use tensor.Api.Project as project_api
use tensor.Api.Credential as credential_api
use tensor.Api.Inventory as inventory_api
use tensor.Api.Organization as organization_api
use tensor.Api.Team as team_api
use tensor.Api.User as user_api
use tensor.Examples.Data.{plain, acme, ops, site, hosts, key, db}
use tensor.Prelude.Text.{codes}

abbrev pub first_page : PageQuery
first_page = record { page = codes "1"; page_size = codes "2" }

abbrev pub one_found : Count
one_found = record { found = 1; error = none }

abbrev pub none_found : Count
none_found = record { found = 0; error = none }

abbrev pub auditor : User
auditor = record { id = "eve"; is_super_user = false; is_system_auditor = true }

abbrev pub site_data : project_api.ProjectData
site_data = record {
  project = site;
  description = "the site";
  local_path = "/projects/p1";
  kind = "ansible";
  scm = record {
    scm_type = "git";
    url = "https://example.org/site";
    branch = "main";
    clean = false;
    delete_on_update = false;
    credential_id = some "c1";
    delete_on_next_update = false;
    update_on_launch = true;
    update_cache_timeout = pos 0;
  };
  created_by_id = "own";
  modified_by_id = "own";
  created = 1;
  modified = 1;
}

abbrev pub project_reads : project_api.Reads
project_reads = record {
  db = db;
  is_object_id = λ id. true;
  find = λ id. if id == "p1" then some site_data else none;
  find_team = λ id. some ops;
  select = λ q order. record { found = site_data ∷ []; closes = true };
  count_named = λ name organization. none_found;
  count_organization = λ id. one_found;
  count_scm = λ id. one_found;
  new_id = "p2";
  now = 2;
  path_of = λ id. "/projects/p2";
}

abbrev pub key_data : credential_api.CredentialData
key_data = record {
  credential = key;
  description = "the key";
  email = "";
  settings = record {
    kind = "ssh";
    cloud = false;
    host = "";
    username = "root";
    security_token = "";
    project = "";
    domain = "";
    become_method = "";
    become_username = "";
    subscription = "";
    tenant = "";
    client = "";
    authorize = false;
  };
  secrets = record {
    password = "x1";
    ssh_key_data = "x2";
    ssh_key_unlock = "x3";
    become_password = "x4";
    vault_password = "x5";
    authorize_password = "x6";
    secret = "x7";
  };
  created_by_id = "own";
  modified_by_id = "own";
  created = 1;
  modified = 1;
}

abbrev pub loose_data : credential_api.CredentialData
loose_data = record key_data { credential = record key { organization_id = none } }

abbrev pub credential_reads : credential_api.Reads
credential_reads = record {
  db = db;
  is_object_id = λ id. true;
  find = λ id. if id == "c1" then some key_data else none;
  find_team = λ id. some ops;
  find_user = λ id. some (plain id);
  select = λ q order. record { found = key_data ∷ loose_data ∷ []; closes = true };
  count_named = λ name. none_found;
  count_organization = λ id. one_found;
  cipher = λ text. "sealed";
  new_id = "c2";
  now = 2;
}

abbrev pub hosts_data : inventory_api.InventoryData
hosts_data = record {
  inventory = hosts;
  description = "";
  variables = "";
  created_by_id = "dev";
  modified_by_id = "dev";
  created = 1;
  modified = 1;
}

abbrev pub inventory_reads : inventory_api.Reads
inventory_reads = record {
  db = db;
  is_object_id = λ id. true;
  find = λ id. if id == "i1" then some hosts_data else none;
  select = λ q order. record { found = hosts_data ∷ []; closes = true };
  count_named = λ name organization. none_found;
  count_organization = λ id. one_found;
  new_id = "i2";
  now = 2;
}

abbrev pub acme_data : organization_api.OrganizationData
acme_data = record {
  organization = acme;
  description = "";
  created_by_id = "ada";
  modified_by_id = "ada";
  created = 1;
  modified = 1;
}

abbrev pub organization_reads : organization_api.Reads
organization_reads = record {
  is_object_id = λ id. true;
  find = λ id. if id == "o1" then some acme_data else none;
  find_user = λ id. some (plain id);
  find_team = λ id. some ops;
  select = λ q order. record { found = acme_data ∷ []; closes = true };
  count_named = λ name. none_found;
  project_ids = λ id. record { found = "p1" ∷ []; closes = true };
  inventory_ids = λ id. record { found = "i1" ∷ []; closes = true };
  new_id = "o2";
  now = 2;
}

abbrev pub ops_data : team_api.TeamData
ops_data = record {
  team = ops;
  description = "";
  created_by_id = "ada";
  modified_by_id = "ada";
  created = 1;
  modified = 1;
}

abbrev pub team_reads : team_api.Reads
team_reads = record {
  db = db;
  is_object_id = λ id. true;
  find = λ id. if id == "t1" then some ops_data else none;
  find_user = λ id. some (plain id);
  select = λ q order. record { found = ops_data ∷ []; closes = true };
  count_named = λ name organization. none_found;
  count_organization = λ id. one_found;
  new_id = "t2";
  now = 2;
}

abbrev pub eve_data : user_api.UserData
eve_data = record {
  user = auditor;
  username = "eve";
  first_name = "Eve";
  last_name = "";
  email = "eve@example.org";
  password = "x8";
  organization_id = "o1";
  created = 1;
  modified = 1;
}

abbrev pub user_reads : user_api.Reads
user_reads = record {
  is_object_id = λ id. true;
  find = λ id. if id == "eve" then some eve_data else none;
  select = λ q order. record { found = eve_data ∷ []; closes = true };
  count_email = λ email. none_found;
  count_username = λ name. none_found;
  hash = λ text. "hashed";
  new_id = "u2";
  now = 2;
}
