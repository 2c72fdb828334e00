-- ===== src/Examples/Handlers.antt =====
-- The handlers of api on concrete requests.
use tensor.Prelude.{
  ℕ, ◌≡◌, ◌≢◌, refl, ◌↔◌, ◌⊎◌, inl, inr, Bool, true, false, none, some, ◌==◌, string_eq,
  if◌then◌else◌, List, [], ◌∷◌, Some, arith, count_if,
}
use tensor.Mongo.{matches}
use tensor.Models.{AccessControl, organization_document, team_document}
use tensor.Database.Server.{Has, inventories, terraform_jobs, projects}
use tensor.Rbac.Engine.{
  has_global_read, has_global_write, has_organization_read, is_organization_admin, scan,
  in_granted_teams,
}
use tensor.Rbac.Decisions.{HasDirect, OwnsThrough, IsAdminRole}
use tensor.Rbac.Project as rbac_project
use tensor.Rbac.Credential as rbac_credential
use tensor.Api.{
  Write, sent, panicked, passed, bound, effects, statuses, through, send_page, bad_page, no_page,
}
use tensor.Api.Paging.{send_page-cases, response}
use tensor.Api.Routes.{project_route-effects}
use tensor.Api.Removal.{delete-keeps_roles}
use tensor.Api.Orphans.{Document, Removes, Names, by_project, a_terraform_job, delete-Removes}
use tensor.Api.Project as project_api
use tensor.Api.Project.Created.{IsAccepted, create-IsAccepted_iff}
use tensor.Api.Credential as credential_api
use tensor.Api.Credential.Update as credential_update
use tensor.Api.Project.Update as project_update
use tensor.Api.Credential.Lists as credential_lists
use tensor.Api.Credential.Secrecy.{changed-hide_encrypted}
use tensor.Api.Organization as organization_api
use tensor.Api.Team as team_api
use tensor.Api.Team.Created.{create-effects_iff}
use tensor.Api.User as user_api
use tensor.Api.User.Lists as user_lists
use tensor.Api.User.AssignRole.{assign_role}
use tensor.Api.User.Escalation.{auditor-assign_role}
use tensor.Api.User.Empty.{granted-empty}
use tensor.Api.AccessList.{access_list}
use tensor.Api.AccessList.Kinds.{of_organization, of_project, manages}
use tensor.Api.AccessList.Laws.{IsDescribed, access_list-cases}
use tensor.QueryParser.{Form}
use tensor.Pagination.{new_pagination, has_page}
use tensor.Examples.Data.{
  plain, user_role, acme, site, loose_key, organizations, db, documented, up,
}
use tensor.Examples.Store.{remove, kept, kept-Keeps}
use tensor.Examples.Things.{
  first_page, auditor, site_data, project_reads, key_data, loose_data, credential_reads, acme_data,
  organization_reads, ops_data, team_reads, eve_data, user_reads,
}

abbrev works : {D : Type 0} → Write D → Bool
works w = true

abbrev no_form : Form
no_form name = []

some_write : {D : Type 0} {w : Write D} {ws : List (Write D)} → w ∷ ws ≢ []
some_write e = cc

project_route-effects_example :
    (p : project_api.ProjectData) × (project_reads.find "p1" ≡ some p)
    × ((false ≡ true)
        ⊎ (OwnsThrough organizations p.project.organization_id "own"
            ⊎ HasDirect IsAdminRole "own" p.project.roles))
unfolding project_api.middleware rbac_project.write scan has_global_write is_organization_admin
    project_update.delete effects through matches organization_document count_if
project_route-effects_example =
    project_route-effects project_reads (plain "own") "DELETE" "p1" (inr refl)
      (project_update.delete works (plain "own")) documented up some_write

changed-hide_encrypted_example :
    (credential_update.changed credential_reads
      (plain "own")
      key_data
      (credential_api.hide_encrypted loose_data)).secrets
    ≡ key_data.secrets
changed-hide_encrypted_example =
    changed-hide_encrypted credential_reads (plain "own") key_data loose_data

-- The project names a credential without an organization.
abbrev loose_reads : project_api.Reads
loose_reads = record project_reads { db = record db { find_credential = λ id. some loose_key } }

create-IsAccepted_iff_example :
    (effects (project_api.create loose_reads works (plain "mel") (bound site_data)) ≢ [])
    ↔ IsAccepted loose_reads works (plain "mel") site_data
create-IsAccepted_iff_example = create-IsAccepted_iff loose_reads works (plain "mel") site_data

-- The user may not read the credential, and the project is stored all the same.
unreadable_stored :
    (rbac_credential.read loose_reads.db (plain "mel") loose_key ≡ false)
    × (effects (project_api.create loose_reads works (plain "mel") (bound site_data)) ≢ [])
unfolding has_global_read has_organization_read matches organization_document count_if
    rbac_credential.read in_granted_teams scan team_document
unreadable_stored = (
  refl,
  (create-IsAccepted_iff loose_reads works (plain "mel") site_data).1
      (refl, refl, refl, inr ("c1", loose_key, refl, refl, refl), refl),
)

create-effects_iff_example :
    (effects (team_api.create team_reads works (plain "tim") (bound ops_data)) ≢ [])
    ↔ ((true ≡ true) × (false ≡ false) × (true ≡ true))
create-effects_iff_example = create-effects_iff team_reads works (plain "tim") ops_data

auditor-assign_role_example :
    (user_api.middleware user_reads auditor "POST" "eve" ≡ passed eve_data)
    × (rbac_project.write db auditor (record site { roles = user_role "eve" "admin" ∷ site.roles })
        ≡ true)
unfolding assign_role rbac_project.associate
auditor-assign_role_example =
    auditor-assign_role kept kept-Keeps true db (λ id. none) user_reads auditor eve_data site
      (λ id. site.roles) refl refl refl refl refl (user_role "eve" "admin" ∷ site.roles) refl

access_list-cases_example :
    let organization =
      of_organization ("admin" ∷ []) ("read" ∷ []) ("read" ∷ []) manages manages manages in
    ((Some (IsDescribed (organization acme)) acme.roles
        ⊎ Some (IsDescribed (of_project site)) site.roles)
      × (access_list (λ id. none) first_page (some acme) organization (of_project site) site.roles
          ≡ panicked ∷ []))
    ⊎ (((Some (IsDescribed (organization acme)) acme.roles
            ⊎ Some (IsDescribed (of_project site)) site.roles)
          → ⊥)
        × (access_list (λ id. none) first_page (some acme) organization (of_project site) site.roles
            ≡ send_page bad_page first_page []))
access_list-cases_example =
    access_list-cases (λ id. none) first_page acme
      (of_organization ("admin" ∷ []) ("read" ∷ []) ("read" ∷ []) manages manages manages)
      (of_project site) site.roles

granted-empty_example :
    (user_lists.user_teams (λ q. record { found = []; closes = true }) first_page eve_data
      ≡ send_page bad_page first_page [])
    × (user_lists.user_organizations (λ q. record { found = []; closes = true }) first_page eve_data
        ≡ send_page bad_page first_page [])
    × (user_lists.admins_of_organizations
          (λ q. record { found = []; closes = true })
          first_page
          eve_data
        ≡ send_page bad_page first_page [])
granted-empty_example =
    granted-empty (λ q. record { found = []; closes = true })
      (λ q. record { found = []; closes = true }) first_page eve_data (λ q. tt) (λ q. tt)
      (λ q. refl) (λ q. refl)

-- A job of the project, which the removal of the organization takes along.
abbrev StoredDocuments : Document → Type 0
StoredDocuments d =
    ((d.collection ≡ projects) × (d.id ≡ "p1")) ⊎ ((d.collection ≡ inventories) × (d.id ≡ "i1"))

abbrev project_document : Document
project_document = record {
  collection = projects;
  id = "p1";
  field = λ name. if name == "organization_id" then some "o1" else none;
}

abbrev job_document : Document
job_document = record {
  collection = terraform_jobs;
  id = "r1";
  field = λ name. if name == "project_id" then some "p1" else none;
}

delete-Removes_example :
    Some
      (λ w. Removes w job_document)
      (effects (organization_api.delete organization_reads works (plain "ada") acme_data))
unfolding organization_api.delete organization_api.remove_all organization_api.removals statuses
delete-Removes_example =
    delete-Removes organization_reads works (plain "ada") acme_data StoredDocuments job_document
      only_project only_inventory (inl refl)
      (by_project project_document a_terraform_job (inl (refl, refl), refl, refl) refl)
  where
    only_project :
        (p : Document) → Names StoredDocuments projects "o1" p → Some (λ i. i ≡ p.id) ("p1" ∷ [])
    only_project p (inl (c, e), d, f) = inl (cc)
    only_project p (inr (c, e), d, f) = absurd cc

    only_inventory :
        (p : Document) → Names StoredDocuments inventories "o1" p → Some (λ i. i ≡ p.id) ("i1" ∷ [])
    only_inventory p (inl (c, e), d, f) = absurd cc
    only_inventory p (inr (c, e), d, f) = inl (cc)

delete-keeps_roles_example :
    (new : List AccessControl) × (some (remove (user_api.grants_of "eve") site.roles) ≡ some new)
    × ((y : AccessControl) → Has y new ↔ Has y site.roles)
unfolding user_api.delete user_api.pull_all user_api.granted effects
delete-keeps_roles_example =
    delete-keeps_roles kept kept-Keeps (λ id. site.roles) projects "p1" site.roles
      (user_api.grants_of "eve") (plain "root") eve_data ops_data works works (inl (inl refl)) refl
      refl ((λ e. cc, ((λ e. cc), ((λ e. cc), tt))))

abbrev three : List ℕ
three = 7 ∷ 8 ∷ 9 ∷ []

send_page-cases_example :
    ((has_page (new_pagination first_page.page first_page.page_size 3) ≡ true)
      × (send_page {D = ℕ} no_page first_page three
          ≡ sent 404 (no_page (new_pagination first_page.page first_page.page_size 3).page) ∷ []))
    ⊎ ((has_page (new_pagination first_page.page first_page.page_size 3) ≡ false)
        × (send_page {D = ℕ} no_page first_page three
            ≡ sent 200 (response (new_pagination first_page.page first_page.page_size 3) three)
              ∷ []))
send_page-cases_example = send_page-cases no_page first_page three (omega arith) (omega arith)
