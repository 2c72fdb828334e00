-- ===== src/Api/Listing.antt =====
-- What the requests that list objects show.
use tensor.Prelude.{if◌then◌else◌, ◌≡◌, Bool, true, not, String, List, [], ◌∷◌, All, map}
use tensor.Models.{User}
use tensor.QueryParser.{Form}
use tensor.Rbac.Project as rbac_project
use tensor.Rbac.Credential as rbac_credential
use tensor.Rbac.Inventory as rbac_inventory
use tensor.Rbac.Organization as rbac_organization
use tensor.Rbac.Team as rbac_team
use tensor.Rbac.User as rbac_user
use tensor.Api.{PageQuery, no_page, abort_with_error, send_page}
use tensor.Api.Paging.{Shows, if-Events, send_page-Shows, keep-All}
use tensor.Api.Project as project_api
use tensor.Api.Host as host_api
use tensor.Api.Job as job_api
use tensor.Api.TerraformJob as terraform_job_api
use tensor.Api.Project.Lists as project_lists
use tensor.Api.Credential as credential_api
use tensor.Api.Credential.Lists as credential_lists
use tensor.Api.Inventory as inventory_api
use tensor.Api.Organization as organization_api
use tensor.Api.Organization.Lists as organization_lists
use tensor.Api.Team as team_api
use tensor.Api.Team.Lists as team_lists
use tensor.Rbac.JobTemplate as rbac_job_template
use tensor.Rbac.TerraformJobTemplate as rbac_terraform_job_template
use tensor.Api.Template as template_api
use tensor.Api.Template.Lists as template_lists
use tensor.Api.TerraformTemplate as terraform_api
use tensor.Api.TerraformTemplate.Lists as terraform_lists
use tensor.Api.User as user_api
use tensor.Api.User.Lists as user_lists

All-image :
    {A : Type 0} (P Q : A → Type 0) (f : A → A) (xs : List A)
    → ((a : A) → P a → Q (f a))
    → All P xs
    → All Q (map f xs)
All-image P Q f [] h k = tt
All-image P Q f (x ∷ xs) h k = (h x k.0, All-image P Q f xs h k.1)

-- A list, where everything that is sent on may be read.
listed :
    {D : Type 0} (P : D → Type 0) (text : String) (q : PageQuery) (closes : Bool) (found : List D)
    → All P found
    → All
        (Shows {D = D} P)
        (if not closes then abort_with_error 504 text else send_page no_page q found)
unfolding Shows
listed P text q closes found h =
    if-Events (Shows P) (not closes) _ _ (tt, tt) (send_page-Shows _ P no_page q found (λ n. tt) h)

-- Each of the requests that list projects, credentials, inventories, organizations, teams, users,
-- job templates, jobs, both of Ansible and of Terraform, and hosts, sends only objects that the
-- user may read; for a job this means its template, for a host its inventory. This holds whatever
-- the database finds and however it answers.
pub all-IsReadable :
    (projects : project_api.Reads) (credentials : credential_api.Reads)
    (inventories : inventory_api.Reads) (organizations : organization_api.Reads)
    (teams : team_api.Reads) (users : user_api.Reads) (templates : template_api.Reads)
    (terraforms : terraform_api.Reads) (jobs : job_api.Reads)
    (terraform_jobs : terraform_job_api.Reads) (hosts : host_api.Reads) (user : User) (form : Form)
    (q : PageQuery)
    → All
        (Shows (λ p. rbac_project.read projects.db user p.project ≡ true))
        (project_lists.all projects user form q)
      × All
          (Shows (λ c. rbac_credential.read credentials.db user c.credential ≡ true))
          (credential_lists.all credentials user form q)
      × All
          (Shows (λ v. rbac_inventory.read inventories.db user v.inventory ≡ true))
          (inventory_api.all inventories user form q)
      × All
          (Shows (λ o. rbac_organization.read user o.organization ≡ true))
          (organization_lists.all organizations user form q)
      × All
          (Shows (λ t. rbac_team.read teams.db user t.team ≡ true))
          (team_lists.all teams user form q)
      × All (Shows (λ u. rbac_user.read user u.user ≡ true)) (user_lists.all users user form q)
      × All
          (Shows (λ t. rbac_job_template.read templates.db user t.template ≡ true))
          (template_lists.all templates user form q)
      × All
          (Shows (λ t. rbac_terraform_job_template.read terraforms.db user t.template ≡ true))
          (terraform_lists.all terraforms user form q)
      × All
          (Shows (λ j. rbac_job_template.read_by_id jobs.db user j.job.job_template_id ≡ true))
          (job_api.all jobs user form q)
      × All
          (Shows (λ j.
            rbac_terraform_job_template.read_by_id terraform_jobs.db user j.job.job_template_id
            ≡ true))
          (terraform_job_api.all terraform_jobs user form q)
      × All
          (Shows (λ h. rbac_inventory.read_by_id hosts.db user h.inventory_id ≡ true))
          (host_api.all hosts user form q)
unfolding project_lists.all credential_lists.all inventory_api.all organization_lists.all
    team_lists.all user_lists.all template_lists.all terraform_lists.all job_api.all
    terraform_job_api.all credential_api.hide_encrypted user_api.hide_password host_api.all
all-IsReadable projects credentials inventories organizations teams users templates terraforms jobs
      terraform_jobs hosts user form q =
    (
      listed _ _ q _ _ (keep-All _ _),
      listed _ _ q _ _ (
          All-image (λ c. rbac_credential.read credentials.db user c.credential ≡ true)
            (λ c. rbac_credential.read credentials.db user c.credential ≡ true)
            credential_api.hide_encrypted _ (λ c h. h) (keep-All _ _)),
      listed _ _ q _ _ (keep-All _ _),
      listed _ _ q _ _ (keep-All _ _),
      listed _ _ q _ _ (keep-All _ _),
      listed _ _ q _ _ (
          All-image (λ u. rbac_user.read user u.user ≡ true)
            (λ u. rbac_user.read user u.user ≡ true) user_api.hide_password _ (λ u h. h)
            (keep-All _ _)),
      listed _ _ q _ _ (keep-All _ _),
      listed _ _ q _ _ (keep-All _ _),
      listed _ _ q _ _ (keep-All _ _),
      listed _ _ q _ _ (keep-All _ _),
      listed _ _ q _ _ (keep-All _ _),
    )
