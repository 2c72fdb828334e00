-- ===== src/Api/TerraformTemplate/Routes.antt =====
-- The middleware of api/terraformtemplate.go before its handlers: who launches a Terraform job
-- template, and who deletes one.
use tensor.Prelude.{
  ◌≡◌, ◌≢◌, refl, ◌⊎◌, inl, inr, Bool, true, false, ◌||◌, none, some, String, List, [], ◌∷◌, ◌==◌,
  string_eq,
}
use tensor.Models.{User, Organization, Team}
use tensor.Database.{IsDocumented}
use tensor.Database.Server.{terraform_jobs, terraform_job_templates}
use tensor.Rbac.TerraformJobTemplate as rbac_terraform_job_template
use tensor.Rbac.Decisions.{HasDirect}
use tensor.Rbac.Templates.{IsAdminOrExecute, terraform_job_template-write_iff}
use tensor.Api.{Write, remove_id, remove_where, note, Event, passed, effects, through}
use tensor.Api.Effects.{through-effects}
use tensor.Api.Routes.{guarded, writable}
use tensor.Api.TerraformTemplate.{TemplateData, Reads, middleware, delete}

-- The methods that the middleware takes for changes.
abbrev pub IsWriting : String → Type 0
IsWriting method = (method ≡ "PUT") ⊎ (method ≡ "POST")

writing_tests :
    (method : String)
    → IsWriting method
    → ((method == "GET") ≡ false) × ((method == "PUT" || method == "POST") ≡ true)
writing_tests method (inl e) = rw e (refl, refl)
writing_tests method (inr e) = rw e (refl, refl)

module _ (r : Reads) (user : User) (method id : String) (writing : IsWriting method) where
  template-passed :
      (t : TemplateData)
      → middleware r user method id ≡ passed t
      → (r.find id ≡ some t) × (rbac_terraform_job_template.write r.db user t.template ≡ true)
  unfolding middleware
  template-passed t h =
      let (get, change) = writing_tests method writing in
      let (d, found, valid, writes) =
        guarded (r.is_object_id id) (method == "GET") (method == "PUT" || method == "POST")
          (r.find id) _ _ _ _ _ _ t get change h in
      let (may, same) =
        writable (rbac_terraform_job_template.write r.db user d.template) _ _ d t writes in
      (rw (← same) found, rw (← same) may)

  -- On a database that answers as documented: a request that puts or posts to a Terraform job
  -- template, and writes anything, whatever its handler does, names a stored template, and comes
  -- from a super user or from a user with the direct role "admin" or "execute" on it.
  pub template_route-effects :
      {E A : Type 0} {organizations : List Organization} {teams : List Team}
      (handler : TemplateData → List (Event E A))
      → IsDocumented r.db organizations teams
      → effects (through (middleware r user method id) handler) ≢ []
      → (t : TemplateData) × (r.find id ≡ some t)
        × ((user.is_super_user ≡ true) ⊎ HasDirect IsAdminOrExecute user.id t.template.roles)
  template_route-effects handler documented h =
      let (t, e) = through-effects (middleware r user method id) handler h in
      let (found, may) = template-passed t e in
      (t, found, (terraform_job_template-write_iff documented user t.template).0 may)

-- Where all writes succeed, a request of any user that deletes a stored Terraform job template
-- removes its jobs and the template, and notes it: the middleware asks for no right.
pub delete_route-effects :
    (r : Reads) (works : Write TemplateData → Bool) (user : User) (id : String) (t : TemplateData)
    → r.is_object_id id ≡ true
    → r.find id ≡ some t
    → ((w : Write TemplateData) → works w ≡ true)
    → effects (through (middleware r user "DELETE" id) (delete works user))
      ≡ remove_where terraform_jobs "job_template_id" (t.template.id ∷ [])
        ∷ remove_id terraform_job_templates t.template.id
        ∷ note "delete" user.id t.template.id none
        ∷ []
unfolding middleware delete through effects
delete_route-effects r works user id t valid found all_work = rw valid (
    rw found (
      rw (all_work (remove_where terraform_jobs "job_template_id" (t.template.id ∷ []))) (
        rw (all_work (remove_id terraform_job_templates t.template.id))
          (rw (all_work (note "delete" user.id t.template.id none)) refl))))
