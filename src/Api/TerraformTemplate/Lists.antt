-- ===== src/Api/TerraformTemplate/Lists.antt =====
-- api/terraformtemplate.go: the requests that list Terraform job templates, or what belongs to one.
use tensor.Prelude.{not, String, List, [], ◌∷◌, if◌then◌else◌}
use tensor.Prelude.Text.{codes}
use tensor.Models.{User}
use tensor.QueryParser.{Query, Form, lookups, order_by}
use tensor.Rbac.TerraformJobTemplate as rbac_terraform_job_template
use tensor.Api.{Event, abort_with_error, no_page, PageQuery, send_page, Cursor, keep, ObjectRole}
use tensor.Api.TerraformTemplate.{TemplateData, Reads}

unfoldable pub asked : Form → Query
asked form = lookups form (codes "name" ∷ codes "description" ∷ codes "labels" ∷ []) []

unfoldable pub all : Reads → User → Form → PageQuery → List (Event TemplateData TemplateData)
unfolding asked
all r user form q =
    let cursor = r.select (asked form) (order_by form) in
    if not cursor.closes
    then abort_with_error 504 "Error while getting job template"
    else send_page no_page q
        (keep (λ t. rbac_terraform_job_template.read r.db user t.template) cursor.found)

-- A list of what a query for the template finds.
unfoldable pub send_found :
    {A : Type 0} → String → PageQuery → Cursor A → List (Event TemplateData A)
send_found failure q cursor =
    if not cursor.closes then abort_with_error 504 failure else send_page no_page q cursor.found

unfoldable pub activity_stream :
    {A : Type 0} → (String → Cursor A) → PageQuery → TemplateData → List (Event TemplateData A)
unfolding send_found
activity_stream activities q t =
    send_found "Error while getting activities" q (activities t.template.id)

-- `find` is the query for the field "job_template_id".
unfoldable pub template_jobs :
    {A : Type 0} → (String → Cursor A) → PageQuery → TemplateData → List (Event TemplateData A)
unfolding send_found
template_jobs find q t = send_found "Error while getting jobs" q (find t.template.id)

unfoldable pub object_roles : PageQuery → TemplateData → List (Event TemplateData ObjectRole)
object_roles q t =
    let role = λ (name description : String).
      let r : ObjectRole = record {
        resource_id = t.template.id;
        resource_name = t.template.name;
        resource_type = "terraform_job_template";
        name = name;
        description = description;
      } in
      r in
    send_page no_page q (
      role "admin" "Can manage all aspects of the job template"
      ∷ role "read" "May view settings for the job template"
      ∷ role "execute" "May run the job template"
      ∷ [])
