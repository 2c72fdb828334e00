-- ===== src/Api/AccessList/Kinds.antt =====
-- api/acl.go: AccessList of each kind of object. `find_x` reads a document, `none` on an error.
use tensor.Prelude.{Option, none, some, String, List, [], ◌∷◌, if◌then◌else◌, ◌==◌, string_eq}
use Prim.Native.String.{◌++◌}
use tensor.Models.{
  User, Organization, Team, Project, Credential, Inventory, JobTemplate, TerraformJobTemplate,
}
use tensor.Api.{PageQuery, sent, errors}
use tensor.Api.AccessList.{Access, Answer, access_list}

-- The switch on the roles of an organization: the roles that each brings, and its description.
unfoldable pub of_organization :
    (admin member auditor : List String) (admin_text member_text auditor_text : String)
    → Organization
    → String
    → Option Access
of_organization admin member auditor admin_text member_text auditor_text o role =
    let access = λ (roles : List String) (text : String).
      let a : Access = record {
        descendant_roles = roles;
        resource_name = o.name;
        description = text;
        related = ("organization", "/v1/organizations/" ++ o.id ++ "/");
        resource_type = "organization";
        name = role;
      } in
      a in
    if role == "admin"
    then some (access admin admin_text)
    else if role == "member"
    then some (access member member_text)
    else if role == "auditor"
    then some (access auditor auditor_text)
    else none

-- One role of an object.
unfoldable pub of_object :
    List String → (resource_name description kind url id resource_type name : String) → Access
of_object roles resource_name description kind url id resource_type name = record {
  descendant_roles = roles;
  resource_name = resource_name;
  description = description;
  related = (kind, url ++ id ++ "/");
  resource_type = resource_type;
  name = name;
}

abbrev pub manages : String
manages = "Can manage all aspects of the organization"

abbrev pub views : String
views = "Can view all aspects of the organization"

unfoldable pub of_credential : Credential → String → Option Access
unfolding of_object
of_credential x role =
    if role == "admin"
    then some (
        of_object ("admin" ∷ "use" ∷ "read" ∷ []) x.name "Can manage all aspects of the credential"
          "inventory" "/v1/credentials/" x.id "credential" "admin")
    else if role == "use"
    then some (
        of_object ("use" ∷ "read" ∷ []) x.name "Can use the credential in a job template"
          "inventory" "/v1/credentials/" x.id "credential" "use")
    else none

-- A credential without an organization has none that can be found.
unfoldable pub credential_access_list :
    (String → Option Organization) → (String → Option User) → PageQuery → Credential → Answer
unfolding of_organization of_credential
credential_access_list find_organization find_user q x =
    let organization : Option Organization = elim x.organization_id [
      | none ↦ none
      | some id ↦ find_organization id
    ] in
    access_list find_user q organization
      (of_organization ("admin" ∷ "use" ∷ "read" ∷ []) ("read" ∷ "use" ∷ []) ("read" ∷ []) manages
        "User is a member of the Organization" views)
      (of_credential x) x.roles

unfoldable pub of_project : Project → String → Option Access
unfolding of_object
of_project x role =
    if role == "admin"
    then some (
        of_object ("admin" ∷ "execute" ∷ "read" ∷ []) x.name "May run the job template"
          "job_template" "/v1/job_templates/" x.id "job_template" "admin")
    else if role == "execute"
    then some (
        of_object ("execute" ∷ "read" ∷ []) x.name "Can manage all aspects of the job template"
          "job_template" "/v1/job_templates/" x.id "job_template" "execute")
    else none

unfoldable pub project_access_list :
    (String → Option Organization) → (String → Option User) → PageQuery → Project → Answer
unfolding of_organization of_project
project_access_list find_organization find_user q x =
    access_list find_user q (find_organization x.organization_id)
      (of_organization ("admin" ∷ "execute" ∷ "read" ∷ []) ("execute" ∷ "read" ∷ []) ("read" ∷ [])
        manages manages manages)
      (of_project x) x.roles

unfoldable pub of_team : Team → String → Option Access
unfolding of_object
of_team x role =
    if role == "admin"
    then some (
        of_object ("admin" ∷ "member" ∷ []) x.name "Can manage all aspects of the team" "team"
          "/v1/teams/" x.id "team" "admin")
    else if role == "member"
    then some (
        of_object ("member" ∷ "read" ∷ []) x.name "User is a member of the team" "team"
          "/api/v1/teams/" x.id "team" "member")
    else none

unfoldable pub team_access_list :
    (String → Option Organization) → (String → Option User) → PageQuery → Team → Answer
unfolding of_organization of_team
team_access_list find_organization find_user q x =
    access_list find_user q (find_organization x.organization_id)
      (of_organization ("admin" ∷ "execute" ∷ "read" ∷ []) ("execute" ∷ "read" ∷ []) ("read" ∷ [])
        manages manages manages)
      (of_team x) x.roles

unfoldable pub of_inventory : Inventory → String → Option Access
unfolding of_object
of_inventory x role =
    if role == "admin"
    then some (
        of_object ("adhoc" ∷ "use" ∷ "read" ∷ "admin" ∷ "update" ∷ []) x.name
          "Can manage all aspects of the Inventory" "inventory" "/v1/inventories/" x.id "inventory"
          "admin")
    else if role == "update"
    then some (
        of_object ("read" ∷ "update" ∷ []) x.name "Can update the Inventory" "inventory"
          "/v1/inventories/" x.id "inventory" "update")
    else if role == "use"
    then some (
        of_object ("use" ∷ "read" ∷ []) x.name "Can use the inventory in a job template" "inventory"
          "/v1/inventories/" x.id "inventory" "use")
    else none

unfoldable pub inventory_access_list :
    (String → Option Organization) → (String → Option User) → PageQuery → Inventory → Answer
unfolding of_organization of_inventory
inventory_access_list find_organization find_user q x =
    access_list find_user q (find_organization x.organization_id)
      (of_organization ("adhoc" ∷ "use" ∷ "read" ∷ "admin" ∷ "update" ∷ []) ("read" ∷ [])
        ("read" ∷ []) manages views views)
      (of_inventory x) x.roles

unfoldable pub of_job_template : JobTemplate → String → Option Access
unfolding of_object
of_job_template x role =
    if role == "admin"
    then some (
        of_object ("admin" ∷ "execute" ∷ "read" ∷ []) x.name "May run the job template"
          "job_template" "/v1/job_templates/" x.id "job_template" "admin")
    else if role == "execute"
    then some (
        of_object ("execute" ∷ "read" ∷ []) x.name "Can manage all aspects of the job template"
          "job_template" "/api/v1/job_templates/" x.id "job_template" "execute")
    else none

-- `find_by_project_id` is the query for a project with the field "project_id".
unfoldable pub job_template_access_list :
    (find_by_project_id : String → Option Project)
    → (String → Option Organization)
    → (String → Option User)
    → PageQuery
    → JobTemplate
    → Answer
unfolding of_organization of_job_template
job_template_access_list find_by_project_id find_organization find_user q x =
    let in_project = λ (organization : Option Organization).
      access_list find_user q organization
        (of_organization ("admin" ∷ "execute" ∷ "read" ∷ []) ("execute" ∷ "read" ∷ []) ("read" ∷ [])
          manages manages manages)
        (of_job_template x) x.roles in
    let failed : Answer = sent 500 (errors ("Error while getting AccessList" ∷ [])) ∷ [] in
    elim (find_by_project_id x.project_id) [
      | none ↦ failed
      | some project ↦ elim (find_organization project.organization_id) [
        | none ↦ failed
        | some o ↦ in_project (some o)
      ]
    ]

unfoldable pub of_terraform_job_template : TerraformJobTemplate → String → Option Access
unfolding of_object
of_terraform_job_template x role =
    if role == "admin"
    then some (
        of_object ("admin" ∷ "execute" ∷ "read" ∷ []) x.name "May run the job template"
          "job_template" "/v1/job_templates/" x.id "job_template" "admin")
    else if role == "execute"
    then some (
        of_object ("execute" ∷ "read" ∷ []) x.name "Can manage all aspects of the job template"
          "job_template" "/api/v1/job_templates/" x.id "job_template" "execute")
    else none

-- `find_by_project_id` is the query for a project with the field "project_id".
unfoldable pub terraform_job_template_access_list :
    (find_by_project_id : String → Option Project)
    → (String → Option Organization)
    → (String → Option User)
    → PageQuery
    → TerraformJobTemplate
    → Answer
unfolding of_organization of_terraform_job_template
terraform_job_template_access_list find_by_project_id find_organization find_user q x =
    let in_project = λ (organization : Option Organization).
      access_list find_user q organization
        (of_organization ("admin" ∷ "execute" ∷ "read" ∷ []) ("execute" ∷ "read" ∷ []) ("read" ∷ [])
          manages manages manages)
        (of_terraform_job_template x) x.roles in
    let failed : Answer = sent 500 (errors ("Error while getting AccessList" ∷ [])) ∷ [] in
    elim (find_by_project_id x.project_id) [
      | none ↦ failed
      | some project ↦ elim (find_organization project.organization_id) [
        | none ↦ failed
        | some o ↦ in_project (some o)
      ]
    ]
