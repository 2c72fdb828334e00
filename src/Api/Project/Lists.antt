-- ===== src/Api/Project/Lists.antt =====
-- api/project.go: the requests that list projects, or what belongs to one.
use tensor.Prelude.{
  Bool, false, not, ◌&&◌, ◌||◌, Option, none, some, String, List, [], ◌∷◌, ◌++◌, if◌then◌else◌,
  ◌==◌, string_eq, length, drop,
}
use tensor.Prelude.Text.{Text, codes, has_prefix, text_eq}
use tensor.Models.{AccessControl, User, Team}
use tensor.QueryParser.{Query, Form, match, literal, lookups, put, order_by}
use tensor.Rbac.Project as rbac_project
use tensor.Api.{
  Event, sent, abort_with_error, item, no_page, PageQuery, send_page, Cursor, keep, ObjectRole,
}
use tensor.Api.Project.{ProjectData, Reads}

-- The filter that the request asks for.
unfoldable pub asked_projects : Form → Query
asked_projects form =
    lookups form (codes "name" ∷ []) (match form (codes "type" ∷ codes "status" ∷ []) [])

unfoldable pub all : Reads → User → Form → PageQuery → List (Event ProjectData ProjectData)
unfolding asked_projects
all r user form q =
    let cursor = r.select (asked_projects form) (order_by form) in
    if not cursor.closes
    then abort_with_error 504 "Error while getting project"
    else send_page no_page q (keep (λ p. rbac_project.read r.db user p.project) cursor.found)

-- A file below the directory of a project, with the end of its path.
pub record FileEntry : Type 0 where
  pub path : Text
  pub name : Text
  pub is_dir : Bool

-- The regular expression ".yml|.yaml|.json", which finds the three words after any character but a
-- line feed.
unfoldable pub names_playbook : Text → Bool
names_playbook [] = false
names_playbook (c ∷ s) =
    (not (c ∷ [] == codes "\n")
      && (has_prefix s (codes "yml") || has_prefix s (codes "yaml") || has_prefix s (codes "json")))
    || names_playbook s

-- `strings.TrimPrefix(path, root + "/")`
unfoldable pub below : Text → Text → Text
below root path =
    if has_prefix path (root ++ codes "/") then drop (length (root ++ codes "/")) path else path

unfoldable pub playbook_paths : Text → List FileEntry → List Text
unfolding names_playbook below
playbook_paths root [] = []
playbook_paths root (f ∷ files) =
    let rest = playbook_paths root files in
    if not f.is_dir && names_playbook f.name then below root f.path ∷ rest else rest

-- `walked` are the files in the order of `filepath.Walk`; `exists` is whether the directory does.
unfoldable pub playbooks :
    ProjectData → Text → Bool → List FileEntry → List (Event ProjectData (List Text))
unfolding playbook_paths
playbooks p root exists walked =
    if p.kind == "terraform"
    then abort_with_error 400 "Invalid project kind."
    else if not exists
    then abort_with_error 204 "Project directory does not exist"
    else sent 200 (item (playbook_paths root walked)) ∷ []

-- The teams of the role list; `none` where one cannot be read.
unfoldable pub teams_of : (String → Option Team) → List AccessControl → Option (List Team)
teams_of find_team [] = some []
teams_of find_team (v ∷ roles) =
    let rest = teams_of find_team roles in
    let with_team : Option (List Team) = elim (find_team v.grantee_id) [
      | none ↦ none
      | some team ↦ elim rest [ none ↦ none | some teams ↦ some (team ∷ teams) ]
    ] in
    if v.type == "team" then with_team else rest

unfoldable pub owner_teams : Reads → PageQuery → ProjectData → List (Event ProjectData Team)
unfolding teams_of
owner_teams r q p = elim (teams_of r.find_team p.project.roles) [
  | none ↦ abort_with_error 504 "Error while getting teams"
  | some teams ↦ send_page no_page q teams
]

-- `activities` is what the activity stream has on the project.
unfoldable pub activity_stream :
    {A : Type 0} → (String → Cursor A) → PageQuery → ProjectData → List (Event ProjectData A)
activity_stream activities q p =
    let cursor = activities p.project.id in
    if not cursor.closes
    then abort_with_error 504 "Error while getting activities"
    else send_page no_page q cursor.found

-- The jobs of all projects: no condition names the project.
unfoldable pub asked_updates : Form → Query
asked_updates form = put (codes "job_type") (literal (codes "update_job")) (
    lookups form (codes "id" ∷ codes "name" ∷ codes "labels" ∷ [])
      (match form (codes "status" ∷ codes "type" ∷ codes "failed" ∷ []) []))

unfoldable pub project_updates :
    {A : Type 0} → (Query → Text → Cursor A) → Form → PageQuery → List (Event ProjectData A)
unfolding asked_updates
project_updates select_jobs form q =
    let cursor = select_jobs (asked_updates form) (order_by form) in
    if not cursor.closes
    then abort_with_error 500 "Error while getting credential"
    else send_page no_page q cursor.found

unfoldable pub object_roles : PageQuery → ProjectData → List (Event ProjectData ObjectRole)
object_roles q p =
    let role = λ (name description : String).
      let r : ObjectRole = record {
        resource_id = p.project.id;
        resource_name = p.project.name;
        resource_type = "project";
        name = name;
        description = description;
      } in
      r in
    send_page no_page q (
      role "admin" "Can manage all aspects of the project"
      ∷ role "use" "Can use the project in a job template"
      ∷ role "update"
          "May update project or inventory or group using the configured source update system"
      ∷ [])
