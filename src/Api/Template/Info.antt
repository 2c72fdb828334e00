-- ===== src/Api/Template/Info.antt =====
-- api/template.go, LaunchInfo: what a launch of a template needs.
use tensor.Prelude.{Bool, true, false, Option, none, some, String, List, [], ◌∷◌, string_eq, nat_eq}
use tensor.Models.{Credential}
use tensor.Api.{Event, sent, item}
use tensor.Api.Template.{TemplateData}
use tensor.Api.Template.Launch.{Launched, Reads}

-- What LaunchInfo tells, but for the fields that are empty or repeat the template.
pub record LaunchInfo : Type 0 where
  pub asks_variables : Bool
  pub asks_tags : Bool
  pub asks_job_type : Bool
  pub asks_limit : Bool
  pub asks_inventory : Bool
  pub asks_credential : Bool
  pub credential : Option (String × String)
  pub needs_credential : Bool
  pub inventory : Option (String × String)
  pub needs_inventory : Bool

-- Whether a limit is asked for is read from the prompt for the inventory.
unfoldable pub launch_info : Reads → TemplateData → List (Event Launched LaunchInfo)
launch_info r t =
    let credential : Option Credential = elim t.template.machine_credential_id [
      | none ↦ none
      | some id ↦ r.find_credential id
    ] in
    let inventory = r.find_inventory t.template.inventory_id in
    sent 200 (
      item (record {
        asks_variables = t.prompts.variables;
        asks_tags = t.prompts.tags;
        asks_job_type = t.prompts.job_type;
        asks_limit = t.prompts.inventory;
        asks_inventory = t.prompts.inventory;
        asks_credential = t.prompts.credential;
        credential = elim credential [ none ↦ none | some c ↦ some (c.id, c.name) ];
        needs_credential = elim credential [ none ↦ true | some c ↦ false ];
        inventory = elim inventory [ none ↦ none | some v ↦ some (v.id, v.name) ];
        needs_inventory = elim inventory [ none ↦ true | some v ↦ false ];
      }))
    ∷ []
