-- ===== src/Api.antt =====
-- api/util.go, and what the handlers of the package api share. A handler is a function to the events
-- that it causes, in order: the writes that it sends to the database, each with its success, and the
-- responses. What it reads is an argument. Metadata of responses (links and summaries) and logging
-- are left out.
pub mod AccessList
pub mod Credential
pub mod Effects
pub mod Host
pub mod Inventory
pub mod Job
pub mod Listing
pub mod Organization
pub mod Orphans
pub mod Paging
pub mod Project
pub mod Removal
pub mod Roles
pub mod Routes
pub mod Team
pub mod Template
pub mod TerraformJob
pub mod TerraformTemplate
pub mod User
use tensor.Prelude.{
  ℕ, ◌-◌, Bool, true, false, ◌&&◌, Option, none, some, String, List, [], ◌∷◌, ◌++◌, leb, length,
  take, drop, if◌then◌else◌,
}
use tensor.Prelude.Int.{ℤ, pos, negsuc}
use tensor.Prelude.Text.{Text}
use tensor.Models.{AccessControl}
use tensor.Database.Server.{Collection, Change}
use tensor.Pagination.{Pagination, new_pagination, has_page, next_page, previous_page, skip, end}

-- `common.Response`.
pub record Page (A : Type 0) : Type 0 where
  pub count : ℕ
  pub next : Option ℤ
  pub previous : Option ℤ
  pub items : List A

-- The body of a response: `common.Error` with its message, with the errors of the validation too, or
-- with a list of errors alone; the two ways to say that a page does not exist; an object; a page.
pub data Body (A : Type 0) : Type 0 where
  message : String → Body A
  invalid : String → List String → Body A
  errors : List String → Body A
  no_page bad_page : ℤ → Body A
  item : A → Body A
  listing : Page A → Body A
  empty : Body A

-- A write to the database, `D` being the documents of the handler's own collection. `remove_where c
-- f ids` removes the documents of `c` whose field `f` is one of `ids`; `pull_from` is an update of all
-- documents. `note` is an entry of the activity stream, `sync` a job that updates a project,
-- `publish` a message to the job queue.
pub data Write (D : Type 0) : Type 0 where
  insert : D → Write D
  update_id : String → D → Write D
  remove_id : Collection → String → Write D
  remove_where : Collection → String → List String → Write D
  change_roles : Collection → String → Change → Write D
  pull_from : Collection → AccessControl → Write D
  note : (operation actor object1 : String) → Option String → Write D
  sync publish : D → Write D

-- `sent` is a response with its status, `panicked` a panic.
pub data Event (D A : Type 0) : Type 0 where
  did : Write D → Bool → Event D A
  sent : ℕ → Body A → Event D A
  panicked : Event D A

-- AbortWithError and the return that follows it.
abbrev pub abort_with_error : {D A : Type 0} → ℕ → String → List (Event D A)
abort_with_error status text = sent status (message text) ∷ []

-- AbortWithErrors and the return that follows it.
abbrev pub abort_with_errors : {D A : Type 0} → ℕ → String → List String → List (Event D A)
abort_with_errors status text emsgs = sent status (invalid text emsgs) ∷ []

-- A write whose error ends the handler with a response.
abbrev pub try :
    {D A : Type 0}
    → (Write D → Bool)
    → Write D
    → List (Event D A)
    → List (Event D A)
    → List (Event D A)
try works w failure rest = did w (works w) ∷ (if works w then rest else failure)

-- A write whose error is not looked at.
abbrev pub fire : {D A : Type 0} → (Write D → Bool) → Write D → List (Event D A) → List (Event D A)
fire works w rest = did w (works w) ∷ rest

-- The slice `items[from:to]`, `none` for a panic.
unfoldable pub slice : {A : Type 0} → ℤ → ℤ → List A → Option (List A)
slice (pos i) (pos j) items =
    if leb i j && leb j (length items) then some (take (j - i) (drop i items)) else none
slice _ _ items = none

-- The query parameters for the page.
pub record PageQuery : Type 0 where
  pub page : Text
  pub page_size : Text

-- The response with the slice, or the panic.
unfoldable pub send_slice : {D A : Type 0} → Pagination → ℕ → Option (List A) → List (Event D A)
send_slice p count none = panicked ∷ []
send_slice p count (some found) =
    sent 200 (
      listing
        (record { count = count; next = next_page p; previous = previous_page p; items = found }))
    ∷ []

-- The end of a handler that lists: the page that is asked for, or an answer that it does not exist.
unfoldable pub send_page : {D A : Type 0} → (ℤ → Body A) → PageQuery → List A → List (Event D A)
unfolding send_slice
send_page missing q items =
    let p = new_pagination q.page q.page_size (length items) in
    if has_page p
    then sent 404 (missing p.page) ∷ []
    else send_slice p (length items) (slice (skip p) (end p) items)

-- What an iterator gives: the documents, and whether it closes without an error.
pub record Cursor (D : Type 0) : Type 0 where
  pub found : List D
  pub closes : Bool

-- The loop over an iterator that skips what the user may not read.
unfoldable pub keep : {D : Type 0} → (D → Bool) → List D → List D
keep readable [] = []
keep readable (d ∷ found) = let rest = keep readable found in if readable d then d ∷ rest else rest

-- The writes that were sent and succeeded.
unfoldable pub effects : {D A : Type 0} → List (Event D A) → List (Write D)
effects [] = []
effects (did w true ∷ events) = w ∷ effects events
effects (did w false ∷ events) = effects events
effects (sent status body ∷ events) = effects events
effects (panicked ∷ events) = effects events

-- The statuses of the responses.
unfoldable pub statuses : {D A : Type 0} → List (Event D A) → List ℕ
statuses [] = []
statuses (did w b ∷ events) = statuses events
statuses (sent status body ∷ events) = status ∷ statuses events
statuses (panicked ∷ events) = statuses events

-- What a middleware does: pass an object on to the handler, or refuse the request.
pub data Passage (D : Type 0) : Type 0 where
  passed : D → Passage D
  refused : ℕ → String → Passage D

-- A route with a middleware before its handler.
unfoldable pub through : {D E A : Type 0} → Passage D → (D → List (Event E A)) → List (Event E A)
through (passed d) handler = handler d
through (refused status text) handler = abort_with_error status text

-- The request's JSON body: the value, or the errors of the validation.
pub data Bound (A : Type 0) : Type 0 where
  bound : A → Bound A
  unbound : List String → Bound A

abbrev pub invalid_body : {D A : Type 0} → List String → List (Event D A)
invalid_body emsgs = abort_with_errors 400 "Invalid JSON body" emsgs

abbrev pub no_permission : String
no_permission = "You don't have sufficient permissions to perform this action."

-- A role that can be given on an object.
pub record ObjectRole : Type 0 where
  pub resource_id : String
  pub resource_name : String
  pub resource_type : String
  pub name : String
  pub description : String
