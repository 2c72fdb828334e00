-- ===== src/Api/Credential/Created.antt =====
-- When the creation of a credential panics.
use tensor.Prelude.{◌≡◌, List, Some}
use tensor.Api.{Event, panicked}
use tensor.Api.Credential.{CredentialData}

abbrev pub Panics : List (Event CredentialData CredentialData) → Type 0
Panics events = Some (λ e. e ≡ panicked) events
