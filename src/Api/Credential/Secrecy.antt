-- ===== src/Api/Credential/Secrecy.antt =====
-- That the requests on credentials do not answer with a secret, and that a secret which they hid may
-- be sent back.
use tensor.Prelude.{◌≡◌, refl, List, All, string_eq}
use tensor.Models.{User}
use tensor.Rbac.Credential as rbac_credential
use tensor.Api.{Event}
use tensor.Api.Paging.{Shows}
use tensor.Api.Credential.{CredentialData, Reads, hide_encrypted}
use tensor.Api.Credential.Update.{changed, reseal, changed_secrets}

-- A credential whose secrets are all hidden.
abbrev pub IsHidden : CredentialData → Type 0
IsHidden c = hide_encrypted c ≡ c

abbrev Answers : List (Event CredentialData CredentialData) → Type 0
Answers events = All (Shows IsHidden) events

module _ (r : Reads) (user : User) where
  -- A change of a credential whose request has the placeholder in all encrypted fields, as answers
  -- have it, leaves the stored secrets as they are, whatever else it changes.
  pub changed-hide_encrypted :
      (c req : CredentialData) → (changed r user c (hide_encrypted req)).secrets ≡ c.secrets
  unfolding changed changed_secrets reseal hide_encrypted
  changed-hide_encrypted c req = refl
