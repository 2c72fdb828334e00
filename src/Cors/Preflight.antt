-- ===== src/Cors/Preflight.antt =====
-- Which requests the middleware accepts, and what it leaves of a response that it denies.
use tensor.Prelude.{
  ◌≡◌, refl, ◌≢◌, ◌⊎◌, ◌↔◌, Bool, true, false, List, [], ◌∷◌, ◌++◌, arith, Some, All, any_iff,
  Some-imp, ◌||◌, any, ◌==◌,
}
use tensor.Prelude.Text.{Text, text_eq, text_beq_iff, codes, split, to_lower, trim}
use tensor.Cors.{
  vary, origin_key, request_headers_key, Config, Context, set_header, add_header, match_origin,
  validate_request_method, validate_request_headers, headers_listed, blanks, handle_preflight,
  handle_request, handle, answer, abort, serve, running, aborted,
}

-- The text is in the list.
abbrev pub IsListed : Text → List Text → Type 0
IsListed t listed = Some (λ value. value ≡ t) listed

any-IsListed :
    (t : Text) (listed : List Text) → (any (λ value. value == t) listed ≡ true) ↔ IsListed t listed
any-IsListed t listed =
    let (to, from) = any_iff _ listed in
    (
      λ h. Some-imp _ _ (λ v e. (text_beq_iff v t).0 e) listed (to h),
      λ h. from (Some-imp _ _ (λ v e. (text_beq_iff v t).1 e) listed h),
    )

headers_listed_iff :
    (listed headers : List Text)
    → (headers_listed listed headers ≡ true)
      ↔ All (λ header. IsListed (to_lower (trim header blanks)) listed) headers
unfolding headers_listed
headers_listed_iff listed [] = (λ h. tt, λ h. refl)
headers_listed_iff listed (header ∷ headers) =
    ground (
      arith,
      any-IsListed (to_lower (trim header blanks)) listed,
      headers_listed_iff listed headers,
    )

-- Where the configuration asks for validation, a preflight is valid exactly if its method is not
-- empty and is a configured one, and every requested header, without the blanks around it and in
-- lower case, is listed. Otherwise every preflight is valid.
pub handle_preflight-valid_iff :
    (c : Context) (config : Config) (m : Text)
    → ((handle_preflight c config m).1 ≡ true) ↔ (
        (config.validate_headers ≡ false)
        ⊎ ((m ≢ [])
            × IsListed m config.methods
            × All
                (λ header. IsListed (to_lower (trim header blanks)) config.request_headers)
                (split (c.header request_headers_key) (codes ","))))
unfolding handle_preflight validate_request_method validate_request_headers
handle_preflight-valid_iff c config m = ground (
  arith,
  text_beq_iff m [],
  any-IsListed m config.methods,
  headers_listed_iff config.request_headers (split (c.header request_headers_key) (codes ",")),
)

-- A handled request is still running, and an invalid one has its response as it was.
handle-running : (c : Context) (config : Config) → (handle c config).1.0.progress ≡ c.progress
unfolding handle handle_preflight handle_request set_header
handle-running c config = ground arith

handle-invalid :
    (c : Context) (config : Config) → (handle c config).1.1 ≡ false → (handle c config).1.0 ≡ c
unfolding handle handle_preflight handle_request
handle-invalid c config h = ground arith

answer-not_aborted :
    (config : Config) (force : Bool) (origin : Text) (preflight : Bool) (c : Context)
    → c.progress ≡ running
    → (answer config force origin preflight c).progress ≢ aborted
unfolding answer set_header
answer-not_aborted config force origin preflight c h = ground arith

-- A running request is denied exactly if it names an origin and this origin is not allowed, or it
-- is an invalid preflight.
serve-denied_iff :
    (config : Config) (force : Bool) (c : Context)
    → c.progress ≡ running
    → ((serve config force c).progress ≡ aborted) ↔ (
        (c.header origin_key ≢ [])
        × (((force || match_origin (c.header origin_key) config) ≡ false)
            ⊎ ((handle (add_header vary (codes "Origin") c) config).1.1 ≡ false)))
unfolding serve add_header abort
serve-denied_iff config force c h =
    let c1 = add_header vary (codes "Origin") c in
    ground (
      arith,
      text_beq_iff (c.header origin_key) [],
      handle-running c1 config,
      answer-not_aborted config force (c.header origin_key) (handle c1 config).0
          (handle c1 config).1.0,
    )

-- A running request that is denied gets no header but `Vary`.
serve-denied_sent :
    (config : Config) (force : Bool) (c : Context)
    → c.progress ≡ running
    → (serve config force c).progress ≡ aborted
    → (serve config force c).sent ≡ c.sent ++ (vary, codes "Origin") ∷ []
unfolding serve add_header abort
serve-denied_sent config force c h denied =
    let c1 = add_header vary (codes "Origin") c in
    ground (
      arith,
      handle-running c1 config,
      handle-invalid c1 config,
      answer-not_aborted config force (c.header origin_key) (handle c1 config).0
          (handle c1 config).1.0,
    )

no_header_listed :
    (listed : List Text)
    → (IsListed [] listed → ⊥)
    → headers_listed listed (split [] (codes ",")) ≡ false
unfolding headers_listed split to_lower trim
no_header_listed listed unlisted = ground (arith, any-IsListed [] listed)

-- Where the configuration asks for validation and lists no empty header, a preflight that requests
-- no header is invalid.
no_requested_header :
    (c : Context) (config : Config) (m : Text)
    → config.validate_headers ≡ true
    → (IsListed [] config.request_headers → ⊥)
    → c.header request_headers_key ≡ []
    → (handle_preflight c config m).1 ≡ false
unfolding handle_preflight validate_request_headers
no_requested_header c config m validate unlisted empty =
    ground (arith, no_header_listed config.request_headers unlisted)
