-- ===== src/Cors/Origin.antt =====
-- When the middleware names an origin in the response, and which.
use tensor.Prelude.{
  ◌≡◌, ◌≢◌, ◌⊎◌, ◌↔◌, Bool, true, false, none, some, [], arith, Some, any_iff, Some-imp,
  if◌then◌else◌,
}
use tensor.Prelude.Text.{Text, text_beq, text_beq_iff, codes, split}
use tensor.Cors.{
  Key, vary, allow_origin_key, allow_credentials_key, allow_headers_key, allow_methods_key,
  max_age_key, origin_key, expose_headers_key, request_method_key, Config, Options, Context,
  set_header, add_header, match_origin, handle_preflight, handle_request, handle, answer, abort,
  serve, middleware, prepare,
}
use tensor.Cors.Headers.{value, value-set_self, value-set_ne, value-append_ne}

match_origin_iff :
    (origin : Text) (config : Config)
    → (match_origin origin config ≡ true) ↔ Some (λ value. value ≡ origin) config.origins
unfolding match_origin
match_origin_iff origin config =
    let (to, from) = any_iff _ config.origins in
    (
      λ h. Some-imp _ _ (λ v e. (text_beq_iff v origin).0 e) config.origins (to h),
      λ h. from (Some-imp _ _ (λ v e. (text_beq_iff v origin).1 e) config.origins h),
    )

-- Setting another header keeps the origin header.
keeps_origin :
    (j : Key) (v : Text) (c : Context)
    → j ≢ allow_origin_key
    → value allow_origin_key (set_header j v c).sent ≡ value allow_origin_key c.sent
keeps_origin j v c ne = value-set_ne j allow_origin_key v c ne

-- Handling the request leaves the origin header alone.
pub preflight-origin :
    (c : Context) (config : Config) (m : Text)
    → value allow_origin_key (handle_preflight c config m).0.sent ≡ value allow_origin_key c.sent
unfolding handle_preflight
preflight-origin c config m =
    let c1 = set_header allow_methods_key config.methods_text c in
    let c2 = set_header allow_headers_key config.request_headers_text c1 in
    ground (
      arith,
      keeps_origin allow_methods_key config.methods_text c,
      keeps_origin allow_headers_key config.request_headers_text c1,
      keeps_origin max_age_key config.max_age c2,
    )

pub handle-origin :
    (c : Context) (config : Config)
    → value allow_origin_key (handle c config).1.0.sent ≡ value allow_origin_key c.sent
unfolding handle handle_request
handle-origin c config = ground (
  arith,
  preflight-origin c config (c.header request_method_key),
  keeps_origin expose_headers_key config.exposed_headers c,
)

abbrev pub named_origin : Bool → Bool → Text → Text
named_origin credentials force origin =
    if credentials then origin else if force then codes "*" else origin

pub answer-origin :
    (config : Config) (force : Bool) (origin : Text) (preflight : Bool) (c : Context)
    → value allow_origin_key (answer config force origin preflight c).sent
      ≡ some (named_origin config.credentials force origin)
unfolding answer
answer-origin config force origin preflight c = ground (
  arith,
  value-set_self allow_origin_key origin
      (set_header allow_credentials_key config.credentials_text c),
  value-set_self allow_origin_key (codes "*") c,
  value-set_self allow_origin_key origin c,
)

-- A response whose origin header was not set before and is set afterwards answers a request that
-- names an origin, which the configuration lists or covers by "*". The header then is that origin,
-- or "*" where "*" is configured and credentials are not allowed.
serve-origin :
    (config : Config) (force : Bool) (c : Context) (v : Text)
    → value allow_origin_key c.sent ≡ none
    → value allow_origin_key (serve config force c).sent ≡ some v
    → (c.header origin_key ≢ [])
      × ((force ≡ true) ⊎ (match_origin (c.header origin_key) config ≡ true))
      × (v ≡ named_origin config.credentials force (c.header origin_key))
unfolding serve add_header abort
serve-origin config force c v fresh set =
    let c1 = add_header vary (codes "Origin") c in
    ground (
      arith,
      text_beq_iff (c.header origin_key) [],
      value-append_ne vary allow_origin_key (codes "Origin") c.sent,
      handle-origin c1 config,
      answer-origin config force (c.header origin_key) (handle c1 config).0 (handle c1 config).1.0,
    )

-- The origin is covered by "*" or listed in the configured text.
abbrev pub IsAllowed : Options → Text → Type 0
IsAllowed options origin =
    (options.origins ≡ codes "*")
    ⊎ Some (λ value. value ≡ origin) (split options.origins (codes ", "))

-- A response that names an origin, and did not before the middleware, answers a request from an
-- origin that is not empty and is allowed by the configuration. The header then is that origin, or
-- "*" where "*" is configured and credentials are not allowed.
pub middleware-origin :
    (options : Options) (c c' : Context) (v : Text)
    → value allow_origin_key c.sent ≡ none
    → middleware options c ≡ some c'
    → value allow_origin_key c'.sent ≡ some v
    → (c.header origin_key ≢ [])
      × IsAllowed options (c.header origin_key)
      × ((v ≡ c.header origin_key)
          ⊎ ((v ≡ codes "*") × (options.origins ≡ codes "*") × (options.credentials ≡ false)))
unfolding middleware prepare
middleware-origin options c c' v fresh made set =
    let force = text_beq options.origins (codes "*") in
    let same : serve (prepare options) force c ≡ c' = ground arith in
    let found = serve-origin (prepare options) force c v fresh (rw same set) in
    ground (
      arith,
      text_beq_iff options.origins (codes "*"),
      match_origin_iff (c.header origin_key) (prepare options),
    )
