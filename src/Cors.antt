-- ===== src/Cors.antt =====
-- cors/cors.go: the middleware that sets the CORS headers of a response.
-- Texts are bytes, and those whose case the code folds are ASCII. The context's request and
-- response headers are looked up by key, and the keys of the constants are one data type.
pub mod Headers
pub mod Origin
pub mod Preflight
use tensor.Prelude.{
  ℕ, Bool, true, false, not, ◌&&◌, ◌||◌, Option, none, some, List, [], ◌∷◌, ◌++◌, map,
  if◌then◌else◌, ◌==◌, any,
}
use tensor.Prelude.Text.{Text, text_eq, codes, split, to_lower, trim}

pub data Key : Type 0 where
  vary allow_origin_key allow_credentials_key allow_headers_key allow_methods_key max_age_key
        origin_key request_method_key request_headers_key expose_headers_key :
      Key

unfoldable pub Key-discrete : Discrete Key
Key-discrete = hlevel

abbrev pub options_method : Text
options_method = codes "OPTIONS"

-- `Config` after `prepare`: the public fields that are read later, and the private ones. The
-- texts of `max_age` and `credentials` are what `fmt.Sprintf` prints.
pub record Config : Type 0 where
  pub validate_headers : Bool
  pub origins_text : Text
  pub origins : List Text
  pub request_headers_text : Text
  pub request_headers : List Text
  pub exposed_headers : Text
  pub methods_text : Text
  pub methods : List Text
  pub max_age : Text
  pub credentials : Bool
  pub credentials_text : Text

-- The public configuration. `max_age` is the number of whole seconds, printed.
pub record Options : Type 0 where
  pub validate_headers : Bool
  pub origins : Text
  pub request_headers : Text
  pub exposed_headers : Text
  pub methods : Text
  pub max_age : Text
  pub credentials : Bool

unfoldable pub prepare : Options → Config
prepare options = record {
  validate_headers = options.validate_headers;
  origins_text = options.origins;
  origins = split options.origins (codes ", ");
  request_headers_text = options.request_headers;
  request_headers = map to_lower (split options.request_headers (codes ", "));
  exposed_headers = options.exposed_headers;
  methods_text = options.methods;
  methods = split options.methods (codes ", ");
  max_age = options.max_age;
  credentials = options.credentials;
  credentials_text = if options.credentials then codes "true" else codes "false";
}

pub data Progress : Type 0 where
  running aborted : Progress
  aborted_with : ℕ → Progress

-- The context: the request is `method` and `header`, the response is `sent` and `progress`.
pub record Context : Type 0 where
  pub method : Text
  pub header : Key → Text
  pub sent : List (Key × Text)
  pub progress : Progress

-- `Header().Set` replaces the values of the key, `Header().Add` appends one.
unfoldable pub remove : Key → List (Key × Text) → List (Key × Text)
remove k [] = []
remove k ((j, v) ∷ sent) =
    let rest = remove k sent in elim (Key-discrete j k) [ yes _ ↦ rest | no _ ↦ (j, v) ∷ rest ]

unfoldable pub set_header : Key → Text → Context → Context
set_header k v c = record c { sent = (k, v) ∷ remove k c.sent }

unfoldable pub add_header : Key → Text → Context → Context
add_header k v c = record c { sent = c.sent ++ (k, v) ∷ [] }

unfoldable pub match_origin : Text → Config → Bool
match_origin origin config = any (λ value. value == origin) config.origins

unfoldable pub validate_request_method : Text → Config → Bool
validate_request_method request_method config =
    if not config.validate_headers
    then true
    else if not (request_method == [])
    then any (λ value. value == request_method) config.methods
    else false

-- The bytes " \t\r\n".
abbrev pub blanks : Text
blanks = 32 ∷ 9 ∷ 13 ∷ 10 ∷ []

-- The loop over the requested headers: it stops at the first that is not listed.
unfoldable pub headers_listed : List Text → List Text → Bool
headers_listed listed [] = true
headers_listed listed (header ∷ headers) =
    let rest = headers_listed listed headers in
    if any (λ value. value == to_lower (trim header blanks)) listed then rest else false

unfoldable pub validate_request_headers : Text → Config → Bool
validate_request_headers request_headers config =
    if not config.validate_headers
    then true
    else headers_listed config.request_headers (split request_headers (codes ","))

unfoldable pub handle_preflight : Context → Config → Text → Context × Bool
handle_preflight c config request_method =
    if not (validate_request_method request_method config)
    then (c, false)
    else if validate_request_headers (c.header request_headers_key) config
    then (let c' =
          set_header allow_headers_key config.request_headers_text
            (set_header allow_methods_key config.methods_text c) in
        (
          if not (config.max_age == codes "0")
              then set_header max_age_key config.max_age c'
              else c',
          true,
        ))
    else (c, false)

unfoldable pub handle_request : Context → Config → Context × Bool
handle_request c config = (
  if not (config.exposed_headers == [])
      then set_header expose_headers_key config.exposed_headers c
      else c,
  true,
)

-- Whether the request is a preflight, with the request and its validity handled.
unfoldable pub handle : Context → Config → Bool × (Context × Bool)
handle c config =
    if c.method == options_method && not (c.header request_method_key == [])
    then (true, handle_preflight c config (c.header request_method_key))
    else (false, handle_request c config)

-- The headers of a valid request, and the end of a preflight.
unfoldable pub answer : Config → Bool → Text → Bool → Context → Context
answer config force_origin_match current_origin preflight c =
    let c' =
      if config.credentials
      then set_header allow_origin_key current_origin
          (set_header allow_credentials_key config.credentials_text c)
      else if force_origin_match
      then set_header allow_origin_key (codes "*") c
      else set_header allow_origin_key current_origin c in
    if preflight then record c' { progress = aborted_with 200 } else c'

unfoldable pub abort : Context → Context
abort c = record c { progress = aborted }

-- The handler function that `Middleware` returns.
unfoldable pub serve : Config → Bool → Context → Context
serve config force_origin_match context =
    let c = add_header vary (codes "Origin") context in
    let current_origin = c.header origin_key in
    if current_origin == []
    then c
    else if force_origin_match || match_origin current_origin config
    then (let (preflight, (c', valid)) = handle c config in
        if valid then answer config force_origin_match current_origin preflight c' else abort c')
    else abort c

-- `Middleware`; `none` is the panic on an empty list of origins.
unfoldable pub middleware : Options → Context → Option Context
middleware options context =
    if options.origins == []
    then none
    else some (serve (prepare options) (options.origins == codes "*") context)
