-- ===== src/Examples/Requests.antt =====
-- The middleware, the query parser and the random strings.
use tensor.Prelude.{
  ◌≡◌, refl, ◌↔◌, ◌⊎◌, ◌≢◌, true, false, none, some, List, [], ◌∷◌, arith, All, length, count_if,
  if◌then◌else◌, ◌==◌,
}
use tensor.Prelude.Text.{Text, text_eq, codes, split, to_lower, trim}
use tensor.Cors.{
  Key, Key-discrete, origin_key, request_headers_key, allow_origin_key, allow_methods_key, Options,
  prepare, running, aborted, aborted_with, Context, remove, set_header, add_header, match_origin,
  validate_request_method, headers_listed, blanks, validate_request_headers, handle_preflight,
  handle_request, handle, answer, abort, serve, middleware,
}
use tensor.Cors.Headers.{value}
use tensor.Cors.Origin.{IsAllowed, middleware-origin}
use tensor.Cors.Preflight.{IsListed, handle_preflight-valid_iff}
use tensor.QueryParser
use tensor.QueryParser.{
  Criterion, greater, greater_or_equal, less, one_of, regex, literal, Form, get, lookups,
}
use tensor.QueryParser.Laws.{asked, lookups-asked}
use tensor.Uniuri.{
  done, bad_charset, need_more, maxrb, char_at, use_bytes, use_blocks, unique_new_len_chars,
}
use tensor.Uniuri.Laws.{IsOver, usable, unique_new_len_chars-done}

cors : Unit {0}
unfolding middleware serve handle handle_preflight handle_request answer abort set_header add_header
    remove match_origin validate_request_method validate_request_headers headers_listed prepare
    split to_lower trim value Key-discrete
cors = tt

abbrev options : Options
options = record {
  validate_headers = true;
  origins = codes "http://a, http://b";
  request_headers = codes "Origin, X-Token";
  exposed_headers = [];
  methods = codes "GET, PUT";
  max_age = codes "60";
  credentials = true;
}

abbrev ask : Text → Text → Text → Text → Context
ask method origin request_method request_headers = record {
  method = method;
  header = elim [
    | Key.origin_key ↦ origin
    | Key.request_method_key ↦ request_method
    | Key.request_headers_key ↦ request_headers
    | _ ↦ []
  ];
  sent = [];
  progress = running;
}

abbrev good : Context
good = ask (codes "OPTIONS") (codes "http://b") (codes "PUT") (codes "x-token, ORIGIN")

abbrev foreign : Context
foreign = ask (codes "GET") (codes "http://c") [] []

abbrev after : Context → Context
after c = serve (prepare options) false c

cors_tests :
    ((after good).progress ≡ aborted_with 200)
    × (value allow_origin_key (after good).sent ≡ some (codes "http://b"))
    × (value allow_methods_key (after good).sent ≡ some (codes "GET, PUT"))
    × ((after foreign).progress ≡ aborted)
    × ((after (ask (codes "GET") [] [] [])).progress ≡ running)
unfolding cors
cors_tests = (refl, refl, refl, refl, refl)

middleware-origin_example :
    (good.header origin_key ≢ [])
    × IsAllowed options (good.header origin_key)
    × ((codes "http://b" ≡ good.header origin_key)
        ⊎ ((codes "http://b" ≡ codes "*") × (options.origins ≡ codes "*") × (true ≡ false)))
unfolding cors
middleware-origin_example =
    middleware-origin options good (after good) (codes "http://b") refl refl refl

handle_preflight-valid_iff_example :
    ((handle_preflight good (prepare options) (codes "PUT")).1 ≡ true) ↔ (
      ((prepare options).validate_headers ≡ false)
      ⊎ ((codes "PUT" ≢ [])
          × IsListed (codes "PUT") (prepare options).methods
          × All
              (λ header. IsListed (to_lower (trim header blanks)) (prepare options).request_headers)
              (split (good.header request_headers_key) (codes ","))))
handle_preflight-valid_iff_example = handle_preflight-valid_iff good (prepare options) (codes "PUT")

abbrev simple : Context
simple = ask (codes "OPTIONS") (codes "http://b") (codes "GET") []

parser : Unit {0}
unfolding lookups get QueryParser.put QueryParser.put_all QueryParser.each_field QueryParser.exact
    QueryParser.i_exact QueryParser.contains QueryParser.i_contains QueryParser.startswith
    QueryParser.i_startswith QueryParser.endswith QueryParser.i_endswith QueryParser.gt
    QueryParser.gte QueryParser.lt QueryParser.lte QueryParser.is_null QueryParser.in_list
    QueryParser.eq QueryParser.ne split
parser = tt

-- `size__gt=1&size__lt=5&name__in=a,b`
abbrev form : Form
form key =
    if key == codes "size__gt"
    then codes "1" ∷ []
    else if key == codes "size__lt"
    then codes "4" ∷ codes "5" ∷ []
    else if key == codes "name__in"
    then codes "a,b" ∷ []
    else []

abbrev allowed : List Text
allowed = codes "size" ∷ codes "name" ∷ []

query_tests :
    (get (codes "size") (lookups form allowed []) ≡ some (less (codes "5")))
    × (get (codes "name") (lookups form allowed []) ≡ some (one_of (codes "a" ∷ codes "b" ∷ [])))
    × (get (codes "size") (lookups form (codes "name" ∷ []) []) ≡ none)
unfolding parser
query_tests = (refl, refl, refl)

lookups-asked_example :
    get (codes "size") (lookups form allowed []) ≡ asked form (codes "size") (get (codes "size") [])
lookups-asked_example = lookups-asked form allowed [] (codes "size") refl

random_tests :
    (unique_new_len_chars 3 (codes "abc") ((255 ∷ 0 ∷ 4 ∷ []) ∷ (2 ∷ 7 ∷ []) ∷ [])
      ≡ done (codes "abc"))
    × (unique_new_len_chars 3 (codes "abc") ((255 ∷ 255 ∷ []) ∷ []) ≡ need_more)
    × (unique_new_len_chars 3 (codes "a") [] ≡ bad_charset)
unfolding unique_new_len_chars use_blocks use_bytes maxrb char_at
random_tests = (refl, refl, refl)

unique_new_len_chars-done_example :
    (s : Text) × (unique_new_len_chars 3 (codes "abc") ((255 ∷ 0 ∷ 4 ∷ []) ∷ (2 ∷ 7 ∷ []) ∷ [])
      ≡ done s)
    × (length s ≡ 3)
    × IsOver (codes "abc") s
unfolding usable count_if maxrb
unique_new_len_chars-done_example =
    unique_new_len_chars-done 3 (codes "abc") ((255 ∷ 0 ∷ 4 ∷ []) ∷ (2 ∷ 7 ∷ []) ∷ []) (omega arith)
      (omega arith) (omega arith)
