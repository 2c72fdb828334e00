-- ===== src/QueryParser.antt =====
-- util/query.go: the criteria that a request's query parameters add to a database query.
-- Texts are bytes. `form` is `p.From`: the values of each parameter, none where it is missing; a
-- parameter of `p.context.Query` is its first value, empty where it is missing.
pub mod Laws
use tensor.Prelude.{
  Bool, true, false, not, Option, none, some, List, [], ◌∷◌, ◌++◌, if◌then◌else◌, ◌==◌, length, leb,
}
use tensor.Prelude.Text.{Text, text_eq, codes, split}

-- What the query asks of a field. `null_or_missing` holds the field's name, as the source writes it.
pub data Criterion : Type 0 where
  literal : Text → Criterion
  regex : (pattern options : Text) → Criterion
  greater greater_or_equal less less_or_equal equal not_equal : Text → Criterion
  null_or_missing : Text → Criterion
  one_of : List Text → Criterion

-- `bson.M`, by its entries.
abbrev pub Query : Type 0
Query = List (Text × Criterion)

unfoldable pub get : Text → Query → Option Criterion
get k [] = none
get k ((j, c) ∷ query) = let rest = get k query in if j == k then some c else rest

-- `query[k] = c`
unfoldable pub put : Text → Criterion → Query → Query
put k c [] = (k, c) ∷ []
put k c ((j, d) ∷ query) =
    let rest = (j, d) ∷ put k c query in if j == k then (k, c) ∷ query else rest

abbrev pub Form : Type 0
Form = Text → List Text

abbrev pub order_param : Text
order_param = codes "order_by"

-- `p.context.Query(name)`
unfoldable pub first_value : List Text → Text
first_value [] = []
first_value (v ∷ _) = v

unfoldable pub order_by : Form → Text
unfolding first_value
order_by form = first_value (form order_param)

unfoldable pub match : Form → List Text → Query → Query
unfolding first_value
match form [] query = query
match form (s ∷ ss) query = match form ss (
    if not (first_value (form s) == [])
    then put s (literal (first_value (form s))) query
    else query)

-- The loop of a lookup over the values of one parameter: each overwrites the one before.
unfoldable pub put_all : (Text → Criterion) → Text → List Text → Query → Query
put_all make field [] query = query
put_all make field (v ∷ values) query = put_all make field values (put field (make v) query)

-- The loop of a lookup over the fields. The guard on the number of values is part of the loop.
unfoldable pub each_field : Text → (Text → Text → Criterion) → Form → List Text → Query → Query
unfolding put_all
each_field suffix make form [] query = query
each_field suffix make form (field ∷ fields) query = each_field suffix make form fields (
    if leb 1 (length (form (field ++ suffix)))
    then put_all (make field) field (form (field ++ suffix)) query
    else query)

abbrev pub exact_suffix : Text
exact_suffix = codes "__exact"

abbrev pub exact_criterion : Text → Text → Criterion
exact_criterion field v = regex (codes "^" ++ v ++ codes "$") []

unfoldable pub exact : Form → List Text → Query → Query
exact = each_field exact_suffix exact_criterion

abbrev pub i_exact_suffix : Text
i_exact_suffix = codes "__iexact"

abbrev pub i_exact_criterion : Text → Text → Criterion
i_exact_criterion field v = regex (codes "^" ++ v ++ codes "$") (codes "i")

unfoldable pub i_exact : Form → List Text → Query → Query
i_exact = each_field i_exact_suffix i_exact_criterion

abbrev pub contains_suffix : Text
contains_suffix = codes "__contains"

abbrev pub contains_criterion : Text → Text → Criterion
contains_criterion field v = regex (codes ".*" ++ v ++ codes ".*") []

unfoldable pub contains : Form → List Text → Query → Query
contains = each_field contains_suffix contains_criterion

abbrev pub i_contains_suffix : Text
i_contains_suffix = codes "__icontains"

abbrev pub i_contains_criterion : Text → Text → Criterion
i_contains_criterion field v = regex (codes ".*" ++ v ++ codes ".*") (codes "i")

unfoldable pub i_contains : Form → List Text → Query → Query
i_contains = each_field i_contains_suffix i_contains_criterion

abbrev pub startswith_suffix : Text
startswith_suffix = codes "__startswith"

abbrev pub startswith_criterion : Text → Text → Criterion
startswith_criterion field v = regex (codes "^" ++ v) []

unfoldable pub startswith : Form → List Text → Query → Query
startswith = each_field startswith_suffix startswith_criterion

abbrev pub i_startswith_suffix : Text
i_startswith_suffix = codes "__istartswith"

abbrev pub i_startswith_criterion : Text → Text → Criterion
i_startswith_criterion field v = regex (codes "^" ++ v) (codes "i")

unfoldable pub i_startswith : Form → List Text → Query → Query
i_startswith = each_field i_startswith_suffix i_startswith_criterion

abbrev pub endswith_suffix : Text
endswith_suffix = codes "__endswith"

abbrev pub endswith_criterion : Text → Text → Criterion
endswith_criterion field v = regex (v ++ codes "$") []

unfoldable pub endswith : Form → List Text → Query → Query
endswith = each_field endswith_suffix endswith_criterion

abbrev pub i_endswith_suffix : Text
i_endswith_suffix = codes "__iendswith"

abbrev pub i_endswith_criterion : Text → Text → Criterion
i_endswith_criterion field v = regex (v ++ codes "$") (codes "i")

unfoldable pub i_endswith : Form → List Text → Query → Query
i_endswith = each_field i_endswith_suffix i_endswith_criterion

abbrev pub gt_suffix : Text
gt_suffix = codes "__gt"

abbrev pub gt_criterion : Text → Text → Criterion
gt_criterion field v = greater v

unfoldable pub gt : Form → List Text → Query → Query
gt = each_field gt_suffix gt_criterion

abbrev pub gte_suffix : Text
gte_suffix = codes "__gte"

abbrev pub gte_criterion : Text → Text → Criterion
gte_criterion field v = greater_or_equal v

unfoldable pub gte : Form → List Text → Query → Query
gte = each_field gte_suffix gte_criterion

abbrev pub lt_suffix : Text
lt_suffix = codes "__lt"

abbrev pub lt_criterion : Text → Text → Criterion
lt_criterion field v = less v

unfoldable pub lt : Form → List Text → Query → Query
lt = each_field lt_suffix lt_criterion

abbrev pub lte_suffix : Text
lte_suffix = codes "__lte"

abbrev pub lte_criterion : Text → Text → Criterion
lte_criterion field v = less_or_equal v

unfoldable pub lte : Form → List Text → Query → Query
lte = each_field lte_suffix lte_criterion

abbrev pub is_null_suffix : Text
is_null_suffix = codes "__isnull"

abbrev pub is_null_criterion : Text → Text → Criterion
is_null_criterion field v = null_or_missing field

unfoldable pub is_null : Form → List Text → Query → Query
is_null = each_field is_null_suffix is_null_criterion

-- A split by a separator that is not empty has a piece, so the guard on the pieces always passes.
abbrev pub in_list_suffix : Text
in_list_suffix = codes "__in"

abbrev pub in_list_criterion : Text → Text → Criterion
in_list_criterion field v = one_of (split v (codes ","))

unfoldable pub in_list : Form → List Text → Query → Query
in_list = each_field in_list_suffix in_list_criterion

abbrev pub eq_suffix : Text
eq_suffix = codes "__eq"

abbrev pub eq_criterion : Text → Text → Criterion
eq_criterion field v = equal v

unfoldable pub eq : Form → List Text → Query → Query
eq = each_field eq_suffix eq_criterion

abbrev pub ne_suffix : Text
ne_suffix = codes "__ne"

abbrev pub ne_criterion : Text → Text → Criterion
ne_criterion field v = not_equal v

unfoldable pub ne : Form → List Text → Query → Query
ne = each_field ne_suffix ne_criterion

-- `Lookups`: all of them in this order, the last once more.
unfoldable pub lookups : Form → List Text → Query → Query
lookups form fields query =
    (gte form fields (
      ne form fields (
        eq form fields (
          in_list form fields (
            is_null form fields (
              lte form fields (
                lt form fields (
                  gte form fields (
                    gt form fields (
                      i_endswith form fields (
                        endswith form fields (
                          i_startswith form fields (
                            startswith form fields (
                              i_contains form fields (
                                contains form fields
                                  (i_exact form fields (exact form fields query)))))))))))))))))
