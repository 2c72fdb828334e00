-- ===== src/Pagination.antt =====
-- util/pagination.go: the page of a list that a request asks for, and its bounds in the list.
-- `int` is 64 bits wide. The number of items is that of a list in memory or of a collection; the
-- quotient of `math.Ceil` is taken exactly, as floats do while it is below 2^40.
pub mod Bounds
pub mod Walk
pub mod Overflow
use tensor.Prelude.{
  ℕ, suc, ◌+◌, ◌-◌, ◌*◌, ◌/◌, ◌%◌, ◌^◌, Bool, true, false, ◌&&◌, ◌||◌, Option, none, some, List, [],
  ◌∷◌, ltb, leb, if◌then◌else◌,
}
use tensor.Prelude.Int.{ℤ, pos, negsuc, pos_part, neg_part, leb_ℤ, ltb_ℤ, add_int, to_int, wrap_int}
use tensor.Prelude.Text.{Text}

abbrev pub default_limit : ℕ
default_limit = 10

abbrev pub min_limit : ℕ
min_limit = 1

abbrev pub max_limit : ℕ
max_limit = 500

abbrev pub default_page : ℕ
default_page = 1

pub record Pagination : Type 0 where
  pub limit : ℤ
  pub page : ℤ
  pub item_count : ℕ

-- `strconv.ParseUint(s, 10, 64)`, `none` for any error: the loop over the digits, with the value so far.
pub parse_from : ℕ → Text → Option ℕ
parse_from n [] = some n
parse_from n (c ∷ s) =
    let rest = parse_from (n * 10 + (c - 48)) s in
    if leb b'0' c && leb c b'9' && ltb (n * 10 + (c - 48)) (2 ^ 64) then rest else none

unfoldable pub parse_uint : Text → Option ℕ
unfolding parse_from
parse_uint [] = none
parse_uint (c ∷ s) = parse_from 0 (c ∷ s)

unfoldable pub limit_parser : Text → ℤ
limit_parser text = elim (parse_uint text) [
  | none ↦ pos default_limit
  | some l ↦
      let lm = to_int l in
      if leb_ℤ (pos min_limit) lm && leb_ℤ lm (pos max_limit) then lm else pos default_limit
]

unfoldable pub page_parser : Text → ℤ
page_parser text = elim (parse_uint text) [ none ↦ pos default_page | some p ↦ to_int p ]

-- `page` and `page_size` are the values of the query parameters, empty where there is none.
unfoldable pub new_pagination : Text → Text → ℕ → Pagination
new_pagination page page_size n = record {
  limit = limit_parser page_size;
  page = page_parser page;
  item_count = n;
}

-- Beyond the guard both factors are positive.
unfoldable pub offset : Pagination → ℤ
offset p =
    if ltb_ℤ p.limit (pos 1) || leb_ℤ p.page (pos 1)
    then pos 0
    else wrap_int (pos_part p.limit * (pos_part p.page - 1))

-- Limits are at least 1 (`limit_parser`).
unfoldable pub total_pages : Pagination → ℕ
total_pages p = (p.item_count + (pos_part p.limit - 1)) / pos_part p.limit

unfoldable pub next_page : Pagination → Option ℤ
next_page p =
    if leb_ℤ (pos (total_pages p)) p.page
    then none
    else if ltb_ℤ p.page (pos 1)
    then some (pos default_page)
    else some (add_int p.page (pos 1))

unfoldable pub previous_page : Pagination → Option ℤ
previous_page p =
    if leb_ℤ p.page (pos 1) || ltb_ℤ (pos (total_pages p)) p.page
    then none
    else some (add_int p.page (negsuc 0))

unfoldable pub has_page : Pagination → Bool
has_page p =
    if leb_ℤ (pos (total_pages p)) (pos 0)
    then false
    else leb_ℤ p.page (pos 0) || ltb_ℤ (pos (total_pages p)) p.page

unfoldable pub skip : Pagination → ℤ
skip p = let skip = offset p in if ltb_ℤ (pos p.item_count) skip then pos p.item_count else skip

unfoldable pub end : Pagination → ℤ
end p =
    let start = skip p in
    let stop = add_int start p.limit in
    if ltb_ℤ (pos p.item_count) stop then pos p.item_count else stop
