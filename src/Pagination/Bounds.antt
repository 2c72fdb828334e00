-- ===== src/Pagination/Bounds.antt =====
-- The bounds of a page in the list.
use tensor.Prelude.{
  ℕ, zero, suc, ◌+◌, ◌-◌, ◌*◌, ◌/◌, ◌^◌, ◌≤◌, ◌<◌, ◌≡◌, false, arith, Option-cases, inl, inr, min,
}
use native.Mathlib.Nat.{zero-mul, suc-mul, mul_comm}
use tensor.Prelude.Int.{pos, pos_part}
use tensor.Prelude.Text.{Text}
use tensor.Pagination.{
  Pagination, parse_uint, limit_parser, new_pagination, offset, total_pages, has_page, skip, end,
}

-- What `new_pagination` establishes of the limit, and the bound on the number of items that memory sets.
pub record IsValid (p : Pagination) : Type 0 where
  pub limit_range : (l : ℕ) × (p.limit ≡ pos l) × (1 ≤ l) × (l ≤ 500)
  pub items_bound : p.item_count < 2 ^ 40

limit_parser_range : (text : Text) → (l : ℕ) × (limit_parser text ≡ pos l) × (1 ≤ l) × (l ≤ 500)
unfolding limit_parser
limit_parser_range text = elim (Option-cases (parse_uint text)) [
  | inl e ↦ (10, ground arith, omega arith, omega arith)
  | inr (n, e) ↦ (pos_part (limit_parser text), ground arith, ground arith, ground arith)
]

-- Whatever the request says, the limit lies in 1 to 500, and the values of fewer than 2^40 items
-- are valid.
pub new_pagination-IsValid :
    (page page_size : Text) (n : ℕ) → n < 2 ^ 40 → IsValid (new_pagination page page_size n)
unfolding new_pagination
new_pagination-IsValid page page_size n h = record {
  limit_range = limit_parser_range page_size;
  items_bound = h;
}

-- The number of pages is the quotient, rounded up.
pub total_bounds : (n l : ℕ) → 0 < l → (n ≤ (n + (l - 1)) / l * l) × ((n + (l - 1)) / l * l < n + l)
total_bounds n l h = grind arith

mul_mono : (a b l : ℕ) → a ≤ b → a * l ≤ b * l
mul_mono a b l h = grind arith

mul_reach : (a g l : ℕ) → a ≤ suc g → a * l ≤ g * l + l
mul_reach a g l h = omega (arith, mul_mono a (suc g) l h, suc-mul g l)

-- A page within the total starts before the end of the list.
mul_step : (a b l : ℕ) → a < b → a * l + l ≤ b * l
mul_step a b l h = grind arith

pub page_start : (n l g : ℕ) → 1 ≤ l → g < (n + (l - 1)) / l → g * l < n
page_start n l g h lt =
    let bounds = total_bounds n l h in grind (arith, mul_step g ((n + (l - 1)) / l) l)

-- A page at the total or beyond it reaches the end of the list.
pub page_end : (n l g : ℕ) → 1 ≤ l → (n + (l - 1)) / l ≤ suc g → n ≤ g * l + l
page_end n l g h le =
    let bounds = total_bounds n l h in grind (arith, mul_reach ((n + (l - 1)) / l) g l)

-- The page exists: it is not one for which `has_page` asks to be answered "not found".
abbrev pub IsPage : Pagination → Type 0
IsPage p = (0 < p.item_count) × (has_page p ≡ false)

pub total_pos :
    (p : Pagination) (l : ℕ) → p.limit ≡ pos l → 1 ≤ l → 0 < p.item_count → 0 < total_pages p
unfolding total_pages
total_pos p l e h some_item = rw e (let bounds = total_bounds p.item_count l h in grind arith)

-- What an existing page has for its numbers.
pub page_numbers :
    (p : Pagination) (l : ℕ)
    → p.limit ≡ pos l
    → 1 ≤ l
    → IsPage p
    → (g : ℕ) × (p.page ≡ pos (suc g)) × (g < total_pages p)
unfolding has_page
page_numbers p l e h (some_item, exists) =
    let positive : 0 < total_pages p = total_pos p l e h some_item in
    (pos_part p.page - 1, ground arith, ground arith)

-- Below 2^40 items the product does not wrap round.
offset_eq :
    (p : Pagination) (l g : ℕ)
    → p.limit ≡ pos l
    → 1 ≤ l
    → p.page ≡ pos (suc g)
    → g * l < 2 ^ 40
    → offset p ≡ pos (g * l)
unfolding offset
offset_eq p l zero el low eg small = ground (arith, zero-mul l)
offset_eq p l (suc g) el low eg small = ground (arith, mul_comm l (suc g))

-- The bounds of the slice, from the numbers.
pub window :
    (p : Pagination) (l g : ℕ)
    → p.limit ≡ pos l
    → 1 ≤ l
    → p.item_count < 2 ^ 40
    → p.page ≡ pos (suc g)
    → g * l < p.item_count
    → (skip p ≡ pos (g * l)) × (end p ≡ pos (min p.item_count (g * l + l)))
unfolding skip end
window p l g el low bound eg lt =
    let start = offset_eq p l g el low eg (omega arith) in (ground arith, ground arith)

-- For valid pagination values whose page exists, page g + 1 starts after the g pages before it,
-- within the list, and ends at the end of the list or one limit further on, whichever comes first.
pub page_window :
    (p : Pagination)
    → IsValid p
    → IsPage p
    → (l g : ℕ) × (p.limit ≡ pos l)
      × (p.page ≡ pos (suc g))
      × (g * l < p.item_count)
      × (skip p ≡ pos (g * l))
      × (end p ≡ pos (min p.item_count (g * l + l)))
unfolding total_pages
page_window p valid exists =
    let (l, el, low, high) = valid.limit_range in
    let (g, eg, within) = page_numbers p l el low exists in
    let lt : g * l < p.item_count = page_start p.item_count l g low (ground arith) in
    let (start, stop) = window p l g el low valid.items_bound eg lt in
    (l, g, el, eg, lt, start, stop)
