-- ===== src/Pagination/Walk.antt =====
-- Following the link to the next page from the first one visits the whole list.
use native.Mathlib.Nat.{suc-mul}
use native.Mathlib.Decide.{dec_lt}
use tensor.Prelude.{
  ◌⊎◌, inl, inr, ℕ, zero, suc, ◌+◌, ◌-◌, ◌*◌, ◌^◌, ◌≤◌, ◌<◌, min, ◌≡◌, refl, sym, ap, ◌∙◌, none,
  some, List, [], ◌++◌, arith, length, take, drop, take-append-drop, drop-add, drop-all,
}
use tensor.Prelude.Int.{ℤ, pos, pos_part}
use tensor.Pagination.{
  Pagination, total_pages, next_page, previous_page, has_page, skip, end, offset,
}
use tensor.Pagination.Bounds.{
  IsValid, IsPage, page_window, page_numbers, window, page_start, page_end, total_pos,
}

module _ {ℓ} {A : Type ℓ} where
  -- The slice `xs[p.Skip():p.End()]` that the handlers send.
  unfoldable pub page_slice : Pagination → List A → List A
  page_slice p xs = take (pos_part (end p) - pos_part (skip p)) (drop (pos_part (skip p)) xs)

-- Moving to another page keeps what `new_pagination` establishes.
IsValid-move : (p : Pagination) (q : ℤ) → IsValid p → IsValid (record p { page = q })
IsValid-move p q valid = record { limit_range = valid.limit_range; items_bound = valid.items_bound }

module _ (p : Pagination) (l g : ℕ) (el : p.limit ≡ pos l) (low : 1 ≤ l) (eg : p.page ≡ pos (suc g))
    (some_item : 0 < p.item_count) (bound : p.item_count < 2 ^ 40)
    (within : g < total_pages p) where
  here : (skip p ≡ pos (g * l)) × (end p ≡ pos (min p.item_count (g * l + l)))
  unfolding total_pages
  here = window p l g el low bound eg (page_start p.item_count l g low (ground arith))

  last_page : total_pages p ≤ suc g → (next_page p ≡ none) × (end p ≡ pos p.item_count)
  unfolding next_page total_pages
  last_page over =
      let reach = page_end p.item_count l g low (ground arith) in
      (ground arith, ground (arith, here))

  abbrev next : Pagination
  next = record p { page = pos (suc (suc g)) }

  next_exists : suc g < total_pages p → IsPage next
  unfolding has_page total_pages
  next_exists more = (some_item, ground arith)

  middle_page :
      suc g < total_pages p
      → (next_page p ≡ some (pos (suc (suc g))))
        × (skip next ≡ end p)
        × (previous_page next ≡ some p.page)
  unfolding next_page previous_page total_pages
  middle_page more =
      let start = page_start p.item_count l (suc g) low (ground arith) in
      let there = window next l (suc g) el low bound refl start in
      (ground arith, ground (arith, here, suc-mul g l), ground arith)

-- For valid pagination values whose page exists: either there is no next page, and this one ends
-- with the list; or the next page exists, starts where this one ends, and has this one for its
-- previous page.
next_page_cases :
    (p : Pagination)
    → IsValid p
    → IsPage p
    → ((next_page p ≡ none) × (end p ≡ pos p.item_count))
      ⊎ ((q : ℤ) × (next_page p ≡ some q)
          × IsPage (record p { page = q })
          × (skip (record p { page = q }) ≡ end p)
          × (previous_page (record p { page = q }) ≡ some p.page))
next_page_cases p valid exists =
    let (l, el, low, high) = valid.limit_range in
    let (g, eg, within) = page_numbers p l el low exists in
    elim (dec_lt (suc g) (total_pages p)) [
      | yes more ↦
          let (found, starts, back) =
            middle_page p l g el low eg exists.0 valid.items_bound within more in
          inr (
            pos (suc (suc g)),
            found,
            next_exists p l g el low eg exists.0 valid.items_bound within more,
            starts,
            back,
          )
      | no over ↦ inl (last_page p l g el low eg exists.0 valid.items_bound within (omega arith))
    ]

module _ {ℓ} {A : Type ℓ} where
  -- What a client collects who starts at a page and follows at most `fuel` links to the next one.
  unfoldable pub walk : ℕ → Pagination → List A → List A
  walk zero p xs = page_slice p xs
  walk (suc fuel) p xs =
      let rest = λ (q : ℤ). walk fuel (record p { page = q }) xs in
      page_slice p xs ++ (elim (next_page p) [ none ↦ [] | some q ↦ rest q ])

  slice_then : (s e : ℕ) (xs : List A) → s ≤ e → take (e - s) (drop s xs) ++ drop e xs ≡ drop s xs
  slice_then s e xs h =
      let same : s + (e - s) ≡ e = omega arith in
      ap (λ m. take (e - s) (drop s xs) ++ drop m xs) (sym same)
      ∙ ap (λ r. take (e - s) (drop s xs) ++ r) (drop-add s (e - s) xs)
      ∙ take-append-drop (e - s) (drop s xs)

-- The first page of a list that is not empty exists, and starts at the first item.
first_exists :
    (p : Pagination) (l : ℕ)
    → p.limit ≡ pos l
    → 1 ≤ l
    → p.page ≡ pos 1
    → 0 < p.item_count
    → IsPage p
unfolding has_page
first_exists p l el low first some_item =
    let positive = total_pos p l el low some_item in (some_item, ground arith)

first_start : (p : Pagination) → p.page ≡ pos 1 → skip p ≡ pos 0
unfolding skip offset
first_start p first = ground arith

-- An existing page holds at least one item, and ends within the list.
pub page_grows :
    (p : Pagination)
    → IsValid p
    → IsPage p
    → (s e : ℕ) × (skip p ≡ pos s) × (end p ≡ pos e) × (s < e) × (e ≤ p.item_count)
page_grows p valid exists =
    let (l, g, el, eg, lt, start, stop) = page_window p valid exists in
    let (l', el', low, high) = valid.limit_range in
    (g * l, min p.item_count (g * l + l), start, stop, ground arith, omega arith)

module _ {ℓ} {A : Type ℓ} where
  walk-drop :
      (fuel : ℕ) (p : Pagination) (xs : List A)
      → IsValid p
      → IsPage p
      → length xs ≡ p.item_count
      → p.item_count ≤ fuel + pos_part (skip p)
      → walk fuel p xs ≡ drop (pos_part (skip p)) xs
  unfolding walk page_slice
  walk-drop zero p xs valid exists len enough =
      let (s, e, start, stop, lt, le) = page_grows p valid exists in absurd (ground arith)
  walk-drop (suc fuel) p xs valid exists len enough =
      let (s, e, start, stop, lt, le) = page_grows p valid exists in
      let pieces = slice_then s e xs (omega arith) in
      elim (next_page_cases p valid exists) [
        | inl (ends, at_end) ↦ let nothing = drop-all e xs (ground arith) in ground (arith)
        | inr (q, found, there, starts, back) ↦
            let ih =
              walk-drop fuel (record p { page = q }) xs (IsValid-move p q valid) there len
                (ground arith) in
            ground arith
      ]

  -- Who starts at page 1 of a list that is not empty, with pagination values that are valid and
  -- count the list's items, and follows the links to the next page, as many as there are items at
  -- most, collects the whole list in order: every item once.
  pub walk_all :
      (p : Pagination) (xs : List A)
      → IsValid p
      → p.page ≡ pos 1
      → length xs ≡ p.item_count
      → 0 < p.item_count
      → walk p.item_count p xs ≡ xs
  walk_all p xs valid first len some_item =
      let (l, el, low, high) = valid.limit_range in
      let exists = first_exists p l el low first some_item in
      let start = first_start p first in
      walk-drop p.item_count p xs valid exists len (omega arith)
      ∙ ap (λ (s : ℤ). drop (pos_part s) xs) start
