-- ===== src/Examples/Pages.antt =====
-- Pages of small lists.
use tensor.Prelude.{ℕ, suc, ◌+◌, ◌*◌, ◌<◌, min, ◌≡◌, refl, true, none, some, List, [], ◌∷◌, arith}
use tensor.Prelude.Text.{Text, codes}
use tensor.Prelude.Int.{pos, negsuc}
use tensor.Pagination.{
  Pagination, parse_uint, limit_parser, page_parser, new_pagination, offset, total_pages, next_page,
  previous_page, has_page, skip, end,
}
use tensor.Pagination.Bounds.{IsValid, IsPage, new_pagination-IsValid, page_window}
use tensor.Pagination.Walk.{page_slice, walk, walk_all}

pages : Unit {0}
unfolding new_pagination limit_parser page_parser parse_uint offset total_pages next_page
    previous_page has_page skip end walk page_slice
pages = tt

abbrev request : Text → Text → ℕ → Pagination
request page page_size n = new_pagination page page_size n

page_tests :
    (skip (request (codes "2") (codes "3") 7) ≡ pos 3)
    × (end (request (codes "3") (codes "3") 7) ≡ pos 7)
    × (has_page (request (codes "4") (codes "3") 7) ≡ true)
    × (next_page (request (codes "2") (codes "3") 7) ≡ some (pos 3))
    × (previous_page (request (codes "1") (codes "3") 7) ≡ none)
    × ((request (codes "x") (codes "501") 7).limit ≡ pos 10)
    × ((request (codes "18446744073709551615") (codes "") 7).page ≡ negsuc 0)
    × ((request (codes "18446744073709551616") (codes "") 7).page ≡ pos 1)
unfolding pages
page_tests = (refl, refl, refl, refl, refl, refl, refl, refl)

abbrev seven : List ℕ
seven = 1 ∷ 2 ∷ 3 ∷ 4 ∷ 5 ∷ 6 ∷ 7 ∷ []

walk_test : walk 7 (request (codes "1") (codes "3") 7) seven ≡ seven
unfolding pages
walk_test = refl

second-IsValid : IsValid (request (codes "2") (codes "3") 7)
second-IsValid = new_pagination-IsValid (codes "2") (codes "3") 7 (omega arith)

second-IsPage : IsPage (request (codes "2") (codes "3") 7)
unfolding pages
second-IsPage = (omega arith, refl)

page_window_example :
    let p = request (codes "2") (codes "3") 7 in
    (l g : ℕ) × (p.limit ≡ pos l)
    × (p.page ≡ pos (suc g))
    × (g * l < p.item_count)
    × (skip p ≡ pos (g * l))
    × (end p ≡ pos (min p.item_count (g * l + l)))
page_window_example = page_window (request (codes "2") (codes "3") 7) second-IsValid second-IsPage

walk_all_example : walk 7 (request (codes "1") (codes "3") 7) seven ≡ seven
unfolding pages
walk_all_example =
    walk_all (request (codes "1") (codes "3") 7) seven
      (new_pagination-IsValid (codes "1") (codes "3") 7 (omega arith)) refl refl (omega arith)
