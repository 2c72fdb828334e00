-- ===== src/Pagination/Overflow.antt =====
-- The slice of an empty list, where the guard on the page does not apply.
use tensor.Prelude.{ℕ, zero, suc, ◌+◌, ◌-◌, ◌*◌, ◌/◌, refl, ◌^◌, ◌≤◌, ◌<◌, ◌≡◌, false, arith}
use native.Mathlib.Nat.{suc-mul}
use tensor.Pagination.Bounds.{total_bounds}
use tensor.Prelude.Int.{pos, negsuc}
use tensor.Pagination.{Pagination, offset, total_pages, has_page, skip}

quotient_zero : (q l : ℕ) → q * l < l → q ≡ 0
quotient_zero zero l h = refl
quotient_zero (suc q) l h = absurd (omega (arith, suc-mul q l))

no_pages : (p : Pagination) (l : ℕ) → p.limit ≡ pos l → 1 ≤ l → p.item_count ≡ 0 → total_pages p ≡ 0
unfolding total_pages
no_pages p l el low empty =
    let bounds = total_bounds p.item_count l low in
    let none_left = quotient_zero ((p.item_count + (l - 1)) / l) l (omega arith) in ground arith

-- For an empty list every page passes `has_page`. Where the limit is at least 2 and the offset of
-- the page is at least 2^63 and below 2^64, it wraps round, and the slice starts at a negative
-- index.
pub skip_negative :
    (p : Pagination) (l g : ℕ)
    → p.limit ≡ pos l
    → 2 ≤ l
    → p.page ≡ pos (g + 1)
    → 1 ≤ g
    → p.item_count ≡ 0
    → 2 ^ 63 ≤ l * g
    → l * g < 2 ^ 64
    → (has_page p ≡ false) × (k : ℕ) × (skip p ≡ negsuc k)
unfolding has_page skip offset
skip_negative p l g el low eg pg empty big small =
    let none_at_all = no_pages p l el (omega arith) empty in
    (ground arith, 2 ^ 64 - 1 - l * g, ground arith)
