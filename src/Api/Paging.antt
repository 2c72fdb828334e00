-- ===== src/Api/Paging.antt =====
-- What `send_page` answers, for the lists that memory holds.
use tensor.Prelude.{
  ℕ, zero, suc, subst, ◌+◌, ◌-◌, ◌*◌, ◌^◌, ◌≤◌, ◌<◌, ◌≡◌, refl, ◌⊎◌, inl, inr, Bool, true, false,
  some, List, [], ◌∷◌, arith, map, length, take, drop, if◌then◌else◌, Bool-cases, All, leb, ◌&&◌,
  none, Option,
}
use tensor.Prelude.Int.{ℤ, pos, negsuc}
use tensor.Pagination.{Pagination, new_pagination, has_page, next_page, previous_page, skip, end}
use tensor.Pagination.Bounds.{IsValid, IsPage, new_pagination-IsValid}
use tensor.Pagination.Overflow.{skip_negative}
use tensor.Pagination.Walk.{page_grows, page_slice}
use tensor.Api.{
  Body, Event, sent, panicked, listing, item, did, PageQuery, slice, send_slice, send_page, keep,
}

some-eq : {A : Type 0} {x y : List A} → some x ≡ some y → x ≡ y
some-eq e = cc

slice_within :
    {A : Type 0} (i j : ℕ) (items : List A)
    → i ≤ j
    → j ≤ length items
    → slice (pos i) (pos j) items ≡ some (take (j - i) (drop i items))
unfolding slice
slice_within i j items h k = ground arith

slice_page :
    {A : Type 0} (p : Pagination) (items : List A)
    → IsValid p
    → IsPage p
    → length items ≡ p.item_count
    → slice (skip p) (end p) items ≡ some (page_slice p items)
unfolding page_slice
slice_page p items valid exists same =
    let (s, e, start, stop, lt, le) = page_grows p valid exists in
    rw start (rw stop (slice_within s e items (omega arith) (omega arith)))

-- The response with a page.
unfoldable pub response : {A : Type 0} → Pagination → List A → Body A
response p items = listing (record {
  count = length items;
  next = next_page p;
  previous = previous_page p;
  items = page_slice p items;
})

module _ {D A : Type 0} (missing : ℤ → Body A) (q : PageQuery) (items : List A) where
  -- A list that is not empty and has fewer than 2^40 items is answered with 404 if the page does
  -- not exist, and otherwise with 200, the number of items, the items of the page in order, and the
  -- numbers of the pages beside it. The slice does not panic.
  pub send_page-cases :
      0 < length items
      → length items < 2 ^ 40
      → ((has_page (new_pagination q.page q.page_size (length items)) ≡ true)
          × (send_page {D = D} missing q items
              ≡ sent 404 (missing (new_pagination q.page q.page_size (length items)).page) ∷ []))
        ⊎ ((has_page (new_pagination q.page q.page_size (length items)) ≡ false)
            × (send_page {D = D} missing q items
                ≡ sent 200 (response (new_pagination q.page q.page_size (length items)) items)
                  ∷ []))
  unfolding send_page response new_pagination send_slice
  send_page-cases some_item few =
      let p = new_pagination q.page q.page_size (length items) in
      elim (Bool-cases (has_page p)) [
        | inl none_there ↦ inl (none_there, rw none_there)
        | inr exists ↦
            let valid = new_pagination-IsValid q.page q.page_size (length items) few in
            let found = slice_page p items valid (some_item, exists) refl in
            inr (exists, rw exists (rw found))
      ]

slice_before : {A : Type 0} (k : ℕ) (j : ℤ) (items : List A) → slice (negsuc k) j items ≡ none
unfolding slice
slice_before k j items = refl

-- Where the limit is at least 2 and the offset of the page is at least 2^63 and below 2^64, it
-- wraps round: the page of an empty list is then a panic.
pub send_page-panicked :
    {D A : Type 0} (missing : ℤ → Body A) (q : PageQuery) (l g : ℕ)
    → (new_pagination q.page q.page_size 0).limit ≡ pos l
    → 2 ≤ l
    → (new_pagination q.page q.page_size 0).page ≡ pos (g + 1)
    → 1 ≤ g
    → 2 ^ 63 ≤ l * g
    → l * g < 2 ^ 64
    → send_page {D = D} missing q [] ≡ panicked ∷ []
unfolding send_page new_pagination send_slice
send_page-panicked missing q l g limit low page far big small =
    let p = new_pagination q.page q.page_size 0 in
    let (exists, k, start) = skip_negative p l g limit low page far refl big small in
    rw exists (rw start (rw (slice_before k (end p) []) refl))

-- A predicate on the items of a list holds of those of a slice.
All-take :
    {A : Type 0} (P : A → Type 0) (n : ℕ) (items : List A) → All P items → All P (take n items)
All-take P zero items h = tt
All-take P (suc n) [] h = tt
All-take P (suc n) (x ∷ items) h = (h.0, All-take P n items h.1)

All-drop :
    {A : Type 0} (P : A → Type 0) (n : ℕ) (items : List A) → All P items → All P (drop n items)
All-drop P zero items h = h
All-drop P (suc n) [] h = tt
All-drop P (suc n) (x ∷ items) h = All-drop P n items h.1

if-All :
    {A : Type 0} (P : A → Type 0) (b : Bool) (xs found : List A)
    → (if b then some xs else none) ≡ some found
    → All P xs
    → All P found
if-All P true xs found e h = subst (All P) (some-eq e) h
if-All P false xs found e h = absurd cc

slice-All :
    {A : Type 0} (P : A → Type 0) (i j : ℤ) (items found : List A)
    → slice i j items ≡ some found
    → All P items
    → All P found
unfolding slice
slice-All P (pos i) (pos j) items found e h =
    if-All P (leb i j && leb j (length items)) (take (j - i) (drop i items)) found e
      (All-take P (j - i) (drop i items) (All-drop P i items h))
slice-All P (pos i) (negsuc j) items found e h = absurd cc
slice-All P (negsuc i) j items found e h = absurd cc

-- What a predicate on objects says of a response.
unfoldable pub Shows : {D A : Type 0} → (A → Type 0) → Event D A → Type 0
Shows P (did w b) = Unit {0}
Shows P (sent status (item a)) = P a
Shows P (sent status (listing page)) = All P page.items
Shows P (sent status body) = Unit {0}
Shows P panicked = Unit {0}

pub if-Events :
    {D A : Type 0} (P : Event D A → Type 0) (b : Bool) (xs ys : List (Event D A))
    → All P xs
    → All P ys
    → All P (if b then xs else ys)
if-Events P true xs ys h k = h
if-Events P false xs ys h k = k

pub elim-Events :
    {D A X : Type 0} (P : Event D A → Type 0) (o : Option X) (xs : List (Event D A))
    (ys : X → List (Event D A))
    → All P xs
    → ((x : X) → All P (ys x))
    → All P (elim o as (λ _. List (Event D A)) [ none ↦ xs | some x ↦ ys x ])
elim-Events P none xs ys h k = h
elim-Events P (some x) xs ys h k = k x

send_slice-Shows :
    (D : Type 0) {A : Type 0} (P : A → Type 0) (p : Pagination) (n : ℕ) (i j : ℤ) (items : List A)
    (o : Option (List A))
    → slice i j items ≡ o
    → All P items
    → All (Shows {D = D} P) (send_slice p n o)
unfolding send_slice Shows
send_slice-Shows D P p n i j items none e h = (tt, tt)
send_slice-Shows D P p n i j items (some found) e h = (slice-All P i j items found e h, tt)

-- A page shows what the list has.
pub send_page-Shows :
    (D : Type 0) {A : Type 0} (P : A → Type 0) (missing : ℤ → Body A) (q : PageQuery)
    (items : List A)
    → ((n : ℤ) → Shows {D = D} P (sent 404 (missing n)))
    → All P items
    → All (Shows {D = D} P) (send_page missing q items)
unfolding send_page
send_page-Shows D P missing q items absent h =
    let p = new_pagination q.page q.page_size (length items) in
    if-Events (Shows {D = D} P) (has_page p) _ _ (absent p.page, tt)
      (send_slice-Shows D P p (length items) (skip p) (end p) items _ refl h)

-- The loop keeps what is readable.
pub keep-All :
    {A : Type 0} (readable : A → Bool) (found : List A)
    → All (λ a. readable a ≡ true) (keep readable found)
unfolding keep
keep-All readable [] = tt
keep-All readable (a ∷ found) = elim (Bool-cases (readable a)) [
  | inl yes_ ↦ rw yes_ (yes_, keep-All readable found)
  | inr no_ ↦ rw no_ (keep-All readable found)
]

pub All-map :
    {A B : Type 0} (P : B → Type 0) (f : A → B) (xs : List A)
    → ((a : A) → P (f a))
    → All P (map f xs)
All-map P f [] h = tt
All-map P f (x ∷ xs) h = (h x, All-map P f xs h)
