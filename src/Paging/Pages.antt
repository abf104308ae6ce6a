-- ===== src/Paging/Pages.antt =====
-- What the pages of the default size show.
use free_fire_room.Prelude.{
  ℕ, zero, suc, ◌+◌, ◌-◌, ◌*◌, ◌/◌, ◌%◌, ◌≤◌, ◌<◌, ◌≡◌, refl, Option, none, some, List, [], ◌∷◌,
  length, take, drop, ap, ◌∙◌, arith,
}
use free_fire_room.Paging.{default_page_size, at_most, page_count, first, last, paginate}

-- a page that exists is the page that is asked for
page_exists : (n total : ℕ) → n < total → at_most (n / 5) (page_count total 5 - 1) ≡ n / 5
page_exists n total h = ground arith

-- the numbers of a page, from the number of rows
last_page : (index total : ℕ) → 0 < total → at_most index (page_count total 5 - 1) * 5 < total
last_page index total h = ground arith

module _ {ℓ} {A : Type ℓ} where
  abbrev pub get_elem? : List A → ℕ → Option A
  get_elem? [] n = none
  get_elem? (x ∷ xs) zero = some x
  get_elem? (x ∷ xs) (suc n) = get_elem? xs n

  get_elem?-take : (k n : ℕ) (xs : List A) → k < n → get_elem? (take n xs) k ≡ get_elem? xs k
  get_elem?-take k zero xs h = absurd (omega arith)
  get_elem?-take k (suc n) [] h = refl
  get_elem?-take zero (suc n) (x ∷ xs) h = refl
  get_elem?-take (suc k) (suc n) (x ∷ xs) h = get_elem?-take k n xs (omega arith)

  get_elem?-drop : (k n : ℕ) (xs : List A) → get_elem? (drop n xs) k ≡ get_elem? xs (n + k)
  get_elem?-drop k zero xs = ap (get_elem? xs) (omega arith)
  get_elem?-drop k (suc n) [] = refl
  get_elem?-drop k (suc n) (x ∷ xs) =
      let e : suc (n + k) ≡ suc n + k = omega arith in
      get_elem?-drop k n xs ∙ ap (get_elem? (x ∷ xs)) e

  length-take : (n : ℕ) (xs : List A) → length (take n xs) ≡ at_most n (length xs)
  length-take zero xs = ground arith
  length-take (suc n) [] = ground arith
  length-take (suc n) (x ∷ xs) = ground (arith, length-take n xs)

  length-drop : (n : ℕ) (xs : List A) → length (drop n xs) ≡ length xs - n
  length-drop zero xs = omega arith
  length-drop (suc n) [] = omega arith
  length-drop (suc n) (x ∷ xs) = ground (arith, length-drop n xs)

  -- Row number `n` of a list stands on page `n / 5`, at place `n % 5`: with the default size, turning
  -- the pages shows every row.
  pub get_elem?-paginate :
      (rows : List A) (n : ℕ)
      → n < length rows
      → get_elem? (paginate rows (n / 5) default_page_size).items (n % 5) ≡ get_elem? rows n
  unfolding paginate
  get_elem?-paginate rows n h =
      let i = at_most (n / 5) (page_count (length rows) 5 - 1) in
      let e = page_exists n (length rows) h in
      get_elem?-take (n % 5) 5 (drop (i * 5) rows) (omega arith)
      ∙ get_elem?-drop (n % 5) (i * 5) rows
      ∙ ap (get_elem? rows) (omega arith)

  -- A page of a list with rows is one of its pages, whatever index is asked for, shows between one
  -- and five rows, and is headed by their numbers, from 1 to the number of rows.
  pub paginate-bounds :
      (rows : List A) (index : ℕ)
      → 0 < length rows
      → let page = paginate rows index default_page_size in
        (page.index < page.pages)
        × (1 ≤ first page)
        × (last page ≤ length rows)
        × (length page.items + first page ≡ last page + 1)
        × (1 ≤ length page.items)
        × (length page.items ≤ 5)
  unfolding paginate first last
  paginate-bounds rows index h =
      let i = at_most index (page_count (length rows) 5 - 1) in
      let t = length-take 5 (drop (i * 5) rows) in
      let d = length-drop (i * 5) rows in
      let l = last_page index (length rows) h in
      (ground arith, ground arith, ground arith, ground arith, ground arith, ground arith)
