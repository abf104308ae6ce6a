-- ===== src/Paging.antt =====
-- The pages of a list: backend/app/bot/paging.py. Keyboards are left out; a negative index, which the
-- code reads as 0, does not occur.
pub mod Pages
use free_fire_room.Prelude.{
  ℕ, zero, suc, ◌+◌, ◌-◌, ◌*◌, ◌/◌, Option, none, some, List, [], ◌∷◌, leb, ltb, ◌==◌,
  if◌then◌else◌, length, take, drop,
}

abbrev pub default_page_size : ℕ
default_page_size = 5

pub record Page {ℓ} (A : Type ℓ) : Type ℓ where
  pub items : List A
  pub index : ℕ
  pub pages : ℕ
  pub total : ℕ

abbrev pub at_least : ℕ → ℕ → ℕ
at_least a b = if ltb a b then b else a

abbrev pub at_most : ℕ → ℕ → ℕ
at_most a b = if ltb a b then a else b

-- how many pages a list has, at least one
abbrev pub page_count : ℕ → ℕ → ℕ
page_count total size = at_least 1 ((total + size - 1) / size)

module _ {ℓ} {A : Type ℓ} where
  -- `Page.first`: by the default size, whatever the size of the page
  unfoldable pub first : Page A → ℕ
  first page = if page.total == 0 then 0 else page.index * default_page_size + 1

  unfoldable pub last : Page A → ℕ
  unfolding first
  last page = at_most page.total (first page + length page.items - 1)

  unfoldable pub paginate : List A → ℕ → ℕ → Page A
  paginate rows index size =
      let pages = page_count (length rows) size in
      let index' = at_most index (pages - 1) in
      record {
        items = take size (drop (index' * size) rows);
        index = index';
        pages = pages;
        total = length rows;
      }
