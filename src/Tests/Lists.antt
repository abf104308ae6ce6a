-- ===== src/Tests/Lists.antt =====
-- Seven rows on two pages.
use free_fire_room.Prelude.{ℕ, ◌%◌, ◌/◌, ◌≡◌, List, [], ◌∷◌, arith}
use free_fire_room.Paging.{default_page_size, paginate}
use free_fire_room.Paging.Pages.{get_elem?, get_elem?-paginate}

abbrev seven : List ℕ
seven = 1 ∷ 2 ∷ 3 ∷ 4 ∷ 5 ∷ 6 ∷ 7 ∷ []

get_elem?-paginate_example :
    get_elem? (paginate seven (6 / 5) default_page_size).items (6 % 5) ≡ get_elem? seven 6
get_elem?-paginate_example = get_elem?-paginate seven 6 (omega arith)
