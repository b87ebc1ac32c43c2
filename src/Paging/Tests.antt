-- ===== src/Paging/Tests.antt =====
-- Paging with empty tables and the frames from 2 MB on.
use shed_kernel.Prelude.{◌+◌, ◌%◌, ◌≡◌, refl, inr, some, arith, is_some, ltb, ◌≢◌}
use shed_kernel.Paging.{Paging, map_user_page, user_sbrk, ensure_table, alloc_page_frame}
use shed_kernel.Paging.Walk.{walk, walk-map_user_page}
use shed_kernel.Paging.Sbrk.{user_sbrk-remaps}
use shed_kernel.Paging.Growth.{user_sbrk-ends}

abbrev empty_tables : Paging
empty_tables = record { memory = λ a. 0; next_free_page = 2097152 }

walk-map_user_page_example :
    walk 2684354592 (map_user_page 2684354560 1048576 empty_tables)
    ≡ some (1048576 + 2684354592 % 4096)
unfolding ensure_table alloc_page_frame
walk-map_user_page_example =
    walk-map_user_page 2684354560 1048576 2684354592 empty_tables (omega arith) refl refl
      (inr (omega arith))

-- The first page of the user heap, mapped to the frame at 2 MB, with a table behind it.
abbrev one_page : Paging
one_page = map_user_page 3758096384 2097152 (record { memory = λ a. 0; next_free_page = 2101248 })

one_page-walk : walk 3758096400 one_page ≡ some 2097168
unfolding ensure_table alloc_page_frame
one_page-walk =
    walk-map_user_page 3758096384 2097152 3758096400
      (record { memory = λ a. 0; next_free_page = 2101248 }) (omega arith) refl refl
      (inr (omega arith))

user_sbrk-remaps_example :
    (p' : Paging) × (user_sbrk 2 3758096484 100 one_page ≡ some (3758096484, 3758096484 + 100, p'))
    × (walk 3758096400 p' ≡ some (2105344 + 3758096400 % 4096))
    × (2097168 ≢ 2105344 + 3758096400 % 4096)
unfolding map_user_page ensure_table alloc_page_frame
user_sbrk-remaps_example =
    user_sbrk-remaps 3758096484 100 3758096400 2097168 one_page (omega arith) (omega arith)
      (omega arith) refl (omega arith) (omega arith) (inr (omega arith)) refl one_page-walk
      (omega arith)

user_sbrk-ends_example : is_some (user_sbrk 5 3758096384 10000 empty_tables) ≡ ltb 2101248 0x800000
unfolding ensure_table alloc_page_frame
user_sbrk-ends_example =
    user_sbrk-ends 5 3758096384 10000 empty_tables (omega arith) (omega arith) (omega arith)
      (omega arith) (inr (omega arith))
