-- ===== src/Paging/Examples.antt =====
-- Tables at the pages 5 and 6.
use ece391_computer_systems.Base.{◌≡◌, some, none, true, arith, refl}
use ece391_computer_systems.Kernel.{UserPage, physical}
use ece391_computer_systems.Paging.{Pages, kernel_entry, page_init, with_user_page}
use ece391_computer_systems.Paging.Mapping.{walk, walk-page_init, walk-with_user_page}

abbrev blank : Pages
blank = record {
  pages_directory = λ i. kernel_entry;
  page_4k_tables = λ i. kernel_entry;
  vid_map_table = λ i. kernel_entry;
  page_4k_at = 5;
  vid_map_at = 6;
}

abbrev third : UserPage
third = record { present = true; user_or_supervisor = true; base_address = 5 }

walk-page_init_example : walk (page_init blank) 0 ≡ none
walk-page_init_example = walk-page_init blank 0 (omega arith) (omega arith)

walk-with_user_page_example :
    walk (with_user_page third (page_init blank)) 0x8048000 ≡ some (physical third 0x8048000, 1)
walk-with_user_page_example =
    walk-with_user_page blank third 0x8048000 (omega arith) refl refl (omega arith) (omega arith)
