-- ===== src/Paging.antt =====
-- The page tables that page_init of student-distrib/naman_page.c builds. The fields that every
-- entry sets to 0 are left out: page_write_through, accessed, dirty, avail, page_attribute_table.
pub mod Mapping
mod Examples
use ece391_computer_systems.Base.{
  ℕ, ◌+◌, ◌-◌, ◌*◌, ◌/◌, ◌%◌, Bool, true, false, ◌&&◌, Option, none, some, ◌==◌, ltb, leb,
  if◌then◌else◌,
}
use ece391_computer_systems.Kernel.{UserPage}

-- An entry of the directory or of a table. `base_address` counts 4 MB pages where `page_size` is 1,
-- and 4 KB pages otherwise.
pub record Entry : Type 0 where
  pub present : ℕ
  pub read_or_write : ℕ
  pub user_or_supervisor : ℕ
  pub page_cache_disabled : ℕ
  pub page_size : ℕ
  pub global_bit : ℕ
  pub base_address : ℕ

-- The directory and the two tables, with the pages that the tables stand in.
pub record Pages : Type 0 where
  pub pages_directory : ℕ → Entry
  pub page_4k_tables : ℕ → Entry
  pub vid_map_table : ℕ → Entry
  pub page_4k_at : ℕ
  pub vid_map_at : ℕ

-- 0xB8000 / 4096.
abbrev pub video_index : ℕ
video_index = 184

abbrev pub kernel_entry : Entry
kernel_entry = record {
  present = 1;
  read_or_write = 1;
  user_or_supervisor = 0;
  page_cache_disabled = 0;
  page_size = 1;
  global_bit = 1;
  base_address = 1;
}

-- An entry that leads to the 4 KB page `base`, or to the table that stands there.
abbrev pub small_entry : ℕ → ℕ → Entry
small_entry user base = record {
  present = 1;
  read_or_write = 1;
  user_or_supervisor = user;
  page_cache_disabled = 1;
  page_size = 0;
  global_bit = 0;
  base_address = base;
}

pub init_directory : Pages → ℕ → Entry
init_directory p i =
    if i == 0
    then small_entry 0 p.page_4k_at
    else if i == 1
    then kernel_entry
    else if i == 33
    then small_entry 1 p.vid_map_at
    else if ltb i 1024
    then record (p.pages_directory i) { present = 0; read_or_write = 1 }
    else p.pages_directory i

-- A set entry of a table keeps the fields that a table entry does not have as they are 0.
pub init_video : Pages → ℕ → Entry
init_video p i =
    if leb video_index i && leb i (video_index + 3)
    then small_entry 0 i
    else if ltb i 1024
    then record (p.page_4k_tables i) { present = 0 }
    else p.page_4k_tables i

pub init_vidmap : Pages → ℕ → Entry
init_vidmap p i =
    if leb i 3
    then small_entry 1 (video_index + i)
    else if ltb i 1024
    then record (p.vid_map_table i) { present = 0 }
    else p.vid_map_table i

pub page_init : Pages → Pages
page_init p = record p {
  pages_directory = init_directory p;
  page_4k_tables = init_video p;
  vid_map_table = init_vidmap p;
}

-- `setup_PID` writes the entry of the page at 128 MB.
abbrev pub user_entry : UserPage → Entry
user_entry u = record {
  present = if u.present then 1 else 0;
  read_or_write = 1;
  user_or_supervisor = if u.user_or_supervisor then 1 else 0;
  page_cache_disabled = 0;
  page_size = 1;
  global_bit = 0;
  base_address = u.base_address;
}

pub with_user_page : UserPage → Pages → Pages
with_user_page u p = record p {
  pages_directory = λ i. if i == 32 then user_entry u else p.pages_directory i;
}
