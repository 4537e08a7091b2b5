-- ===== src/Paging/Mapping.antt =====
-- What the tables map, by the walk of the processor.
use ece391_computer_systems.Base.{
  ℕ, ◌+◌, ◌-◌, ◌*◌, ◌/◌, ◌%◌, ◌≤◌, ◌<◌, ◌≡◌, ◌≢◌, true, ◌&&◌, Option, none, some, ◌==◌, ltb, leb,
  if◌then◌else◌, arith,
}
use ece391_computer_systems.Kernel.{UserPage, physical}
use ece391_computer_systems.Paging.{
  Pages, Entry, page_init, init_directory, init_video, init_vidmap, with_user_page,
}

-- The walk of the processor over a 32-bit address: the physical address and the user bit, both
-- levels together, or a page fault.
abbrev pub walk_table : Entry → Entry → ℕ → Option (ℕ × ℕ)
walk_table d t a =
    if t.present == 0
    then none
    else some (t.base_address * 4096 + a % 4096, d.user_or_supervisor * t.user_or_supervisor)

abbrev pub walk_entry : Pages → Entry → ℕ → Option (ℕ × ℕ)
walk_entry p d a =
    if d.present == 0
    then none
    else if d.page_size == 1
    then some (d.base_address * 4194304 + a % 4194304, d.user_or_supervisor)
    else if d.base_address == p.page_4k_at
    then walk_table d (p.page_4k_tables (a / 4096 % 1024)) a
    else walk_table d (p.vid_map_table (a / 4096 % 1024)) a

abbrev pub walk : Pages → ℕ → Option (ℕ × ℕ)
walk p a = walk_entry p (p.pages_directory (a / 4194304)) a

-- After `page_init`, with the two tables in different pages, an address below 4 GB is mapped
-- exactly where it lies in the kernel's page from 4 MB to 8 MB or in the video memory with the
-- three terminal pages behind it, to itself and for the kernel only, or in the four pages from 132
-- MB on, to these video pages and for user programs too. In particular address 0 is not mapped.
pub walk-page_init :
    (p : Pages) (a : ℕ)
    → p.page_4k_at ≢ p.vid_map_at
    → a < 4294967296
    → walk (page_init p) a ≡ (
        if leb 0x400000 a && ltb a 0x800000
        then some (a, 0)
        else if leb 0xb8000 a && ltb a 0xbc000
        then some (a, 0)
        else if leb 0x8400000 a && ltb a 0x8404000
        then some (a - 0x8400000 + 0xb8000, 1)
        else none)
unfolding page_init init_directory init_video init_vidmap
walk-page_init p a apart lt = ground arith

-- With the page of a program set up, an address from 128 MB up to the video page at 132 MB is
-- mapped for user programs, to its physical address.
pub walk-with_user_page :
    (p : Pages) (u : UserPage) (a : ℕ)
    → p.page_4k_at ≢ p.vid_map_at
    → u.present ≡ true
    → u.user_or_supervisor ≡ true
    → 0x8000000 ≤ a
    → a < 0x8401000
    → walk (with_user_page u (page_init p)) a ≡ some (physical u a, 1)
unfolding with_user_page page_init init_directory init_video init_vidmap
walk-with_user_page p u a apart on user lo hi = ground arith
