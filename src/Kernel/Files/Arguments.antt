-- ===== src/Kernel/Files/Arguments.antt =====
-- The calls that hand a program its arguments and the video memory.
use ece391_computer_systems.Base.{
  ℕ, ◌%◌, zero, suc, ◌+◌, ◌-◌, ◌≤◌, ◌<◌, ◌≡◌, ◌≢◌, ◌⊎◌, ◌&&◌, ltb, leb, if◌then◌else◌, ℤ, pos,
  success, failure, arith, refl, ne→==_false, le→ltb_false,
}
use ece391_computer_systems.Libc.{strlen}
use ece391_computer_systems.FileSystem.{put_bytes}
use ece391_computer_systems.FileSystem.Listing.{put_bytes_lem}
use ece391_computer_systems.Kernel.{Kernel, with_mem}
use ece391_computer_systems.Kernel.Files.{find_space, sys_getargs, sys_vidmap}

-- The index found is that of the first space.
find_space-first :
    (left : ℕ) (command : ℕ → ℕ) (i at : ℕ)
    → i ≤ at
    → at < i + left
    → command at ≡ 32
    → ((j : ℕ) → j < at → command j ≢ 32)
    → find_space left command i ≡ at
unfolding find_space
find_space-first zero command i at lo hi space before = omega arith
find_space-first (suc left) command i at lo hi space before =
    ground (arith, before i, find_space-first left command (i + 1) at)

find_space-none :
    (left : ℕ) (command : ℕ → ℕ) (i : ℕ)
    → ((j : ℕ) → j < i + left → command j ≢ 32)
    → find_space left command i ≡ i + left
unfolding find_space
find_space-none zero command i before = omega arith
find_space-none (suc left) command i before =
    ground (arith, before i, find_space-none left command (i + 1))

plus_zero : (n : ℕ) → 0 + n ≡ n
plus_zero n = omega arith

-- A command without a space has no arguments: the call fails and changes nothing.
pub sys_getargs-none :
    (k : Kernel) (buf len : ℕ) (nbytes : ℤ)
    → strlen k.current_command 0 ≡ len
    → ((j : ℕ) → j < len → k.current_command j ≢ 32)
    → sys_getargs k buf nbytes ≡ (failure, k)
unfolding sys_getargs
sys_getargs-none k buf len nbytes text before =
    rw
      (text, find_space-none len k.current_command 0 (λ j h. before j (omega arith)), plus_zero len)
      (ground arith)

-- The arguments are what follows the first space of the command: where they fit with their
-- terminator into `n` bytes, fewer than 2 GB, the call succeeds, puts them with the terminator into
-- the buffer, and changes no other byte of memory.
pub sys_getargs-fits :
    (k : Kernel) (buf len space n : ℕ)
    → strlen k.current_command 0 ≡ len
    → space < len
    → k.current_command space ≡ 32
    → ((j : ℕ) → j < space → k.current_command j ≢ 32)
    → len - space ≤ n
    → n < 2147483648
    → (k' : Kernel) × (sys_getargs k buf (pos n) ≡ (success, k'))
      × ((a : ℕ)
          → k'.console.mem a ≡ (
              if leb buf a && ltb a (buf + (len - space))
              then k.current_command (space + 1 + (a - buf))
              else k.console.mem a))
unfolding sys_getargs
sys_getargs-fits k buf len space n text inside here before fits small =
    let args = λ (i : ℕ). k.current_command (space + 1 + i) in
    (
      with_mem k (put_bytes k.console.mem buf args (len - space)),
      rw
          (
            text,
            find_space-first len k.current_command 0 space (omega arith) (omega arith) here before,
            ne→==_false space len (omega arith),
            le→ltb_false (n % 4294967296) (len - space) (omega arith),
          )
          refl,
      put_bytes_lem k.console.mem buf args (len - space),
    )

-- `sys_vidmap` writes the address 132 MB through its argument exactly if this is not null and lies
-- from 128 MB to 132 MB, both included; otherwise it fails and changes nothing.
pub sys_vidmap_lem :
    (k : Kernel) (screen_start : ℕ)
    → ((0x8000000 ≤ screen_start)
        → (screen_start ≤ 0x8400000)
        → (sys_vidmap k screen_start).0 ≡ success)
      × ((screen_start < 0x8000000) ⊎ (0x8400000 < screen_start)
          → sys_vidmap k screen_start ≡ (failure, k))
unfolding sys_vidmap
sys_vidmap_lem k a = (λ lo hi. ground arith, λ out. ground arith)
