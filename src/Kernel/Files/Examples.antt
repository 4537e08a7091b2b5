-- ===== src/Kernel/Files/Examples.antt =====
-- The calls on the sample machine.
use ece391_computer_systems.Base.{ℕ, ◌<◌, ◌≡◌, ◌≢◌, pos, success, arith, refl, some}
use ece391_computer_systems.Libc.{strlen, strncmp}
use ece391_computer_systems.FileSystem.{read_dentry_by_name, load_dentry}
use ece391_computer_systems.Kernel.Sample.{sample, machine, image}
use ece391_computer_systems.Kernel.Files.{sys_open, sys_close}
use ece391_computer_systems.Kernel.Files.Opening.{
  IsFirstFree, IsOpen, fds_of, sys_open-free, sys_close-sys_open,
}

third_free : IsFirstFree (fds_of sample) 3
third_free = record {
  behind = omega arith;
  within = omega arith;
  busy_before = λ j lo hi. ground arith;
  free = λ l e. ground arith;
}

found_a : read_dentry_by_name sample.fs sample.console.mem 64 ≡ some (load_dentry image 64)
unfolding read_dentry_by_name strncmp strlen
found_a = refl

sys_open-free_example :
    ((sys_open sample 64).0 ≡ pos 3)
    × IsOpen 64 (load_dentry image 64) (fds_of (sys_open sample 64).1 3)
    × ((j : ℕ) → j < 8 → j ≢ 3 → fds_of (sys_open sample 64).1 j ≡ fds_of sample j)
sys_open-free_example =
    sys_open-free sample 64 (load_dentry image 64) 3 found_a (omega arith) third_free (omega arith)

sys_close-sys_open_example :
    ((sys_close machine (sys_open sample 64).1 (pos 3)).0 ≡ success)
    × IsFirstFree (fds_of (sys_close machine (sys_open sample 64).1 (pos 3)).1) 3
sys_close-sys_open_example =
    sys_close-sys_open machine sample 64 (load_dentry image 64) 3 found_a third_free (omega arith)

command_length : strlen sample.current_command 0 ≡ 3
unfolding strlen
command_length = refl
