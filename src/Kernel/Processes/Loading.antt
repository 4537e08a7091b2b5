-- ===== src/Kernel/Processes/Loading.antt =====
-- The program in memory: what sys_execute reads before it enters the program.
use ece391_computer_systems.Base.{ℕ, Mem}
use ece391_computer_systems.Kernel.{Kernel, Machine, UserPage, physical}

module _ (w : Machine) (k : Kernel) (page : UserPage) (m : Mem) (command inode size stop : ℕ) where
  -- Where the program lies.
  abbrev pub program : ℕ
  program = physical page 0x08048000
