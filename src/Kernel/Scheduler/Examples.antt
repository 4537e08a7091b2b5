-- ===== src/Kernel/Scheduler/Examples.antt =====
-- The first two terminals of the sample machine.
use ece391_computer_systems.Base.{ℕ, ◌+◌, ◌<◌, ◌≡◌, arith}
use ece391_computer_systems.Console.{video}
use ece391_computer_systems.Kernel.Sample.{sample, machine, image}
use ece391_computer_systems.Kernel.Scheduler.{switch_terminal}
use ece391_computer_systems.Kernel.Scheduler.Switching.{switch_terminal-back}

switch_terminal-back_example :
    ((i : ℕ)
      → i < 4096
      → (switch_terminal machine (switch_terminal machine sample 1) 0).console.mem (video + i)
        ≡ image (video + i))
    × ((j : ℕ)
        → j < 127
        → (switch_terminal machine (switch_terminal machine sample 1) 0).keyb_buff j
          ≡ sample.keyb_buff j)
    × ((switch_terminal machine (switch_terminal machine sample 1) 0).curr_term_id ≡ 0)
    × ((switch_terminal machine (switch_terminal machine sample 1) 0).kbb_ind ≡ 0)
switch_terminal-back_example = switch_terminal-back machine sample 1 (omega arith)
