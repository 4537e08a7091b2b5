-- ===== src/Kernel/Keyboard/Examples.antt =====
-- Keys on the sample machine, with two characters typed.
use ece391_computer_systems.Base.{ℕ, ◌+◌, ◌<◌, ◌≡◌, pos, some, arith}
use ece391_computer_systems.Kernel.{Kernel}
use ece391_computer_systems.Kernel.Sample.{sample, machine}
use ece391_computer_systems.Kernel.Terminals.{terminal_read}
use ece391_computer_systems.Kernel.Keyboard.{press_key}
use ece391_computer_systems.Kernel.Keyboard.Typing.{terminal_read-press_enter}

terminal_read-press_enter_example :
    (k' : Kernel) × (terminal_read machine (press_key sample 0x1c) 50000 (pos 10)
      ≡ some (pos (2 + 1), k'))
    × ((j : ℕ) → j < 2 → k'.console.mem (50000 + j) ≡ sample.keyb_buff j)
    × (k'.console.mem (50000 + 2) ≡ 10)
terminal_read-press_enter_example =
    terminal_read-press_enter machine sample 50000 10 (omega arith) (omega arith) (omega arith)
      (λ j lt. ground arith)
