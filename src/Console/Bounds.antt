-- ===== src/Console/Bounds.antt =====
-- The cursor stays on the screen.
use ece391_computer_systems.Base.{ℕ, zero, suc, ◌+◌, ◌-◌, ◌*◌, ◌≤◌, ◌<◌, Mem, arith}
use ece391_computer_systems.Console.{
  Console, video, last_char, erase_at, put_char, putc, update_cursor, next_row,
}

pub record OnScreen (s : Console) : Type 0 where
  pub column : s.screen_x < 80
  pub row : s.screen_y < 25

-- The backspace goes back, and not in front of the first cell.
pub last_char-le :
    (m : Mem) (vmem y x : ℕ)
    → x < 80
    → ((last_char m vmem y x).0 < 80)
      × (80 * (last_char m vmem y x).1 + (last_char m vmem y x).0 ≤ 80 * y + x)
unfolding last_char
last_char-le m vmem zero zero h = ground arith
last_char-le m vmem (suc y) zero h = ground (arith, last_char-le m vmem y 79)
last_char-le m vmem zero (suc x) h = ground (arith, last_char-le m vmem zero x)
last_char-le m vmem (suc y) (suc x) h = ground (arith, last_char-le m vmem (suc y) x)

pub erase_at-le :
    (m : Mem) (vmem x y : ℕ)
    → x < 80
    → ((erase_at m vmem x y).0 < 80)
      × (80 * (erase_at m vmem x y).1 + (erase_at m vmem x y).0 ≤ 80 * y + (x - 1))
unfolding erase_at
erase_at-le m vmem zero zero h = ground arith
erase_at-le m vmem zero (suc y) h = ground (arith, last_char-le m vmem y 79)
erase_at-le m vmem (suc x) y h = ground arith

-- With the cursor on the 80 x 25 screen, every character that `putc` or `background_putc` prints,
-- newlines and backspaces included, leaves it there.
pub put_char-OnScreen : (vmem c : ℕ) (s : Console) → OnScreen s → OnScreen (put_char vmem c s)
unfolding put_char next_row update_cursor
put_char-OnScreen vmem c s v = ground (arith, erase_at-le s.mem vmem s.screen_x s.screen_y)

pub putc-OnScreen : (c : ℕ) (s : Console) → OnScreen s → OnScreen (putc c s)
unfolding putc
putc-OnScreen c s v = put_char-OnScreen video c s v
