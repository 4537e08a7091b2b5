-- ===== src/Console.antt =====
-- The text screen of MP3_FinalProj_Kernel/student-distrib/lib.c: video memory, cursor, scrolling.
-- Video memory is part of the machine's memory, at its physical address. What the code writes to
-- a port is appended to `ports`, oldest first.
pub mod Scrolling
pub mod Bounds
pub mod Printing
pub mod Frame
pub mod Cursor
pub mod Printf
mod Examples
use ece391_computer_systems.Base.{
  ℕ, zero, suc, ◌+◌, ◌-◌, ◌*◌, ◌/◌, ◌%◌, Bool, true, false, ◌||◌, List, [], ◌∷◌, ◌++◌, ◌==◌, ltb,
  leb, if◌then◌else◌, Mem, store,
}
use ece391_computer_systems.Libc.{itoa}

pub record Console : Type 0 where
  pub mem : Mem
  pub screen_x : ℕ
  pub screen_y : ℕ
  pub ports : List (ℕ × ℕ)

abbrev pub video : ℕ
video = 753664

abbrev pub num_cols : ℕ
num_cols = 80

abbrev pub num_rows : ℕ
num_rows = 25

abbrev pub attrib : ℕ
attrib = 7

-- `outb(data, port)`.
abbrev pub outb : ℕ → ℕ → List (ℕ × ℕ) → List (ℕ × ℕ)
outb byte port log = log ++ ((port, byte) ∷ [])

-- The address of the character at column `x` of row `y`; its attribute is the next byte.
abbrev pub cell : ℕ → ℕ → ℕ → ℕ
cell vmem x y = vmem + 2 * (80 * y + x)

abbrev pub put_cell : Mem → ℕ → ℕ → Mem
put_cell m a c = store (store m a c) (a + 1) attrib

-- The loop of `clear`, from cell `i` on, with the rounds left.
pub clear_loop : Mem → ℕ → ℕ → Mem
clear_loop m i zero = m
clear_loop m i (suc left) = clear_loop (put_cell m (video + 2 * i) 32) (i + 1) left

unfoldable pub clear : Console → Console
clear s = record s { mem = clear_loop s.mem 0 2000; screen_x = 0; screen_y = 0 }

-- The loops of `scroll_down`: one row, all rows but the last, and the last row.
pub scroll_row : Mem → ℕ → ℕ → ℕ → Mem
scroll_row m i j zero = m
scroll_row m i j (suc left) =
    let m1 = store m (cell video j i) (m (cell video j (i + 1))) in
    scroll_row (store m1 (cell video j i + 1) (m1 (cell video j (i + 1) + 1))) i (j + 1) left

pub scroll_rows : Mem → ℕ → ℕ → Mem
scroll_rows m i zero = m
scroll_rows m i (suc left) = scroll_rows (scroll_row m i 0 80) (i + 1) left

pub blank_row : Mem → ℕ → ℕ → Mem
blank_row m j zero = m
blank_row m j (suc left) = blank_row (put_cell m (cell video j 24) 32) (j + 1) left

pub scroll_down : Mem → Mem
scroll_down m = blank_row (scroll_rows m 0 24) 0 80

-- The position goes to the cursor registers of the VGA controller as two bytes.
unfoldable pub update_cursor : Console → ℕ → ℕ → Console
update_cursor s x y =
    let at = (y * 80 + x) % 65536 in
    record s {
      ports =
          outb (at / 256) 0x3d5 (outb 0x0e 0x3d4 (outb (at % 256) 0x3d5 (outb 0x0f 0x3d4 s.ports)));
    }

-- What a port reads, given all that was written to the ports before: the devices' part.
abbrev pub Devices : Type 0
Devices = List (ℕ × ℕ) → ℕ → ℕ

-- Two bytes from the cursor registers, and the port writes that select them.
unfoldable pub get_cursor_position : Devices → Console → ℕ × Console
get_cursor_position inb s =
    let low = outb 0x0f 0x3d4 s.ports in
    let high = outb 0x0e 0x3d4 low in
    (inb low 0x3d5 + 256 * inb high 0x3d5, record s { ports = high })

unfoldable pub write_switch : Devices → Console → Console
write_switch inb s =
    let (at, s') = get_cursor_position inb s in record s' { screen_x = at % 80; screen_y = at / 80 }

-- `screen_y` after it was increased: the last row is kept free by scrolling.
pub next_row : Console → ℕ → ℕ → Console
next_row s x y =
    if y == 25
    then record s { mem = scroll_down s.mem; screen_x = x; screen_y = 24 }
    else record s { screen_x = x; screen_y = y % 25 }

-- The `while` loop of the backspace branch: back over blank cells, at most to the first one.
pub last_char : Mem → ℕ → ℕ → ℕ → ℕ × ℕ
last_char m vmem zero zero = (0, 0)
last_char m vmem (suc y) zero =
    elim (m (cell vmem 0 (suc y)) == 32 || (m (cell vmem 0 (suc y)) == 0)) [
      | true ↦ last_char m vmem y 79
      | false ↦ (0, suc y)
    ]
last_char m vmem y (suc x) =
    elim (m (cell vmem (suc x) y) == 32 || (m (cell vmem (suc x) y) == 0)) [
      | true ↦ last_char m vmem y x
      | false ↦ (suc x, y)
    ]

-- Where a backspace at column `x` of row `y` erases.
pub erase_at : Mem → ℕ → ℕ → ℕ → ℕ × ℕ
erase_at m vmem zero zero = (0, 0)
erase_at m vmem zero (suc y) = last_char m vmem y 79
erase_at m vmem (suc x) y = (x, y)

-- The cell before the cursor; before column 0 of row 0 these are the two bytes before `vmem`.
abbrev pub before_cursor : Console → ℕ → ℕ
before_cursor s vmem = cell vmem s.screen_x s.screen_y - 2

-- The last line of both functions.
abbrev pub moved : Console → Console
moved t = update_cursor t t.screen_x t.screen_y

-- The end of the backspace branch, at the cell that is erased.
abbrev pub erase : ℕ → Console → ℕ × ℕ → Console
erase vmem s at = moved (record s {
  mem = put_cell s.mem (cell vmem at.0 at.1) 0;
  screen_x = at.0 % 80;
  screen_y = (at.1 + at.0 / 80) % 25;
})

-- The text of `putc` and of `background_putc`, which differ in the video memory that they write.
pub put_char : ℕ → ℕ → Console → Console
put_char vmem c s =
    if c == 10 || (c == 13)
    then moved (next_row s 0 (s.screen_y + 1))
    else if c == 0
    then (if s.mem (before_cursor s vmem) == 62
        then s
        else erase vmem s (erase_at s.mem vmem s.screen_x s.screen_y))
    else moved (
        next_row (record s { mem = put_cell s.mem (cell vmem s.screen_x s.screen_y) c })
          ((s.screen_x + 1) % 80) (s.screen_y + (s.screen_x + 1) / 80))

unfoldable pub putc : ℕ → Console → Console
putc c s = put_char video c s

unfoldable pub background_putc : ℕ → ℕ → Console → Console
background_putc c term s = put_char (video + (term + 1) * 4096) c s

-- `puts`, by the number of characters before the terminator that the loop still may read.
pub puts_loop : ℕ → Console → ℕ → ℕ → ℕ × Console
puts_loop zero s str index = (index, s)
puts_loop (suc fuel) s str index =
    let rest = puts_loop fuel (putc (s.mem (str + index)) s) str (index + 1) in
    if s.mem (str + index) == 0 then (index, s) else rest

pub test_interrupts_loop : Mem → ℕ → ℕ → Mem
test_interrupts_loop m i zero = m
test_interrupts_loop m i (suc left) =
    test_interrupts_loop (store m (video + 2 * i) ((m (video + 2 * i) + 1) % 256)) (i + 1) left

pub puts : Console → ℕ → ℕ × Console
unfolding puts_loop
puts s str = puts_loop 4294967296 s str 0

pub test_interrupts : Console → Console
test_interrupts s = record s { mem = test_interrupts_loop s.mem 0 2000 }

-- The ordinary characters of a `printf` format, and its `%d` at a value that is not negative, with
-- the address of the local array that `itoa` fills.
pub print_text : List ℕ → Console → Console
print_text [] s = s
print_text (c ∷ cs) s = print_text cs (putc c s)

pub print_number : ℕ → ℕ → Console → Console
print_number conv_buf value s = (puts (record s { mem = itoa s.mem value conv_buf 10 }) conv_buf).1
