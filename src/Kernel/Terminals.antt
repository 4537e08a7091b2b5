-- ===== src/Kernel/Terminals.antt =====
-- student-distrib/terminal.c: reading a typed line, writing to the screen, and the three terminals.
-- `enter_flag` is set by the keyboard handler: the spin loop ends in the state that the machine
-- gives, or never.
pub mod Lines
use ece391_computer_systems.Base.{
  ℕ, zero, suc, ◌+◌, ◌-◌, ◌*◌, Option, none, some, ◌==◌, ltb, leb, if◌then◌else◌, Mem, store, ℤ,
  pos, negsuc, success, failure,
}
use ece391_computer_systems.Libc.{memset}
use ece391_computer_systems.Console.{Console, putc, background_putc}
use ece391_computer_systems.Kernel.{Kernel, Machine, Term, with_mem}

-- `while(enter_flag == 0){}`
abbrev pub wait_enter : Machine → Kernel → Option Kernel
wait_enter w k = if k.enter_flag == 0 then w.after_enter k else some k

-- The copying loop, from character `i` on, with the rounds left: the count and the memory.
pub copy_line : ℕ → (ℕ → ℕ) → Mem → ℕ → ℕ → ℕ × Mem
copy_line zero line m buf i = (i, m)
copy_line (suc left) line m buf i =
    let rest = copy_line left line (store m (buf + i) (line i)) buf (i + 1) in
    if line i == 0 then (i, m) else rest

-- What runs once Enter was pressed.
abbrev pub take_line : ℕ → ℕ → Option Kernel → Option (ℤ × Kernel)
take_line buf n none = none
take_line buf n (some k) =
    let r = copy_line n k.keyb_buff k.console.mem buf 0 in
    some
      (pos r.0, record (with_mem k r.1) { keyb_buff = memset k.keyb_buff 0 0 127; enter_flag = 0 })

unfoldable pub terminal_read : Machine → Kernel → ℕ → ℤ → Option (ℤ × Kernel)
terminal_read w k buf (negsuc n) = some (failure, k)
terminal_read w k buf (pos n) =
    if buf == 0
    then some (failure, k)
    else take_line buf n (wait_enter w (record k { start_term = k.curr_term_id }))

-- The loop of `terminal_write`. Round `i` finds `curr_term_ID` as `at i`; the buffer is read while
-- the screen is written.
pub write_loop : ℕ → (ℕ → ℕ) → ℕ → Console → ℕ → ℕ → Console
write_loop zero at s c buf i = c
write_loop (suc left) at s c buf i =
    let byte = c.mem (buf + i) in
    write_loop left at s
      (if at i == s then (if byte == 0 then c else putc byte c) else background_putc byte s c) buf
      (i + 1)

unfoldable pub terminal_write : Machine → Kernel → ℕ → ℤ → ℤ × Kernel
terminal_write w k buf (negsuc n) = (failure, k)
terminal_write w k buf (pos n) = if buf == 0 then (failure, k) else (
  pos n,
  record k {
    start_term = k.curr_term_id;
    console = write_loop n w.term_at k.curr_term_id k.console buf 0;
  },
)

pub terminal_open : ℕ → ℤ
terminal_open filename = success

pub terminal_close : ℤ → ℤ
terminal_close fd = success

-- A terminal as `terminal_init` builds it: `processes[0] = -1` stores the byte 255. The local
-- variables `t1` to `t3` are zeroed where the code zeroes them; `sbuf` is `old` behind its end.
abbrev pub fresh_term : ℕ → Term
fresh_term addr = record {
  proc_cnt = 0;
  addr = addr;
  processes = λ i. if i == 0 then 255 else 0;
  cursor = 0;
  sbuf = λ i. 0;
}

pub terminal_init : Kernel → ℤ × Kernel
terminal_init k = (
  success,
  record k {
    curr_term_id = 0;
    schedule_term_id = 0;
    terminals = λ i.
        if i == 0
        then fresh_term (753664 + 4096)
        else if i == 1
        then fresh_term (753664 + 2 * 4096)
        else if i == 2
        then fresh_term (753664 + 3 * 4096)
        else k.terminals i;
  },
)
