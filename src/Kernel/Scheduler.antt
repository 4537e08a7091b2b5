-- ===== src/Kernel/Scheduler.antt =====
-- Switching the visible terminal (switch_terminal and remap_mem of student-distrib/naman_page.c)
-- and the timer of student-distrib/pit.c.
pub mod Switching
mod Examples
use ece391_computer_systems.Base.{
  ℕ, zero, suc, ◌+◌, ◌-◌, ◌*◌, ◌/◌, ◌%◌, Bool, true, false, ◌==◌, ltb, leb, if◌then◌else◌, Mem, ℤ,
  pos, negsuc, success, failure,
}
use ece391_computer_systems.Libc.{memcpy, memset}
use ece391_computer_systems.Console.{
  Console, video, clear, get_cursor_position, update_cursor, write_switch,
}
use ece391_computer_systems.Pic.{Pic, send, enable_irq, send_eoi}
use ece391_computer_systems.Kernel.{
  Kernel, Machine, Outcome, returned, set_term, unsigned, top_process,
}
use ece391_computer_systems.Kernel.Processes.{sys_execute}

-- The page that keeps the screen of a terminal that is not visible.
abbrev pub screen_page : ℕ → ℕ
screen_page term = video + (term + 1) * 4096

pub remap_mem : Mem → ℕ → ℕ → Mem
remap_mem m new_id old_id =
    memcpy (memcpy m (screen_page old_id) video 4096) video (screen_page new_id) 4096

-- `memcpy` of `BUFFER_SIZE` bytes between the array of typed characters and that of a terminal.
-- `keyb_buff` has 127 characters: its entry 127 here is the byte that follows the array.
abbrev pub copy_buffer : (ℕ → ℕ) → (ℕ → ℕ) → ℕ → ℕ
copy_buffer dest src i = if ltb i 128 then src i else dest i

-- The console once the hardware cursor stands where terminal `new_id` left it.
abbrev pub switch_cursor : Machine → Console → ℕ → Console
switch_cursor w s cursor = write_switch w.inb (update_cursor s (cursor % 80) (cursor / 80))

pub switch_terminal : Machine → Kernel → ℕ → Kernel
switch_terminal w k new_id =
    let old_id = k.curr_term_id in
    let (old_pos, read) = get_cursor_position w.inb k.console in
    let old = k.terminals old_id in
    let new = k.terminals new_id in
    let console = switch_cursor w read new.cursor in
    let cleared = memset k.keyb_buff 0 0 128 in
    if new_id == old_id then record k { interrupts = true } else record k {
      console = record console { mem = remap_mem console.mem new_id old_id };
      terminals =
          set_term old_id
            (record old { cursor = old_pos % 65536; sbuf = copy_buffer old.sbuf k.keyb_buff })
            k.terminals;
      keyb_buff = copy_buffer cleared new.sbuf;
      kbb_ind = 0;
      user_page = record k.user_page {
        base_address = (2 + unsigned (k.pcbs (pos (top_process new))).pid) % 1024;
      };
      curr_term_id = new_id;
      interrupts = true;
    }

-- `divisor` is 1193180 / 100.
pub init_pit : ℕ → Pic → Console → Pic × Console
init_pit conv_buf p s =
    let (p', s') = enable_irq conv_buf 0 p s in
    (p', send (11931 / 256) 0x40 (send (11931 % 256) 0x40 (send 0x36 0x43 s')))

abbrev pub with_console : Kernel → Console → Kernel
with_console k s = record k { console = s }

abbrev pub count_start : ℕ → Kernel → Kernel
count_start i k = record k { t_init = λ j. if j == i then (k.t_init i + 1) % 256 else k.t_init j }

pub scheduler : Machine → Kernel → Kernel
scheduler w k =
    let k' = switch_terminal w (count_start 0 k) 0 in
    if k.t_init 0 == 1 then record k' { scheduling_flag = 1 } else k

-- `return 0`, where the shell could not be started.
abbrev pub return_zero : Outcome → Outcome
return_zero (returned v k) = returned success k
return_zero o = o

-- The start of the shell of a terminal that has none yet.
pub start_shell : Machine → Kernel → Outcome
start_shell w k =
    let s = k.schedule_term_id in
    let k' = record (switch_terminal w (count_start s k) s) { schedule_term_id = (s + 1) % 3 } in
    return_zero (sys_execute w (with_console k' (send_eoi 0 (clear k'.console))) w.shell_literal)

pub pit_handler : Machine → Kernel → Outcome
pit_handler w k =
    let acknowledged = with_console k (send_eoi 0 k.console) in
    if k.scheduling_flag == 0
    then (if k.t_init k.schedule_term_id == 0
        then start_shell w k
        else returned success (record (scheduler w (record acknowledged { interrupts = false })) {
          interrupts = true;
        }))
    else returned success acknowledged
