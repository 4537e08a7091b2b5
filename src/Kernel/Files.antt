-- ===== src/Kernel/Files.antt =====
-- The system calls on file descriptors of student-distrib/syscall.c: sys_open, sys_read, sys_write,
-- sys_close, with the jump tables; and sys_getargs, sys_vidmap, sys_set_handler, sys_sigreturn.
pub mod Opening
pub mod Transfers
pub mod Arguments
mod Examples
use ece391_computer_systems.Base.{
  ℕ, zero, suc, ◌+◌, ◌-◌, ◌*◌, ◌%◌, Bool, true, false, ◌||◌, ◌&&◌, not, Option, none, some, ◌==◌,
  ltb, leb, if◌then◌else◌, Mem, store, store32, ℤ, pos, negsuc, success, failure, add32, eqz,
}
use ece391_computer_systems.Libc.{strlen}
use ece391_computer_systems.Console.{Console}
use ece391_computer_systems.FileSystem.{
  Dentry, read_dentry_by_name, file_read, dir_read, file_write, dir_write, put_bytes,
}
use ece391_computer_systems.Rtc.{rtc_write}
use ece391_computer_systems.Kernel.{
  Kernel, Machine, Outcome, returned, waiting, fault, FileDescriptor, FileOps, no_ops, stdin_fops,
  stdout_fops, rtc_fops, dir_fops, file_fops, Pcb, get_cur_pcb, put_pcb, set_fd, with_mem, unsigned,
  physical,
}
use ece391_computer_systems.Kernel.Terminals.{terminal_read, terminal_write}

abbrev pub actual_max_dirs : ℕ
actual_max_dirs = 17

-- `while (i < MAX_NUM_FILE)`, from `i` on, with the rounds left: the index and the marked array.
pub free_idx_loop : ℕ → (ℕ → FileDescriptor) → ℕ → ℕ × (ℕ → FileDescriptor)
free_idx_loop zero fds i = (i, fds)
free_idx_loop (suc left) fds i =
    let rest = free_idx_loop left fds (i + 1) in
    if not ((fds i).flags == 1) then (i, set_fd i (record (fds i) { flags = 1 }) fds) else rest

unfoldable pub free_idx_fd : (ℕ → FileDescriptor) → ℕ × (ℕ → FileDescriptor)
free_idx_fd fds = free_idx_loop 6 fds 2

-- The fields that the three cases of the `switch` set; any other file type sets none.
abbrev pub open_as : FileDescriptor → ℕ → ℕ → ℕ → FileOps → FileDescriptor
open_as d filename inode ftype ops = record d {
  name_of_file = filename;
  file_position = 0;
  inode_index = inode;
  internal_ftype = ftype;
  file_table_pointer = ops;
}

abbrev pub opened : FileDescriptor → ℕ → Dentry → FileDescriptor
opened d filename e =
    if e.filetype == 0
    then open_as d filename 0 0 rtc_fops
    else if e.filetype == 1
    then open_as d filename 0 1 dir_fops
    else if e.filetype == 2
    then open_as d filename e.inode_num 2 file_fops
    else d

abbrev pub put_fds : (ℕ → FileDescriptor) → Kernel → Kernel
put_fds fds k = put_pcb k.pid_val (record (get_cur_pcb k) { file_descriptor = fds }) k

-- Behind the look-up of the name.
abbrev pub open_entry : Kernel → ℕ → Dentry → ℕ × (ℕ → FileDescriptor) → ℤ × Kernel
open_entry k filename e slot =
    if slot.0 == 8
    then (failure, put_fds slot.1 k)
    else (pos slot.0, put_fds (set_fd slot.0 (opened (slot.1 slot.0) filename e) slot.1) k)

abbrev pub open_found : Kernel → ℕ → Option Dentry → ℤ × Kernel
open_found k filename none = (failure, k)
open_found k filename (some e) =
    open_entry k filename e (free_idx_fd (get_cur_pcb k).file_descriptor)

pub sys_open : Kernel → ℕ → ℤ × Kernel
sys_open k filename = open_found k filename (read_dentry_by_name k.fs k.console.mem filename)

-- The inode index stays.
abbrev pub closed_fd : ℕ → FileDescriptor → FileDescriptor
closed_fd empty d = record d {
  file_position = 0;
  file_table_pointer = no_ops;
  internal_ftype = 0;
  flags = 0;
  name_of_file = empty;
}

pub sys_close : Machine → Kernel → ℤ → ℤ × Kernel
sys_close w k (negsuc n) = (failure, k)
sys_close w k (pos fd) =
    let fds = (get_cur_pcb k).file_descriptor in
    if ltb fd 2 || ltb 7 fd || ((fds fd).flags == 0)
    then (failure, k)
    else (success, put_fds (set_fd fd (closed_fd w.empty_literal (fds fd)) fds) k)

-- The call through the `read` pointer: `none` where it spins for ever, and a null pointer is apart.
abbrev pub in_memory : Kernel → ℤ × Mem → Option (ℤ × Kernel)
in_memory k r = some (r.0, with_mem k r.1)

abbrev pub after_wait : Option Kernel → Option (ℤ × Kernel)
after_wait none = none
after_wait (some k) = some (success, k)

abbrev pub has_read : FileOps → Bool
has_read no_ops = false
has_read stdout_fops = false
has_read ops = true

abbrev pub call_read : Machine → FileOps → Kernel → FileDescriptor → ℕ → ℕ → Option (ℤ × Kernel)
call_read w stdin_fops k d buf n = terminal_read w k buf (pos n)
call_read w rtc_fops k d buf n = after_wait (w.after_rtc (record k { rtc_flag = 1 }))
call_read w dir_fops k d buf n =
    in_memory k (dir_read k.fs k.console.mem buf d.file_position w.dummy)
call_read w file_fops k d buf n =
    in_memory k (file_read k.fs k.console.mem buf n d.name_of_file d.file_position d.inode_index)
call_read w ops k d buf n = none

-- The new file position, by the type that the descriptor has after the read.
abbrev pub advance : FileDescriptor → ℤ → FileDescriptor
advance d bytes =
    if d.internal_ftype == 2
    then record d { file_position = add32 d.file_position (unsigned bytes) }
    else if d.internal_ftype == 1
    then record d { file_position = add32 d.file_position 1 }
    else record d { file_position = 0 }

-- `cur_pcb_ptr` was taken before the read: `p` is its process.
abbrev pub after_read : ℤ → ℕ → Option (ℤ × Kernel) → Outcome
after_read p fd none = waiting
after_read p fd (some (bytes, k)) =
    if eqz bytes failure
    then returned failure k
    else let b = k.pcbs p in
      returned bytes (
        put_pcb p
          (record b {
            file_descriptor = set_fd fd (advance (b.file_descriptor fd) bytes) b.file_descriptor;
          })
          k)

-- Behind the checks of the parameters.
abbrev pub read_fd : Machine → Kernel → ℕ → ℕ → ℕ → FileDescriptor → Outcome
read_fd w k fd buf n d =
    if (d.internal_ftype == 1) && (d.file_position == actual_max_dirs)
    then returned success k
    else if leb 2 fd && (d.flags == 0)
    then returned failure k
    else if ltb fd 2 && not (has_read d.file_table_pointer)
    then (elim d.file_table_pointer [ no_ops ↦ fault | _ ↦ returned failure k ])
    else if has_read d.file_table_pointer
    then after_read k.pid_val fd (call_read w d.file_table_pointer k d buf n)
    else fault

pub sys_read : Machine → Kernel → ℤ → ℕ → ℤ → Outcome
sys_read w k (pos fd) buf (pos n) =
    if buf == 0 || (n == 0) || ltb 7 fd
    then returned failure k
    else read_fd w k fd buf n ((get_cur_pcb k).file_descriptor fd)
sys_read w k fd buf nbytes = returned failure k

-- The call through the `write` pointer; `rtc_write` runs with interrupts off, and ends with `sti`.
abbrev pub has_write : FileOps → Bool
has_write no_ops = false
has_write stdin_fops = false
has_write ops = true

abbrev pub after_rtc_write : Kernel → ℤ × Console → ℤ × Kernel
after_rtc_write k r = (r.0, record k { console = r.1; interrupts = true })

abbrev pub call_write : Machine → FileOps → Kernel → ℤ → ℕ → ℤ → ℤ × Kernel
call_write w stdout_fops k fd buf nbytes = terminal_write w k buf nbytes
call_write w rtc_fops k fd buf nbytes = after_rtc_write k (rtc_write w.inb k.console buf)
call_write w dir_fops k fd buf nbytes = (dir_write fd buf nbytes, k)
call_write w file_fops k fd buf nbytes = (file_write fd buf nbytes, k)
call_write w ops k fd buf nbytes = (failure, k)

abbrev pub write_fd : Machine → Kernel → ℕ → ℕ → ℕ → FileDescriptor → Outcome
write_fd w k fd buf n d =
    if leb 2 fd && (d.flags == 0)
    then returned failure k
    else if ltb fd 2 && not (has_write d.file_table_pointer)
    then (elim d.file_table_pointer [ no_ops ↦ fault | _ ↦ returned failure k ])
    else if has_write d.file_table_pointer
    then (let r = call_write w d.file_table_pointer k (pos fd) buf (pos n) in returned r.0 r.1)
    else fault

pub sys_write : Machine → Kernel → ℤ → ℕ → ℤ → Outcome
sys_write w k (pos fd) buf (pos n) =
    if buf == 0 || ltb 7 fd
    then returned failure k
    else write_fd w k fd buf n ((get_cur_pcb k).file_descriptor fd)
sys_write w k fd buf nbytes = returned failure k

-- `for (idx = 0; idx < strlen(…); idx++)`, with the rounds left.
unfoldable pub find_space : ℕ → (ℕ → ℕ) → ℕ → ℕ
find_space zero command idx = idx
find_space (suc left) command idx =
    let rest = find_space left command (idx + 1) in if command idx == 32 then idx else rest

-- The copy starts behind the space and takes the terminator along.
pub sys_getargs : Kernel → ℕ → ℤ → ℤ × Kernel
unfolding find_space
sys_getargs k buf nbytes =
    let len = strlen k.current_command 0 in
    let idx = find_space len k.current_command 0 in
    if idx == len || ltb (unsigned nbytes) (len - idx) then (failure, k) else (
      success,
      with_mem k (put_bytes k.console.mem buf (λ i. k.current_command (idx + 1 + i)) (len - idx)),
    )

pub sys_vidmap : Kernel → ℕ → ℤ × Kernel
sys_vidmap k screen_start =
    if screen_start == 0 || ltb screen_start 0x08000000 || ltb 0x08400000 screen_start
    then (failure, k)
    else (
      success,
      with_mem k (store32 k.console.mem (physical k.user_page screen_start) 0x08400000),
    )

pub sys_set_handler : ℤ → ℕ → ℤ
sys_set_handler signum handler_address = failure

pub sys_sigreturn : ℤ
sys_sigreturn = failure
