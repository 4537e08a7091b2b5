-- ===== src/Kernel.antt =====
-- The state of the kernel that the system calls, the terminals and the scheduler share: the globals
-- of student-distrib/{syscall,terminal,keyboard,pit,naman_page}.{c,h} as one record.
pub mod Sample
pub mod Files
pub mod Processes
pub mod Terminals
pub mod Keyboard
pub mod Scheduler
use ece391_computer_systems.Base.{
  ℕ, zero, suc, ◌+◌, ◌-◌, ◌*◌, ◌/◌, ◌%◌, Bool, true, false, Option, none, some, ◌==◌, ltb, leb,
  if◌then◌else◌, Mem, ℤ, pos, negsuc, eqz, ◌||◌,
}
use ece391_computer_systems.Console.{Console, Devices}
use ece391_computer_systems.FileSystem.{Fs, Dentry}

-- The tables of file operations that a descriptor can point to; `no_ops` is the null pointer.
pub data FileOps : Type 0 where
  no_ops stdin_fops stdout_fops rtc_fops dir_fops file_fops : FileOps

-- `file_descriptor_t`. A name is an address; `flags` is 1 for a descriptor in use.
pub record FileDescriptor : Type 0 where
  pub file_table_pointer : FileOps
  pub name_of_file : ℕ
  pub inode_index : ℕ
  pub file_position : ℕ
  pub internal_ftype : ℕ
  pub flags : ℕ

-- `pcb_t`, without the unused `sched_esp` and `sched_ebp`. The parent of a first shell is -1.
pub record Pcb : Type 0 where
  pub pid : ℤ
  pub parent_id : ℤ
  pub file_descriptor : ℕ → FileDescriptor
  pub saved_esp : ℕ
  pub saved_ebp : ℕ
  pub active : ℕ
  pub term_id : ℕ

-- `term_t`. The byte before `processes` is the last one of `addr`.
pub record Term : Type 0 where
  pub proc_cnt : ℕ
  pub addr : ℕ
  pub processes : ℕ → ℕ
  pub cursor : ℕ
  pub sbuf : ℕ → ℕ

-- The page directory entry of the user page at 128 MB, as far as it is ever set to different
-- values: everything else is set by `setup_PID` to constants.
pub record UserPage : Type 0 where
  pub present : Bool
  pub user_or_supervisor : Bool
  pub base_address : ℕ

pub record Kernel : Type 0 where
  pub console : Console
  pub fs : Fs
  pub pid_val : ℤ
  pub pcbs : ℤ → Pcb
  pub terminals : ℕ → Term
  pub curr_term_id : ℕ
  pub schedule_term_id : ℕ
  pub scheduling_flag : ℕ
  pub enter_flag : ℕ
  pub start_term : ℕ
  pub keyb_buff : ℕ → ℕ
  pub kbb_ind : ℕ
  pub ctrl_flag : ℕ
  pub caps_lock_flag : ℕ
  pub shift_flag : ℕ
  pub alt_flag : ℕ
  pub current_command : ℕ → ℕ
  pub rtc_flag : ℕ
  pub user_page : UserPage
  pub tss_esp0 : ℕ
  pub t_init : ℕ → ℕ
  pub interrupts : Bool

-- What stands outside the code: the devices, the addresses that the linker and the compiler choose
-- for literals and local arrays, the stack registers, and the state in which a spin loop ends.
pub record Machine : Type 0 where
  pub inb : Devices
  pub empty_literal : ℕ
  pub shell_literal : ℕ
  pub cmd : ℕ
  pub exe_buf : ℕ
  pub prog_buffer : ℕ
  pub conv_buf : ℕ
  pub dummy : Dentry
  pub esp : ℕ
  pub ebp : ℕ
  pub after_enter : Kernel → Option Kernel
  pub after_rtc : Kernel → Option Kernel
  pub term_at : ℕ → ℕ

-- How a call ends: it returns, it starts a user program, it goes back into the `sys_execute` that
-- started the halted program, it waits for ever, or it follows a null pointer.
pub data Outcome : Type 0 where
  returned : ℤ → Kernel → Outcome
  entered : ℕ → ℕ → Kernel → Outcome
  resumed : ℕ → ℕ → ℕ → Kernel → Outcome
  waiting : Outcome
  fault : Outcome

-- A table of processes with one control block replaced.
abbrev pub set_pcb : ℤ → Pcb → (ℤ → Pcb) → ℤ → Pcb
set_pcb p b pcbs q = if eqz q p then b else pcbs q

abbrev pub set_term : ℕ → Term → (ℕ → Term) → ℕ → Term
set_term i t terms j = if j == i then t else terms j

abbrev pub set_fd : ℕ → FileDescriptor → (ℕ → FileDescriptor) → ℕ → FileDescriptor
set_fd i d fds j = if j == i then d else fds j

-- `get_pcb(p)`: the block at 8 MB - 8 KB * (p + 1), read as the entry of `p`.
abbrev pub get_pcb : Kernel → ℤ → Pcb
get_pcb k p = k.pcbs p

abbrev pub get_cur_pcb : Kernel → Pcb
get_cur_pcb k = k.pcbs k.pid_val

abbrev pub put_pcb : ℤ → Pcb → Kernel → Kernel
put_pcb p b k = record k { pcbs = set_pcb p b k.pcbs }

abbrev pub put_term : ℕ → Term → Kernel → Kernel
put_term i t k = record k { terminals = set_term i t k.terminals }

abbrev pub with_mem : Kernel → Mem → Kernel
with_mem k m = record k { console = record k.console { mem = m } }

-- `t.processes[t.proc_cnt - 1]`.
abbrev pub top_process : Term → ℕ
top_process t = if t.proc_cnt == 0 then t.addr / 16777216 % 256 else t.processes (t.proc_cnt - 1)

-- The physical address of a user program's address: its own 4 MB page at 128 MB, and the video
-- page that `sys_vidmap` gives out at 132 MB. The buffers that the calls take are physical.
abbrev pub physical : UserPage → ℕ → ℕ
physical page a =
    if ltb a 0x08000000 || leb 0x08401000 a
    then a
    else if ltb a 0x08400000
    then page.base_address * 4194304 + (a - 0x08000000)
    else 753664 + (a - 0x08400000)

-- `int32_t` as `uint32_t`.
abbrev pub unsigned : ℤ → ℕ
unsigned (pos n) = n % 4294967296
unsigned (negsuc n) = 4294967295 - n % 4294967296
