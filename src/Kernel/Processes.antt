-- ===== src/Kernel/Processes.antt =====
-- Starting and ending programs: sys_execute and sys_halt of student-distrib/syscall.c, and
-- setup_PID of student-distrib/naman_page.c.
pub mod Loading
pub mod Refusing
pub mod Starting
pub mod Ending
mod Examples
use ece391_computer_systems.Base.{
  ℕ, zero, suc, ◌+◌, ◌-◌, ◌*◌, ◌/◌, ◌%◌, Bool, true, false, ◌||◌, ◌&&◌, not, List, [], ◌∷◌, Option,
  none, some, ◌==◌, ltb, leb, if◌then◌else◌, Mem, store, load32, ℤ, pos, negsuc, success, failure,
  add32, sub32, eqz,
}
use ece391_computer_systems.Libc.{strlen, memset}
use ece391_computer_systems.Console.{Console, print_text, print_number}
use ece391_computer_systems.FileSystem.{
  Dentry, read_dentry_by_name, file_read, read_data, file_length, put_bytes,
}
use ece391_computer_systems.Kernel.{
  Kernel, Machine, Outcome, returned, entered, resumed, waiting, fault, FileDescriptor, no_ops,
  stdin_fops, stdout_fops, Pcb, Term, UserPage, get_cur_pcb, set_pcb, set_term, put_pcb, put_term,
  set_fd, with_mem, unsigned, top_process, physical,
}
use ece391_computer_systems.Kernel.Files.{find_space}

-- `setup_PID`; the address of a 4 MB page has 10 bits.
pub setup_page : Pcb → UserPage
setup_page b = record {
  present = true;
  user_or_supervisor = true;
  base_address = (2 + unsigned b.pid) % 1024;
}

-- `EIGHT_MB - (EIGHT_KB * Pid) - 4`, and `ONE28_MB + FOUR_MB - 4`.
pub kernel_stack : ℤ → ℕ
kernel_stack p = sub32 (sub32 0x800000 (8192 * unsigned p % 4294967296)) 4

abbrev pub user_stack : ℕ
user_stack = 0x8000000 + 0x400000 - 4

-- The terminals' `proc_cnt` together, from which `sys_execute` takes the next `pidVal`.
abbrev pub live_processes : Kernel → ℕ
live_processes k = (k.terminals 0).proc_cnt + (k.terminals 1).proc_cnt + (k.terminals 2).proc_cnt

-- What every failing return does first: `sti()`.
abbrev pub refuse : Kernel → Outcome
refuse k = returned failure (record k { interrupts = true })

-- `current_command` and the local array `cmd`: the command, and its first word. Nothing in the source
-- keeps them within 500 and 32 bytes: a longer command is written on behind the arrays. What is
-- proved of sys_execute is for commands that fit.
pub parse_command : Machine → Kernel → ℕ → Kernel
parse_command w k command =
    let len = strlen k.console.mem command in
    let string = λ (i : ℕ). k.console.mem (command + i) in
    let word = find_space len string 0 in
    let cleared = memset k.current_command 0 0 500 in
    record (with_mem k (put_bytes (put_bytes k.console.mem w.cmd (λ i. 0) 32) w.cmd string word)) {
      current_command = λ i. if ltb i len then string i else cleared i;
    }

abbrev pub is_exe : Mem → ℕ → Bool
is_exe m buf =
    (m buf == 0x7f) && (m (buf + 1) == 0x45) && (m (buf + 2) == 0x4c) && (m (buf + 3) == 0x46)

-- The descriptor table of a new program, from that of the control block before.
abbrev pub fresh_fd : ℕ → FileDescriptor → FileDescriptor
fresh_fd empty d = record d {
  name_of_file = empty;
  file_position = 0;
  file_table_pointer = no_ops;
  flags = 0;
  inode_index = 4294967295;
}

pub fresh_fds : ℕ → (ℕ → FileDescriptor) → ℕ → FileDescriptor
fresh_fds empty fds i =
    if i == 0
    then record (fds i) { file_table_pointer = stdin_fops }
    else if i == 1
    then record (fds i) { file_table_pointer = stdout_fops }
    else if leb i 7
    then fresh_fd empty (fds i)
    else fds i

-- `pidVal` once the file is known to be executable, and the parent that is recorded.
abbrev pub choose_pid : ℕ → ℕ → ℕ
choose_pid count term = if leb count 2 then term else count

abbrev pub parent_of : Term → ℤ
parent_of t = if t.proc_cnt == 0 then failure else pos (top_process t)

-- The terminal of the new program.
abbrev pub add_process : ℕ → Term → Term
add_process p t = record t {
  proc_cnt = t.proc_cnt + 1;
  processes = λ i. if i == t.proc_cnt then p % 256 else t.processes i;
}

-- The control block once everything is set.
pub new_pcb : Machine → Kernel → ℕ → Pcb
new_pcb w k p = record (k.pcbs (pos p)) {
  pid = pos p;
  parent_id = parent_of (k.terminals k.curr_term_id);
  file_descriptor = fresh_fds w.empty_literal (k.pcbs (pos p)).file_descriptor;
  saved_esp = w.esp;
  saved_ebp = w.ebp;
  active = 1;
  term_id = k.curr_term_id;
}

-- "we are in terminal "
abbrev pub terminal_text : List ℕ
terminal_text =
    119 ∷ 101 ∷ 32 ∷ 97 ∷ 114 ∷ 101 ∷ 32 ∷ 105 ∷ 110 ∷ 32 ∷ 116 ∷ 101 ∷ 114 ∷ 109 ∷ 105 ∷ 110 ∷ 97
    ∷ 108 ∷ 32 ∷ []

pub announce : Machine → Kernel → Console
announce w k =
    print_text (10 ∷ [])
      (print_number w.conv_buf k.curr_term_id (print_text terminal_text k.console))

-- The program is read to its place in the user page, then four bytes of it to `prog_buffer`.
pub load_program : Machine → Kernel → UserPage → Mem → ℕ → ℕ → ℕ → Mem
load_program w k page m command inode size =
    (read_data k.fs (file_read k.fs m (physical page 0x08048000) size command 0 inode).1 inode 24
      w.prog_buffer 4).1

-- From the creation of the control block to `iret`: the state in which the program starts.
pub started_kernel : Machine → Kernel → ℕ → ℕ → ℕ → Kernel
started_kernel w k command inode size =
    let p = choose_pid (unsigned k.pid_val) k.curr_term_id in
    let block = new_pcb w k p in
    let console = announce w k in
    let page = setup_page block in
    record k {
      pid_val = pos p;
      pcbs = set_pcb (pos p) block k.pcbs;
      terminals = set_term k.curr_term_id (add_process p (k.terminals k.curr_term_id)) k.terminals;
      console = record console { mem = load_program w k page console.mem command inode size };
      user_page = page;
      tss_esp0 = kernel_stack (pos p);
      interrupts = true;
    }

pub start_program : Machine → Kernel → ℕ → ℕ → ℕ → Outcome
start_program w k command inode size =
    let k' = started_kernel w k command inode size in
    entered (load32 k'.console.mem w.prog_buffer) user_stack k'

-- The check of the first four bytes.
abbrev pub start_found : Machine → Kernel → ℕ → Option Dentry → Outcome
start_found w k command none = refuse k
start_found w k command (some e) =
    let size = file_length k.fs k.console.mem e.inode_num in
    let r = file_read k.fs k.console.mem w.exe_buf 4 w.cmd 0 e.inode_num in
    let k' = with_mem k r.1 in
    if is_exe r.1 w.exe_buf then start_program w k' command e.inode_num size else refuse k'

abbrev pub execute_command : Machine → Kernel → ℕ → Outcome
execute_command w k command = start_found w k command (read_dentry_by_name k.fs k.console.mem w.cmd)

-- After `cli()` and the first assignment to `pidVal`.
abbrev pub counted : Kernel → Kernel
counted k = record k { pid_val = pos (live_processes k); interrupts = false }

pub sys_execute : Machine → Kernel → ℕ → Outcome
sys_execute w k command =
    if leb 6 (live_processes k)
    then refuse (counted k)
    else execute_command w (parse_command w (counted k) command) command

-- Ending a program.
abbrev pub remove_process : Term → Term
remove_process t = record t { proc_cnt = t.proc_cnt - 1 }

-- The loop over the descriptors from 2 on; the inode index stays.
pub released_fds : ℕ → (ℕ → FileDescriptor) → ℕ → FileDescriptor
released_fds empty fds i =
    if leb 2 i && leb i 7
    then record (fds i) {
      file_position = 0;
      file_table_pointer = no_ops;
      internal_ftype = 0;
      flags = 0;
      name_of_file = empty;
    }
    else fds i

-- "exited out of first shell, restarting new one...\n"
abbrev pub restart_text : List ℕ
restart_text =
    101 ∷ 120 ∷ 105 ∷ 116 ∷ 101 ∷ 100 ∷ 32 ∷ 111 ∷ 117 ∷ 116 ∷ 32 ∷ 111 ∷ 102 ∷ 32 ∷ 102 ∷ 105 ∷ 114
    ∷ 115 ∷ 116 ∷ 32 ∷ 115 ∷ 104 ∷ 101 ∷ 108 ∷ 108 ∷ 44 ∷ 32 ∷ 114 ∷ 101 ∷ 115 ∷ 116 ∷ 97 ∷ 114
    ∷ 116 ∷ 105 ∷ 110 ∷ 103 ∷ 32 ∷ 110 ∷ 101 ∷ 119 ∷ 32 ∷ 111 ∷ 110 ∷ 101 ∷ 46 ∷ 46 ∷ 46 ∷ 10 ∷ []

-- `return 1`, where the new shell could not be started.
abbrev pub return_one : Outcome → Outcome
return_one (returned v k) = returned (pos 1) k
return_one o = o

abbrev pub leave_terminal : Pcb → Kernel → Kernel
leave_terminal b k = put_term b.term_id (remove_process (k.terminals b.term_id)) k

pub restart_shell : Machine → Kernel → Pcb → Outcome
restart_shell w k b = return_one (
    sys_execute w
      (record (leave_terminal b k) {
        console = print_text restart_text k.console;
        interrupts = true;
      })
      w.shell_literal)

pub parent_kernel : Machine → Kernel → Pcb → Kernel
parent_kernel w k b =
    let parent = k.pcbs b.parent_id in
    let closed = record b { file_descriptor = released_fds w.empty_literal b.file_descriptor } in
    record (put_pcb k.pid_val closed (leave_terminal b k)) {
      pid_val = b.parent_id;
      user_page = record k.user_page { base_address = (2 + unsigned parent.pid) % 1024 };
      tss_esp0 = kernel_stack parent.pid;
      interrupts = false;
    }

pub back_to_parent : Machine → Kernel → Pcb → ℕ → Outcome
back_to_parent w k b status = resumed b.saved_esp b.saved_ebp status (parent_kernel w k b)

pub sys_halt : Machine → Kernel → ℕ → Outcome
sys_halt w k status =
    if eqz (get_cur_pcb k).parent_id failure
    then restart_shell w (record k { interrupts = false }) (get_cur_pcb k)
    else back_to_parent w k (get_cur_pcb k) status
