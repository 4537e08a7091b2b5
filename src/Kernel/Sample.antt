-- ===== src/Kernel/Sample.antt =====
-- A small machine for the examples: three shells, and a disk with one executable file named `a`.
use ece391_computer_systems.Base.{ℕ, ◌+◌, true, some, ◌==◌, if◌then◌else◌, Mem, ℤ, pos, negsuc, []}
use ece391_computer_systems.Console.{Console}
use ece391_computer_systems.FileSystem.{Fs}
use ece391_computer_systems.Kernel.{
  Kernel, Machine, FileDescriptor, no_ops, stdin_fops, stdout_fops, file_fops, Pcb, Term,
}

abbrev pub disk : Fs
disk = record {
  total_dirs = 1;
  start_boot_block = 0;
  start_inode = 4096;
  inode_nums = 3;
  start_datablock = 12288;
}

-- The file has 40 bytes in block 1, which start with 7f 45 4c 46; its entry point is 0x08048000.
-- The command "a b" is at 30000.
abbrev pub image : Mem
image a =
    if a == 64
    then 97
    else if a == 96
    then 2
    else if a == 4096
    then 40
    else if a == 4100
    then 1
    else if a == 16384
    then 127
    else if a == 16385
    then 69
    else if a == 16386
    then 76
    else if a == 16387
    then 70
    else if a == 16409
    then 128
    else if a == 16410
    then 4
    else if a == 16411
    then 8
    else if a == 30000
    then 97
    else if a == 30001
    then 32
    else if a == 30002
    then 98
    else 0

abbrev pub console : Console
console = record { mem = image; screen_x = 0; screen_y = 0; ports = [] }

abbrev pub free_fd : FileDescriptor
free_fd = record {
  file_table_pointer = no_ops;
  name_of_file = 0;
  inode_index = 0;
  file_position = 0;
  internal_ftype = 0;
  flags = 0;
}

-- Descriptor 2 is open on the file, at position 0.
abbrev pub sample_fds : ℕ → FileDescriptor
sample_fds i =
    if i == 0
    then record free_fd { file_table_pointer = stdin_fops }
    else if i == 1
    then record free_fd { file_table_pointer = stdout_fops }
    else if i == 2
    then record free_fd {
      file_table_pointer = file_fops;
      name_of_file = 30000;
      internal_ftype = 2;
      flags = 1;
    }
    else free_fd

-- Process 3 is a child of the shell 0; the first shells have no parent.
abbrev pub sample_pcb : ℤ → Pcb
sample_pcb (pos n) = record {
  pid = pos n;
  parent_id = if n == 3 then pos 0 else negsuc 0;
  file_descriptor = sample_fds;
  saved_esp = 8380000;
  saved_ebp = 8380100;
  active = 1;
  term_id = if n == 3 then 0 else n;
}
sample_pcb (negsuc n) = record {
  pid = pos 0;
  parent_id = negsuc 0;
  file_descriptor = sample_fds;
  saved_esp = 0;
  saved_ebp = 0;
  active = 0;
  term_id = 0;
}

abbrev pub shell_term : ℕ → Term
shell_term i = record {
  proc_cnt = 1;
  addr = 753664 + 4096;
  processes = λ j. if j == 0 then i else 0;
  cursor = 0;
  sbuf = λ j. 0;
}

abbrev pub sample : Kernel
sample = record {
  console = console;
  fs = disk;
  pid_val = pos 0;
  pcbs = sample_pcb;
  terminals = shell_term;
  curr_term_id = 0;
  schedule_term_id = 0;
  scheduling_flag = 1;
  enter_flag = 0;
  start_term = 0;
  keyb_buff = λ i. if i == 0 then 104 else if i == 1 then 105 else 0;
  kbb_ind = 2;
  ctrl_flag = 0;
  caps_lock_flag = 0;
  shift_flag = 0;
  alt_flag = 0;
  current_command = λ i. if i == 0 then 97 else if i == 1 then 32 else if i == 2 then 98 else 0;
  rtc_flag = 0;
  user_page = record { present = true; user_or_supervisor = true; base_address = 2 };
  tss_esp0 = 8388604;
  t_init = λ i. 2;
  interrupts = true;
}

-- Enter is pressed at once, and the clock ticks at once.
abbrev pub machine : Machine
machine = record {
  inb = λ log port. 0;
  empty_literal = 31000;
  shell_literal = 30000;
  cmd = 40000;
  exe_buf = 40100;
  prog_buffer = 40104;
  conv_buf = 40200;
  dummy = record { filename = λ i. 0; filetype = 0; inode_num = 0 };
  esp = 8388000;
  ebp = 8388100;
  after_enter = λ k. some (record k { enter_flag = 1 });
  after_rtc = λ k. some (record k { rtc_flag = 0 });
  term_at = λ i. 0;
}
