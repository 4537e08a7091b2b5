-- ===== src/Kernel/Processes/Refusing.antt =====
-- The commands that sys_execute refuses.
use ece391_computer_systems.Base.{
  ℕ, ◌&&◌, ◌+◌, ◌-◌, ◌≤◌, ◌<◌, ◌≡◌, true, false, Option, none, some, ltb, leb, if◌then◌else◌, pos,
  failure, refl, ap, ◌∙◌, le→leb, lt→leb_false, Mem,
}
use ece391_computer_systems.FileSystem.{Dentry, read_dentry_by_name, file_read}
use ece391_computer_systems.FileSystem.{put_bytes}
use ece391_computer_systems.FileSystem.Listing.{put_bytes_lem}
use ece391_computer_systems.Libc.{strlen}
use ece391_computer_systems.Kernel.Files.{find_space}
use ece391_computer_systems.Kernel.{Kernel, Machine, returned, with_mem}
use ece391_computer_systems.Kernel.Processes.{
  sys_execute, live_processes, parse_command, is_exe, start_found, refuse, counted,
}

-- What a refused command leaves alone.
abbrev pub SameProcesses : Kernel → Kernel → Type 0
SameProcesses k k' =
    (k'.pcbs ≡ k.pcbs)
    × (k'.terminals ≡ k.terminals)
    × (k'.user_page ≡ k.user_page)
    × (k'.tss_esp0 ≡ k.tss_esp0)
    × (k'.curr_term_id ≡ k.curr_term_id)

-- The local array `cmd` holds the first word of the command, of `word` characters, and then zeros.
pub parse_command-mem :
    (w : Machine) (k : Kernel) (command len word a : ℕ)
    → strlen k.console.mem command ≡ len
    → find_space len (λ i. k.console.mem (command + i)) 0 ≡ word
    → (parse_command w k command).console.mem a ≡ (
        if leb w.cmd a && ltb a (w.cmd + word)
        then k.console.mem (command + (a - w.cmd))
        else if leb w.cmd a && ltb a (w.cmd + 32)
        then 0
        else k.console.mem a)
unfolding parse_command
parse_command-mem w k command len word a text first =
    let cleared = put_bytes k.console.mem w.cmd (λ i. 0) 32 in
    rw (text, first)
      (put_bytes_lem cleared w.cmd (λ i. k.console.mem (command + i)) word a
        ∙ ap
            (λ v.
              if leb w.cmd a && ltb a (w.cmd + word)
              then k.console.mem (command + (a - w.cmd))
              else v)
            (put_bytes_lem k.console.mem w.cmd (λ i. 0) 32 a))

-- A seventh process is refused: the call returns -1, and only `pidVal` and the interrupt flag are
-- written.
pub sys_execute-limit :
    (w : Machine) (k : Kernel) (command : ℕ)
    → 6 ≤ live_processes k
    → sys_execute w k command
      ≡ returned failure (record k { pid_val = pos (live_processes k); interrupts = true })
unfolding sys_execute
sys_execute-limit w k command full = rw (le→leb 6 (live_processes k) full)

-- Whatever the name is looked up to, where no entry leads to an executable file.
found-refused :
    (w : Machine) (p : Kernel) (command : ℕ) (o : Option Dentry)
    → ((e : Dentry)
        → o ≡ some e
        → is_exe (file_read p.fs p.console.mem w.exe_buf 4 w.cmd 0 e.inode_num).1 w.exe_buf ≡ false)
    → (m : Mem) × (start_found w p command o ≡ refuse (with_mem p m))
found-refused w p command none bad = (p.console.mem, refl)
found-refused w p command (some e) bad =
    ((file_read p.fs p.console.mem w.exe_buf 4 w.cmd 0 e.inode_num).1, rw (bad e refl))

-- While fewer than six processes are live, a command of at most 500 characters, with a first word of
-- fewer than 32, that names no file, or no executable file, is refused: the call returns -1, with the control blocks, the terminals, the user page and the
-- kernel stack as they were. `pidVal` is then the number of processes, whatever process made the
-- call.
pub sys_execute-refused :
    (w : Machine) (k : Kernel) (command : ℕ)
    → live_processes k < 6
    → strlen k.console.mem command ≤ 500
    → find_space (strlen k.console.mem command) (λ i. k.console.mem (command + i)) 0 < 32
    → ((e : Dentry)
        → read_dentry_by_name k.fs (parse_command w (counted k) command).console.mem w.cmd ≡ some e
        → is_exe
            (file_read k.fs
              (parse_command w (counted k) command).console.mem
              w.exe_buf
              4
              w.cmd
              0
              e.inode_num).1
            w.exe_buf
          ≡ false)
    → (k' : Kernel) × (sys_execute w k command ≡ returned failure k')
      × SameProcesses k k'
      × (k'.pid_val ≡ pos (live_processes k))
      × (k'.interrupts ≡ true)
unfolding sys_execute parse_command
sys_execute-refused w k command room fits short bad =
    let p = parse_command w (counted k) command in
    let r = found-refused w p command (read_dentry_by_name k.fs p.console.mem w.cmd) bad in
    (
      record (with_mem p r.0) { interrupts = true },
      rw (lt→leb_false 6 (live_processes k) room) r.1,
      (refl, refl, refl, refl, refl),
      refl,
      refl,
    )
