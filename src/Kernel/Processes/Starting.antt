-- ===== src/Kernel/Processes/Starting.antt =====
-- Starting a program with sys_execute.
use ece391_computer_systems.Base.{
  ℕ, ◌*◌, ◌==◌, ◌+◌, ◌-◌, ◌≤◌, ◌≡◌, true, if◌then◌else◌, pos, failure,
}
use ece391_computer_systems.Kernel.{Kernel, Machine, Pcb, Term, stdin_fops, stdout_fops, no_ops}
use ece391_computer_systems.Kernel.Processes.{live_processes}

-- The control block of a program that the machine starts under the number `p` in terminal `term`, in
-- which `t.proc_cnt` programs ran before: the last of these is its parent, and -1 stands for none.
abbrev pub IsNew : Machine → ℕ → Term → ℕ → Pcb → Type 0
IsNew w term t p b =
    (b.pid ≡ pos p)
    × (b.parent_id ≡ (if t.proc_cnt == 0 then failure else pos (t.processes (t.proc_cnt - 1))))
    × (b.saved_esp ≡ w.esp)
    × (b.saved_ebp ≡ w.ebp)
    × (b.active ≡ 1)
    × (b.term_id ≡ term)
    × ((b.file_descriptor 0).file_table_pointer ≡ stdin_fops)
    × ((b.file_descriptor 1).file_table_pointer ≡ stdout_fops)
    × ((i : ℕ)
        → 2 ≤ i
        → i ≤ 7
        → ((b.file_descriptor i).flags ≡ 0)
          × ((b.file_descriptor i).file_position ≡ 0)
          × ((b.file_descriptor i).file_table_pointer ≡ no_ops))

-- What a program with number `p` is started in.
abbrev pub Started : Machine → Kernel → ℕ → Kernel → Type 0
Started w k p k' =
    (k'.pid_val ≡ pos p)
    × IsNew w k.curr_term_id (k.terminals k.curr_term_id) p (k'.pcbs (pos p))
    × ((k'.terminals k.curr_term_id).processes (k.terminals k.curr_term_id).proc_cnt ≡ p)
    × (live_processes k' ≡ live_processes k + 1)
    × (k'.user_page ≡ record { present = true; user_or_supervisor = true; base_address = 2 + p })
    × (k'.tss_esp0 ≡ 8388608 - 8192 * p - 4)
    × (k'.interrupts ≡ true)
