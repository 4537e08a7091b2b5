-- ===== src/Kernel/Processes/Ending.antt =====
-- Ending a program with sys_halt.
use ece391_computer_systems.Base.{
  ℕ, ◌+◌, ◌-◌, ◌%◌, ◌≤◌, ◌≡◌, ◌≢◌, true, false, ℤ, pos, negsuc, failure, arith, refl, sym, ap, ◌∙◌,
  eqz, le→leb, ne→==_false, ==_refl,
}
use ece391_computer_systems.Kernel.{
  Kernel, Machine, Outcome, resumed, Pcb, unsigned, no_ops, top_process, get_cur_pcb,
}
use ece391_computer_systems.Kernel.Processes.{
  sys_halt, back_to_parent, parent_kernel, released_fds, kernel_stack, started_kernel, choose_pid,
  new_pcb,
}

-- The state that the parent gets back from a program with control block `b`.
abbrev pub GivenBack : Kernel → Pcb → Kernel → Type 0
GivenBack k b k' =
    (k'.pid_val ≡ b.parent_id)
    × ((k'.terminals b.term_id).proc_cnt ≡ (k.terminals b.term_id).proc_cnt - 1)
    × (k'.user_page.base_address ≡ (2 + unsigned (k.pcbs b.parent_id).pid) % 1024)
    × (k'.tss_esp0 ≡ kernel_stack (k.pcbs b.parent_id).pid)
    × ((i : ℕ)
        → 2 ≤ i
        → i ≤ 7
        → (((k'.pcbs k.pid_val).file_descriptor i).flags ≡ 0)
          × (((k'.pcbs k.pid_val).file_descriptor i).file_table_pointer ≡ no_ops))
    × ((q : ℤ) → eqz q k.pid_val ≡ false → k'.pcbs q ≡ k.pcbs q)

eqz_refl : (p : ℤ) → eqz p p ≡ true
eqz_refl (pos n) = ==_refl n
eqz_refl (negsuc n) = ==_refl n

-- A program that has a parent is ended by going back into the call that started it, at its saved
-- stack and with the status. The parent is the current process again, with its page and its kernel
-- stack; the terminal has one process less, and the descriptors 2 to 7 of the program are free. No
-- other control block changes.
pub sys_halt-resumes :
    (w : Machine) (k : Kernel) (status : ℕ)
    → eqz (get_cur_pcb k).parent_id failure ≡ false
    → (k' : Kernel) × (sys_halt w k status
        ≡ resumed (get_cur_pcb k).saved_esp (get_cur_pcb k).saved_ebp status k')
      × GivenBack k (get_cur_pcb k) k'
unfolding sys_halt back_to_parent parent_kernel released_fds
sys_halt-resumes w k status has = (
  parent_kernel w k (get_cur_pcb k),
  rw has,
  (
    refl,
    rw (==_refl (get_cur_pcb k).term_id),
    refl,
    refl,
    (λ i lo hi. rw (eqz_refl k.pid_val, le→leb 2 i lo, le→leb i 7 hi) (refl, refl)),
    (λ q ne. rw ne),
  ),
)

module _ (w : Machine) (k : Kernel) (command inode size : ℕ) where
  cur-started :
      get_cur_pcb (started_kernel w k command inode size)
      ≡ new_pcb w k (choose_pid (unsigned k.pid_val) k.curr_term_id)
  unfolding started_kernel
  cur-started = rw (==_refl (choose_pid (unsigned k.pid_val) k.curr_term_id))

  parent-started :
      (k.terminals k.curr_term_id).proc_cnt ≢ 0
      → (get_cur_pcb (started_kernel w k command inode size)).parent_id
        ≡ pos (top_process (k.terminals k.curr_term_id))
  unfolding new_pcb
  parent-started some_process =
      rw (cur-started, ne→==_false (k.terminals k.curr_term_id).proc_cnt 0 some_process)

  term-started : (get_cur_pcb (started_kernel w k command inode size)).term_id ≡ k.curr_term_id
  unfolding new_pcb
  term-started = rw cur-started

  esp-started : (get_cur_pcb (started_kernel w k command inode size)).saved_esp ≡ w.esp
  unfolding new_pcb
  esp-started = rw cur-started

  ebp-started : (get_cur_pcb (started_kernel w k command inode size)).saved_ebp ≡ w.ebp
  unfolding new_pcb
  ebp-started = rw cur-started

  not_current :
      (t : ℕ)
      → choose_pid (unsigned k.pid_val) k.curr_term_id ≢ t
      → eqz (pos t) (started_kernel w k command inode size).pid_val ≡ false
  unfolding started_kernel
  not_current t ne =
      ne→==_false t (choose_pid (unsigned k.pid_val) k.curr_term_id) (λ e. ne (sym e))

  other-started :
      (t : ℕ)
      → choose_pid (unsigned k.pid_val) k.curr_term_id ≢ t
      → (started_kernel w k command inode size).pcbs (pos t) ≡ k.pcbs (pos t)
  unfolding started_kernel
  other-started t ne =
      rw (ne→==_false t (choose_pid (unsigned k.pid_val) k.curr_term_id) (λ e. ne (sym e)))

  count-started :
      ((started_kernel w k command inode size).terminals k.curr_term_id).proc_cnt
      ≡ (k.terminals k.curr_term_id).proc_cnt + 1
  unfolding started_kernel
  count-started = rw (==_refl k.curr_term_id)

resumed_at :
    {o : Outcome} {a b c d status : ℕ} {k : Kernel}
    → o ≡ resumed a b status k
    → a ≡ c
    → b ≡ d
    → o ≡ resumed c d status k
resumed_at e f g = cc

restored_count : (a b c : ℕ) → a ≡ b - 1 → b ≡ c + 1 → a ≡ c
restored_count a b c e f = omega arith

-- Halting undoes executing. If a process of the current terminal, whose control block holds its
-- number, starts a program under a number other than its own, and this program halts at once, then
-- the call comes back at the stack of the machine with the status, the process is current again,
-- its control block, its page and its kernel stack are in place, and the terminal has as many
-- processes as before.
pub sys_halt-started :
    (w : Machine) (k : Kernel) (command inode size status : ℕ)
    → (k.terminals k.curr_term_id).proc_cnt ≢ 0
    → choose_pid (unsigned k.pid_val) k.curr_term_id ≢ top_process (k.terminals k.curr_term_id)
    → (k.pcbs (pos (top_process (k.terminals k.curr_term_id)))).pid
      ≡ pos (top_process (k.terminals k.curr_term_id))
    → (k' : Kernel) × (sys_halt w (started_kernel w k command inode size) status
        ≡ resumed w.esp w.ebp status k')
      × (k'.pid_val ≡ pos (top_process (k.terminals k.curr_term_id)))
      × (k'.pcbs (pos (top_process (k.terminals k.curr_term_id)))
          ≡ k.pcbs (pos (top_process (k.terminals k.curr_term_id))))
      × ((k'.terminals k.curr_term_id).proc_cnt ≡ (k.terminals k.curr_term_id).proc_cnt)
      × (k'.user_page.base_address
          ≡ (2 + top_process (k.terminals k.curr_term_id) % 4294967296) % 1024)
      × (k'.tss_esp0 ≡ kernel_stack (pos (top_process (k.terminals k.curr_term_id))))
sys_halt-started w k command inode size status some_process other own =
    let q = started_kernel w k command inode size in
    let t = top_process (k.terminals k.curr_term_id) in
    let up = parent-started w k command inode size some_process in
    let h = sys_halt-resumes w q status (ap (λ p. eqz p failure) up) in
    (
      h.0,
      resumed_at h.1 (esp-started w k command inode size) (ebp-started w k command inode size),
      h.2.0 ∙ up,
      h.2.5 (pos t) (not_current w k command inode size t other)
          ∙ other-started w k command inode size t other,
      restored_count (h.0.terminals k.curr_term_id).proc_cnt (q.terminals k.curr_term_id).proc_cnt
          (k.terminals k.curr_term_id).proc_cnt (rw (term-started w k command inode size) at h.2.1)
          (count-started w k command inode size),
      rw (up, other-started w k command inode size t other, own) at h.2.2,
      rw (up, other-started w k command inode size t other, own) at h.2.3,
    )
