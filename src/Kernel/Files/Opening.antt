-- ===== src/Kernel/Files/Opening.antt =====
-- Opening and closing: which descriptor is taken, and what happens to the others.
use ece391_computer_systems.Base.{
  ℕ, zero, suc, ◌+◌, ◌≤◌, ◌<◌, ◌≡◌, ◌≢◌, ◌⊎◌, inl, inr, true, not, some, ◌==◌, if◌then◌else◌, ℤ,
  pos, success, failure, arith, refl, Bool-cases, eqz, negsuc, ap, sym, ◌∙◌, ne→==_false,
  le→ltb_false, ==_refl, Option-cases, subst,
}
use ece391_computer_systems.FileSystem.{Dentry, read_dentry_by_name}
use ece391_computer_systems.Kernel.{
  Kernel, Machine, FileDescriptor, rtc_fops, dir_fops, file_fops, Pcb, get_cur_pcb, put_pcb, set_fd,
}
use ece391_computer_systems.Kernel.Files.{
  free_idx_loop, free_idx_fd, opened, closed_fd, put_fds, sys_open, sys_close,
}

-- `i` is the first free descriptor, or 8 where there is none.
pub record IsFirstFree (fds : ℕ → FileDescriptor) (i : ℕ) : Type 0 where
  pub behind : 2 ≤ i
  pub within : i ≤ 8
  pub busy_before : (j : ℕ) → 2 ≤ j → j < i → (fds j).flags ≡ 1
  pub free : i < 8 → (fds i).flags ≢ 1

free_idx_loop_lem :
    (left : ℕ) (fds : ℕ → FileDescriptor) (i first : ℕ)
    → IsFirstFree fds first
    → i ≤ first
    → 2 ≤ i
    → left + i ≡ 8
    → (free_idx_loop left fds i).0 ≡ first
unfolding free_idx_loop
free_idx_loop_lem zero fds i first f h g e = omega (arith, f.within)
free_idx_loop_lem (suc left) fds i first f h g e =
    ground (arith, f.busy_before i, f.free, free_idx_loop_lem left fds (i + 1) first f)

free_idx_loop_marks :
    (left : ℕ) (fds : ℕ → FileDescriptor) (i j : ℕ)
    → left + i ≡ 8
    → j < 8
    → (free_idx_loop left fds i).1 j
      ≡ (if j == (free_idx_loop left fds i).0 then record (fds j) { flags = 1 } else fds j)
unfolding free_idx_loop
free_idx_loop_marks zero fds i j e h = ground arith
free_idx_loop_marks (suc left) fds i j e h = elim (Bool-cases (not ((fds i).flags == 1))) [
  | inl stop ↦ rw stop (ground arith)
  | inr go ↦ rw go (free_idx_loop_marks left fds (i + 1) j (omega arith) h)
]

-- `free_idx_fd` returns the first descriptor from 2 to 7 that is not in use, and marks it and no
-- other; it returns 8 and marks none where all are in use.
pub free_idx_fd_lem :
    (fds : ℕ → FileDescriptor) (i : ℕ)
    → IsFirstFree fds i
    → ((free_idx_fd fds).0 ≡ i)
      × ((j : ℕ)
          → j < 8
          → (free_idx_fd fds).1 j ≡ (if j == i then record (fds j) { flags = 1 } else fds j))
unfolding free_idx_fd
free_idx_fd_lem fds i f =
    let at = free_idx_loop_lem 6 fds 2 i f f.behind (omega arith) refl in
    (
      at,
      λ j h.
          free_idx_loop_marks 6 fds 2 j refl h
          ∙ ap (λ (x : ℕ). if j == x then record (fds j) { flags = 1 } else fds j) at,
    )

-- The marked array, with the marked descriptor set up.
set_fd-marked :
    (fds marked : ℕ → FileDescriptor) (filename : ℕ) (e : Dentry) (i j : ℕ)
    → marked i ≡ (if i == i then record (fds i) { flags = 1 } else fds i)
    → marked j ≡ (if j == i then record (fds j) { flags = 1 } else fds j)
    → set_fd i (opened (marked i) filename e) marked j
      ≡ (if j == i then opened (record (fds i) { flags = 1 }) filename e else fds j)
set_fd-marked fds marked filename e i j hi hj = elim (Bool-cases (j == i)) [
  | inl same ↦ rw same (ap (λ d. opened d filename e) (rw (==_refl i) at hi))
  | inr other ↦ rw other (rw other at hj)
]

-- The descriptors of the running process.
abbrev pub fds_of : Kernel → ℕ → FileDescriptor
fds_of k = (get_cur_pcb k).file_descriptor

pub eqz_refl : (z : ℤ) → eqz z z ≡ true
eqz_refl (pos n) = ground arith
eqz_refl (negsuc n) = ground arith

pub get_cur_pcb-put_pcb : (k : Kernel) (b : Pcb) → get_cur_pcb (put_pcb k.pid_val b k) ≡ b
get_cur_pcb-put_pcb k b = ap (λ t. if t then b else k.pcbs k.pid_val) (eqz_refl k.pid_val)

pub fds_of-put_fds :
    (k : Kernel) (fds : ℕ → FileDescriptor) (j : ℕ) → fds_of (put_fds fds k) j ≡ fds j
fds_of-put_fds k fds j =
    ap (λ (b : Pcb). b.file_descriptor j)
      (get_cur_pcb-put_pcb k (record (get_cur_pcb k) { file_descriptor = fds }))

-- The descriptors after `sys_open`.
sys_open-marked :
    (k : Kernel) (filename : ℕ) (e : Dentry) (i : ℕ)
    → read_dentry_by_name k.fs k.console.mem filename ≡ some e
    → IsFirstFree (fds_of k) i
    → i < 8
    → ((sys_open k filename).0 ≡ pos i)
      × ((j : ℕ)
          → j < 8
          → fds_of (sys_open k filename).1 j ≡ (
              if j == i then opened (record (fds_of k i) { flags = 1 }) filename e else fds_of k j))
unfolding sys_open
sys_open-marked k filename e i found f h =
    let (at, marks) = free_idx_fd_lem (fds_of k) i f in
    rw (found, at, ne→==_false i 8 (omega arith))
      (
        refl,
        λ j l.
            fds_of-put_fds k
              (set_fd i (opened ((free_idx_fd (fds_of k)).1 i) filename e)
                (free_idx_fd (fds_of k)).1)
              j
            ∙ set_fd-marked (fds_of k) (free_idx_fd (fds_of k)).1 filename e i j (marks i h)
                (marks j l),
      )

-- The descriptor of an open file of type 0 (clock), 1 (directory) or 2 (regular file).
abbrev pub IsOpen : ℕ → Dentry → FileDescriptor → Type 0
IsOpen filename e d =
    (d.flags ≡ 1)
    × (d.name_of_file ≡ filename)
    × (d.file_position ≡ 0)
    × (d.internal_ftype ≡ e.filetype)
    × (d.inode_index ≡ (if e.filetype == 2 then e.inode_num else 0))
    × (d.file_table_pointer
        ≡ (if e.filetype == 0 then rtc_fops else if e.filetype == 1 then dir_fops else file_fops))

opened-IsOpen :
    (d : FileDescriptor) (filename : ℕ) (e : Dentry)
    → e.filetype ≤ 2
    → IsOpen filename e (opened (record d { flags = 1 }) filename e)
opened-IsOpen d filename e h =
    (ground arith, ground arith, ground arith, ground arith, ground arith, ground arith)

-- `sys_open` of a name that the file system has, with a file type of at most 2, takes the first free
-- descriptor `i`: it is in use then, with the name, at position 0, with the type and the operations
-- of the file, and with its inode if it is a regular file and 0 otherwise. The other descriptors stay
-- as they were.
pub sys_open-free :
    (k : Kernel) (filename : ℕ) (e : Dentry) (i : ℕ)
    → read_dentry_by_name k.fs k.console.mem filename ≡ some e
    → e.filetype ≤ 2
    → IsFirstFree (fds_of k) i
    → i < 8
    → ((sys_open k filename).0 ≡ pos i)
      × IsOpen filename e (fds_of (sys_open k filename).1 i)
      × ((j : ℕ) → j < 8 → j ≢ i → fds_of (sys_open k filename).1 j ≡ fds_of k j)
sys_open-free k filename e i found known f h =
    let m = sys_open-marked k filename e i found f h in
    (
      m.0,
      subst (IsOpen filename e) (sym (rw (==_refl i) at (m.1 i h)))
          (opened-IsOpen (fds_of k i) filename e known),
      λ j l ne. rw (ne→==_false j i ne) at (m.1 j l),
    )

-- With no descriptor free, `sys_open` fails and leaves all descriptors as they were.
pub sys_open-full :
    (k : Kernel) (filename : ℕ)
    → IsFirstFree (fds_of k) 8
    → ((sys_open k filename).0 ≡ failure)
      × ((j : ℕ) → j < 8 → fds_of (sys_open k filename).1 j ≡ fds_of k j)
unfolding sys_open
sys_open-full k filename f = elim (Option-cases (read_dentry_by_name k.fs k.console.mem filename)) [
  | inl missing ↦ rw missing (refl, λ j l. refl)
  | inr (e, found) ↦
      let (at, marks) = free_idx_fd_lem (fds_of k) 8 f in
      rw (found, at)
        (
          refl,
          λ j l.
              fds_of-put_fds k (free_idx_fd (fds_of k)).1 j
              ∙ (rw (ne→==_false j 8 (omega arith)) at (marks j l)),
        )
]

opened-flags :
    (d : FileDescriptor) (filename : ℕ) (e : Dentry) → (opened d filename e).flags ≡ d.flags
opened-flags d filename e = ground arith

-- Closing a descriptor that `sys_open` returned succeeds, marks it as free at position 0, and
-- leaves the other descriptors alone, so that the next `sys_open` finds it free again.
pub sys_close-busy :
    (w : Machine) (k : Kernel) (i : ℕ)
    → 2 ≤ i
    → i ≤ 7
    → (fds_of k i).flags ≢ 0
    → ((sys_close w k (pos i)).0 ≡ success)
      × ((j : ℕ)
          → fds_of (sys_close w k (pos i)).1 j
            ≡ (if j == i then closed_fd w.empty_literal (fds_of k i) else fds_of k j))
unfolding sys_close
sys_close-busy w k i lo hi busy =
    rw (le→ltb_false i 2 lo, le→ltb_false 7 i hi, ne→==_false (fds_of k i).flags 0 busy)
      (refl, fds_of-put_fds k (set_fd i (closed_fd w.empty_literal (fds_of k i)) (fds_of k)))

-- The standard descriptors, numbers out of range and free descriptors cannot be closed.
pub sys_close-refused :
    (w : Machine) (k : Kernel) (fd : ℤ)
    → ((n : ℕ) → fd ≡ pos n → (n < 2) ⊎ (7 < n) ⊎ ((fds_of k n).flags ≡ 0))
    → sys_close w k fd ≡ (failure, k)
unfolding sys_close
sys_close-refused w k (negsuc n) h = refl
sys_close-refused w k (pos n) h = ground (arith, h n refl)

-- Opening a file and closing the descriptor makes the same descriptor the first free one again.
pub sys_close-sys_open :
    (w : Machine) (k : Kernel) (filename : ℕ) (e : Dentry) (i : ℕ)
    → read_dentry_by_name k.fs k.console.mem filename ≡ some e
    → IsFirstFree (fds_of k) i
    → i < 8
    → ((sys_close w (sys_open k filename).1 (pos i)).0 ≡ success)
      × IsFirstFree (fds_of (sys_close w (sys_open k filename).1 (pos i)).1) i
sys_close-sys_open w k filename e i found f h = (
  closed.0,
  record {
    behind = f.behind;
    within = f.within;
    busy_before = λ j lo hi.
        ap (λ (d : FileDescriptor). d.flags)
          (rw (ne→==_false j i (omega arith)) at (closed.1 j)
            ∙ (rw (ne→==_false j i (omega arith)) at (did.1 j (omega arith))))
        ∙ f.busy_before j lo hi;
    free = λ l e0.
        absurd
          (free_now (ap (λ (d : FileDescriptor). d.flags) (rw (==_refl i) at (closed.1 i))) e0);
  },
)
  where
    did :
        ((sys_open k filename).0 ≡ pos i)
        × ((j : ℕ)
            → j < 8
            → fds_of (sys_open k filename).1 j ≡ (
                if j == i
                then opened (record (fds_of k i) { flags = 1 }) filename e
                else fds_of k j))
    did = sys_open-marked k filename e i found f h

    one_ne_zero : ¬ (◌≡◌ {A = ℕ} 1 0)
    one_ne_zero p = omega arith

    busy : (fds_of (sys_open k filename).1 i).flags ≢ 0
    busy = λ z. absurd (
        one_ne_zero (
          sym (opened-flags (record (fds_of k i) { flags = 1 }) filename e)
          ∙ sym (ap (λ (d : FileDescriptor). d.flags) (rw (==_refl i) at (did.1 i h)))
          ∙ z))

    closed :
        ((sys_close w (sys_open k filename).1 (pos i)).0 ≡ success)
        × ((j : ℕ)
            → fds_of (sys_close w (sys_open k filename).1 (pos i)).1 j ≡ (
                if j == i
                then closed_fd w.empty_literal (fds_of (sys_open k filename).1 i)
                else fds_of (sys_open k filename).1 j))
    closed = sys_close-busy w (sys_open k filename).1 i f.behind (omega arith) busy

    free_now : {n : ℕ} → n ≡ 0 → n ≡ 1 → ⊥
    free_now p q = omega arith
