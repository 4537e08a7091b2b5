-- ===== src/Kernel/Files/Transfers.antt =====
-- Reading and writing through descriptors.
use ece391_computer_systems.Base.{
  ℕ, ◌%◌, ◌≤◌, ◌<◌, ◌≡◌, ◌≢◌, ◌⊎◌, inl, inr, Bool, true, false, ◌&&◌, ◌==◌, ltb, leb, ℤ, pos,
  negsuc, failure, arith, refl, Bool-cases, ne→==_false, le→ltb_false, le→leb, add32, ==_refl, ap,
  ◌∙◌,
}
use ece391_computer_systems.FileSystem.{file_read, file_write, dir_write, read_data}
use ece391_computer_systems.Kernel.{
  Kernel, Machine, returned, FileDescriptor, FileOps, dir_fops, file_fops, set_fd, with_mem,
}
use ece391_computer_systems.Kernel.Files.{
  put_fds, sys_read, read_fd, after_read, in_memory, sys_write, write_fd, advance,
}
use ece391_computer_systems.Kernel.Files.Opening.{fds_of, fds_of-put_fds}

-- Both calls reject a null buffer, a descriptor out of range, and a count that `sys_read` or
-- `sys_write` cannot serve, and then change nothing.
pub transfers-reject :
    (w : Machine) (k : Kernel) (fd : ℤ) (buf : ℕ) (nbytes : ℤ)
    → (buf ≡ 0) ⊎ ((n : ℕ) → fd ≡ pos n → 7 < n) ⊎ ((n : ℕ) → nbytes ≢ pos n)
    → (sys_read w k fd buf nbytes ≡ returned failure k)
      × (sys_write w k fd buf nbytes ≡ returned failure k)
unfolding sys_read sys_write
transfers-reject w k (negsuc a) buf nbytes h = (refl, refl)
transfers-reject w k (pos a) buf (negsuc b) h = (refl, refl)
transfers-reject w k (pos a) buf (pos b) (inl z) = (ground arith, ground arith)
transfers-reject w k (pos a) buf (pos b) (inr (inl far)) =
    (ground (arith, far a refl), ground (arith, far a refl))
transfers-reject w k (pos a) buf (pos b) (inr (inr neg)) = absurd (neg b refl)

-- A descriptor from 2 to 7 that is not in use can be neither read (unless it still has the type
-- of a directory read to its end) nor written.
pub transfers-unused :
    (w : Machine) (k : Kernel) (fd buf n : ℕ)
    → 2 ≤ fd
    → fd ≤ 7
    → buf ≢ 0
    → n ≢ 0
    → (fds_of k fd).flags ≡ 0
    → (fds_of k fd).internal_ftype ≢ 1
    → (sys_read w k (pos fd) buf (pos n) ≡ returned failure k)
      × (sys_write w k (pos fd) buf (pos n) ≡ returned failure k)
unfolding sys_read sys_write
transfers-unused w k fd buf n lo hi hb hn unused no_dir = (ground arith, ground arith)

and_false : (b : Bool) → b && false ≡ false
and_false true = refl
and_false false = refl

-- Behind the checks of the parameters, through a table whose `write` is that of files or
-- directories.
write_fd-read_only :
    (w : Machine) (k : Kernel) (fd buf n : ℕ) (d : FileDescriptor) (ops : FileOps)
    → d.file_table_pointer ≡ ops
    → (ops ≡ file_fops) ⊎ (ops ≡ dir_fops)
    → write_fd w k fd buf n d ≡ returned failure k
unfolding file_write dir_write
write_fd-read_only w k fd buf n d ops e kind = elim (Bool-cases (leb 2 fd && (d.flags == 0))) [
  | inl c ↦ rw c refl
  | inr c ↦ elim kind [
    | inl f ↦ rw (c, e, f, and_false (ltb fd 2)) refl
    | inr f ↦ rw (c, e, f, and_false (ltb fd 2)) refl
  ]
]

-- The file system is read-only: a write to a descriptor up to 7 whose operations are those of files
-- or of directories fails and changes nothing.
pub sys_write-read_only :
    (w : Machine) (k : Kernel) (fd buf n : ℕ)
    → fd ≤ 7
    → ((fds_of k fd).file_table_pointer ≡ file_fops) ⊎ ((fds_of k fd).file_table_pointer ≡ dir_fops)
    → sys_write w k (pos fd) buf (pos n) ≡ returned failure k
unfolding sys_write
sys_write-read_only w k fd buf n hi ops =
    let r =
      write_fd-read_only w k fd buf n (fds_of k fd) (fds_of k fd).file_table_pointer refl ops in
    elim (Bool-cases (buf == 0)) [ inl b ↦ rw b refl | inr b ↦ rw (b, le→ltb_false 7 fd hi) r ]

-- Behind the checks, a descriptor of a regular file takes its read from the file's data.
read_fd-file :
    (w : Machine) (k : Kernel) (fd buf n r : ℕ) (d : FileDescriptor)
    → 2 ≤ fd
    → d.flags ≢ 0
    → d.internal_ftype ≡ 2
    → d.file_table_pointer ≡ file_fops
    → d.name_of_file ≢ 0
    → (read_data k.fs k.console.mem d.inode_index d.file_position buf n).0 ≡ pos r
    → read_fd w k fd buf n d
      ≡ after_read k.pid_val fd (
          in_memory k (pos r, (read_data k.fs k.console.mem d.inode_index d.file_position buf n).1))
unfolding file_read
read_fd-file w k fd buf n r d lo busy ty ops name got =
    rw
      (
        ty,
        ne→==_false d.flags 0 busy,
        le→leb 2 fd lo,
        le→ltb_false fd 2 lo,
        ops,
        ne→==_false d.name_of_file 0 name,
      )
      (rw got refl)

set_fd_self : (i : ℕ) (d : FileDescriptor) (fds : ℕ → FileDescriptor) → set_fd i d fds i ≡ d
set_fd_self i d fds = rw (==_refl i) refl

advanced :
    (d : FileDescriptor) (r : ℕ)
    → d.internal_ftype ≡ 2
    → advance d (pos r) ≡ record d { file_position = add32 d.file_position (r % 4294967296) }
advanced d r ty = rw ty refl

-- Through a descriptor from 2 to 7 in use, with a name, into a buffer that is not null and with a
-- count that is not 0, a read of a regular file is a read of its data from the position: where that
-- succeeds with `r` bytes, the call returns `r`, moves the position on by `r` and keeps the inode
-- of the descriptor and its flags.
pub sys_read-file :
    (w : Machine) (k : Kernel) (fd buf n r : ℕ)
    → 2 ≤ fd
    → fd ≤ 7
    → buf ≢ 0
    → n ≢ 0
    → (fds_of k fd).flags ≢ 0
    → (fds_of k fd).internal_ftype ≡ 2
    → (fds_of k fd).file_table_pointer ≡ file_fops
    → (fds_of k fd).name_of_file ≢ 0
    → (read_data k.fs k.console.mem (fds_of k fd).inode_index (fds_of k fd).file_position buf n).0
      ≡ pos r
    → (k' : Kernel) × (sys_read w k (pos fd) buf (pos n) ≡ returned (pos r) k')
      × ((fds_of k' fd).file_position ≡ add32 (fds_of k fd).file_position (r % 4294967296))
      × ((fds_of k' fd).inode_index ≡ (fds_of k fd).inode_index)
      × ((fds_of k' fd).flags ≡ (fds_of k fd).flags)
      × (k'.console.mem
          ≡ (read_data k.fs k.console.mem
              (fds_of k fd).inode_index
              (fds_of k fd).file_position
              buf
              n).1)
unfolding sys_read
sys_read-file w k fd buf n r lo hi hb hn busy ty ops name got =
    let d = fds_of k fd in
    let m = (read_data k.fs k.console.mem d.inode_index d.file_position buf n).1 in
    let fds = set_fd fd (advance d (pos r)) (fds_of k) in
    let here =
      fds_of-put_fds (with_mem k m) fds fd ∙ set_fd_self fd (advance d (pos r)) (fds_of k) in
    let moved = advanced d r ty in
    (
      put_fds fds (with_mem k m),
      rw (ne→==_false buf 0 hb, ne→==_false n 0 hn, le→ltb_false 7 fd hi)
          (read_fd-file w k fd buf n r d lo busy ty ops name got),
      ap (λ x. x.file_position) here ∙ ap (λ x. x.file_position) moved,
      ap (λ x. x.inode_index) here ∙ ap (λ x. x.inode_index) moved,
      ap (λ x. x.flags) here ∙ ap (λ x. x.flags) moved,
      refl,
    )
