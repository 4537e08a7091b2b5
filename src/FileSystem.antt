-- ===== src/FileSystem.antt =====
-- The read-only file system of MP3_FinalProj_Kernel/student-distrib/file_system_driver.c and .h,
-- over the memory image that the boot loader leaves. The static pointers are the record `Fs`.
pub mod Directory
pub mod SmallReads
pub mod LargeReads
pub mod EndOfFile
pub mod Listing
mod Examples
use ece391_computer_systems.Base.{
  ℕ, zero, suc, ◌+◌, ◌-◌, ◌*◌, ◌/◌, ◌%◌, Bool, ◌||◌, not, Option, none, some, ◌==◌, ltb, leb,
  if◌then◌else◌, Mem, store, load32, ℤ, pos, negsuc, failure, success, signed32, add32, sub32, eqz,
}
use ece391_computer_systems.Libc.{memcpy, strlen, strncmp}

pub record Fs : Type 0 where
  pub total_dirs : ℕ
  pub start_boot_block : ℕ
  pub start_inode : ℕ
  pub inode_nums : ℕ
  pub start_datablock : ℕ

-- `*file_start` and `*(file_start + 4)` are single bytes.
pub init_filesystem : Mem → ℕ → Fs
init_filesystem m file_start = record {
  total_dirs = m file_start;
  start_boot_block = file_start;
  start_inode = file_start + 4096;
  inode_nums = m (file_start + 4) + 1;
  start_datablock = file_start + (m (file_start + 4) + 1) * 4096;
}

-- `struct file_dentry_t`, as the local variable that a caller passes.
pub record Dentry : Type 0 where
  pub filename : ℕ → ℕ
  pub filetype : ℕ
  pub inode_num : ℕ

-- The struct at an address.
abbrev pub load_dentry : Mem → ℕ → Dentry
load_dentry m a = record {
  filename = λ i. m (a + i);
  filetype = load32 m (a + 32);
  inode_num = load32 m (a + 36);
}

-- The entry with number `i`, behind the first 64 bytes of the boot block.
abbrev pub dentry_addr : Fs → ℕ → ℕ
dentry_addr f i = f.start_boot_block + 64 * (i + 1)

-- The loop over `i < total_dirs`, with the rounds left and the address of the entry at hand.
pub find_dentry : ℕ → Mem → ℕ → ℕ → Option Dentry
find_dentry zero m fname current_dir = none
find_dentry (suc left) m fname current_dir =
    let rest = find_dentry left m fname (current_dir + 64) in
    if eqz (strncmp m current_dir fname 32) (pos 0) then some (load_dentry m current_dir) else rest

-- `none` is the return value -1, which leaves `*dentry` alone; `some` is 1 with the entry copied.
unfoldable pub read_dentry_by_name : Fs → Mem → ℕ → Option Dentry
unfolding find_dentry
read_dentry_by_name f m fname =
    if ltb 32 (strlen m fname)
    then none
    else find_dentry f.total_dirs m fname (f.start_boot_block + 64)

unfoldable pub read_dentry_by_index : Fs → Mem → ℕ → Option Dentry
read_dentry_by_index f m index =
    if ltb 62 index then none else some (load_dentry m (f.start_boot_block + 64 * (index + 1)))

-- `(start_inode + inode)->length`, and the address of data block `data_block_num[k]`.
unfoldable pub file_length : Fs → Mem → ℕ → ℕ
file_length f m inode = load32 m (f.start_inode + 4096 * inode)

unfoldable pub block_addr : Fs → Mem → ℕ → ℕ → ℕ
block_addr f m inode k =
    f.start_datablock + 4096 * load32 m (f.start_inode + 4096 * inode + 4 + 4 * k)

-- `while (bytes_to_read > 4096)`, and the last `memcpy`. The result is `bytes_to_read`.
pub read_blocks : Fs → ℕ → Mem → ℕ → ℕ → ℕ → ℕ → ℕ → ℕ → ℤ × Mem
read_blocks f zero m inode offset buf idx current_byte bytes_to_read = (
  signed32 bytes_to_read,
  memcpy m (buf + 4096 - offset % 4096 + 4096 * idx) current_byte bytes_to_read,
)
read_blocks f (suc fuel) m inode offset buf idx current_byte bytes_to_read =
    let m' = memcpy m (buf + 4096 - offset % 4096 + 4096 * idx) current_byte 4096 in
    let rest =
      read_blocks f fuel m' inode offset buf (idx + 1)
        (block_addr f m' inode (offset / 4096 + (idx + 1) + 1)) (bytes_to_read - 4096) in
    if ltb 4096 bytes_to_read then rest else (
      signed32 bytes_to_read,
      memcpy m (buf + 4096 - offset % 4096 + 4096 * idx) current_byte bytes_to_read,
    )

-- The part behind the checks. `bytes_to_read` still starts from the length that was asked for.
pub read_from : Fs → Mem → ℕ → ℕ → ℕ → ℕ → ℕ → ℤ × Mem
read_from f m inode offset buf asked len =
    let current_byte = block_addr f m inode (offset / 4096) + offset % 4096 in
    if leb len (4096 - offset % 4096)
    then (signed32 len, memcpy m buf current_byte len)
    else let m' = memcpy m buf current_byte (4096 - offset % 4096) in
      let bytes_to_read = sub32 asked (4096 - offset % 4096) in
      read_blocks f bytes_to_read m' inode offset buf 0 (block_addr f m' inode (offset / 4096 + 1))
        bytes_to_read

unfoldable pub read_data : Fs → Mem → ℕ → ℕ → ℕ → ℕ → ℤ × Mem
read_data f m inode offset buf len =
    if leb (f.inode_nums - 1) inode
    then (failure, m)
    else if ltb (file_length f m inode) (add32 len offset)
    then read_from f m inode offset buf len (sub32 (file_length f m inode) offset)
    else read_from f m inode offset buf len len

-- The file operations. A name that is a null pointer is 0; the directory entry read is not used.
unfoldable pub file_read : Fs → Mem → ℕ → ℕ → ℕ → ℕ → ℕ → ℤ × Mem
file_read f m buf nbytes file_name offset inode_index =
    if file_name == 0 then (failure, m) else read_data f m inode_index offset buf nbytes

-- The number of characters that the loop over `i < 32` copies, with the rounds left.
pub name_length : ℕ → (ℕ → ℕ) → ℕ → ℕ
name_length zero filename i = i
name_length (suc left) filename i =
    let rest = name_length left filename (i + 1) in if filename i == 0 then i else rest

-- `memcpy(buf, string, i)` from the local array.
pub put_bytes : Mem → ℕ → (ℕ → ℕ) → ℕ → Mem
put_bytes m buf string zero = m
put_bytes m buf string (suc n) =
    put_bytes (store m buf (string 0)) (buf + 1) (λ i. string (i + 1)) n

-- `dummy` is what the local variable held before: a bad index leaves it unchanged.
abbrev pub dentry_or : Option Dentry → Dentry → Dentry
dentry_or none dummy = dummy
dentry_or (some d) dummy = d

pub read_name : Mem → ℕ → (ℕ → ℕ) → ℤ × Mem
read_name m buf filename =
    if filename 0 == 0
    then (failure, m)
    else (pos (name_length 32 filename 0), put_bytes m buf filename (name_length 32 filename 0))

unfoldable pub dir_read : Fs → Mem → ℕ → ℕ → Dentry → ℤ × Mem
dir_read f m buf offset dummy =
    read_name m buf (dentry_or (read_dentry_by_index f m offset) dummy).filename

pub file_open : ℕ → ℤ
file_open filename = success

pub dir_open : ℕ → ℤ
dir_open filename = success

pub file_close : ℤ → ℤ
file_close fd = success

pub dir_close : ℤ → ℤ
dir_close fd = success

unfoldable pub file_write : ℤ → ℕ → ℤ → ℤ
file_write fd buf nbytes = failure

unfoldable pub dir_write : ℤ → ℕ → ℤ → ℤ
dir_write fd buf nbytes = failure
