-- ===== src/FileSystem/Examples.antt =====
-- A tiny disk image: one directory entry named `a`, and a file of 5 bytes in data block 1.
use ece391_computer_systems.Base.{
  ℕ, zero, suc, ◌+◌, ◌≤◌, ◌<◌, ◌≡◌, inl, if◌then◌else◌, Mem, arith, pos, ◌==◌, refl, some, none,
}
use ece391_computer_systems.Libc.{strlen, strncmp}
use ece391_computer_systems.FileSystem.{
  Fs, load_dentry, read_dentry_by_name, file_length, block_addr, read_data,
}
use ece391_computer_systems.FileSystem.SmallReads.{with_file}
use ece391_computer_systems.FileSystem.LargeReads.{IsApart, read_data-blocks}

abbrev disk : Fs
disk = record {
  total_dirs = 1;
  start_boot_block = 0;
  start_inode = 4096;
  inode_nums = 3;
  start_datablock = 12288;
}

-- Inode 0 has 5 bytes in block 1, inode 1 has 5000 bytes in blocks 0 and 1. The string `a` is at
-- 30000 too.
abbrev image : Mem
image a =
    if a == 64
    then 97
    else if a == 30000
    then 97
    else if a == 4096
    then 5
    else if a == 4100
    then 1
    else if a == 8192
    then 136
    else if a == 8193
    then 19
    else if a == 8200
    then 1
    else if a == 16384
    then 72
    else if a == 16385
    then 73
    else 0

image_bytes : (x : ℕ) → image x < 256
image_bytes x = ground arith

found_a : read_dentry_by_name disk image 30000 ≡ some (load_dentry image 64)
unfolding read_dentry_by_name strncmp strlen
found_a = refl

not_found : read_dentry_by_name disk image 16384 ≡ none
unfolding read_dentry_by_name strncmp strlen
not_found = refl

blocks_below : (k : ℕ) → k ≤ 1 → block_addr disk image 1 k + 4096 ≤ 20480
unfolding block_addr
blocks_below zero h = omega arith
blocks_below (suc zero) h = omega arith
blocks_below (suc (suc k)) h = absurd (omega arith)

image-IsApart : IsApart disk image 1 0 40000 5000 20480
image-IsApart = record {
  ordered = omega arith;
  entries = omega arith;
  blocks = λ k h. blocks_below k (omega arith);
  outside = inl (omega arith);
}

read_data-blocks_example :
    ((read_data disk image 1 0 40000 5000).0 ≡ pos 904)
    × (904 < 5000)
    × ((a : ℕ) → (read_data disk image 1 0 40000 5000).1 a ≡ with_file disk image 1 0 40000 5000 a)
unfolding file_length
read_data-blocks_example =
    read_data-blocks disk image 1 0 40000 5000 20480 image-IsApart (omega arith) (omega arith)
      (omega arith) (omega arith)
