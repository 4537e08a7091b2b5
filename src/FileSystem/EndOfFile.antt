-- ===== src/FileSystem/EndOfFile.antt =====
-- `read_data` at and behind the end of a file, and at a bad inode.
use ece391_computer_systems.Base.{
  ℕ, ◌+◌, ◌-◌, ◌/◌, ◌%◌, ◌≤◌, ◌<◌, ◌≡◌, Mem, arith, add32, sub32, failure, le→leb, lt→leb_false,
  lt→ltb,
}
use ece391_computer_systems.Libc.{memcpy}
use ece391_computer_systems.FileSystem.{
  Fs, block_addr, file_length, read_from, read_blocks, read_data,
}

-- An inode number behind the last one is refused, and nothing is written.
pub read_data-bad_inode :
    (f : Fs) (m : Mem) (inode offset buf len : ℕ)
    → f.inode_nums ≤ inode + 1
    → read_data f m inode offset buf len ≡ (failure, m)
unfolding read_data
read_data-bad_inode f m inode offset buf len h = rw (le→leb (f.inode_nums - 1) inode (omega arith))

-- A read with `offset` by less than 2 GB behind the end of the file, and an end that does not wrap,
-- is not cut to nothing: the subtraction of the unsigned lengths wraps, and the call runs as an
-- uncut read of a huge length.
pub read_data-behind_end :
    (f : Fs) (m : Mem) (inode offset buf len : ℕ)
    → inode + 1 < f.inode_nums
    → file_length f m inode < offset
    → offset - file_length f m inode < 2147483648
    → len + offset < 4294967296
    → read_data f m inode offset buf len
      ≡ read_blocks f
          (sub32 len (4096 - offset % 4096))
          (memcpy m buf
            (block_addr f m inode (offset / 4096) + offset % 4096)
            (4096 - offset % 4096))
          inode
          offset
          buf
          0
          (block_addr f
            (memcpy m buf
              (block_addr f m inode (offset / 4096) + offset % 4096)
              (4096 - offset % 4096))
            inode
            (offset / 4096 + 1))
          (sub32 len (4096 - offset % 4096))
unfolding read_data read_from
read_data-behind_end f m inode offset buf len hi past near hw = rw (
  lt→leb_false (f.inode_nums - 1) inode (omega arith),
  lt→ltb (file_length f m inode) (add32 len offset) (omega arith),
  lt→leb_false (sub32 (file_length f m inode) offset) (4096 - offset % 4096) (omega arith),
)
