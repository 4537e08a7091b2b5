-- ===== src/FileSystem/SmallReads.antt =====
-- `read_data` where the bytes lie in one data block: they are copied and counted exactly.
use Prim.Native.Nat.{min}
use ece391_computer_systems.Base.{
  ℕ, ◌+◌, ◌-◌, ◌/◌, ◌%◌, ◌≤◌, ◌<◌, ◌≡◌, ◌&&◌, ltb, leb, if◌then◌else◌, Mem, arith, pos, add32,
  sub32, le→leb, lt→leb_false, Bool-cases, ltb→lt, not_ltb→le, ◌⊎◌, inl, inr,
}
use ece391_computer_systems.Libc.{memcpy}
use ece391_computer_systems.Libc.Memcpy.{Disjoint, memcpy_lem}
use ece391_computer_systems.FileSystem.{Fs, block_addr, file_length, read_from, read_data}

-- Byte `k` of a file: its place in the block that the inode names for it.
abbrev pub file_byte : Fs → Mem → ℕ → ℕ → ℕ
file_byte f m inode k = m (block_addr f m inode (k / 4096) + k % 4096)

-- What a byte holds once `n` bytes of the file from `offset` on are in the buffer.
abbrev pub with_file : Fs → Mem → ℕ → ℕ → ℕ → ℕ → ℕ → ℕ
with_file f m inode offset buf n a =
    if leb buf a && ltb a (buf + n) then file_byte f m inode (offset + (a - buf)) else m a

-- `n` bytes of a block, copied behind the `done` bytes that are already in the buffer.
pub with_file-memcpy :
    (f : Fs) (m m' : Mem) (inode offset buf done n src a : ℕ)
    → ((x : ℕ) → m' x ≡ with_file f m inode offset buf done x)
    → src ≡ block_addr f m inode ((offset + done) / 4096) + (offset + done) % 4096
    → (offset + done) % 4096 + n ≤ 4096
    → (buf + done + n ≤ src) ⊎ (src + n ≤ buf)
    → memcpy m' (buf + done) src n a ≡ with_file f m inode offset buf (done + n) a
with_file-memcpy f m m' inode offset buf done n src a same at fits apart = ground (
  arith,
  memcpy_lem m' (buf + done) src n a,
  same a,
  same (src + (a - (buf + done))),
  block_lem (offset + done) (a - (buf + done)),
)
  where
    block_lem :
        (x k : ℕ)
        → x % 4096 + k < 4096
        → ((x + k) / 4096 ≡ x / 4096) × ((x + k) % 4096 ≡ x % 4096 + k)
    block_lem x k h = omega arith

cut_length :
    (size len offset n : ℕ)
    → offset ≤ size
    → size < 2147483648
    → len + offset < 4294967296
    → n ≡ min len (size - offset)
    → size < add32 len offset
    → sub32 size offset ≡ n
cut_length size len offset n a b c d e = omega arith

whole_length :
    (size len offset n : ℕ)
    → len + offset < 4294967296
    → n ≡ min len (size - offset)
    → add32 len offset ≤ size
    → len ≡ n
whole_length size len offset n c d e = omega arith

module _ (f : Fs) (m : Mem) (inode offset buf : ℕ) where
  read_from-one_block :
      (asked n : ℕ)
      → n < 2147483648
      → offset % 4096 + n ≤ 4096
      → Disjoint buf (block_addr f m inode (offset / 4096) + offset % 4096) n
      → ((read_from f m inode offset buf asked n).0 ≡ pos n)
        × ((a : ℕ)
            → (read_from f m inode offset buf asked n).1 a ≡ with_file f m inode offset buf n a)
  unfolding read_from
  read_from-one_block asked n small h d =
      rw (le→leb n (4096 - offset % 4096) (omega arith)) (ground arith, copied)
    where
      start : (x : ℕ) → m x ≡ with_file f m inode offset buf 0 x
      start x = ground arith

      copied :
          (a : ℕ)
          → memcpy m buf (block_addr f m inode (offset / 4096) + offset % 4096) n a
            ≡ with_file f m inode offset buf n a
      copied a = ground (
        arith,
        with_file-memcpy f m m inode offset buf 0 n
            (block_addr f m inode (offset / 4096) + offset % 4096) a start,
      )

  -- A read that starts inside the file and whose bytes, cut at the end of the file, lie in one data
  -- block that the buffer does not overlap, of a file of less than 2 GB, returns their number,
  -- leaves exactly those bytes of the file in the buffer, and changes nothing else.
  pub read_data-one_block :
      (len n : ℕ)
      → inode + 1 < f.inode_nums
      → file_length f m inode < 2147483648
      → offset ≤ file_length f m inode
      → len + offset < 4294967296
      → n ≡ min len (file_length f m inode - offset)
      → offset % 4096 + n ≤ 4096
      → Disjoint buf (block_addr f m inode (offset / 4096) + offset % 4096) n
      → ((read_data f m inode offset buf len).0 ≡ pos n)
        × ((a : ℕ) → (read_data f m inode offset buf len).1 a ≡ with_file f m inode offset buf n a)
  unfolding read_data
  read_data-one_block len n hi hl ho hw hn hb d =
      rw (lt→leb_false (f.inode_nums - 1) inode (omega arith))
        (elim (Bool-cases (ltb size (add32 len offset))) [
          | inl past ↦
              rw
                (
                  past,
                  cut_length size len offset n ho hl hw hn (ltb→lt size (add32 len offset) past),
                )
                (read_from-one_block len n (omega arith) hb d)
          | inr inside ↦
              rw
                (
                  inside,
                  whole_length size len offset n hw hn (not_ltb→le size (add32 len offset) inside),
                )
                (read_from-one_block n n (omega arith) hb d)
        ])
    where
      size : ℕ
      size = file_length f m inode
