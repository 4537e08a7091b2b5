-- ===== src/FileSystem/LargeReads.antt =====
-- `read_data` over several data blocks, inside the file: all the bytes arrive, and the number that
-- is returned is that of the last block only.
use ece391_computer_systems.Base.{
  ℕ, zero, suc, ◌+◌, ◌-◌, ◌*◌, ◌/◌, ◌%◌, ◌≤◌, ◌<◌, ◌≡◌, ◌⊎◌, inl, inr, refl, ltb, Bool-cases,
  ltb→lt, not_ltb→le, Mem, load32, arith, pos, ℤ, signed32, add32, sub32, lt→leb_false,
  le→ltb_false, ◌∙◌, ap,
}
use native.Mathlib.Nat.{add-zero, zero-add}
use ece391_computer_systems.Libc.{memcpy}
use ece391_computer_systems.FileSystem.{
  Fs, block_addr, file_length, read_from, read_blocks, read_data,
}
use ece391_computer_systems.FileSystem.SmallReads.{with_file, with_file-memcpy}

-- The part of the image that a read uses lies below `stop`, and the buffer outside the image.
pub record IsApart (f : Fs) (m : Mem) (inode offset buf len stop : ℕ) : Type 0 where
  pub ordered : f.start_inode ≤ f.start_datablock
  pub entries : f.start_inode + 4096 * inode + 8 + 4 * ((offset + len) / 4096) ≤ stop
  pub blocks : (k : ℕ) → k ≤ (offset + len) / 4096 → block_addr f m inode k + 4096 ≤ stop
  pub outside : (stop ≤ buf) ⊎ (buf + len ≤ f.start_inode)

module _ (f : Fs) (m : Mem) (inode offset buf len stop : ℕ)
    (apart : IsApart f m inode offset buf len stop) where
  -- The memory with `done` bytes of the file in the buffer.
  abbrev pub Holds : Mem → ℕ → Type 0
  Holds m' done = (a : ℕ) → m' a ≡ with_file f m inode offset buf done a

  -- Nothing of the image is touched by what is written so far.
  pub image-Holds :
      (m' : Mem) (done x : ℕ)
      → Holds m' done
      → done ≤ len
      → f.start_inode ≤ x
      → x < stop
      → m' x ≡ m x
  image-Holds m' done x holds hd lo hi = ground (arith, holds x, apart.outside)

  word-Holds :
      (m' : Mem) (done x : ℕ)
      → Holds m' done
      → done ≤ len
      → f.start_inode ≤ x
      → x + 4 ≤ stop
      → load32 m' x ≡ load32 m x
  word-Holds m' done x holds hd lo hi = rw (
    image-Holds m' done x holds hd (omega arith) (omega arith),
    image-Holds m' done (x + 1) holds hd (omega arith) (omega arith),
    image-Holds m' done (x + 2) holds hd (omega arith) (omega arith),
    image-Holds m' done (x + 3) holds hd (omega arith) (omega arith),
  )

  pub block_addr-Holds :
      (m' : Mem) (done k : ℕ)
      → Holds m' done
      → done ≤ len
      → k ≤ (offset + len) / 4096
      → block_addr f m' inode k ≡ block_addr f m inode k
  unfolding block_addr
  block_addr-Holds m' done k holds hd hk =
      ap (λ w. f.start_datablock + 4096 * w)
        (word-Holds m' done (f.start_inode + 4096 * inode + 4 + 4 * k) holds hd (omega arith)
          (omega (arith, apart.entries)))

  pub file_length-Holds :
      (m' : Mem) (done : ℕ)
      → Holds m' done
      → done ≤ len
      → file_length f m' inode ≡ file_length f m inode
  unfolding file_length
  file_length-Holds m' done holds hd =
      word-Holds m' done (f.start_inode + 4096 * inode) holds hd (omega arith)
        (omega (arith, apart.entries))

  pub block_addr-ge : (k : ℕ) → f.start_datablock ≤ block_addr f m inode k
  unfolding block_addr
  block_addr-ge k = omega arith

  -- One more chunk, from the block that the inode names for it.
  Holds-memcpy :
      (m' : Mem) (done n src : ℕ)
      → Holds m' done
      → done + n ≤ len
      → (offset + done) % 4096 + n ≤ 4096
      → src ≡ block_addr f m' inode ((offset + done) / 4096) + (offset + done) % 4096
      → Holds (memcpy m' (buf + done) src n) (done + n)
  Holds-memcpy m' done n src holds hn fits at a =
      with_file-memcpy f m m' inode offset buf done n src a holds (rw (← same) at) fits (
        omega (
          arith,
          apart.blocks ((offset + done) / 4096) (omega arith),
          apart.outside,
          apart.ordered,
          block_addr-ge ((offset + done) / 4096),
          rw same at at,
        ))
    where
      same :
          block_addr f m' inode ((offset + done) / 4096)
          ≡ block_addr f m inode ((offset + done) / 4096)
      same = block_addr-Holds m' done ((offset + done) / 4096) holds (omega arith) (omega arith)

  -- What a read returns and leaves: `k` is the size of its last chunk.
  record Finished (left : ℕ) (r : ℤ × Mem) : Type 0 where
    last : ℕ
    returned : r.0 ≡ pos last
    nonempty : 0 < last
    within : last ≤ left
    last_block : last ≡ (offset + len - 1) % 4096 + 1
    holds : Holds r.1 len

  last_chunk :
      (m' : Mem) (dest src done left : ℕ)
      → Holds m' done
      → dest ≡ buf + done
      → done + left ≡ len
      → 0 < left
      → left ≤ 4096
      → (offset + done) % 4096 ≡ 0
      → src ≡ block_addr f m' inode ((offset + done) / 4096)
      → Finished left (signed32 left, memcpy m' dest src left)
  last_chunk m' dest src done left holds e total pos_left small aligned at = record {
    last = left;
    returned = ground arith;
    nonempty = pos_left;
    within = omega arith;
    last_block = omega (arith, total, small, pos_left, aligned);
    holds =
        rw (e, ← total)
          (Holds-memcpy m' done left src holds (omega arith) (omega arith) (omega arith));
  }

  Finished-widen : (left : ℕ) {r : ℤ × Mem} → Finished (left - 4096) r → Finished left r
  Finished-widen left h = record {
    last = h.last;
    returned = h.returned;
    nonempty = h.nonempty;
    within = omega (arith, h.within);
    last_block = h.last_block;
    holds = h.holds;
  }

  -- The memory after one round of the loop.
  abbrev next : Mem → ℕ → ℕ → Mem
  next m' idx src = memcpy m' (buf + 4096 - offset % 4096 + 4096 * idx) src 4096

  next-Holds :
      (m' : Mem) (idx done src : ℕ)
      → Holds m' done
      → done ≡ 4096 - offset % 4096 + 4096 * idx
      → done + 4096 ≤ len
      → src ≡ block_addr f m' inode (offset / 4096 + idx + 1)
      → Holds (next m' idx src) (done + 4096)
  next-Holds m' idx done src holds e room at a =
      let here : buf + 4096 - offset % 4096 + 4096 * idx ≡ buf + done = omega arith in
      let block : offset / 4096 + idx + 1 ≡ (offset + done) / 4096 = omega arith in
      let aligned : (offset + done) % 4096 ≡ 0 = omega arith in
      rw here (
        Holds-memcpy m' done 4096 src holds room (omega arith) (rw (aligned, add-zero, ← block) at)
          a)

  read_blocks_lem :
      (fuel : ℕ) (m' : Mem) (idx done left src : ℕ)
      → Holds m' done
      → done ≡ 4096 - offset % 4096 + 4096 * idx
      → done + left ≡ len
      → 0 < left
      → left ≤ 4096 * fuel + 4096
      → src ≡ block_addr f m' inode (offset / 4096 + idx + 1)
      → Finished left (read_blocks f fuel m' inode offset buf idx src left)
  unfolding read_blocks
  read_blocks_lem zero m' idx done left src holds e total pos_left fuelled at =
      last_chunk m' (buf + 4096 - offset % 4096 + 4096 * idx) src done left holds (omega arith)
        total pos_left (omega arith) (omega arith) (at ∙ ap (block_addr f m' inode) (omega arith))
  read_blocks_lem (suc fuel) m' idx done left src holds e total pos_left fuelled at =
      elim (Bool-cases (ltb 4096 left)) [
        | inl more ↦ rw more (
            Finished-widen left (
              read_blocks_lem fuel (next m' idx src) (idx + 1) (done + 4096) (left - 4096)
                (block_addr f (next m' idx src) inode (offset / 4096 + (idx + 1) + 1))
                (next-Holds m' idx done src holds e (omega (arith, ltb→lt 4096 left more)) at)
                (omega arith) (omega (arith, ltb→lt 4096 left more))
                (omega (arith, ltb→lt 4096 left more)) (omega arith) refl))
        | inr few ↦ rw few (
            last_chunk m' (buf + 4096 - offset % 4096 + 4096 * idx) src done left holds
              (omega arith) total pos_left (not_ltb→le 4096 left few) (omega arith)
              (at ∙ ap (block_addr f m' inode) (omega arith)))
      ]

  start-Holds : Holds m 0
  start-Holds a = ground arith

  first_chunk :
      (n : ℕ)
      → n ≤ len
      → offset % 4096 + n ≤ 4096
      → Holds (memcpy m buf (block_addr f m inode (offset / 4096) + offset % 4096) n) n
  first_chunk n room fits a =
      simp (add-zero, zero-add) at
        (Holds-memcpy m 0 n (block_addr f m inode (offset / 4096) + offset % 4096) start-Holds
          (omega arith) (rw add-zero fits) (rw add-zero) a)

  -- The first chunk, and the blocks behind it.
  read_from_lem :
      4096 - offset % 4096 < len
      → len < 4294967296
      → Finished (len - (4096 - offset % 4096)) (read_from f m inode offset buf len len)
  unfolding read_from
  read_from_lem long small =
      rw (lt→leb_false len (4096 - offset % 4096) long, wrap)
        (read_blocks_lem (len - first) m1 0 first (len - first)
          (block_addr f m1 inode (offset / 4096 + 1))
          (first_chunk first (omega arith) (omega arith)) (omega arith) (omega arith) (omega arith)
          (omega arith) (ap (block_addr f m1 inode) (omega arith)))
    where
      first : ℕ
      first = 4096 - offset % 4096

      m1 : Mem
      m1 = memcpy m buf (block_addr f m inode (offset / 4096) + offset % 4096) first

      wrap : sub32 len (4096 - offset % 4096) ≡ len - (4096 - offset % 4096)
      wrap = omega arith

  -- A read inside a file of less than 2 GB that reaches behind the first block, into a buffer apart
  -- from the data it reads, puts all its bytes into the buffer
  -- and changes nothing else, but returns only the number of its bytes in the last block that it reads,
  -- which is less than the number of bytes read.
  pub read_data-blocks :
      inode + 1 < f.inode_nums
      → offset + len ≤ file_length f m inode
      → file_length f m inode < 2147483648
      → 4096 - offset % 4096 < len
      → ((read_data f m inode offset buf len).0 ≡ pos ((offset + len - 1) % 4096 + 1))
        × ((offset + len - 1) % 4096 + 1 < len)
        × ((a : ℕ)
            → (read_data f m inode offset buf len).1 a ≡ with_file f m inode offset buf len a)
  unfolding read_data
  read_data-blocks hi inside small long =
      rw
        (
          lt→leb_false (f.inode_nums - 1) inode (omega arith),
          le→ltb_false (file_length f m inode) (add32 len offset) (omega arith),
        )
        (report (read_from_lem long (omega arith)))
    where
      report :
          {r : ℤ × Mem}
          → Finished (len - (4096 - offset % 4096)) r
          → (r.0 ≡ pos ((offset + len - 1) % 4096 + 1))
            × ((offset + len - 1) % 4096 + 1 < len)
            × ((a : ℕ) → r.1 a ≡ with_file f m inode offset buf len a)
      report h = (h.returned ∙ ap pos h.last_block, omega (arith, h.within, h.last_block), h.holds)
