-- ===== src/Libc/Memset.antt =====
-- `memset` of lib.c: whatever the alignment, exactly the `n` bytes at `s` are set.
use ece391_computer_systems.Base.{
  ℕ, zero, suc, ◌+◌, ◌*◌, ◌/◌, ◌%◌, ◌<◌, ◌≡◌, ◌&&◌, ltb, leb, if◌then◌else◌, Mem, store, store32,
  arith,
}
use ece391_computer_systems.Libc.{fill_bytes, fill_dwords, memset_aligned, memset_top, memset}

-- What a byte holds once `n` bytes from `d` on are set to `v`.
abbrev pub filled : Mem → ℕ → ℕ → ℕ → ℕ → ℕ
filled m d v n a = if leb d a && ltb a (d + n) then v else m a

pub fill_bytes_lem : (m : Mem) (d v n a : ℕ) → fill_bytes m d v n a ≡ filled m d v n a
unfolding fill_bytes
fill_bytes_lem m d v zero a = ground arith
fill_bytes_lem m d v (suc n) a = ground (arith, fill_bytes_lem (store m d v) (d + 1) v n a)

fill_dwords_lem :
    (m : Mem) (d v n a : ℕ)
    → v < 256
    → fill_dwords m d (v * 16777216 + v * 65536 + v * 256 + v) n a ≡ filled m d v (4 * n) a
unfolding fill_dwords
fill_dwords_lem m d v zero a h = ground arith
fill_dwords_lem m d v (suc n) a h =
    let eax = v * 16777216 + v * 65536 + v * 256 + v in
    ground (arith, fill_dwords_lem (store32 m d eax) (d + 4) v n a h)

memset_aligned_lem : (m : Mem) (d v n a : ℕ) → v < 256 → memset_aligned m d v n a ≡ filled m d v n a
unfolding memset_aligned
memset_aligned_lem m d v n a h =
    let eax = v * 16777216 + v * 65536 + v * 256 + v in
    ground (
      arith,
      fill_bytes_lem (fill_dwords m d eax (n / 4)) (d + 4 * (n / 4)) v (n % 4) a,
      fill_dwords_lem m d v (n / 4) a h,
    )

memset_top_lem : (m : Mem) (d v n a : ℕ) → v < 256 → memset_top m d v n a ≡ filled m d v n a
unfolding memset_top
memset_top_lem m d v zero a h = ground arith
memset_top_lem m d v (suc n) a h =
    ground
      (arith, memset_aligned_lem m d v (suc n) a h, memset_top_lem (store m d v) (d + 1) v n a h)

-- `memset(s, c, n)` sets each of the `n` bytes from `s` on to the low byte of `c`, and changes no
-- other byte, for every alignment of `s` and every `n`.
pub memset_lem :
    (m : Mem) (s c n a : ℕ) → memset m s c n a ≡ (if leb s a && ltb a (s + n) then c % 256 else m a)
unfolding memset
memset_lem m s c n a = memset_top_lem m s (c % 256) n a (omega arith)
