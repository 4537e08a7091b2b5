-- ===== src/Libc/Memcpy.antt =====
-- `memcpy` of lib.c on areas that do not overlap: the aligned dword copy is a plain byte copy.
use ece391_computer_systems.Base.{
  ℕ, zero, suc, ◌+◌, ◌-◌, ◌*◌, ◌/◌, ◌%◌, ◌≤◌, ◌≡◌, ◌⊎◌, ◌&&◌, ltb, leb, if◌then◌else◌, Mem, store,
  arith,
}
use ece391_computer_systems.Libc.{
  move_dword, copy_up, copy_dwords, memcpy_aligned, memcpy_top, memcpy,
}

-- The areas of `n` bytes at `d` and at `s` have no byte in common.
abbrev pub Disjoint : ℕ → ℕ → ℕ → Type 0
Disjoint d s n = (d + n ≤ s) ⊎ (s + n ≤ d)

-- What a byte holds once the `n` bytes at `s` are copied to `d`.
abbrev pub copied : Mem → ℕ → ℕ → ℕ → ℕ → ℕ
copied m d s n a = if leb d a && ltb a (d + n) then m (s + (a - d)) else m a

copy_up_lem : (m : Mem) (d s n a : ℕ) → Disjoint d s n → copy_up m d s n a ≡ copied m d s n a
unfolding copy_up
copy_up_lem m d s zero a h = ground arith
copy_up_lem m d s (suc n) a h = ground (arith, copy_up_lem (store m d (m s)) (d + 1) (s + 1) n a)

copy_dwords_lem :
    (m : Mem) (d s n a : ℕ) → Disjoint d s (4 * n) → copy_dwords m d s n a ≡ copied m d s (4 * n) a
unfolding copy_dwords
copy_dwords_lem m d s zero a h = ground arith
copy_dwords_lem m d s (suc n) a h =
    ground (arith, copy_dwords_lem (move_dword m d s) (d + 4) (s + 4) n a)

memcpy_aligned_lem :
    (m : Mem) (d s n a : ℕ) → Disjoint d s n → memcpy_aligned m d s n a ≡ copied m d s n a
unfolding memcpy_aligned
memcpy_aligned_lem m d s n a h = ground (
  arith,
  copy_up_lem (copy_dwords m d s (n / 4)) (d + 4 * (n / 4)) (s + 4 * (n / 4)) (n % 4) a,
  copy_dwords_lem m d s (n / 4) a,
  copy_dwords_lem m d s (n / 4) (s + 4 * (n / 4) + (a - (d + 4 * (n / 4)))),
)

memcpy_top_lem : (m : Mem) (d s n a : ℕ) → Disjoint d s n → memcpy_top m d s n a ≡ copied m d s n a
unfolding memcpy_top
memcpy_top_lem m d s zero a h = ground arith
memcpy_top_lem m d s (suc n) a h = ground (
  arith,
  memcpy_aligned_lem m d s (suc n) a h,
  memcpy_top_lem (store m d (m s)) (d + 1) (s + 1) n a,
)

-- Where the two areas of `n` bytes do not overlap, `memcpy(d, s, n)` copies the bytes at `s` to
-- `d` in order and changes no other byte, whatever the alignment of `d`.
pub memcpy_lem :
    (m : Mem) (d s n a : ℕ)
    → Disjoint d s n
    → memcpy m d s n a ≡ (if leb d a && ltb a (d + n) then m (s + (a - d)) else m a)
unfolding memcpy
memcpy_lem m d s n a h = memcpy_top_lem m d s n a h
