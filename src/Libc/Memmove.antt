-- ===== src/Libc/Memmove.antt =====
-- `memmove` of lib.c: the direction makes overlapping areas safe.
use ece391_computer_systems.Base.{
  ℕ, zero, suc, ◌+◌, ◌-◌, ◌≤◌, ◌<◌, ◌≡◌, ◌&&◌, ltb, leb, if◌then◌else◌, Mem, store, arith,
}
use ece391_computer_systems.Libc.{copy_up, copy_down, memmove}
use ece391_computer_systems.Libc.Memcpy.{copied}

copy_up_overlap : (m : Mem) (d s n a : ℕ) → d ≤ s → copy_up m d s n a ≡ copied m d s n a
unfolding copy_up
copy_up_overlap m d s zero a h = ground arith
copy_up_overlap m d s (suc n) a h =
    ground (arith, copy_up_overlap (store m d (m s)) (d + 1) (s + 1) n a)

copy_down_overlap : (m : Mem) (d s n a : ℕ) → s < d → copy_down m d s n a ≡ copied m d s n a
unfolding copy_down
copy_down_overlap m d s zero a h = ground arith
copy_down_overlap m d s (suc n) a h =
    ground (arith, copy_down_overlap (store m (d + n) (m (s + n))) d s n a h)

-- `memmove(d, s, n)` leaves at `d` the `n` bytes that stood at `s` before the call, and changes no
-- other byte, however the two areas overlap.
pub memmove_lem :
    (m : Mem) (d s n a : ℕ)
    → memmove m d s n a ≡ (if leb d a && ltb a (d + n) then m (s + (a - d)) else m a)
unfolding memmove
memmove_lem m d s n a = ground (arith, copy_up_overlap m d s n a, copy_down_overlap m d s n a)
