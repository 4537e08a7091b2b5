-- ===== src/Libc/Copying.antt =====
-- `strcpy` and `strncpy` of lib.c on areas that do not overlap.
use ece391_computer_systems.Base.{
  ℕ, zero, suc, ◌+◌, ◌-◌, ◌≤◌, ◌<◌, ◌≡◌, ◌⊎◌, ◌&&◌, ltb, leb, if◌then◌else◌, Mem, store, arith,
}
use ece391_computer_systems.Libc.{strcpy_loop, strcpy, strncpy, address_space}
use ece391_computer_systems.Libc.Strings.{IsCString}
use ece391_computer_systems.Libc.Memset.{fill_bytes_lem}
use ece391_computer_systems.Libc.Memcpy.{Disjoint}

-- The string at `s + 1`, after a character.
IsCString-tail :
    (m : Mem) (d v s n : ℕ)
    → (d < s) ⊎ (s + (n + 2) ≤ d)
    → IsCString m s (suc n)
    → IsCString (store m d v) (s + 1) n
IsCString-tail m d v s n h c = record {
  nonzero = λ i l. ground (arith, c.nonzero (i + 1));
  terminated = ground (arith, c.terminated);
}

strcpy_loop_lem :
    (fuel : ℕ) (m : Mem) (d s n a : ℕ)
    → IsCString m s n
    → Disjoint d s (n + 1)
    → n < fuel
    → strcpy_loop fuel m d s a ≡ (if leb d a && ltb a (d + (n + 1)) then m (s + (a - d)) else m a)
unfolding strcpy_loop
strcpy_loop_lem zero m d s n a c h l = absurd (omega arith)
strcpy_loop_lem (suc fuel) m d s zero a c h l = ground (arith, c.terminated)
strcpy_loop_lem (suc fuel) m d s (suc n) a c h l = ground (
  arith,
  c.nonzero 0,
  strcpy_loop_lem fuel (store m d (m s)) (d + 1) (s + 1) n a
      (IsCString-tail m d (m s) s n (ground arith) c),
)

-- `strcpy` copies a string of `n` characters with its terminator to an area that it does not
-- overlap, and changes no other byte.
pub strcpy_lem :
    (m : Mem) (d s n a : ℕ)
    → IsCString m s n
    → Disjoint d s (n + 1)
    → n < address_space
    → strcpy m d s a ≡ (if leb d a && ltb a (d + (n + 1)) then m (s + (a - d)) else m a)
unfolding strcpy
strcpy_lem m d s n a c h l = strcpy_loop_lem address_space m d s n a c h l

-- `strncpy(d, s, n)` with a string of `k` characters that does not overlap `d` copies its first
-- `n` characters, pads with zeros up to `n` bytes, and changes no other byte.
pub strncpy_lem :
    (m : Mem) (d s n k a : ℕ)
    → IsCString m s k
    → ((d + n ≤ s) ⊎ (s + (k + 1) ≤ d))
    → strncpy m d s n a
      ≡ (if leb d a && ltb a (d + n) then (if ltb (a - d) k then m (s + (a - d)) else 0) else m a)
unfolding strncpy
strncpy_lem m d s zero k a c h = ground arith
strncpy_lem m d s (suc n) zero a c h = ground (arith, c.terminated, fill_bytes_lem m d 0 (suc n) a)
strncpy_lem m d s (suc n) (suc k) a c h = ground (
  arith,
  c.nonzero 0,
  strncpy_lem (store m d (m s)) (d + 1) (s + 1) n k a
      (IsCString-tail m d (m s) s k (ground arith) c),
)
