-- ===== src/Libc/Strings.antt =====
-- `strlen` of lib.c, and what a string in memory is.
use ece391_computer_systems.Base.{ℕ, zero, suc, ◌+◌, ◌≤◌, ◌<◌, ◌≡◌, ◌≢◌, Mem, arith}
use ece391_computer_systems.Libc.{strlen_loop, strlen, address_space}

-- The string at `s` has `n` characters before its terminator.
pub record IsCString (m : Mem) (s n : ℕ) : Type 0 where
  pub nonzero : (i : ℕ) → i < n → m (s + i) ≢ 0
  pub terminated : m (s + n) ≡ 0

strlen_loop_lem :
    (fuel : ℕ) (m : Mem) (s len n : ℕ)
    → IsCString m s n
    → len ≤ n
    → n < fuel + len
    → strlen_loop fuel m s len ≡ n
unfolding strlen_loop
strlen_loop_lem zero m s len n c h l = absurd (omega arith)
strlen_loop_lem (suc fuel) m s len n c h l =
    ground (arith, c.nonzero len, c.terminated, strlen_loop_lem fuel m s (len + 1) n c)

-- `strlen` returns the number of characters of a string that the address space can hold.
pub strlen_lem : (m : Mem) (s n : ℕ) → IsCString m s n → n < address_space → strlen m s ≡ n
unfolding strlen
strlen_lem m s n c h = strlen_loop_lem address_space m s 0 n c (omega arith) (omega arith)

stop_loop :
    (fuel : ℕ) (m : Mem) (s len i : ℕ) → len ≤ i → i < strlen_loop fuel m s len → m (s + i) ≢ 0
unfolding strlen_loop
stop_loop zero m s len i h l = absurd (omega arith)
stop_loop (suc fuel) m s len i h l = ground (arith, stop_loop fuel m s (len + 1) i)

stop_loop_start : (fuel : ℕ) (m : Mem) (s i : ℕ) → i < strlen_loop fuel m s 0 → m (s + i) ≢ 0
stop_loop_start fuel m s i h = stop_loop fuel m s 0 i (omega arith) h

-- `strlen` never passes a terminator.
pub strlen-nonzero : (m : Mem) (s i : ℕ) → i < strlen m s → m (s + i) ≢ 0
unfolding strlen
strlen-nonzero m s i h = stop_loop_start address_space m s i h
