-- ===== src/Libc/Itoa.antt =====
-- `itoa` of lib.c: the characters that it leaves spell the number.
use ece391_computer_systems.Base.{
  ℕ, zero, suc, ◌+◌, ◌-◌, ◌*◌, ◌<◌, ◌≡◌, ◌⊎◌, ◌&&◌, ltb, if◌then◌else◌, Mem, ◌==◌, Bool, get_or,
}
use ece391_computer_systems.Libc.{lookup_table}
use ece391_computer_systems.Libc.Strings.{IsCString}

-- The value of a digit as it is printed: `0` to `9`, then `A` to `Z`.
abbrev pub digit_value : ℕ → ℕ
digit_value c = if ltb c 65 then c - 48 else c - 55

-- The number that the `n` characters at `s` spell, most significant digit first.
abbrev pub read_number : Mem → ℕ → ℕ → ℕ → ℕ
read_number m s zero radix = 0
read_number m s (suc n) radix = read_number m s n radix * radix + digit_value (m (s + n))

-- The same, least significant digit first.
abbrev read_reversed : Mem → ℕ → ℕ → ℕ → ℕ
read_reversed m s zero radix = 0
read_reversed m s (suc n) radix = read_reversed m (s + 1) n radix * radix + digit_value (m s)

abbrev spells_itself : ℕ → Bool
spells_itself d = (digit_value (get_or lookup_table d 0) == d) && ltb 0 (get_or lookup_table d 0)

-- What the digit loop leaves behind.
record Spelled (m m' : Mem) (s v radix n : ℕ) : Type 0 where
  str : IsCString m' s n
  value : read_reversed m' s n radix ≡ v
  frame : (a : ℕ) → (a < s) ⊎ (s + n < a) → m' a ≡ m a

-- The string that `itoa` leaves: its characters spell `v`, and nothing else has changed.
pub record Prints (m m' : Mem) (buf v radix n : ℕ) : Type 0 where
  pub str : IsCString m' buf n
  pub value : read_number m' buf n radix ≡ v
  pub frame : (a : ℕ) → (a < buf) ⊎ (buf + n < a) → m' a ≡ m a
