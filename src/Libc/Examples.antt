-- ===== src/Libc/Examples.antt =====
-- Concrete runs of the routines of lib.c.
use ece391_computer_systems.Base.{ℕ, ◌<◌, ◌≡◌, if◌then◌else◌, Mem, arith, ◌==◌, refl}
use ece391_computer_systems.Libc.{memcpy, memmove}
use ece391_computer_systems.Libc.Memcpy.{memcpy_lem}
use ece391_computer_systems.Libc.Memmove.{memmove_lem}
use ece391_computer_systems.Libc.Strings.{IsCString}

-- `AB` at 100, and zeros elsewhere.
abbrev two_chars : Mem
two_chars a = if a == 100 then 65 else if a == 101 then 66 else 0

two_chars-IsCString : IsCString two_chars 100 2
two_chars-IsCString = record { nonzero = λ i h. ground arith; terminated = refl }

two_chars_bytes : (x : ℕ) → two_chars x < 256
two_chars_bytes x = ground arith

memcpy_lem_example : memcpy two_chars 201 100 3 202 ≡ 66
memcpy_lem_example = memcpy_lem two_chars 201 100 3 202 (omega arith)

memmove_lem_example : memmove two_chars 101 100 3 102 ≡ 66
memmove_lem_example = memmove_lem two_chars 101 100 3 102
