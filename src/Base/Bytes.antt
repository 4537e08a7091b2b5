-- ===== src/Base/Bytes.antt =====
-- The byte-addressed memory that the C code reads and writes through its pointers. An address is
-- a number that does not wrap: no object of the kernel lies across the end of the address space.
use Prim.Native.Nat.{ℕ, ◌+◌, ◌*◌, ◌%◌, ◌/◌}
use ece391_computer_systems.Base.Tests.{◌==◌, if◌then◌else◌}

abbrev pub Mem : Type 0
Mem = ℕ → ℕ

-- `*a = v` for a byte.
abbrev pub store : Mem → ℕ → ℕ → Mem
store m a v b = if b == a then v else m b

-- `*(uint32_t*)a`, least significant byte first.
abbrev pub load32 : Mem → ℕ → ℕ
load32 m a = m a + 256 * m (a + 1) + 65536 * m (a + 2) + 16777216 * m (a + 3)

-- `*(uint32_t*)a = v`.
abbrev pub store32 : Mem → ℕ → ℕ → Mem
store32 m a v =
    store (store (store (store m a (v % 256)) (a + 1) (v / 256 % 256)) (a + 2) (v / 65536 % 256))
      (a + 3) (v / 16777216 % 256)
