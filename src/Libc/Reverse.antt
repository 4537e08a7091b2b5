-- ===== src/Libc/Reverse.antt =====
-- `strrev` of lib.c: the swaps from both ends reverse the string in place.
use ece391_computer_systems.Base.{
  ℕ, zero, suc, ◌+◌, ◌-◌, ◌≤◌, ◌<◌, ◌≡◌, ◌&&◌, ltb, leb, if◌then◌else◌, Bool-cases, ltb→lt, inl,
  inr, ◌∙◌, Mem, store, arith,
}
use ece391_computer_systems.Libc.{strrev_loop, strrev, address_space}
use ece391_computer_systems.Libc.Strings.{IsCString, strlen_lem}

-- What a byte holds once the characters from `beg` up to `stop` of the string at `s` are mirrored.
abbrev mirrored : Mem → ℕ → ℕ → ℕ → ℕ → ℕ
mirrored m s beg stop a =
    if leb (s + beg) a && ltb a (s + stop) then m (s + beg + stop - 1 + s - a) else m a

abbrev swap_ends : Mem → ℕ → ℕ → ℕ → Mem
swap_ends m s beg stop =
    store (store m (s + (stop - 1)) (m (s + beg))) (s + beg) (m (s + (stop - 1)))

mirrored-swap_ends :
    (m : Mem) (s beg stop a : ℕ)
    → beg + 1 < stop
    → mirrored (swap_ends m s beg stop) s (beg + 1) (stop - 1) a ≡ mirrored m s beg stop a
mirrored-swap_ends m s beg stop a h = ground arith

-- Nothing is left to swap.
mirrored_short : (m : Mem) (s beg stop a : ℕ) → stop ≤ beg + 1 → m a ≡ mirrored m s beg stop a
mirrored_short m s beg stop a h = ground arith

strrev_loop_lem :
    (fuel : ℕ) (m : Mem) (s beg stop a : ℕ)
    → stop ≤ fuel + beg
    → strrev_loop fuel m s beg stop a ≡ mirrored m s beg stop a
unfolding strrev_loop
strrev_loop_lem zero m s beg stop a h = mirrored_short m s beg stop a (omega arith)
strrev_loop_lem (suc fuel) m s beg stop a h = elim (Bool-cases (ltb (beg + 1) stop)) [
  | inl more ↦ rw more (
      strrev_loop_lem fuel (swap_ends m s beg stop) s (beg + 1) (stop - 1) a (omega arith)
      ∙ mirrored-swap_ends m s beg stop a (ltb→lt (beg + 1) stop more))
  | inr done ↦ rw done (mirrored_short m s beg stop a (ground arith))
]

-- `strrev` mirrors the characters of a string that the address space can hold, and changes no other
-- byte.
pub strrev_lem :
    (m : Mem) (s n a : ℕ)
    → IsCString m s n
    → n < address_space
    → strrev m s a ≡ (if leb s a && ltb a (s + n) then m (s + n - 1 + s - a) else m a)
unfolding strrev
strrev_lem m s n a c h =
    rw (strlen_lem m s n c h) (strrev_loop_lem n m s 0 n a (omega arith) ∙ ground arith)
