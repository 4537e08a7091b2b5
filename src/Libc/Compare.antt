-- ===== src/Libc/Compare.antt =====
-- `strncmp` of lib.c: zero exactly for equal strings.
use ece391_computer_systems.Base.{
  ℕ, zero, suc, ◌+◌, ◌-◌, ◌≤◌, ◌<◌, ◌≡◌, ◌≢◌, ◌↔◌, ◌⊎◌, inl, inr, refl, Bool-cases, Mem, arith,
  ◌==◌, not, ◌||◌, pos,
}
use ece391_computer_systems.Libc.{strncmp, char_diff}

-- The `n` bytes at `a` and at `b` are equal, or are equal up to a common terminator.
abbrev pub SameString : Mem → ℕ → ℕ → ℕ → Type 0
SameString m a b n =
    ((i : ℕ) → i < n → m (a + i) ≡ m (b + i))
    ⊎ ((k : ℕ) × (k < n) × ((i : ℕ) → i ≤ k → m (a + i) ≡ m (b + i)) × (m (a + k) ≡ 0))

-- Bytes with no difference are equal.
char_diff-zero : (a b : ℕ) → a < 256 → b < 256 → char_diff a b ≡ pos 0 → a ≡ b
char_diff-zero a b h k e = ground arith

SameString-shift :
    (m : Mem) (a b n : ℕ) → m a ≡ m b → SameString m (a + 1) (b + 1) n → SameString m a b (suc n)
SameString-shift m a b n e (inl f) = inl (λ i h. ground (arith, f (i - 1)))
SameString-shift m a b n e (inr (k, h, f, z)) =
    inr (suc k, omega arith, (λ i l. ground (arith, f (i - 1))), ground arith)

SameString-unshift :
    (m : Mem) (a b n : ℕ) → m a ≢ 0 → SameString m a b (suc n) → SameString m (a + 1) (b + 1) n
SameString-unshift m a b n nz (inl f) = inl (λ i h. ground (arith, f (i + 1)))
SameString-unshift m a b n nz (inr (zero, h, f, z)) = absurd (ground arith)
SameString-unshift m a b n nz (inr (suc k, h, f, z)) =
    inr (k, omega arith, (λ i l. ground (arith, f (i + 1))), ground arith)

SameString-head : (m : Mem) (a b n : ℕ) → SameString m a b (suc n) → m a ≡ m b
SameString-head m a b n (inl f) = ground (arith, f 0)
SameString-head m a b n (inr (k, h, f, z)) = ground (arith, f 0)

-- A head that ends the comparison with zero is a common terminator.
SameString-end : (m : Mem) (a b n : ℕ) → m a ≡ 0 → m b ≡ 0 → SameString m a b (suc n)
SameString-end m a b n p q = inr (0, omega arith, (λ i l. ground arith), ground arith)

strncmp_sound :
    (m : Mem) (a b n : ℕ) → ((x : ℕ) → m x < 256) → strncmp m a b n ≡ pos 0 → SameString m a b n
unfolding strncmp
strncmp_sound m a b zero bytes e = inl (λ i h. absurd (omega arith))
strncmp_sound m a b (suc n) bytes e = elim (Bool-cases (not (m a == m b) || (m a == 0))) [
  | inl stop ↦
      let same : m a ≡ m b = char_diff-zero (m a) (m b) (bytes a) (bytes b) (ground arith) in
      SameString-end m a b n (ground arith) (ground arith)
  | inr go ↦
      SameString-shift m a b n (ground arith)
        (strncmp_sound m (a + 1) (b + 1) n bytes (ground arith))
]

strncmp_complete : (m : Mem) (a b n : ℕ) → SameString m a b n → strncmp m a b n ≡ pos 0
unfolding strncmp
strncmp_complete m a b zero s = refl
strncmp_complete m a b (suc n) s = elim (Bool-cases (m a == 0)) [
  | inl z ↦ ground (arith, SameString-head m a b n s)
  | inr nz ↦ ground (
    arith,
    SameString-head m a b n s,
    strncmp_complete m (a + 1) (b + 1) n (SameString-unshift m a b n (ground arith) s),
  )
]

-- Over bytes, `strncmp(a, b, n)` is zero exactly if the `n` bytes at `a` and `b` are equal, or are
-- equal up to and including a terminator in both.
pub strncmp-zero_iff :
    (m : Mem) (a b n : ℕ) → ((x : ℕ) → m x < 256) → (strncmp m a b n ≡ pos 0) ↔ SameString m a b n
strncmp-zero_iff m a b n bytes = (strncmp_sound m a b n bytes, strncmp_complete m a b n)
