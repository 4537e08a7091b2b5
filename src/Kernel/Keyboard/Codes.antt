-- ===== src/Kernel/Keyboard/Codes.antt =====
-- The table that init_keyboard fills.
use ece391_computer_systems.Base.{
  ℕ, zero, suc, ◌⊎◌, inl, inr, ==_iff, ◌+◌, ◌-◌, ◌≤◌, ◌<◌, ◌≡◌, Bool, true, false, ◌||◌, ◌==◌,
  all_below, all_below_sound, arith, refl, Bool-cases, subst,
}
use ece391_computer_systems.Kernel.Keyboard.{scan_codes, between}

-- Every code of the table gives nothing or a visible character, and codes past the table nothing.
abbrev pub visible : ℕ → Bool
visible c = c == 0 || between 33 126 c

codes_visible : all_below 255 (λ i. visible (scan_codes i)) ≡ true
unfolding scan_codes
codes_visible = refl

-- The code, if there is one below `n`, that gives character `c`.
abbrev pub code_of : ℕ → ℕ → Bool
code_of zero c = false
code_of (suc n) c = scan_codes n == c || code_of n c

all_covered : all_below 94 (λ i. code_of 255 (33 + i)) ≡ true
unfolding scan_codes
all_covered = refl

false_is_true : false ≡ true → ⊥
false_is_true e = cc

skip : (a b : Bool) → a ≡ false → a || b ≡ true → b ≡ true
skip a b e h = ground arith

back : (c : ℕ) → 33 ≤ c → 33 + (c - 33) ≡ c
back c lo = omega arith

visible_iff : (c : ℕ) → visible c ≡ true → (c ≡ 0) ⊎ ((33 ≤ c) × (c ≤ 126))
visible_iff c h = ground arith

code_of_sound : (n c : ℕ) → code_of n c ≡ true → (i : ℕ) × (i < n) × (scan_codes i ≡ c)
code_of_sound zero c h = absurd (false_is_true h)
code_of_sound (suc n) c h = elim (Bool-cases (scan_codes n == c)) [
  | inl e ↦ (n, omega arith, (==_iff (scan_codes n) c).0 e)
  | inr e ↦
      let r = code_of_sound n c (skip (scan_codes n == c) (code_of n c) e h) in
      (r.0, omega (arith, r.1), r.2)
]

-- Every visible ASCII character stands in the table of scan codes, and every entry of the table is
-- visible or 0: no key types a control character.
pub scan_codes-cover :
    ((c : ℕ) → 33 ≤ c → c ≤ 126 → (i : ℕ) × (i < 255) × (scan_codes i ≡ c))
    × ((i : ℕ) → i < 255 → (scan_codes i ≡ 0) ⊎ ((33 ≤ scan_codes i) × (scan_codes i ≤ 126)))
scan_codes-cover = (
  (λ c lo hi. code_of_sound 255 c (
      subst (λ x. code_of 255 x ≡ true) (back c lo)
        (all_below_sound 94 (λ i. code_of 255 (33 + i)) (c - 33) all_covered (omega arith)))),
  (λ i lt.
      visible_iff (scan_codes i)
        (all_below_sound 255 (λ j. visible (scan_codes j)) i codes_visible lt)),
)
