-- ===== src/Pic/Masks.antt =====
-- Which interrupt lines the masks leave open.
use ece391_computer_systems.Base.{
  ℕ, ◌-◌, ◌/◌, ◌%◌, ◌^◌, ◌<◌, ◌≡◌, Bool, true, ◌==◌, leb, if◌then◌else◌, arith, refl, all_below,
  all_below_sound, ==_iff,
}
use ece391_computer_systems.Console.{Console}
use ece391_computer_systems.Pic.{Pic, set_bit, clear_bit, disable_irq, enable_irq, i8259_init}

abbrev pub bit : ℕ → ℕ → ℕ
bit mask j = mask / 2 ^ j % 2

-- Line `irq` is masked: 0 to 7 at the master, 8 to 15 at the slave.
abbrev pub masked : Pic → ℕ → ℕ
masked p irq = if leb 8 irq then bit p.slave_mask (irq - 8) else bit p.master_mask irq

-- Both masks are bytes.
pub record IsBytes (p : Pic) : Type 0 where
  pub master : p.master_mask < 256
  pub slave : p.slave_mask < 256

abbrev set_bit_ok : ℕ → ℕ → ℕ → Bool
set_bit_ok mask k j = bit (set_bit mask k) j == (if j == k then 1 else bit mask j)

abbrev clear_bit_ok : ℕ → ℕ → ℕ → Bool
clear_bit_ok mask k j = bit (clear_bit mask k) j == (if j == k then 0 else bit mask j)

abbrev for_all_bits : (ℕ → ℕ → ℕ → Bool) → Bool
for_all_bits p = all_below 256 (λ mask. all_below 8 (λ k. all_below 8 (λ j. p mask k j)))

set_bit_table : for_all_bits set_bit_ok ≡ true
unfolding set_bit
set_bit_table = refl

clear_bit_table : for_all_bits clear_bit_ok ≡ true
unfolding clear_bit
clear_bit_table = refl

for_all_bits_sound :
    (p : ℕ → ℕ → ℕ → Bool)
    → for_all_bits p ≡ true
    → (mask k j : ℕ) → mask < 256
    → k < 8
    → j < 8
    → p mask k j ≡ true
for_all_bits_sound p h mask k j hm hk hj =
    all_below_sound 8 (p mask k) j
      (all_below_sound 8 (λ k'. all_below 8 (p mask k')) k
        (all_below_sound 256 (λ mask'. all_below 8 (λ k'. all_below 8 (p mask' k'))) mask h hm) hk)
      hj

bit-set_bit :
    (mask k j : ℕ)
    → mask < 256
    → k < 8
    → j < 8
    → bit (set_bit mask k) j ≡ (if j == k then 1 else bit mask j)
bit-set_bit mask k j hm hk hj =
    (==_iff (bit (set_bit mask k) j) (if j == k then 1 else bit mask j)).0
      (for_all_bits_sound set_bit_ok set_bit_table mask k j hm hk hj)

bit-clear_bit :
    (mask k j : ℕ)
    → mask < 256
    → k < 8
    → j < 8
    → bit (clear_bit mask k) j ≡ (if j == k then 0 else bit mask j)
bit-clear_bit mask k j hm hk hj =
    (==_iff (bit (clear_bit mask k) j) (if j == k then 0 else bit mask j)).0
      (for_all_bits_sound clear_bit_ok clear_bit_table mask k j hm hk hj)

-- `disable_irq` masks exactly the line it is given, of the 16 lines.
pub masked-disable_irq :
    (p : Pic) (s : Console) (irq j : ℕ)
    → IsBytes p
    → irq < 16
    → j < 16
    → masked (disable_irq irq p s).0 j ≡ (if j == irq then 1 else masked p j)
unfolding disable_irq
masked-disable_irq p s irq j v hi hj =
    ground (arith, bit-set_bit p.slave_mask (irq - 8) (j - 8), bit-set_bit p.master_mask irq j)

-- With masks that are bytes, `enable_irq` unmasks exactly the line it is given, of the 16 lines.
pub masked-enable_irq :
    (p : Pic) (s : Console) (conv irq j : ℕ)
    → IsBytes p
    → irq < 16
    → j < 16
    → masked (enable_irq conv irq p s).0 j ≡ (if j == irq then 0 else masked p j)
unfolding enable_irq
masked-enable_irq p s conv irq j v hi hj =
    ground (arith, bit-clear_bit p.slave_mask (irq - 8) (j - 8), bit-clear_bit p.master_mask irq j)

-- After `i8259_init` every line is masked but line 2, where the slave is attached.
pub masked-i8259_init :
    (s : Console) (j : ℕ) → j < 16 → masked (i8259_init s).0 j ≡ (if j == 2 then 0 else 1)
unfolding i8259_init
masked-i8259_init s j h =
    (==_iff (masked all_masked j) (if j == 2 then 0 else 1)).0
      (all_below_sound 16 (λ i. masked all_masked i == (if i == 2 then 0 else 1)) j refl h)
  where
    all_masked : Pic
    all_masked = record { master_mask = 0xfb; slave_mask = 0xff }
