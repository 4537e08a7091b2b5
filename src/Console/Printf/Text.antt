-- ===== src/Console/Printf/Text.antt =====
-- A format without conversions.
use ece391_computer_systems.Base.{
  ℕ, zero, suc, ◌+◌, ◌≤◌, ◌<◌, ◌≡◌, ◌≢◌, ◌⊎◌, inl, inr, List, [], ◌∷◌, length, ◌-◌, arith, ap, ◌∙◌,
  ne→==_false,
}
use ece391_computer_systems.Libc.{address_space}
use ece391_computer_systems.Console.{Console, video, putc, print_text}
use ece391_computer_systems.Console.Bounds.{OnScreen, putc-OnScreen}
use ece391_computer_systems.Console.Frame.{OffPage, putc_frame}
use ece391_computer_systems.Console.Printf.{printf, printf_loop}

-- The characters of `text` stand at `at`, with a terminator behind; none is 0 or `%`.
abbrev pub Stands : Console → ℕ → List ℕ → Type 0
Stands s at [] = s.mem at ≡ 0
Stands s at (c ∷ cs) = (s.mem at ≡ c) × (c ≢ 0) × (c ≢ 37) × Stands s (at + 1) cs

-- The text and its terminator lie off the screen.
abbrev pub Off : ℕ → ℕ → Type 0
Off at n = (at + n < video) ⊎ (video + 4000 ≤ at)

Off-head : (at n a : ℕ) → Off at n → at ≤ a → a ≤ at + n → OffPage video a
Off-head at n a (inl h) lo hi = inl (omega arith)
Off-head at n a (inr h) lo hi = inr (omega arith)

Off-tail : (at n : ℕ) → Off at (suc n) → Off (at + 1) n
Off-tail at n (inl h) = inl (omega arith)
Off-tail at n (inr h) = inr (omega arith)

Stands-putc :
    (c at : ℕ) (text : List ℕ) (s : Console)
    → OnScreen s
    → Off at (length text)
    → Stands s at text
    → Stands (putc c s) at text
Stands-putc c at [] s v off h =
    putc_frame c at s v (Off-head at 0 at off (omega arith) (omega arith)) ∙ h
Stands-putc c at (x ∷ xs) s v off (h, nz, np, t) = (
  putc_frame c at s v (Off-head at (suc (length xs)) at off (omega arith) (omega arith)) ∙ h,
  nz,
  np,
  Stands-putc c (at + 1) xs s v (Off-tail at (length xs) off) t,
)

printf_loop-text :
    (text : List ℕ) (fuel conv_buf at esp : ℕ) (args : ℕ → ℕ) (s : Console)
    → length text < fuel
    → OnScreen s
    → Off at (length text)
    → Stands s at text
    → printf_loop fuel conv_buf args at esp s ≡ (at + length text, print_text text s)
unfolding printf_loop print_text
printf_loop-text text zero conv_buf at esp args s room v off h = absurd (omega arith)
printf_loop-text [] (suc fuel) conv_buf at esp args s room v off h =
    rw h (ap (λ (n : ℕ). (n, s)) (omega arith))
printf_loop-text (x ∷ xs) (suc fuel) conv_buf at esp args s room v off (h, nz, np, t) =
    rw (h, ne→==_false x 0 nz, ne→==_false x 37 np)
      (printf_loop-text xs fuel conv_buf (at + 1) esp args (putc x s) (omega arith)
          (putc-OnScreen x s v) (Off-tail at (length xs) off)
          (Stands-putc x (at + 1) xs s v (Off-tail at (length xs) off) t)
        ∙ ap (λ (n : ℕ). (n, print_text xs (putc x s))) (omega arith))

-- A format without `%`, off the screen and shorter than the address space, is printed character by
-- character, and `printf` returns its length.
pub printf-text :
    (text : List ℕ) (conv_buf format : ℕ) (args : ℕ → ℕ) (s : Console)
    → length text < address_space
    → OnScreen s
    → Off format (length text)
    → Stands s format text
    → printf conv_buf args format s ≡ (length text, print_text text s)
unfolding printf
printf-text text conv_buf format args s room v off h =
    ap (λ (r : ℕ × Console). (r.0 - format, r.1))
      (printf_loop-text text address_space conv_buf format 0 args s room v off h)
    ∙ ap (λ (n : ℕ). (n, print_text text s)) (omega arith)
