-- ===== src/Rtc/Rates.antt =====
-- Which frequencies `rtc_write` accepts, and the rate that it programs; and when a reader returns.
use Prim.Native.Nat.{bit_and, bit_or}
use ece391_computer_systems.Base.{
  ℕ, ◌+◌, ◌-◌, ◌*◌, ◌/◌, ◌^◌, ◌≤◌, ◌<◌, ◌≡◌, ◌≢◌, ◌⊎◌, inl, inr, Bool, true, false, ap, sym, List,
  [], ◌∷◌, ◌++◌, ◌==◌, Option, some, none, ℤ, success, failure, load32, arith, refl, all_below,
  all_below_sound, ==_iff,
}
use mathlib.Core.List.{Memᴰ}
use ece391_computer_systems.Console.{Console, Devices, outb}
use ece391_computer_systems.Rtc.{
  freq_arr, find_rate, set_rate, rtc_write, rtc_handler, idle, spinning, returned, Clock, Event,
  call, leave, interrupt, Step, called, spun, left, interrupted, Run, here, next,
}

-- The frequency, in Hz, of rate `r` in the clock's register A.
abbrev pub rate_hz : ℕ → ℕ
rate_hz r = 32768 / 2 ^ (r - 1)

abbrev finds : Option ℕ → ℕ → Bool
finds none i = false
finds (some j) i = j == i

finds-eq : (o : Option ℕ) (i : ℕ) → finds o i ≡ true → o ≡ some i
finds-eq none i h = cc
finds-eq (some j) i h = ap some ((==_iff j i).0 h)

find_rate_table : all_below 10 (λ i. finds (find_rate freq_arr (rate_hz (i + 6)) 0) i) ≡ true
unfolding find_rate
find_rate_table = refl

find_rate-some : (i : ℕ) → i < 10 → find_rate freq_arr (rate_hz (i + 6)) 0 ≡ some i
find_rate-some i h =
    finds-eq (find_rate freq_arr (rate_hz (i + 6)) 0) i (
      all_below_sound 10 (λ j. finds (find_rate freq_arr (rate_hz (j + 6)) 0) j) i find_rate_table
        h)

-- The byte that goes to register A: the upper half of the old one, and the rate.
abbrev register_a_ok : ℕ → ℕ → Bool
register_a_ok prev i = bit_or (bit_and prev 0xf0) (bit_and (i + 6) 0xf) == prev / 16 * 16 + (i + 6)

register_a_table : all_below 256 (λ prev. all_below 10 (λ i. register_a_ok prev i)) ≡ true
register_a_table = refl

register_a :
    (prev i : ℕ)
    → prev < 256
    → i < 10
    → bit_or (bit_and prev 0xf0) (bit_and (i + 6) 0xf) ≡ prev / 16 * 16 + (i + 6)
register_a prev i hp hi =
    (==_iff (bit_or (bit_and prev 0xf0) (bit_and (i + 6) 0xf)) (prev / 16 * 16 + (i + 6))).0 (
      all_below_sound 10 (register_a_ok prev) i
        (all_below_sound 256 (λ p. all_below 10 (register_a_ok p)) prev register_a_table hp) hi)

-- A frequency that the clock has for a rate `r` from 6 to 15 is accepted: register A is selected,
-- read and selected again, and gets the rate in its lower half and its old upper half.
pub rtc_write-accepts :
    (inb : Devices) (s : Console) (buf i : ℕ)
    → i < 10
    → load32 s.mem buf ≡ rate_hz (i + 6)
    → inb (outb 0x8a 0x70 s.ports) 0x71 < 256
    → rtc_write inb s buf ≡ (
      success,
      record s {
        ports =
            outb
              (inb (outb 0x8a 0x70 s.ports) 0x71 / 16 * 16 + (i + 6))
              0x71
              (outb 0x8a 0x70 (outb 0x8a 0x70 s.ports));
      },
    )
unfolding rtc_write set_rate
rtc_write-accepts inb s buf i h e byte =
    rw (e, find_rate-some i h, register_a (inb (outb 0x8a 0x70 s.ports) 0x71) i byte h)

find_rate-none :
    (freq : ℕ) → ((r : ℕ) → 6 ≤ r → r ≤ 15 → freq ≢ rate_hz r) → find_rate freq_arr freq 0 ≡ none
unfolding find_rate
find_rate-none freq h = ground (arith, h 6, h 7, h 8, h 9, h 10, h 11, h 12, h 13, h 14, h 15)

-- Any other frequency is refused with -1, and the clock is left alone.
pub rtc_write-rejects :
    (inb : Devices) (s : Console) (buf : ℕ)
    → ((r : ℕ) → 6 ≤ r → r ≤ 15 → load32 s.mem buf ≢ rate_hz r)
    → rtc_write inb s buf ≡ (failure, s)
unfolding rtc_write
rtc_write-rejects inb s buf h = rw (find_rate-none (load32 s.mem buf) h)

-- What a reader can be while no interrupt has come.
abbrev Waiting : Clock → Type 0
Waiting c = (c.reader ≡ spinning) × (c.flag ≢ 0)

Step-Waiting : {ev : Event} {c d : Clock} → Step ev c d → Waiting c → (ev ≡ interrupt) ⊎ Waiting d
Step-Waiting (called c p) w = absurd (ground arith)
Step-Waiting (spun c p q) w = inr w
Step-Waiting (left c p q) w = absurd (w.1 q)
Step-Waiting (interrupted c) w = inl refl

-- The events of a run are `later`, a call, and `earlier`: an interrupt came since, or the reader waits.
abbrev Since : List Event → Clock → Type 0
Since es c =
    (later : List Event) × (earlier : List Event) × (es ≡ later ++ (call ∷ earlier))
    × ((Memᴰ interrupt later) ⊎ Waiting c)

Step-idle :
    {ev : Event} {es : List Event} {c d : Clock}
    → Step ev c d
    → c.reader ≡ idle
    → (d.reader ≡ idle) ⊎ Since (ev ∷ es) d
Step-idle {es = es} (called c p) i = inr ([], es, refl, inr (refl, λ e. ground arith))
Step-idle (spun c p q) i = absurd (ground arith)
Step-idle (left c p q) i = absurd (ground arith)
Step-idle (interrupted c) i = inl i

Step-Since :
    {ev : Event} {es : List Event} {c d : Clock} → Step ev c d → Since es c → Since (ev ∷ es) d
Step-Since {ev} st (later, earlier, e, inl m) =
    (ev ∷ later, earlier, ap (λ es. ev ∷ es) e, inl (Memᴰ.tail m))
Step-Since {ev} st (later, earlier, e, inr w) = (
  ev ∷ later,
  earlier,
  ap (λ es. ev ∷ es) e,
  elim (Step-Waiting st w) [ inl i ↦ inl (Memᴰ.head (sym i)) | inr w' ↦ inr w' ],
)

Run-Since :
    {c d : Clock} {es : List Event} → c.reader ≡ idle → Run c es d → (d.reader ≡ idle) ⊎ Since es d
Run-Since i here = inl i
Run-Since i (next r st) = elim (Run-Since i r) [
  | inl j ↦ Step-idle st j
  | inr s ↦ inr (Step-Since st s)
]

-- A read returns only after a clock interrupt since its call: in a run, latest event first, from an
-- idle reader to one that has returned, there is a call with an interrupt behind it.
pub returned_needs_interrupt :
    {c d : Clock} {es : List Event} (z : ℤ)
    → c.reader ≡ idle
    → Run c es d
    → d.reader ≡ returned z
    → (later : List Event) × (earlier : List Event) × (es ≡ later ++ (call ∷ earlier))
      × Memᴰ interrupt later
returned_needs_interrupt z p r e = elim (Run-Since p r) [
  | inl i ↦ absurd (ground arith)
  | inr (later, earlier, at, inl m) ↦ (later, earlier, at, m)
  | inr (later, earlier, at, inr w) ↦ absurd (ground arith)
]

-- One interrupt is enough: from every state in which a reader waits there is a run of the
-- interrupt and one step of the reader in which it returns 0.
pub interrupt_releases :
    (c : Clock)
    → c.reader ≡ spinning
    → (d : Clock) × Run c (leave ∷ interrupt ∷ []) d × (d.reader ≡ returned success)
unfolding rtc_handler
interrupt_releases c p =
    let c' = record c { flag = (rtc_handler c.console).0; console = (rtc_handler c.console).2 } in
    (
      record c' { reader = returned success },
      next (next here (interrupted c)) (left c' p refl),
      refl,
    )
