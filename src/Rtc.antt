-- ===== src/Rtc.antt =====
-- The real-time clock of MP3_FinalProj_Kernel/student-distrib/rtc.c: its rate, and the flag on
-- which a reader waits for the next interrupt.
pub mod Rates
mod Examples
use Prim.Native.Nat.{bit_and, bit_or}
use ece391_computer_systems.Base.{
  ℕ, zero, suc, ◌+◌, ◌-◌, ◌*◌, ◌/◌, ◌%◌, List, [], ◌∷◌, ◌==◌, ltb, leb, if◌then◌else◌, Option, some,
  none, ℤ, success, failure, load32, store32, ◌≡◌, ◌≢◌,
}
use ece391_computer_systems.Console.{Console, Devices}
use ece391_computer_systems.Pic.{Pic, send, send_eoi, enable_irq}

abbrev pub rtc_port : ℕ
rtc_port = 0x70

abbrev pub freq_arr : List ℕ
freq_arr = 1024 ∷ 512 ∷ 256 ∷ 128 ∷ 64 ∷ 32 ∷ 16 ∷ 8 ∷ 4 ∷ 2 ∷ []

-- The index of the frequency in the table, from `rate` on; `none` where the loop reaches 10.
pub find_rate : List ℕ → ℕ → ℕ → Option ℕ
find_rate [] freq rate = none
find_rate (x ∷ rest) freq rate =
    let later = find_rate rest freq (rate + 1) in if x == freq then some rate else later

-- `rate += 6; rate &= 0x0F;` and the four accesses to register A.
pub set_rate : Devices → Console → ℕ → Console
set_rate inb s rate =
    let s1 = send 0x8a rtc_port s in
    let prev = inb s1.ports (rtc_port + 1) in
    let s2 = send 0x8a rtc_port s1 in
    send (bit_or (bit_and prev 0xf0) (bit_and (rate + 6) 0xf)) (rtc_port + 1) s2

abbrev pub write_rate : Devices → Console → Option ℕ → ℤ × Console
write_rate inb s none = (failure, s)
write_rate inb s (some rate) = (success, set_rate inb s rate)

-- The four bytes at `buf` are the frequency; `nbytes` is not looked at.
pub rtc_write : Devices → Console → ℕ → ℤ × Console
unfolding find_rate
rtc_write inb s buf = write_rate inb s (find_rate freq_arr (load32 s.mem buf) 0)

-- The local variable `frequency` stands at `local`.
pub rtc_open : Devices → Console → ℕ → ℤ × Console
rtc_open inb s local = (success, (rtc_write inb (record s { mem = store32 s.mem local 2 }) local).1)

pub rtc_close : ℤ → ℤ
rtc_close fd = success

pub init_rtc : Devices → ℕ → Pic → Console → Pic × Console
init_rtc inb conv_buf p s =
    let (p', s') = enable_irq conv_buf 8 p s in
    let s1 = send 0x8b rtc_port s' in
    let prev = inb s1.ports (rtc_port + 1) in
    (p', send (bit_or prev 0x40 % 256) (rtc_port + 1) (send 0x8b rtc_port s1))

-- Register C is read, so that the clock interrupts again, and `flag` is cleared.
pub rtc_handler : Console → ℕ × ℤ × Console
rtc_handler s = (0, success, send_eoi 8 (send 0x0c rtc_port s))

-- A reader sets `flag` and spins while it is set: the reader and the interrupt handler as steps.
pub data Reader : Type 0 where
  idle : Reader
  spinning : Reader
  returned : ℤ → Reader

pub record Clock : Type 0 where
  pub flag : ℕ
  pub reader : Reader
  pub console : Console

pub data Event : Type 0 where
  call spin leave interrupt : Event

pub data Step : Event → Clock → Clock → Type 0 where
  called : (c : Clock) → c.reader ≡ idle → Step call c (record c { flag = 1; reader = spinning })
  spun : (c : Clock) → c.reader ≡ spinning → c.flag ≢ 0 → Step spin c c
  left :
      (c : Clock)
      → c.reader ≡ spinning
      → c.flag ≡ 0
      → Step leave c (record c { reader = returned success })
  interrupted :
      (c : Clock)
      → Step interrupt c
          (record c { flag = (rtc_handler c.console).0; console = (rtc_handler c.console).2 })

-- A run, with its events, the latest first.
pub data Run (c : Clock) : List Event → Clock → Type 0 where
  here : Run c [] c
  next : {ev : Event} {es : List Event} {d e : Clock} → Run c es d → Step ev d e → Run c (ev ∷ es) e
