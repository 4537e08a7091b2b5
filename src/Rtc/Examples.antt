-- ===== src/Rtc/Examples.antt =====
-- A clock whose registers read 0x26, and a frequency of 256 Hz at address 0.
use ece391_computer_systems.Base.{
  ℕ, ◌≡◌, ◌≢◌, ◌≤◌, arith, refl, all_below_sound, not, true, List, ◌++◌, [], ◌∷◌, if◌then◌else◌,
  ◌==◌, success, load32,
}
use mathlib.Core.List.{Memᴰ}
use ece391_computer_systems.Console.{Console, Devices}
use ece391_computer_systems.Rtc.{
  Clock, Event, call, leave, interrupt, idle, spinning, returned, Run, here, next, called, left,
  interrupted, rtc_handler,
}
use ece391_computer_systems.Rtc.Rates.{rate_hz, returned_needs_interrupt, interrupt_releases}

abbrev console : ℕ → Console
console byte = record {
  mem = λ a. if a == 1 then byte else 0;
  screen_x = 0;
  screen_y = 0;
  ports = [];
}

abbrev inb : Devices
inb log port = 0x26

no_rate : (r : ℕ) → 6 ≤ r → r ≤ 15 → load32 (console 3).mem 0 ≢ rate_hz r
no_rate r h k e = differs (all_below_sound 16 (λ q. not (768 == rate_hz q)) r refl (omega arith))
  where
    differs : not (768 == rate_hz r) ≡ true → ⊥
    differs t = ground arith

abbrev unread : Clock
unread = record { flag = 0; reader = idle; console = console 1 }

abbrev waiting : Clock
waiting = record { flag = 1; reader = spinning; console = console 1 }

released : (d : Clock) × Run waiting (leave ∷ interrupt ∷ []) d × (d.reader ≡ returned success)
released = interrupt_releases waiting refl

abbrev released_at : Clock
released_at = record unread { reader = returned success; console = (rtc_handler unread.console).2 }

-- The whole read: the call, the interrupt, and the return.
abbrev called_unread : Clock
called_unread = record unread { flag = 1; reader = spinning }

returned_needs_interrupt_example :
    (later : List Event) × (earlier : List Event) × ((leave ∷ interrupt ∷ call ∷ [])
      ≡ later ++ (call ∷ earlier))
    × Memᴰ interrupt later
unfolding rtc_handler
returned_needs_interrupt_example =
    returned_needs_interrupt {c = unread} {d = released_at} success refl
      (next (next (next here (called unread refl)) (interrupted called_unread)) (
        left (record called_unread { flag = 0; console = (rtc_handler called_unread.console).2 })
          refl refl))
      refl
