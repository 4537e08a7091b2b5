-- ===== src/Console/Examples.antt =====
-- Concrete screens.
use ece391_computer_systems.Base.{
  ℕ, ◌≡◌, if◌then◌else◌, arith, ◌==◌, refl, ap, sym, ◌∙◌, [], ◌∷◌, ◌++◌, List,
}
use ece391_computer_systems.Console.{Console, Devices, outb, video, put_char, putc}
use ece391_computer_systems.Console.Scrolling.{blank}
use ece391_computer_systems.Console.Bounds.{OnScreen, put_char-OnScreen}
use ece391_computer_systems.Console.Frame.{putc_frame}
use ece391_computer_systems.Console.Cursor.{IsVga}
use ece391_computer_systems.Console.Printing.{IsPrintable}

-- A blank screen with the cursor at the end of row `y`.
abbrev at_end : ℕ → Console
at_end y = record { mem = blank; screen_x = 79; screen_y = y; ports = [] }

abbrev at_home : Console
at_home = record { mem = blank; screen_x = 0; screen_y = 0; ports = [] }

letter-IsPrintable : IsPrintable 65
letter-IsPrintable = omega arith

put_char-OnScreen_example : OnScreen (put_char video 10 (at_end 24))
put_char-OnScreen_example = put_char-OnScreen video 10 (at_end 24) (omega arith)

putc_frame_example : (putc 65 (at_end 24)).mem 100 ≡ 32
putc_frame_example = putc_frame 65 100 (at_end 24) (omega arith) (omega arith)

-- A controller with the documented behaviour: the selected register, and the registers.
abbrev Crtc : Type 0
Crtc = ℕ × (ℕ → ℕ)

abbrev crtc_step : Crtc → ℕ × ℕ → Crtc
crtc_step c e =
    if e.0 == 0x3d4
    then (e.1, c.1)
    else if e.0 == 0x3d5
    then (c.0, λ q. if q == c.0 then e.1 else c.1 q)
    else c

abbrev crtc_run : Crtc → List (ℕ × ℕ) → Crtc
crtc_run c [] = c
crtc_run c (e ∷ log) = crtc_run (crtc_step c e) log

crtc_run-snoc :
    (c : Crtc) (log : List (ℕ × ℕ)) (e : ℕ × ℕ)
    → crtc_run c (log ++ (e ∷ [])) ≡ crtc_step (crtc_run c log) e
crtc_run-snoc c [] e = refl
crtc_run-snoc c (d ∷ log) e = crtc_run-snoc (crtc_step c d) log e

abbrev crtc : List (ℕ × ℕ) → Crtc
crtc = crtc_run (0, λ q. 0)

abbrev vga_inb : Devices
vga_inb log port = (crtc log).1 (crtc log).0

abbrev vga_register : List (ℕ × ℕ) → ℕ → ℕ
vga_register log q = (crtc log).1 q

crtc-select : (log : List (ℕ × ℕ)) (r : ℕ) → crtc (outb r 0x3d4 log) ≡ (r, (crtc log).1)
crtc-select log r = crtc_run-snoc (0, λ q. 0) log (0x3d4, r)

crtc-write :
    (log : List (ℕ × ℕ)) (v : ℕ)
    → crtc (outb v 0x3d5 log) ≡ ((crtc log).0, λ q. if q == (crtc log).0 then v else (crtc log).1 q)
crtc-write log v = crtc_run-snoc (0, λ q. 0) log (0x3d5, v)

chip-IsVga : IsVga vga_inb vga_register
chip-IsVga = record {
  read = λ log r.
      ap (λ (c : Crtc). c.1 c.0) (crtc-select log r)
      ∙ sym (ap (λ (c : Crtc). c.1 r) (crtc-select log r));
  select = λ log r q. ap (λ (c : Crtc). c.1 q) (crtc-select log r);
  write = λ log r v q.
      ap (λ (c : Crtc). c.1 q) (crtc-write (outb r 0x3d4 log) v)
      ∙ ap (λ (c : Crtc). if q == c.0 then v else c.1 q) (crtc-select log r);
}
