-- ===== src/Kernel/Keyboard.antt =====
-- The keyboard of student-distrib/keyboard.c: the table of scan codes and the interrupt handler.
pub mod Codes
pub mod Typing
mod Examples
use ece391_computer_systems.Base.{
  ℕ, zero, suc, ◌+◌, ◌-◌, ◌*◌, ◌/◌, ◌%◌, Bool, true, false, ◌||◌, ◌&&◌, List, [], ◌∷◌, ◌==◌, ltb,
  leb, if◌then◌else◌, Mem, store, ℤ, pos, negsuc, success, failure, get_or,
}
use ece391_computer_systems.Libc.{memset}
use ece391_computer_systems.Console.{Console, putc, clear}
use ece391_computer_systems.Pic.{Pic, enable_irq, send_eoi}
use ece391_computer_systems.Kernel.{Kernel, Machine, Outcome, returned}
use ece391_computer_systems.Kernel.Processes.{sys_halt}
use ece391_computer_systems.Kernel.Scheduler.{switch_terminal, with_console}

-- "1234567890-=" and "!@#$%^&*()_+"
abbrev pub num : List ℕ
num = 49 ∷ 50 ∷ 51 ∷ 52 ∷ 53 ∷ 54 ∷ 55 ∷ 56 ∷ 57 ∷ 48 ∷ 45 ∷ 61 ∷ []

abbrev pub shiftnum : List ℕ
shiftnum = 33 ∷ 64 ∷ 35 ∷ 36 ∷ 37 ∷ 94 ∷ 38 ∷ 42 ∷ 40 ∷ 41 ∷ 95 ∷ 43 ∷ []

-- "qwertyuiop[]" and "QWERTYUIOP{}"
abbrev pub firstr : List ℕ
firstr = 113 ∷ 119 ∷ 101 ∷ 114 ∷ 116 ∷ 121 ∷ 117 ∷ 105 ∷ 111 ∷ 112 ∷ 91 ∷ 93 ∷ []

abbrev pub capfirstr : List ℕ
capfirstr = 81 ∷ 87 ∷ 69 ∷ 82 ∷ 84 ∷ 89 ∷ 85 ∷ 73 ∷ 79 ∷ 80 ∷ 123 ∷ 125 ∷ []

-- "asdfghjkl;'`" and "ASDFGHJKL:"~"
abbrev pub secondr : List ℕ
secondr = 97 ∷ 115 ∷ 100 ∷ 102 ∷ 103 ∷ 104 ∷ 106 ∷ 107 ∷ 108 ∷ 59 ∷ 39 ∷ 96 ∷ []

abbrev pub capsecondr : List ℕ
capsecondr = 65 ∷ 83 ∷ 68 ∷ 70 ∷ 71 ∷ 72 ∷ 74 ∷ 75 ∷ 76 ∷ 58 ∷ 34 ∷ 126 ∷ []

-- "zxcvbnm,./" and "ZXCVBNM<>?"
abbrev pub thirdr : List ℕ
thirdr = 122 ∷ 120 ∷ 99 ∷ 118 ∷ 98 ∷ 110 ∷ 109 ∷ 44 ∷ 46 ∷ 47 ∷ []

abbrev pub capthirdr : List ℕ
capthirdr = 90 ∷ 88 ∷ 67 ∷ 86 ∷ 66 ∷ 78 ∷ 77 ∷ 60 ∷ 62 ∷ 63 ∷ []

abbrev pub between : ℕ → ℕ → ℕ → Bool
between low high i = leb low i && leb i high

-- `scan_codes` as `init_keyboard` fills it; capitals stand 0x40 on, shifted digits 0x80 on.
pub scan_codes : ℕ → ℕ
scan_codes i =
    if between 0x02 0x0d i
    then get_or num (i - 0x02) 0
    else if between 0x10 0x1b i
    then get_or firstr (i - 0x10) 0
    else if between 0x1e 0x29 i
    then get_or secondr (i - 0x1e) 0
    else if between 0x2c 0x35 i
    then get_or thirdr (i - 0x2c) 0
    else if between 0x50 0x5b i
    then get_or capfirstr (i - 0x50) 0
    else if between 0x5e 0x69 i
    then get_or capsecondr (i - 0x5e) 0
    else if between 0x6c 0x75 i
    then get_or capthirdr (i - 0x6c) 0
    else if between 0x82 0x8d i
    then get_or shiftnum (i - 0x82) 0
    else if i == 0x2b
    then 92
    else if i == 0x6b
    then 124
    else 0

pub init_keyboard : ℕ → Pic → Kernel → Pic × Kernel
init_keyboard conv_buf p k =
    let (p', s) = enable_irq conv_buf 1 p k.console in
    (
      p',
      record k {
        console = s;
        kbb_ind = 0;
        ctrl_flag = 0;
        caps_lock_flag = 0;
        shift_flag = 0;
        alt_flag = 0;
        enter_flag = 0;
      },
    )

-- A character goes to the screen and into the line. keyb_buff has 127 bytes; where the source does not
-- test the position, it writes on behind them, and so does this, with `keyb_buff` going on.
abbrev pub type_char : ℕ → Kernel → Kernel
type_char c k = record k {
  console = putc c k.console;
  keyb_buff = store k.keyb_buff k.kbb_ind c;
  kbb_ind = k.kbb_ind + 1;
}

-- `caps_lock_flag ^ shift_flag`, of flags that are 0 or 1.
abbrev pub xor_flags : ℕ → ℕ → ℕ
xor_flags a b = if a == b then 0 else 1

abbrev pub letter : Kernel → ℕ → ℕ
letter k scancode = scan_codes (scancode + xor_flags k.caps_lock_flag k.shift_flag * 0x40)

-- This writes behind the 127 bytes of keyb_buff from position 126 on.
abbrev pub press_enter : Kernel → Kernel
press_enter k = record k {
  console = putc 10 k.console;
  keyb_buff = store (store k.keyb_buff k.kbb_ind 10) (k.kbb_ind + 1) 0;
  enter_flag = 1;
  kbb_ind = 0;
}

abbrev pub press_backspace : Kernel → Kernel
press_backspace k = if k.kbb_ind == 0 then k else record k {
  console =
      if k.keyb_buff (k.kbb_ind - 1) == 9
      then putc 0 (putc 0 (putc 0 (putc 0 k.console)))
      else putc 0 k.console;
  kbb_ind = k.kbb_ind - 1;
}

abbrev pub press_tab : Kernel → Kernel
press_tab k = record k {
  console = putc 32 (putc 32 (putc 32 (putc 32 k.console)));
  keyb_buff = store k.keyb_buff k.kbb_ind 9;
  kbb_ind = k.kbb_ind + 1;
}

abbrev pub is_letter : ℕ → Bool
is_letter scancode =
    between 0x2c 0x35 scancode || between 0x1e 0x29 scancode || between 0x10 0x1b scancode

-- The keys that change a flag.
abbrev pub press_modifier : Kernel → ℕ → Kernel
press_modifier k scancode =
    if scancode == 0x1d
    then record k { ctrl_flag = 1 }
    else if scancode == 0x2a || (scancode == 0x36)
    then record k { shift_flag = 1 }
    else if scancode == 0xaa || (scancode == 0xb6)
    then record k { shift_flag = 0 }
    else if scancode == 0x38
    then record k { alt_flag = 1 }
    else if scancode == 0x3a
    then record k { caps_lock_flag = if k.caps_lock_flag == 1 then 0 else 1 }
    else k

-- The branches for `ctrl_flag` not 1, in their order.
pub press_key : Kernel → ℕ → Kernel
press_key k scancode =
    if between 0x02 0x0d scancode
    then type_char (scan_codes (scancode + k.shift_flag * 0x80)) k
    else if is_letter scancode && ltb k.kbb_ind 127
    then type_char (letter k scancode) k
    else if scancode == 0x2b
    then type_char (letter k scancode) k
    else if scancode == 0x1c
    then press_enter k
    else if scancode == 0x0e
    then press_backspace k
    else if scancode == 0x39 && ltb k.kbb_ind 127
    then type_char 32 k
    else if scancode == 0x0f && ltb k.kbb_ind 127
    then press_tab k
    else press_modifier k scancode

-- The branch for `alt_flag`.
abbrev pub switch_key : Machine → Kernel → ℕ → Kernel
switch_key w k term = switch_terminal w (with_console k (send_eoi 1 k.console)) term

pub press_alt : Machine → Kernel → ℕ → Kernel
press_alt w k scancode =
    if scancode == 0xb8
    then record k { alt_flag = 0 }
    else if scancode == 0xbb
    then switch_key w k 0
    else if scancode == 0xbc
    then switch_key w k 1
    else if scancode == 0xbd
    then switch_key w k 2
    else k

-- What ends the handler: the interrupt is acknowledged, and interrupts are on.
abbrev pub done : Kernel → Outcome
done k = returned success (record (with_console k (send_eoi 1 k.console)) { interrupts = true })

abbrev pub after_halt : Outcome → Outcome
after_halt (returned v k) = done k
after_halt o = o

-- The branch for `ctrl_flag`.
pub press_ctrl : Machine → Kernel → ℕ → Outcome
press_ctrl w k scancode =
    if scancode == 0x9d
    then done (record k { ctrl_flag = 0 })
    else if scancode == 0x26
    then done (record k {
      console = clear k.console;
      keyb_buff = memset k.keyb_buff 0 0 127;
      enter_flag = 1;
    })
    else if scancode == 0x1f
    then done (record k { scheduling_flag = if k.scheduling_flag == 0 then 1 else 0 })
    else if scancode == 0x2e
    then after_halt (sys_halt w (with_console k (send_eoi 1 k.console)) 0)
    else done k

abbrev pub press : Machine → Kernel → ℕ → Outcome
press w k scancode =
    if k.ctrl_flag == 1 then press_ctrl w k scancode else done (press_key k scancode)

pub keyboard_handler : Machine → Kernel → Outcome
keyboard_handler w k =
    let scancode = w.inb k.console.ports 0x60 % 256 in
    let k' = record k { interrupts = false } in
    if leb scancode 1
    then done k'
    else press w (if k.alt_flag == 1 then press_alt w k' scancode else k') scancode
