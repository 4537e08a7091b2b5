-- ===== src/Tux.antt =====
-- The driver of the Tux controller: MP2/module/tuxctl-ioctl.c, with the codes of mtcp.h.
-- `put` is tuxctl_ldisc_put of the line discipline: its result for the bytes that it is given.
pub mod Leds
pub mod Buttons
mod Examples
use ece391_computer_systems.Base.{
  ℕ, ◌+◌, ◌-◌, ◌*◌, ◌/◌, ◌%◌, Bool, true, false, ◌==◌, if◌then◌else◌, List, [], ◌∷◌, ◌++◌, get_or,
  ℤ, pos, negsuc, success,
}

-- MTCP_RESP and MTCP_CMD.
abbrev pub mtcp_resp : ℕ → ℕ
mtcp_resp n = n % 8 + n / 8 % 4 * 16 + 64

abbrev pub mtcp_cmd : ℕ → ℕ
mtcp_cmd c = 192 + c

abbrev pub mtcp_ack : ℕ
mtcp_ack = 64

abbrev pub mtcp_bioc_event : ℕ
mtcp_bioc_event = 65

abbrev pub mtcp_reset : ℕ
mtcp_reset = 70

abbrev pub mtcp_bioc_on : ℕ
mtcp_bioc_on = 195

abbrev pub mtcp_led_set : ℕ
mtcp_led_set = 198

abbrev pub mtcp_led_usr : ℕ
mtcp_led_usr = 200

abbrev pub einval : ℤ
einval = negsuc 21

-- The state of the buttons, a bit each.
pub record Btn : Type 0 where
  pub up : ℕ
  pub down : ℕ
  pub left : ℕ
  pub right : ℕ
  pub start : ℕ
  pub a : ℕ
  pub b : ℕ
  pub c : ℕ

-- The globals of the driver, and the packets handed to the line discipline, oldest first.
pub record Tux : Type 0 where
  pub previous_led : ℕ
  pub buttons : Btn
  pub ack_flag : ℕ
  pub sent : List (List ℕ)

unfoldable pub hex_formats : List ℕ
hex_formats =
    247 ∷ 22 ∷ 219 ∷ 159 ∷ 62 ∷ 189 ∷ 253 ∷ 150 ∷ 255 ∷ 190 ∷ 254 ∷ 125 ∷ 241 ∷ 95 ∷ 249 ∷ 248 ∷ []

-- `n ^ 0x10`.
abbrev pub flip_point : ℕ → ℕ
flip_point n = if n / 16 % 2 == 0 then n + 16 else n - 16

-- The byte of one digit, from the low bits of `on`, `dp` and `hex`.
abbrev pub led_byte : ℕ → ℕ → ℕ → ℕ
led_byte on dp hex =
    if on % 2 == 1
    then (if dp % 2 == 0
        then flip_point (get_or hex_formats (hex % 16) 0)
        else get_or hex_formats (hex % 16) 0)
    else if dp % 2 == 1
    then 16
    else 0

unfoldable pub led_buffer : ℕ → List ℕ
led_buffer led =
    let hex = led % 65536 in
    let on = led / 65536 % 256 in
    let dp = led / 16777216 % 16 in
    mtcp_led_set
    ∷ 15
    ∷ led_byte on dp hex
    ∷ led_byte (on / 2) (dp / 2) (hex / 16)
    ∷ led_byte (on / 2 / 2) (dp / 2 / 2) (hex / 16 / 16)
    ∷ led_byte (on / 2 / 2 / 2) (dp / 2 / 2 / 2) (hex / 16 / 16 / 16)
    ∷ []

abbrev pub init_bytes : List ℕ
init_bytes = mtcp_bioc_on ∷ mtcp_led_usr ∷ mtcp_led_set ∷ 15 ∷ 0 ∷ 0 ∷ 0 ∷ 0 ∷ []

abbrev pub read_buttons : ℕ → ℕ → Btn
read_buttons b c = record {
  start = b % 2;
  a = b / 2 % 2;
  b = b / 4 % 2;
  c = b / 8 % 2;
  up = c % 2;
  left = c / 2 % 2;
  down = c / 4 % 2;
  right = c / 8 % 2;
}

-- The byte that is copied to the user's variable, whose other bytes become 0. The result says
-- whether the pointer is not NULL and copy_to_user, `copied`, went well.
abbrev pub button_byte : Btn → ℕ
button_byte t =
    t.start + t.a * 2 + t.b * 4 + t.c * 8 + t.up * 16 + t.down * 32 + t.left * 64 + t.right * 128

unfoldable pub buttons_tux : Bool → Bool → Tux → ℕ → ℕ × ℤ
buttons_tux is_null copied s button =
    if is_null
    then (button, einval)
    else if copied
    then (button_byte s.buttons, success)
    else (0, einval)

-- The requests, with the argument of TUX_SET_LED. TUX_BUTTONS changes only the user's variable.
pub data Request : Type 0 where
  tux_init : Request
  tux_buttons : Request
  tux_set_led : ℕ → Request
  other_request : Request

module _ (put : List ℕ → ℕ) where
  -- Both senders put their bytes, and put them again when that went well.
  abbrev pub put_twice : List ℕ → Tux → Tux × ℤ
  put_twice bytes s =
      if put bytes == 0
      then (record s { sent = s.sent ++ (bytes ∷ bytes ∷ []) }, success)
      else (record s { sent = s.sent ++ (bytes ∷ []) }, einval)

  unfoldable pub set_led_tux : ℕ → Tux → Tux × ℤ
  set_led_tux led s = put_twice (led_buffer led) (record s { previous_led = led })

  unfoldable pub init_tux : Tux → Tux × ℤ
  init_tux s =
      put_twice init_bytes (record s { ack_flag = 0; buttons = record s.buttons { start = 0 } })

  unfoldable pub tuxctl_handle_packet : ℕ → ℕ → ℕ → Tux → Tux
  tuxctl_handle_packet a b c s =
      if a == mtcp_bioc_event
      then record s { buttons = read_buttons b c }
      else if a == mtcp_reset
      then (set_led_tux (init_tux s).0.previous_led (init_tux s).0).0
      else if a == mtcp_ack
      then record s { ack_flag = 0 }
      else s

  unfoldable pub tuxctl_ioctl : Request → Tux → Tux × ℤ
  tuxctl_ioctl tux_init s = ((init_tux s).0, success)
  tuxctl_ioctl tux_buttons s = (s, success)
  tuxctl_ioctl (tux_set_led led) s =
      if s.ack_flag == 0
      then ((set_led_tux led (record s { ack_flag = 1 })).0, success)
      else (s, success)
  tuxctl_ioctl other_request s = (s, einval)
