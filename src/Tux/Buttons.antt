-- ===== src/Tux/Buttons.antt =====
-- The buttons on their way from the packet to the game, and the acknowledgements.
use ece391_computer_systems.Base.{
  ℕ, ◌/◌, ◌%◌, ◌<◌, ◌≡◌, true, false, ◌==◌, ◌&&◌, not, if◌then◌else◌, List, [], ◌∷◌, ◌++◌, refl,
  arith, success,
}
use ece391_computer_systems.Game.{dir_up, dir_right, dir_down, dir_left}
use ece391_computer_systems.Game.Keys.{tux_dir, polled, poll_buttons}
use ece391_computer_systems.Tux.{
  Tux, read_buttons, button_byte, set_led_tux, init_tux, init_bytes, led_buffer,
  tuxctl_handle_packet, buttons_tux, tuxctl_ioctl, tux_set_led, mtcp_bioc_event, mtcp_reset,
  mtcp_ack,
}

-- The direction that a packet's third byte gives, whose bits are up, left, down and right: the
-- first pressed of up, down, left and right counts, a cleared bit being a pressed button.
abbrev packet_dir : ℕ → ℕ → ℕ
packet_dir c old =
    if c % 2 == 0
    then dir_up
    else if c / 4 % 2 == 0
    then dir_down
    else if c / 2 % 2 == 0
    then dir_left
    else if c / 8 % 2 == 0
    then dir_right
    else old

-- Of a button packet, with the bytes `b` and `c`, the game reads the byte whose low nibble is that of
-- `b`. With none of the four direction buttons pressed, or with all four, the player is not turned;
-- otherwise the player turns the way of the first pressed one of up, down, left and right in `c`.
pub buttons_tux-tuxctl_handle_packet :
    (put : List ℕ → ℕ) (b c button old : ℕ) (s : Tux)
    → let seen = buttons_tux false true (tuxctl_handle_packet put mtcp_bioc_event b c s) button in
      (seen.1 ≡ success)
      × (seen.0 < 256)
      × (seen.0 % 16 ≡ b % 16)
      × (poll_buttons seen.0 old ≡ (if c % 16 == 0 then old else packet_dir c old))
unfolding buttons_tux tuxctl_handle_packet tux_dir poll_buttons
buttons_tux-tuxctl_handle_packet put b c button old s =
    let y = button_byte (read_buttons b c) in
    (
      refl,
      omega arith,
      omega arith,
      same (polled y) c (omega arith) (omega arith) (omega arith) (omega arith) (omega arith),
    )
  where
    same :
        (n c : ℕ)
        → n < 16
        → n % 2 ≡ c % 2
        → n / 2 % 2 ≡ c / 4 % 2
        → n / 4 % 2 ≡ c / 2 % 2
        → n / 8 % 2 ≡ c / 8 % 2
        → (if not (n == 15) && not (n == 0)
            then (if n % 2 == 0
                then dir_up
                else if n / 2 % 2 == 0
                then dir_down
                else if n / 4 % 2 == 0
                then dir_left
                else if n / 8 % 2 == 0
                then dir_right
                else old)
            else old)
          ≡ (if c % 16 == 0 then old else packet_dir c old)
    same n c l e f g h = ground arith

-- What a successful call adds.
abbrev pub twice : List ℕ → List (List ℕ) → List (List ℕ)
twice bytes sent = sent ++ (bytes ∷ bytes ∷ [])

-- While the line discipline takes every packet: a request to set the LEDs when none is pending hands
-- it the packet, two times, and a further request is dropped, but reported as done, until an
-- acknowledgement comes; the request after that is sent.
pub tuxctl_ioctl-acknowledged :
    (put : List ℕ → ℕ) (m n b c : ℕ) (s : Tux)
    → ((bytes : List ℕ) → put bytes ≡ 0)
    → s.ack_flag ≡ 0
    → let first = tuxctl_ioctl put (tux_set_led m) s in
      let acknowledged = tuxctl_handle_packet put mtcp_ack b c first.0 in
      (first.0.sent ≡ twice (led_buffer m) s.sent)
      × (tuxctl_ioctl put (tux_set_led n) first.0 ≡ (first.0, success))
      × ((tuxctl_ioctl put (tux_set_led n) acknowledged).0.sent ≡ twice (led_buffer n) first.0.sent)
unfolding tuxctl_ioctl set_led_tux tuxctl_handle_packet
tuxctl_ioctl-acknowledged put m n b c s ok free =
    rw (free, ok (led_buffer m), ok (led_buffer n)) (refl, refl, refl)

-- While the line discipline takes every packet, a reset of the controller is answered by the packet
-- that initialises it and the last LEDs, each two times, and lifts a pending acknowledgement.
pub tuxctl_handle_packet-reset :
    (put : List ℕ → ℕ) (b c : ℕ) (s : Tux)
    → ((bytes : List ℕ) → put bytes ≡ 0)
    → ((tuxctl_handle_packet put mtcp_reset b c s).sent
        ≡ twice (led_buffer s.previous_led) (twice init_bytes s.sent))
      × ((tuxctl_handle_packet put mtcp_reset b c s).previous_led ≡ s.previous_led)
      × ((tuxctl_handle_packet put mtcp_reset b c s).ack_flag ≡ 0)
unfolding set_led_tux init_tux tuxctl_handle_packet
tuxctl_handle_packet-reset put b c s ok =
    rw (ok init_bytes, ok (led_buffer s.previous_led)) (refl, refl, refl)
