-- ===== src/Tux/Examples.antt =====
-- A line discipline that takes every packet, and a controller without a pending request.
use ece391_computer_systems.Base.{ℕ, ◌≡◌, ◌<◌, ◌%◌, true, false, List, [], success, refl}
use ece391_computer_systems.Game.{dir_left}
use ece391_computer_systems.Game.Keys.{poll_buttons}
use ece391_computer_systems.Tux.{
  Tux, led_buffer, tuxctl_handle_packet, buttons_tux, tuxctl_ioctl, tux_set_led, mtcp_ack,
  mtcp_bioc_event,
}
use ece391_computer_systems.Tux.Buttons.{
  twice, tuxctl_ioctl-acknowledged, buttons_tux-tuxctl_handle_packet,
}

abbrev tux : Tux
tux = record {
  previous_led = 0;
  buttons = record { up = 1; down = 1; left = 1; right = 1; start = 1; a = 1; b = 1; c = 1 };
  ack_flag = 0;
  sent = [];
}

abbrev put : List ℕ → ℕ
put bytes = 0

tuxctl_ioctl-acknowledged_example :
    let first = tuxctl_ioctl put (tux_set_led 1) tux in
    let acknowledged = tuxctl_handle_packet put mtcp_ack 0 0 first.0 in
    (first.0.sent ≡ twice (led_buffer 1) [])
    × (tuxctl_ioctl put (tux_set_led 2) first.0 ≡ (first.0, success))
    × ((tuxctl_ioctl put (tux_set_led 2) acknowledged).0.sent ≡ twice (led_buffer 2) first.0.sent)
tuxctl_ioctl-acknowledged_example = tuxctl_ioctl-acknowledged put 1 2 0 0 tux (λ bytes. refl) refl

-- The button to the left.
buttons_tux-tuxctl_handle_packet_example :
    let seen = buttons_tux false true (tuxctl_handle_packet put mtcp_bioc_event 15 13 tux) 7 in
    (seen.1 ≡ success) × (seen.0 < 256) × (seen.0 % 16 ≡ 15) × (poll_buttons seen.0 4 ≡ dir_left)
buttons_tux-tuxctl_handle_packet_example = buttons_tux-tuxctl_handle_packet put 15 13 7 4 tux
