-- ===== src/Console/Cursor.antt =====
-- The cursor registers: what `update_cursor` writes is what `write_switch` reads back.
use ece391_computer_systems.Base.{
  ℕ, ◌+◌, ◌*◌, ◌/◌, ◌%◌, ◌<◌, ◌≡◌, ◌==◌, if◌then◌else◌, arith, List, ◌∙◌,
}
use ece391_computer_systems.Console.{
  Console, Devices, outb, update_cursor, get_cursor_position, write_switch,
}

-- The documented behaviour of the VGA controller's indexed registers: port 0x3d4 selects a
-- register, port 0x3d5 writes or reads the selected one. `register` is its content after the port
-- writes of a log.
pub record IsVga (inb : Devices) (register : List (ℕ × ℕ) → ℕ → ℕ) : Type 0 where
  pub read :
      (log : List (ℕ × ℕ)) (r : ℕ) → inb (outb r 0x3d4 log) 0x3d5 ≡ register (outb r 0x3d4 log) r
  pub select : (log : List (ℕ × ℕ)) (r q : ℕ) → register (outb r 0x3d4 log) q ≡ register log q
  pub write :
      (log : List (ℕ × ℕ)) (r v q : ℕ)
      → register (outb v 0x3d5 (outb r 0x3d4 log)) q ≡ (if q == r then v else register log q)

-- On such a controller, `write_switch` puts the screen position where the last `update_cursor`
-- put the cursor, for every position on the screen.
pub write_switch-update_cursor :
    (inb : Devices) (register : List (ℕ × ℕ) → ℕ → ℕ)
    → IsVga inb register
    → (s : Console) (x y : ℕ) → x < 80
    → y < 25
    → ((write_switch inb (update_cursor s x y)).screen_x ≡ x)
      × ((write_switch inb (update_cursor s x y)).screen_y ≡ y)
unfolding write_switch get_cursor_position update_cursor
write_switch-update_cursor inb register vga s x y hx hy = rw (low, high) (ground arith)
  where
    at : ℕ
    at = (y * 80 + x) % 65536

    log1 : List (ℕ × ℕ)
    log1 = outb (at % 256) 0x3d5 (outb 0x0f 0x3d4 s.ports)

    log2 : List (ℕ × ℕ)
    log2 = outb (at / 256) 0x3d5 (outb 0x0e 0x3d4 log1)

    low : inb (outb 0x0f 0x3d4 log2) 0x3d5 ≡ at % 256
    low =
        vga.read log2 0x0f
        ∙ vga.select log2 0x0f 0x0f
        ∙ vga.write log1 0x0e (at / 256) 0x0f
        ∙ vga.write s.ports 0x0f (at % 256) 0x0f

    high : inb (outb 0x0e 0x3d4 (outb 0x0f 0x3d4 log2)) 0x3d5 ≡ at / 256
    high =
        vga.read (outb 0x0f 0x3d4 log2) 0x0e
        ∙ vga.select (outb 0x0f 0x3d4 log2) 0x0e 0x0e
        ∙ vga.select log2 0x0f 0x0e
        ∙ vga.write log1 0x0e (at / 256) 0x0e
