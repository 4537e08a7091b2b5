-- ===== src/Kernel/Keyboard/Typing.antt =====
-- The line that the keys build, and what the terminal reads of it.
use ece391_computer_systems.Base.{ℕ, ◌+◌, ◌≤◌, ◌<◌, ◌≡◌, ◌≢◌, inr, pos, some, arith, refl, ◌∙◌}
use ece391_computer_systems.Kernel.{Kernel, Machine}
use ece391_computer_systems.Kernel.Keyboard.{press_key}
use ece391_computer_systems.Kernel.Terminals.{terminal_read}
use ece391_computer_systems.Kernel.Terminals.Lines.{terminal_read-line}

-- The characters typed before stay, whatever key other than Enter is pressed, and at most one
-- position is added or taken away.
pub press_key-prefix :
    (k : Kernel) (scancode j : ℕ)
    → scancode ≢ 0x1c
    → j < k.kbb_ind
    → ((press_key k scancode).keyb_buff j ≡ k.keyb_buff j)
      × ((press_key k scancode).kbb_ind ≤ k.kbb_ind + 1)
      × (k.kbb_ind ≤ (press_key k scancode).kbb_ind + 1)
unfolding press_key
press_key-prefix k scancode j other lt = (ground arith, ground arith, ground arith)

-- Enter ends the line: with fewer than 126 characters typed so far, so that the newline and the 0
-- behind it fit keyb_buff, all of them not 0, and room for the line and its newline in a buffer that
-- is not null, the next read of the terminal does not wait; it returns the length
-- of the line with the newline, and puts the characters in the order of typing and then the newline
-- into the buffer.
pub terminal_read-press_enter :
    (w : Machine) (k : Kernel) (buf n : ℕ)
    → buf ≢ 0
    → k.kbb_ind < 126
    → k.kbb_ind + 1 ≤ n
    → ((j : ℕ) → j < k.kbb_ind → k.keyb_buff j ≢ 0)
    → (k' : Kernel) × (terminal_read w (press_key k 0x1c) buf (pos n)
        ≡ some (pos (k.kbb_ind + 1), k'))
      × ((j : ℕ) → j < k.kbb_ind → k'.console.mem (buf + j) ≡ k.keyb_buff j)
      × (k'.console.mem (buf + k.kbb_ind) ≡ 10)
unfolding press_key
terminal_read-press_enter w k buf n hb short room typed =
    let e = press_key k 0x1c in
    let r =
      terminal_read-line w e (record e { start_term = e.curr_term_id }) buf n (k.kbb_ind + 1) hb
        refl (room, inr (ground arith), λ j lt. ground (arith, typed j)) in
    (r.0, r.1, λ j lt. r.2 (buf + j) ∙ ground arith, r.2 (buf + k.kbb_ind) ∙ ground arith)
