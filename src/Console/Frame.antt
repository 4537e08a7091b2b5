-- ===== src/Console/Frame.antt =====
-- What printing leaves alone, and where the two copies of the code part.
use ece391_computer_systems.Base.{ℕ, ◌+◌, ◌*◌, ◌/◌, ◌%◌, ◌≤◌, ◌<◌, ◌≡◌, ◌⊎◌, store, arith}
use ece391_computer_systems.Console.{
  Console, video, cell, put_char, putc, background_putc, update_cursor, next_row, scroll_down,
}
use ece391_computer_systems.Console.Scrolling.{scroll_down_lem}
use ece391_computer_systems.Console.Bounds.{OnScreen, erase_at-le}

-- The 4000 bytes of a screen page at `vmem`.
abbrev pub OffPage : ℕ → ℕ → Type 0
OffPage vmem a = (a < vmem) ⊎ (vmem + 4000 ≤ a)

next_row_frame : (s : Console) (x y a : ℕ) → OffPage video a → (next_row s x y).mem a ≡ s.mem a
unfolding next_row
next_row_frame s x y a p = ground (arith, scroll_down_lem s.mem a)

put_char_frame :
    (vmem c a : ℕ) (s : Console)
    → OnScreen s
    → OffPage video a
    → OffPage vmem a
    → (put_char vmem c s).mem a ≡ s.mem a
unfolding put_char update_cursor
put_char_frame vmem c a s v p q =
    let m =
      store (store s.mem (cell vmem s.screen_x s.screen_y) c) (cell vmem s.screen_x s.screen_y + 1)
        7 in
    ground (
      arith,
      erase_at-le s.mem vmem s.screen_x s.screen_y,
      next_row_frame s 0 (s.screen_y + 1) a,
      next_row_frame (record s { mem = m }) ((s.screen_x + 1) % 80)
          (s.screen_y + (s.screen_x + 1) / 80) a,
    )

-- With the cursor on the screen, `putc` writes nothing but the 4000 bytes of the screen.
pub putc_frame : (c a : ℕ) (s : Console) → OnScreen s → OffPage video a → (putc c s).mem a ≡ s.mem a
unfolding putc
putc_frame c a s v p = put_char_frame video c a s v p p

-- A newline that `background_putc` prints on the last row scrolls the visible screen, whatever
-- the terminal is, and leaves the page of the terminal as it was.
pub background_putc_scrolls_visible :
    (term a : ℕ) (s : Console)
    → s.screen_y ≡ 24
    → ((background_putc 10 term s).mem a ≡ scroll_down s.mem a)
      × (video + (term + 1) * 4096 ≤ a → (background_putc 10 term s).mem a ≡ s.mem a)
unfolding background_putc put_char next_row update_cursor
background_putc_scrolls_visible term a s h =
    (ground arith, λ above. ground (arith, scroll_down_lem s.mem a))
