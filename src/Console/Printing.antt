-- ===== src/Console/Printing.antt =====
-- What `putc` shows.
use ece391_computer_systems.Base.{
  ℕ, suc, ◌+◌, ◌-◌, ◌*◌, ◌/◌, ◌%◌, ◌≤◌, ◌<◌, ◌≡◌, ◌≢◌, arith, refl, sym, ◌∙◌, ne→==_false,
}
use ece391_computer_systems.Console.{
  Console, video, cell, put_cell, erase_at, put_char, putc, update_cursor, next_row, before_cursor,
  moved, erase,
}
use ece391_computer_systems.Console.Scrolling.{scroll_down_lem, blank}
use ece391_computer_systems.Console.Bounds.{OnScreen}

-- A character that is shown as such.
pub record IsPrintable (c : ℕ) : Type 0 where
  pub no_newline : c ≢ 10
  pub no_return : c ≢ 13
  pub no_null : c ≢ 0

-- A printable character goes to the cell of the cursor with the usual attribute, every other byte
-- stays, and the cursor moves to the next cell, from the end of a row to the next row.
pub putc-printable :
    (c : ℕ) (s : Console)
    → IsPrintable c
    → OnScreen s
    → 80 * s.screen_y + s.screen_x < 1999
    → ((a : ℕ) → (putc c s).mem a ≡ put_cell s.mem (cell video s.screen_x s.screen_y) c a)
      × (80 * (putc c s).screen_y + (putc c s).screen_x ≡ 80 * s.screen_y + s.screen_x + 1)
      × OnScreen (putc c s)
unfolding putc put_char next_row update_cursor
putc-printable c s p v h = (
  (λ a. ground (arith, p.no_newline)),
  ground (arith, p.no_newline),
  ground (arith, p.no_newline),
)

-- In the last cell of the screen the character is written and the screen scrolls under it: it
-- stands at the end of row 23 then, and the cursor at the start of the blank row 24.
pub putc-last_cell :
    (c : ℕ) (s : Console)
    → IsPrintable c
    → s.screen_x ≡ 79
    → s.screen_y ≡ 24
    → ((putc c s).mem (cell video 79 23) ≡ c)
      × ((a : ℕ) → video ≤ a → a < cell video 79 23 → (putc c s).mem a ≡ s.mem (a + 160))
      × ((a : ℕ) → cell video 0 24 ≤ a → a < cell video 0 25 → (putc c s).mem a ≡ blank a)
      × ((putc c s).screen_x ≡ 0)
      × ((putc c s).screen_y ≡ 24)
unfolding putc put_char next_row update_cursor
putc-last_cell c s p hx hy =
    let m = put_cell s.mem (cell video s.screen_x s.screen_y) c in
    (
      ground (arith, scroll_down_lem m (cell video 79 23)),
      (λ a lo hi. ground (arith, scroll_down_lem m a)),
      (λ a lo hi. ground (arith, scroll_down_lem m a)),
      ground arith,
      ground arith,
    )

-- Within a row, a printable character is one cell and one column.
putc_within_row :
    (c : ℕ) (s : Console)
    → IsPrintable c
    → OnScreen s
    → s.screen_x < 79
    → putc c s
      ≡ moved (record s {
        mem = put_cell s.mem (cell video s.screen_x s.screen_y) c;
        screen_x = suc s.screen_x;
      })
unfolding putc put_char next_row
putc_within_row c s p v h =
    let column : (s.screen_x + 1) % 80 ≡ suc s.screen_x = omega arith in
    let row : s.screen_y + (s.screen_x + 1) / 80 ≡ s.screen_y = omega arith in
    ground (arith, p.no_newline, column, row)

-- Behind column 0, a backspace erases the cell before the cursor, unless it ends the prompt.
putc_erases :
    (t : Console) (x : ℕ)
    → t.screen_x ≡ suc x
    → t.mem (before_cursor t video) ≢ 62
    → putc 0 t ≡ erase video t (x, t.screen_y)
unfolding putc put_char erase_at
putc_erases t x e n = rw (ne→==_false (t.mem (before_cursor t video)) 62 n, e)

-- A backspace takes back a printable character other than the end of the prompt, where the row
-- did not end: the cursor is where it was, the cell holds a null character, and no other byte has
-- changed.
pub putc-backspace :
    (c : ℕ) (s : Console)
    → IsPrintable c
    → c ≢ 62
    → OnScreen s
    → s.screen_x < 79
    → ((a : ℕ) → (putc 0 (putc c s)).mem a ≡ put_cell s.mem (cell video s.screen_x s.screen_y) 0 a)
      × ((putc 0 (putc c s)).screen_x ≡ s.screen_x)
      × ((putc 0 (putc c s)).screen_y ≡ s.screen_y)
unfolding update_cursor
putc-backspace c s p g v h =
    let m = put_cell s.mem (cell video s.screen_x s.screen_y) c in
    let t = moved (record s { mem = m; screen_x = suc s.screen_x }) in
    rw (putc_within_row c s p v h, putc_erases t s.screen_x refl (λ e. g (sym shown ∙ e)))
      ((λ a. ground arith), ground arith, ground arith)
  where
    shown :
        put_cell s.mem
          (cell video s.screen_x s.screen_y)
          c
          (cell video (suc s.screen_x) s.screen_y - 2)
        ≡ c
    shown = ground arith

-- A backspace behind the end of the prompt changes nothing.
pub putc-prompt : (s : Console) → s.mem (before_cursor s video) ≡ 62 → putc 0 s ≡ s
unfolding putc put_char
putc-prompt s h = ground arith
