-- ===== src/Console/Scrolling.antt =====
-- `clear` and `scroll_down`: what stands in video memory afterwards.
use ece391_computer_systems.Base.{
  ℕ, zero, suc, ◌+◌, ◌*◌, ◌%◌, ◌≤◌, ◌≡◌, ◌&&◌, ltb, leb, if◌then◌else◌, Mem, store, arith, ◌==◌,
  refl,
}
use ece391_computer_systems.Console.{
  Console, video, cell, put_cell, scroll_row, scroll_rows, blank_row, scroll_down, clear_loop,
  clear,
}

scroll_row_lem :
    (m : Mem) (i j left a : ℕ)
    → j + left ≤ 80
    → scroll_row m i j left a
      ≡ (if leb (cell video j i) a && ltb a (cell video (j + left) i) then m (a + 160) else m a)
unfolding scroll_row
scroll_row_lem m i j zero a h = ground arith
scroll_row_lem m i j (suc left) a h =
    let m1 = store m (cell video j i) (m (cell video j (i + 1))) in
    ground (
      arith,
      scroll_row_lem (store m1 (cell video j i + 1) (m1 (cell video j (i + 1) + 1))) i (j + 1) left
          a,
    )

scroll_rows_lem :
    (m : Mem) (i left a : ℕ)
    → scroll_rows m i left a
      ≡ (if leb (cell video 0 i) a && ltb a (cell video 0 (i + left)) then m (a + 160) else m a)
unfolding scroll_rows
scroll_rows_lem m i zero a = ground arith
scroll_rows_lem m i (suc left) a = ground (
  arith,
  scroll_rows_lem (scroll_row m i 0 80) (i + 1) left a,
  scroll_row_lem m i 0 80 a,
  scroll_row_lem m i 0 80 (a + 160),
)

-- A blank cell: a space in the usual colours.
abbrev pub blank : ℕ → ℕ
blank a = if a % 2 == 0 then 32 else 7

blank_row_lem :
    (m : Mem) (j left a : ℕ)
    → blank_row m j left a
      ≡ (if leb (cell video j 24) a && ltb a (cell video (j + left) 24) then blank a else m a)
unfolding blank_row
blank_row_lem m j zero a = ground arith
blank_row_lem m j (suc left) a =
    ground (arith, blank_row_lem (put_cell m (cell video j 24) 32) (j + 1) left a)

-- `scroll_down` moves each of the lower 24 rows, characters and attributes, one row up, blanks the
-- last row, and changes nothing outside the 4000 bytes of the screen.
pub scroll_down_lem :
    (m : Mem) (a : ℕ)
    → scroll_down m a ≡ (
        if leb (video + 3840) a && ltb a (video + 4000)
        then blank a
        else if leb video a && ltb a (video + 3840)
        then m (a + 160)
        else m a)
unfolding scroll_down
scroll_down_lem m a =
    ground (arith, blank_row_lem (scroll_rows m 0 24) 0 80 a, scroll_rows_lem m 0 24 a)

clear_loop_lem :
    (m : Mem) (i left a : ℕ)
    → clear_loop m i left a
      ≡ (if leb (video + 2 * i) a && ltb a (video + 2 * (i + left)) then blank a else m a)
unfolding clear_loop
clear_loop_lem m i zero a = ground arith
clear_loop_lem m i (suc left) a =
    ground (arith, clear_loop_lem (put_cell m (video + 2 * i) 32) (i + 1) left a)

-- `clear` blanks all 2000 cells of the screen and nothing else, and homes the cursor.
pub clear_lem :
    (s : Console)
    → ((a : ℕ)
        → (clear s).mem a ≡ (if leb video a && ltb a (video + 4000) then blank a else s.mem a))
      × ((clear s).screen_x ≡ 0)
      × ((clear s).screen_y ≡ 0)
unfolding clear
clear_lem s = ((λ a. clear_loop_lem s.mem 0 2000 a), refl, refl)
