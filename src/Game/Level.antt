-- ===== src/Game/Level.antt =====
-- The level of prepare_maze_level: its parameters, and its first picture.
use ece391_computer_systems.Base.{
  ℕ, zero, suc, ◌+◌, ◌-◌, ◌*◌, ◌/◌, ◌≤◌, ◌<◌, ◌≡◌, inl, inr, Bool-cases, false, ◌==◌, ltb,
  if◌then◌else◌, Mem, pos, arith, refl, ap, ◌∙◌,
}
use ece391_computer_systems.ModeX.{View, set_view_window, scroll_y_dim}
use ece391_computer_systems.ModeX.Address.{InWindow}
use ece391_computer_systems.ModeX.Window.{IsView, set_view_window-IsView, pixel}
use ece391_computer_systems.ModeX.Lines.{draw_horiz_line, draw_horiz_line_lem}
use ece391_computer_systems.Maze.{Maze, fill_horiz_buffer}
use ece391_computer_systems.Maze.Filling.{fill_horiz_buffer_lem}
use ece391_computer_systems.Maze.Pictures.{maze_pixel}
use ece391_computer_systems.Maze.Shown.{Shows}
use ece391_computer_systems.Game.Moves.{
  draw_horiz_line-window, set_view_window-place, IsView-same, SameWindow, move_window,
}

-- The parameters of a level; MAZE_MIN_X_DIM is 14, MAZE_MIN_Y_DIM is 8.
pub record Level : Type 0 where
  pub number : ℕ
  pub maze_x_dim : ℕ
  pub maze_y_dim : ℕ
  pub initial_fruit_count : ℕ
  pub time_to_first_fruit : ℕ
  pub time_between_fruits : ℕ
  pub tick_usec : ℕ

abbrev pub at_most : ℕ → ℕ → ℕ
at_most n limit = if ltb limit n then limit else n

abbrev pub at_least : ℕ → ℕ → ℕ
at_least n limit = if ltb n limit then limit else n

-- Level `l + 1`. What would be negative is below its limit, too.
unfoldable pub level_of : ℕ → Level
level_of l = record {
  number = l + 1;
  maze_x_dim = at_most (14 + 2 * l) 50;
  maze_y_dim = at_most (8 + 2 * l) 30;
  initial_fruit_count = at_most (1 + l / 2) 6;
  time_to_first_fruit = at_least (300 - 30 * l) 120;
  time_between_fruits = at_least (300 - 60 * l) 60;
  tick_usec = at_least (20000 - 1750 * l) 5000;
}

pub draw_rows : (ℕ → ℕ → ℕ → ℕ) → ℕ → ℕ → View → View
draw_rows horiz_line_fn zero i v = v
draw_rows horiz_line_fn (suc left) i v =
    draw_rows horiz_line_fn left (i + 1) (draw_horiz_line horiz_line_fn v (pos i)).0

-- The view at (SHOW_MIN, SHOW_MIN), drawn row by row.
unfoldable pub draw_level : (ℕ → ℕ → ℕ) → Mem → Maze → View → View
draw_level blocks junk m v =
    draw_rows (λ x y. fill_horiz_buffer blocks m x y junk) scroll_y_dim 0 (set_view_window v 6 6)

same_after : (v v' v'' : View) → SameWindow v v' → SameWindow v' v'' → SameWindow v v''
same_after v v' v'' s t = (t.0 ∙ s.0, t.1 ∙ s.1, t.2 ∙ s.2, t.3 ∙ s.3)

draw_rows-window :
    (f : ℕ → ℕ → ℕ → ℕ) (n i : ℕ) (v : View)
    → i + n ≤ scroll_y_dim
    → SameWindow v (draw_rows f n i v)
unfolding draw_rows
draw_rows-window f zero i v h = (refl, refl, refl, refl)
draw_rows-window f (suc n) i v h =
    same_after v (draw_horiz_line f v (pos i)).0
      (draw_rows f n (i + 1) (draw_horiz_line f v (pos i)).0)
      (draw_horiz_line-window f v i (omega arith))
      (draw_rows-window f n (i + 1) (draw_horiz_line f v (pos i)).0 (omega arith))

module _ (blocks : ℕ → ℕ → ℕ) (junk : Mem) (m : Maze) where
  lines : ℕ → ℕ → ℕ → ℕ
  lines x y = fill_horiz_buffer blocks m x y junk

  -- The first `n` rows show the maze.
  abbrev ShowsRows : ℕ → View → Type 0
  ShowsRows n v =
      (px py : ℕ)
      → InWindow v.show_x v.show_y px py
      → py < n + v.show_y
      → pixel v px py ≡ maze_pixel blocks m px py

  one_row :
      (i : ℕ) (v : View)
      → i < scroll_y_dim
      → ShowsRows i v
      → ShowsRows (i + 1) (draw_horiz_line lines v (pos i)).0
  unfolding lines
  one_row i v h rows px py w k =
      let d = draw_horiz_line-window lines v i h in
      let w' = move_window v.show_x v.show_y _ _ px py d.0 d.1 w in
      let r = draw_horiz_line_lem lines v i px py h w' in
      elim (Bool-cases (py == i + v.show_y)) [
        | inl e ↦
            r.1
            ∙ ap (λ b. if b then lines v.show_x py (px - v.show_x) else pixel v px py) e
            ∙ fill_horiz_buffer_lem blocks m v.show_x py (px - v.show_x) junk
                (omega (arith, w'.left, w'.right))
            ∙ ap (λ a. maze_pixel blocks m a py) (omega (arith, w'.left))
        | inr e ↦
            r.1
            ∙ ap (λ b. if b then lines v.show_x py (px - v.show_x) else pixel v px py) e
            ∙ rows px py w' (above py i v.show_y _ d.1 k e)
      ]
    where
      above : (p i sy sy' : ℕ) → sy' ≡ sy → p < i + 1 + sy' → p == i + sy ≡ false → p < i + sy
      above p i sy sy' e h k = ground arith

  rows_shown :
      (n i : ℕ) (v : View)
      → i + n ≤ scroll_y_dim
      → ShowsRows i v
      → ShowsRows (i + n) (draw_rows lines n i v)
  unfolding draw_rows
  rows_shown zero i v h rows = λ px py w k. rows px py w (omega arith)
  rows_shown (suc n) i v h rows = λ px py w k.
      rows_shown n (i + 1) (draw_horiz_line lines v (pos i)).0 (omega arith)
        (one_row i v (omega arith) rows) px py w (omega arith)

-- From any view in good order, the first picture of a level shows the maze in the whole window, which
-- is then at (6, 6) and in good order.
pub draw_level-Shows :
    (blocks : ℕ → ℕ → ℕ) (junk : Mem) (m : Maze) (v : View)
    → IsView v
    → Shows blocks (draw_level blocks junk m v) m
      × ((draw_level blocks junk m v).show_x ≡ 6)
      × ((draw_level blocks junk m v).show_y ≡ 6)
      × IsView (draw_level blocks junk m v)
unfolding draw_level Shows lines
draw_level-Shows blocks junk m v i =
    let w = set_view_window v 6 6 in
    let p = set_view_window-place v 6 6 in
    let d = draw_rows-window (lines blocks junk m) scroll_y_dim 0 w (omega arith) in
    (
      λ px py z.
          rows_shown blocks junk m scroll_y_dim 0 w (omega arith)
            (λ px py z k. absurd (omega (arith, z.top))) px py z (omega (arith, z.bottom)),
      d.0 ∙ p.0,
      d.1 ∙ p.1,
      IsView-same w _ d (set_view_window-IsView v 6 6 i (omega arith) (omega arith)),
    )

-- The first ten levels: the maze has an allowed size, and room for the window.
pub level_of-bounds :
    (l : ℕ)
    → l < 10
    → (14 ≤ (level_of l).maze_x_dim)
      × ((level_of l).maze_x_dim ≤ 50)
      × (8 ≤ (level_of l).maze_y_dim)
      × ((level_of l).maze_y_dim ≤ 30)
      × (6 + 320 ≤ (2 * (level_of l).maze_x_dim + 1) * 12 - 6)
      × (6 + 182 ≤ (2 * (level_of l).maze_y_dim + 1) * 12 - 6)
unfolding level_of
level_of-bounds l h =
    (ground arith, ground arith, ground arith, ground arith, ground arith, ground arith)
