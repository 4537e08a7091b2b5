-- ===== src/Game.antt =====
-- The game of MP2/mazegame.c: the level, the player's moves, the keys and the Tux controller.
-- `junk` is what the line buffers of draw_horiz_line and draw_vert_line hold before they are filled.
pub mod Moves
pub mod Framing
pub mod Level
pub mod Tracking
pub mod Seeing
pub mod Starting
pub mod Started
pub mod Keys
mod Examples
use ece391_computer_systems.Base.{
  ℕ, ◌+◌, ◌-◌, ◌*◌, ◌/◌, ◌%◌, Bool, true, false, ◌||◌, ◌&&◌, not, ◌==◌, ltb, leb, if◌then◌else◌,
  List, [], ◌∷◌, get_or, Option, none, some, ◌>>=◌, Mem, ℤ, pos, negsuc,
}
use ece391_computer_systems.ModeX.{
  View, set_view_window, draw_full_block, draw_full_block_with_mask, copy_full_block,
}
use ece391_computer_systems.ModeX.Lines.{draw_horiz_line, draw_vert_line}
use ece391_computer_systems.Maze.{Maze, find_block, fill_horiz_buffer, fill_vert_buffer}
use ece391_computer_systems.Maze.Squares.{
  Scene, unveil_space, check_for_fruit, check_for_win, find_open_directions,
}

-- The directions: up, right, down, left, and the stop.
abbrev pub dir_up : ℕ
dir_up = 0

abbrev pub dir_right : ℕ
dir_right = 1

abbrev pub dir_down : ℕ
dir_down = 2

abbrev pub dir_left : ℕ
dir_left = 3

abbrev pub dir_stop : ℕ
dir_stop = 4

-- `game_info` and the variables of the player.
pub record Game : Type 0 where
  pub scene : Scene
  pub info_x_dim : ℕ
  pub info_y_dim : ℕ
  pub map_x : ℕ
  pub map_y : ℕ
  pub play_x : ℕ
  pub play_y : ℕ
  pub last_dir : ℕ
  pub dir : ℕ
  pub next_dir : ℕ
  pub move_cnt : ℕ
  pub current_fnum : ℕ

module _ (blocks : ℕ → ℕ → ℕ) (junk : Mem) where
  -- `set_view_window(x, y); draw_horiz_line(n)`, and the same with a vertical line.
  unfoldable pub pan_row : ℕ → ℕ → ℕ → Scene → Scene
  pan_row x y n s = record s {
    view =
        (draw_horiz_line (λ a b. fill_horiz_buffer blocks s.maze a b junk)
          (set_view_window s.view x y) (pos n)).0;
  }

  unfoldable pub pan_column : ℕ → ℕ → ℕ → Scene → Scene
  pan_column x y n s = record s {
    view =
        (draw_vert_line (λ a b. fill_vert_buffer blocks s.maze a b junk)
          (set_view_window s.view x y) (pos n)).0;
  }

  -- A pixel of the player's way. The player is never in the first row or column of pixels.
  unfoldable pub move_up : Game → Game
  move_up g =
      let y = g.play_y - 1 in
      let panned = record g {
        play_y = y;
        map_y = g.map_y - 1;
        scene = pan_row g.map_x (g.map_y - 1) 0 g.scene;
      } in
      if ltb y (g.map_y + 60) && ltb 6 g.map_y then panned else record g { play_y = y }

  unfoldable pub move_right : Game → Game
  move_right g =
      let x = g.play_x + 1 in
      let panned = record g {
        play_x = x;
        map_x = g.map_x + 1;
        scene = pan_column (g.map_x + 1) g.map_y 319 g.scene;
      } in
      if ltb (g.map_x + 320 - 72) x && ltb (g.map_x + 320) ((2 * g.info_x_dim + 1) * 12 - 6)
      then panned
      else record g { play_x = x }

  unfoldable pub move_down : Game → Game
  move_down g =
      let y = g.play_y + 1 in
      let panned = record g {
        play_y = y;
        map_y = g.map_y + 1;
        scene = pan_row g.map_x (g.map_y + 1) 181 g.scene;
      } in
      if ltb (g.map_y + 182 - 72) y && ltb (g.map_y + 182) ((2 * g.info_y_dim + 1) * 12 - 6)
      then panned
      else record g { play_y = y }

  unfoldable pub move_left : Game → Game
  move_left g =
      let x = g.play_x - 1 in
      let panned = record g {
        play_x = x;
        map_x = g.map_x - 1;
        scene = pan_column (g.map_x - 1) g.map_y 0 g.scene;
      } in
      if ltb x (g.map_x + 60) && ltb 6 g.map_x then panned else record g { play_x = x }

-- The squares around the player, in the order of the calls. `minus x k` is `x - k`.
abbrev pub minus : ℕ → ℕ → ℤ
minus x k = if ltb x k then negsuc (k - x - 1) else pos (x - k)

abbrev pub around : ℕ → ℕ → List (ℤ × ℤ)
around x y =
    (minus x 1, minus y 1)
    ∷ (minus x 1, pos y)
    ∷ (minus x 1, pos (y + 1))
    ∷ (pos x, minus y 1)
    ∷ (pos x, pos y)
    ∷ (pos x, pos (y + 1))
    ∷ (pos (x + 1), minus y 1)
    ∷ (pos (x + 1), pos y)
    ∷ (pos (x + 1), pos (y + 1))
    ∷ (pos x, minus y 2)
    ∷ (pos (x + 2), pos y)
    ∷ (pos x, pos (y + 2))
    ∷ (minus x 2, pos y)
    ∷ []

pub unveil_all : (ℕ → ℕ → ℕ) → List (ℤ × ℤ) → Scene → Scene
unveil_all blocks [] s = s
unveil_all blocks (p ∷ ps) s = unveil_all blocks ps (unveil_space blocks s p.0 p.1)

-- The scene, the number of the fruit, and whether the player has won.
unfoldable pub unveil_around_player : (ℕ → ℕ → ℕ) → Scene → ℕ → ℕ → Scene × ℕ × Bool
unveil_around_player blocks s play_x play_y =
    let x = play_x / 12 in
    let y = play_y / 12 in
    let checked : Scene × ℕ = check_for_fruit blocks s x y in
    let seen = unveil_all blocks (around x y) checked.0 in
    (seen, checked.1, check_for_win seen.maze x y)

-- One tick of rtc_thread, from the test of `next_dir` on. Turning back is done at once.
abbrev pub opposite : ℕ → ℕ → Bool
opposite dir next =
    (dir == dir_up && next == dir_down)
    || (dir == dir_down && next == dir_up)
    || (dir == dir_left && next == dir_right)
    || (dir == dir_right && next == dir_left)

unfoldable pub turn_back : Game → Game
turn_back g =
    if not (g.next_dir == g.dir) && opposite g.dir g.next_dir
    then record g {
      move_cnt = if ltb 0 g.move_cnt then 12 - g.move_cnt else g.move_cnt;
      dir = g.next_dir;
    }
    else g

-- The choice at a new square. `beyond` is what `open[NUM_DIRS]`, behind the array, reads.
abbrev pub is_open : Bool → List Bool → ℕ → Bool
is_open beyond opened dir = get_or opened dir beyond

unfoldable pub choose_dir : Bool → List Bool → Game → Game
choose_dir beyond opened g =
    let dir = if is_open beyond opened g.next_dir then g.next_dir else g.dir in
    if dir == dir_stop
    then record g { dir = dir }
    else if not (is_open beyond opened dir)
    then record g { dir = dir_stop }
    else record g { dir = dir; move_cnt = 12 }

abbrev pub move : (ℕ → ℕ → ℕ) → Mem → Game → Game
move blocks junk g =
    if g.dir == dir_up
    then move_up blocks junk g
    else if g.dir == dir_right
    then move_right blocks junk g
    else if g.dir == dir_down
    then move_down blocks junk g
    else if g.dir == dir_left
    then move_left blocks junk g
    else g

unfoldable pub step : (ℕ → ℕ → ℕ) → Mem → Game → Game
step blocks junk g =
    if g.dir == dir_stop
    then g
    else move blocks junk (record g { last_dir = g.dir; move_cnt = g.move_cnt - 1 })

-- The next game, and whether the level is over.
unfoldable pub tick : (ℕ → ℕ → ℕ) → Mem → Bool → Game → Game × Bool
tick blocks junk beyond g =
    let turned = turn_back g in
    let seen : Scene × ℕ × Bool =
      unveil_around_player blocks turned.scene turned.play_x turned.play_y in
    let there = record turned { scene = seen.0; current_fnum = seen.1 } in
    let opened = find_open_directions seen.0.maze (turned.play_x / 12) (turned.play_y / 12) in
    if not (turned.move_cnt == 0)
    then (step blocks junk turned, false)
    else if seen.2
    then (there, true)
    else (step blocks junk (choose_dir beyond opened there), false)
