-- ===== src/Maze/Squares.antt =====
-- Looking at squares and changing them: unveil_space, check_for_fruit, check_for_win, add_a_fruit,
-- find_open_directions, get_player_block, get_player_mask.
use ece391_computer_systems.Base.{
  ℕ, ◌+◌, ◌*◌, ◌%◌, Bool, true, ◌||◌, ◌&&◌, not, ◌==◌, ltb, leb, if◌then◌else◌, List, [], ◌∷◌,
  Option, none, some, ◌>>=◌, store, ℤ, pos, negsuc,
}
use ece391_computer_systems.ModeX.{View, draw_full_block}
use ece391_computer_systems.Maze.{
  Maze, maze_index, square, is_reached, fruit_of, is_exit, with_reach, without_fruit, find_block,
  block_player_up, block_player_mask_up, wall_up, wall_down, wall_left, wall_right,
}

-- The maze and the build buffer that it is drawn into.
pub record Scene : Type 0 where
  pub view : View
  pub maze : Maze

abbrev pub put_square : Maze → ℕ → ℕ → ℕ → Maze
put_square m x y c = record m { maze = store m.maze (maze_index m x y) c }

-- `draw_full_block(x * BLOCK_X_DIM, y * BLOCK_Y_DIM, find_block(x, y))`.
unfoldable pub draw_square : (ℕ → ℕ → ℕ) → Scene → ℕ → ℕ → Scene
draw_square blocks s x y = record s {
  view = draw_full_block s.view (pos (x * 12)) (pos (y * 12)) (blocks (find_block s.maze x y));
}

abbrev pub reach_square : Maze → ℕ → ℕ → Maze
reach_square m x y = put_square m x y (with_reach (square m x y))

unfoldable pub unveil_space : (ℕ → ℕ → ℕ) → Scene → ℤ → ℤ → Scene
unveil_space blocks s (negsuc n) y = s
unveil_space blocks s (pos x) (negsuc n) = s
unveil_space blocks s (pos x) (pos y) =
    if ltb (2 * s.maze.maze_x_dim) x || ltb (2 * s.maze.maze_y_dim) y
    then s
    else if is_reached (square s.maze x y)
    then s
    else draw_square blocks (record s { maze = reach_square s.maze x y }) x y

-- `--n_fruits` and `++n_fruits` of a 32-bit number.
abbrev pub one_less : ℕ → ℕ
one_less n = (n + 4294967295) % 4294967296

abbrev pub one_more : ℕ → ℕ
one_more n = (n + 1) % 4294967296

abbrev pub eat_fruit : Maze → ℕ → ℕ → Maze
eat_fruit m x y = record m {
  maze = store m.maze (maze_index m x y) (without_fruit (square m x y));
  n_fruits = one_less m.n_fruits;
}

abbrev pub draw_exit : (ℕ → ℕ → ℕ) → ℕ → Scene → Scene
draw_exit blocks n s =
    if s.maze.n_fruits == n then draw_square blocks s s.maze.exit_x s.maze.exit_y else s

unfoldable pub check_for_fruit : (ℕ → ℕ → ℕ) → Scene → ℕ → ℕ → Scene × ℕ
check_for_fruit blocks s x y =
    let fnum = fruit_of (square s.maze x y) in
    let eaten = draw_exit blocks 0 (record s { maze = eat_fruit s.maze x y }) in
    if leb (2 * s.maze.maze_x_dim) x || leb (2 * s.maze.maze_y_dim) y
    then (s, 0)
    else if fnum == 0
    then (s, 0)
    else (draw_square blocks eaten x y, fnum)

unfoldable pub check_for_win : Maze → ℕ → ℕ → Bool
check_for_win m x y =
    not (leb (2 * m.maze_x_dim) x || leb (2 * m.maze_y_dim) y)
    && ((m.n_fruits == 0) && is_exit (square m x y))

-- The numbers that `random` gives, in order. A square is picked until one is free: `none` is a loop
-- that still waits for numbers.
abbrev pub odd_below : ℕ → ℕ → ℕ
odd_below r dim = r % dim * 2 + 1

unfoldable pub pick_square : Maze → (ℕ → Bool) → List ℕ → Option (ℕ × ℕ × List ℕ)
pick_square m taken [] = none
pick_square m taken (r ∷ []) = none
pick_square m taken (r ∷ t ∷ rest) =
    let again = pick_square m taken rest in
    let x = odd_below r m.maze_x_dim in
    let y = odd_below t m.maze_y_dim in if taken (square m x y) then again else some (x, y, rest)

abbrev pub has_fruit : ℕ → Bool
has_fruit c = not (fruit_of c == 0)

-- The fruit bits of the picked square are clear.
abbrev pub plant : Maze → ℕ → ℕ → ℕ → Maze
plant m x y r = record m {
  maze = store m.maze (maze_index m x y) (square m x y + (r % 7 + 1) * 2);
  n_fruits = one_more m.n_fruits;
}

abbrev pub planted : (ℕ → ℕ → ℕ) → Bool → Scene → ℕ → ℕ → List ℕ → Option (Scene × List ℕ)
planted blocks show s x y [] = none
planted blocks show s x y (r ∷ rest) =
    let s' = record s { maze = plant s.maze x y r } in
    some (if show then draw_square blocks s' x y else s', rest)

-- `_add_a_fruit`; `add_a_fruit_internal` is the call without `show`.
unfoldable pub put_a_fruit : (ℕ → ℕ → ℕ) → Bool → Scene → List ℕ → Option (Scene × List ℕ)
put_a_fruit blocks show s random = do
  picked ← pick_square s.maze has_fruit random
  planted blocks show s picked.0 picked.1 picked.2

unfoldable pub add_a_fruit : (ℕ → ℕ → ℕ) → Scene → List ℕ → Option (Scene × List ℕ × ℕ)
add_a_fruit blocks s random = do
  added ← put_a_fruit blocks true s random
  some (draw_exit blocks 1 added.0, added.1, added.0.maze.n_fruits)

-- Up, right, down, left.
abbrev pub find_open_directions : Maze → ℕ → ℕ → List Bool
find_open_directions m x y =
    not (wall_up m x y)
    ∷ not (wall_right m x y)
    ∷ not (wall_down m x y)
    ∷ not (wall_left m x y)
    ∷ []

abbrev pub get_player_block : (ℕ → ℕ → ℕ) → ℕ → ℕ → ℕ
get_player_block blocks dir = blocks (block_player_up + dir)

abbrev pub get_player_mask : (ℕ → ℕ → ℕ) → ℕ → ℕ → ℕ
get_player_mask blocks dir = blocks (block_player_mask_up + dir)
