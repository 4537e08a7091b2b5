-- ===== src/Maze/Making.antt =====
-- make_maze: worms dig the maze, its parts are joined, and it gets its fruits and its exit.
-- `random` is the list of the numbers that the calls of `random` return; a maze that is still being
-- made when they are used up is `none`. `remaining` stops at 0 where the `int` could fall below:
-- it never grows, and all its tests are the same for 0 and below.
use ece391_computer_systems.Base.{
  ℕ, zero, suc, ◌+◌, ◌-◌, ◌*◌, Bool, false, ◌||◌, ltb, if◌then◌else◌, List, Option, some, ◌>>=◌,
  store, ℤ, success, failure,
}
use ece391_computer_systems.Maze.{Maze, maze_index, square, is_reached, is_exit}
use ece391_computer_systems.Maze.Squares.{Scene, put_square, pick_square, has_fruit, put_a_fruit}
use ece391_computer_systems.Maze.Crawler.{Worm, worms}
use ece391_computer_systems.Maze.Joiner.{Joined, mark_from, join_all}

-- `c &= ~MAZE_REACH` in column `x` from row `y` on, and in the columns from `x` on.
abbrev pub without_reach : ℕ → ℕ
without_reach c = if is_reached c then c - 128 else c

unfoldable pub clear_column : ℕ → ℕ → ℕ → Maze → Maze
clear_column zero x y m = m
clear_column (suc left) x y m =
    clear_column left x (y + 2) (put_square m x y (without_reach (square m x y)))

unfoldable pub clear_columns : ℕ → ℕ → Maze → Maze
clear_columns zero x m = m
clear_columns (suc left) x m = clear_columns left (x + 2) (clear_column m.maze_y_dim x 1 m)

unfoldable pub add_fruits : (ℕ → ℕ → ℕ) → ℕ → Scene → List ℕ → Option (Scene × List ℕ)
add_fruits blocks zero s random = some (s, random)
add_fruits blocks (suc left) s random = do
  added ← put_a_fruit blocks false s random
  add_fruits blocks left added.0 added.1

abbrev pub with_exit : ℕ → ℕ
with_exit c = if is_exit c then c else c + 16

abbrev pub exit_at : Maze → ℕ → ℕ → Maze
exit_at m x y = record m {
  maze = store m.maze (maze_index m x y) (with_exit (square m x y));
  exit_x = x;
  exit_y = y;
}

unfoldable pub put_exit : Scene → List ℕ → Option (Scene × List ℕ)
put_exit s random = do
  picked ← pick_square s.maze has_fruit random
  some (record s { maze = exit_at s.maze picked.0 picked.1 }, picked.2)

-- The maze full of walls.
abbrev pub walled : Maze → ℕ → ℕ → Maze
walled m x_dim y_dim = record m { maze = λ i. 1; maze_x_dim = x_dim; maze_y_dim = y_dim }

-- The first marking. `++trials` ends the random rounds; a scan finds a wall to knock down in each
-- pass over the squares.
abbrev pub start_joining : Worm → Maze × ℕ → Joined
start_joining w marked = record {
  maze = marked.0;
  x = w.x;
  y = w.y;
  remaining = w.maze.maze_x_dim * w.maze.maze_y_dim - marked.1;
  trials = 0;
}

abbrev pub join_rounds : Maze → ℕ
join_rounds m = let size = m.maze_x_dim * m.maze_y_dim in 101 + size * size

unfoldable pub join_parts : Worm → List ℕ → Option (Joined × List ℕ)
join_parts w random = do
  marked ← mark_from w.maze 1 1
  join_all (join_rounds w.maze) (start_joining w marked) random

abbrev pub cleared : Joined × List ℕ → Option (Maze × List ℕ)
cleared r = some (clear_columns r.0.maze.maze_x_dim 1 r.0.maze, r.1)

unfoldable pub dig_maze : Maze → List ℕ → Option (Maze × List ℕ)
dig_maze m random = do
  dug ← worms (m.maze_x_dim * m.maze_y_dim) m (m.maze_x_dim * m.maze_y_dim) random
  joined ← join_parts dug.0 dug.1
  cleared joined

abbrev pub furnish : (ℕ → ℕ → ℕ) → ℕ → Scene → List ℕ → Option (Scene × List ℕ)
furnish blocks start_fruits s random = do
  sown ← add_fruits blocks start_fruits (record s { maze = record s.maze { n_fruits = 0 } }) random
  put_exit sown.0 sown.1

abbrev pub made : Scene × List ℕ → Option (Scene × List ℕ × ℤ)
made r = some (r.0, r.1, success)

abbrev pub build_maze : (ℕ → ℕ → ℕ) → Scene → ℕ → ℕ → ℕ → List ℕ → Option (Scene × List ℕ × ℤ)
build_maze blocks s x_dim y_dim start_fruits random = do
  dug ← dig_maze (walled s.maze x_dim y_dim) random
  finished ← furnish blocks start_fruits (record s { maze = dug.0 }) dug.1
  made finished

-- The size of a maze is 14 x 8 to 50 x 30.
abbrev pub bad_size : ℕ → ℕ → Bool
bad_size x_dim y_dim = ltb x_dim 14 || (ltb 50 x_dim || (ltb y_dim 8 || ltb 30 y_dim))

unfoldable pub make_maze : (ℕ → ℕ → ℕ) → Scene → ℕ → ℕ → ℕ → List ℕ → Option (Scene × List ℕ × ℤ)
make_maze blocks s x_dim y_dim start_fruits random =
    let build = build_maze blocks s x_dim y_dim start_fruits random in
    if bad_size x_dim y_dim then some (s, random, failure) else build
