-- ===== src/Maze/Joiner.antt =====
-- The second phase of make_maze: knocking down walls between what is reached and what is not.
-- `remaining` stops at 0 where the `int` could fall below: it never grows, and all its tests are the
-- same for 0 and below.
use ece391_computer_systems.Base.{
  ℕ, zero, suc, ◌+◌, ◌-◌, ◌*◌, Bool, ◌||◌, ◌&&◌, ltb, if◌then◌else◌, List, Option, none, some,
  ◌>>=◌, store,
}
use ece391_computer_systems.Maze.{Maze, maze_index, square, is_reached}
use ece391_computer_systems.Maze.Squares.{pick_square}
use ece391_computer_systems.Maze.Fruits.{cells_of}
use ece391_computer_systems.Maze.Marking.{Search, mark_maze_area}

-- The second phase.
pub record Joined : Type 0 where
  pub maze : Maze
  pub x : ℕ
  pub y : ℕ
  pub remaining : ℕ
  pub trials : ℕ

-- Knocking down a wall to a neighbour that is reached; `none` is no such neighbour.
unfoldable pub knock : Maze → ℕ → ℕ → Option Maze
knock m x y =
    let cur = maze_index m x y in
    if ltb 1 y && is_reached (m.maze (cur - 4 * m.maze_x_dim))
    then some (record m { maze = store m.maze (cur - 2 * m.maze_x_dim) 0 })
    else if ltb 1 x && is_reached (m.maze (cur - 2))
    then some (record m { maze = store m.maze (cur - 1) 0 })
    else if ltb x (2 * m.maze_x_dim - 1) && is_reached (m.maze (cur + 2))
    then some (record m { maze = store m.maze (cur + 1) 0 })
    else if ltb y (2 * m.maze_y_dim - 1) && is_reached (m.maze (cur + 4 * m.maze_x_dim))
    then some (record m { maze = store m.maze (cur + 2 * m.maze_x_dim) 0 })
    else none

-- `mark_maze_area(x, y)` with a round for each square: the maze and the number of new squares.
abbrev pub marked_by : Maze → Search → Option (Maze × ℕ)
marked_by m s = some (record m { maze = s.cells }, s.q_end)

abbrev pub mark_from : Maze → ℕ → ℕ → Option (Maze × ℕ)
mark_from m x y = mark_maze_area (cells_of m) m.maze_x_dim (maze_index m x y) m.maze >>= marked_by m

abbrev pub less_remaining : Joined → Maze × ℕ → Option Joined
less_remaining j r = some (record j { maze = r.0; remaining = j.remaining - r.1 })

abbrev pub mark_more : Joined → Maze → Option Joined
mark_more j m = mark_from m j.x j.y >>= less_remaining j

abbrev pub after_knock : Joined → Option Maze → Option Joined
after_knock j none = some j
after_knock j (some m) = mark_more j m

abbrev pub join : Joined → Option Joined
join j = after_knock j (knock j.maze j.x j.y)

-- The next square of the scan.
abbrev pub next_x : Maze → ℕ → ℕ
next_x m x = if ltb (m.maze_x_dim * 2) (x + 2) then x + 2 - m.maze_x_dim * 2 else x + 2

abbrev pub wrap_y : Maze → ℕ → ℕ
wrap_y m y = if ltb (2 * m.maze_y_dim) (y + 2) then y + 2 - 2 * m.maze_y_dim else y + 2

abbrev pub next_y : Maze → ℕ → ℕ → ℕ
next_y m x y = if ltb (m.maze_x_dim * 2) (x + 2) then wrap_y m y else y

abbrev pub scan_on : Joined → Joined
scan_on j = record j { x = next_x j.maze j.x; y = next_y j.maze j.x j.y }

abbrev pub try_scanned : Joined → Option Joined
try_scanned j = if is_reached (square j.maze j.x j.y) then some j else join j

abbrev pub with_rest : List ℕ → Joined → Option (Joined × List ℕ)
with_rest random j = some (j, random)

-- `remaining < 20 || ++trials > 100`.
abbrev pub scans : Joined → Bool
scans j = ltb j.remaining 20 || ltb 100 (j.trials + 1)

abbrev pub count_trial : Joined → Joined
count_trial j = record j { trials = if ltb j.remaining 20 then j.trials else j.trials + 1 }

unfoldable pub scan_round : Joined → Option Joined
scan_round j = try_scanned (scan_on (count_trial j))

unfoldable pub random_round : Joined → List ℕ → Option (Joined × List ℕ)
random_round j random = do
  picked ← pick_square j.maze is_reached random
  tried ← join (record (count_trial j) { x = picked.0; y = picked.1 })
  with_rest picked.2 tried

abbrev pub join_round : Joined → List ℕ → Option (Joined × List ℕ)
join_round j random = if scans j then (scan_round j >>= with_rest random) else random_round j random

unfoldable pub join_all : ℕ → Joined → List ℕ → Option (Joined × List ℕ)
join_all zero j random = none
join_all (suc fuel) j random = do
  done ← join_round j random
  (if ltb 0 done.0.remaining then join_all fuel done.0 done.1 else some done)
