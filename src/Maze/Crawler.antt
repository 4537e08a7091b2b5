-- ===== src/Maze/Crawler.antt =====
-- The worms of make_maze. A worm that still crawls when the random numbers are used up is `none`.
use ece391_computer_systems.Base.{
  ℕ, zero, suc, ◌+◌, ◌-◌, ◌*◌, ◌%◌, Bool, not, ◌==◌, ltb, if◌then◌else◌, List, [], ◌∷◌, Option,
  none, some, ◌>>=◌,
}
use ece391_computer_systems.Maze.{Maze, square, is_wall}
use ece391_computer_systems.Maze.Squares.{put_square, pick_square}

abbrev pub is_full : ℕ → Bool
is_full c = c == 1

-- `turn_wt[d][wall]`.
abbrev pub turn_wt : ℕ → Bool → ℕ
turn_wt d wall =
    if d == 0 then (if wall then 84 else 1) else if d == 2 then 3 else (if wall then 9 else 1)

-- A worm at (x, y).
pub record Worm : Type 0 where
  pub maze : Maze
  pub x : ℕ
  pub y : ℕ
  pub pref_dir : ℕ
  pub remaining : ℕ

-- The weights of the four directions, by whether the room there is a wall.
abbrev pub weight_up : Worm → ℕ
weight_up w = turn_wt w.pref_dir (is_full (square w.maze w.x (w.y - 2)))

abbrev pub weight_right : Worm → ℕ
weight_right w = turn_wt ((w.pref_dir + 3) % 4) (is_full (square w.maze (w.x + 2) w.y))

abbrev pub weight_down : Worm → ℕ
weight_down w = turn_wt ((w.pref_dir + 2) % 4) (is_full (square w.maze w.x (w.y + 2)))

abbrev pub weight_left : Worm → ℕ
weight_left w = turn_wt ((w.pref_dir + 1) % 4) (is_full (square w.maze (w.x - 2) w.y))

-- `wt[0]` to `wt[3]`, the last of which is `total`.
abbrev pub wt_up : Worm → ℕ
wt_up w = if ltb 1 w.y then weight_up w else 0

abbrev pub wt_right : Worm → ℕ
wt_right w = wt_up w + (if ltb w.x (w.maze.maze_x_dim * 2 - 1) then weight_right w else 0)

abbrev pub wt_down : Worm → ℕ
wt_down w = wt_right w + (if ltb w.y (w.maze.maze_y_dim * 2 - 1) then weight_down w else 0)

abbrev pub wt_left : Worm → ℕ
wt_left w = wt_down w + (if ltb 1 w.x then weight_left w else 0)

-- The first direction whose weight is above `pick`, which is below the last.
unfoldable pub choose_turn : Worm → ℕ → ℕ
choose_turn w r =
    let pick = r % wt_left w in
    if ltb pick (wt_up w)
    then 0
    else if ltb pick (wt_right w)
    then 1
    else if ltb pick (wt_down w)
    then 2
    else 3

abbrev pub turns_around : ℕ → ℕ → Bool
turns_around dir pref_dir = (dir + 4 - pref_dir) % 4 == 2

-- The wall between is taken away, and the worm goes through.
abbrev pub through_wall : Worm → ℕ → Worm
through_wall w dir =
    if dir == 0
    then record w { maze = put_square w.maze w.x (w.y - 1) 0; y = w.y - 2; pref_dir = dir }
    else if dir == 1
    then record w { maze = put_square w.maze (w.x + 1) w.y 0; x = w.x + 2; pref_dir = dir }
    else if dir == 2
    then record w { maze = put_square w.maze w.x (w.y + 1) 0; y = w.y + 2; pref_dir = dir }
    else record w { maze = put_square w.maze (w.x - 1) w.y 0; x = w.x - 2; pref_dir = dir }

-- The worm eats the wall at its place.
abbrev pub eat_wall : Worm → Worm
eat_wall w = record w {
  maze = put_square w.maze w.x w.y 0;
  remaining = if is_full (square w.maze w.x w.y) then w.remaining - 1 else w.remaining;
}

unfoldable pub crawl : Worm → ℕ → Worm
crawl w dir = eat_wall (through_wall w dir)

-- One worm, until it turns around.
unfoldable pub worm_loop : List ℕ → Worm → Option (Worm × List ℕ)
worm_loop [] w = none
worm_loop (r ∷ rest) w =
    let dir = choose_turn w r in
    let onward = worm_loop rest (crawl w dir) in
    if turns_around dir w.pref_dir then some (w, rest) else onward

abbrev pub worm_at : Maze → ℕ → ℕ → ℕ → ℕ → Worm
worm_at m x y r remaining = record {
  maze = put_square m x y 0;
  x = x;
  y = y;
  pref_dir = r % 4;
  remaining = remaining - 1;
}

abbrev pub start_worm : Maze → ℕ → ℕ → ℕ → List ℕ → Option (Worm × List ℕ)
start_worm m remaining x y [] = none
start_worm m remaining x y (r ∷ rest) = worm_loop rest (worm_at m x y r remaining)

-- A new worm at a wall.
unfoldable pub drop_worm : Maze → ℕ → List ℕ → Option (Worm × List ℕ)
drop_worm m remaining random = do
  picked ← pick_square m (λ c. not (is_wall c)) random
  start_worm m remaining picked.0 picked.1 picked.2

-- Each worm takes at least one wall, so `remaining` rounds are enough.
unfoldable pub worms : ℕ → Maze → ℕ → List ℕ → Option (Worm × List ℕ)
worms zero m remaining random = none
worms (suc fuel) m remaining random = do
  dug ← drop_worm m remaining random
  (if ltb 0 dug.0.remaining then worms fuel dug.0.maze dug.0.remaining dug.1 else some dug)
