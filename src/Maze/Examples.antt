-- ===== src/Maze/Examples.antt =====
-- A maze of 14 x 8 with a fruit at (1, 1), and a corridor of three squares in a small array.
use ece391_computer_systems.Base.{
  ℕ, ◌≡◌, ◌+◌, ◌||◌, ◌⊎◌, false, true, ◌==◌, if◌then◌else◌, List, [], some, inr, success, subst,
  refl, arith,
}
use ece391_computer_systems.ModeX.{View}
use ece391_computer_systems.Maze.{Maze, is_wall, is_reached}
use ece391_computer_systems.Maze.Squares.{Scene, check_for_fruit}
use ece391_computer_systems.Maze.Counting.{Counted, count_fruits}
use ece391_computer_systems.Maze.Fruits.{cells_of, check_for_fruit-Counted}
use ece391_computer_systems.Maze.Marking.{Search, mark_maze_area, unreached}
use ece391_computer_systems.Maze.Ending.{Roomy, mark_maze_area_terminates}
use ece391_computer_systems.Maze.Ways.{Way, stop, mark_maze_area-Way}
use ece391_computer_systems.Maze.Joiner.{Joined}
use ece391_computer_systems.Maze.Making.{make_maze}
use ece391_computer_systems.Maze.Lattice.{Lattice}
use ece391_computer_systems.Maze.Rooms.{count_rooms}
use ece391_computer_systems.Maze.Connecting.{Between}
use ece391_computer_systems.Maze.Connected.{IsMaze}
use ece391_computer_systems.Maze.Made.{IsFurnished, make_maze-IsMaze, make_maze-IsFurnished}
use ece391_computer_systems.Maze.Frontier.{Frontier}
use ece391_computer_systems.Maze.Rounds.{Settled, scan_ends}
use ece391_computer_systems.Maze.Returns.{make_maze_returns}

abbrev maze : Maze
maze = record {
  maze = λ i. if i == 57 then 2 else 0;
  maze_x_dim = 14;
  maze_y_dim = 8;
  n_fruits = 1;
  exit_x = 3;
  exit_y = 3;
}

abbrev view : View
view = record {
  mem = λ a. 0;
  build = 2097152;
  img3 = 2107152;
  show_x = 0;
  show_y = 0;
  target_img = 1440;
  video = λ p a. 0;
  ports = [];
}

abbrev scene : Scene
scene = record { view = view; maze = maze }

abbrev blocks : ℕ → ℕ → ℕ
blocks n k = n

maze-Counted : Counted (cells_of maze) maze
unfolding Counted count_fruits
maze-Counted = refl

check_for_fruit-Counted_example :
    Counted (cells_of maze) (check_for_fruit blocks scene 1 1).0.maze
    × (((check_for_fruit blocks scene 1 1).1 ≡ 0) ⊎ ((check_for_fruit blocks scene 1 1).1 ≡ 1))
check_for_fruit-Counted_example =
    check_for_fruit-Counted blocks scene 1 1 (omega arith) maze-Counted

-- Rows of four squares; 9, 10 and 11 are open.
abbrev cells : ℕ → ℕ
cells i = if (i == 9) || ((i == 10) || (i == 11)) then 0 else 1

cells-Roomy : Roomy 20 2 cells
unfolding Roomy
cells-Roomy c h = (λ o. ground arith, λ o. ground arith)

new : (i : ℕ) → is_reached (cells i) ≡ false
new i = ground arith

mark_maze_area_terminates_example :
    (s : Search) × (mark_maze_area 20 2 9 cells ≡ some s)
    × (s.q ≡ [])
    × (s.q_end + unreached 20 s.cells ≡ unreached 20 cells)
    × ((i : ℕ) → is_wall (s.cells i) ≡ is_wall (cells i))
mark_maze_area_terminates_example =
    mark_maze_area_terminates 20 2 9 cells (omega arith) (new 9) cells-Roomy

mark_maze_area-Way_example :
    (s : Search) × (mark_maze_area 20 2 9 cells ≡ some s)
    × ((c : ℕ) → Way 2 cells 9 c → is_reached (s.cells c) ≡ true)
mark_maze_area-Way_example = mark_maze_area-Way 20 2 9 cells (omega arith) new cells-Roomy

make_maze_returns_example :
    (random : List ℕ) × (s' : Scene) × (make_maze blocks scene 20 10 3 random
      ≡ some (s', [], success))
make_maze_returns_example = make_maze_returns blocks scene 20 10 3 refl (omega arith)

-- A run of make_maze.
returned :
    (random : List ℕ) × (s' : Scene) × (make_maze blocks scene 14 8 1 random
      ≡ some (s', [], success))
returned = make_maze_returns blocks scene 14 8 1 refl (omega arith)

make_maze-IsMaze_example :
    (success ≡ success)
    × (returned.1.maze.maze_x_dim ≡ 14)
    × (returned.1.maze.maze_y_dim ≡ 8)
    × IsMaze returned.1.maze
make_maze-IsMaze_example =
    make_maze-IsMaze blocks scene 14 8 1 returned.0 returned.1 [] success refl (omega arith)
      returned.2

make_maze-IsFurnished_example : IsFurnished 1 returned.1.maze
make_maze-IsFurnished_example =
    make_maze-IsFurnished blocks scene 14 8 1 returned.0 returned.1 [] success refl (omega arith)
      returned.2

-- Two rooms beside each other; the first is reached.
abbrev two_cells : ℕ → ℕ
two_cells i = if i == 9 then 128 else if i == 11 then 0 else 1

abbrev two_rooms : Joined
two_rooms = record {
  maze = record {
    maze = two_cells;
    maze_x_dim = 2;
    maze_y_dim = 1;
    n_fruits = 0;
    exit_x = 1;
    exit_y = 1;
  };
  x = 3;
  y = 1;
  remaining = 1;
  trials = 0;
}

two_rooms-Between : Between 2 1 two_rooms
unfolding Lattice count_rooms
two_rooms-Between = record {
  x_size = refl;
  y_size = refl;
  parts = record {
    lattice = λ x r h e. ground arith;
    open_rooms = λ a b h k. ground arith;
    plain = λ i. ground arith;
    sound = λ i e. subst (Way 2 two_cells 9) (ground arith) stop;
    counted = refl;
    rooted = refl;
  };
  spot = record { a = 1; b = 0; column = omega arith; row = omega arith; at_x = refl; at_y = refl };
}

abbrev beside_first : Frontier two_rooms.maze
beside_first = record {
  a = 1;
  b = 0;
  column = omega arith;
  row = omega arith;
  hidden = refl;
  edge = inr (0, refl, refl);
}

scan_ends_example : Settled 2 two_rooms
scan_ends_example =
    scan_ends 2 1 2 two_rooms two_rooms-Between beside_first refl (omega arith) (omega arith)
