-- ===== src/Game/Starting.antt =====
-- prepare_maze_level as a whole, and the start of a level in rtc_thread.
use ece391_computer_systems.Base.{
  ℕ, not, if◌then◌else◌, List, Option, some, ◌>>=◌, Mem, ℤ, success, failure, eqz,
}
use ece391_computer_systems.Maze.Squares.{Scene}
use ece391_computer_systems.Maze.Making.{make_maze}
use ece391_computer_systems.Game.{Game, dir_up, dir_stop}
use ece391_computer_systems.Game.Level.{level_of, draw_level}

-- The dimensions of level `l + 1`, and the window at (SHOW_MIN, SHOW_MIN).
abbrev pub set_level : ℕ → Game → Game
set_level l g = record g {
  info_x_dim = (level_of l).maze_x_dim;
  info_y_dim = (level_of l).maze_y_dim;
  map_x = 6;
  map_y = 6;
}

abbrev pub draw_made : (ℕ → ℕ → ℕ) → Mem → Game → Scene × List ℕ × ℤ → Option (Game × List ℕ × ℤ)
draw_made blocks junk g (s, rest, result) =
    if not (eqz result success)
    then some (record g { scene = s }, rest, failure)
    else some (
      record g { scene = record s { view = draw_level blocks junk s.maze s.view } },
      rest,
      success,
    )

unfoldable pub prepare_maze_level :
    (ℕ → ℕ → ℕ) → Mem → ℕ → Game → List ℕ → Option (Game × List ℕ × ℤ)
prepare_maze_level blocks junk l g random =
    make_maze blocks g.scene (level_of l).maze_x_dim (level_of l).maze_y_dim
      (level_of l).initial_fruit_count random
    >>= draw_made blocks junk (set_level l g)

-- The player is put at (1, 1) and stands.
abbrev pub start_player : Game → Game
start_player g = record g {
  play_x = 12;
  play_y = 12;
  move_cnt = 0;
  last_dir = dir_up;
  dir = dir_stop;
  next_dir = dir_stop;
}

abbrev pub after_prepare : Game × List ℕ × ℤ → Option (Game × List ℕ × ℤ)
after_prepare (g, rest, result) =
    if not (eqz result success) then some (g, rest, result) else some (start_player g, rest, result)

-- `prepare_maze_level`, and the player's variables if it returned 0.
unfoldable pub start_level : (ℕ → ℕ → ℕ) → Mem → ℕ → Game → List ℕ → Option (Game × List ℕ × ℤ)
start_level blocks junk l g random = prepare_maze_level blocks junk l g random >>= after_prepare
