-- ===== src/Game/Examples.antt =====
-- The first level: a maze of 14 x 8 with a fruit at (2, 1), drawn from (6, 6), and the player at
-- (1, 1) on the way to the right.
use ece391_computer_systems.Base.{
  some, List, success, ℕ, ◌≡◌, inl, inr, ◌==◌, if◌then◌else◌, [], Mem, refl, arith,
}
use ece391_computer_systems.ModeX.{View}
use ece391_computer_systems.ModeX.Window.{IsView}
use ece391_computer_systems.Maze.{Maze}
use ece391_computer_systems.Maze.Squares.{Scene, check_for_fruit}
use ece391_computer_systems.Maze.Shown.{Shows}
use ece391_computer_systems.Maze.Unveiling.{Inside}
use ece391_computer_systems.Maze.Eating.{ExitNoted, check_for_fruit-Shows}
use ece391_computer_systems.Game.{Game, step, unveil_around_player, dir_up, dir_right}
use ece391_computer_systems.Game.Level.{draw_level, draw_level-Shows}
use ece391_computer_systems.Game.Framing.{Framed, step-Framed}
use ece391_computer_systems.Game.Tracking.{Tracked, step-Tracked}
use ece391_computer_systems.Game.Starting.{start_level}
use ece391_computer_systems.Game.Started.{Started, start_level-Started, start_level_returns}
use ece391_computer_systems.Game.Seeing.{Playing, unveil_around_player-Shows}

abbrev maze : Maze
maze = record {
  maze = λ i. if i == 58 then 2 else 0;
  maze_x_dim = 14;
  maze_y_dim = 8;
  n_fruits = 1;
  exit_x = 3;
  exit_y = 3;
}

abbrev start_view : View
start_view = record {
  mem = λ a. 0;
  build = 2097152;
  img3 = 2107152;
  show_x = 0;
  show_y = 0;
  target_img = 1440;
  video = λ p a. 0;
  ports = [];
}

abbrev blocks : ℕ → ℕ → ℕ
blocks n k = n

abbrev junk : Mem
junk a = 7

start_view-IsView : IsView start_view
start_view-IsView = record {
  holds = record { low = omega arith; high = omega arith };
  above = omega arith;
}

draw_level-Shows_example :
    Shows blocks (draw_level blocks junk maze start_view) maze
    × ((draw_level blocks junk maze start_view).show_x ≡ 6)
    × ((draw_level blocks junk maze start_view).show_y ≡ 6)
    × IsView (draw_level blocks junk maze start_view)
draw_level-Shows_example = draw_level-Shows blocks junk maze start_view start_view-IsView

-- A view that shows the maze: what the theorem says of any level.
level_view : View
level_view = draw_level blocks junk maze start_view

level_view_lem :
    Shows blocks level_view maze
    × (level_view.show_x ≡ 6)
    × (level_view.show_y ≡ 6)
    × IsView level_view
unfolding level_view
level_view_lem = draw_level-Shows blocks junk maze start_view start_view-IsView

abbrev scene : Scene
scene = record { view = level_view; maze = maze }

abbrev game : Game
game = record {
  scene = scene;
  info_x_dim = 14;
  info_y_dim = 8;
  map_x = 6;
  map_y = 6;
  play_x = 12;
  play_y = 12;
  last_dir = dir_up;
  dir = dir_right;
  next_dir = dir_right;
  move_cnt = 12;
  current_fnum = 0;
}

game-Framed : Framed blocks game
game-Framed =
    let l = level_view_lem in
    record {
      good = l.3;
      at_x = l.1;
      at_y = l.2;
      left = omega arith;
      right = omega arith;
      top = omega arith;
      bottom = omega arith;
      wide = omega arith;
      high = omega arith;
      shown = l.0;
    }

game-Tracked : Tracked game
game-Tracked = record {
  axis_x = record {
    start = inl refl;
    end = inr (omega arith);
    first = omega arith;
    last = omega arith;
  };
  axis_y = record {
    start = inl refl;
    end = inr (omega arith);
    first = omega arith;
    last = omega arith;
  };
}

no_exit : ExitNoted maze
no_exit a b h e = ground arith

game-Playing : Playing game
game-Playing = record {
  same = refl;
  wide = omega arith;
  between = omega arith;
  counted = λ x y h. omega arith;
  small = omega arith;
  noted = no_exit;
}

step-Framed_example : Framed blocks (step blocks junk game)
step-Framed_example = step-Framed blocks junk game game-Framed

step-Tracked_example : Tracked (step blocks junk game)
step-Tracked_example = step-Tracked blocks junk game (omega arith) (omega arith) game-Tracked

unveil_around_player-Shows_example :
    Shows blocks
      (unveil_around_player blocks scene 12 12).0.view
      (unveil_around_player blocks scene 12 12).0.maze
unveil_around_player-Shows_example =
    unveil_around_player-Shows blocks game game-Framed game-Tracked game-Playing

-- The fruit at (2, 1) is the last one.
inside : Inside level_view maze 2
inside =
    let l = level_view_lem in
    record { right = omega (arith, l.1); at_left = λ e. omega arith; at_right = λ e. omega arith }

check_for_fruit-Shows_example :
    Shows blocks (check_for_fruit blocks scene 2 1).0.view (check_for_fruit blocks scene 2 1).0.maze
check_for_fruit-Shows_example =
    check_for_fruit-Shows blocks scene 2 1 (omega arith) inside (λ h. omega arith) (omega arith)
      no_exit level_view_lem.0

-- The start of the first level.
started :
    (random : List ℕ) × (g' : Game) × (start_level blocks junk 0 game random
      ≡ some (g', [], success))
started = start_level_returns blocks junk 0 game (omega arith)

start_level-Started_example : (success ≡ success) × Started blocks 0 started.1
start_level-Started_example =
    start_level-Started blocks junk 0 game started.0 started.1 [] success (omega arith)
      level_view_lem.3 started.2
