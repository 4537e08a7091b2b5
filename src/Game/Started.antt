-- ===== src/Game/Started.antt =====
-- A level starts in a state that the moves and the unveiling keep in good order.
use ece391_computer_systems.Base.{
  ℕ, zero, suc, ◌+◌, ◌-◌, ◌*◌, ◌%◌, ◌≤◌, ◌<◌, ◌≡◌, inl, inr, Bool, true, false, not, ◌==◌, List, [],
  Option, none, some, ◌>>=◌, Mem, ℤ, success, arith, refl, ap, sym, subst,
}
use native.Mathlib.Decide.{dec_lt}
use ece391_computer_systems.ModeX.Window.{IsView}
use ece391_computer_systems.Maze.{Maze, maze_index, fruit_of}
use ece391_computer_systems.Maze.Squares.{Scene, has_fruit}
use ece391_computer_systems.Maze.Counting.{Counted, count_fruits, one_if}
use ece391_computer_systems.Maze.Fruits.{cells_of}
use ece391_computer_systems.Maze.Eating.{ExitNoted}
use ece391_computer_systems.Maze.Lattice.{place, place_inj}
use ece391_computer_systems.Maze.Making.{bad_size, make_maze}
use ece391_computer_systems.Maze.ExitPlace.{HasExit}
use ece391_computer_systems.Maze.Connected.{IsMaze}
use ece391_computer_systems.Maze.Made.{Makes, IsFurnished, make_maze-Makes}
use ece391_computer_systems.Maze.Returns.{make_maze_returns}
use ece391_computer_systems.Game.{Game}
use ece391_computer_systems.Game.Level.{level_of, level_of-bounds, draw_level, draw_level-Shows}
use ece391_computer_systems.Game.Framing.{Framed}
use ece391_computer_systems.Game.Tracking.{Axis, Tracked}
use ece391_computer_systems.Game.Seeing.{Playing}
use ece391_computer_systems.Game.Starting.{
  set_level, draw_made, prepare_maze_level, start_player, after_prepare, start_level,
}

-- A square with a fruit is counted.
count_fruits-pos :
    (n i : ℕ) (cells : ℕ → ℕ) → i < n → has_fruit (cells i) ≡ true → 0 < count_fruits n cells
unfolding count_fruits
count_fruits-pos zero i cells h e = absurd (omega arith)
count_fruits-pos (suc n) i cells h e = go (n == i) refl (λ k. count_fruits-pos n i cells k e)
  where
    go :
        (b : Bool)
        → n == i ≡ b
        → (i < n → 0 < count_fruits n cells)
        → 0 < one_if (has_fruit (cells n)) + count_fruits n cells
    go true z ih = let k : n ≡ i = ground arith in ground (arith, ap (λ i. has_fruit (cells i)) k)
    go false z ih = omega (arith, ih (ground arith))

fruit_counted :
    (n : ℕ) (m : Maze) → IsFurnished n m → (i : ℕ) → 0 < fruit_of (m.maze i) → 0 < m.n_fruits
unfolding Counted
fruit_counted n m f i h = elim (dec_lt i (cells_of m)) [
  | yes k ↦
      subst (λ n. 0 < n) (sym f.counted) (count_fruits-pos (cells_of m) i m.maze k (there _ h))
  | no k ↦ absurd (clash _ (there _ h) (f.inside i (omega arith)))
]
  where
    there : (n : ℕ) → 0 < n → not (n == 0) ≡ true
    there n h = ground arith

    clash : (b : Bool) → b ≡ true → b ≡ false → ⊥
    clash b e f = ground arith

HasExit-ExitNoted : (m : Maze) → HasExit m → ExitNoted m
HasExit-ExitNoted m x a b h e =
    let d = m.maze_x_dim in
    let z = x.only (maze_index m a b) e in
    let o = odd a (b + 1) m.exit_x (m.exit_y + 1) d z x.odd in
    let p = place_inj d a (b + 1) m.exit_x (m.exit_y + 1) (inner a d h o) x.inside.0 z in
    (p.0, omega (arith, p.1))
  where
    odd : (a r c t d : ℕ) → place d a r ≡ place d c t → c % 2 ≡ 1 → a % 2 ≡ 1
    odd a r c t d e o = omega (arith, e, o)

    inner : (a d : ℕ) → a ≤ 2 * d → a % 2 ≡ 1 → a < 2 * d
    inner a d h o = omega arith

-- What a level starts with.
pub record Started (blocks : ℕ → ℕ → ℕ) (l : ℕ) (g : Game) : Type 0 where
  pub framed : Framed blocks g
  pub tracked : Tracked g
  pub playing : Playing g
  pub width : g.scene.maze.maze_x_dim ≡ (level_of l).maze_x_dim
  pub height : g.scene.maze.maze_y_dim ≡ (level_of l).maze_y_dim
  pub info_width : g.info_x_dim ≡ g.scene.maze.maze_x_dim
  pub info_height : g.info_y_dim ≡ g.scene.maze.maze_y_dim
  pub maze : IsMaze g.scene.maze
  pub furnished : IsFurnished (level_of l).initial_fruit_count g.scene.maze

start_Axis : (size dim : ℕ) → 78 ≤ size → 6 + size ≤ (2 * dim + 1) * 12 - 6 → Axis 6 12 size dim
start_Axis size dim h k = record {
  start = inl refl;
  end = inr (omega arith);
  first = omega arith;
  last = k;
}

small_fruits : (l : ℕ) → (level_of l).initial_fruit_count < 4294967296
unfolding level_of
small_fruits l = ground arith

good_level : (l : ℕ) → l < 10 → bad_size (level_of l).maze_x_dim (level_of l).maze_y_dim ≡ false
good_level l h = let b = level_of-bounds l h in ground arith

-- The drawn level with the player at (1, 1).
drawn-Started :
    (blocks : ℕ → ℕ → ℕ) (junk : Mem) (l : ℕ) (g : Game) (s : Scene)
    → l < 10
    → IsView s.view
    → s.maze.maze_x_dim ≡ (level_of l).maze_x_dim
    → s.maze.maze_y_dim ≡ (level_of l).maze_y_dim
    → IsMaze s.maze
    → IsFurnished (level_of l).initial_fruit_count s.maze
    → Started blocks l (
        start_player (record (set_level l g) {
          scene = record s { view = draw_level blocks junk s.maze s.view };
        }))
drawn-Started blocks junk l g s h i e e' z f =
    let b = level_of-bounds l h in
    let d = draw_level-Shows blocks junk s.maze s.view i in
    record {
      framed = record {
        good = d.3;
        at_x = d.1;
        at_y = d.2;
        left = omega arith;
        right = b.4;
        top = omega arith;
        bottom = b.5;
        wide = b.1;
        high = b.3;
        shown = d.0;
      };
      tracked = record {
        axis_x = start_Axis 320 (level_of l).maze_x_dim (omega arith) b.4;
        axis_y = start_Axis 182 (level_of l).maze_y_dim (omega arith) b.5;
      };
      playing = record {
        same = e;
        wide = b.0;
        between = omega (arith, b.0);
        counted = λ x y t. fruit_counted (level_of l).initial_fruit_count s.maze f _ t;
        small = subst (λ n. n < 4294967296) (sym f.fruits) (small_fruits l);
        noted = HasExit-ExitNoted s.maze f.exit;
      };
      width = e;
      height = e';
      info_width = sym e;
      info_height = sym e';
      maze = z;
      furnished = f;
    }

abbrev Starts : (ℕ → ℕ → ℕ) → ℕ → Option (Game × List ℕ × ℤ) → Type 0
Starts blocks l none = ℕ
Starts blocks l (some (g, rest, result)) = (result ≡ success) × Started blocks l g

-- For each of the ten levels, from a view in good order: when the start of the level returns, it has
-- succeeded. The window is then in good order, within the maze, shows it and follows the player; the
-- maze and game_info have the size of the level; the maze is connected, its fruits are counted, its only exit is noted,
-- and none of its squares is reached.
pub start_level-Started :
    (blocks : ℕ → ℕ → ℕ) (junk : Mem) (l : ℕ) (g : Game) (random : List ℕ) (g' : Game)
    (rest : List ℕ) (result : ℤ)
    → l < 10
    → IsView g.scene.view
    → start_level blocks junk l g random ≡ some (g', rest, result)
    → (result ≡ success) × Started blocks l g'
unfolding start_level prepare_maze_level
start_level-Started blocks junk l g random g' rest result h i e =
    let x = (level_of l).maze_x_dim in
    let y = (level_of l).maze_y_dim in
    let n = (level_of l).initial_fruit_count in
    subst (Starts blocks l) e (
      go (make_maze blocks g.scene x y n random)
        (make_maze-Makes blocks g.scene x y n random (good_level l h) (small_fruits l)))
  where
    drawn :
        (s : Scene) (rest : List ℕ) (r : ℤ)
        → r ≡ success
        → Started blocks l (
            start_player (record (set_level l g) {
              scene = record s { view = draw_level blocks junk s.maze s.view };
            }))
        → Starts blocks l (draw_made blocks junk (set_level l g) (s, rest, r) >>= after_prepare)
    drawn s rest r e w =
        subst
          (λ r.
            Starts blocks l (draw_made blocks junk (set_level l g) (s, rest, r) >>= after_prepare))
          (sym e) (refl, w)

    go :
        (o : Option (Scene × List ℕ × ℤ))
        → Makes g.scene.view
            (level_of l).maze_x_dim
            (level_of l).maze_y_dim
            (level_of l).initial_fruit_count
            o
        → Starts blocks l ((o >>= draw_made blocks junk (set_level l g)) >>= after_prepare)
    go none m = 0
    go (some (s, rest, r)) (e, dx, dy, z, f, v) =
        drawn s rest r e (drawn-Started blocks junk l g s h (subst IsView (sym v) i) dx dy z f)

many_rooms :
    (l : ℕ) → (level_of l).initial_fruit_count < (level_of l).maze_x_dim * (level_of l).maze_y_dim
unfolding level_of
many_rooms l = more _ _ _ (ground arith) (ground arith) (ground arith)
  where
    more : (n d k : ℕ) → n ≤ 6 → 14 ≤ d → 8 ≤ k → n < d * k
    more n d k h i j = grind arith

-- For each of the ten levels there are random numbers with which its start returns.
pub start_level_returns :
    (blocks : ℕ → ℕ → ℕ) (junk : Mem) (l : ℕ) (g : Game)
    → l < 10
    → (random : List ℕ) × (g' : Game) × (start_level blocks junk l g random
        ≡ some (g', [], success))
unfolding start_level prepare_maze_level
start_level_returns blocks junk l g h =
    let r =
      make_maze_returns blocks g.scene (level_of l).maze_x_dim (level_of l).maze_y_dim
        (level_of l).initial_fruit_count (good_level l h) (many_rooms l) in
    (
      r.0,
      start_player (record (set_level l g) {
        scene = record r.1 { view = draw_level blocks junk r.1.maze r.1.view };
      }),
      ap (λ o. (o >>= draw_made blocks junk (set_level l g)) >>= after_prepare) r.2,
    )
