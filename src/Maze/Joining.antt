-- ===== src/Maze/Joining.antt =====
-- The second phase: what is reached is connected to (1, 1), and `remaining` is what is not reached.
use ece391_computer_systems.Base.{
  ℕ, ◌+◌, ◌*◌, ◌%◌, ◌≤◌, ◌<◌, ◌≡◌, ◌≢◌, Bool, true, false, ◌==◌, if◌then◌else◌, store, arith, refl,
  ap,
}
use ece391_computer_systems.Maze.{Maze, maze_index, is_wall, is_reached}
use ece391_computer_systems.Maze.Ways.{Way, stop, go_up, go_right, go_down, go_left}
use ece391_computer_systems.Maze.Lattice.{Lattice, room, IsRoom}
use ece391_computer_systems.Maze.Rooms.{count_rooms}
use ece391_computer_systems.Maze.Crawling.{place_eq}
use ece391_computer_systems.Maze.Finding.{is_hidden}

-- A way in a maze with at least as many open squares, and two ways one behind the other.
pub Way-open :
    {d a : ℕ} {cells : ℕ → ℕ} {c : ℕ} (cells' : ℕ → ℕ)
    → ((i : ℕ) → is_wall (cells i) ≡ false → is_wall (cells' i) ≡ false)
    → Way d cells a c
    → Way d cells' a c
Way-open cells' h stop = stop
Way-open cells' h (go_up way o) = go_up (Way-open cells' h way) (h _ o)
Way-open cells' h (go_right way o) = go_right (Way-open cells' h way) (h _ o)
Way-open cells' h (go_down way o) = go_down (Way-open cells' h way) (h _ o)
Way-open cells' h (go_left way o) = go_left (Way-open cells' h way) (h _ o)

pub Way-Way :
    {d a b : ℕ} {cells : ℕ → ℕ} {c : ℕ} → Way d cells a b → Way d cells b c → Way d cells a c
Way-Way way stop = way
Way-Way way (go_up more o) = go_up (Way-Way way more) o
Way-Way way (go_right more o) = go_right (Way-Way way more) o
Way-Way way (go_down more o) = go_down (Way-Way way more) o
Way-Way way (go_left more o) = go_left (Way-Way way more) o

pub record Parts (m : Maze) (remaining : ℕ) : Type 0 where
  pub lattice : Lattice m.maze_x_dim m.maze_y_dim m.maze
  pub open_rooms :
      (a b : ℕ)
      → a < m.maze_x_dim
      → b < m.maze_y_dim
      → is_wall (m.maze (room m.maze_x_dim a b)) ≡ false
  pub plain : (i : ℕ) → m.maze i % 128 ≤ 1
  pub sound :
      (i : ℕ) → is_reached (m.maze i) ≡ true → Way m.maze_x_dim m.maze (room m.maze_x_dim 0 0) i
  pub counted : remaining ≡ count_rooms is_hidden m.maze_x_dim m.maze_y_dim m.maze
  pub rooted : is_reached (m.maze (room m.maze_x_dim 0 0)) ≡ true

-- A room by its coordinates.
pub record Spot (m : Maze) (x y : ℕ) : Type 0 where
  pub a : ℕ
  pub b : ℕ
  pub column : a < m.maze_x_dim
  pub row : b < m.maze_y_dim
  pub at_x : x ≡ 2 * a + 1
  pub at_y : y ≡ 2 * b + 1

pub spot_index :
    (m : Maze) (x y a b : ℕ)
    → x ≡ 2 * a + 1
    → y ≡ 2 * b + 1
    → maze_index m x y ≡ room m.maze_x_dim a b
spot_index m x y a b e f = place_eq m.maze_x_dim e (omega (arith, f))

pub Spot-IsRoom :
    (m : Maze) (x y : ℕ) → Spot m x y → IsRoom m.maze_x_dim m.maze_y_dim (maze_index m x y)
Spot-IsRoom m x y s = record {
  a = s.a;
  b = s.b;
  column = s.column;
  row = s.row;
  index = spot_index m x y s.a s.b s.at_x s.at_y;
}

pub store_open :
    (cells : ℕ → ℕ) (i j : ℕ) → is_wall (cells j) ≡ false → is_wall (store cells i 0 j) ≡ false
store_open cells i j h = go (j == i)
  where
    go : (b : Bool) → is_wall (if b then 0 else cells j) ≡ false
    go true = refl
    go false = h

pub store_plain : (cells : ℕ → ℕ) (i j : ℕ) → cells j % 128 ≤ 1 → store cells i 0 j % 128 ≤ 1
store_plain cells i j h = go (j == i)
  where
    go : (b : Bool) → (if b then 0 else cells j) % 128 ≤ 1
    go true = omega arith
    go false = h

pub store_same : (cells : ℕ → ℕ) (i : ℕ) → is_wall (store cells i 0 i) ≡ false
store_same cells i = ap (λ b. is_wall (if b then 0 else cells i)) (on i)
  where
    on : (i : ℕ) → i == i ≡ true
    on i = ground arith

pub store_reached :
    (cells : ℕ → ℕ) (i j : ℕ) → is_reached (store cells i 0 j) ≡ true → is_reached (cells j) ≡ true
store_reached cells i j = go (j == i)
  where
    go : (b : Bool) → is_reached (if b then 0 else cells j) ≡ true → is_reached (cells j) ≡ true
    go true h = absurd (ground arith)
    go false h = h

pub store_other : (cells : ℕ → ℕ) (i j : ℕ) → j ≢ i → store cells i 0 j ≡ cells j
store_other cells i j ne = ap (λ b. if b then 0 else cells j) (off j i ne)
  where
    off : (i j : ℕ) → i ≢ j → i == j ≡ false
    off i j ne = ground arith
