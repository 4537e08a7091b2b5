-- ===== src/Maze/Digging.antt =====
-- The worms: they dig along the lattice, and `remaining` is the number of the rooms that are walls.
use ece391_computer_systems.Base.{
  ℕ, ◌+◌, ◌-◌, ◌*◌, ◌%◌, ◌≤◌, ◌<◌, ◌≡◌, ◌≢◌, ◌⊎◌, inl, inr, Bool, true, false, ◌==◌, if◌then◌else◌,
  List, [], ◌∷◌, Option, none, some, store, arith, refl, ◌∙◌, sym, subst,
}
use ece391_computer_systems.Maze.{Maze, square, is_wall}
use ece391_computer_systems.Maze.Counting.{one_if}
use ece391_computer_systems.Maze.Squares.{pick_square}
use ece391_computer_systems.Maze.Crawler.{Worm, is_full}
use ece391_computer_systems.Maze.Lattice.{place, place_inj, solid, Lattice, store-Lattice, room}
use ece391_computer_systems.Maze.Rooms.{count_rooms, count_rooms-change, count_rooms-other}

-- The maze while it is dug.
pub record Dug (m : Maze) (remaining : ℕ) : Type 0 where
  pub lattice : Lattice m.maze_x_dim m.maze_y_dim m.maze
  pub binary : (i : ℕ) → m.maze i ≤ 1
  pub counted : remaining ≡ count_rooms is_wall m.maze_x_dim m.maze_y_dim m.maze

-- A worm in a room.
pub record InRoom (w : Worm) : Type 0 where
  pub a : ℕ
  pub b : ℕ
  pub column : a < w.maze.maze_x_dim
  pub row : b < w.maze.maze_y_dim
  pub at_x : w.x ≡ 2 * a + 1
  pub at_y : w.y ≡ 2 * b + 1
  pub dir : w.pref_dir < 4

pub room-not_solid :
    (d y_dim a b : ℕ) → a < d → b < y_dim → solid y_dim (2 * a + 1) (2 * b + 2) ≡ false
room-not_solid d y_dim a b h k = ground arith

-- A square between two rooms is no room.
pub between_rooms :
    (d x r : ℕ)
    → x < 2 * d
    → (x % 2 ≡ 0) ⊎ (r % 2 ≡ 1)
    → (a b : ℕ) → a < d
    → room d a b ≢ place d x r
between_rooms d x r h o a b k e =
    let p = place_inj d (2 * a + 1) (2 * b + 2) x r (omega arith) h e in odd x r a b p.0 p.1 o
  where
    odd : (x r a b : ℕ) → 2 * a + 1 ≡ x → 2 * b + 2 ≡ r → (x % 2 ≡ 0) ⊎ (r % 2 ≡ 1) → ⊥
    odd x r a b e f (inl g) = omega arith
    odd x r a b e f (inr g) = omega arith

store-binary : (cells : ℕ → ℕ) (i : ℕ) → ((j : ℕ) → cells j ≤ 1) → (j : ℕ) → store cells i 0 j ≤ 1
store-binary cells i h j = go (j == i)
  where
    go : (b : Bool) → (if b then 0 else cells j) ≤ 1
    go true = omega arith
    go false = h j

abbrev pub opened : Maze → ℕ → Maze
opened m i = record m { maze = store m.maze i 0 }

open_between :
    (m : Maze) (remaining x r : ℕ)
    → x < 2 * m.maze_x_dim
    → (x % 2 ≡ 0) ⊎ (r % 2 ≡ 1)
    → solid m.maze_y_dim x r ≡ false
    → Dug m remaining
    → Dug (opened m (place m.maze_x_dim x r)) remaining
open_between m remaining x r h o k d = record {
  lattice = store-Lattice m.maze_x_dim m.maze_y_dim x r 0 m.maze h k d.lattice;
  binary = store-binary m.maze (place m.maze_x_dim x r) d.binary;
  counted =
      d.counted
      ∙ sym (
          count_rooms-other is_wall m.maze_x_dim m.maze_y_dim (place m.maze_x_dim x r) 0 m.maze
            (λ a b l u. between_rooms m.maze_x_dim x r h o a b l));
}

-- Opening a room takes one off if it was a wall.
pub open_room :
    (m : Maze) (remaining a b : ℕ)
    → a < m.maze_x_dim
    → b < m.maze_y_dim
    → Dug m remaining
    → Dug
        (opened m (room m.maze_x_dim a b))
        (if is_full (m.maze (room m.maze_x_dim a b)) then remaining - 1 else remaining)
open_room m remaining a b h k d = record {
  lattice =
      store-Lattice m.maze_x_dim m.maze_y_dim (2 * a + 1) (2 * b + 2) 0 m.maze (omega arith)
        (room-not_solid m.maze_x_dim m.maze_y_dim a b h k) d.lattice;
  binary = store-binary m.maze (room m.maze_x_dim a b) d.binary;
  counted =
      less remaining _ _ (m.maze (room m.maze_x_dim a b)) (d.binary (room m.maze_x_dim a b))
        d.counted (count_rooms-change is_wall m.maze_x_dim m.maze_y_dim a b 0 m.maze h k);
}
  where
    less :
        (n u v c : ℕ)
        → c ≤ 1
        → n ≡ u
        → v + one_if (is_wall c) ≡ u + 0
        → (if is_full c then n - 1 else n) ≡ v
    less n u v c h e f = ground arith

pub move_to :
    (m : Maze) (remaining x r a b i j : ℕ)
    → i ≡ place m.maze_x_dim x r
    → x < 2 * m.maze_x_dim
    → (x % 2 ≡ 0) ⊎ (r % 2 ≡ 1)
    → solid m.maze_y_dim x r ≡ false
    → j ≡ room m.maze_x_dim a b
    → a < m.maze_x_dim
    → b < m.maze_y_dim
    → Dug m remaining
    → Dug
        (opened (opened m i) j)
        (if is_full (store m.maze i 0 j) then remaining - 1 else remaining)
move_to m remaining x r a b i j e h o k f l u d =
    subst
      (λ j.
        Dug (opened (opened m i) j)
          (if is_full (store m.maze i 0 j) then remaining - 1 else remaining))
      (sym f)
      (open_room (opened m i) remaining a b l u
        (subst (λ i. Dug (opened m i) remaining) (sym e) (open_between m remaining x r h o k d)))

-- A picked square is a room, and it is free.
abbrev pub Picked : Maze → (ℕ → Bool) → Option (ℕ × ℕ × List ℕ) → Type 0
Picked m taken none = ℕ
Picked m taken (some p) =
    (a b : ℕ) × (a < m.maze_x_dim)
    × (b < m.maze_y_dim)
    × (p.0 ≡ 2 * a + 1)
    × (p.1 ≡ 2 * b + 1)
    × (taken (square m p.0 p.1) ≡ false)

pub pick_square-Picked :
    (m : Maze) (taken : ℕ → Bool) (random : List ℕ)
    → 0 < m.maze_x_dim
    → 0 < m.maze_y_dim
    → Picked m taken (pick_square m taken random)
unfolding pick_square
pick_square-Picked m taken [] h k = 0
pick_square-Picked m taken (r ∷ []) h k = 0
pick_square-Picked m taken (r ∷ t ∷ rest) h k =
    go (taken (square m (r % m.maze_x_dim * 2 + 1) (t % m.maze_y_dim * 2 + 1)))
      (pick_square-Picked m taken rest h k) refl
  where
    mod_lt : (r d : ℕ) → 0 < d → r % d < d
    mod_lt r d h = ground arith

    go :
        (b : Bool)
        → Picked m taken (pick_square m taken rest)
        → taken (square m (r % m.maze_x_dim * 2 + 1) (t % m.maze_y_dim * 2 + 1)) ≡ b
        → Picked m taken (
            if b
            then pick_square m taken rest
            else some (r % m.maze_x_dim * 2 + 1, t % m.maze_y_dim * 2 + 1, rest))
    go true f e = f
    go false f e = (
      r % m.maze_x_dim,
      t % m.maze_y_dim,
      mod_lt r m.maze_x_dim h,
      mod_lt t m.maze_y_dim k,
      omega arith,
      omega arith,
      e,
    )
