-- ===== src/Maze/ExitPlace.antt =====
-- The exit of a new maze.
use ece391_computer_systems.Base.{
  ℕ, zero, suc, ◌*◌, ◌%◌, ◌<◌, ◌≡◌, Bool, true, false, ◌==◌, if◌then◌else◌, List, Option, none,
  some, ◌>>=◌, store, arith, refl, ap, ◌∙◌,
}
use ece391_computer_systems.Maze.{Maze, maze_index, square, is_exit}
use ece391_computer_systems.Maze.Squares.{Scene, has_fruit, pick_square}
use ece391_computer_systems.Maze.Making.{with_exit, exit_at, put_exit}
use ece391_computer_systems.Maze.Counting.{count_fruits, one_if}
use ece391_computer_systems.Maze.Fruits.{cells_of}
use ece391_computer_systems.Maze.Digging.{Picked, pick_square-Picked}
use ece391_computer_systems.Maze.Furnishing.{SameWalls, kept, exit_at-SameWalls}

-- A single square is the exit, and it has no fruit.
pub record HasExit (m : Maze) : Type 0 where
  pub inside : (m.exit_x < 2 * m.maze_x_dim) × (m.exit_y < 2 * m.maze_y_dim)
  pub odd : m.exit_x % 2 ≡ 1
  pub exit : is_exit (square m m.exit_x m.exit_y) ≡ true
  pub bare : has_fruit (square m m.exit_x m.exit_y) ≡ false
  pub only : (i : ℕ) → is_exit (m.maze i) ≡ true → i ≡ maze_index m m.exit_x m.exit_y

count_fruits-same :
    (n : ℕ) (cells cells' : ℕ → ℕ)
    → ((i : ℕ) → has_fruit (cells' i) ≡ has_fruit (cells i))
    → count_fruits n cells' ≡ count_fruits n cells
unfolding count_fruits
count_fruits-same zero cells cells' h = refl
count_fruits-same (suc n) cells cells' h =
    omega (arith, ap one_if (h n), count_fruits-same n cells cells' h)

with_exit-exit : (c : ℕ) → is_exit (with_exit c) ≡ true
with_exit-exit c = ground arith

with_exit-fruit : (c : ℕ) → has_fruit (with_exit c) ≡ has_fruit c
with_exit-fruit c = ground arith

abbrev pub Exits : Scene → Option (Scene × List ℕ) → Type 0
Exits s none = ℕ
Exits s (some r) =
    SameWalls s.maze r.0.maze
    × (r.0.maze.n_fruits ≡ s.maze.n_fruits)
    × (count_fruits (cells_of s.maze) r.0.maze.maze ≡ count_fruits (cells_of s.maze) s.maze.maze)
    × HasExit r.0.maze
    × ((i : ℕ) → has_fruit (r.0.maze.maze i) ≡ has_fruit (s.maze.maze i))
    × (r.0.view ≡ s.view)

pub put_exit-Exits :
    (s : Scene) (random : List ℕ)
    → 0 < s.maze.maze_x_dim
    → 0 < s.maze.maze_y_dim
    → ((i : ℕ) → is_exit (s.maze.maze i) ≡ false)
    → Exits s (put_exit s random)
unfolding put_exit
put_exit-Exits s random h k none_yet =
    go (pick_square s.maze has_fruit random) (pick_square-Picked s.maze has_fruit random h k)
  where
    m : Maze
    m = s.maze

    on : (i : ℕ) → i == i ≡ true
    on i = ground arith

    at : (i j : ℕ) → j == i ≡ true → j ≡ i
    at i j e = ground arith

    clash : (b : Bool) → b ≡ true → b ≡ false → ⊥
    clash b e f = ground arith

    only_there :
        (i c j : ℕ) (b : Bool) → j == i ≡ b → is_exit (if b then c else m.maze j) ≡ true → j ≡ i
    only_there i c j true e h = at i j e
    only_there i c j false e h = absurd (clash _ h (none_yet j))

    go :
        (o : Option (ℕ × ℕ × List ℕ))
        → Picked m has_fruit o
        → Exits s (o >>= λ p. some (record s { maze = exit_at m p.0 p.1 }, p.2))
    go none f = 0
    go (some (x, y, rest)) (a, b, l, u, e, g, free) =
        let i = maze_index m x y in
        let c = with_exit (square m x y) in
        let new : store m.maze i c i ≡ c = ap (λ b. if b then c else m.maze i) (on i) in
        (
          exit_at-SameWalls m x y,
          refl,
          count_fruits-same (cells_of m) m.maze (store m.maze i c)
              (kept has_fruit m.maze i c (with_exit-fruit (square m x y))),
          record {
            inside = (omega (arith, e, l), omega (arith, g, u));
            odd = omega (arith, e);
            exit = ap is_exit new ∙ with_exit-exit (square m x y);
            bare = ap has_fruit new ∙ with_exit-fruit (square m x y) ∙ free;
            only = λ j t. only_there i c j (j == i) refl t;
          },
          kept has_fruit m.maze i c (with_exit-fruit (square m x y)),
          refl,
        )
