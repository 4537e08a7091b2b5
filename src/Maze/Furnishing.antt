-- ===== src/Maze/Furnishing.antt =====
-- The fruits and the exit of a new maze.
use ece391_computer_systems.Base.{
  ℕ, ◌+◌, ◌*◌, ◌%◌, ◌≤◌, ◌<◌, ◌≡◌, Bool, true, false, ◌==◌, if◌then◌else◌, List, [], ◌∷◌, Option,
  none, some, ◌>>=◌, store, arith, refl, ap, ◌∙◌, sym, subst,
}
use ece391_computer_systems.Maze.{Maze, maze_index, square, is_wall, is_reached, is_exit}
use ece391_computer_systems.Maze.Squares.{
  Scene, has_fruit, pick_square, plant, planted, put_a_fruit, one_more,
}
use ece391_computer_systems.Maze.Making.{with_exit, exit_at}
use ece391_computer_systems.Maze.Fruits.{cells_of}
use ece391_computer_systems.Maze.Digging.{Picked, pick_square-Picked}
use ece391_computer_systems.Maze.Crawling.{place_eq}
use ece391_computer_systems.Maze.Marked.{room-lt}

-- The dimensions, the walls and the marks stay.
pub record SameWalls (m m' : Maze) : Type 0 where
  pub x_size : m'.maze_x_dim ≡ m.maze_x_dim
  pub y_size : m'.maze_y_dim ≡ m.maze_y_dim
  pub walls : (i : ℕ) → is_wall (m'.maze i) ≡ is_wall (m.maze i)
  pub marks : (i : ℕ) → is_reached (m'.maze i) ≡ is_reached (m.maze i)

pub SameWalls-SameWalls : (m m' m'' : Maze) → SameWalls m m' → SameWalls m' m'' → SameWalls m m''
SameWalls-SameWalls m m' m'' a b = record {
  x_size = b.x_size ∙ a.x_size;
  y_size = b.y_size ∙ a.y_size;
  walls = λ i. b.walls i ∙ a.walls i;
  marks = λ i. b.marks i ∙ a.marks i;
}

-- A property of the square at an index, when it is replaced by one with the same property.
pub kept :
    (p : ℕ → Bool) (cells : ℕ → ℕ) (i c : ℕ)
    → p c ≡ p (cells i)
    → (j : ℕ) → p (store cells i c j) ≡ p (cells j)
kept p cells i c e j = go (j == i) refl
  where
    at : (i j : ℕ) → j == i ≡ true → i ≡ j
    at i j e = ground arith

    go : (b : Bool) → j == i ≡ b → p (if b then c else cells j) ≡ p (cells j)
    go true z = e ∙ ap (λ k. p (cells k)) (at i j z)
    go false z = refl

plant-SameWalls :
    (m : Maze) (x y r : ℕ) → has_fruit (square m x y) ≡ false → SameWalls m (plant m x y r)
plant-SameWalls m x y r h = record {
  x_size = refl;
  y_size = refl;
  walls = kept is_wall m.maze (maze_index m x y) _ (wall (square m x y) r);
  marks = kept is_reached m.maze (maze_index m x y) _ (mark (square m x y) r h);
}
  where
    wall : (c r : ℕ) → is_wall (c + (r % 7 + 1) * 2) ≡ is_wall c
    wall c r = ground arith

    mark : (c r : ℕ) → has_fruit c ≡ false → is_reached (c + (r % 7 + 1) * 2) ≡ is_reached c
    mark c r h = ground arith

pub exit_at-SameWalls : (m : Maze) (x y : ℕ) → SameWalls m (exit_at m x y)
exit_at-SameWalls m x y = record {
  x_size = refl;
  y_size = refl;
  walls = kept is_wall m.maze (maze_index m x y) _ (wall (square m x y));
  marks = kept is_reached m.maze (maze_index m x y) _ (mark (square m x y));
}
  where
    wall : (c : ℕ) → is_wall (with_exit c) ≡ is_wall c
    wall c = ground arith

    mark : (c : ℕ) → is_reached (with_exit c) ≡ is_reached c
    mark c = ground arith

-- What `_add_a_fruit` without drawing does to the maze.
abbrev pub Plants : Scene → Option (Scene × List ℕ) → Type 0
Plants s none = ℕ
Plants s (some r) =
    SameWalls s.maze r.0.maze
    × (r.0.maze.n_fruits ≡ one_more s.maze.n_fruits)
    × ((i : ℕ) → is_exit (r.0.maze.maze i) ≡ is_exit (s.maze.maze i))
    × ((i : ℕ) → cells_of s.maze ≤ i → has_fruit (r.0.maze.maze i) ≡ has_fruit (s.maze.maze i))
    × (r.0.view ≡ s.view)

pub put_a_fruit-Plants :
    (blocks : ℕ → ℕ → ℕ) (s : Scene) (random : List ℕ)
    → 0 < s.maze.maze_x_dim
    → 0 < s.maze.maze_y_dim
    → Plants s (put_a_fruit blocks false s random)
unfolding put_a_fruit
put_a_fruit-Plants blocks s random h k =
    go (pick_square s.maze has_fruit random) (pick_square-Picked s.maze has_fruit random h k)
  where
    behind : (i j n : ℕ) → j < n → n ≤ i → i == j ≡ false
    behind i j n h k = ground arith

    exit_kept : (c r : ℕ) → has_fruit c ≡ false → is_exit (c + (r % 7 + 1) * 2) ≡ is_exit c
    exit_kept c r h = ground arith

    go :
        (o : Option (ℕ × ℕ × List ℕ))
        → Picked s.maze has_fruit o
        → Plants s (o >>= λ p. planted blocks false s p.0 p.1 p.2)
    go none f = 0
    go (some (x, y, [])) f = 0
    go (some (x, y, (r ∷ rest))) (a, b, l, u, e, g, free) = (
      plant-SameWalls s.maze x y r free,
      refl,
      kept is_exit s.maze.maze (maze_index s.maze x y) _ (exit_kept (square s.maze x y) r free),
      λ i far.
          ap (λ t. has_fruit (if t then square s.maze x y + (r % 7 + 1) * 2 else s.maze.maze i))
            (behind i (maze_index s.maze x y) (cells_of s.maze)
              (subst (λ j. j < cells_of s.maze)
                (sym (place_eq s.maze.maze_x_dim e (omega (arith, g))))
                (room-lt s.maze.maze_x_dim s.maze.maze_y_dim a b l u))
              far),
      refl,
    )
