-- ===== src/Maze/Sowing.antt =====
-- The fruits of a new maze.
use ece391_computer_systems.Base.{
  ℕ, zero, suc, ◌+◌, ◌*◌, ◌≤◌, ◌<◌, ◌≡◌, false, List, Option, none, some, ◌>>=◌, arith, refl, ap,
  ◌∙◌, sym, subst,
}
use ece391_computer_systems.Maze.{is_exit}
use ece391_computer_systems.Maze.Squares.{Scene, has_fruit, put_a_fruit}
use ece391_computer_systems.Maze.Making.{add_fruits}
use ece391_computer_systems.Maze.Counting.{Counted}
use ece391_computer_systems.Maze.Fruits.{cells_of, put_a_fruit-Counted}
use ece391_computer_systems.Maze.Furnishing.{
  SameWalls, SameWalls-SameWalls, Plants, put_a_fruit-Plants,
}

-- The maze with its fruits: no wall and no mark changes, and the counter is right.
abbrev pub Sows : ℕ → Scene → Option (Scene × List ℕ) → Type 0
Sows k s none = ℕ
Sows k s (some r) =
    SameWalls s.maze r.0.maze
    × (r.0.maze.n_fruits ≡ s.maze.n_fruits + k)
    × ((i : ℕ) → is_exit (r.0.maze.maze i) ≡ is_exit (s.maze.maze i))
    × Counted (cells_of s.maze) r.0.maze
    × ((i : ℕ) → cells_of s.maze ≤ i → has_fruit (r.0.maze.maze i) ≡ has_fruit (s.maze.maze i))
    × (r.0.view ≡ s.view)

Sows-Sows :
    (k : ℕ) (s s' : Scene) (o : Option (Scene × List ℕ))
    → SameWalls s.maze s'.maze
    → s'.maze.n_fruits ≡ s.maze.n_fruits + 1
    → ((i : ℕ) → is_exit (s'.maze.maze i) ≡ is_exit (s.maze.maze i))
    → ((i : ℕ) → cells_of s.maze ≤ i → has_fruit (s'.maze.maze i) ≡ has_fruit (s.maze.maze i))
    → s'.view ≡ s.view
    → Sows k s' o
    → Sows (suc k) s o
Sows-Sows k s s' none w n e b v h = 0
Sows-Sows k s s' (some r) w n e b v (w', n', e', c, b', v') = (
  SameWalls-SameWalls s.maze s'.maze r.0.maze w w',
  omega (arith, n, n'),
  λ i. e' i ∙ e i,
  subst (λ d. Counted (2 * d * (2 * s.maze.maze_y_dim + 3) + 1) r.0.maze) w.x_size
      (subst (λ d. Counted (2 * s'.maze.maze_x_dim * (2 * d + 3) + 1) r.0.maze) w.y_size c),
  λ i h.
      b' i (
        subst (λ d. 2 * d * (2 * s'.maze.maze_y_dim + 3) + 1 ≤ i) (sym w.x_size)
          (subst (λ d. 2 * s.maze.maze_x_dim * (2 * d + 3) + 1 ≤ i) (sym w.y_size) h))
      ∙ b i h,
  v' ∙ v,
)

pub add_fruits-Sows :
    (blocks : ℕ → ℕ → ℕ) (k : ℕ) (s : Scene) (random : List ℕ)
    → 0 < s.maze.maze_x_dim
    → 0 < s.maze.maze_y_dim
    → cells_of s.maze < 4294967295
    → s.maze.n_fruits + k < 4294967296
    → Counted (cells_of s.maze) s.maze
    → Sows k s (add_fruits blocks k s random)
unfolding add_fruits
add_fruits-Sows blocks zero s random h l big n c = (
  record { x_size = refl; y_size = refl; walls = λ i. refl; marks = λ i. refl },
  omega arith,
  λ i. refl,
  c,
  λ i h. refl,
  refl,
)
add_fruits-Sows blocks (suc k) s random h l big n c =
    go (put_a_fruit blocks false s random) refl (put_a_fruit-Plants blocks s random h l)
      (λ s' rest. add_fruits-Sows blocks k s' rest)
  where
    go :
        (o : Option (Scene × List ℕ))
        → put_a_fruit blocks false s random ≡ o
        → Plants s o
        → ((s' : Scene) (rest : List ℕ)
            → 0 < s'.maze.maze_x_dim
            → 0 < s'.maze.maze_y_dim
            → cells_of s'.maze < 4294967295
            → s'.maze.n_fruits + k < 4294967296
            → Counted (cells_of s'.maze) s'.maze
            → Sows k s' (add_fruits blocks k s' rest))
        → Sows (suc k) s (o >>= λ added. add_fruits blocks k added.0 added.1)
    go none e p ih = 0
    go (some r) e (w, f, x, b, v) ih =
        let one : r.0.maze.n_fruits ≡ s.maze.n_fruits + 1 = omega (arith, f, n) in
        let cells : cells_of s.maze ≡ cells_of r.0.maze =
          ap (λ d. 2 * d * (2 * s.maze.maze_y_dim + 3) + 1) (sym w.x_size)
          ∙ ap (λ d. 2 * r.0.maze.maze_x_dim * (2 * d + 3) + 1) (sym w.y_size) in
        Sows-Sows k s r.0 (add_fruits blocks k r.0 r.1) w one x b v (
          ih r.0 r.1 (subst (λ d. 0 < d) (sym w.x_size) h) (subst (λ d. 0 < d) (sym w.y_size) l)
            (subst (λ d. d < 4294967295) cells big) (omega (arith, one, n))
            (subst (λ d. Counted d r.0.maze) cells
              (put_a_fruit-Counted blocks false s random r.0 r.1 h l big c e)))
