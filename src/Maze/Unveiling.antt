-- ===== src/Maze/Unveiling.antt =====
-- Unveiling and eating keep the window showing the maze.
use ece391_computer_systems.Base.{
  ℕ, ◌+◌, ◌*◌, ◌/◌, ◌≤◌, ◌<◌, ◌≡◌, Bool-cases, true, false, ◌⊎◌, inl, inr, ◌||◌, ◌&&◌, ◌==◌, ltb,
  if◌then◌else◌, store, pos, arith, refl, ap, ◌∙◌, sym, subst,
}
use ece391_computer_systems.ModeX.{View}
use ece391_computer_systems.Maze.{
  Maze, maze_index, square, is_reached, is_exit, is_wall, with_reach, without_fruit, find_block,
}
use ece391_computer_systems.Maze.Squares.{Scene, draw_square, reach_square, unveil_space}
use ece391_computer_systems.Maze.Shown.{
  Shows, ShowsBut, draw_square-ShowsBut, find_block-same, ShowsBut-same, maze_index-inj,
  draw_square-show_x,
}

-- The squares of the columns that the window does not show.
abbrev pub Hidden : View → ℕ → ℕ → Type 0
Hidden v a b = (a < v.show_x / 12) ⊎ ((v.show_x + 319) / 12 < a)

-- Of the columns that the window shows, only `x` has the array cell of the square `x`, `y`.
abbrev pub Alone : View → Maze → ℕ → ℕ → Type 0
Alone v m x y =
    (a b : ℕ)
    → v.show_x / 12 ≤ a
    → a ≤ (v.show_x + 319) / 12
    → maze_index m a b ≡ maze_index m x y
    → (a ≡ x) × (b ≡ y)

abbrev pub AtOr : ℕ → ℕ → (ℕ → ℕ → Type 0) → ℕ → ℕ → Type 0
AtOr x y p a b = ((a ≡ x) × (b ≡ y)) ⊎ p a b

ShowsBut-Shows :
    (blocks : ℕ → ℕ → ℕ) (v : View) (m : Maze) → ShowsBut (Hidden v) blocks v m → Shows blocks v m
unfolding ShowsBut Shows
ShowsBut-Shows blocks v m f px py w = elim (f px py w) [
  | inl g ↦ absurd (shown v.show_x (px / 12) px g w.left w.right refl)
  | inr g ↦ g
]
  where
    shown :
        (sx a px : ℕ)
        → (a < sx / 12) ⊎ ((sx + 319) / 12 < a)
        → sx ≤ px
        → px < sx + 320
        → a ≡ px / 12
        → ⊥
    shown sx a px (inl g) h k e = omega arith
    shown sx a px (inr g) h k e = omega arith

pub hidden_or :
    (sx a : ℕ) → ((a < sx / 12) ⊎ ((sx + 319) / 12 < a)) ⊎ ((sx / 12 ≤ a) × (a ≤ (sx + 319) / 12))
hidden_or sx a = elim (Bool-cases (ltb a (sx / 12))) [
  | inl e ↦ inl (inl (ground arith))
  | inr e ↦ elim (Bool-cases (ltb ((sx + 319) / 12) a)) [
    | inl f ↦ inl (inr (ground arith))
    | inr f ↦ inr (ground arith, ground arith)
  ]
]

-- One square gets other bits, but keeps its wall; `o` is what may be seen of the exit.
pub others :
    (v : View) (m : Maze) (c n x y a b : ℕ)
    → Alone v m x y
    → is_wall c ≡ is_wall (square m x y)
    → (n == 0) && is_exit (square m a b) ≡ (m.n_fruits == 0) && is_exit (square m a b)
    → AtOr x y (Hidden v) a b
      ⊎ (find_block (record m { maze = store m.maze (maze_index m x y) c; n_fruits = n }) a b
          ≡ find_block m a b)
others v m c n x y a b alone wall o = elim (hidden_or v.show_x a) [
  | inl e ↦ inl (inr e)
  | inr e ↦ elim (Bool-cases (maze_index m a b == maze_index m x y)) [
    | inl f ↦ inl (inl (alone a b e.0 e.1 (index_eq (maze_index m a b) (maze_index m x y) f)))
    | inr f ↦ inr (
        find_block-same m (store m.maze (maze_index m x y) c) n a b
          (walls m.maze (maze_index m x y) c wall) (ap (λ t. if t then c else square m a b) f) o)
  ]
]
  where
    index_eq : (i j : ℕ) → i == j ≡ true → i ≡ j
    index_eq i j e = ground arith

    walls :
        (f : ℕ → ℕ) (i c : ℕ)
        → is_wall c ≡ is_wall (f i)
        → (j : ℕ) → is_wall (store f i c j) ≡ is_wall (f j)
    walls f i c w j = go (Bool-cases (j == i))
      where
        go : (j == i ≡ true) ⊎ (j == i ≡ false) → is_wall (store f i c j) ≡ is_wall (f j)
        go (inl e) =
            ap (λ t. is_wall (if t then c else f j)) e
            ∙ w
            ∙ ap (λ k. is_wall (f k)) (sym (index_eq j i e))
        go (inr e) = ap (λ t. is_wall (if t then c else f j)) e

with_reach-wall : (c : ℕ) → is_wall (with_reach c) ≡ is_wall c
with_reach-wall c = ground arith

pub without_fruit-wall : (c : ℕ) → is_wall (without_fruit c) ≡ is_wall c
without_fruit-wall c = ground arith

abbrev pub ShowsScene : (ℕ → ℕ → ℕ) → Scene → Type 0
ShowsScene blocks s = Shows blocks s.view s.maze

-- After a square has been drawn, nothing else is left to draw.
pub drawn_last :
    (blocks : ℕ → ℕ → ℕ) (s : Scene) (x y : ℕ)
    → ShowsBut (AtOr x y (Hidden s.view)) blocks s.view s.maze
    → Shows blocks (draw_square blocks s x y).view s.maze
drawn_last blocks s x y h = ShowsBut-Shows blocks (draw_square blocks s x y).view s.maze (
    draw_square-ShowsBut blocks s x y (AtOr x y (Hidden s.view))
      (Hidden (draw_square blocks s x y).view) (λ a b o. rw (draw_square-show_x blocks s x y) o) h)

reached :
    (blocks : ℕ → ℕ → ℕ) (s : Scene) (x y : ℕ)
    → Alone s.view s.maze x y
    → ShowsScene blocks s
    → Shows blocks
        (draw_square blocks (record s { maze = reach_square s.maze x y }) x y).view
        (reach_square s.maze x y)
reached blocks s x y alone shows =
    let m = s.maze in
    let c = square m x y in
    drawn_last blocks (record s { maze = reach_square m x y }) x y
      (ShowsBut-same blocks s.view m (reach_square m x y) (AtOr x y (Hidden s.view))
        (λ a b. others s.view m (with_reach c) m.n_fruits x y a b alone (with_reach-wall c) refl)
        shows)

pub unveiled :
    (blocks : ℕ → ℕ → ℕ) (s : Scene) (x y : ℕ)
    → (unveil_space blocks s (pos x) (pos y) ≡ s)
      ⊎ ((x ≤ 2 * s.maze.maze_x_dim)
          × (unveil_space blocks s (pos x) (pos y) ≡ record s {
            maze = reach_square s.maze x y;
            view = (draw_square blocks (record s { maze = reach_square s.maze x y }) x y).view;
          }))
unfolding unveil_space draw_square
unveiled blocks s x y =
    elim (Bool-cases (ltb (2 * s.maze.maze_x_dim) x || ltb (2 * s.maze.maze_y_dim) y)) [
      | inl e ↦ inl (rw e refl)
      | inr e ↦ elim (Bool-cases (is_reached (square s.maze x y))) [
        | inl f ↦ inl (rw (e, f) refl)
        | inr f ↦ inr (
          ground arith,
          ap
                (λ t.
                  if t
                  then s
                  else if is_reached (square s.maze x y)
                  then s
                  else draw_square blocks (record s { maze = reach_square s.maze x y }) x y)
                e
              ∙ ap
                  (λ t.
                    if t
                    then s
                    else draw_square blocks (record s { maze = reach_square s.maze x y }) x y)
                  f,
        )
      ]
    ]

-- The window lies in the maze, and does not show both boundaries.
pub record Inside (v : View) (m : Maze) (x : ℕ) : Type 0 where
  pub right : (v.show_x + 319) / 12 ≤ 2 * m.maze_x_dim
  pub at_left : x ≡ 0 → (v.show_x + 319) / 12 < 2 * m.maze_x_dim
  pub at_right : x ≡ 2 * m.maze_x_dim → 12 ≤ v.show_x

pub Inside-Alone :
    (v : View) (m : Maze) (x y : ℕ) → x ≤ 2 * m.maze_x_dim → Inside v m x → Alone v m x y
Inside-Alone v m x y h i a b lo hi e =
    let r = i.right in
    maze_index-inj m a b x y (omega arith) h (λ z. let l = i.at_left z in omega arith)
      (λ z. let l = i.at_right z in omega arith) e

-- Unveiling a square keeps the window showing the maze, while the window lies in the maze and does
-- not show the other boundary when the square is on the left or the right one.
pub unveil_space-Shows :
    (blocks : ℕ → ℕ → ℕ) (s : Scene) (x y : ℕ)
    → Inside s.view s.maze x
    → Shows blocks s.view s.maze
    → Shows blocks
        (unveil_space blocks s (pos x) (pos y)).view
        (unveil_space blocks s (pos x) (pos y)).maze
unveil_space-Shows blocks s x y i shows = elim (unveiled blocks s x y) [
  | inl e ↦ subst (ShowsScene blocks) (sym e) shows
  | inr e ↦
      subst (ShowsScene blocks) (sym e.1)
        (reached blocks s x y (Inside-Alone s.view s.maze x y e.0 i) shows)
]
