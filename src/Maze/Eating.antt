-- ===== src/Maze/Eating.antt =====
-- Eating a fruit keeps the window showing the maze.
use ece391_computer_systems.Base.{
  ℕ, ◌*◌, ◌≤◌, ◌<◌, ◌≡◌, Bool, Bool-cases, true, false, ◌⊎◌, inl, inr, ◌||◌, ◌&&◌, ◌==◌, leb,
  if◌then◌else◌, ℤ, pos, negsuc, arith, refl, ap, ◌∙◌, sym, subst,
}
use ece391_computer_systems.ModeX.{View, draw_full_block, draw_inked}
use ece391_computer_systems.Maze.{Maze, square, fruit_of, is_exit, without_fruit, find_block}
use ece391_computer_systems.Maze.Squares.{
  Scene, draw_square, unveil_space, eat_fruit, draw_exit, check_for_fruit, one_less,
}
use ece391_computer_systems.Maze.Shown.{Shows, draw_square-ShowsBut, ShowsBut-same}
use ece391_computer_systems.Maze.Unveiling.{
  Hidden, Alone, AtOr, hidden_or, others, without_fruit-wall, ShowsScene, drawn_last, unveiled,
  Inside, Inside-Alone,
}

redrawn : (ℕ → ℕ → ℕ) → Scene → ℕ → ℕ → Scene
redrawn blocks s x y = record s { view = (draw_square blocks s x y).view }

redrawn-draw_square :
    (blocks : ℕ → ℕ → ℕ) (s : Scene) (x y : ℕ) → draw_square blocks s x y ≡ redrawn blocks s x y
unfolding draw_square redrawn
redrawn-draw_square blocks s x y = refl

-- Whether the last fruit has just gone.
abbrev last_gone : Maze → Bool
last_gone m = one_less m.n_fruits == 0

eaten_others :
    (v : View) (m : Maze) (x y a b : ℕ)
    → Alone v m x y
    → 0 < m.n_fruits
    → m.n_fruits < 4294967296
    → (is_exit (square m a b) && last_gone m ≡ false)
    → AtOr x y (Hidden v) a b ⊎ (find_block (eat_fruit m x y) a b ≡ find_block m a b)
eaten_others v m x y a b alone p q o =
    others v m (without_fruit (square m x y)) (one_less m.n_fruits) x y a b alone
      (without_fruit-wall (square m x y)) (closed m.n_fruits (is_exit (square m a b)) p q o)
  where
    closed :
        (n : ℕ) (e : Bool)
        → 0 < n
        → n < 4294967296
        → e && (one_less n == 0) ≡ false
        → (one_less n == 0) && e ≡ (n == 0) && e
    closed n e p q o = ground arith

-- The exit, where there is one, is at the place that the maze notes.
abbrev pub ExitNoted : Maze → Type 0
ExitNoted m =
    (a b : ℕ)
    → a ≤ 2 * m.maze_x_dim
    → is_exit (square m a b) ≡ true
    → (a ≡ m.exit_x) × (b ≡ m.exit_y)

ShowsScene-draw_square :
    (blocks : ℕ → ℕ → ℕ) (s : Scene) (x y : ℕ)
    → Shows blocks (draw_square blocks s x y).view s.maze
    → ShowsScene blocks (draw_square blocks s x y)
unfolding draw_square
ShowsScene-draw_square blocks s x y h = h

abbrev choose : Bool → Bool → Scene → Scene → ℕ → Scene × ℕ
choose b c s t n = if b then (s, 0) else if c then (s, 0) else (t, n)

one_of :
    (b c : Bool) (s t : Scene) (n : ℕ)
    → ((choose b c s t n).0 ≡ s) ⊎ ((c ≡ false) × ((choose b c s t n).0 ≡ t))
one_of true c s t n = inl refl
one_of false true s t n = inl refl
one_of false false s t n = inr (refl, refl)

checked :
    (blocks : ℕ → ℕ → ℕ) (s : Scene) (x y : ℕ)
    → ((check_for_fruit blocks s x y).0 ≡ s)
      ⊎ ((fruit_of (square s.maze x y) == 0 ≡ false)
          × ((check_for_fruit blocks s x y).0
              ≡ draw_square blocks
                  (draw_exit blocks 0 (record s { maze = eat_fruit s.maze x y }))
                  x
                  y))
unfolding check_for_fruit
checked blocks s x y =
    one_of (leb (2 * s.maze.maze_x_dim) x || leb (2 * s.maze.maze_y_dim) y)
      (fruit_of (square s.maze x y) == 0) s
      (draw_square blocks (draw_exit blocks 0 (record s { maze = eat_fruit s.maze x y })) x y)
      (fruit_of (square s.maze x y))

module _ (blocks : ℕ → ℕ → ℕ) (s : Scene) (x y : ℕ) (h : x ≤ 2 * s.maze.maze_x_dim)
    (inside : Inside s.view s.maze x) (p : 0 < s.maze.n_fruits) (q : s.maze.n_fruits < 4294967296)
    (noted : ExitNoted s.maze) (shows : Shows blocks s.view s.maze) where
  alone : Alone s.view s.maze x y
  alone = Inside-Alone s.view s.maze x y h inside

  ate : Scene
  ate = record s { maze = eat_fruit s.maze x y }

  not_last :
      last_gone s.maze ≡ false
      → Shows blocks (draw_square blocks ate x y).view (eat_fruit s.maze x y)
  unfolding ate
  not_last e = drawn_last blocks ate x y (
      ShowsBut-same blocks s.view s.maze (eat_fruit s.maze x y) (AtOr x y (Hidden s.view))
        (λ a b.
          eaten_others s.view s.maze x y a b alone p q
            (no (is_exit (square s.maze a b)) (last_gone s.maze) e))
        shows)
    where
      no : (e g : Bool) → g ≡ false → e && g ≡ false
      no e g f = ground arith

  last_others :
      (a b : ℕ)
      → AtOr s.maze.exit_x s.maze.exit_y (AtOr x y (Hidden s.view)) a b
        ⊎ (find_block (eat_fruit s.maze x y) a b ≡ find_block s.maze a b)
  last_others a b = elim (hidden_or s.view.show_x a) [
    | inl e ↦ inl (inr (inr e))
    | inr e ↦ elim (Bool-cases (is_exit (square s.maze a b))) [
      | inl f ↦ inl (inl (noted a b (omega (arith, e.1, inside.right)) f))
      | inr f ↦
          elim (eaten_others s.view s.maze x y a b alone p q (ap (λ t. t && last_gone s.maze) f)) [
            | inl g ↦ inl (inr g)
            | inr g ↦ inr g
          ]
    ]
  ]

  at_last :
      Shows blocks
        (draw_square blocks (redrawn blocks ate s.maze.exit_x s.maze.exit_y) x y).view
        (eat_fruit s.maze x y)
  unfolding ate redrawn draw_square draw_full_block draw_inked
  at_last = drawn_last blocks (redrawn blocks ate s.maze.exit_x s.maze.exit_y) x y (
      draw_square-ShowsBut blocks ate s.maze.exit_x s.maze.exit_y
        (AtOr s.maze.exit_x s.maze.exit_y (AtOr x y (Hidden s.view))) (AtOr x y (Hidden s.view))
        (λ a b o. o)
        (ShowsBut-same blocks s.view s.maze (eat_fruit s.maze x y)
          (AtOr s.maze.exit_x s.maze.exit_y (AtOr x y (Hidden s.view))) last_others shows))

  ate_shows : ShowsScene blocks (draw_square blocks (draw_exit blocks 0 ate) x y)
  unfolding ate redrawn
  ate_shows = elim (Bool-cases (last_gone s.maze)) [
    | inl e ↦
        subst (λ t. ShowsScene blocks (draw_square blocks t x y))
          (sym (
            ap (λ b. if b then draw_square blocks ate s.maze.exit_x s.maze.exit_y else ate) e
            ∙ redrawn-draw_square blocks ate s.maze.exit_x s.maze.exit_y))
          (ShowsScene-draw_square blocks (redrawn blocks ate s.maze.exit_x s.maze.exit_y) x y
            at_last)
    | inr e ↦
        subst (λ t. ShowsScene blocks (draw_square blocks t x y))
          (sym (ap (λ b. if b then draw_square blocks ate s.maze.exit_x s.maze.exit_y else ate) e))
          (ShowsScene-draw_square blocks ate x y (not_last e))
  ]

-- `check_for_fruit` keeps the window showing the maze, the exit included when the last fruit goes,
-- while a fruit on the square is counted, the maze notes where its exit is, the window lies in the
-- maze, and it does not show the other boundary when the square is on the left or the right one.
pub check_for_fruit-Shows :
    (blocks : ℕ → ℕ → ℕ) (s : Scene) (x y : ℕ)
    → x ≤ 2 * s.maze.maze_x_dim
    → Inside s.view s.maze x
    → (0 < fruit_of (square s.maze x y) → 0 < s.maze.n_fruits)
    → s.maze.n_fruits < 4294967296
    → ExitNoted s.maze
    → Shows blocks s.view s.maze
    → Shows blocks (check_for_fruit blocks s x y).0.view (check_for_fruit blocks s x y).0.maze
unfolding ate
check_for_fruit-Shows blocks s x y h inside p q noted shows = elim (checked blocks s x y) [
  | inl e ↦ subst (ShowsScene blocks) (sym e) shows
  | inr e ↦ subst (ShowsScene blocks) (sym e.1) (
      ate_shows blocks s x y h inside (p (positive (fruit_of (square s.maze x y)) e.0)) q noted
        shows)
]
  where
    positive : (n : ℕ) → n == 0 ≡ false → 0 < n
    positive n e = ground arith

-- Neither changes where the window is, or how wide the maze is.
abbrev pub SameFrame : Scene → Scene → Type 0
SameFrame s t = (t.view.show_x ≡ s.view.show_x) × (t.maze.maze_x_dim ≡ s.maze.maze_x_dim)

SameFrame-draw_square :
    (blocks : ℕ → ℕ → ℕ) (s : Scene) (x y : ℕ) → SameFrame s (draw_square blocks s x y)
unfolding draw_square draw_full_block draw_inked
SameFrame-draw_square blocks s x y = (refl, refl)

pub unveil_space-SameFrame :
    (blocks : ℕ → ℕ → ℕ) (s : Scene) (x y : ℤ) → SameFrame s (unveil_space blocks s x y)
unfolding unveil_space draw_square draw_full_block draw_inked
unveil_space-SameFrame blocks s (negsuc n) y = (refl, refl)
unveil_space-SameFrame blocks s (pos x) (negsuc n) = (refl, refl)
unveil_space-SameFrame blocks s (pos x) (pos y) = elim (unveiled blocks s x y) [
  | inl e ↦ subst (SameFrame s) (sym e) (refl, refl)
  | inr e ↦ subst (SameFrame s) (sym e.1) (refl, refl)
]

pub check_for_fruit-SameFrame :
    (blocks : ℕ → ℕ → ℕ) (s : Scene) (x y : ℕ) → SameFrame s (check_for_fruit blocks s x y).0
unfolding draw_square draw_full_block draw_inked
check_for_fruit-SameFrame blocks s x y = elim (checked blocks s x y) [
  | inl e ↦ subst (SameFrame s) (sym e) (refl, refl)
  | inr e ↦ subst (SameFrame s) (sym e.1) (go (one_less s.maze.n_fruits == 0))
]
  where
    go :
        (b : Bool)
        → SameFrame s (
            draw_square blocks
              (if b
                then draw_square blocks
                    (record s { maze = eat_fruit s.maze x y })
                    s.maze.exit_x
                    s.maze.exit_y
                else record s { maze = eat_fruit s.maze x y })
              x
              y)
    go true = (refl, refl)
    go false = (refl, refl)
