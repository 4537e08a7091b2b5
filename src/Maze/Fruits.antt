-- ===== src/Maze/Fruits.antt =====
-- n_fruits over check_for_fruit and _add_a_fruit.
use ece391_computer_systems.Base.{
  ℕ, ◌+◌, ◌-◌, ◌*◌, ◌%◌, ◌<◌, ◌≡◌, ◌⊎◌, inl, inr, Bool, true, false, ◌||◌, not, ◌==◌, leb,
  if◌then◌else◌, List, [], ◌∷◌, Option, none, some, ◌>>=◌, arith, refl, ap, sym, subst,
}
use ece391_computer_systems.Maze.{Maze, maze_index, square, fruit_of}
use ece391_computer_systems.Maze.Squares.{
  Scene, has_fruit, eat_fruit, draw_exit, draw_square, check_for_fruit, plant, planted, put_a_fruit,
  pick_square, one_less,
}
use ece391_computer_systems.Maze.Counting.{Counted, eat_fruit-Counted, plant-Counted}

-- The squares of the array that a maze uses.
abbrev pub cells_of : Maze → ℕ
cells_of m = 2 * m.maze_x_dim * (2 * m.maze_y_dim + 3) + 1

maze_index-lt :
    (m : Maze) (x y : ℕ)
    → x < 2 * m.maze_x_dim
    → y < 2 * m.maze_y_dim
    → maze_index m x y < cells_of m
maze_index-lt m x y h k =
    let e : 2 * m.maze_y_dim ≡ y + 1 + (2 * m.maze_y_dim - (y + 1)) = omega arith in
    below m.maze_x_dim (2 * m.maze_y_dim) x y (2 * m.maze_y_dim - (y + 1)) e h
  where
    below : (d w x y k : ℕ) → w ≡ y + 1 + k → x < 2 * d → x + (y + 1) * d * 2 < 2 * d * (w + 3) + 1
    below d w x y k e h = ground (arith, ap (λ n. 2 * d * (n + 3)) e)

-- What becomes of the maze.
checked_maze :
    (blocks : ℕ → ℕ → ℕ) (s : Scene) (x y : ℕ)
    → let r = check_for_fruit blocks s x y in
      ((r.0.maze ≡ s.maze) × (r.1 ≡ 0))
      ⊎ ((x < 2 * s.maze.maze_x_dim)
          × (y < 2 * s.maze.maze_y_dim)
          × (has_fruit (square s.maze x y) ≡ true)
          × (r.0.maze ≡ eat_fruit s.maze x y)
          × (r.1 ≡ fruit_of (square s.maze x y)))
unfolding check_for_fruit draw_square
checked_maze blocks s x y =
    let eaten = draw_exit blocks 0 (record s { maze = eat_fruit s.maze x y }) in
    go (leb (2 * s.maze.maze_x_dim) x || leb (2 * s.maze.maze_y_dim) y)
      (fruit_of (square s.maze x y) == 0) refl refl
  where
    go :
        (b c : Bool)
        → leb (2 * s.maze.maze_x_dim) x || leb (2 * s.maze.maze_y_dim) y ≡ b
        → fruit_of (square s.maze x y) == 0 ≡ c
        → let r : Scene × ℕ = if b then (s, 0) else if c then (s, 0) else (
          draw_square blocks (draw_exit blocks 0 (record s { maze = eat_fruit s.maze x y })) x y,
          fruit_of (square s.maze x y),
        ) in
          ((r.0.maze ≡ s.maze) × (r.1 ≡ 0))
          ⊎ ((x < 2 * s.maze.maze_x_dim)
              × (y < 2 * s.maze.maze_y_dim)
              × (has_fruit (square s.maze x y) ≡ true)
              × (r.0.maze ≡ eat_fruit s.maze x y)
              × (r.1 ≡ fruit_of (square s.maze x y)))
    go true c e f = inl (refl, refl)
    go false true e f = inl (refl, refl)
    go false false e f =
        inr (ground arith, ground arith, ap not f, exit_maze (one_less s.maze.n_fruits == 0), refl)
      where
        exit_maze :
            (b : Bool)
            → (if b
                then draw_square blocks
                    (record s { maze = eat_fruit s.maze x y })
                    s.maze.exit_x
                    s.maze.exit_y
                else record s { maze = eat_fruit s.maze x y }).maze
              ≡ eat_fruit s.maze x y
        exit_maze true = refl
        exit_maze false = refl

-- While n_fruits is the number of the squares with a fruit, of an array that is not huge, it still
-- is after `check_for_fruit`, whose result is 0 or the number of the fruit that was there.
pub check_for_fruit-Counted :
    (blocks : ℕ → ℕ → ℕ) (s : Scene) (x y : ℕ)
    → cells_of s.maze < 4294967295
    → Counted (cells_of s.maze) s.maze
    → Counted (cells_of s.maze) (check_for_fruit blocks s x y).0.maze
      × (((check_for_fruit blocks s x y).1 ≡ 0)
          ⊎ ((check_for_fruit blocks s x y).1 ≡ fruit_of (square s.maze x y)))
check_for_fruit-Counted blocks s x y big c = elim (checked_maze blocks s x y) [
  | inl e ↦ (subst (Counted (cells_of s.maze)) (sym e.0) c, inl e.1)
  | inr e ↦ (
    subst (Counted (cells_of s.maze)) (sym e.3) (
        eat_fruit-Counted (cells_of s.maze) s.maze x y big (maze_index-lt s.maze x y e.0 e.1) e.2
          c),
    inr e.4,
  )
]

-- The picked square is a free one of the maze.
abbrev Free : Maze → (ℕ → Bool) → Option (ℕ × ℕ × List ℕ) → Type 0
Free m taken none = ℕ
Free m taken (some p) =
    (taken (square m p.0 p.1) ≡ false) × (p.0 < 2 * m.maze_x_dim) × (p.1 < 2 * m.maze_y_dim)

pick_square-Free :
    (m : Maze) (taken : ℕ → Bool) (random : List ℕ)
    → 0 < m.maze_x_dim
    → 0 < m.maze_y_dim
    → Free m taken (pick_square m taken random)
unfolding pick_square
pick_square-Free m taken [] h k = 0
pick_square-Free m taken (r ∷ []) h k = 0
pick_square-Free m taken (r ∷ t ∷ rest) h k =
    go (taken (square m (r % m.maze_x_dim * 2 + 1) (t % m.maze_y_dim * 2 + 1)))
      (pick_square-Free m taken rest h k) refl
  where
    odd : (r d : ℕ) → 0 < d → r % d * 2 + 1 < 2 * d
    odd r d h = ground arith

    go :
        (b : Bool)
        → Free m taken (pick_square m taken rest)
        → taken (square m (r % m.maze_x_dim * 2 + 1) (t % m.maze_y_dim * 2 + 1)) ≡ b
        → Free m taken (
            if b
            then pick_square m taken rest
            else some (r % m.maze_x_dim * 2 + 1, t % m.maze_y_dim * 2 + 1, rest))
    go true f e = f
    go false f e = (e, odd r m.maze_x_dim h, odd t m.maze_y_dim k)

abbrev Sown : ℕ → Option (Scene × List ℕ) → Type 0
Sown n none = ℕ
Sown n (some r) = Counted n r.0.maze

planted-Counted :
    (blocks : ℕ → ℕ → ℕ) (show : Bool) (s : Scene) (x y : ℕ) (random : List ℕ)
    → cells_of s.maze < 4294967295
    → has_fruit (square s.maze x y) ≡ false
    → x < 2 * s.maze.maze_x_dim
    → y < 2 * s.maze.maze_y_dim
    → Counted (cells_of s.maze) s.maze
    → Sown (cells_of s.maze) (planted blocks show s x y random)
unfolding draw_square
planted-Counted blocks show s x y [] big f h k c = 0
planted-Counted blocks show s x y (r ∷ rest) big f h k c =
    shown show (plant-Counted (cells_of s.maze) s.maze x y r big (maze_index-lt s.maze x y h k) f c)
  where
    shown :
        (b : Bool)
        → Counted (cells_of s.maze) (plant s.maze x y r)
        → Counted
            (cells_of s.maze)
            (if b
              then draw_square blocks (record s { maze = plant s.maze x y r }) x y
              else record s { maze = plant s.maze x y r }).maze
    shown true d = d
    shown false d = d

-- While n_fruits is the number of the squares with a fruit, of a maze with rows and columns in an
-- array that is not huge, it still is after `_add_a_fruit`, drawn or not, once a free square and a
-- fruit have been drawn from the random numbers.
pub put_a_fruit-Counted :
    (blocks : ℕ → ℕ → ℕ) (show : Bool) (s : Scene) (random : List ℕ) (s' : Scene) (rest : List ℕ)
    → 0 < s.maze.maze_x_dim
    → 0 < s.maze.maze_y_dim
    → cells_of s.maze < 4294967295
    → Counted (cells_of s.maze) s.maze
    → put_a_fruit blocks show s random ≡ some (s', rest)
    → Counted (cells_of s.maze) s'.maze
unfolding put_a_fruit
put_a_fruit-Counted blocks show s random s' rest h k big c e =
    subst (Sown (cells_of s.maze)) e
      (sown (pick_square s.maze has_fruit random) (pick_square-Free s.maze has_fruit random h k))
  where
    sown :
        (o : Option (ℕ × ℕ × List ℕ))
        → Free s.maze has_fruit o
        → Sown (cells_of s.maze) (o >>= λ p. planted blocks show s p.0 p.1 p.2)
    sown none f = 0
    sown (some p) f = planted-Counted blocks show s p.0 p.1 p.2 big f.0 f.1 f.2 c
