-- ===== src/Maze/Passes.antt =====
-- The scan of the second phase ends: each pass over the squares knocks down a wall.
use ece391_computer_systems.Base.{
  ℕ, ◌+◌, ◌*◌, ◌/◌, ◌≤◌, ◌<◌, ◌≡◌, ◌⊎◌, inl, inr, Bool, true, false, if◌then◌else◌, Option, none,
  some, arith, refl, ap, ◌∙◌, sym, subst,
}
use ece391_computer_systems.Maze.{Maze, square, is_reached}
use ece391_computer_systems.Maze.Joiner.{
  Joined, join, next_x, next_y, scan_on, count_trial, scan_round,
}
use ece391_computer_systems.Maze.Joining.{Spot, spot_index}
use ece391_computer_systems.Maze.Connecting.{Between}
use ece391_computer_systems.Maze.JoinRounds.{scan_on-Between, count_trial-Between}
use ece391_computer_systems.Maze.Frontier.{Frontier, knock-Frontier, JoinsTo, join-JoinsTo}
use ece391_computer_systems.Maze.Scanning.{
  number, number-lt, number_inj, following, steps_to, steps_to_bounds, steps_to_less, next_number,
}

-- What a round of the scan leads to: nothing but the next square, which is at no frontier, or
-- fewer squares.
abbrev pub ScansTo : Joined → Option Joined → Type 0
ScansTo j none = ⊥
ScansTo j (some j') =
    ((j' ≡ scan_on (count_trial j))
      × ((f : Frontier j.maze)
          → next_x j.maze j.x ≡ 2 * f.a + 1
          → next_y j.maze j.x j.y ≡ 2 * f.b + 1
          → ⊥))
    ⊎ ((j'.remaining < j.remaining) × (j'.trials ≡ (count_trial j).trials))

pub scan_round-ScansTo : (d y_dim : ℕ) (j : Joined) → Between d y_dim j → ScansTo j (scan_round j)
unfolding scan_round
scan_round-ScansTo d y_dim j w =
    let w' = scan_on-Between d y_dim (count_trial j) (count_trial-Between d y_dim j w) in
    go (is_reached (square j.maze j'.x j'.y)) refl (λ h. join-JoinsTo j' w'.spot w'.parts h)
  where
    j' : Joined
    j' = scan_on (count_trial j)

    clash : (b : Bool) → b ≡ true → b ≡ false → ⊥
    clash b e f = ground arith

    joined : (o : Option Joined) → JoinsTo j' o → ScansTo j o
    joined none h = h
    joined (some r) (inl (e, n)) = inl (e, λ f x y. knock-Frontier j.maze j'.x j'.y f x y n)
    joined (some r) (inr h) = inr h

    go :
        (b : Bool)
        → is_reached (square j.maze j'.x j'.y) ≡ b
        → (is_reached (square j.maze j'.x j'.y) ≡ false → JoinsTo j' (join j'))
        → ScansTo j (if b then some j' else join j')
    go true e h = inl (
      refl,
      λ f x y. clash _ e (
          ap (λ i. is_reached (j.maze.maze i)) (spot_index j.maze j'.x j'.y f.a f.b x y)
          ∙ f.hidden),
    )
    go false e h = joined (join j') (h e)

-- The rounds up to the frontier `f`.
abbrev pub rounds_to : (j : Joined) → Frontier j.maze → ℕ
rounds_to j f =
    steps_to (j.maze.maze_y_dim * j.maze.maze_x_dim) (number j.maze.maze_x_dim (j.x / 2) (j.y / 2))
      (number j.maze.maze_x_dim f.a f.b)

spot_number :
    (m : Maze) (x y : ℕ) (s : Spot m x y)
    → number m.maze_x_dim (x / 2) (y / 2) ≡ number m.maze_x_dim s.a s.b
spot_number m x y s =
    ap (λ a. number m.maze_x_dim a (y / 2)) (half x s.a s.at_x)
    ∙ ap (λ b. number m.maze_x_dim s.a b) (half y s.b s.at_y)
  where
    half : (x a : ℕ) → x ≡ 2 * a + 1 → x / 2 ≡ a
    half x a e = omega (arith, e)

pub rounds_to_bounds :
    (d y_dim : ℕ) (j : Joined)
    → Between d y_dim j
    → (f : Frontier j.maze) → (1 ≤ rounds_to j f) × (rounds_to j f ≤ y_dim * d)
rounds_to_bounds d y_dim j w f =
    let m = j.maze in
    let s = w.spot in
    let b =
      steps_to_bounds (m.maze_y_dim * m.maze_x_dim) (number m.maze_x_dim (j.x / 2) (j.y / 2))
        (number m.maze_x_dim f.a f.b)
        (subst (λ n. n < m.maze_y_dim * m.maze_x_dim) (sym (spot_number m j.x j.y s))
          (number-lt m.maze_x_dim m.maze_y_dim s.a s.b s.column s.row))
        (number-lt m.maze_x_dim m.maze_y_dim f.a f.b f.column f.row) in
    (
      b.0,
      subst (λ n. rounds_to j f ≤ n)
          (ap (λ n. n * m.maze_x_dim) w.y_size ∙ ap (λ n. y_dim * n) w.x_size) b.1,
    )

-- A round that finds nothing comes nearer.
pub nearer :
    (d y_dim : ℕ) (j : Joined)
    → Between d y_dim j
    → (f : Frontier j.maze)
    → (next_x j.maze j.x ≡ 2 * f.a + 1 → next_y j.maze j.x j.y ≡ 2 * f.b + 1 → ⊥)
    → rounds_to (scan_on (count_trial j)) f + 1 ≡ rounds_to j f
nearer d y_dim j w f away = elim step [
  | inl e ↦
      let i =
        number_inj m.maze_x_dim t.a t.b f.a f.b t.column f.column
          (sym (spot_number m (next_x m j.x) (next_y m j.x j.y) t) ∙ next_number m j.x j.y s ∙ e) in
      absurd (away (t.at_x ∙ ap (λ a. 2 * a + 1) i.0) (t.at_y ∙ ap (λ b. 2 * b + 1) i.1))
  | inr e ↦
      ap (λ p. steps_to n p (number m.maze_x_dim f.a f.b) + 1) (next_number m j.x j.y s)
      ∙ e
      ∙ ap (λ p. steps_to n p (number m.maze_x_dim f.a f.b)) (sym (spot_number m j.x j.y s))
]
  where
    m : Maze
    m = j.maze

    n : ℕ
    n = m.maze_y_dim * m.maze_x_dim

    s : Spot m j.x j.y
    s = w.spot

    t : Spot m (next_x m j.x) (next_y m j.x j.y)
    t = (scan_on-Between d y_dim j w).spot

    step :
        (following n (number m.maze_x_dim s.a s.b) ≡ number m.maze_x_dim f.a f.b)
        ⊎ (steps_to n (following n (number m.maze_x_dim s.a s.b)) (number m.maze_x_dim f.a f.b) + 1
            ≡ steps_to n (number m.maze_x_dim s.a s.b) (number m.maze_x_dim f.a f.b))
    step =
        steps_to_less n (number m.maze_x_dim s.a s.b) (number m.maze_x_dim f.a f.b)
          (number-lt m.maze_x_dim m.maze_y_dim s.a s.b s.column s.row)
          (number-lt m.maze_x_dim m.maze_y_dim f.a f.b f.column f.row)
