-- ===== src/Maze/Scanning.antt =====
-- The order in which the scan of the second phase takes the rooms.
use ece391_computer_systems.Base.{
  ℕ, ◌+◌, ◌-◌, ◌*◌, ◌/◌, ◌≤◌, ◌<◌, ◌≡◌, ◌⊎◌, inl, inr, Bool, true, false, ◌==◌, ltb, if◌then◌else◌,
  Bool-cases, arith, refl, ap, ◌∙◌,
}
use ece391_computer_systems.Maze.{Maze}
use ece391_computer_systems.Maze.Joiner.{next_x, next_y}
use ece391_computer_systems.Maze.Lattice.{place_inj}
use ece391_computer_systems.Maze.Joining.{Spot}

-- The number of a room in the order of the scan.
abbrev pub number : ℕ → ℕ → ℕ → ℕ
number d a b = b * d + a

pub number-lt : (d y_dim a b : ℕ) → a < d → b < y_dim → number d a b < y_dim * d
number-lt d y_dim a b h k =
    let e : y_dim ≡ b + 1 + (y_dim - (b + 1)) = omega arith in
    bounded d a b (y_dim - (b + 1)) y_dim h e
  where
    bounded : (d a b k n : ℕ) → a < d → n ≡ b + 1 + k → b * d + a < n * d
    bounded d a b k n h e = ground (arith, ap (λ n. n * d) e)

pub number_inj :
    (d a b a' b' : ℕ) → a < d → a' < d → number d a b ≡ number d a' b' → (a ≡ a') × (b ≡ b')
number_inj d a b a' b' h k e =
    let p = place_inj d (2 * a) b (2 * a') b' (omega arith) (omega arith) (double _ _ _ _ e) in
    (omega (arith, p.0), p.1)
  where
    double : (a a' n n' : ℕ) → n + a ≡ n' + a' → 2 * a + n * 2 ≡ 2 * a' + n' * 2
    double a a' n n' e = omega (arith, e)

abbrev pub following : ℕ → ℕ → ℕ
following n p = if p + 1 == n then 0 else p + 1

-- How many squares the scan goes on from `p` to come to `f`.
abbrev pub steps_to : ℕ → ℕ → ℕ → ℕ
steps_to n p f = if ltb p f then f - p else f + n - p

pub steps_to_bounds : (n p f : ℕ) → p < n → f < n → (1 ≤ steps_to n p f) × (steps_to n p f ≤ n)
steps_to_bounds n p f h k = (ground arith, ground arith)

pub steps_to_less :
    (n p f : ℕ)
    → p < n
    → f < n
    → (following n p ≡ f) ⊎ (steps_to n (following n p) f + 1 ≡ steps_to n p f)
steps_to_less n p f h k = elim (Bool-cases (following n p == f)) [
  | inl e ↦ inl (ground arith)
  | inr e ↦ inr (ground arith)
]

pub next_number :
    (m : Maze) (x y : ℕ) (s : Spot m x y)
    → number m.maze_x_dim (next_x m x / 2) (next_y m x y / 2)
      ≡ following (m.maze_y_dim * m.maze_x_dim) (number m.maze_x_dim s.a s.b)
next_number m x y s =
    go m.maze_x_dim m.maze_y_dim s.a s.b (ltb (m.maze_x_dim * 2) (x + 2))
      (ltb (2 * m.maze_y_dim) (y + 2)) refl refl s.at_x s.at_y s.column s.row
  where
    same_row : (d n a b : ℕ) → a + 1 < d → b < n → b * d + (a + 1) ≡ following (n * d) (b * d + a)
    same_row d n a b h k = ground (arith, number-lt d n (a + 1) b h k)

    next_row :
        (d n a b : ℕ) → a + 1 ≡ d → b + 1 < n → (b + 1) * d + 0 ≡ following (n * d) (b * d + a)
    next_row d n a b h k = ground (arith, number-lt d n 0 (b + 1) (omega arith) k, step b d)
      where
        step : (b d : ℕ) → (b + 1) * d ≡ b * d + d
        step b d = ground arith

    first_row : (d n a b : ℕ) → a + 1 ≡ d → b + 1 ≡ n → 0 * d + 0 ≡ following (n * d) (b * d + a)
    first_row d n a b h k = ground (arith, ap (λ n. n * d) k)

    half : (x a : ℕ) → x ≡ 2 * a + 1 → x / 2 ≡ a
    half x a e = omega (arith, e)

    first : (d a x : ℕ) → x ≡ 2 * a + 1 → a + 1 ≡ d → (x + 2 - d * 2) / 2 ≡ 0
    first d a x e f = omega (arith, e, f)

    first' : (d a x : ℕ) → x ≡ 2 * a + 1 → a + 1 ≡ d → (x + 2 - 2 * d) / 2 ≡ 0
    first' d a x e f = omega (arith, e, f)

    number_eq : (d : ℕ) {a a' b b' : ℕ} → a ≡ a' → b ≡ b' → number d a b ≡ number d a' b'
    number_eq d {a} {a'} {b} {b'} e f = ap (λ a. number d a b) e ∙ ap (λ b. number d a' b) f

    go :
        (d n a b : ℕ) (c e : Bool)
        → ltb (d * 2) (x + 2) ≡ c
        → ltb (2 * n) (y + 2) ≡ e
        → x ≡ 2 * a + 1
        → y ≡ 2 * b + 1
        → a < d
        → b < n
        → number d
            ((if c then x + 2 - d * 2 else x + 2) / 2)
            ((if c then (if e then y + 2 - 2 * n else y + 2) else y) / 2)
          ≡ following (n * d) (number d a b)
    go d n a b false e z w f g h k =
        number_eq d (half (x + 2) (a + 1) (omega (arith, f))) (half y b g)
        ∙ same_row d n a b (ground arith) k
    go d n a b true false z w f g h k =
        number_eq d (first d a x f (ground arith)) (half (y + 2) (b + 1) (omega (arith, g)))
        ∙ next_row d n a b (ground arith) (ground arith)
    go d n a b true true z w f g h k =
        number_eq d (first d a x f (ground arith)) (first' n b y g (ground arith))
        ∙ first_row d n a b (ground arith) (ground arith)
