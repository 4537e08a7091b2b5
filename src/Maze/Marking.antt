-- ===== src/Maze/Marking.antt =====
-- mark_maze_area: breadth-first search over the open squares.
-- `q` is the queue from q_start on; `q_end` counts what went through it. Squares are array indices.
use ece391_computer_systems.Base.{
  ℕ, zero, suc, ◌+◌, ◌-◌, ◌*◌, ◌≤◌, ◌<◌, ◌≡◌, inl, inr, Bool, Bool-cases, true, false, ◌&&◌, not,
  ◌==◌, if◌then◌else◌, List, [], ◌∷◌, ◌++◌, Option, none, some, store, arith, refl, ap, ◌∙◌,
}
use ece391_computer_systems.Maze.{is_wall, is_reached, with_reach}

pub record Search : Type 0 where
  pub cells : ℕ → ℕ
  pub q : List ℕ
  pub q_end : ℕ

-- One direction: the square `wall` next to the current one and the square `target` behind it.
unfoldable pub explore : ℕ → ℕ → Search → Search
explore wall target s =
    if not (is_wall (s.cells wall)) && not (is_reached (s.cells target))
    then record {
      cells = store s.cells target (with_reach (s.cells target));
      q = s.q ++ (target ∷ []);
      q_end = s.q_end + 1;
    }
    else s

-- Up, right, down, left, with rows of `2 * x_dim` squares.
abbrev pub explore_all : ℕ → ℕ → Search → Search
explore_all x_dim cur s = explore (cur - 1) (cur - 2) (
    explore (cur + 2 * x_dim) (cur + 4 * x_dim)
      (explore (cur + 1) (cur + 2) (explore (cur - 2 * x_dim) (cur - 4 * x_dim) s)))

-- The loop, for at most `fuel` rounds; the queue is handed on by itself.
unfoldable pub search_rounds : ℕ → ℕ → List ℕ → Search → Option Search
search_rounds fuel x_dim [] s = some s
search_rounds zero x_dim (cur ∷ rest) s = none
search_rounds (suc fuel) x_dim (cur ∷ rest) s =
    let next = explore_all x_dim cur (record s { q = rest }) in search_rounds fuel x_dim next.q next

-- The search from the square `start`; its result is `q_end`.
unfoldable pub mark_maze_area : ℕ → ℕ → ℕ → (ℕ → ℕ) → Option Search
mark_maze_area fuel x_dim start cells =
    search_rounds fuel x_dim (start ∷ [])
      (record { cells = store cells start (with_reach (cells start)); q = start ∷ []; q_end = 1 })

-- How many of the first `n` squares have not been reached.
pub unreached : ℕ → (ℕ → ℕ) → ℕ
unreached zero cells = 0
unreached (suc n) cells = (if is_reached (cells n) then 0 else 1) + unreached n cells

pub with_reach-reached : (c : ℕ) → is_reached (with_reach c) ≡ true
with_reach-reached c = ground arith

pub with_reach-wall : (c : ℕ) → is_wall (with_reach c) ≡ is_wall c
with_reach-wall c = ground arith

unreached_behind :
    (n t c : ℕ) (cells : ℕ → ℕ) → n ≤ t → unreached n (store cells t c) ≡ unreached n cells
unfolding unreached
unreached_behind zero t c cells h = refl
unreached_behind (suc n) t c cells h = ground (arith, unreached_behind n t c cells (omega arith))

pub index_eq : (i j : ℕ) → i == j ≡ true → i ≡ j
index_eq i j e = ground arith

-- A square that is marked for the first time.
pub unreached_less :
    (n t : ℕ) (cells : ℕ → ℕ)
    → t < n
    → is_reached (cells t) ≡ false
    → unreached n (store cells t (with_reach (cells t))) + 1 ≡ unreached n cells
unfolding unreached
unreached_less zero t cells h e = absurd (omega arith)
unreached_less (suc n) t cells h e = elim (Bool-cases (n == t)) [
  | inl b ↦
      first _ _ _ _
        (ap (λ x. is_reached (if x then with_reach (cells t) else cells n)) b
          ∙ with_reach-reached (cells t))
        (ap (λ i. is_reached (cells i)) (index_eq n t b) ∙ e)
        (unreached_behind n t (with_reach (cells t)) cells (omega (arith, index_eq n t b)))
  | inr b ↦
      later _ _ _ _ (ap (λ x. is_reached (if x then with_reach (cells t) else cells n)) b)
        (unreached_less n t cells (other n t h b) e)
]
  where
    first :
        (a b : Bool) (u u' : ℕ)
        → a ≡ true
        → b ≡ false
        → u ≡ u'
        → (if a then 0 else 1) + u + 1 ≡ (if b then 0 else 1) + u'
    first a b u u' e f g = ground arith

    later :
        (a b : Bool) (u u' : ℕ)
        → a ≡ b
        → u + 1 ≡ u'
        → (if a then 0 else 1) + u + 1 ≡ (if b then 0 else 1) + u'
    later a b u u' e f = ground arith

    other : (i j : ℕ) → j < suc i → i == j ≡ false → j < i
    other i j h e = ground arith

pub unreached-le : (n : ℕ) (cells : ℕ → ℕ) → unreached n cells ≤ n
unfolding unreached
unreached-le zero cells = omega arith
unreached-le (suc n) cells = ground (arith, unreached-le n cells)
