-- ===== src/Maze/Counting.antt =====
-- n_fruits is the number of the squares with a fruit: what eating and planting keep true.
use ece391_computer_systems.Base.{
  ℕ, zero, suc, ◌+◌, ◌*◌, ◌%◌, ◌≤◌, ◌<◌, ◌≡◌, inl, inr, Bool, Bool-cases, true, false, ◌==◌,
  if◌then◌else◌, store, arith, refl, ap,
}
use ece391_computer_systems.Maze.{Maze, maze_index, square, without_fruit}
use ece391_computer_systems.Maze.Squares.{has_fruit, eat_fruit, plant, one_less, one_more}

abbrev pub one_if : Bool → ℕ
one_if b = if b then 1 else 0

-- The squares with a fruit among the first `n`.
unfoldable pub count_fruits : ℕ → (ℕ → ℕ) → ℕ
count_fruits zero cells = 0
count_fruits (suc n) cells = one_if (has_fruit (cells n)) + count_fruits n cells

count_behind :
    (n t c : ℕ) (cells : ℕ → ℕ) → n ≤ t → count_fruits n (store cells t c) ≡ count_fruits n cells
unfolding count_fruits
count_behind zero t c cells h = refl
count_behind (suc n) t c cells h = ground (arith, count_behind n t c cells (omega arith))

-- Changing one square changes the number by that square.
count_change :
    (n t c : ℕ) (cells : ℕ → ℕ)
    → t < n
    → count_fruits n (store cells t c) + one_if (has_fruit (cells t))
      ≡ count_fruits n cells + one_if (has_fruit c)
unfolding count_fruits
count_change zero t c cells h = absurd (omega arith)
count_change (suc n) t c cells h = elim (Bool-cases (n == t)) [
  | inl b ↦
      let k : n ≡ t = ground arith in
      at_it _ _ _ _ _ (ap (λ x. has_fruit (if x then c else cells n)) b)
        (ap (λ i. has_fruit (cells i)) k) (count_behind n t c cells (omega (arith, k)))
  | inr b ↦
      let k : t < n = ground arith in
      elsewhere _ _ _ _ _ _ (ap (λ x. has_fruit (if x then c else cells n)) b)
        (count_change n t c cells k)
]
  where
    at_it :
        (a b new : Bool) (u u' : ℕ) {old : Bool}
        → a ≡ new
        → b ≡ old
        → u ≡ u'
        → (one_if a + u) + one_if old ≡ (one_if b + u') + one_if new
    at_it a b new u u' e f g = ground arith

    elsewhere :
        (a b : Bool) (u u' o n : ℕ)
        → a ≡ b
        → u + o ≡ u' + n
        → (one_if a + u) + o ≡ (one_if b + u') + n
    elsewhere a b u u' o n e f = ground arith

-- The counter is right for the `n` squares of the array, which are less than 2^32 - 1.
unfoldable pub Counted : ℕ → Maze → Type 0
Counted n m = m.n_fruits ≡ count_fruits n m.maze

count_fruits-le : (n : ℕ) (cells : ℕ → ℕ) → count_fruits n cells ≤ n
unfolding count_fruits
count_fruits-le zero cells = omega arith
count_fruits-le (suc n) cells = ground (arith, count_fruits-le n cells)

eaten_none : (c : ℕ) → has_fruit (without_fruit c) ≡ false
eaten_none c = ground arith

pub eat_fruit-Counted :
    (n : ℕ) (m : Maze) (x y : ℕ)
    → n < 4294967295
    → maze_index m x y < n
    → has_fruit (square m x y) ≡ true
    → Counted n m
    → Counted n (eat_fruit m x y)
unfolding Counted
eat_fruit-Counted n m x y big h f c =
    one_gone m.n_fruits (count_fruits n m.maze) _ (has_fruit (square m x y))
      (has_fruit (without_fruit (square m x y))) n big (count_fruits-le n m.maze) c f
      (eaten_none (square m x y))
      (count_change n (maze_index m x y) (without_fruit (square m x y)) m.maze h)
  where
    one_gone :
        (k u u' : ℕ) (a b : Bool) (n : ℕ)
        → n < 4294967295
        → u ≤ n
        → k ≡ u
        → a ≡ true
        → b ≡ false
        → u' + one_if a ≡ u + one_if b
        → one_less k ≡ u'
    one_gone k u u' a b n big le e f g s = ground arith

pub plant-Counted :
    (n : ℕ) (m : Maze) (x y r : ℕ)
    → n < 4294967295
    → maze_index m x y < n
    → has_fruit (square m x y) ≡ false
    → Counted n m
    → Counted n (plant m x y r)
unfolding Counted
plant-Counted n m x y r big h f c =
    one_new m.n_fruits (count_fruits n m.maze) _ (has_fruit (square m x y))
      (has_fruit (square m x y + (r % 7 + 1) * 2)) n big (count_fruits-le n m.maze) c f
      (sown (square m x y) r f)
      (count_change n (maze_index m x y) (square m x y + (r % 7 + 1) * 2) m.maze h)
  where
    sown : (c r : ℕ) → has_fruit c ≡ false → has_fruit (c + (r % 7 + 1) * 2) ≡ true
    sown c r e = ground arith

    one_new :
        (k u u' : ℕ) (a b : Bool) (n : ℕ)
        → n < 4294967295
        → u ≤ n
        → k ≡ u
        → a ≡ false
        → b ≡ true
        → u' + one_if a ≡ u + one_if b
        → one_more k ≡ u'
    one_new k u u' a b n big le e f g s = ground arith
