-- ===== src/Maze/Ways.antt =====
-- Every square that is connected to the start is reached.
use ece391_computer_systems.Base.{
  ℕ, zero, suc, ◌+◌, ◌-◌, ◌*◌, ◌<◌, ◌≡◌, inl, inr, Bool, true, false, ==_refl, if◌then◌else◌, List,
  [], ◌∷◌, Option, none, some, store, arith, refl, ap, ◌∙◌, subst,
}
use ece391_computer_systems.Maze.{is_wall, is_reached, with_reach}
use ece391_computer_systems.Maze.Marking.{
  Search, explore_all, search_rounds, mark_maze_area, with_reach-reached,
}
use ece391_computer_systems.Maze.Ending.{Roomy, mark_maze_area_terminates}
use ece391_computer_systems.Maze.Reaching.{
  Grows, mark_at-Grows, AllDone, explore_all-Grows, Closed, search_rounds-Closed,
}

abbrev pub Stays : Search → Option Search → Type 0
Stays s none = ℕ
Stays s (some t) =
    ((i : ℕ) → is_reached (s.cells i) ≡ true → is_reached (t.cells i) ≡ true)
    × ((i : ℕ) → is_wall (t.cells i) ≡ is_wall (s.cells i))

pub search_rounds-Stays :
    (fuel x_dim : ℕ) (queue : List ℕ) (s : Search) → Stays s (search_rounds fuel x_dim queue s)
unfolding search_rounds
search_rounds-Stays fuel x_dim [] s = (λ i h. h, λ i. refl)
search_rounds-Stays zero x_dim (cur ∷ rest) s = 0
search_rounds-Stays (suc fuel) x_dim (cur ∷ rest) s =
    let popped : Search = record { cells = s.cells; q = rest; q_end = s.q_end } in
    let next = explore_all x_dim cur popped in
    let g = (explore_all-Grows x_dim cur popped).0 in
    onward (search_rounds fuel x_dim next.q next) next g
      (search_rounds-Stays fuel x_dim next.q next)
  where
    onward :
        (o : Option Search) (next : Search)
        → Grows (record s { q = rest }) next
        → Stays next o
        → Stays s o
    onward none next g f = 0
    onward (some t) next g f = (λ i h. f.0 i (g.stays i h), λ i. f.1 i ∙ g.walls i)

-- Two squares are connected by steps over squares without walls.
pub data Way (x_dim : ℕ) (cells : ℕ → ℕ) (a : ℕ) : ℕ → Type 0 where
  stop : Way x_dim cells a a
  go_up :
      {c : ℕ}
      → Way x_dim cells a c
      → is_wall (cells (c - 2 * x_dim)) ≡ false
      → Way x_dim cells a (c - 4 * x_dim)
  go_right :
      {c : ℕ} → Way x_dim cells a c → is_wall (cells (c + 1)) ≡ false → Way x_dim cells a (c + 2)
  go_down :
      {c : ℕ}
      → Way x_dim cells a c
      → is_wall (cells (c + 2 * x_dim)) ≡ false
      → Way x_dim cells a (c + 4 * x_dim)
  go_left :
      {c : ℕ} → Way x_dim cells a c → is_wall (cells (c - 1)) ≡ false → Way x_dim cells a (c - 2)

-- When no other square was reached before, a closed set with the start has the ends of all ways.
Way-reached :
    {x_dim a : ℕ} {cells : ℕ → ℕ} {c : ℕ} (s : Search)
    → ((i : ℕ) → is_wall (s.cells i) ≡ is_wall (cells i))
    → ((c : ℕ) → is_reached (s.cells c) ≡ true → AllDone x_dim s c)
    → is_reached (s.cells a) ≡ true
    → Way x_dim cells a c
    → is_reached (s.cells c) ≡ true
Way-reached s w d h stop = h
Way-reached s w d h (go_up way o) = (d _ (Way-reached s w d h way)).up (w _ ∙ o)
Way-reached s w d h (go_right way o) = (d _ (Way-reached s w d h way)).right (w _ ∙ o)
Way-reached s w d h (go_down way o) = (d _ (Way-reached s w d h way)).down (w _ ∙ o)
Way-reached s w d h (go_left way o) = (d _ (Way-reached s w d h way)).left (w _ ∙ o)

-- From a square of an `n`-square maze in which no square has been reached, and where every open
-- square is followed by a square of the maze, the search ends, and every square that is connected to
-- the start is reached.
pub mark_maze_area-Way :
    (n x_dim start : ℕ) (cells : ℕ → ℕ)
    → start < n
    → ((i : ℕ) → is_reached (cells i) ≡ false)
    → Roomy n x_dim cells
    → (s : Search) × (mark_maze_area n x_dim start cells ≡ some s)
      × ((c : ℕ) → Way x_dim cells start c → is_reached (s.cells c) ≡ true)
unfolding mark_maze_area
mark_maze_area-Way n x_dim start cells h none_yet room =
    let t : Search = record { cells = cells; q = []; q_end = 0 } in
    let first : Search = record {
      cells = store cells start (with_reach (cells start));
      q = start ∷ [];
      q_end = 1;
    } in
    let m = mark_maze_area_terminates n x_dim start cells h (none_yet start) room in
    let g = mark_at-Grows start t in
    let closed =
      search_rounds-Closed n x_dim cells (start ∷ []) first
        (λ c r. elim (g.fresh c r) [ inl e ↦ inl e | inr i ↦ inr (inr i) ]) in
    let stays = search_rounds-Stays n x_dim (start ∷ []) first in
    let closed' : Closed x_dim cells (some m.0) = subst (Closed x_dim cells) m.1 closed in
    let stays' : Stays first (some m.0) = subst (Stays first) m.1 stays in
    let started : is_reached (first.cells start) ≡ true =
      ap (λ b. is_reached (if b then with_reach (cells start) else cells start)) (==_refl start)
      ∙ with_reach-reached (cells start) in
    (
      m.0,
      m.1,
      λ c way.
          Way-reached m.0 (λ i. stays'.1 i ∙ g.walls i)
            (λ c r. elim (closed' c r) [
              | inl e ↦ absurd (clash (is_reached (cells c)) e (none_yet c))
              | inr d ↦ d
            ])
            (stays'.0 start started) way,
    )
  where
    clash : (b : Bool) → b ≡ true → b ≡ false → ⊥
    clash b e f = ground arith
