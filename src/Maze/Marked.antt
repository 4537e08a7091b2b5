-- ===== src/Maze/Marked.antt =====
-- A search from a room of the lattice returns, and marks at least that room.
use ece391_computer_systems.Base.{
  ℕ, zero, suc, ◌+◌, ◌-◌, ◌*◌, ◌≤◌, ◌<◌, ◌≡◌, inl, inr, Bool, true, false, ltb, Bool-cases, List,
  [], ◌∷◌, Option, none, some, arith, refl, ap, ◌∙◌, sym, subst,
}
use ece391_computer_systems.Maze.{Maze, is_wall, is_reached}
use ece391_computer_systems.Maze.Fruits.{cells_of}
use ece391_computer_systems.Maze.Marking.{Search, explore, search_rounds, mark_maze_area}
use ece391_computer_systems.Maze.Ending.{mark_at, explore-cases, Roomy, mark_maze_area_terminates}
use ece391_computer_systems.Maze.Lattice.{place, solid, Lattice, room, IsRoom}

-- Every index is a place.
abbrev Placed : ℕ → ℕ → Type 0
Placed d c = (x r : ℕ) × (x < 2 * d) × (c ≡ place d x r)

index-Placed : (d c : ℕ) → 0 < d → Placed d c
index-Placed d zero h = (0, 0, omega arith, ground arith)
index-Placed d (suc c) h =
    let p = index-Placed d c h in
    elim (Bool-cases (ltb (p.0 + 1) (2 * d))) [
      | inl e ↦ (p.0 + 1, p.1, ground arith, omega (arith, p.3))
      | inr e ↦ (0, p.1 + 1, omega arith, ground (arith, p.2, p.3))
    ]

not_solid : (y_dim x r : ℕ) → solid y_dim x r ≡ false → (0 < x) × (2 ≤ r) × (r ≤ 2 * y_dim)
not_solid y_dim x r h = (ground arith, ground arith, ground arith)

-- An open square is not on the border.
open-inside :
    (d y_dim c : ℕ) (cells : ℕ → ℕ)
    → 0 < d
    → Lattice d y_dim cells
    → is_wall (cells c) ≡ false
    → (x r : ℕ) × (x < 2 * d) × (r ≤ 2 * y_dim) × (c ≡ place d x r)
unfolding Lattice
open-inside d y_dim c cells h l o =
    let p = index-Placed d c h in
    elim (Bool-cases (solid y_dim p.0 p.1)) [
      | inl e ↦ absurd (clash _ (l p.0 p.1 p.2 e) (ap (λ i. is_wall (cells i)) (sym p.3) ∙ o))
      | inr e ↦ (p.0, p.1, p.2, (not_solid y_dim p.0 p.1 e).2, p.3)
    ]
  where
    clash : (b : Bool) → b ≡ true → b ≡ false → ⊥
    clash b e f = ground arith

-- Rows up to the last are two rows in front of the end.
before_end :
    (d y_dim x r c : ℕ)
    → x < 2 * d
    → r ≤ 2 * y_dim
    → c ≡ place d x r
    → c + 4 * d < 2 * d * (2 * y_dim + 3) + 1
before_end d y_dim x r c h k e =
    let l : r + (2 * y_dim - r) ≡ 2 * y_dim = omega arith in
    far d x r (2 * y_dim - r) (2 * y_dim) c h (sym l) e
  where
    far :
        (d x r k n c : ℕ)
        → x < 2 * d
        → n ≡ r + k
        → c ≡ x + r * d * 2
        → c + 4 * d < 2 * d * (n + 3) + 1
    far d x r k n c h e f = ground (arith, ap (λ n. 2 * d * (n + 3)) e)

pub Lattice-Roomy :
    (d y_dim : ℕ) (cells : ℕ → ℕ)
    → 0 < d
    → Lattice d y_dim cells
    → Roomy (2 * d * (2 * y_dim + 3) + 1) d cells
unfolding Roomy
Lattice-Roomy d y_dim cells h l c k = (
  λ o.
      let p = open-inside d y_dim (c + 1) cells h l o in
      omega (arith, before_end d y_dim p.0 p.1 (c + 1) p.2 p.3 p.4),
  λ o.
      let p = open-inside d y_dim (c + 2 * d) cells h l o in
      omega (arith, before_end d y_dim p.0 p.1 (c + 2 * d) p.2 p.3 p.4),
)

pub room-lt : (d y_dim a b : ℕ) → a < d → b < y_dim → room d a b < 2 * d * (2 * y_dim + 3) + 1
room-lt d y_dim a b h k = omega (
  arith,
  before_end d y_dim (2 * a + 1) (2 * b + 2) (room d a b) (omega arith) (omega arith) refl,
)

-- The counter grows.
explore-grows : (wall target : ℕ) (s : Search) → s.q_end ≤ (explore wall target s).q_end
unfolding explore
explore-grows wall target s = elim (explore-cases wall target s) [
  | inl e ↦ omega (arith, ap (λ t. t.q_end) e)
  | inr e ↦ omega (arith, ap (λ t. t.q_end) e.2)
]

search_rounds-grows :
    (fuel d : ℕ) (queue : List ℕ) (s : Search)
    → let r = search_rounds fuel d queue s in
      elim r as (λ o. Type 0) [ none ↦ ℕ | some t ↦ s.q_end ≤ t.q_end ]
unfolding search_rounds
search_rounds-grows fuel d [] s = omega arith
search_rounds-grows zero d (c ∷ rest) s = 0
search_rounds-grows (suc fuel) d (c ∷ rest) s =
    let popped : Search = record { cells = s.cells; q = rest; q_end = s.q_end } in
    let s1 = explore (c - 2 * d) (c - 4 * d) popped in
    let s2 = explore (c + 1) (c + 2) s1 in
    let s3 = explore (c + 2 * d) (c + 4 * d) s2 in
    let s4 = explore (c - 1) (c - 2) s3 in
    onward (search_rounds fuel d s4.q s4) s4.q_end
      (omega (
        arith,
        explore-grows (c - 2 * d) (c - 4 * d) popped,
        explore-grows (c + 1) (c + 2) s1,
        explore-grows (c + 2 * d) (c + 4 * d) s2,
        explore-grows (c - 1) (c - 2) s3,
      ))
      (search_rounds-grows fuel d s4.q s4)
  where
    onward :
        (o : Option Search) (n : ℕ)
        → s.q_end ≤ n
        → elim o as (λ o. Type 0) [ none ↦ ℕ | some t ↦ n ≤ t.q_end ]
        → elim o as (λ o. Type 0) [ none ↦ ℕ | some t ↦ s.q_end ≤ t.q_end ]
    onward none n h k = 0
    onward (some t) n h k = omega arith

pub mark_maze_area-some :
    (m : Maze) (cur : ℕ)
    → Lattice m.maze_x_dim m.maze_y_dim m.maze
    → IsRoom m.maze_x_dim m.maze_y_dim cur
    → is_reached (m.maze cur) ≡ false
    → (s : Search) × (mark_maze_area (cells_of m) m.maze_x_dim cur m.maze ≡ some s) × (1 ≤ s.q_end)
unfolding mark_maze_area
mark_maze_area-some m cur l r h =
    let d = m.maze_x_dim in
    let t : Search = record { cells = m.maze; q = []; q_end = 0 } in
    let e =
      mark_maze_area_terminates (cells_of m) d cur m.maze
        (subst (λ c. c < cells_of m) (sym r.index) (room-lt d m.maze_y_dim r.a r.b r.column r.row))
        h (Lattice-Roomy d m.maze_y_dim m.maze (omega (arith, r.column)) l) in
    (
      e.0,
      e.1,
      subst (λ o. elim o as (λ o. Type 0) [ none ↦ ℕ | some t ↦ 1 ≤ t.q_end ]) e.1
          (search_rounds-grows (cells_of m) d (cur ∷ []) (mark_at cur t)),
    )
