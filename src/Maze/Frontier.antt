-- ===== src/Maze/Frontier.antt =====
-- While a room is not reached, one beside a reached room is not, and its wall is knocked down.
use ece391_computer_systems.Base.{
  ℕ, zero, suc, ◌+◌, ◌-◌, ◌*◌, ◌≤◌, ◌<◌, ◌≡◌, ◌⊎◌, inl, inr, Bool, true, false, ◌&&◌, not, ltb,
  if◌then◌else◌, Bool-cases, Option, none, some, ◌>>=◌, store, arith, refl, ap, ◌∙◌, sym, subst,
}
use ece391_computer_systems.Maze.{Maze, maze_index, square, is_reached}
use ece391_computer_systems.Maze.Marking.{Search}
use ece391_computer_systems.Maze.Joiner.{
  Joined, knock, marked_by, less_remaining, mark_more, after_knock, join,
}
use ece391_computer_systems.Maze.Lattice.{room}
use ece391_computer_systems.Maze.Rooms.{count_rooms-some, count_rooms-pos}
use ece391_computer_systems.Maze.Digging.{opened}
use ece391_computer_systems.Maze.Neighbours.{room_above, room_left}
use ece391_computer_systems.Maze.Finding.{is_hidden}
use ece391_computer_systems.Maze.Joining.{Parts, Spot, spot_index, Spot-IsRoom}
use ece391_computer_systems.Maze.Knocking.{Knocks, knock-Knocks}
use ece391_computer_systems.Maze.Marked.{mark_maze_area-some}

pub record Frontier (m : Maze) : Type 0 where
  pub a : ℕ
  pub b : ℕ
  pub column : a < m.maze_x_dim
  pub row : b < m.maze_y_dim
  pub hidden : is_reached (m.maze (room m.maze_x_dim a b)) ≡ false
  pub edge :
      ((k : ℕ) × (b ≡ k + 1) × (is_reached (m.maze (room m.maze_x_dim a k)) ≡ true))
      ⊎ ((k : ℕ) × (a ≡ k + 1) × (is_reached (m.maze (room m.maze_x_dim k b)) ≡ true))

find_frontier :
    (m : Maze) (a b : ℕ)
    → is_reached (m.maze (room m.maze_x_dim 0 0)) ≡ true
    → a < m.maze_x_dim
    → b < m.maze_y_dim
    → is_reached (m.maze (room m.maze_x_dim a b)) ≡ false
    → Frontier m
find_frontier m zero zero r h k e = absurd (clash _ r e)
  where
    clash : (b : Bool) → b ≡ true → b ≡ false → ⊥
    clash b e f = ground arith
find_frontier m (suc a) zero r h k e =
    elim (Bool-cases (is_reached (m.maze (room m.maze_x_dim a 0)))) [
      | inl t ↦ record {
        a = suc a;
        b = 0;
        column = h;
        row = k;
        hidden = e;
        edge = inr (a, omega arith, t);
      }
      | inr t ↦ find_frontier m a 0 r (omega arith) k t
    ]
find_frontier m a (suc b) r h k e =
    elim (Bool-cases (is_reached (m.maze (room m.maze_x_dim a b)))) [
      | inl t ↦ record {
        a = a;
        b = suc b;
        column = h;
        row = k;
        hidden = e;
        edge = inl (b, omega arith, t);
      }
      | inr t ↦ find_frontier m a b r h (omega arith) t
    ]

pub Parts-Frontier : (m : Maze) (remaining : ℕ) → Parts m remaining → 0 < remaining → Frontier m
Parts-Frontier m remaining p h =
    let r =
      count_rooms-some is_hidden m.maze_x_dim m.maze_y_dim m.maze
        (subst (λ n. 0 < n) p.counted h) in
    find_frontier m r.0 r.1 p.rooted r.2 r.3 (not_true _ r.4)
  where
    not_true : (b : Bool) → not b ≡ true → b ≡ false
    not_true b e = ground arith

-- At a frontier a wall is knocked down.
pub knock-Frontier :
    (m : Maze) (x y : ℕ) (f : Frontier m)
    → x ≡ 2 * f.a + 1
    → y ≡ 2 * f.b + 1
    → knock m x y ≡ none
    → ⊥
unfolding knock
knock-Frontier m x y f e g n = elim f.edge [
  | inl (k, z, r) ↦
      by_up _ _ (ltb 1 y) (is_reached (m.maze (maze_index m x y - 4 * d))) (ground (arith, g, z))
        (ap (λ i. is_reached (m.maze i))
            (ap (λ i. i - 4 * d) (index ∙ ap (λ b. room d f.a b) z) ∙ room_above d f.a k)
          ∙ r)
        n
  | inr (k, z, r) ↦
      by_left _ _ _ (ltb 1 y && is_reached (m.maze (maze_index m x y - 4 * d))) (ltb 1 x)
        (is_reached (m.maze (maze_index m x y - 2))) (ground (arith, e, z))
        (ap (λ i. is_reached (m.maze i))
            (ap (λ i. i - 2) (index ∙ ap (λ a. room d a f.b) z) ∙ room_left d k f.b)
          ∙ r)
        n
]
  where
    d : ℕ
    d = m.maze_x_dim

    index : maze_index m x y ≡ room d f.a f.b
    index = spot_index m x y f.a f.b e g

    by_up :
        (m1 : Maze) (o : Option Maze) (b c : Bool)
        → b ≡ true
        → c ≡ true
        → (if b && c then some m1 else o) ≡ none
        → ⊥
    by_up m1 o true true e f n = cc
    by_up m1 o true false e f n = absurd (ground arith)
    by_up m1 o false c e f n = absurd (ground arith)

    by_left :
        (m1 m2 : Maze) (o : Option Maze) (a b c : Bool)
        → b ≡ true
        → c ≡ true
        → (if a then some m1 else if b && c then some m2 else o) ≡ none
        → ⊥
    by_left m1 m2 o true b c e f n = cc
    by_left m1 m2 o false true true e f n = cc
    by_left m1 m2 o false true false e f n = absurd (ground arith)
    by_left m1 m2 o false false c e f n = absurd (ground arith)

-- At a hidden room the round returns: nothing is knocked down, or fewer squares remain.
abbrev pub JoinsTo : Joined → Option Joined → Type 0
JoinsTo j none = ⊥
JoinsTo j (some j') =
    ((j' ≡ j) × (knock j.maze j.x j.y ≡ none))
    ⊎ ((j'.remaining < j.remaining) × (j'.trials ≡ j.trials))

pub join-JoinsTo :
    (j : Joined)
    → Spot j.maze j.x j.y
    → Parts j.maze j.remaining
    → is_reached (square j.maze j.x j.y) ≡ false
    → JoinsTo j (join j)
join-JoinsTo j spot p hidden =
    go (knock j.maze j.x j.y) refl (knock-Knocks j.maze j.remaining j.x j.y spot p)
  where
    cur : ℕ
    cur = maze_index j.maze j.x j.y

    index : cur ≡ room j.maze.maze_x_dim spot.a spot.b
    index = spot_index j.maze j.x j.y spot.a spot.b spot.at_x spot.at_y

    left : 0 < j.remaining
    left =
        subst (λ n. 0 < n) (sym p.counted)
          (count_rooms-pos is_hidden j.maze.maze_x_dim j.maze.maze_y_dim spot.a spot.b j.maze.maze
            spot.column spot.row
            (subst (λ i. is_hidden (j.maze.maze i) ≡ true) index (ap not hidden)))

    marked :
        (i : ℕ) (s : Search) (o : Option Search)
        → o ≡ some s
        → 1 ≤ s.q_end
        → JoinsTo j ((o >>= marked_by (opened j.maze i)) >>= less_remaining j)
    marked i s none e h = absurd cc
    marked i s (some t) e h =
        inr (
          omega (arith, left, ap (λ o. elim o as (λ o. ℕ) [ none ↦ 0 | some r ↦ r.q_end ]) e),
          refl,
        )

    go :
        (o : Option Maze)
        → knock j.maze j.x j.y ≡ o
        → Knocks j.maze j.remaining cur o
        → JoinsTo j (after_knock j o)
    go none e k = inl (refl, e)
    go (some m') e (i, z, (parts, way, same)) =
        let s =
          mark_maze_area-some (opened j.maze i) cur parts.lattice (Spot-IsRoom j.maze j.x j.y spot)
            (subst (λ c. is_reached (store j.maze.maze i 0 c) ≡ false) (sym index)
              (ap is_reached (same spot.a spot.b spot.column spot.row ∙ ap j.maze.maze (sym index))
                ∙ hidden)) in
        subst (λ m. JoinsTo j (mark_more j m)) (sym z) (marked i s.0 _ s.1 s.2)
