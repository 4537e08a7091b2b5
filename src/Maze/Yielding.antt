-- ===== src/Maze/Yielding.antt =====
-- With some random numbers the parts are joined, and the maze gets its fruits and its exit.
use ece391_computer_systems.Base.{
  ℕ, zero, suc, ◌+◌, ◌-◌, ◌*◌, ◌%◌, ◌≤◌, ◌<◌, ◌≡◌, inl, inr, Bool, true, false, not, ◌==◌,
  Bool-cases, [], ◌∷◌, ◌++◌, some, ◌>>=◌, store, arith, refl, ap, ◌∙◌, subst,
}
use ece391_computer_systems.Maze.{Maze, maze_index, square}
use ece391_computer_systems.Maze.Counting.{one_if}
use ece391_computer_systems.Maze.Squares.{Scene, has_fruit, plant, planted, put_a_fruit}
use ece391_computer_systems.Maze.Making.{
  start_joining, join_rounds, join_parts, add_fruits, exit_at, put_exit,
}
use ece391_computer_systems.Maze.Joiner.{Joined, marked_by, join_all}
use ece391_computer_systems.Maze.Crawler.{Worm}
use ece391_computer_systems.Maze.Lattice.{room, IsRoom}
use ece391_computer_systems.Maze.Rooms.{count_rooms, count_rooms-some, count_rooms-change}
use ece391_computer_systems.Maze.Digging.{Dug, InRoom}
use ece391_computer_systems.Maze.Crawling.{place_eq}
use ece391_computer_systems.Maze.Connecting.{Between}
use ece391_computer_systems.Maze.Connected.{first-Parts, not_marked}
use ece391_computer_systems.Maze.Marked.{mark_maze_area-some}
use ece391_computer_systems.Maze.Rounds.{last_round}
use ece391_computer_systems.Maze.Returning.{Yields, pick_square-room, join_all-Yields}

abbrev pub is_bare : ℕ → Bool
is_bare c = not (has_fruit c)

abbrev pub bare_rooms : Maze → ℕ
bare_rooms m = count_rooms is_bare m.maze_x_dim m.maze_y_dim m.maze

bare_room :
    (m : Maze)
    → 0 < bare_rooms m
    → (a b : ℕ) × (a < m.maze_x_dim)
      × (b < m.maze_y_dim)
      × (has_fruit (m.maze (room m.maze_x_dim a b)) ≡ false)
bare_room m h =
    let c = count_rooms-some is_bare m.maze_x_dim m.maze_y_dim m.maze h in
    (c.0, c.1, c.2, c.3, not_true _ c.4)
  where
    not_true : (b : Bool) → not b ≡ true → b ≡ false
    not_true b e = ground arith

-- A fruit takes one room at most.
planted_rooms :
    (m : Maze) (a b : ℕ)
    → a < m.maze_x_dim
    → b < m.maze_y_dim
    → bare_rooms m ≤ bare_rooms (plant m (2 * a + 1) (2 * b + 1) 0) + 1
planted_rooms m a b h k =
    let i : maze_index m (2 * a + 1) (2 * b + 1) ≡ room m.maze_x_dim a b =
      place_eq m.maze_x_dim refl (omega arith) in
    let c = square m (2 * a + 1) (2 * b + 1) + (0 % 7 + 1) * 2 in
    one_less _ _ _ _ (ap (λ i. count_rooms is_bare m.maze_x_dim m.maze_y_dim (store m.maze i c)) i)
      (count_rooms-change is_bare m.maze_x_dim m.maze_y_dim a b c m.maze h k)
  where
    one_less : (u v : ℕ) (b c : Bool) {w : ℕ} → w ≡ v → v + one_if b ≡ u + one_if c → u ≤ w + 1
    one_less u v b c e f = ground arith

pub add_fruits-Yields :
    (blocks : ℕ → ℕ → ℕ) (k : ℕ) (s : Scene)
    → k < bare_rooms s.maze
    → (y : Yields (add_fruits blocks k s)) × (0 < bare_rooms y.1.maze)
unfolding add_fruits put_a_fruit
add_fruits-Yields blocks zero s h = (([], s, λ rest. refl), h)
add_fruits-Yields blocks (suc k) s h =
    let c = bare_room s.maze (omega arith) in
    let s' : Scene = record s { maze = plant s.maze (2 * c.0 + 1) (2 * c.1 + 1) 0 } in
    let y =
      add_fruits-Yields blocks k s' (omega (arith, h, planted_rooms s.maze c.0 c.1 c.2 c.3)) in
    (
      (
        c.0 ∷ c.1 ∷ 0 ∷ y.0.0,
        y.0.1,
        λ rest.
            ap
              (λ o. (o >>= λ p. planted blocks false s p.0 p.1 p.2) >>= λ added.
                add_fruits blocks k added.0 added.1)
              (pick_square-room s.maze has_fruit c.0 c.1 (0 ∷ (y.0.0 ++ rest)) c.2 c.3 c.4)
            ∙ y.0.2 rest,
      ),
      y.1,
    )

pub put_exit-Yields : (s : Scene) → 0 < bare_rooms s.maze → Yields (put_exit s)
unfolding put_exit
put_exit-Yields s h =
    let c = bare_room s.maze h in
    (
      c.0 ∷ c.1 ∷ [],
      record s { maze = exit_at s.maze (2 * c.0 + 1) (2 * c.1 + 1) },
      λ rest.
          ap (λ o. o >>= λ p. some (record s { maze = exit_at s.maze p.0 p.1 }, p.2))
            (pick_square-room s.maze has_fruit c.0 c.1 rest c.2 c.3 c.4),
    )

-- The second phase, from a maze in which all rooms are open.
pub join_parts-Yields : (w : Worm) → InRoom w → Dug w.maze 0 → Yields (join_parts w)
unfolding join_parts
join_parts-Yields w i g =
    let m = w.maze in
    let h : 0 < m.maze_x_dim = omega (arith, i.column) in
    let k : 0 < m.maze_y_dim = omega (arith, i.row) in
    let start : IsRoom m.maze_x_dim m.maze_y_dim (maze_index m 1 1) = record {
      a = 0;
      b = 0;
      column = h;
      row = k;
      index = refl;
    } in
    let s =
      mark_maze_area-some m (maze_index m 1 1) g.lattice start
        (not_marked (square m 1 1) (g.binary (maze_index m 1 1))) in
    let j = start_joining w (record m { maze = s.0.cells }, s.0.q_end) in
    let b : Between m.maze_x_dim m.maze_y_dim j = record {
      x_size = refl;
      y_size = refl;
      parts = first-Parts m s.0 h k g s.1;
      spot = record {
        a = i.a;
        b = i.b;
        column = i.column;
        row = i.row;
        at_x = i.at_x;
        at_y = i.at_y;
      };
    } in
    let y : Yields (join_all (join_rounds m) j) = joined j b (le_size _ s.0.q_end) (omega arith) in
    (
      y.0,
      y.1,
      λ rest.
          ap
            (λ o. (o >>= marked_by m) >>= λ marked.
              join_all (join_rounds m) (start_joining w marked) (y.0 ++ rest))
            s.1
          ∙ y.2 rest,
    )
  where
    le_size : (n k : ℕ) → n - k ≤ n
    le_size n k = omega arith

    enough : (d n r : ℕ) → r ≤ d * n → 100 + r * (n * d) ≤ 100 + d * n * (d * n)
    enough d n r h = go (d * n) r (d * n - r) (omega arith) (ground arith)
      where
        go : (a r c : ℕ) → a ≡ r + c → n * d ≡ a → 100 + r * (n * d) ≤ 100 + a * a
        go a r c e f = ground (arith, ap (λ x. r * x) f, ap (λ x. x * a) e)

    joined :
        (j : Joined)
        → Between w.maze.maze_x_dim w.maze.maze_y_dim j
        → j.remaining ≤ w.maze.maze_x_dim * w.maze.maze_y_dim
        → 100 ≤ j.trials + 100
        → Yields (join_all (join_rounds w.maze) j)
    joined j b l t =
        let d = w.maze.maze_x_dim in
        let n = w.maze.maze_y_dim in
        subst (λ f. Yields (join_all f j)) (omega arith)
          (elim (Bool-cases (j.remaining == 0)) [
            | inl e ↦
                let r = last_round d n (100 + d * n * (d * n)) j b (ground arith) in ([], r.0, r.1)
            | inr e ↦
                join_all-Yields d n 100 (suc (100 + d * n * (d * n))) j b (ground arith) t
                  (omega (arith, enough d n j.remaining l))
          ])
