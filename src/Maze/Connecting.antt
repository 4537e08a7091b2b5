-- ===== src/Maze/Connecting.antt =====
-- The second phase, round by round, up to the connected maze.
use ece391_computer_systems.Base.{
  ℕ, ◌-◌, ◌≤◌, ◌≡◌, inl, inr, true, false, Option, none, some, ◌>>=◌, store, arith, refl, ap, ◌∙◌,
  sym, subst,
}
use ece391_computer_systems.Maze.{Maze, maze_index, square, is_wall, is_reached}
use ece391_computer_systems.Maze.Fruits.{cells_of}
use ece391_computer_systems.Maze.Marking.{Search, mark_maze_area}
use ece391_computer_systems.Maze.Ways.{Way}
use ece391_computer_systems.Maze.Joiner.{
  Joined, knock, marked_by, less_remaining, mark_more, after_knock, join,
}
use ece391_computer_systems.Maze.Lattice.{Lattice, room}
use ece391_computer_systems.Maze.Digging.{opened}
use ece391_computer_systems.Maze.Finding.{Found, mark_maze_area-Found, mark_maze_area-Stays}
use ece391_computer_systems.Maze.Joining.{Parts, Spot, spot_index, Spot-IsRoom, Way-open, Way-Way}
use ece391_computer_systems.Maze.Knocking.{Knocks, knock-Knocks}

-- The state between two rounds.
pub record Between (d y_dim : ℕ) (j : Joined) : Type 0 where
  pub x_size : j.maze.maze_x_dim ≡ d
  pub y_size : j.maze.maze_y_dim ≡ y_dim
  pub parts : Parts j.maze j.remaining
  pub spot : Spot j.maze j.x j.y

same_walls :
    (cells cells' : ℕ → ℕ)
    → ((i : ℕ) → is_wall (cells' i) ≡ is_wall (cells i))
    → (i : ℕ) → is_wall (cells i) ≡ false
    → is_wall (cells' i) ≡ false
same_walls cells cells' h i o = h i ∙ o

-- Marking from a room that is connected.
marked-Parts :
    (m : Maze) (remaining : ℕ) (cur : ℕ) (s : Search)
    → Parts m remaining
    → Way m.maze_x_dim m.maze (room m.maze_x_dim 0 0) cur
    → Found m.maze_x_dim m.maze_y_dim m.maze cur s
    → ((i : ℕ) → is_reached (m.maze i) ≡ true → is_reached (s.cells i) ≡ true)
    → Parts (record m { maze = s.cells }) (remaining - s.q_end)
unfolding Lattice
marked-Parts m remaining cur s p way f stays = record {
  lattice = λ x r h k. f.walls _ ∙ p.lattice x r h k;
  open_rooms = λ a b h k. f.walls _ ∙ p.open_rooms a b h k;
  plain = λ i. subst (λ n. n ≤ 1) (sym (f.low i)) (p.plain i);
  sound = λ i h.
      Way-open s.cells (same_walls m.maze s.cells f.walls)
        (elim (f.sound i h) [ inl r ↦ p.sound i r | inr w ↦ Way-Way way w ]);
  counted = omega (arith, p.counted, f.counted);
  rooted = stays _ p.rooted;
}

abbrev pub Betweens : ℕ → ℕ → Option Joined → Type 0
Betweens d y_dim none = ℕ
Betweens d y_dim (some j) = Between d y_dim j

pub join-Betweens :
    (d y_dim : ℕ) (j : Joined)
    → Between d y_dim j
    → is_reached (square j.maze j.x j.y) ≡ false
    → Betweens d y_dim (join j)
join-Betweens d y_dim j w hidden =
    go (knock j.maze j.x j.y) (knock-Knocks j.maze j.remaining j.x j.y w.spot w.parts)
  where
    spot : Spot j.maze j.x j.y
    spot = w.spot

    mark :
        (i : ℕ) (o : Option Search)
        → o
          ≡ mark_maze_area
              (cells_of j.maze)
              j.maze.maze_x_dim
              (maze_index j.maze j.x j.y)
              (store j.maze.maze i 0)
        → Parts (opened j.maze i) j.remaining
        → Way j.maze.maze_x_dim
            (store j.maze.maze i 0)
            (room j.maze.maze_x_dim 0 0)
            (maze_index j.maze j.x j.y)
        → is_reached (store j.maze.maze i 0 (maze_index j.maze j.x j.y)) ≡ false
        → Betweens d y_dim ((o >>= marked_by (opened j.maze i)) >>= less_remaining j)
    mark i none e p way h = 0
    mark i (some s) e p way h =
        let m = opened j.maze i in
        let cur = maze_index j.maze j.x j.y in
        record {
          x_size = w.x_size;
          y_size = w.y_size;
          parts =
              marked-Parts m j.remaining cur s p way
                (mark_maze_area-Found m.maze_x_dim m.maze_y_dim m.maze cur p.lattice
                  (Spot-IsRoom j.maze j.x j.y spot) (cells_of j.maze) s h (sym e))
                ((mark_maze_area-Stays (cells_of j.maze) m.maze_x_dim cur m.maze s (sym e)).0);
          spot = record {
            a = spot.a;
            b = spot.b;
            column = spot.column;
            row = spot.row;
            at_x = spot.at_x;
            at_y = spot.at_y;
          };
        }

    go :
        (o : Option Maze)
        → Knocks j.maze j.remaining (maze_index j.maze j.x j.y) o
        → Betweens d y_dim (after_knock j o)
    go none k = w
    go (some m') k =
        let index = spot_index j.maze j.x j.y spot.a spot.b spot.at_x spot.at_y in
        subst (λ m. Betweens d y_dim (mark_more j m)) (sym k.1)
          (mark k.0 _ refl k.2.0 k.2.1 (
            subst (λ c. is_reached (store j.maze.maze k.0 0 c) ≡ false) (sym index)
              (ap is_reached
                  (k.2.2 spot.a spot.b spot.column spot.row ∙ ap (λ i. j.maze.maze i) (sym index))
                ∙ hidden)))
