-- ===== src/Maze/Connected.antt =====
-- The maze that the worms and the joining leave behind.
use ece391_computer_systems.Base.{
  ℕ, ◌-◌, ◌*◌, ◌%◌, ◌≤◌, ◌<◌, ◌≡◌, inl, inr, Bool, true, false, not, List, Option, none, some,
  ◌>>=◌, arith, refl, ap, ◌∙◌, sym, subst,
}
use ece391_computer_systems.Maze.{Maze, maze_index, is_wall, is_reached}
use ece391_computer_systems.Maze.Fruits.{cells_of}
use ece391_computer_systems.Maze.Marking.{Search, mark_maze_area}
use ece391_computer_systems.Maze.Ways.{Way}
use ece391_computer_systems.Maze.Making.{
  start_joining, join_rounds, join_parts, clear_columns, dig_maze, cleared, walled,
}
use ece391_computer_systems.Maze.Joiner.{Joined, marked_by, join_all}
use ece391_computer_systems.Maze.Crawler.{Worm, worms}
use ece391_computer_systems.Maze.Lattice.{Lattice, room, IsRoom}
use ece391_computer_systems.Maze.Rooms.{count_rooms-all, count_rooms-none}
use ece391_computer_systems.Maze.Digging.{Dug, InRoom}
use ece391_computer_systems.Maze.Crawling.{place_eq}
use ece391_computer_systems.Maze.Worms.{AllDug, worms-AllDug, walled-Dug}
use ece391_computer_systems.Maze.Neighbours.{Way-IsRoom}
use ece391_computer_systems.Maze.Finding.{is_hidden, mark_maze_area-Found, mark_maze_area-Stays}
use ece391_computer_systems.Maze.Joining.{Parts, Way-open}
use ece391_computer_systems.Maze.JoinRounds.{AllJoined, join_all-AllJoined}
use ece391_computer_systems.Maze.Clearing.{Clears, clear_columns-Clears, clear_columns-Clean}

-- The border and the squares with two even coordinates are walls, the rooms are open, and every room
-- is connected to the first.
pub record IsMaze (m : Maze) : Type 0 where
  pub lattice : Lattice m.maze_x_dim m.maze_y_dim m.maze
  pub open_rooms :
      (a b : ℕ)
      → a < m.maze_x_dim
      → b < m.maze_y_dim
      → is_wall (m.maze (room m.maze_x_dim a b)) ≡ false
  pub connected :
      (a b : ℕ)
      → a < m.maze_x_dim
      → b < m.maze_y_dim
      → Way m.maze_x_dim m.maze (room m.maze_x_dim 0 0) (room m.maze_x_dim a b)

pub not_marked : (c : ℕ) → c ≤ 1 → is_reached c ≡ false
not_marked c h = ground arith

-- The first search.
pub first-Parts :
    (m : Maze) (s : Search)
    → 0 < m.maze_x_dim
    → 0 < m.maze_y_dim
    → Dug m 0
    → mark_maze_area (cells_of m) m.maze_x_dim (maze_index m 1 1) m.maze ≡ some s
    → Parts (record m { maze = s.cells }) (m.maze_x_dim * m.maze_y_dim - s.q_end)
unfolding Lattice
first-Parts m s h k g e =
    let d = m.maze_x_dim in
    let start : IsRoom d m.maze_y_dim (maze_index m 1 1) = record {
      a = 0;
      b = 0;
      column = h;
      row = k;
      index = refl;
    } in
    let hidden = λ (i : ℕ). not_marked (m.maze i) (g.binary i) in
    let f =
      mark_maze_area-Found d m.maze_y_dim m.maze (maze_index m 1 1) g.lattice start (cells_of m) s
        (hidden (maze_index m 1 1)) e in
    let stays = mark_maze_area-Stays (cells_of m) d (maze_index m 1 1) m.maze s e in
    record {
      lattice = λ x r l u. f.walls _ ∙ g.lattice x r l u;
      open_rooms = λ a b l u.
          f.walls _ ∙ count_rooms-none is_wall d m.maze_y_dim m.maze (sym g.counted) a b l u;
      plain = λ i. subst (λ n. n ≤ 1) (sym (f.low i)) (low (m.maze i) (g.binary i));
      sound = λ i r.
          Way-open s.cells (λ j o. f.walls j ∙ o)
            (elim (f.sound i r) [ inl z ↦ absurd (clash _ z (hidden i)) | inr way ↦ way ]);
      counted = omega (
        arith,
        f.counted,
        count_rooms-all is_hidden d m.maze_y_dim m.maze (λ a b l u. ap not (hidden (room d a b))),
      );
      rooted = stays.1;
    }
  where
    clash : (b : Bool) → b ≡ true → b ≡ false → ⊥
    clash b e f = ground arith

    low : (c : ℕ) → c ≤ 1 → c % 128 ≤ 1
    low c h = omega arith

-- A maze in which no square is reached and no bit but that of a wall is set.
pub record IsFresh (m : Maze) : Type 0 where
  pub plain : (i : ℕ) → m.maze i % 128 ≤ 1
  pub hidden : (i : ℕ) → is_reached (m.maze i) ≡ false

wall_low : (c c' : ℕ) → c' % 128 ≡ c % 128 → is_wall c' ≡ is_wall c
wall_low c c' e = ground arith

-- Clearing the marks.
cleared-IsMaze :
    (m : Maze)
    → 0 < m.maze_x_dim
    → 0 < m.maze_y_dim
    → Parts m 0
    → let m' = clear_columns m.maze_x_dim 1 m in IsMaze m' × IsFresh m'
unfolding Lattice
cleared-IsMaze m h k p =
    let m' = clear_columns m.maze_x_dim 1 m in
    let c = clear_columns-Clears m.maze_x_dim 1 m in
    let walls = λ (i : ℕ). wall_low (m.maze i) (m'.maze i) (c.low i) in
    let e = sym c.x_size in
    let f = sym c.y_size in
    (
      record {
        lattice =
            subst (λ d. Lattice d m'.maze_y_dim m'.maze) e
              (subst (λ n. Lattice m.maze_x_dim n m'.maze) f
                (λ x r l u. walls _ ∙ p.lattice x r l u));
        open_rooms = λ a b l u.
            subst (λ d. is_wall (m'.maze (room d a b)) ≡ false) e
              (walls _
                ∙ p.open_rooms a b (subst (λ d. a < d) c.x_size l) (subst (λ n. b < n) c.y_size u));
        connected = λ a b l u.
            subst (λ d. Way d m'.maze (room d 0 0) (room d a b)) e
              (Way-open m'.maze (λ i o. walls i ∙ o)
                (p.sound (room m.maze_x_dim a b) (
                  shown _ (
                    count_rooms-none is_hidden m.maze_x_dim m.maze_y_dim m.maze (sym p.counted) a b
                      (subst (λ d. a < d) c.x_size l) (subst (λ n. b < n) c.y_size u)))));
      },
      record {
        plain = λ i. subst (λ n. n ≤ 1) (sym (c.low i)) (p.plain i);
        hidden = λ i. hide c i (is_reached (m.maze i)) refl;
      },
    )
  where
    shown : (b : Bool) → not b ≡ false → b ≡ true
    shown b e = ground arith

    hide :
        Clears m (clear_columns m.maze_x_dim 1 m)
        → (i : ℕ) (b : Bool) → is_reached (m.maze i) ≡ b
        → is_reached ((clear_columns m.maze_x_dim 1 m).maze i) ≡ false
    hide c i false e = c.fewer i e
    hide c i true e =
        let r =
          Way-IsRoom m.maze_x_dim m.maze_y_dim m.maze p.lattice
            (record { a = 0; b = 0; column = h; row = k; index = refl }) (p.sound i e) in
        subst (λ i. is_reached ((clear_columns m.maze_x_dim 1 m).maze i) ≡ false)
          (place_eq m.maze_x_dim (omega arith) (omega arith) ∙ sym r.index)
          (clear_columns-Clean m.maze_x_dim 1 r.a r.b m r.column r.row)

-- What the digging leads to.
abbrev pub DigsTo : ℕ → ℕ → Option (Maze × List ℕ) → Type 0
DigsTo d y_dim none = ℕ
DigsTo d y_dim (some r) = (r.0.maze_x_dim ≡ d) × (r.0.maze_y_dim ≡ y_dim) × IsMaze r.0 × IsFresh r.0

join_parts-DigsTo :
    (d y_dim : ℕ) (w : Worm) (random : List ℕ)
    → w.maze.maze_x_dim ≡ d
    → w.maze.maze_y_dim ≡ y_dim
    → InRoom w
    → Dug w.maze 0
    → DigsTo d y_dim (join_parts w random >>= cleared)
unfolding join_parts
join_parts-DigsTo d y_dim w random e f i g =
    go (mark_maze_area (cells_of w.maze) w.maze.maze_x_dim (maze_index w.maze 1 1) w.maze.maze) refl
  where
    ended : (o : Option (Joined × List ℕ)) → AllJoined d y_dim o → DigsTo d y_dim (o >>= cleared)
    ended none a = 0
    ended (some r) (b, z) =
        let s = b.spot in
        let m =
          cleared-IsMaze r.0.maze (omega (arith, s.column)) (omega (arith, s.row))
            (subst (Parts r.0.maze) z b.parts) in
        let c = clear_columns-Clears r.0.maze.maze_x_dim 1 r.0.maze in
        (c.x_size ∙ b.x_size, c.y_size ∙ b.y_size, m.0, m.1)

    go :
        (o : Option Search)
        → mark_maze_area (cells_of w.maze) w.maze.maze_x_dim (maze_index w.maze 1 1) w.maze.maze ≡ o
        → DigsTo d y_dim (
            ((o >>= marked_by w.maze) >>= λ marked.
            join_all (join_rounds w.maze) (start_joining w marked) random)
            >>= cleared)
    go none z = 0
    go (some s) z =
        let j = start_joining w (record w.maze { maze = s.cells }, s.q_end) in
        ended (join_all (join_rounds w.maze) j random) (
          join_all-AllJoined d y_dim (join_rounds w.maze) j random (record {
            x_size = e;
            y_size = f;
            parts = first-Parts w.maze s (omega (arith, i.column)) (omega (arith, i.row)) g z;
            spot = record {
              a = i.a;
              b = i.b;
              column = i.column;
              row = i.row;
              at_x = i.at_x;
              at_y = i.at_y;
            };
          }))

pub dig_maze-DigsTo :
    (m : Maze) (d y_dim : ℕ) (random : List ℕ)
    → 1 < d
    → 0 < y_dim
    → DigsTo d y_dim (dig_maze (walled m d y_dim) random)
unfolding dig_maze
dig_maze-DigsTo m d y_dim random h k =
    go (worms (d * y_dim) (walled m d y_dim) (d * y_dim) random) (
      worms-AllDug d y_dim (d * y_dim) (walled m d y_dim) (d * y_dim) random h k refl refl
        (walled-Dug m d y_dim))
  where
    go :
        (o : Option (Worm × List ℕ))
        → AllDug d y_dim o
        → DigsTo d y_dim (o >>= λ dug. (join_parts dug.0 dug.1 >>= cleared))
    go none a = 0
    go (some p) (e, f, i, g, z) = join_parts-DigsTo d y_dim p.0 p.1 e f i (subst (Dug p.0.maze) z g)
