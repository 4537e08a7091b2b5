-- ===== src/Maze/Knocking.antt =====
-- Knocking down a wall beside a reached room connects the room.
use ece391_computer_systems.Base.{
  ℕ, ◌+◌, ◌-◌, ◌*◌, ◌%◌, ◌<◌, ◌≡◌, ◌⊎◌, ◌≢◌, inl, inr, Bool, true, false, ◌&&◌, ltb, if◌then◌else◌,
  Option, none, some, store, arith, refl, ap, ◌∙◌, sym, subst,
}
use ece391_computer_systems.Maze.{Maze, maze_index, is_wall, is_reached}
use ece391_computer_systems.Maze.Ways.{Way, go_up, go_right, go_down, go_left}
use ece391_computer_systems.Maze.Joiner.{knock}
use ece391_computer_systems.Maze.Lattice.{place, solid, Lattice, store-Lattice, room}
use ece391_computer_systems.Maze.Rooms.{count_rooms-other}
use ece391_computer_systems.Maze.Digging.{between_rooms, opened}
use ece391_computer_systems.Maze.Neighbours.{above, below, beside, room_below}
use ece391_computer_systems.Maze.Finding.{is_hidden}
use ece391_computer_systems.Maze.Joining.{
  Way-open, Parts, Spot, spot_index, store_open, store_plain, store_same, store_reached,
  store_other,
}

-- Knocking down the wall at the index `i` connects the square `cur`.
abbrev pub Linked : Maze → ℕ → ℕ → ℕ → Type 0
Linked m remaining cur i =
    Parts (opened m i) remaining
    × Way m.maze_x_dim (store m.maze i 0) (room m.maze_x_dim 0 0) cur
    × ((a b : ℕ)
        → a < m.maze_x_dim
        → b < m.maze_y_dim
        → store m.maze i 0 (room m.maze_x_dim a b) ≡ m.maze (room m.maze_x_dim a b))

link :
    (m : Maze) (remaining cur i x r : ℕ)
    → 0 < m.maze_y_dim
    → i ≡ place m.maze_x_dim x r
    → x < 2 * m.maze_x_dim
    → (x % 2 ≡ 0) ⊎ (r % 2 ≡ 1)
    → solid m.maze_y_dim x r ≡ false
    → Parts m remaining
    → Way m.maze_x_dim (store m.maze i 0) (room m.maze_x_dim 0 0) cur
    → Linked m remaining cur i
link m remaining cur i x r y e h o k p way =
    let d = m.maze_x_dim in
    let apart : (a b : ℕ) → a < d → room d a b ≢ i =
      λ a b l z. between_rooms d x r h o a b l (z ∙ e) in
    (
      record {
        lattice =
            subst (λ i. Lattice d m.maze_y_dim (store m.maze i 0)) (sym e)
              (store-Lattice d m.maze_y_dim x r 0 m.maze h k p.lattice);
        open_rooms = λ a b l u. store_open m.maze i (room d a b) (p.open_rooms a b l u);
        plain = λ j. store_plain m.maze i j (p.plain j);
        sound = λ j t.
            Way-open (store m.maze i 0) (store_open m.maze i)
              (p.sound j (store_reached m.maze i j t));
        counted =
            p.counted
            ∙ sym (count_rooms-other is_hidden d m.maze_y_dim i 0 m.maze (λ a b l u. apart a b l));
        rooted =
            ap is_reached (store_other m.maze i (room d 0 0) (apart 0 0 (positive x d h)))
            ∙ p.rooted;
      },
      way,
      λ a b l u. store_other m.maze i (room d a b) (apart a b l),
    )
  where
    positive : (x d : ℕ) → x < 2 * d → 0 < d
    positive x d h = omega arith

-- What `knock` leads to.
abbrev pub Knocks : Maze → ℕ → ℕ → Option Maze → Type 0
Knocks m remaining cur none = ℕ
Knocks m remaining cur (some m') = (i : ℕ) × (m' ≡ opened m i) × Linked m remaining cur i

and_left : (b c : Bool) → b && c ≡ true → b ≡ true
and_left b c e = ground arith

and_right : (b c : Bool) → b && c ≡ true → c ≡ true
and_right b c e = ground arith

ltb_lt : (a b : ℕ) → ltb a b ≡ true → a < b
ltb_lt a b e = ground arith

module _ (m : Maze) (remaining x y : ℕ) (s : Spot m x y) (p : Parts m remaining) where
  -- A way to a reached square, in the maze with one more open square.
  still_connected :
      (i n : ℕ)
      → is_reached (m.maze n) ≡ true
      → Way m.maze_x_dim (store m.maze i 0) (room m.maze_x_dim 0 0) n
  still_connected i n h = Way-open (store m.maze i 0) (store_open m.maze i) (p.sound n h)

  now_open : (i j : ℕ) → i ≡ j → is_wall (store m.maze i 0 j) ≡ false
  now_open i j e = subst (λ j. is_wall (store m.maze i 0 j) ≡ false) e (store_same m.maze i)

  index : maze_index m x y ≡ room m.maze_x_dim s.a s.b
  index = spot_index m x y s.a s.b s.at_x s.at_y

  link_up :
      1 < y
      → is_reached (m.maze (maze_index m x y - 4 * m.maze_x_dim)) ≡ true
      → Linked m remaining (maze_index m x y) (maze_index m x y - 2 * m.maze_x_dim)
  link_up h r =
      let d = m.maze_x_dim in
      let cur = maze_index m x y in
      let i = cur - 2 * d in
      let n = cur - 4 * d in
      let far : cur ≡ room d s.a (s.b - 1) + 4 * d =
        index
        ∙ ap (λ b. room d s.a b) (omega (arith, s.at_y, h))
        ∙ sym (room_below d s.a (s.b - 1)) in
      link m remaining cur i (2 * s.a + 1) (2 * s.b + 1) (omega (arith, s.row))
        (ap (λ c. c - 2 * d) index ∙ above d s.a s.b) (omega (arith, s.column)) (inr (omega arith))
        (ground (arith, s.at_y, s.row, h)) p
        (subst (Way d (store m.maze i 0) (room d 0 0)) (back cur d _ far)
          (go_down (still_connected i n r) (now_open i (n + 2 * d) (half cur d _ far))))
    where
      half : (c d k : ℕ) → c ≡ k + 4 * d → c - 2 * d ≡ c - 4 * d + 2 * d
      half c d k e = omega (arith, e)

      back : (c d k : ℕ) → c ≡ k + 4 * d → c - 4 * d + 4 * d ≡ c
      back c d k e = omega (arith, e)

  link_left :
      1 < x
      → is_reached (m.maze (maze_index m x y - 2)) ≡ true
      → Linked m remaining (maze_index m x y) (maze_index m x y - 1)
  link_left h r =
      let d = m.maze_x_dim in
      let cur = maze_index m x y in
      let i = cur - 1 in
      let n = cur - 2 in
      link m remaining cur i (2 * s.a) (2 * s.b + 2) (omega (arith, s.row))
        (ap (λ c. c - 1) index ∙ beside d s.a s.b) (omega (arith, s.column)) (inl (omega arith))
        (ground (arith, s.at_x, s.row, h)) p
        (subst (Way d (store m.maze i 0) (room d 0 0)) (back x (y + 1) d h)
          (go_right (still_connected i n r) (now_open i (n + 1) (half x (y + 1) d h))))
    where
      half : (x r d : ℕ) → 1 < x → x + r * d * 2 - 1 ≡ x + r * d * 2 - 2 + 1
      half x r d h = omega arith

      back : (x r d : ℕ) → 1 < x → x + r * d * 2 - 2 + 2 ≡ x + r * d * 2
      back x r d h = omega arith

  link_right :
      x < 2 * m.maze_x_dim - 1
      → is_reached (m.maze (maze_index m x y + 2)) ≡ true
      → Linked m remaining (maze_index m x y) (maze_index m x y + 1)
  link_right h r =
      let d = m.maze_x_dim in
      let cur = maze_index m x y in
      let i = cur + 1 in
      let n = cur + 2 in
      link m remaining cur i (2 * s.a + 2) (2 * s.b + 2) (omega (arith, s.row))
        (ap (λ c. c + 1) index ∙ omega arith) (omega (arith, s.at_x, h)) (inl (omega arith))
        (ground (arith, s.row)) p
        (subst (Way d (store m.maze i 0) (room d 0 0)) (back cur)
          (go_left (still_connected i n r) (now_open i (n - 1) (half cur))))
    where
      half : (c : ℕ) → c + 1 ≡ c + 2 - 1
      half c = omega arith

      back : (c : ℕ) → c + 2 - 2 ≡ c
      back c = omega arith

  link_down :
      y < 2 * m.maze_y_dim - 1
      → is_reached (m.maze (maze_index m x y + 4 * m.maze_x_dim)) ≡ true
      → Linked m remaining (maze_index m x y) (maze_index m x y + 2 * m.maze_x_dim)
  link_down h r =
      let d = m.maze_x_dim in
      let cur = maze_index m x y in
      let i = cur + 2 * d in
      let n = cur + 4 * d in
      link m remaining cur i (2 * s.a + 1) (2 * s.b + 3) (omega (arith, s.row))
        (ap (λ c. c + 2 * d) index ∙ below d s.a s.b) (omega (arith, s.column)) (inr (omega arith))
        (ground (arith, s.at_y, s.row, h)) p
        (subst (Way d (store m.maze i 0) (room d 0 0)) (back cur d)
          (go_up (still_connected i n r) (now_open i (n - 2 * d) (half cur d))))
    where
      half : (c d : ℕ) → c + 2 * d ≡ c + 4 * d - 2 * d
      half c d = omega arith

      back : (c d : ℕ) → c + 4 * d - 4 * d ≡ c
      back c d = omega arith

pub knock-Knocks :
    (m : Maze) (remaining x y : ℕ)
    → Spot m x y
    → Parts m remaining
    → Knocks m remaining (maze_index m x y) (knock m x y)
unfolding knock
knock-Knocks m remaining x y s p =
    one_of (ltb 1 y && is_reached (m.maze (cur - 4 * d))) (ltb 1 x && is_reached (m.maze (cur - 2)))
      (ltb x (2 * d - 1) && is_reached (m.maze (cur + 2)))
      (ltb y (2 * m.maze_y_dim - 1) && is_reached (m.maze (cur + 4 * d)))
      (λ e. link_up m remaining x y s p (ltb_lt _ _ (and_left _ _ e)) (and_right _ _ e))
      (λ e. link_left m remaining x y s p (ltb_lt _ _ (and_left _ _ e)) (and_right _ _ e))
      (λ e. link_right m remaining x y s p (ltb_lt _ _ (and_left _ _ e)) (and_right _ _ e))
      (λ e. link_down m remaining x y s p (ltb_lt _ _ (and_left _ _ e)) (and_right _ _ e))
  where
    d : ℕ
    d = m.maze_x_dim

    cur : ℕ
    cur = maze_index m x y

    one_of :
        (b c e f : Bool)
        → (b ≡ true → Linked m remaining cur (cur - 2 * d))
        → (c ≡ true → Linked m remaining cur (cur - 1))
        → (e ≡ true → Linked m remaining cur (cur + 1))
        → (f ≡ true → Linked m remaining cur (cur + 2 * d))
        → Knocks m remaining cur (
            if b
            then some (opened m (cur - 2 * d))
            else if c
            then some (opened m (cur - 1))
            else if e
            then some (opened m (cur + 1))
            else if f
            then some (opened m (cur + 2 * d))
            else none)
    one_of true c e f up left right down = (cur - 2 * d, refl, up refl)
    one_of false true e f up left right down = (cur - 1, refl, left refl)
    one_of false false true f up left right down = (cur + 1, refl, right refl)
    one_of false false false true up left right down = (cur + 2 * d, refl, down refl)
    one_of false false false false up left right down = 0
