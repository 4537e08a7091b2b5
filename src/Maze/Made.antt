-- ===== src/Maze/Made.antt =====
-- make_maze as a whole: the maze that it makes.
use ece391_computer_systems.Base.{
  ℕ, zero, suc, ◌+◌, ◌*◌, ◌%◌, ◌≤◌, ◌<◌, ◌≡◌, false, if◌then◌else◌, List, Option, none, some, ◌>>=◌,
  ℤ, success, failure, arith, refl, ap, ◌∙◌, sym, subst,
}
use ece391_computer_systems.ModeX.{View}
use ece391_computer_systems.Maze.{Maze, is_wall, is_reached, is_exit}
use ece391_computer_systems.Maze.Squares.{Scene, has_fruit}
use ece391_computer_systems.Maze.Counting.{Counted, count_fruits}
use ece391_computer_systems.Maze.Fruits.{cells_of}
use ece391_computer_systems.Maze.Ways.{Way}
use ece391_computer_systems.Maze.Making.{
  add_fruits, put_exit, dig_maze, walled, furnish, made, build_maze, bad_size, make_maze,
}
use ece391_computer_systems.Maze.Lattice.{Lattice, room}
use ece391_computer_systems.Maze.Joining.{Way-open}
use ece391_computer_systems.Maze.Connected.{IsMaze, IsFresh, DigsTo, dig_maze-DigsTo}
use ece391_computer_systems.Maze.Furnishing.{SameWalls, SameWalls-SameWalls}
use ece391_computer_systems.Maze.ExitPlace.{HasExit, Exits, put_exit-Exits}
use ece391_computer_systems.Maze.Sowing.{Sows, add_fruits-Sows}

-- The fruits and the exit of a maze that the player has not seen.
pub record IsFurnished (start_fruits : ℕ) (m : Maze) : Type 0 where
  pub hidden : (i : ℕ) → is_reached (m.maze i) ≡ false
  pub fruits : m.n_fruits ≡ start_fruits
  pub counted : Counted (cells_of m) m
  pub exit : HasExit m
  pub inside : (i : ℕ) → cells_of m ≤ i → has_fruit (m.maze i) ≡ false

no_fruit : (c : ℕ) → c % 128 ≤ 1 → has_fruit c ≡ false
no_fruit c h = ground arith

no_exit : (c : ℕ) → c % 128 ≤ 1 → is_exit c ≡ false
no_exit c h = ground arith

count_none :
    (n : ℕ) (cells : ℕ → ℕ) → ((i : ℕ) → has_fruit (cells i) ≡ false) → count_fruits n cells ≡ 0
unfolding count_fruits
count_none zero cells h = refl
count_none (suc n) cells h = ground (arith, h n, count_none n cells h)

-- The maze stays one when its walls do.
SameWalls-IsMaze : (m m' : Maze) → SameWalls m m' → IsMaze m → IsMaze m'
unfolding Lattice
SameWalls-IsMaze m m' w z =
    let e = sym w.x_size in
    record {
      lattice =
          subst (λ d. Lattice d m'.maze_y_dim m'.maze) e
            (subst (λ n. Lattice m.maze_x_dim n m'.maze) (sym w.y_size)
              (λ x r l u. w.walls _ ∙ z.lattice x r l u));
      open_rooms = λ a b l u.
          subst (λ d. is_wall (m'.maze (room d a b)) ≡ false) e
            (w.walls _
              ∙ z.open_rooms a b (subst (λ d. a < d) w.x_size l) (subst (λ n. b < n) w.y_size u));
      connected = λ a b l u.
          subst (λ d. Way d m'.maze (room d 0 0) (room d a b)) e
            (Way-open m'.maze (λ i o. w.walls i ∙ o)
              (z.connected a b (subst (λ d. a < d) w.x_size l) (subst (λ n. b < n) w.y_size u)));
    }

-- What comes out of make_maze for a good size.
abbrev pub Makes : View → ℕ → ℕ → ℕ → Option (Scene × List ℕ × ℤ) → Type 0
Makes v x_dim y_dim start_fruits none = ℕ
Makes v x_dim y_dim start_fruits (some (s, rest, r)) =
    (r ≡ success)
    × (s.maze.maze_x_dim ≡ x_dim)
    × (s.maze.maze_y_dim ≡ y_dim)
    × IsMaze s.maze
    × IsFurnished start_fruits s.maze
    × (s.view ≡ v)

cells_bound : (d n : ℕ) → d ≤ 50 → n ≤ 30 → 2 * d * (2 * n + 3) + 1 < 4294967295
cells_bound d n h k = bounded (2 * d) (2 * n + 3) (omega arith) (omega arith)
  where
    bounded : (a b : ℕ) → a ≤ 100 → b ≤ 63 → a * b + 1 < 4294967295
    bounded a b h k = grind arith

furnish-Makes :
    (blocks : ℕ → ℕ → ℕ) (x_dim y_dim start_fruits : ℕ) (s : Scene) (random : List ℕ)
    → x_dim ≤ 50
    → y_dim ≤ 30
    → 0 < x_dim
    → 0 < y_dim
    → start_fruits < 4294967296
    → s.maze.maze_x_dim ≡ x_dim
    → s.maze.maze_y_dim ≡ y_dim
    → IsMaze s.maze
    → IsFresh s.maze
    → Makes s.view x_dim y_dim start_fruits (furnish blocks start_fruits s random >>= made)
unfolding Counted
furnish-Makes blocks x_dim y_dim start_fruits s random h k h' k' few e f z fresh =
    go (add_fruits blocks start_fruits s0 random) (
      add_fruits-Sows blocks start_fruits s0 random (subst (λ d. 0 < d) (sym e) h')
        (subst (λ d. 0 < d) (sym f) k')
        (cells_bound s.maze.maze_x_dim s.maze.maze_y_dim (omega arith) (omega arith)) (omega arith)
        (sym (
          count_none (cells_of s.maze) s.maze.maze
            (λ i. no_fruit (s.maze.maze i) (fresh.plain i)))))
  where
    s0 : Scene
    s0 = record s { maze = record s.maze { n_fruits = 0 } }

    recount :
        (m m' : Maze)
        → m'.maze_x_dim ≡ m.maze_x_dim
        → m'.maze_y_dim ≡ m.maze_y_dim
        → cells_of m' ≡ cells_of m
    recount m m' e f =
        ap (λ d. 2 * d * (2 * m'.maze_y_dim + 3) + 1) e
        ∙ ap (λ d. 2 * m.maze_x_dim * (2 * d + 3) + 1) f

    finished :
        (r : Scene × List ℕ)
        → SameWalls s0.maze r.0.maze
        → r.0.maze.n_fruits ≡ start_fruits
        → Counted (cells_of s0.maze) r.0.maze
        → ((i : ℕ) → cells_of s0.maze ≤ i → has_fruit (r.0.maze.maze i) ≡ has_fruit (s.maze.maze i))
        → r.0.view ≡ s.view
        → (o : Option (Scene × List ℕ)) → Exits r.0 o
        → Makes s.view x_dim y_dim start_fruits (o >>= made)
    finished r w n c b v none x = 0
    finished r w n c b v (some t) (w', n', c', x, same, v') =
        let all = SameWalls-SameWalls s0.maze r.0.maze t.0.maze w w' in
        let start : IsMaze s0.maze = record {
          lattice = z.lattice;
          open_rooms = z.open_rooms;
          connected = z.connected;
        } in
        (
          refl,
          all.x_size ∙ e,
          all.y_size ∙ f,
          SameWalls-IsMaze s0.maze t.0.maze all start,
          record {
            hidden = λ i. all.marks i ∙ fresh.hidden i;
            fruits = n' ∙ n;
            counted =
                n'
                ∙ c
                ∙ ap (λ i. count_fruits i r.0.maze.maze)
                    (sym (recount s0.maze r.0.maze w.x_size w.y_size))
                ∙ sym c'
                ∙ ap (λ i. count_fruits i t.0.maze.maze)
                    (sym (recount r.0.maze t.0.maze w'.x_size w'.y_size));
            exit = x;
            inside = λ i far.
                same i
                ∙ b i (
                    subst (λ n. n ≤ i)
                      (recount r.0.maze t.0.maze w'.x_size w'.y_size
                        ∙ recount s0.maze r.0.maze w.x_size w.y_size)
                      far)
                ∙ no_fruit (s.maze.maze i) (fresh.plain i);
          },
          v' ∙ v,
        )

    go :
        (o : Option (Scene × List ℕ))
        → Sows start_fruits s0 o
        → Makes s.view x_dim y_dim start_fruits ((o >>= λ sown. put_exit sown.0 sown.1) >>= made)
    go none p = 0
    go (some r) (w, n, x, c, b, v) = finished r w (n ∙ omega arith) c b v (put_exit r.0 r.1) (
        put_exit-Exits r.0 r.1 (subst (λ d. 0 < d) (sym (w.x_size ∙ e)) h')
          (subst (λ d. 0 < d) (sym (w.y_size ∙ f)) k')
          (λ i. x i ∙ no_exit (s.maze.maze i) (fresh.plain i)))

build_maze-Makes :
    (blocks : ℕ → ℕ → ℕ) (s : Scene) (x_dim y_dim start_fruits : ℕ) (random : List ℕ)
    → bad_size x_dim y_dim ≡ false
    → start_fruits < 4294967296
    → Makes s.view x_dim y_dim start_fruits (build_maze blocks s x_dim y_dim start_fruits random)
build_maze-Makes blocks s x_dim y_dim start_fruits random good few =
    go (dig_maze (walled s.maze x_dim y_dim) random)
      (dig_maze-DigsTo s.maze x_dim y_dim random (ground arith) (ground arith))
  where
    go :
        (o : Option (Maze × List ℕ))
        → DigsTo x_dim y_dim o
        → Makes s.view x_dim y_dim start_fruits
            (o >>= λ dug. (furnish blocks start_fruits (record s { maze = dug.0 }) dug.1 >>= made))
    go none p = 0
    go (some r) (e, f, z, fresh) =
        furnish-Makes blocks x_dim y_dim start_fruits (record s { maze = r.0 }) r.1 (ground arith)
          (ground arith) (ground arith) (ground arith) few e f z fresh

pub make_maze-Makes :
    (blocks : ℕ → ℕ → ℕ) (s : Scene) (x_dim y_dim start_fruits : ℕ) (random : List ℕ)
    → bad_size x_dim y_dim ≡ false
    → start_fruits < 4294967296
    → Makes s.view x_dim y_dim start_fruits (make_maze blocks s x_dim y_dim start_fruits random)
unfolding make_maze
make_maze-Makes blocks s x_dim y_dim start_fruits random good few =
    subst
      (λ b. Makes s.view x_dim y_dim start_fruits (
        if b
        then some (s, random, failure)
        else build_maze blocks s x_dim y_dim start_fruits random))
      (sym good) (build_maze-Makes blocks s x_dim y_dim start_fruits random good few)

module _ (blocks : ℕ → ℕ → ℕ) (s : Scene) (x_dim y_dim start_fruits : ℕ) (random : List ℕ) where
  -- When make_maze returns for a size of 14 x 8 to 50 x 30, it returns 0, and the maze has that
  -- size. Its border and the squares with two even coordinates are walls, the squares with two odd
  -- coordinates are open, and each of these is connected to (1, 1) over open squares.
  pub make_maze-IsMaze :
      (s' : Scene) (rest : List ℕ) (result : ℤ)
      → bad_size x_dim y_dim ≡ false
      → start_fruits < 4294967296
      → make_maze blocks s x_dim y_dim start_fruits random ≡ some (s', rest, result)
      → (result ≡ success)
        × (s'.maze.maze_x_dim ≡ x_dim)
        × (s'.maze.maze_y_dim ≡ y_dim)
        × IsMaze s'.maze
  make_maze-IsMaze s' rest result good few e =
      let m : Makes s.view x_dim y_dim start_fruits (some (s', rest, result)) =
        subst (Makes s.view x_dim y_dim start_fruits) e
          (make_maze-Makes blocks s x_dim y_dim start_fruits random good few) in
      (m.0, m.1, m.2, m.3)

  -- When make_maze returns for a size of 14 x 8 to 50 x 30, no square is reached, n_fruits is the
  -- number of fruits that was asked for and the number of the squares with a fruit, all of which are
  -- squares of the maze, and the square of the exit is the only one that is marked as such, and has
  -- no fruit.
  pub make_maze-IsFurnished :
      (s' : Scene) (rest : List ℕ) (result : ℤ)
      → bad_size x_dim y_dim ≡ false
      → start_fruits < 4294967296
      → make_maze blocks s x_dim y_dim start_fruits random ≡ some (s', rest, result)
      → IsFurnished start_fruits s'.maze
  make_maze-IsFurnished s' rest result good few e =
      let m : Makes s.view x_dim y_dim start_fruits (some (s', rest, result)) =
        subst (Makes s.view x_dim y_dim start_fruits) e
          (make_maze-Makes blocks s x_dim y_dim start_fruits random good few) in
      m.4
