-- ===== src/Maze/Returns.antt =====
-- With some random numbers make_maze returns.
use ece391_computer_systems.Base.{
  ℕ, ◌*◌, ◌%◌, ◌≤◌, ◌<◌, ◌≡◌, false, not, if◌then◌else◌, List, [], ◌++◌, some, ◌>>=◌, success,
  failure, arith, refl, ap, ◌∙◌, sym, subst,
}
use mathlib.Core.List.{append_assoc, append-nil}
use ece391_computer_systems.Maze.{Maze}
use ece391_computer_systems.Maze.Squares.{Scene, has_fruit}
use ece391_computer_systems.Maze.Making.{
  join_parts, clear_columns, cleared, dig_maze, walled, add_fruits, put_exit, furnish, made,
  build_maze, bad_size, make_maze,
}
use ece391_computer_systems.Maze.Crawler.{worms}
use ece391_computer_systems.Maze.Rooms.{count_rooms-all}
use ece391_computer_systems.Maze.Digging.{Dug}
use ece391_computer_systems.Maze.Worms.{AllDug, worms-AllDug, walled-Dug}
use ece391_computer_systems.Maze.Connected.{DigsTo, dig_maze-DigsTo}
use ece391_computer_systems.Maze.Returning.{Yields}
use ece391_computer_systems.Maze.Worming.{worms-Yields}
use ece391_computer_systems.Maze.Yielding.{
  is_bare, bare_rooms, add_fruits-Yields, put_exit-Yields, join_parts-Yields,
}

dig_maze-Yields :
    (m : Maze) (d y_dim : ℕ) → 1 < d → 0 < y_dim → Yields (dig_maze (walled m d y_dim))
unfolding dig_maze
dig_maze-Yields m d y_dim h k =
    let w = walled m d y_dim in
    let y =
      worms-Yields (d * y_dim) w (d * y_dim) h k (positive d y_dim h k) (same (d * y_dim))
        (walled-Dug m d y_dim) in
    let a : AllDug d y_dim (some (y.1, [])) = subst (AllDug d y_dim) (y.2 []) (
      worms-AllDug d y_dim (d * y_dim) w (d * y_dim) (y.0 ++ []) h k refl refl
        (walled-Dug m d y_dim)) in
    let z = join_parts-Yields y.1 a.2 (subst (λ n. Dug y.1.maze n) a.4 a.3) in
    (
      y.0 ++ z.0,
      clear_columns z.1.maze.maze_x_dim 1 z.1.maze,
      λ rest.
          ap
            (λ random. worms (d * y_dim) w (d * y_dim) random >>= λ dug.
              (join_parts dug.0 dug.1 >>= cleared))
            (append_assoc y.0 z.0 rest)
          ∙ ap (λ o. o >>= λ dug. (join_parts dug.0 dug.1 >>= cleared)) (y.2 (z.0 ++ rest))
          ∙ ap (λ o. o >>= cleared) (z.2 rest),
    )
  where
    positive : (d n : ℕ) → 1 < d → 0 < n → 0 < d * n
    positive d n h k = grind arith

    same : (n : ℕ) → n ≤ n
    same n = omega arith

-- The parts of make_maze, one behind the other.
assembled :
    (blocks : ℕ → ℕ → ℕ) (s : Scene) (x_dim y_dim start_fruits : ℕ) (r1 r2 r3 : List ℕ) (m : Maze)
    (t u : Scene)
    → bad_size x_dim y_dim ≡ false
    → ((rest : List ℕ) → dig_maze (walled s.maze x_dim y_dim) (r1 ++ rest) ≡ some (m, rest))
    → ((rest : List ℕ)
        → add_fruits blocks start_fruits
            (record s { maze = record m { n_fruits = 0 } })
            (r2 ++ rest)
          ≡ some (t, rest))
    → ((rest : List ℕ) → put_exit t (r3 ++ rest) ≡ some (u, rest))
    → make_maze blocks s x_dim y_dim start_fruits (r1 ++ (r2 ++ r3)) ≡ some (u, [], success)
unfolding make_maze
assembled blocks s x_dim y_dim start_fruits r1 r2 r3 m t u good dig sow exit =
    ap
      (λ b.
        if b
        then some (s, r1 ++ (r2 ++ r3), failure)
        else build_maze blocks s x_dim y_dim start_fruits (r1 ++ (r2 ++ r3)))
      good
    ∙ ap
        (λ o. o >>= λ dug. (furnish blocks start_fruits (record s { maze = dug.0 }) dug.1 >>= made))
        (dig (r2 ++ r3))
    ∙ ap (λ o. (o >>= λ sown. put_exit sown.0 sown.1) >>= made) (sow r3)
    ∙ ap (λ random. put_exit t random >>= made) (sym (append-nil r3))
    ∙ ap (λ o. o >>= made) (exit [])

-- Each size of 14 x 8 to 50 x 30, with fewer fruits than squares with two odd coordinates, has random
-- numbers with which make_maze returns.
pub make_maze_returns :
    (blocks : ℕ → ℕ → ℕ) (s : Scene) (x_dim y_dim start_fruits : ℕ)
    → bad_size x_dim y_dim ≡ false
    → start_fruits < x_dim * y_dim
    → (random : List ℕ) × (s' : Scene) × (make_maze blocks s x_dim y_dim start_fruits random
        ≡ some (s', [], success))
make_maze_returns blocks s x_dim y_dim start_fruits good few =
    let dig = dig_maze-Yields s.maze x_dim y_dim (ground arith) (ground arith) in
    let d : DigsTo x_dim y_dim (some (dig.1, [])) =
      subst (DigsTo x_dim y_dim) (dig.2 [])
        (dig_maze-DigsTo s.maze x_dim y_dim (dig.0 ++ []) (ground arith) (ground arith)) in
    let s0 : Scene = record s { maze = record dig.1 { n_fruits = 0 } } in
    let room_for : start_fruits < bare_rooms s0.maze =
      subst (λ n. start_fruits < n)
        (sym (
          count_rooms-all is_bare dig.1.maze_x_dim dig.1.maze_y_dim dig.1.maze
            (λ a b h k. ap not (no_fruit _ (d.3.plain _)))
          ∙ ap (λ n. n * dig.1.maze_y_dim) d.0
          ∙ ap (λ n. x_dim * n) d.1))
        few in
    let sow = add_fruits-Yields blocks start_fruits s0 room_for in
    let exit = put_exit-Yields sow.0.1 sow.1 in
    (
      dig.0 ++ (sow.0.0 ++ exit.0),
      exit.1,
      assembled blocks s x_dim y_dim start_fruits dig.0 sow.0.0 exit.0 dig.1 sow.0.1 exit.1 good
          dig.2 sow.0.2 exit.2,
    )
  where
    no_fruit : (c : ℕ) → c % 128 ≤ 1 → has_fruit c ≡ false
    no_fruit c h = ground arith
