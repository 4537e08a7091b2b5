-- ===== src/Maze/Worms.antt =====
-- All worms: when they are done, every room is open.
use ece391_computer_systems.Base.{
  ℕ, zero, suc, ◌+◌, ◌-◌, ◌*◌, ◌%◌, ◌≤◌, ◌<◌, ◌≡◌, false, not, ltb, if◌then◌else◌, Bool-cases, inl,
  inr, List, [], ◌∷◌, Option, none, some, ◌>>=◌, arith, refl, ◌∙◌, sym, subst,
}
use ece391_computer_systems.Maze.{Maze, maze_index, square, is_wall}
use ece391_computer_systems.Maze.Squares.{pick_square}
use ece391_computer_systems.Maze.Making.{walled}
use ece391_computer_systems.Maze.Crawler.{Worm, is_full, worm_at, start_worm, drop_worm, worms}
use ece391_computer_systems.Maze.Lattice.{Lattice, room}
use ece391_computer_systems.Maze.Rooms.{count_rooms-all}
use ece391_computer_systems.Maze.Digging.{
  Dug, InRoom, Picked, pick_square-Picked, open_room, opened,
}
use ece391_computer_systems.Maze.Crawling.{Dig, worm_loop-Dig, place_eq}

pub drop_worm-Dig :
    (m : Maze) (remaining : ℕ) (random : List ℕ)
    → 1 < m.maze_x_dim
    → 0 < m.maze_y_dim
    → Dug m remaining
    → Dig m.maze_x_dim m.maze_y_dim (remaining - 1) (drop_worm m remaining random)
unfolding drop_worm
drop_worm-Dig m remaining random h k d =
    go (pick_square m (λ c. not (is_wall c)) random)
      (pick_square-Picked m (λ c. not (is_wall c)) random (omega arith) k)
  where
    full : (c n : ℕ) → c ≤ 1 → not (is_wall c) ≡ false → (if is_full c then n - 1 else n) ≡ n - 1
    full c n h e = ground arith

    le_self : (n : ℕ) → n ≤ n
    le_self n = omega arith

    mod_four : (r : ℕ) → r % 4 < 4
    mod_four r = omega arith

    go :
        (o : Option (ℕ × ℕ × List ℕ))
        → Picked m (λ c. not (is_wall c)) o
        → Dig m.maze_x_dim m.maze_y_dim
            (remaining - 1)
            (o >>= λ p. start_worm m remaining p.0 p.1 p.2)
    go none f = 0
    go (some (x, y, [])) f = 0
    go (some (x, y, (r ∷ rest))) (a, b, l, u, e, g, w) =
        let r' : y + 1 ≡ 2 * b + 2 = omega (arith, g) in
        let i : maze_index m x y ≡ room m.maze_x_dim a b = place_eq m.maze_x_dim e r' in
        let o = open_room m remaining a b l u d in
        let o' =
          subst (λ j. Dug (opened m j) (if is_full (m.maze j) then remaining - 1 else remaining))
            (sym i) o in
        worm_loop-Dig m.maze_x_dim m.maze_y_dim (remaining - 1) rest (worm_at m x y r remaining) h
          refl refl
          (record { a = a; b = b; column = l; row = u; at_x = e; at_y = g; dir = mod_four r })
          (subst (Dug (opened m (maze_index m x y)))
            (full (square m x y) remaining (d.binary (maze_index m x y)) w) o')
          (le_self (remaining - 1))

-- At the end of all worms.
abbrev pub AllDug : ℕ → ℕ → Option (Worm × List ℕ) → Type 0
AllDug d y_dim none = ℕ
AllDug d y_dim (some p) =
    (p.0.maze.maze_x_dim ≡ d)
    × (p.0.maze.maze_y_dim ≡ y_dim)
    × InRoom p.0
    × Dug p.0.maze p.0.remaining
    × (p.0.remaining ≡ 0)

pub worms-AllDug :
    (d y_dim fuel : ℕ) (m : Maze) (remaining : ℕ) (random : List ℕ)
    → 1 < d
    → 0 < y_dim
    → m.maze_x_dim ≡ d
    → m.maze_y_dim ≡ y_dim
    → Dug m remaining
    → AllDug d y_dim (worms fuel m remaining random)
unfolding worms
worms-AllDug d y_dim zero m remaining random h k e f g = 0
worms-AllDug d y_dim (suc fuel) m remaining random h k e f g =
    go (drop_worm m remaining random)
      (drop_worm-Dig m remaining random (subst (λ n. 1 < n) (sym e) h)
        (subst (λ n. 0 < n) (sym f) k) g)
      (λ m' n rest a b q. worms-AllDug d y_dim fuel m' n rest h k a b q)
  where
    go :
        (o : Option (Worm × List ℕ))
        → Dig m.maze_x_dim m.maze_y_dim (remaining - 1) o
        → ((m' : Maze) (n : ℕ) (rest : List ℕ)
            → m'.maze_x_dim ≡ d
            → m'.maze_y_dim ≡ y_dim
            → Dug m' n
            → AllDug d y_dim (worms fuel m' n rest))
        → AllDug d y_dim (
            o >>= λ dug.
            if ltb 0 dug.0.remaining then worms fuel dug.0.maze dug.0.remaining dug.1 else some dug)
    go none i ih = 0
    go (some p) (a, b, i, q, l) ih = elim (Bool-cases (ltb 0 p.0.remaining)) [
      | inl t ↦
          subst (λ c. AllDug d y_dim (if c then worms fuel p.0.maze p.0.remaining p.1 else some p))
            (sym t) (ih p.0.maze p.0.remaining p.1 (a ∙ e) (b ∙ f) q)
      | inr t ↦
          subst (λ c. AllDug d y_dim (if c then worms fuel p.0.maze p.0.remaining p.1 else some p))
            (sym t) (a ∙ e, b ∙ f, i, q, ground arith)
    ]

pub walled-Dug : (m : Maze) (x_dim y_dim : ℕ) → Dug (walled m x_dim y_dim) (x_dim * y_dim)
unfolding Lattice
walled-Dug m x_dim y_dim = record {
  lattice = λ x r h k. refl;
  binary = λ i. omega arith;
  counted = sym (count_rooms-all is_wall x_dim y_dim (λ i. 1) (λ a b h k. refl));
}
