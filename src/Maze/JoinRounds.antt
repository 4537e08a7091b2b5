-- ===== src/Maze/JoinRounds.antt =====
-- The rounds of the second phase keep what is reached connected.
use ece391_computer_systems.Base.{
  ℕ, zero, suc, ◌+◌, ◌-◌, ◌*◌, ◌≡◌, Bool, true, false, ltb, if◌then◌else◌, List, Option, none, some,
  ◌>>=◌, arith, refl,
}
use ece391_computer_systems.Maze.{square, is_reached}
use ece391_computer_systems.Maze.Squares.{pick_square}
use ece391_computer_systems.Maze.Joiner.{
  Joined, join, scan_on, with_rest, count_trial, scans, scan_round, random_round, join_round,
  join_all,
}
use ece391_computer_systems.Maze.Digging.{Picked, pick_square-Picked}
use ece391_computer_systems.Maze.Joining.{Spot}
use ece391_computer_systems.Maze.Connecting.{Between, Betweens, join-Betweens}

-- The next square of the scan is a room.
pub scan_on-Between : (d y_dim : ℕ) (j : Joined) → Between d y_dim j → Between d y_dim (scan_on j)
scan_on-Between d y_dim j w = record {
  x_size = w.x_size;
  y_size = w.y_size;
  parts = w.parts;
  spot =
      next (ltb (j.maze.maze_x_dim * 2) (j.x + 2)) (ltb (2 * j.maze.maze_y_dim) (j.y + 2)) refl
        refl;
}
  where
    spot : Spot j.maze j.x j.y
    spot = w.spot

    next :
        (b c : Bool)
        → ltb (j.maze.maze_x_dim * 2) (j.x + 2) ≡ b
        → ltb (2 * j.maze.maze_y_dim) (j.y + 2) ≡ c
        → Spot j.maze
            (if b then j.x + 2 - j.maze.maze_x_dim * 2 else j.x + 2)
            (if b then (if c then j.y + 2 - 2 * j.maze.maze_y_dim else j.y + 2) else j.y)
    next false c e f = record {
      a = spot.a + 1;
      b = spot.b;
      column = ground (arith, spot.at_x, e);
      row = spot.row;
      at_x = omega (arith, spot.at_x);
      at_y = spot.at_y;
    }
    next true false e f = record {
      a = 0;
      b = spot.b + 1;
      column = omega (arith, spot.column);
      row = ground (arith, spot.at_y, f);
      at_x = ground (arith, spot.at_x, spot.column, e);
      at_y = omega (arith, spot.at_y);
    }
    next true true e f = record {
      a = 0;
      b = 0;
      column = omega (arith, spot.column);
      row = omega (arith, spot.row);
      at_x = ground (arith, spot.at_x, spot.column, e);
      at_y = ground (arith, spot.at_y, spot.row, f);
    }

pub count_trial-Between :
    (d y_dim : ℕ) (j : Joined) → Between d y_dim j → Between d y_dim (count_trial j)
count_trial-Between d y_dim j w = record {
  x_size = w.x_size;
  y_size = w.y_size;
  parts = w.parts;
  spot = w.spot;
}

pub scan_round-Between :
    (d y_dim : ℕ) (j : Joined) → Between d y_dim j → Betweens d y_dim (scan_round j)
unfolding scan_round
scan_round-Between d y_dim j w =
    let j' = scan_on (count_trial j) in
    let w' = scan_on-Between d y_dim (count_trial j) (count_trial-Between d y_dim j w) in
    go (is_reached (square j'.maze j'.x j'.y)) refl w'
  where
    j' : Joined
    j' = scan_on (count_trial j)

    go :
        (b : Bool)
        → is_reached (square j'.maze j'.x j'.y) ≡ b
        → Between d y_dim j'
        → Betweens d y_dim (if b then some j' else join j')
    go true e w' = w'
    go false e w' = join-Betweens d y_dim j' w' e

abbrev pub AllBetween : ℕ → ℕ → Option (Joined × List ℕ) → Type 0
AllBetween d y_dim none = ℕ
AllBetween d y_dim (some r) = Between d y_dim r.0

with_rest-Between :
    (d y_dim : ℕ) (random : List ℕ) (o : Option Joined)
    → Betweens d y_dim o
    → AllBetween d y_dim (o >>= with_rest random)
with_rest-Between d y_dim random none h = 0
with_rest-Between d y_dim random (some j) h = h

random_round-Between :
    (d y_dim : ℕ) (j : Joined) (random : List ℕ)
    → Between d y_dim j
    → AllBetween d y_dim (random_round j random)
unfolding random_round
random_round-Between d y_dim j random w = go (pick_square j.maze is_reached random) (
    pick_square-Picked j.maze is_reached random (omega (arith, w.spot.column))
      (omega (arith, w.spot.row)))
  where
    go :
        (o : Option (ℕ × ℕ × List ℕ))
        → Picked j.maze is_reached o
        → AllBetween d y_dim
            (o >>= λ p. (join (record (count_trial j) { x = p.0; y = p.1 }) >>= with_rest p.2))
    go none f = 0
    go (some p) (a, b, h, k, e, g, free) =
        with_rest-Between d y_dim p.2 (join (record (count_trial j) { x = p.0; y = p.1 })) (
          join-Betweens d y_dim (record (count_trial j) { x = p.0; y = p.1 })
            (record {
              x_size = w.x_size;
              y_size = w.y_size;
              parts = w.parts;
              spot = record { a = a; b = b; column = h; row = k; at_x = e; at_y = g };
            })
            free)

join_round-Between :
    (d y_dim : ℕ) (j : Joined) (random : List ℕ)
    → Between d y_dim j
    → AllBetween d y_dim (join_round j random)
join_round-Between d y_dim j random w = go (scans j)
  where
    go :
        (b : Bool)
        → AllBetween d y_dim
            (if b then (scan_round j >>= with_rest random) else random_round j random)
    go true = with_rest-Between d y_dim random (scan_round j) (scan_round-Between d y_dim j w)
    go false = random_round-Between d y_dim j random w

-- The end of all rounds.
abbrev pub AllJoined : ℕ → ℕ → Option (Joined × List ℕ) → Type 0
AllJoined d y_dim none = ℕ
AllJoined d y_dim (some r) = Between d y_dim r.0 × (r.0.remaining ≡ 0)

pub join_all-AllJoined :
    (d y_dim fuel : ℕ) (j : Joined) (random : List ℕ)
    → Between d y_dim j
    → AllJoined d y_dim (join_all fuel j random)
unfolding join_all
join_all-AllJoined d y_dim zero j random w = 0
join_all-AllJoined d y_dim (suc fuel) j random w =
    go (join_round j random) (join_round-Between d y_dim j random w)
      (λ j' rest w'. join_all-AllJoined d y_dim fuel j' rest w')
  where
    go :
        (o : Option (Joined × List ℕ))
        → AllBetween d y_dim o
        → ((j' : Joined) (rest : List ℕ)
            → Between d y_dim j'
            → AllJoined d y_dim (join_all fuel j' rest))
        → AllJoined d y_dim
            (o >>= λ r. if ltb 0 r.0.remaining then join_all fuel r.0 r.1 else some r)
    go none h ih = 0
    go (some r) h ih = more (ltb 0 r.0.remaining) refl
      where
        more :
            (b : Bool)
            → ltb 0 r.0.remaining ≡ b
            → AllJoined d y_dim (if b then join_all fuel r.0 r.1 else some r)
        more true e = ih r.0 r.1 h
        more false e = (h, ground arith)
