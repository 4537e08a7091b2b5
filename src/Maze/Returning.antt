-- ===== src/Maze/Returning.antt =====
-- With some random numbers the second phase returns.
use ece391_computer_systems.Base.{
  ℕ, zero, suc, ◌+◌, ◌-◌, ◌*◌, ◌%◌, ◌≤◌, ◌<◌, ◌≡◌, inl, inr, Bool, true, false, ◌||◌, not, ltb,
  if◌then◌else◌, Bool-cases, List, [], ◌∷◌, ◌++◌, Option, none, some, ◌>>=◌, arith, refl, ap, ◌∙◌,
  sym, subst,
}
use mathlib.Core.List.{append_assoc}
use native.Mathlib.Nat.{mod-eq_of_lt}
use ece391_computer_systems.Maze.{Maze, square, is_reached}
use ece391_computer_systems.Maze.Squares.{pick_square}
use ece391_computer_systems.Maze.Joiner.{
  Joined, join, with_rest, count_trial, scans, scan_round, random_round, join_all,
}
use ece391_computer_systems.Maze.Lattice.{room}
use ece391_computer_systems.Maze.Rooms.{count_rooms-some}
use ece391_computer_systems.Maze.Crawling.{place_eq}
use ece391_computer_systems.Maze.Finding.{is_hidden}
use ece391_computer_systems.Maze.Joining.{Spot}
use ece391_computer_systems.Maze.Connecting.{Between, Betweens, join-Betweens}
use ece391_computer_systems.Maze.Frontier.{Parts-Frontier, JoinsTo, join-JoinsTo}
use ece391_computer_systems.Maze.Passes.{rounds_to, rounds_to_bounds}
use ece391_computer_systems.Maze.Rounds.{rounds_left, scan_ends}

-- There are random numbers with which `f` returns and which it uses up.
abbrev pub Yields : {A : Type 0} → (List ℕ → Option (A × List ℕ)) → Type 0
Yields {A} f = (random : List ℕ) × (a : A) × ((rest : List ℕ) → f (random ++ rest) ≡ some (a, rest))

-- One function behind the other.
pub Yields-bind :
    {A B : Type 0} (f : List ℕ → Option (A × List ℕ)) (g : A → List ℕ → Option (B × List ℕ))
    → (y : Yields f) → Yields (g y.1)
    → Yields (λ random. f random >>= λ p. g p.0 p.1)
Yields-bind f g y z = (
  y.0 ++ z.0,
  z.1,
  λ rest.
      ap (λ random. f random >>= λ p. g p.0 p.1) (append_assoc y.0 z.0 rest)
      ∙ ap (λ o. o >>= λ p. g p.0 p.1) (y.2 (z.0 ++ rest))
      ∙ z.2 rest,
)

-- A room that is free can be picked.
pub pick_square-room :
    (m : Maze) (taken : ℕ → Bool) (a b : ℕ) (rest : List ℕ)
    → a < m.maze_x_dim
    → b < m.maze_y_dim
    → taken (m.maze (room m.maze_x_dim a b)) ≡ false
    → pick_square m taken (a ∷ b ∷ rest) ≡ some (2 * a + 1, 2 * b + 1, rest)
unfolding pick_square
pick_square-room m taken a b rest h k e =
    let x : a % m.maze_x_dim * 2 + 1 ≡ 2 * a + 1 = odd a m.maze_x_dim h in
    let y : b % m.maze_y_dim * 2 + 1 ≡ 2 * b + 1 = odd b m.maze_y_dim k in
    ap
      (λ x.
        if taken (m.maze (x + (b % m.maze_y_dim * 2 + 1 + 1) * m.maze_x_dim * 2))
        then pick_square m taken rest
        else some (x, b % m.maze_y_dim * 2 + 1, rest))
      x
    ∙ ap
        (λ y.
          if taken (m.maze (2 * a + 1 + (y + 1) * m.maze_x_dim * 2))
          then pick_square m taken rest
          else some (2 * a + 1, y, rest))
        y
    ∙ ap (λ b'. if b' then pick_square m taken rest else some (2 * a + 1, 2 * b + 1, rest))
        (ap (λ i. taken (m.maze i)) (place_eq m.maze_x_dim refl (omega arith)) ∙ e)
  where
    odd : (a d : ℕ) → a < d → a % d * 2 + 1 ≡ 2 * a + 1
    odd a d h = omega (arith, mod-eq_of_lt h)

abbrev at_trial : Joined → ℕ → ℕ → Joined
at_trial j a b = record (count_trial j) { x = 2 * a + 1; y = 2 * b + 1 }

-- A round with a picked room.
tried :
    (fuel : ℕ) (j j' : Joined) (a b : ℕ) (rest : List ℕ)
    → scans j ≡ false
    → a < j.maze.maze_x_dim
    → b < j.maze.maze_y_dim
    → is_reached (j.maze.maze (room j.maze.maze_x_dim a b)) ≡ false
    → join (at_trial j a b) ≡ some j'
    → join_all (suc fuel) j (a ∷ b ∷ rest)
      ≡ (if ltb 0 j'.remaining then join_all fuel j' rest else some (j', rest))
unfolding join_all random_round
tried fuel j j' a b rest s h k e f =
    ap
      (λ c.
        (if c then (scan_round j >>= with_rest (a ∷ b ∷ rest)) else random_round j (a ∷ b ∷ rest))
        >>= λ done. if ltb 0 done.0.remaining then join_all fuel done.0 done.1 else some done)
      s
    ∙ ap
        (λ o.
          (o >>= λ p. (join (record (count_trial j) { x = p.0; y = p.1 }) >>= with_rest p.2))
          >>= λ done. if ltb 0 done.0.remaining then join_all fuel done.0 done.1 else some done)
        (pick_square-room j.maze is_reached a b rest h k e)
    ∙ ap
        (λ o. (o >>= with_rest rest) >>= λ done.
          if ltb 0 done.0.remaining then join_all fuel done.0 done.1 else some done)
        f

pub join_all-Yields :
    (d y_dim t fuel : ℕ) (j : Joined)
    → Between d y_dim j
    → 0 < j.remaining
    → 100 ≤ j.trials + t
    → t + j.remaining * (y_dim * d) ≤ fuel
    → Yields (join_all fuel j)
join_all-Yields d y_dim t zero j w h u l =
    let f = Parts-Frontier j.maze j.remaining w.parts h in
    let b = rounds_to_bounds d y_dim j w f in
    absurd (none_left j.remaining (y_dim * d) (rounds_to j f) t h b.0 b.1 l)
  where
    none_left : (r n i t : ℕ) → 0 < r → 1 ≤ i → i ≤ n → t + r * n ≤ 0 → ⊥
    none_left (suc r) n i t h k l z = absurd (ground arith)
    none_left zero n i t h k l z = absurd (omega arith)
join_all-Yields d y_dim t (suc fuel) j w h u l = elim (Bool-cases (scans j)) [
  | inl s ↦
      let f = Parts-Frontier j.maze j.remaining w.parts h in
      let r = scan_ends d y_dim (suc fuel) j w f s h (
        last_pass j.remaining (y_dim * d) (rounds_to j f) t h (rounds_to_bounds d y_dim j w f).1
          l) in
      ([], r.0, λ rest. r.1 rest)
  | inr s ↦
      let c =
        count_rooms-some is_hidden j.maze.maze_x_dim j.maze.maze_y_dim j.maze.maze
          (subst (λ n. 0 < n) w.parts.counted h) in
      let e = not_true _ c.4 in
      let j1 = at_trial j c.0 c.1 in
      let spot : Spot j.maze (2 * c.0 + 1) (2 * c.1 + 1) = record {
        a = c.0;
        b = c.1;
        column = c.2;
        row = c.3;
        at_x = refl;
        at_y = refl;
      } in
      let w1 : Between d y_dim j1 = record {
        x_size = w.x_size;
        y_size = w.y_size;
        parts = w.parts;
        spot = spot;
      } in
      let e1 : is_reached (square j1.maze j1.x j1.y) ≡ false =
        ap (λ i. is_reached (j.maze.maze i)) (place_eq j.maze.maze_x_dim refl (omega arith)) ∙ e in
      picked c.0 c.1 (λ j' f rest. tried fuel j j' c.0 c.1 rest s c.2 c.3 e f)
        (trial (ltb j.remaining 20) j.remaining j.trials t refl s u) (join j1) refl
        (join-JoinsTo j1 spot w.parts e1) (join-Betweens d y_dim j1 w1 e1)
        (λ t j' w'. join_all-Yields d y_dim t fuel j' w')
]
  where
    last_pass : (n k i t : ℕ) → 0 < n → i ≤ k → t + n * k ≤ suc fuel → rounds_left n k i ≤ suc fuel
    last_pass zero k i t h l m = absurd (omega arith)
    last_pass (suc n) k i t h l m = ground arith

    not_true : (b : Bool) → not b ≡ true → b ≡ false
    not_true b e = ground arith

    -- A trial that is not the last.
    trial :
        (b : Bool) (n k t : ℕ)
        → ltb n 20 ≡ b
        → b || ltb 100 (k + 1) ≡ false
        → 100 ≤ k + t
        → (u : ℕ) × (t ≡ u + 1) × (100 ≤ (if b then k else k + 1) + u)
    trial true n k t z s h = absurd (ground arith)
    trial false n k zero z s h = absurd (ground arith)
    trial false n k (suc t) z s h = (t, omega arith, omega arith)

    fewer : (n n' k t fuel : ℕ) → n' < n → t + 1 + n * k ≤ suc fuel → t + n' * k ≤ fuel
    fewer n n' k t fuel h l = go n n' (n - (n' + 1)) (omega arith) l
      where
        go : (n n' c : ℕ) → n ≡ n' + 1 + c → t + 1 + n * k ≤ suc fuel → t + n' * k ≤ fuel
        go n n' c e l = ground (arith, ap (λ n. n * k) e)

    picked :
        (a b : ℕ)
        → ((j' : Joined)
            → join (at_trial j a b) ≡ some j'
            → (rest : List ℕ)
            → join_all (suc fuel) j (a ∷ b ∷ rest)
              ≡ (if ltb 0 j'.remaining then join_all fuel j' rest else some (j', rest)))
        → (u : ℕ) × (t ≡ u + 1)
          × (100 ≤ (if ltb j.remaining 20 then j.trials else j.trials + 1) + u)
        → (o : Option Joined) → join (at_trial j a b) ≡ o
        → JoinsTo (at_trial j a b) o
        → Betweens d y_dim o
        → ((t : ℕ) (j' : Joined)
            → Between d y_dim j'
            → 0 < j'.remaining
            → 100 ≤ j'.trials + t
            → t + j'.remaining * (y_dim * d) ≤ fuel
            → Yields (join_all fuel j'))
        → Yields (join_all (suc fuel) j)
    picked a b step v none f to bw ih = absurd to
    picked a b step (v, e, k) (some j') f to bw ih = elim (Bool-cases (ltb 0 j'.remaining)) [
      | inl p ↦
          let y = ih v j' bw (ground arith) (trials_left to) (rounds_of to) in
          (
            a ∷ b ∷ y.0,
            y.1,
            λ rest.
                step j' f (y.0 ++ rest)
                ∙ ap (λ c. if c then join_all fuel j' (y.0 ++ rest) else some (j', y.0 ++ rest)) p
                ∙ y.2 rest,
          )
      | inr p ↦ (
        a ∷ b ∷ [],
        j',
        λ rest. step j' f rest ∙ ap (λ c. if c then join_all fuel j' rest else some (j', rest)) p,
      )
    ]
      where
        trials_left : JoinsTo (at_trial j a b) (some j') → 100 ≤ j'.trials + v
        trials_left (inl (z, n)) = subst (λ j'. 100 ≤ j'.trials + v) (sym z) k
        trials_left (inr (n, z)) = subst (λ n. 100 ≤ n + v) (sym z) k

        rounds_of : JoinsTo (at_trial j a b) (some j') → v + j'.remaining * (y_dim * d) ≤ fuel
        rounds_of (inl (z, n)) =
            subst (λ n. v + n * (y_dim * d) ≤ fuel) (sym (ap (λ j. j.remaining) z))
              (omega (arith, l, e))
        rounds_of (inr (n, z)) =
            fewer j.remaining j'.remaining (y_dim * d) v fuel n (omega (arith, l, e))
