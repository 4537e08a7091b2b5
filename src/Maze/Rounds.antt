-- ===== src/Maze/Rounds.antt =====
-- How many rounds the second phase takes.
use ece391_computer_systems.Base.{
  ℕ, zero, suc, ◌+◌, ◌-◌, ◌*◌, ◌≤◌, ◌<◌, ◌≡◌, inl, inr, true, false, ◌||◌, ltb, if◌then◌else◌,
  Bool-cases, List, Option, none, some, ◌>>=◌, arith, refl, ap, ◌∙◌, sym, subst,
}
use ece391_computer_systems.Maze.Joiner.{
  Joined, scan_on, with_rest, count_trial, scans, scan_round, random_round, join_all,
}
use ece391_computer_systems.Maze.Connecting.{Between, Betweens}
use ece391_computer_systems.Maze.JoinRounds.{scan_round-Between}
use ece391_computer_systems.Maze.Frontier.{Frontier, Parts-Frontier}
use ece391_computer_systems.Maze.Passes.{
  ScansTo, scan_round-ScansTo, rounds_to, rounds_to_bounds, nearer,
}

-- `n` passes of `k` rounds each, but the first `i` of the last.
abbrev pub rounds_left : ℕ → ℕ → ℕ → ℕ
rounds_left n k i = (n - 1) * k + i

fewer_passes : (n n' k i : ℕ) → n' < n → 0 < n' → i ≤ k → rounds_left n' k i ≤ (n - 1) * k
fewer_passes n n' k i h p l =
    let e : n - 1 ≡ n' - 1 + 1 + (n - 1 - n') = omega arith in go (n - 1) (n' - 1) (n - 1 - n') e
  where
    go : (a b c : ℕ) → a ≡ b + 1 + c → b * k + i ≤ a * k
    go a b c e = ground (arith, ap (λ n. n * k) e)

-- The rounds return, whatever the random numbers are, and use none of them.
abbrev pub Settled : ℕ → Joined → Type 0
Settled fuel j = (r : Joined) × ((random : List ℕ) → join_all fuel j random ≡ some (r, random))

pub next_round : ℕ → List ℕ → Joined → Option (Joined × List ℕ)
next_round fuel random j = if ltb 0 j.remaining then join_all fuel j random else some (j, random)

pub scanned :
    (fuel : ℕ) (j : Joined) (random : List ℕ)
    → scans j ≡ true
    → join_all (suc fuel) j random ≡ (scan_round j >>= next_round fuel random)
unfolding join_all next_round
scanned fuel j random e =
    ap
      (λ b. (if b then (scan_round j >>= with_rest random) else random_round j random) >>= λ done.
        if ltb 0 done.0.remaining then join_all fuel done.0 done.1 else some done)
      e
    ∙ regroup (scan_round j)
  where
    regroup :
        (o : Option Joined)
        → ((o >>= with_rest random) >>= λ done.
            if ltb 0 done.0.remaining then join_all fuel done.0 done.1 else some done)
          ≡ (o >>= next_round fuel random)
    regroup none = refl
    regroup (some r) = refl

-- Once it scans, the second phase ends on its own: at the latest after a pass over all squares for
-- each square that remains, with none of the random numbers used.
pub scan_ends :
    (d y_dim fuel : ℕ) (j : Joined)
    → Between d y_dim j
    → (f : Frontier j.maze) → scans j ≡ true
    → 0 < j.remaining
    → rounds_left j.remaining (y_dim * d) (rounds_to j f) ≤ fuel
    → Settled fuel j
unfolding next_round
scan_ends d y_dim zero j w f s h l = absurd (omega (arith, (rounds_to_bounds d y_dim j w f).0))
scan_ends d y_dim (suc fuel) j w f s h l =
    let r =
      go (scan_round j) (scan_round-ScansTo d y_dim j w) (scan_round-Between d y_dim j w)
        (λ j' w' f'. scan_ends d y_dim fuel j' w' f') in
    (r.0, λ random. scanned fuel j random s ∙ r.1 random)
  where
    still :
        (n n' t : ℕ)
        → ltb n 20 || ltb 100 (t + 1) ≡ true
        → n' ≤ n
        → ltb n' 20 || ltb 100 ((if ltb n 20 then t else t + 1) + 1) ≡ true
    still n n' t e h = ground arith

    more :
        (j' : Joined)
        → (0 < j'.remaining → Settled fuel j')
        → (r : Joined) × ((random : List ℕ) → next_round fuel random j' ≡ some (r, random))
    more j' ends = elim (Bool-cases (ltb 0 j'.remaining)) [
      | inl e ↦
          let r = ends (ground arith) in
          (
            r.0,
            λ random.
                ap (λ b. if b then join_all fuel j' random else some (j', random)) e ∙ r.1 random,
          )
      | inr e ↦ (j', λ random. ap (λ b. if b then join_all fuel j' random else some (j', random)) e)
    ]

    go :
        (o : Option Joined)
        → ScansTo j o
        → Betweens d y_dim o
        → ((j' : Joined) (w' : Between d y_dim j') (f' : Frontier j'.maze)
            → scans j' ≡ true
            → 0 < j'.remaining
            → rounds_left j'.remaining (y_dim * d) (rounds_to j' f') ≤ fuel
            → Settled fuel j')
        → (r : Joined) × ((random : List ℕ) → (o >>= next_round fuel random) ≡ some (r, random))
    go none t b ih = absurd t
    go (some j') (inl (e, away)) b ih =
        let j0 = scan_on (count_trial j) in
        let b0 = subst (Between d y_dim) e b in
        subst
          (λ j'. (r : Joined) × ((random : List ℕ) → next_round fuel random j' ≡ some (r, random)))
          (sym e)
          (more j0 (λ p.
            ih j0 b0 f (still j.remaining j.remaining j.trials s (omega arith)) p
              (omega (arith, nearer d y_dim j w f (away f), l))))
    go (some j') (inr (less, t)) b ih = more j' (λ p.
        let f' = Parts-Frontier j'.maze j'.remaining b.parts p in
        ih j' b f'
          (subst (λ n. ltb j'.remaining 20 || ltb 100 (n + 1) ≡ true) (sym t)
            (still j.remaining j'.remaining j.trials s (omega arith)))
          p
          (omega (
            arith,
            l,
            fewer_passes j.remaining j'.remaining (y_dim * d) (rounds_to j' f') less p
                (rounds_to_bounds d y_dim j' b f').1,
            (rounds_to_bounds d y_dim j w f).0,
          )))

-- When nothing remains, one round is enough.
pub last_round :
    (d y_dim fuel : ℕ) (j : Joined) → Between d y_dim j → j.remaining ≡ 0 → Settled (suc fuel) j
unfolding next_round
last_round d y_dim fuel j w e =
    let r = go (scan_round j) (scan_round-ScansTo d y_dim j w) in
    (r.0, λ rest. scanned fuel j rest (scanning j.remaining e) ∙ r.1 rest)
  where
    scanning : (n : ℕ) → n ≡ 0 → ltb n 20 || ltb 100 (j.trials + 1) ≡ true
    scanning n e = ground arith

    go :
        (o : Option Joined)
        → ScansTo j o
        → (r : Joined) × ((random : List ℕ) → (o >>= next_round fuel random) ≡ some (r, random))
    go none h = absurd h
    go (some j') (inl (z, n)) = (
      j',
      λ random.
          ap (λ b. if b then join_all fuel j' random else some (j', random))
            (done j'.remaining (ap (λ j. j.remaining) z ∙ e)),
    )
      where
        done : (n : ℕ) → n ≡ 0 → ltb 0 n ≡ false
        done n e = ground arith
    go (some j') (inr h) = absurd (omega (arith, e))
