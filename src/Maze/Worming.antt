-- ===== src/Maze/Worming.antt =====
-- With some random numbers all worms end: each turns around at once.
use ece391_computer_systems.Base.{
  ℕ, zero, suc, ◌+◌, ◌-◌, ◌*◌, ◌%◌, ◌≤◌, ◌<◌, ◌≡◌, Bool, true, false, not, ◌==◌, ltb, if◌then◌else◌,
  [], ◌∷◌, ◌++◌, some, ◌>>=◌, arith, refl, ap, ◌∙◌, sym, subst,
}
use mathlib.Core.List.{append_assoc}
use native.Mathlib.Nat.{mod-eq_of_lt}
use ece391_computer_systems.Maze.{Maze, square, is_wall}
use ece391_computer_systems.Maze.Crawler.{
  Worm, is_full, turn_wt, weight_right, weight_down, weight_left, wt_up, wt_right, wt_down, wt_left,
  choose_turn, turns_around, crawl, worm_loop, worm_at, start_worm, drop_worm, worms,
}
use ece391_computer_systems.Maze.Rooms.{count_rooms-some}
use ece391_computer_systems.Maze.Digging.{Dug}
use ece391_computer_systems.Maze.Crawling.{Dig}
use ece391_computer_systems.Maze.Worms.{drop_worm-Dig}
use ece391_computer_systems.Maze.Returning.{Yields, pick_square-room}

-- The direction for a number below the last weight.
abbrev first_above : ℕ → ℕ → ℕ → ℕ → ℕ
first_above s t u pick =
    if ltb pick s then 0 else if ltb pick t then 1 else if ltb pick u then 2 else 3

pick_right : (s t u v : ℕ) → s < t → t ≤ u → u ≤ v → first_above s t u (s % v) ≡ 1
pick_right s t u v h k l =
    ap (first_above s t u) (mod-eq_of_lt {n = s} {m = v} (omega arith)) ∙ ground arith

pick_left : (s t u v : ℕ) → s ≤ t → t ≤ u → u < v → first_above s t u (u % v) ≡ 3
pick_left s t u v h k l = ap (first_above s t u) (mod-eq_of_lt {n = u} {m = v} l) ∙ ground arith

turn_wt-pos : (d : ℕ) (b : Bool) → 0 < turn_wt d b
turn_wt-pos d b = ground arith

le_more : (a k : ℕ) (b : Bool) → a ≤ a + (if b then k else 0)
le_more a k b = ground arith

lt_more : (a k : ℕ) (b : Bool) → b ≡ true → 0 < k → a < a + (if b then k else 0)
lt_more a k b e h = ground arith

turned : (d p d' p' : ℕ) → d ≡ d' → p ≡ p' → turns_around d' p' ≡ true → turns_around d p ≡ true
turned d p d' p' e f t = ap (λ d. turns_around d p) e ∙ ap (λ p. turns_around d' p) f ∙ t

not_first : (a : ℕ) → ◌≡◌ {A = ℕ} (if suc a == 0 then 3 else 1) 1
not_first a = ground arith

-- In the first column the worm that prefers to go left turns to the right, and elsewhere the one
-- that prefers to go right turns to the left.
turns_back :
    (w : Worm) (a : ℕ)
    → 1 < w.maze.maze_x_dim
    → w.x ≡ 2 * a + 1
    → w.pref_dir ≡ (if a == 0 then 3 else 1)
    → (r : ℕ) × (turns_around (choose_turn w r) w.pref_dir ≡ true)
unfolding choose_turn
turns_back w zero h e p =
    let up =
      lt_more (wt_up w) (weight_right w) (ltb w.x (w.maze.maze_x_dim * 2 - 1)) (ground (arith, e))
        (turn_wt-pos ((w.pref_dir + 3) % 4) (is_full (square w.maze (w.x + 2) w.y))) in
    let dir =
      pick_right (wt_up w) (wt_right w) (wt_down w) (wt_left w) up
        (le_more (wt_right w) (weight_down w) (ltb w.y (w.maze.maze_y_dim * 2 - 1)))
        (le_more (wt_down w) (weight_left w) (ltb 1 w.x)) in
    (wt_up w, turned _ w.pref_dir 1 3 dir p refl)
turns_back w (suc a) h e p =
    let left =
      lt_more (wt_down w) (weight_left w) (ltb 1 w.x) (ground (arith, e))
        (turn_wt-pos ((w.pref_dir + 1) % 4) (is_full (square w.maze (w.x - 2) w.y))) in
    let dir =
      pick_left (wt_up w) (wt_right w) (wt_down w) (wt_left w)
        (le_more (wt_up w) (weight_right w) (ltb w.x (w.maze.maze_x_dim * 2 - 1)))
        (le_more (wt_right w) (weight_down w) (ltb w.y (w.maze.maze_y_dim * 2 - 1))) left in
    (wt_down w, turned _ w.pref_dir 3 1 dir (p ∙ not_first a) refl)

drop_worm-Yields :
    (m : Maze) (remaining : ℕ)
    → 1 < m.maze_x_dim
    → 0 < remaining
    → Dug m remaining
    → (y : Yields (drop_worm m remaining)) × (y.1.remaining ≡ remaining - 1)
      × (y.1.maze.maze_x_dim ≡ m.maze_x_dim)
      × (y.1.maze.maze_y_dim ≡ m.maze_y_dim)
unfolding drop_worm worm_loop
drop_worm-Yields m remaining h k d =
    let c =
      count_rooms-some is_wall m.maze_x_dim m.maze_y_dim m.maze (subst (λ n. 0 < n) d.counted k) in
    let pref = if c.0 == 0 then 3 else 1 in
    let w = worm_at m (2 * c.0 + 1) (2 * c.1 + 1) pref remaining in
    let t = turns_back w c.0 h refl (small c.0) in
    (
      (
        c.0 ∷ c.1 ∷ pref ∷ t.0 ∷ [],
        w,
        λ rest.
            ap (λ o. o >>= λ p. start_worm m remaining p.0 p.1 p.2)
              (pick_square-room m (λ c. not (is_wall c)) c.0 c.1 (pref ∷ t.0 ∷ rest) c.2 c.3
                (ap not c.4))
            ∙ ap (λ b. if b then some (w, rest) else worm_loop rest (crawl w (choose_turn w t.0)))
                t.1,
      ),
      refl,
      refl,
      refl,
    )
  where
    small : (a : ℕ) → (if a == 0 then 3 else 1) % 4 ≡ (if a == 0 then 3 else 1)
    small a = ground arith

pub worms-Yields :
    (fuel : ℕ) (m : Maze) (remaining : ℕ)
    → 1 < m.maze_x_dim
    → 0 < m.maze_y_dim
    → 0 < remaining
    → remaining ≤ fuel
    → Dug m remaining
    → Yields (worms fuel m remaining)
unfolding worms
worms-Yields zero m remaining h l k f d = absurd (omega arith)
worms-Yields (suc fuel) m remaining h l k f d =
    let (y, e, dx, dy) = drop_worm-Yields m remaining h k d in
    let g : Dig m.maze_x_dim m.maze_y_dim (remaining - 1) (some (y.1, [])) =
      subst (Dig m.maze_x_dim m.maze_y_dim (remaining - 1)) (y.2 [])
        (drop_worm-Dig m remaining (y.0 ++ []) h l d) in
    go y (ltb 0 y.1.remaining) refl (λ p.
      worms-Yields fuel y.1.maze y.1.remaining (subst (λ n. 1 < n) (sym dx) h)
        (subst (λ n. 0 < n) (sym dy) l) p (omega (arith, e)) g.3)
  where
    go :
        (y : Yields (drop_worm m remaining)) (b : Bool)
        → ltb 0 y.1.remaining ≡ b
        → (0 < y.1.remaining → Yields (worms fuel y.1.maze y.1.remaining))
        → Yields (worms (suc fuel) m remaining)
    go y true e ih =
        let z = ih (ground arith) in
        (
          y.0 ++ z.0,
          z.1,
          λ rest.
              ap
                (λ random. drop_worm m remaining random >>= λ dug.
                  if ltb 0 dug.0.remaining
                  then worms fuel dug.0.maze dug.0.remaining dug.1
                  else some dug)
                (append_assoc y.0 z.0 rest)
              ∙ ap
                  (λ o. o >>= λ dug.
                    if ltb 0 dug.0.remaining
                    then worms fuel dug.0.maze dug.0.remaining dug.1
                    else some dug)
                  (y.2 (z.0 ++ rest))
              ∙ ap
                  (λ b.
                    if b
                    then worms fuel y.1.maze y.1.remaining (z.0 ++ rest)
                    else some (y.1, z.0 ++ rest))
                  e
              ∙ z.2 rest,
        )
    go y false e ih = (
      y.0,
      y.1,
      λ rest.
          ap
            (λ o. o >>= λ dug.
              if ltb 0 dug.0.remaining
              then worms fuel dug.0.maze dug.0.remaining dug.1
              else some dug)
            (y.2 rest)
          ∙ ap (λ b. if b then worms fuel y.1.maze y.1.remaining rest else some (y.1, rest)) e,
    )
