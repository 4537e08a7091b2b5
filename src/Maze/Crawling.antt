-- ===== src/Maze/Crawling.antt =====
-- A worm crawls from room to room.
use ece391_computer_systems.Base.{
  ℕ, zero, suc, ◌+◌, ◌-◌, ◌*◌, ◌%◌, ◌≤◌, ◌<◌, ◌≡◌, ◌⊎◌, inl, inr, Bool, true, false, ltb,
  if◌then◌else◌, List, [], ◌∷◌, Option, none, some, store, arith, refl, ap, ◌∙◌, sym, subst,
}
use ece391_computer_systems.Maze.{maze_index, square}
use ece391_computer_systems.Maze.Squares.{put_square}
use ece391_computer_systems.Maze.Crawler.{
  Worm, is_full, wt_up, wt_right, wt_down, wt_left, turn_wt, weight_up, weight_right, weight_down,
  weight_left, choose_turn, turns_around, eat_wall, crawl, worm_loop,
}
use ece391_computer_systems.Maze.Lattice.{place, solid}
use ece391_computer_systems.Maze.Digging.{Dug, InRoom, move_to}

-- The direction that is picked is one in which there is a room.
abbrev Turn : Worm → ℕ → Type 0
Turn w dir =
    ((dir ≡ 0) × (1 < w.y))
    ⊎ (((dir ≡ 1) × (w.x < w.maze.maze_x_dim * 2 - 1))
        ⊎ (((dir ≡ 2) × (w.y < w.maze.maze_y_dim * 2 - 1)) ⊎ ((dir ≡ 3) × (1 < w.x))))

grows : (a b n : ℕ) (g : Bool) → b ≡ a + (if g then n else 0) → a < b → g ≡ true
grows a b n true e h = refl
grows a b n false e h = absurd (omega arith)

below_of_test : (a b : ℕ) → ltb a b ≡ true → a < b
below_of_test a b e = ground arith

choose_turn-Turn : (w : Worm) (r : ℕ) → 0 < wt_left w → Turn w (choose_turn w r)
unfolding choose_turn
choose_turn-Turn w r h =
    go (wt_up w) (wt_right w) (wt_down w) (wt_left w) (r % wt_left w) (mod_lt r (wt_left w) h)
      (λ k. below_of_test 1 w.y (grows 0 (wt_up w) (weight_up w) (ltb 1 w.y) (omega arith) k))
      (λ k. below_of_test _ _ (
        grows (wt_up w) (wt_right w) (weight_right w) (ltb w.x (w.maze.maze_x_dim * 2 - 1)) refl k))
      (λ k. below_of_test _ _ (
        grows (wt_right w) (wt_down w) (weight_down w) (ltb w.y (w.maze.maze_y_dim * 2 - 1)) refl
          k))
      (λ k. below_of_test _ _ (grows (wt_down w) (wt_left w) (weight_left w) (ltb 1 w.x) refl k))
  where
    mod_lt : (r n : ℕ) → 0 < n → r % n < n
    mod_lt r n h = ground arith

    go :
        (s t u v pick : ℕ)
        → pick < v
        → (0 < s → 1 < w.y)
        → (s < t → w.x < w.maze.maze_x_dim * 2 - 1)
        → (t < u → w.y < w.maze.maze_y_dim * 2 - 1)
        → (u < v → 1 < w.x)
        → Turn w (if ltb pick s then 0 else if ltb pick t then 1 else if ltb pick u then 2 else 3)
    go s t u v pick h up right down left =
        one_of (ltb pick s) (ltb pick t) (ltb pick u) (λ e. up (ground arith))
          (λ e f. right (ground arith)) (λ e f g. down (ground arith))
          (λ e f g. left (ground arith))
      where
        one_of :
            (b c d : Bool)
            → (b ≡ true → 1 < w.y)
            → (b ≡ false → c ≡ true → w.x < w.maze.maze_x_dim * 2 - 1)
            → (b ≡ false → c ≡ false → d ≡ true → w.y < w.maze.maze_y_dim * 2 - 1)
            → (b ≡ false → c ≡ false → d ≡ false → 1 < w.x)
            → Turn w (if b then 0 else if c then 1 else if d then 2 else 3)
        one_of true c d up right down left = inl (refl, up refl)
        one_of false true d up right down left = inr (inl (refl, right refl refl))
        one_of false false true up right down left = inr (inr (inl (refl, down refl refl refl)))
        one_of false false false up right down left = inr (inr (inr (refl, left refl refl refl)))

turn_wt-pos : (d : ℕ) (b : Bool) → 0 < turn_wt d b
turn_wt-pos d b = ground arith

-- A maze with two columns has a way out of every room.
wt_left-pos : (w : Worm) → 1 < w.maze.maze_x_dim → InRoom w → 0 < wt_left w
wt_left-pos w h i =
    some_way w.x (w.maze.maze_x_dim * 2 - 1) (wt_up w)
      (if ltb w.y (w.maze.maze_y_dim * 2 - 1) then weight_down w else 0) (weight_right w)
      (weight_left w) (turn_wt-pos ((w.pref_dir + 3) % 4) (is_full (square w.maze (w.x + 2) w.y)))
      (turn_wt-pos ((w.pref_dir + 1) % 4) (is_full (square w.maze (w.x - 2) w.y)))
      (sides i.a w.maze.maze_x_dim w.x h i.column i.at_x)
  where
    sides : (a d x : ℕ) → 1 < d → a < d → x ≡ 2 * a + 1 → (1 < x) ⊎ (x < d * 2 - 1)
    sides zero d x h k e = inr (omega arith)
    sides (suc a) d x h k e = inl (omega arith)

    some_way :
        (x n s t u v : ℕ)
        → 0 < u
        → 0 < v
        → (1 < x) ⊎ (x < n)
        → 0 < s + (if ltb x n then u else 0) + t + (if ltb 1 x then v else 0)
    some_way x n s t u v h k (inl e) = ground arith
    some_way x n s t u v h k (inr e) = ground arith

-- What a step of a worm keeps.
abbrev Crawls : Worm → Worm → Type 0
Crawls w w' =
    (w'.maze.maze_x_dim ≡ w.maze.maze_x_dim)
    × (w'.maze.maze_y_dim ≡ w.maze.maze_y_dim)
    × InRoom w'
    × Dug w'.maze w'.remaining
    × (w'.remaining ≤ w.remaining)

pub place_eq : (d : ℕ) {x x' r r' : ℕ} → x ≡ x' → r ≡ r' → place d x r ≡ place d x' r'
place_eq d {x} {x'} {r} {r'} e f = ap (λ x. place d x r) e ∙ ap (λ r. place d x' r) f

-- Through the wall at (x1, y1) to the room at (x', y').
moved :
    (w : Worm) (x1 y1 x' y' a b dir : ℕ)
    → x1 < 2 * w.maze.maze_x_dim
    → (x1 % 2 ≡ 0) ⊎ ((y1 + 1) % 2 ≡ 1)
    → solid w.maze.maze_y_dim x1 (y1 + 1) ≡ false
    → x' ≡ 2 * a + 1
    → y' ≡ 2 * b + 1
    → a < w.maze.maze_x_dim
    → b < w.maze.maze_y_dim
    → dir < 4
    → Dug w.maze w.remaining
    → Crawls w
        (eat_wall (record w { maze = put_square w.maze x1 y1 0; x = x'; y = y'; pref_dir = dir }))
moved w x1 y1 x' y' a b dir h o k e f l u q d =
    let m = w.maze in
    (
      refl,
      refl,
      record { a = a; b = b; column = l; row = u; at_x = e; at_y = f; dir = q },
      move_to m w.remaining x1 (y1 + 1) a b (maze_index m x1 y1) (maze_index m x' y') refl h o k
          (place_eq m.maze_x_dim e (omega (arith, f))) l u d,
      not_more (is_full (store m.maze (maze_index m x1 y1) 0 (maze_index m x' y'))) w.remaining,
    )
  where
    not_more : (b : Bool) (n : ℕ) → (if b then n - 1 else n) ≤ n
    not_more b n = ground arith

crawl-Crawls :
    (w : Worm) (dir : ℕ) → Turn w dir → InRoom w → Dug w.maze w.remaining → Crawls w (crawl w dir)
unfolding crawl
crawl-Crawls w dir t i d = elim t [
  | inl e ↦
      subst (λ n. Crawls w (crawl w n)) (sym e.0)
        (moved w w.x (w.y - 1) w.x (w.y - 2) i.a (i.b - 1) 0 (omega (arith, i.at_x, i.column))
          (inr (omega (arith, i.at_y))) (ground (arith, i.at_x, i.at_y, i.row, e.1)) i.at_x
          (omega (arith, i.at_y, e.1)) i.column (omega (arith, i.row)) (omega arith) d)
  | inr (inl e) ↦
      subst (λ n. Crawls w (crawl w n)) (sym e.0)
        (moved w (w.x + 1) w.y (w.x + 2) w.y (i.a + 1) i.b 1 (omega (arith, i.at_x, e.1))
          (inl (omega (arith, i.at_x))) (ground (arith, i.at_x, i.at_y, i.row))
          (omega (arith, i.at_x)) i.at_y (omega (arith, i.at_x, e.1)) i.row (omega arith) d)
  | inr (inr (inl e)) ↦
      subst (λ n. Crawls w (crawl w n)) (sym e.0)
        (moved w w.x (w.y + 1) w.x (w.y + 2) i.a (i.b + 1) 2 (omega (arith, i.at_x, i.column))
          (inr (omega (arith, i.at_y))) (ground (arith, i.at_x, i.at_y, e.1)) i.at_x
          (omega (arith, i.at_y)) i.column (omega (arith, i.at_y, e.1)) (omega arith) d)
  | inr (inr (inr e)) ↦
      subst (λ n. Crawls w (crawl w n)) (sym e.0)
        (moved w (w.x - 1) w.y (w.x - 2) w.y (i.a - 1) i.b 3 (omega (arith, i.at_x, i.column))
          (inl (omega (arith, i.at_x))) (ground (arith, i.at_x, i.at_y, i.row, e.1))
          (omega (arith, i.at_x, e.1)) i.at_y (omega (arith, i.column)) i.row (omega arith) d)
]

-- What comes out of a worm, or of several.
abbrev pub Dig : ℕ → ℕ → ℕ → Option (Worm × List ℕ) → Type 0
Dig d y_dim n none = ℕ
Dig d y_dim n (some p) =
    (p.0.maze.maze_x_dim ≡ d)
    × (p.0.maze.maze_y_dim ≡ y_dim)
    × InRoom p.0
    × Dug p.0.maze p.0.remaining
    × (p.0.remaining ≤ n)

pub worm_loop-Dig :
    (d y_dim n : ℕ) (random : List ℕ) (w : Worm)
    → 1 < d
    → w.maze.maze_x_dim ≡ d
    → w.maze.maze_y_dim ≡ y_dim
    → InRoom w
    → Dug w.maze w.remaining
    → w.remaining ≤ n
    → Dig d y_dim n (worm_loop random w)
unfolding worm_loop
worm_loop-Dig d y_dim n [] w h e f i g l = 0
worm_loop-Dig d y_dim n (r ∷ rest) w h e f i g l =
    let dir = choose_turn w r in
    let c =
      crawl-Crawls w dir (choose_turn-Turn w r (wt_left-pos w (subst (λ n. 1 < n) (sym e) h) i)) i
        g in
    go (turns_around dir w.pref_dir) (
      worm_loop-Dig d y_dim n rest (crawl w dir) h (c.0 ∙ e) (c.1 ∙ f) c.2 c.3 (omega (arith, c.4)))
  where
    go :
        (b : Bool)
        → Dig d y_dim n (worm_loop rest (crawl w (choose_turn w r)))
        → Dig d y_dim n (if b then some (w, rest) else worm_loop rest (crawl w (choose_turn w r)))
    go true c = (e, f, i, g, l)
    go false c = c
