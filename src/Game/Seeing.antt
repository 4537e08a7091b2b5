-- ===== src/Game/Seeing.antt =====
-- Unveiling around the player keeps the window showing the maze.
use ece391_computer_systems.Base.{
  ℕ, ◌+◌, ◌-◌, ◌*◌, ◌/◌, ◌≤◌, ◌<◌, ◌≡◌, inl, inr, Bool, true, false, ltb, if◌then◌else◌, arith,
  List, [], ◌∷◌, ℤ, pos, negsuc, refl, ap, ◌∙◌,
}
use ece391_computer_systems.ModeX.{View}
use ece391_computer_systems.Maze.{Maze, square, fruit_of}
use ece391_computer_systems.Maze.Squares.{Scene, unveil_space, check_for_fruit}
use ece391_computer_systems.Maze.Shown.{Shows}
use ece391_computer_systems.Maze.Unveiling.{Inside, unveil_space-Shows}
use ece391_computer_systems.Maze.Eating.{
  ExitNoted, check_for_fruit-Shows, unveil_space-SameFrame, check_for_fruit-SameFrame,
}
use ece391_computer_systems.Game.Framing.{Framed}
use ece391_computer_systems.Game.Tracking.{Axis, Tracked}
use ece391_computer_systems.Game.{Game, unveil_around_player, unveil_all, around, minus}

-- A column to be unveiled: only an existing one matters.
abbrev Seen : View → Maze → ℤ → Type 0
Seen v m (negsuc n) = ℕ
Seen v m (pos x) = Inside v m x

abbrev AllSeen : View → Maze → List (ℤ × ℤ) → Type 0
AllSeen v m [] = ℕ
AllSeen v m (p ∷ ps) = Seen v m p.0 × AllSeen v m ps

unveil_left :
    (blocks : ℕ → ℕ → ℕ) (s : Scene) (n : ℕ) (y : ℤ)
    → Shows blocks s.view s.maze
    → Shows blocks
        (unveil_space blocks s (negsuc n) y).view
        (unveil_space blocks s (negsuc n) y).maze
unfolding unveil_space
unveil_left blocks s n y h = h

unveil_above :
    (blocks : ℕ → ℕ → ℕ) (s : Scene) (x n : ℕ)
    → Shows blocks s.view s.maze
    → Shows blocks
        (unveil_space blocks s (pos x) (negsuc n)).view
        (unveil_space blocks s (pos x) (negsuc n)).maze
unfolding unveil_space
unveil_above blocks s x n h = h

Inside-same :
    (v v' : View) (m m' : Maze) (x : ℕ)
    → v'.show_x ≡ v.show_x
    → m'.maze_x_dim ≡ m.maze_x_dim
    → Inside v m x
    → Inside v' m' x
Inside-same v v' m m' x e f i = record {
  right = omega (arith, i.right, e, f);
  at_left = λ z. let r = i.at_left z in omega arith;
  at_right = λ z. let r = i.at_right (z ∙ ap (λ d. 2 * d) f) in omega arith;
}

unveil_space-Seen :
    (blocks : ℕ → ℕ → ℕ) (s : Scene) (x y : ℤ)
    → Seen s.view s.maze x
    → Shows blocks s.view s.maze
    → Shows blocks (unveil_space blocks s x y).view (unveil_space blocks s x y).maze
unveil_space-Seen blocks s (negsuc n) y i h = unveil_left blocks s n y h
unveil_space-Seen blocks s (pos x) (negsuc n) i h = unveil_above blocks s x n h
unveil_space-Seen blocks s (pos x) (pos y) i h = unveil_space-Shows blocks s x y i h

unveil_all-Shows :
    (blocks : ℕ → ℕ → ℕ) (v : View) (m : Maze) (ps : List (ℤ × ℤ)) (s : Scene)
    → s.view.show_x ≡ v.show_x
    → s.maze.maze_x_dim ≡ m.maze_x_dim
    → AllSeen v m ps
    → Shows blocks s.view s.maze
    → Shows blocks (unveil_all blocks ps s).view (unveil_all blocks ps s).maze
unfolding unveil_all
unveil_all-Shows blocks v m [] s e f i h = h
unveil_all-Shows blocks v m (p ∷ ps) s e f i h =
    let t = unveil_space blocks s p.0 p.1 in
    let k = unveil_space-SameFrame blocks s p.0 p.1 in
    unveil_all-Shows blocks v m ps t (k.0 ∙ e) (k.1 ∙ f) i.1
      (unveil_space-Seen blocks s p.0 p.1 (Seen-same v s.view m s.maze p.0 e f i.0) h)
  where
    Seen-same :
        (v v' : View) (m m' : Maze) (x : ℤ)
        → v'.show_x ≡ v.show_x
        → m'.maze_x_dim ≡ m.maze_x_dim
        → Seen v m x
        → Seen v' m' x
    Seen-same v v' m m' (negsuc n) e f i = i
    Seen-same v v' m m' (pos x) e f i = Inside-same v v' m m' x e f i

-- The squares that are unveiled lie at most two columns away from the player's.
near :
    (v : View) (m : Maze) (map play dim c : ℕ)
    → v.show_x ≡ map
    → m.maze_x_dim ≡ dim
    → 14 ≤ dim
    → Axis map play 320 dim
    → c ≤ play / 12 + 2
    → play / 12 ≤ c + 2
    → Inside v m c
near v m map play dim c e f d a h k = record {
  right = omega (arith, a.last, e, f);
  at_left = λ z. elim a.start [ inl s ↦ omega arith | inr s ↦ omega arith ];
  at_right = λ z. elim a.end [ inl s ↦ omega (arith, a.first) | inr s ↦ omega (arith, a.first) ];
}

around-AllSeen :
    (v : View) (m : Maze) (x y : ℕ)
    → ((c : ℕ) → c ≤ x + 2 → x ≤ c + 2 → Inside v m c)
    → AllSeen v m (around x y)
around-AllSeen v m x y i =
    let l1 = left 1 (omega arith) in
    let l2 = left 2 (omega arith) in
    let here = i x (omega arith) (omega arith) in
    let r1 = i (x + 1) (omega arith) (omega arith) in
    let r2 = i (x + 2) (omega arith) (omega arith) in
    (l1, (l1, (l1, (here, (here, (here, (r1, (r1, (r1, (here, (r2, (here, (l2, 0)))))))))))))
  where
    left : (k : ℕ) → k ≤ 2 → Seen v m (minus x k)
    left k h = go (ltb x k) refl
      where
        go : (b : Bool) → ltb x k ≡ b → Seen v m (if b then negsuc (k - x - 1) else pos (x - k))
        go true e = 0
        go false e = i (x - k) (omega arith) (ground arith)

-- What the maze and the player have to do with each other: the level's maze is at least 14 wide, the
-- player is between its left and its right boundary, fruits are counted, and the exit is noted.
pub record Playing (g : Game) : Type 0 where
  pub same : g.scene.maze.maze_x_dim ≡ g.info_x_dim
  pub wide : 14 ≤ g.info_x_dim
  pub between : g.play_x / 12 ≤ 2 * g.info_x_dim
  pub counted : (x y : ℕ) → 0 < fruit_of (square g.scene.maze x y) → 0 < g.scene.maze.n_fruits
  pub small : g.scene.maze.n_fruits < 4294967296
  pub noted : ExitNoted g.scene.maze

-- At a new square, with the window around the player, eating a fruit and unveiling the thirteen
-- squares around the player keep the window showing the maze. Fruits are counted and the exit noted.
pub unveil_around_player-Shows :
    (blocks : ℕ → ℕ → ℕ) (g : Game)
    → Framed blocks g
    → Tracked g
    → Playing g
    → Shows blocks
        (unveil_around_player blocks g.scene g.play_x g.play_y).0.view
        (unveil_around_player blocks g.scene g.play_x g.play_y).0.maze
unfolding unveil_around_player
unveil_around_player-Shows blocks g f t p =
    let x = g.play_x / 12 in
    let y = g.play_y / 12 in
    let s = g.scene in
    let i : (c : ℕ) → c ≤ x + 2 → x ≤ c + 2 → Inside s.view s.maze c =
      λ c. near s.view s.maze g.map_x g.play_x g.info_x_dim c f.at_x p.same p.wide t.axis_x in
    let k = check_for_fruit-SameFrame blocks s x y in
    unveil_all-Shows blocks s.view s.maze (around x y) (check_for_fruit blocks s x y).0 k.0 k.1
      (around-AllSeen s.view s.maze x y i)
      (check_for_fruit-Shows blocks s x y (omega (arith, p.between, p.same))
        (i x (omega arith) (omega arith)) (p.counted x y) p.small p.noted f.shown)
