-- ===== src/Game/Framing.antt =====
-- Moving keeps the window in the maze and showing it.
use ece391_computer_systems.Base.{
  ℕ, ◌+◌, ◌-◌, ◌*◌, ◌≤◌, ◌<◌, ◌≡◌, ◌⊎◌, inl, inr, Bool, Bool-cases, true, false, ◌&&◌, ◌==◌, ltb,
  if◌then◌else◌, Mem, arith,
}
use ece391_computer_systems.ModeX.{View}
use ece391_computer_systems.ModeX.Address.{InWindow}
use ece391_computer_systems.ModeX.Window.{IsView}
use ece391_computer_systems.Maze.Shown.{Shows}
use ece391_computer_systems.Game.{
  Game, pan_row, pan_column, move_up, move_right, move_down, move_left, move, step, dir_up,
  dir_right, dir_down, dir_left, dir_stop,
}
use ece391_computer_systems.Game.Moves.{Panned, pan_row-Panned, pan_column-Panned}

-- The window is in good order where the game has it, in the maze, and shows the maze.
pub record Framed (blocks : ℕ → ℕ → ℕ) (g : Game) : Type 0 where
  pub good : IsView g.scene.view
  pub at_x : g.scene.view.show_x ≡ g.map_x
  pub at_y : g.scene.view.show_y ≡ g.map_y
  pub left : 6 ≤ g.map_x
  pub right : g.map_x + 320 ≤ (2 * g.info_x_dim + 1) * 12 - 6
  pub top : 6 ≤ g.map_y
  pub bottom : g.map_y + 182 ≤ (2 * g.info_y_dim + 1) * 12 - 6
  pub wide : g.info_x_dim ≤ 50
  pub high : g.info_y_dim ≤ 30
  pub shown : Shows blocks g.scene.view g.scene.maze

-- Walking without a pan, and with one.
stays :
    (blocks : ℕ → ℕ → ℕ) (g : Game) (x y : ℕ)
    → Framed blocks g
    → Framed blocks (record g { play_x = x; play_y = y })
stays blocks g x y f = record {
  good = f.good;
  at_x = f.at_x;
  at_y = f.at_y;
  left = f.left;
  right = f.right;
  top = f.top;
  bottom = f.bottom;
  wide = f.wide;
  high = f.high;
  shown = f.shown;
}

pans :
    (blocks : ℕ → ℕ → ℕ) (g : Game) (v : View) (map_x map_y x y : ℕ)
    → Framed blocks g
    → Panned blocks g.scene.maze v map_x map_y
    → 6 ≤ map_x
    → map_x + 320 ≤ (2 * g.info_x_dim + 1) * 12 - 6
    → 6 ≤ map_y
    → map_y + 182 ≤ (2 * g.info_y_dim + 1) * 12 - 6
    → Framed blocks (record g {
      scene = record g.scene { view = v };
      map_x = map_x;
      map_y = map_y;
      play_x = x;
      play_y = y;
    })
pans blocks g v map_x map_y x y f p a b c d = record {
  good = p.good;
  at_x = p.at_x;
  at_y = p.at_y;
  left = a;
  right = b;
  top = c;
  bottom = d;
  wide = f.wide;
  high = f.high;
  shown = p.shown;
}

-- One row or column more: every pixel is on it or was in the window.
cover_row :
    (sx sy mx my y n px py : ℕ)
    → sx ≡ mx
    → sy ≡ my
    → ((py : ℕ) → y ≤ py → py < y + 182 → py == n + y ≡ false → (my ≤ py) × (py < my + 182))
    → InWindow mx y px py
    → (py ≡ n + y) ⊎ InWindow sx sy px py
cover_row sx sy mx my y n px py e f k w = elim (Bool-cases (py == n + y)) [
  | inl b ↦ inl (ground arith)
  | inr b ↦
      let h = k py w.top w.bottom b in
      inr (record {
        left = omega (arith, e, w.left);
        right = omega (arith, e, w.right);
        top = omega (arith, f, h.0);
        bottom = omega (arith, f, h.1);
      })
]

cover_column :
    (sx sy mx my x n px py : ℕ)
    → sx ≡ mx
    → sy ≡ my
    → ((px : ℕ) → x ≤ px → px < x + 320 → px == n + x ≡ false → (mx ≤ px) × (px < mx + 320))
    → InWindow x my px py
    → (px ≡ n + x) ⊎ InWindow sx sy px py
cover_column sx sy mx my x n px py e f k w = elim (Bool-cases (px == n + x)) [
  | inl b ↦ inl (ground arith)
  | inr b ↦
      let h = k px w.left w.right b in
      inr (record {
        left = omega (arith, e, h.0);
        right = omega (arith, e, h.1);
        top = omega (arith, f, w.top);
        bottom = omega (arith, f, w.bottom);
      })
]

module _ (blocks : ℕ → ℕ → ℕ) (junk : Mem) (g : Game) (f : Framed blocks g) where
  row :
      (y n : ℕ)
      → y < 10000
      → n < 182
      → ((py : ℕ)
          → y ≤ py
          → py < y + 182
          → py == n + y ≡ false
          → (g.map_y ≤ py) × (py < g.map_y + 182))
      → Panned blocks g.scene.maze (pan_row blocks junk g.map_x y n g.scene).view g.map_x y
  row y n h k c =
      pan_row-Panned blocks junk g.scene g.map_x y f.good (omega (arith, f.right, f.wide)) h f.shown
        n k
        (λ px py w.
          cover_row g.scene.view.show_x g.scene.view.show_y g.map_x g.map_y y n px py f.at_x f.at_y
            c w)

  column :
      (x n : ℕ)
      → x < 10000
      → n < 320
      → ((px : ℕ)
          → x ≤ px
          → px < x + 320
          → px == n + x ≡ false
          → (g.map_x ≤ px) × (px < g.map_x + 320))
      → Panned blocks g.scene.maze (pan_column blocks junk x g.map_y n g.scene).view x g.map_y
  column x n h k c =
      pan_column-Panned blocks junk g.scene x g.map_y f.good h (omega (arith, f.bottom, f.high))
        f.shown n k
        (λ px py w.
          cover_column g.scene.view.show_x g.scene.view.show_y g.map_x g.map_y x n px py f.at_x
            f.at_y c w)

  -- Moving up keeps the window in the maze and showing it.
  pub move_up-Framed : Framed blocks (move_up blocks junk g)
  unfolding move_up pan_row
  move_up-Framed = elim (Bool-cases (ltb (g.play_y - 1) (g.map_y + 60) && ltb 6 g.map_y)) [
    | inl e ↦ rw e (
        pans blocks g _ g.map_x (g.map_y - 1) g.play_x (g.play_y - 1) f
          (row (g.map_y - 1) 0 (omega (arith, f.bottom, f.high)) (omega arith)
            (λ py a b c. (ground arith, omega arith)))
          f.left f.right (ground arith) (omega (arith, f.bottom)))
    | inr e ↦ rw e (stays blocks g g.play_x (g.play_y - 1) f)
  ]

  -- Moving down keeps the window in the maze and showing it.
  pub move_down-Framed : Framed blocks (move_down blocks junk g)
  unfolding move_down pan_row
  move_down-Framed =
      elim (Bool-cases (
        ltb (g.map_y + 182 - 72) (g.play_y + 1)
        && ltb (g.map_y + 182) ((2 * g.info_y_dim + 1) * 12 - 6))) [
          | inl e ↦ rw e (
              pans blocks g _ g.map_x (g.map_y + 1) g.play_x (g.play_y + 1) f
                (row (g.map_y + 1) 181 (omega (arith, f.bottom, f.high)) (omega arith)
                  (λ py a b c. (omega arith, ground arith)))
                f.left f.right (omega (arith, f.top)) (ground arith))
          | inr e ↦ rw e (stays blocks g g.play_x (g.play_y + 1) f)
        ]

  -- Moving left keeps the window in the maze and showing it.
  pub move_left-Framed : Framed blocks (move_left blocks junk g)
  unfolding move_left pan_column
  move_left-Framed = elim (Bool-cases (ltb (g.play_x - 1) (g.map_x + 60) && ltb 6 g.map_x)) [
    | inl e ↦ rw e (
        pans blocks g _ (g.map_x - 1) g.map_y (g.play_x - 1) g.play_y f
          (column (g.map_x - 1) 0 (omega (arith, f.right, f.wide)) (omega arith)
            (λ px a b c. (ground arith, omega arith)))
          (ground arith) (omega (arith, f.right)) f.top f.bottom)
    | inr e ↦ rw e (stays blocks g (g.play_x - 1) g.play_y f)
  ]

  -- Moving right keeps the window in the maze and showing it.
  pub move_right-Framed : Framed blocks (move_right blocks junk g)
  unfolding move_right pan_column
  move_right-Framed =
      elim (Bool-cases (
        ltb (g.map_x + 320 - 72) (g.play_x + 1)
        && ltb (g.map_x + 320) ((2 * g.info_x_dim + 1) * 12 - 6))) [
          | inl e ↦ rw e (
              pans blocks g _ (g.map_x + 1) g.map_y (g.play_x + 1) g.play_y f
                (column (g.map_x + 1) 319 (omega (arith, f.right, f.wide)) (omega arith)
                  (λ px a b c. (omega arith, ground arith)))
                (omega (arith, f.left)) (ground arith) f.top f.bottom)
          | inr e ↦ rw e (stays blocks g (g.play_x + 1) g.play_y f)
        ]

-- The player's variables other than its place do not matter.
turned :
    (blocks : ℕ → ℕ → ℕ) (g : Game) (last_dir move_cnt dir next_dir fnum : ℕ)
    → Framed blocks g
    → Framed blocks (record g {
      last_dir = last_dir;
      move_cnt = move_cnt;
      dir = dir;
      next_dir = next_dir;
      current_fnum = fnum;
    })
turned blocks g last_dir move_cnt dir next_dir fnum f = record {
  good = f.good;
  at_x = f.at_x;
  at_y = f.at_y;
  left = f.left;
  right = f.right;
  top = f.top;
  bottom = f.bottom;
  wide = f.wide;
  high = f.high;
  shown = f.shown;
}

pub either : {A : Type 0} (p : A → Type 0) (b : Bool) (x y : A) → p x → p y → p (if b then x else y)
either p true x y h k = h
either p false x y h k = k

-- A step of the player in any of the directions, or none, keeps the window in good order, within the
-- maze, and showing it.
pub step-Framed :
    (blocks : ℕ → ℕ → ℕ) (junk : Mem) (g : Game)
    → Framed blocks g
    → Framed blocks (step blocks junk g)
unfolding step
step-Framed blocks junk g f =
    let g' = record g { last_dir = g.dir; move_cnt = g.move_cnt - 1 } in
    let f' : Framed blocks g' =
      turned blocks g g.dir (g.move_cnt - 1) g.dir g.next_dir g.current_fnum f in
    let p = Framed blocks in
    either p (g.dir == dir_stop) g (move blocks junk g') f (
      either p (g.dir == dir_up) (move_up blocks junk g') _ (move_up-Framed blocks junk g' f') (
        either p (g.dir == dir_right) (move_right blocks junk g') _
          (move_right-Framed blocks junk g' f')
          (either p (g.dir == dir_down) (move_down blocks junk g') _
            (move_down-Framed blocks junk g' f')
            (either p (g.dir == dir_left) (move_left blocks junk g') g'
              (move_left-Framed blocks junk g' f') f'))))
