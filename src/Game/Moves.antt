-- ===== src/Game/Moves.antt =====
-- Panning and walking keep the window in the maze, and showing it.
use ece391_computer_systems.Base.{
  ℕ, ◌+◌, ◌-◌, ◌<◌, ◌≡◌, ◌⊎◌, inl, inr, Bool-cases, false, ◌==◌, if◌then◌else◌, Mem, pos, arith,
  refl, ap, ◌∙◌, lt→leb_false,
}
use ece391_computer_systems.ModeX.{
  View, set_view_window, shift_view, scroll_x_dim, scroll_y_dim, holds_window, disjoint,
}
use ece391_computer_systems.ModeX.Address.{InWindow}
use ece391_computer_systems.ModeX.Window.{
  IsView, set_view_window-IsView, set_view_window-pixel, pixel,
}
use ece391_computer_systems.ModeX.Lines.{
  draw_horiz_line, draw_vert_line, draw_horiz_line_lem, draw_vert_line_lem,
}
use ece391_computer_systems.Maze.{Maze, fill_horiz_buffer, fill_vert_buffer}
use ece391_computer_systems.Maze.Filling.{fill_horiz_buffer_lem, fill_vert_buffer_lem}
use ece391_computer_systems.Maze.Pictures.{maze_pixel}
use ece391_computer_systems.Maze.Squares.{Scene}
use ece391_computer_systems.Maze.Shown.{Shows}
use ece391_computer_systems.Game.{pan_row, pan_column}

-- Two views have the same window in the same place of the same buffer.
abbrev pub SameWindow : View → View → Type 0
SameWindow v v' =
    (v'.show_x ≡ v.show_x) × (v'.show_y ≡ v.show_y) × (v'.img3 ≡ v.img3) × (v'.build ≡ v.build)

pub draw_horiz_line-window :
    (f : ℕ → ℕ → ℕ → ℕ) (v : View) (n : ℕ)
    → n < scroll_y_dim
    → SameWindow v (draw_horiz_line f v (pos n)).0
unfolding draw_horiz_line
draw_horiz_line-window f v n h = rw (lt→leb_false scroll_y_dim n h) (refl, refl, refl, refl)

draw_vert_line-window :
    (f : ℕ → ℕ → ℕ → ℕ) (v : View) (n : ℕ)
    → n < scroll_x_dim
    → SameWindow v (draw_vert_line f v (pos n)).0
unfolding draw_vert_line
draw_vert_line-window f v n h = rw (lt→leb_false scroll_x_dim n h) (refl, refl, refl, refl)

pub set_view_window-place :
    (v : View) (x y : ℕ)
    → ((set_view_window v x y).show_x ≡ x) × ((set_view_window v x y).show_y ≡ y)
unfolding set_view_window shift_view
set_view_window-place v x y = elim (Bool-cases (holds_window v.build v.img3 x y)) [
  | inl e ↦ rw e (refl, refl)
  | inr e ↦ elim (Bool-cases (disjoint x y v.show_x v.show_y)) [
    | inl d ↦ rw (e, d) (refl, refl)
    | inr d ↦ rw (e, d) (refl, refl)
  ]
]

pub IsView-same : (v v' : View) → SameWindow v v' → IsView v → IsView v'
IsView-same v v' s i = record {
  holds = record {
    low = omega (arith, i.holds.low, s.0, s.1, s.2, s.3);
    high = omega (arith, i.holds.high, s.0, s.1, s.2, s.3);
  };
  above = omega (arith, i.above, s.3);
}

pub move_window :
    (sx sy sx' sy' px py : ℕ) → sx' ≡ sx → sy' ≡ sy → InWindow sx' sy' px py → InWindow sx sy px py
move_window sx sy sx' sy' px py e f w = record {
  left = omega (arith, e, w.left);
  right = omega (arith, e, w.right);
  top = omega (arith, f, w.top);
  bottom = omega (arith, f, w.bottom);
}

-- What a pan leads to: a view in good order at its place that shows the maze.
pub record Panned (blocks : ℕ → ℕ → ℕ) (m : Maze) (v : View) (x y : ℕ) : Type 0 where
  pub good : IsView v
  pub at_x : v.show_x ≡ x
  pub at_y : v.show_y ≡ y
  pub shown : Shows blocks v m

module _ (blocks : ℕ → ℕ → ℕ) (junk : Mem) (s : Scene) (x y : ℕ) (i : IsView s.view)
    (hx : x < 10000) (hy : y < 10000) (shows : Shows blocks s.view s.maze) where
  moved : View
  moved = set_view_window s.view x y

  old_pixel :
      (px py : ℕ)
      → InWindow x y px py
      → InWindow s.view.show_x s.view.show_y px py
      → pixel moved px py ≡ maze_pixel blocks s.maze px py
  unfolding moved Shows
  old_pixel px py new old = set_view_window-pixel s.view x y px py i hx hy old new ∙ shows px py old

  behind : {A : Type 0} (p n y sy : ℕ) → sy ≡ y → p == n + sy ≡ false → (p ≡ n + y) ⊎ A → A
  behind p n y sy e f (inl g) = absurd (clash p n y sy e f g)
    where
      clash : (p n y sy : ℕ) → sy ≡ y → p == n + sy ≡ false → p ≡ n + y → ⊥
      clash p n y sy e f g = ground arith
  behind p n y sy e f (inr a) = a

  pub pan_row-Panned :
      (n : ℕ)
      → n < scroll_y_dim
      → ((px py : ℕ)
          → InWindow x y px py
          → (py ≡ n + y) ⊎ InWindow s.view.show_x s.view.show_y px py)
      → Panned blocks s.maze (pan_row blocks junk x y n s).view x y
  unfolding pan_row moved Shows
  pan_row-Panned n h cover =
      let lines = λ (a b : ℕ). fill_horiz_buffer blocks s.maze a b junk in
      let d = draw_horiz_line-window lines moved n h in
      let p = set_view_window-place s.view x y in
      record {
        good = IsView-same moved _ d (set_view_window-IsView s.view x y i hx hy);
        at_x = d.0 ∙ p.0;
        at_y = d.1 ∙ p.1;
        shown = λ px py w.
            let w' = move_window moved.show_x moved.show_y _ _ px py d.0 d.1 w in
            let r = draw_horiz_line_lem lines moved n px py h w' in
            elim (Bool-cases (py == n + moved.show_y)) [
              | inl e ↦
                  r.1
                  ∙ ap
                      (λ b.
                        if b then lines moved.show_x py (px - moved.show_x) else pixel moved px py)
                      e
                  ∙ fill_horiz_buffer_lem blocks s.maze moved.show_x py (px - moved.show_x) junk
                      (omega (arith, w'.left, w'.right))
                  ∙ ap (λ a. maze_pixel blocks s.maze a py) (omega (arith, w'.left))
              | inr e ↦
                  r.1
                  ∙ ap
                      (λ b.
                        if b then lines moved.show_x py (px - moved.show_x) else pixel moved px py)
                      e
                  ∙ old_pixel px py (move_window x y _ _ px py (d.0 ∙ p.0) (d.1 ∙ p.1) w) (
                      behind py n y moved.show_y p.1 e
                        (cover px py (move_window x y _ _ px py (d.0 ∙ p.0) (d.1 ∙ p.1) w)))
            ];
      }

  pub pan_column-Panned :
      (n : ℕ)
      → n < scroll_x_dim
      → ((px py : ℕ)
          → InWindow x y px py
          → (px ≡ n + x) ⊎ InWindow s.view.show_x s.view.show_y px py)
      → Panned blocks s.maze (pan_column blocks junk x y n s).view x y
  unfolding pan_column moved Shows
  pan_column-Panned n h cover =
      let lines = λ (a b : ℕ). fill_vert_buffer blocks s.maze a b junk in
      let d = draw_vert_line-window lines moved n h in
      let p = set_view_window-place s.view x y in
      record {
        good = IsView-same moved _ d (set_view_window-IsView s.view x y i hx hy);
        at_x = d.0 ∙ p.0;
        at_y = d.1 ∙ p.1;
        shown = λ px py w.
            let w' = move_window moved.show_x moved.show_y _ _ px py d.0 d.1 w in
            let r = draw_vert_line_lem lines moved n px py h w' in
            elim (Bool-cases (px == n + moved.show_x)) [
              | inl e ↦
                  r.1
                  ∙ ap
                      (λ b.
                        if b then lines px moved.show_y (py - moved.show_y) else pixel moved px py)
                      e
                  ∙ fill_vert_buffer_lem blocks s.maze px moved.show_y (py - moved.show_y) junk
                      (omega (arith, w'.top, w'.bottom))
                  ∙ ap (λ a. maze_pixel blocks s.maze px a) (omega (arith, w'.top))
              | inr e ↦
                  r.1
                  ∙ ap
                      (λ b.
                        if b then lines px moved.show_y (py - moved.show_y) else pixel moved px py)
                      e
                  ∙ old_pixel px py (move_window x y _ _ px py (d.0 ∙ p.0) (d.1 ∙ p.1) w) (
                      behind px n x moved.show_x p.0 e
                        (cover px py (move_window x y _ _ px py (d.0 ∙ p.0) (d.1 ∙ p.1) w)))
            ];
      }
