-- ===== src/Maze/Shown.antt =====
-- The window shows the maze: what drawing a row, unveiling and eating keep true.
use ece391_computer_systems.Base.{
  ℕ, ◌+◌, ◌-◌, ◌*◌, ◌/◌, ◌%◌, ◌≤◌, ◌<◌, ◌≡◌, Bool, Bool-cases, true, false, ◌⊎◌, inl, inr, ◌&&◌,
  not, ◌==◌, ltb, leb, if◌then◌else◌, none, some, pos, arith, refl, ap, ◌∙◌, sym,
}
use ece391_computer_systems.ModeX.{View, draw_full_block, draw_inked}
use ece391_computer_systems.ModeX.Address.{InWindow}
use ece391_computer_systems.ModeX.Window.{pixel}
use ece391_computer_systems.ModeX.Drawing.{place_in, cell_in, painted, draw_inked-pixel}
use ece391_computer_systems.Maze.{
  Maze, maze_index, square, is_reached, fruit_of, is_exit, is_wall, find_block, bit_if, pattern_at,
  block_exit, block_shadow, block_fruit_shadow, block_fruit_1, block_empty,
}
use ece391_computer_systems.Maze.Pictures.{maze_pixel}
use ece391_computer_systems.Maze.Squares.{Scene, draw_square}

-- Every pixel of the window has the colour of the maze there.
unfoldable pub Shows : (ℕ → ℕ → ℕ) → View → Maze → Type 0
Shows blocks v m =
    (px py : ℕ) → InWindow v.show_x v.show_y px py → pixel v px py ≡ maze_pixel blocks m px py

-- The same, but for the squares in `p`.
unfoldable pub ShowsBut : (ℕ → ℕ → Type 0) → (ℕ → ℕ → ℕ) → View → Maze → Type 0
ShowsBut p blocks v m =
    (px py : ℕ)
    → InWindow v.show_x v.show_y px py
    → p (px / 12) (py / 12) ⊎ (pixel v px py ≡ maze_pixel blocks m px py)

-- A pixel in a block that is drawn at a square.
abbrev on_square : ℕ → ℕ → ℕ → ℕ → Bool
on_square x y px py = (px / 12 == x) && (py / 12 == y)

square_axis :
    (x p : ℕ) → place_in 12 (pos (x * 12)) p ≡ (if p / 12 == x then some (p % 12) else none)
square_axis x p = elim (Bool-cases (p / 12 == x)) [
  | inl e ↦ rw (e, inside x p (eqn x p e)) (ap some (omega (arith, eqn x p e)))
  | inr e ↦ rw (e, outside x p e) refl
]
  where
    eqn : (x p : ℕ) → p / 12 == x ≡ true → p / 12 ≡ x
    eqn x p e = ground arith

    inside : (x p : ℕ) → p / 12 ≡ x → leb (x * 12) p && ltb p (x * 12 + 12) ≡ true
    inside x p e = ground arith

    outside : (x p : ℕ) → p / 12 == x ≡ false → leb (x * 12) p && ltb p (x * 12 + 12) ≡ false
    outside x p e = ground arith

square_cell :
    (x y px py : ℕ)
    → cell_in 12 (place_in 12 (pos (x * 12)) px) (place_in 12 (pos (y * 12)) py)
      ≡ (if on_square x y px py then some (px % 12 + py % 12 * 12) else none)
square_cell x y px py =
    ap (λ o. cell_in 12 o (place_in 12 (pos (y * 12)) py)) (square_axis x px)
    ∙ ap (cell_in 12 (if px / 12 == x then some (px % 12) else none)) (square_axis y py)
    ∙ both (px / 12 == x) (py / 12 == y) (px % 12) (py % 12)
  where
    both :
        (p q : Bool) (a b : ℕ)
        → cell_in 12 (if p then some a else none) (if q then some b else none)
          ≡ (if p && q then some (a + b * 12) else none)
    both true true a b = refl
    both true false a b = refl
    both false q a b = refl

pub both_eq : (a b x y : ℕ) → (a == x) && (b == y) ≡ true → (a ≡ x) × (b ≡ y)
both_eq a b x y e = (ground arith, ground arith)

not_both : (a b x y : ℕ) → (a == x) && (b == y) ≡ false → (a ≡ x) × (b ≡ y) → ⊥
not_both a b x y e h = ground (arith, h.0, h.1)

-- Drawing a square gives its pixels the colours of the maze and leaves the others alone.
draw_square-pixel :
    (blocks : ℕ → ℕ → ℕ) (s : Scene) (x y px py : ℕ)
    → InWindow s.view.show_x s.view.show_y px py
    → pixel (draw_square blocks s x y).view px py
      ≡ (if on_square x y px py then maze_pixel blocks s.maze px py else pixel s.view px py)
unfolding draw_square draw_full_block maze_pixel
draw_square-pixel blocks s x y px py w =
    let blk = blocks (find_block s.maze x y) in
    draw_inked-pixel s.view px py w (λ k. some (blk k)) 12 12 (pos (x * 12)) (pos (y * 12))
    ∙ ap (λ o. painted (λ k. some (blk k)) o (pixel s.view px py)) (square_cell x y px py)
    ∙ there (on_square x y px py) refl
  where
    there :
        (b : Bool)
        → on_square x y px py ≡ b
        → painted
            (λ k. some (blocks (find_block s.maze x y) k))
            (if b then some (px % 12 + py % 12 * 12) else none)
            (pixel s.view px py)
          ≡ (if b
              then blocks (find_block s.maze (px / 12) (py / 12)) (py % 12 * 12 + px % 12)
              else pixel s.view px py)
    there true e =
        let h = both_eq (px / 12) (py / 12) x y e in
        ap (λ i. blocks (find_block s.maze x y) i) (omega arith)
        ∙ sym (
            ap (λ a. blocks (find_block s.maze a (py / 12)) (py % 12 * 12 + px % 12)) h.0
            ∙ ap (λ b. blocks (find_block s.maze x b) (py % 12 * 12 + px % 12)) h.1)
    there false e = refl

pub draw_square-show_x :
    (blocks : ℕ → ℕ → ℕ) (s : Scene) (x y : ℕ)
    → (draw_square blocks s x y).view.show_x ≡ s.view.show_x
unfolding draw_square draw_full_block draw_inked
draw_square-show_x blocks s x y = refl

-- After a square is drawn, it is shown too.
pub draw_square-ShowsBut :
    (blocks : ℕ → ℕ → ℕ) (s : Scene) (x y : ℕ) (p q : ℕ → ℕ → Type 0)
    → ((a b : ℕ) → p a b → ((a ≡ x) × (b ≡ y)) ⊎ q a b)
    → ShowsBut p blocks s.view s.maze
    → ShowsBut q blocks (draw_square blocks s x y).view s.maze
unfolding ShowsBut draw_square draw_full_block draw_inked
draw_square-ShowsBut blocks s x y p q f h px py w =
    go (Bool-cases (on_square x y px py)) (h px py w)
  where
    go :
        (on_square x y px py ≡ true) ⊎ (on_square x y px py ≡ false)
        → p (px / 12) (py / 12) ⊎ (pixel s.view px py ≡ maze_pixel blocks s.maze px py)
        → q (px / 12) (py / 12)
          ⊎ (pixel (draw_square blocks s x y).view px py ≡ maze_pixel blocks s.maze px py)
    go (inl e) o = inr (
        draw_square-pixel blocks s x y px py w
        ∙ ap (λ b. if b then maze_pixel blocks s.maze px py else pixel s.view px py) e)
    go (inr e) (inr o) = inr (
        draw_square-pixel blocks s x y px py w
        ∙ ap (λ b. if b then maze_pixel blocks s.maze px py else pixel s.view px py) e
        ∙ o)
    go (inr e) (inl o) = elim (f (px / 12) (py / 12) o) [
      | inl g ↦ absurd (not_both (px / 12) (py / 12) x y e g)
      | inr g ↦ inl g
    ]

abbrev picture_of : Bool → ℕ → ℕ → ℕ
picture_of opened c pattern =
    if opened
    then block_exit
    else if not (is_reached c)
    then (if fruit_of c == 0 then block_shadow else block_fruit_shadow)
    else if not (fruit_of c == 0)
    then block_fruit_1 + fruit_of c - 1
    else if not (is_wall c)
    then block_empty
    else pattern

find_block-picture_of :
    (m : Maze) (x y : ℕ)
    → find_block m x y
      ≡ picture_of ((m.n_fruits == 0) && is_exit (square m x y)) (square m x y) (pattern_at m x y)
unfolding find_block
find_block-picture_of m x y = refl

-- Squares that keep their walls keep the pattern of the walls.
pattern_at-walls :
    (m : Maze) (f : ℕ → ℕ) (n x y : ℕ)
    → ((i : ℕ) → is_wall (f i) ≡ is_wall (m.maze i))
    → pattern_at (record m { maze = f; n_fruits = n }) x y ≡ pattern_at m x y
pattern_at-walls m f n x y h =
    four (h (x + y * m.maze_x_dim * 2)) (h (maze_index m (x + 1) y)) (h (maze_index m x (y + 1)))
      (h (maze_index m x y - 1))
  where
    four :
        {a b c d a' b' c' d' : Bool}
        → a ≡ a'
        → b ≡ b'
        → c ≡ c'
        → d ≡ d'
        → bit_if a 1 + bit_if b 2 + bit_if c 4 + bit_if d 8
          ≡ bit_if a' 1 + bit_if b' 2 + bit_if c' 4 + bit_if d' 8
    four p q r t = cc

-- A square keeps its picture when it keeps its bits, all walls stay, and the exit in it does not open.
pub find_block-same :
    (m : Maze) (f : ℕ → ℕ) (n x y : ℕ)
    → ((i : ℕ) → is_wall (f i) ≡ is_wall (m.maze i))
    → f (maze_index m x y) ≡ square m x y
    → (n == 0) && is_exit (square m x y) ≡ (m.n_fruits == 0) && is_exit (square m x y)
    → find_block (record m { maze = f; n_fruits = n }) x y ≡ find_block m x y
find_block-same m f n x y h e g =
    find_block-picture_of (record m { maze = f; n_fruits = n }) x y
    ∙ ap (picture_of ((n == 0) && is_exit (f (maze_index m x y))) (f (maze_index m x y)))
        (pattern_at-walls m f n x y h)
    ∙ ap (λ c. picture_of ((n == 0) && is_exit c) c (pattern_at m x y)) e
    ∙ ap (λ o. picture_of o (square m x y) (pattern_at m x y)) g
    ∙ sym (find_block-picture_of m x y)

pub ShowsBut-same :
    (blocks : ℕ → ℕ → ℕ) (v : View) (m m' : Maze) (p : ℕ → ℕ → Type 0)
    → ((a b : ℕ) → p a b ⊎ (find_block m' a b ≡ find_block m a b))
    → Shows blocks v m
    → ShowsBut p blocks v m'
unfolding ShowsBut Shows maze_pixel
ShowsBut-same blocks v m m' p f h px py w = elim (f (px / 12) (py / 12)) [
  | inl g ↦ inl g
  | inr g ↦ inr (h px py w ∙ ap (λ n. blocks n (py % 12 * 12 + px % 12)) (sym g))
]

row_le : (p q d : ℕ) → p < q → (p + 1) * d * 2 + d * 2 ≤ (q + 1) * d * 2
row_le p q d h =
    let e : q ≡ p + 1 + (q - (p + 1)) = omega arith in ground (arith, ap (λ n. (n + 1) * d * 2) e)

-- Squares have array cells of their own, but for the boundaries: a square of the left one has that
-- of the square of the right one in the row above.
pub maze_index-inj :
    (m : Maze) (a b x y : ℕ)
    → a ≤ 2 * m.maze_x_dim
    → x ≤ 2 * m.maze_x_dim
    → (x ≡ 0 → a < 2 * m.maze_x_dim)
    → (x ≡ 2 * m.maze_x_dim → 0 < a)
    → maze_index m a b ≡ maze_index m x y
    → (a ≡ x) × (b ≡ y)
maze_index-inj m a b x y h k l r e =
    let same : b ≡ y = ground (arith, row_le b y m.maze_x_dim, row_le y b m.maze_x_dim) in
    (omega (arith, ap (λ n. (n + 1) * m.maze_x_dim * 2) same), same)
