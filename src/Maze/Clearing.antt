-- ===== src/Maze/Clearing.antt =====
-- The last loop of the digging: the marks of the second phase go away.
use ece391_computer_systems.Base.{
  ℕ, zero, suc, ◌+◌, ◌*◌, ◌%◌, ◌<◌, ◌≡◌, Bool, true, false, ◌==◌, if◌then◌else◌, arith, refl, ap,
  ◌∙◌, sym, subst,
}
use ece391_computer_systems.Maze.{Maze, maze_index, square, is_reached}
use ece391_computer_systems.Maze.Squares.{put_square}
use ece391_computer_systems.Maze.Making.{without_reach, clear_column, clear_columns}

-- The dimensions and all bits but the mark stay, and no mark is new.
pub record Clears (m m' : Maze) : Type 0 where
  pub x_size : m'.maze_x_dim ≡ m.maze_x_dim
  pub y_size : m'.maze_y_dim ≡ m.maze_y_dim
  pub low : (i : ℕ) → m'.maze i % 128 ≡ m.maze i % 128
  pub fewer : (i : ℕ) → is_reached (m.maze i) ≡ false → is_reached (m'.maze i) ≡ false

Clears-Clears : (m m' m'' : Maze) → Clears m m' → Clears m' m'' → Clears m m''
Clears-Clears m m' m'' c e = record {
  x_size = e.x_size ∙ c.x_size;
  y_size = e.y_size ∙ c.y_size;
  low = λ i. e.low i ∙ c.low i;
  fewer = λ i h. e.fewer i (c.fewer i h);
}

low_kept : (c : ℕ) → without_reach c % 128 ≡ c % 128
low_kept c = ground arith

mark_gone : (c : ℕ) → is_reached (without_reach c) ≡ false
mark_gone c = ground arith

clear_square : (m : Maze) (x y : ℕ) → Clears m (put_square m x y (without_reach (square m x y)))
clear_square m x y = record {
  x_size = refl;
  y_size = refl;
  low = λ j. low_same (j == maze_index m x y) j refl;
  fewer = λ j h. fewer_marks (j == maze_index m x y) j refl h;
}
  where
    at : (i j : ℕ) → j == i ≡ true → i ≡ j
    at i j e = ground arith

    low_same :
        (b : Bool) (j : ℕ)
        → j == maze_index m x y ≡ b
        → (if b then without_reach (square m x y) else m.maze j) % 128 ≡ m.maze j % 128
    low_same true j e =
        low_kept (square m x y) ∙ ap (λ k. m.maze k % 128) (at (maze_index m x y) j e)
    low_same false j e = refl

    clean : (c : ℕ) → is_reached c ≡ false → is_reached (without_reach c) ≡ false
    clean c h = ground arith

    fewer_marks :
        (b : Bool) (j : ℕ)
        → j == maze_index m x y ≡ b
        → is_reached (m.maze j) ≡ false
        → is_reached (if b then without_reach (square m x y) else m.maze j) ≡ false
    fewer_marks true j e h =
        clean (square m x y) (ap (λ k. is_reached (m.maze k)) (at (maze_index m x y) j e) ∙ h)
    fewer_marks false j e h = h

clear_column-Clears : (n x y : ℕ) (m : Maze) → Clears m (clear_column n x y m)
unfolding clear_column
clear_column-Clears zero x y m = record {
  x_size = refl;
  y_size = refl;
  low = λ i. refl;
  fewer = λ i h. h;
}
clear_column-Clears (suc n) x y m =
    let m' = put_square m x y (without_reach (square m x y)) in
    Clears-Clears m m' (clear_column n x (y + 2) m') (clear_square m x y)
      (clear_column-Clears n x (y + 2) m')

pub clear_columns-Clears : (n x : ℕ) (m : Maze) → Clears m (clear_columns n x m)
unfolding clear_columns
clear_columns-Clears zero x m = record {
  x_size = refl;
  y_size = refl;
  low = λ i. refl;
  fewer = λ i h. h;
}
clear_columns-Clears (suc n) x m =
    let m' = clear_column m.maze_y_dim x 1 m in
    Clears-Clears m m' (clear_columns n (x + 2) m') (clear_column-Clears m.maze_y_dim x 1 m)
      (clear_columns-Clears n (x + 2) m')

abbrev Clean : Maze → ℕ → Type 0
Clean m i = is_reached (m.maze i) ≡ false

clear_square-Clean :
    (m : Maze) (x y : ℕ)
    → Clean (put_square m x y (without_reach (square m x y))) (maze_index m x y)
clear_square-Clean m x y =
    ap (λ b. is_reached (if b then without_reach (square m x y) else square m x y))
      (on (maze_index m x y))
    ∙ mark_gone (square m x y)
  where
    on : (i : ℕ) → i == i ≡ true
    on i = ground arith

clear_column-Clean :
    (n x y k : ℕ) (m : Maze) → k < n → Clean (clear_column n x y m) (maze_index m x (y + 2 * k))
unfolding clear_column
clear_column-Clean zero x y k m h = absurd (omega arith)
clear_column-Clean (suc n) x y zero m h =
    let m' = put_square m x y (without_reach (square m x y)) in
    subst (λ z. Clean (clear_column n x (y + 2) m') (maze_index m x z)) (omega arith)
      ((clear_column-Clears n x (y + 2) m').fewer (maze_index m x y) (clear_square-Clean m x y))
clear_column-Clean (suc n) x y (suc k) m h =
    let m' = put_square m x y (without_reach (square m x y)) in
    subst (λ z. Clean (clear_column n x (y + 2) m') (maze_index m x z)) (omega arith)
      (clear_column-Clean n x (y + 2) k m' (omega arith))

-- The squares in every second column and row.
pub clear_columns-Clean :
    (n x k b : ℕ) (m : Maze)
    → k < n
    → b < m.maze_y_dim
    → Clean (clear_columns n x m) (maze_index m (x + 2 * k) (1 + 2 * b))
unfolding clear_columns
clear_columns-Clean zero x k b m h l = absurd (omega arith)
clear_columns-Clean (suc n) x zero b m h l =
    let m' = clear_column m.maze_y_dim x 1 m in
    subst (λ z. Clean (clear_columns n (x + 2) m') (maze_index m z (1 + 2 * b))) (omega arith)
      ((clear_columns-Clears n (x + 2) m').fewer (maze_index m x (1 + 2 * b))
        (clear_column-Clean m.maze_y_dim x 1 b m l))
clear_columns-Clean (suc n) x (suc k) b m h l =
    let m' = clear_column m.maze_y_dim x 1 m in
    let c = clear_column-Clears m.maze_y_dim x 1 m in
    subst (λ i. Clean (clear_columns n (x + 2) m') i)
      (ap (λ d. x + 2 + 2 * k + (1 + 2 * b + 1) * d * 2) c.x_size ∙ omega arith)
      (clear_columns-Clean n (x + 2) k b m' (omega arith) (subst (λ y. b < y) (sym c.y_size) l))
