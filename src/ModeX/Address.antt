-- ===== src/ModeX/Address.antt =====
-- Where the pixels of the view window lie in the build buffer.
use ece391_computer_systems.Base.{ℕ, ◌+◌, ◌*◌, ◌/◌, ◌%◌, ◌≤◌, ◌<◌, ◌≡◌, arith}
use ece391_computer_systems.ModeX.{address, build_buf_size, scroll_x_dim, scroll_y_dim, scroll_size}

-- A pixel of the window.
pub record InWindow (show_x show_y x y : ℕ) : Type 0 where
  pub left : show_x ≤ x
  pub right : x < show_x + scroll_x_dim
  pub top : show_y ≤ y
  pub bottom : y < show_y + scroll_y_dim

-- The buffer holds the window, and is not at the very start of the address space.
pub record Fits (build img3 show_x show_y : ℕ) : Type 0 where
  pub low : build ≤ img3 + show_x / 4 + show_y * 80
  pub high :
      img3 + 3 * scroll_size + (show_x + 319) / 4 + (show_y + 181) * 80 < build + build_buf_size

same_plane :
    (img3 sx sy x y x' y' : ℕ)
    → InWindow sx sy x y
    → InWindow sx sy x' y'
    → address img3 x y ≡ address img3 x' y'
    → x % 4 ≡ x' % 4
unfolding address
same_plane img3 sx sy x y x' y' w w' e =
    omega (arith, w.left, w.right, w'.left, w'.right, w.top, w.bottom, w'.top, w'.bottom, e)

-- Different pixels of a window lie at different addresses.
pub address-inj :
    (img3 sx sy x y x' y' : ℕ)
    → InWindow sx sy x y
    → InWindow sx sy x' y'
    → address img3 x y ≡ address img3 x' y'
    → (x ≡ x') × (y ≡ y')
unfolding address
address-inj img3 sx sy x y x' y' w w' e =
    let q = same_plane img3 sx sy x y x' y' w w' e in
    (
      omega (arith, q, w.left, w.right, w'.left, w'.right, w.top, w'.top, e),
      omega (arith, q, w.left, w.right, w'.left, w'.right, e),
    )

-- All of them lie in the buffer.
pub address-bounds :
    (build img3 sx sy x y : ℕ)
    → Fits build img3 sx sy
    → InWindow sx sy x y
    → (build ≤ address img3 x y) × (address img3 x y < build + build_buf_size)
unfolding address
address-bounds build img3 sx sy x y f w =
    (omega (arith, f.low, w.left, w.top, w.right), omega (arith, f.high, w.left, w.right, w.bottom))
