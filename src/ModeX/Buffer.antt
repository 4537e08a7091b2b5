-- ===== src/ModeX/Buffer.antt =====
-- Moving the view window writes only to the build buffer.
use ece391_computer_systems.Base.{
  ℕ, ◌+◌, ◌-◌, ◌*◌, ◌/◌, ◌≤◌, ◌<◌, ◌≡◌, false, ◌⊎◌, inl, inr, arith, Bool-cases, refl,
}
use ece391_computer_systems.ModeX.{
  View, build_buf_size, scroll_x_dim, scroll_y_dim, holds_window, scroll_size, set_view_window,
  shift_view, disjoint, centred, larger, smaller,
}
use ece391_computer_systems.ModeX.Window.{IsView, kept, low_end, high_end}

smaller-le : (a b c : ℕ) → smaller a b + c - 1 ≤ a + c - 1
smaller-le a b c = ground arith

le-larger : (a b : ℕ) → a ≤ larger a b
le-larger a b = ground arith

-- Windows that overlap: the first pixel of both is not behind the last.
overlap :
    (x y sx sy : ℕ)
    → disjoint x y sx sy ≡ false
    → (larger x sx ≤ smaller x sx + scroll_x_dim - 1)
      × (larger y sy ≤ smaller y sy + scroll_y_dim - 1)
overlap x y sx sy h = (ground arith, ground arith)

shift_view_frame :
    (v : View) (x y a : ℕ)
    → IsView v
    → x < 10000
    → y < 10000
    → disjoint x y v.show_x v.show_y ≡ false
    → (a < v.build) ⊎ (v.build + build_buf_size ≤ a)
    → (shift_view v x y).mem a ≡ v.mem a
unfolding shift_view
shift_view_frame v x y a i hx hy d off =
    let o = larger x v.show_x / 4 + larger y v.show_y * 80 in
    let ex = smaller x v.show_x + scroll_x_dim - 1 in
    let ey = smaller y v.show_y + scroll_y_dim - 1 in
    let n = ex / 4 + ey * 80 + 1 + 3 * scroll_size - o in
    let c = centred v.build x y in
    let w = overlap x y v.show_x v.show_y d in
    kept v.mem v.build (c + o) (v.img3 + o) n a off
      (low_end v.build x y (larger x v.show_x) (larger y v.show_y) i.above hx hy
        (le-larger x v.show_x) (le-larger y v.show_y))
      (high_end v.build x y (larger x v.show_x) (larger y v.show_y) ex ey i.above hx hy
        (le-larger x v.show_x) (le-larger y v.show_y) (smaller-le x v.show_x scroll_x_dim)
        (smaller-le y v.show_y scroll_y_dim) w.0 w.1)

-- `set_view_window` writes only to the build buffer.
pub set_view_window_frame :
    (v : View) (x y a : ℕ)
    → IsView v
    → x < 10000
    → y < 10000
    → (a < v.build) ⊎ (v.build + build_buf_size ≤ a)
    → (set_view_window v x y).mem a ≡ v.mem a
unfolding set_view_window
set_view_window_frame v x y a i hx hy off = elim (Bool-cases (holds_window v.build v.img3 x y)) [
  | inl e ↦ rw e refl
  | inr e ↦ elim (Bool-cases (disjoint x y v.show_x v.show_y)) [
    | inl d ↦ rw (e, d) refl
    | inr d ↦ rw (e, d) (shift_view_frame v x y a i hx hy d off)
  ]
]
