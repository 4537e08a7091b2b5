-- ===== src/ModeX/Window.antt =====
-- Moving the view window.
use ece391_computer_systems.Base.{
  ℕ, zero, suc, ◌+◌, ◌-◌, ◌*◌, ◌/◌, ◌%◌, ◌≤◌, ◌<◌, ◌≡◌, true, ◌⊎◌, inl, inr, ◌&&◌, arith, Mem,
  store, leb, ltb, if◌then◌else◌, Bool-cases, refl, ap, ◌∙◌, sym,
}
use ece391_computer_systems.ModeX.{
  View, address, build_buf_size, scroll_x_dim, scroll_y_dim, holds_window, scroll_size, shift_down,
  shift_up, move_bytes, set_view_window, shift_view, disjoint, centred, larger, smaller,
}
use ece391_computer_systems.ModeX.Address.{InWindow, Fits}

shift_up_lem :
    (n : ℕ) (m : Mem) (target start a : ℕ)
    → target ≤ start
    → shift_up n m target start a
      ≡ (if leb target a && ltb a (target + n) then m (start + (a - target)) else m a)
unfolding shift_up
shift_up_lem zero m target start a h = ground arith
shift_up_lem (suc n) m target start a h =
    ground (arith, shift_up_lem n (store m target (m start)) (target + 1) (start + 1) a)

shift_down_lem :
    (n : ℕ) (m : Mem) (target start a : ℕ)
    → start ≤ target
    → shift_down n m target start a
      ≡ (if leb target a && ltb a (target + n) then m (start + (a - target)) else m a)
unfolding shift_down
shift_down_lem zero m target start a h = ground arith
shift_down_lem (suc n) m target start a h =
    ground (arith, shift_down_lem n (store m (target + n) (m (start + n))) target start a)

-- Either way the bytes arrive as they were.
move_bytes_lem :
    (m : Mem) (target start n a : ℕ)
    → move_bytes m target start n a
      ≡ (if leb target a && ltb a (target + n) then m (start + (a - target)) else m a)
move_bytes_lem m target start n a =
    ground (arith, shift_up_lem n m target start a, shift_down_lem n m target start a)

-- A view in good order: the buffer holds the window, and lies behind the first 2 MB of memory; the
-- window is in the first 10000 rows and columns.
pub record IsView (v : View) : Type 0 where
  pub holds : Fits v.build v.img3 v.show_x v.show_y
  pub above : 2097152 ≤ v.build

-- `set_view_window` keeps the view in good order.
pub set_view_window-IsView :
    (v : View) (x y : ℕ) → IsView v → x < 10000 → y < 10000 → IsView (set_view_window v x y)
unfolding set_view_window shift_view
set_view_window-IsView v x y i hx hy = elim (Bool-cases (holds_window v.build v.img3 x y)) [
  | inl e ↦
      rw e (record { holds = record { low = ground arith; high = ground arith }; above = i.above })
  | inr e ↦ elim (Bool-cases (disjoint x y v.show_x v.show_y)) [
    | inl d ↦
        rw (e, d)
          (record {
            holds = record { low = omega (arith, i.above); high = omega (arith, i.above) };
            above = i.above;
          })
    | inr d ↦
        rw (e, d)
          (record {
            holds = record { low = omega (arith, i.above); high = omega (arith, i.above) };
            above = i.above;
          })
  ]
]

-- The byte of a pixel.
abbrev pub pixel : View → ℕ → ℕ → ℕ
pixel v x y = v.mem (address v.img3 x y)

larger-le : (a b c : ℕ) → a ≤ c → b ≤ c → larger a b ≤ c
larger-le a b c h k = ground arith

le-smaller : (a b c d : ℕ) → 0 < d → c < a + d → c < b + d → c ≤ smaller a b + d - 1
le-smaller a b c d z h k = ground arith

-- The offset of a pixel from `img3`.
offset : ℕ → ℕ → ℕ
offset x y = x / 4 + y * 80 + (3 - x % 4) * scroll_size

in_range :
    (lx ly ex ey px py : ℕ)
    → lx ≤ px
    → ly ≤ py
    → px ≤ ex
    → py ≤ ey
    → (lx / 4 + ly * 80 ≤ offset px py)
      × (offset px py
          < lx / 4 + ly * 80 + (ex / 4 + ey * 80 + 1 + 3 * scroll_size - (lx / 4 + ly * 80)))
unfolding offset
in_range lx ly ex ey px py a b c d = (omega arith, omega arith)

address-offset : (img3 x y : ℕ) → address img3 x y ≡ img3 + offset x y
unfolding address offset
address-offset img3 x y = omega arith

moved :
    (m : Mem) (img3 target o n rest : ℕ)
    → o ≤ rest
    → rest < o + n
    → move_bytes m (target + o) (img3 + o) n (target + rest) ≡ m (img3 + rest)
moved m img3 target o n rest h k =
    ground (arith, move_bytes_lem m (target + o) (img3 + o) n (target + rest))

-- The copy stays in the buffer.
pub kept :
    (m : Mem) (build target start n a : ℕ)
    → (a < build) ⊎ (build + build_buf_size ≤ a)
    → build ≤ target
    → target + n ≤ build + build_buf_size
    → move_bytes m target start n a ≡ m a
kept m build target start n a off lo hi = ground (arith, move_bytes_lem m target start n a)

pub low_end :
    (build x y lx ly : ℕ)
    → 2097152 ≤ build
    → x < 10000
    → y < 10000
    → x ≤ lx
    → y ≤ ly
    → build ≤ centred build x y + (lx / 4 + ly * 80)
low_end build x y lx ly b hx hy h k = omega arith

pub high_end :
    (build x y lx ly ex ey : ℕ)
    → 2097152 ≤ build
    → x < 10000
    → y < 10000
    → x ≤ lx
    → y ≤ ly
    → ex ≤ x + scroll_x_dim - 1
    → ey ≤ y + scroll_y_dim - 1
    → lx ≤ ex
    → ly ≤ ey
    → centred build x y
        + (lx / 4 + ly * 80)
        + (ex / 4 + ey * 80 + 1 + 3 * scroll_size - (lx / 4 + ly * 80))
      ≤ build + build_buf_size
high_end build x y lx ly ex ey b hx hy h k ix iy jx jy = omega arith

-- A pixel that both windows show is moved with the window.
shift_view-pixel :
    (v : View) (x y px py : ℕ)
    → IsView v
    → x < 10000
    → y < 10000
    → InWindow v.show_x v.show_y px py
    → InWindow x y px py
    → pixel (shift_view v x y) px py ≡ pixel v px py
unfolding shift_view
shift_view-pixel v x y px py i hx hy old new =
    let lx = larger x v.show_x in
    let ly = larger y v.show_y in
    let ex = smaller x v.show_x + scroll_x_dim - 1 in
    let ey = smaller y v.show_y + scroll_y_dim - 1 in
    let r =
      in_range lx ly ex ey px py (larger-le x v.show_x px new.left old.left)
        (larger-le y v.show_y py new.top old.top)
        (le-smaller x v.show_x px 320 (omega arith) new.right old.right)
        (le-smaller y v.show_y py 182 (omega arith) new.bottom old.bottom) in
    let n = ex / 4 + ey * 80 + 1 + 3 * scroll_size - (lx / 4 + ly * 80) in
    let o = lx / 4 + ly * 80 in
    let c = centred v.build x y in
    ap (move_bytes v.mem (c + o) (v.img3 + o) n) (address-offset c px py)
    ∙ moved v.mem v.img3 c o n (offset px py) r.0 r.1
    ∙ ap v.mem (sym (address-offset v.img3 px py))

-- A pixel that was in the window and is in it after `set_view_window` keeps its value.
pub set_view_window-pixel :
    (v : View) (x y px py : ℕ)
    → IsView v
    → x < 10000
    → y < 10000
    → InWindow v.show_x v.show_y px py
    → InWindow x y px py
    → pixel (set_view_window v x y) px py ≡ pixel v px py
unfolding set_view_window
set_view_window-pixel v x y px py i hx hy old new =
    elim (Bool-cases (holds_window v.build v.img3 x y)) [
      | inl e ↦ rw e refl
      | inr e ↦ elim (Bool-cases (disjoint x y v.show_x v.show_y)) [
        | inl d ↦ absurd (apart x y v.show_x v.show_y px py old new d)
        | inr d ↦ rw (e, d) (shift_view-pixel v x y px py i hx hy old new)
      ]
    ]
  where
    apart :
        (x y sx sy px py : ℕ)
        → InWindow sx sy px py
        → InWindow x y px py
        → disjoint x y sx sy ≡ true
        → ⊥
    apart x y sx sy px py old new d =
        ground (
          arith, old.left, old.right, old.top, old.bottom, new.left, new.right, new.top, new.bottom,
        )
