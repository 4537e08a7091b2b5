-- ===== src/ModeX/Lines.antt =====
-- The rows and columns of the maze in the build buffer: draw_vert_line, draw_horiz_line.
-- `vert_line_fn` and `horiz_line_fn` give the contents of the buffer that the code passes to them.
use ece391_computer_systems.Base.{
  ℕ, zero, suc, ◌+◌, ◌-◌, ◌*◌, ◌/◌, ◌%◌, ◌≤◌, ◌<◌, ◌≡◌, ◌&&◌, arith, Mem, store, leb, ltb,
  if◌then◌else◌, refl, ap, ◌∙◌, ◌==◌, ℤ, pos, negsuc, success, failure, lt→leb_false,
}
use ece391_computer_systems.ModeX.{View, address, scroll_size, scroll_x_dim, scroll_y_dim}
use ece391_computer_systems.ModeX.Address.{InWindow, address-inj}
use ece391_computer_systems.ModeX.Window.{pixel}

pub vert_loop : (ℕ → ℕ) → ℕ → ℕ → ℕ → ℕ → Mem → Mem
vert_loop buf zero j addr plane m = m
vert_loop buf (suc left) j addr plane m =
    vert_loop buf left (j + 1) (addr + 80) plane (store m (addr + plane * scroll_size) (buf j))

-- `x` counts from the left side of the window.
unfoldable pub draw_vert_line : (ℕ → ℕ → ℕ → ℕ) → View → ℤ → View × ℤ
draw_vert_line vert_line_fn v (negsuc n) = (v, failure)
draw_vert_line vert_line_fn v (pos n) =
    let x = n + v.show_x in
    let buf = vert_line_fn x v.show_y in
    let mem = vert_loop buf scroll_y_dim 0 (v.img3 + x / 4 + v.show_y * 80) (3 - x % 4) v.mem in
    if leb scroll_x_dim n then (v, failure) else (record v { mem = mem }, success)

pub horiz_loop : (ℕ → ℕ) → ℕ → ℕ → ℕ → ℕ → Mem → Mem
horiz_loop buf zero i addr p_off m = m
horiz_loop buf (suc left) i addr p_off m =
    horiz_loop buf left (i + 1) (if p_off == 0 then addr + 1 else addr)
      (if p_off == 0 then 3 else p_off - 1) (store m (addr + p_off * scroll_size) (buf i))

-- `y` counts from the top of the window.
unfoldable pub draw_horiz_line : (ℕ → ℕ → ℕ → ℕ) → View → ℤ → View × ℤ
draw_horiz_line horiz_line_fn v (negsuc n) = (v, failure)
draw_horiz_line horiz_line_fn v (pos n) =
    let y = n + v.show_y in
    let buf = horiz_line_fn v.show_x y in
    let mem =
      horiz_loop buf scroll_x_dim 0 (v.img3 + v.show_x / 4 + y * 80) (3 - v.show_x % 4) v.mem in
    if leb scroll_y_dim n then (v, failure) else (record v { mem = mem }, success)

-- A byte written to one pixel of the window, seen at another.
pub store-address :
    (m : Mem) (img3 sx sy x y px py c : ℕ)
    → InWindow sx sy x y
    → InWindow sx sy px py
    → store m (address img3 x y) c (address img3 px py)
      ≡ (if (px == x) && (py == y) then c else m (address img3 px py))
store-address m img3 sx sy x y px py c w w' = ground (arith, address-inj img3 sx sy x y px py w w')

-- The address as the loops have it: the part without the plane, then the plane.
address-split :
    (img3 addr x y : ℕ)
    → addr ≡ img3 + x / 4 + y * 80
    → addr + (3 - x % 4) * scroll_size ≡ address img3 x y
unfolding address
address-split img3 addr x y e = omega arith

-- One pixel more to the right.
next_addr :
    (addr p_off base x y : ℕ)
    → addr ≡ base + x / 4 + y * 80
    → p_off ≡ 3 - x % 4
    → (if p_off == 0 then addr + 1 else addr) ≡ base + (x + 1) / 4 + y * 80
next_addr addr p_off base x y h k = ground arith

next_off :
    (p_off x : ℕ) → p_off ≡ 3 - x % 4 → (if p_off == 0 then 3 else p_off - 1) ≡ 3 - (x + 1) % 4
next_off p_off x k = ground arith

pub shift {ℓ} :
    {A : Type ℓ} (buf : ℕ → A) (j p q : ℕ) → q < p → buf (j + 1 + (p - (q + 1))) ≡ buf (j + (p - q))
shift buf j p q h = ap buf (omega arith)

module _ (img3 sx sy px py : ℕ) (w : InWindow sx sy px py) (buf : ℕ → ℕ) where
  line_pixel :
      (m : Mem) (addr p_off x y c : ℕ)
      → InWindow sx sy x y
      → addr ≡ img3 + x / 4 + y * 80
      → p_off ≡ 3 - x % 4
      → store m (addr + p_off * scroll_size) c (address img3 px py)
        ≡ (if (px == x) && (py == y) then c else m (address img3 px py))
  line_pixel m addr p_off x y c i e f =
      ap (λ o. store m (addr + o * scroll_size) c (address img3 px py)) f
      ∙ ap (λ k. store m k c (address img3 px py)) (address-split img3 addr x y e)
      ∙ store-address m img3 sx sy x y px py c i w

  vert_loop_lem :
      (n j x y addr p_off : ℕ) (m : Mem)
      → sx ≤ x
      → x < sx + scroll_x_dim
      → sy ≤ y
      → y + n ≤ sy + scroll_y_dim
      → addr ≡ img3 + x / 4 + y * 80
      → p_off ≡ 3 - x % 4
      → vert_loop buf n j addr p_off m (address img3 px py) ≡ (
          if (px == x) && (leb y py && ltb py (y + n))
          then buf (j + (py - y))
          else m (address img3 px py))
  unfolding vert_loop
  vert_loop_lem zero j x y addr p_off m a b c d e f = ground arith
  vert_loop_lem (suc n) j x y addr p_off m a b c d e f =
      let i : InWindow sx sy x y = record { left = a; right = b; top = c; bottom = omega arith } in
      let s = line_pixel m addr p_off x y (buf j) i e f in
      let m' = store m (addr + p_off * scroll_size) (buf j) in
      let r =
        vert_loop_lem n (j + 1) x (y + 1) (addr + 80) p_off m' a b (omega arith) (omega arith)
          (omega arith) f in
      let z : buf (j + (y - y)) ≡ buf j = ap buf (omega arith) in
      ground (arith, s, r, shift buf j py y, z)

  horiz_loop_lem :
      (n i x y addr p_off : ℕ) (m : Mem)
      → sx ≤ x
      → x + n ≤ sx + scroll_x_dim
      → sy ≤ y
      → y < sy + scroll_y_dim
      → addr ≡ img3 + x / 4 + y * 80
      → p_off ≡ 3 - x % 4
      → horiz_loop buf n i addr p_off m (address img3 px py) ≡ (
          if (py == y) && (leb x px && ltb px (x + n))
          then buf (i + (px - x))
          else m (address img3 px py))
  unfolding horiz_loop
  horiz_loop_lem zero i x y addr p_off m a b c d e f = ground arith
  horiz_loop_lem (suc n) i x y addr p_off m a b c d e f =
      let k : InWindow sx sy x y = record { left = a; right = omega arith; top = c; bottom = d } in
      let s = line_pixel m addr p_off x y (buf i) k e f in
      let m' = store m (addr + p_off * scroll_size) (buf i) in
      let r =
        horiz_loop_lem n (i + 1) (x + 1) y (if p_off == 0 then addr + 1 else addr)
          (if p_off == 0 then 3 else p_off - 1) m' (omega arith) (omega arith) c d
          (next_addr addr p_off img3 x y e f) (next_off p_off x f) in
      let z : buf (i + (x - x)) ≡ buf i = ap buf (omega arith) in
      r ∙ ground (arith, s, shift buf i px x, z)

-- With `n` below 182, `draw_horiz_line` succeeds: the row `n` of the window then has the image of
-- the line, and the other pixels of the window are as they were.
pub draw_horiz_line_lem :
    (horiz_line_fn : ℕ → ℕ → ℕ → ℕ) (v : View) (n px py : ℕ)
    → n < scroll_y_dim
    → InWindow v.show_x v.show_y px py
    → ((draw_horiz_line horiz_line_fn v (pos n)).1 ≡ success)
      × (pixel (draw_horiz_line horiz_line_fn v (pos n)).0 px py ≡ (
          if py == n + v.show_y then horiz_line_fn v.show_x py (px - v.show_x) else pixel v px py))
unfolding draw_horiz_line
draw_horiz_line_lem fn v n px py h w =
    let y = n + v.show_y in
    let r =
      horiz_loop_lem v.img3 v.show_x v.show_y px py w (fn v.show_x y) scroll_x_dim 0 v.show_x y
        (v.img3 + v.show_x / 4 + y * 80) (3 - v.show_x % 4) v.mem (omega arith) (omega arith)
        (omega arith) (omega arith) refl refl in
    rw (lt→leb_false scroll_y_dim n h)
      (refl, r ∙ ground (arith, w.left, w.right, ap (λ k. fn v.show_x k (px - v.show_x))))

-- With `n` below 320, `draw_vert_line` succeeds: the column `n` of the window then has the image of
-- the line, and the other pixels of the window are as they were.
pub draw_vert_line_lem :
    (vert_line_fn : ℕ → ℕ → ℕ → ℕ) (v : View) (n px py : ℕ)
    → n < scroll_x_dim
    → InWindow v.show_x v.show_y px py
    → ((draw_vert_line vert_line_fn v (pos n)).1 ≡ success)
      × (pixel (draw_vert_line vert_line_fn v (pos n)).0 px py ≡ (
          if px == n + v.show_x then vert_line_fn px v.show_y (py - v.show_y) else pixel v px py))
unfolding draw_vert_line
draw_vert_line_lem fn v n px py h w =
    let x = n + v.show_x in
    let r =
      vert_loop_lem v.img3 v.show_x v.show_y px py w (fn x v.show_y) scroll_y_dim 0 x v.show_y
        (v.img3 + x / 4 + v.show_y * 80) (3 - x % 4) v.mem (omega arith) (omega arith) (omega arith)
        (omega arith) refl refl in
    rw (lt→leb_false scroll_x_dim n h)
      (refl, r ∙ ground (arith, w.top, w.bottom, ap (λ k. fn k v.show_y (py - v.show_y))))
