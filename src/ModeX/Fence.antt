-- ===== src/ModeX/Fence.antt =====
-- The memory fences around the build buffer: drawing blocks writes nothing outside the buffer.
use ece391_computer_systems.Base.{
  ℕ, zero, suc, ◌+◌, ◌-◌, ◌*◌, ◌≤◌, ◌<◌, ◌≡◌, ◌⊎◌, arith, Mem, refl, ◌∙◌, ℤ, Option, none, some,
}
use ece391_computer_systems.ModeX.{
  View, Clip, address, build_buf_size, scroll_x_dim, scroll_y_dim, scan_row, scan_rows,
  scan_clipped, plot, write_ink, clip_x, clip_y, draw_inked,
}
use ece391_computer_systems.ModeX.Address.{InWindow, Fits, address-bounds}
use ece391_computer_systems.ModeX.Window.{IsView}
use ece391_computer_systems.ModeX.Drawing.{Clipped, clip-Clipped}

abbrev pub Outside : ℕ → ℕ → Type 0
Outside build a = (a < build) ⊎ (build + build_buf_size ≤ a)

module _ (build img3 sx sy a : ℕ) (f : Fits build img3 sx sy) (out : Outside build a)
    (ink : ℕ → Option ℕ) where
  write_frame :
      (o : Option ℕ) (x y : ℕ) (m : Mem)
      → InWindow sx sy x y
      → write_ink m (address img3 x y) o a ≡ m a
  write_frame none x y m w = refl
  write_frame (some c) x y m w = ground (arith, address-bounds build img3 sx sy x y f w)

  row_frame :
      (run x y k : ℕ) (m : Mem)
      → sx ≤ x
      → x + run ≤ sx + scroll_x_dim
      → sy ≤ y
      → y < sy + scroll_y_dim
      → scan_row (plot img3 ink) run x y k m a ≡ m a
  unfolding scan_row plot
  row_frame zero x y k m h i j l = refl
  row_frame (suc n) x y k m h i j l =
      row_frame n (x + 1) y (k + 1) (plot img3 ink x y k m) (omega arith) (omega arith) j l
      ∙ write_frame (ink k) x y m (record { left = h; right = omega arith; top = j; bottom = l })

  rows_frame :
      (rows run width x y k : ℕ) (m : Mem)
      → sx ≤ x
      → x + run ≤ sx + scroll_x_dim
      → sy ≤ y
      → y + rows ≤ sy + scroll_y_dim
      → scan_rows (plot img3 ink) rows run width x y k m a ≡ m a
  unfolding scan_rows
  rows_frame zero run width x y k m h i j l = refl
  rows_frame (suc n) run width x y k m h i j l =
      rows_frame n run width x (y + 1) (k + run + (width - run))
        (scan_row (plot img3 ink) run x y k m) h i (omega arith) (omega arith)
      ∙ row_frame run x y k m h i j (omega arith)

  Clipped-frame :
      (width height : ℕ) (pos_x pos_y : ℤ) (cx cy : Option Clip) (m : Mem)
      → Clipped sx scroll_x_dim width pos_x cx
      → Clipped sy scroll_y_dim height pos_y cy
      → scan_clipped (plot img3 ink) width cx cy m a ≡ m a
  Clipped-frame width height pos_x pos_y none cy m p q = refl
  Clipped-frame width height pos_x pos_y (some cx) none m p q = refl
  Clipped-frame width height pos_x pos_y (some cx) (some cy) m p q =
      rows_frame cy.run cx.run width cx.start cy.start (cx.skip + cy.skip * width) m p.first p.last
        q.first q.last

-- In a view in good order, drawing a block of any size, anywhere, with any ink, changes nothing
-- outside the build buffer: neither the fences before and behind it nor other memory.
pub draw_inked_frame :
    (v : View) (width height : ℕ) (ink : ℕ → Option ℕ) (pos_x pos_y : ℤ) (a : ℕ)
    → IsView v
    → Outside v.build a
    → (draw_inked v width height ink pos_x pos_y).mem a ≡ v.mem a
unfolding draw_inked
draw_inked_frame v width height ink pos_x pos_y a i out =
    Clipped-frame v.build v.img3 v.show_x v.show_y a i.holds out ink width height pos_x pos_y
      (clip_x v width pos_x) (clip_y v height pos_y) v.mem
      (clip-Clipped v.show_x scroll_x_dim width pos_x)
      (clip-Clipped v.show_y scroll_y_dim height pos_y)
