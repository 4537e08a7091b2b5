-- ===== src/ModeX/Undraw.antt =====
-- Saving what lies under a block, drawing the block, and putting the saved pixels back.
use ece391_computer_systems.Base.{
  ℕ, zero, suc, ◌+◌, ◌-◌, ◌*◌, ◌≤◌, ◌<◌, ◌≡◌, ◌≢◌, true, false, ◌&&◌, arith, Mem, leb, ltb,
  if◌then◌else◌, Bool, refl, ap, ◌∙◌, sym, ℤ, Option, none, some, some_inj,
}
use ece391_computer_systems.ModeX.{
  View, Clip, address, scroll_x_dim, scroll_y_dim, scan_row, scan_rows, scan_clipped, pick, clip_x,
  clip_y, draw_inked, read_block, draw_full_block, draw_full_block_with_mask, masked_ink,
  copy_full_block,
}
use ece391_computer_systems.ModeX.Address.{InWindow}
use ece391_computer_systems.ModeX.Window.{pixel}
use ece391_computer_systems.ModeX.Drawing.{
  Clipped, clip-Clipped, place_in, cell_in, painted, coloured, draw_inked-pixel, cell_sum,
}

module _ (m : Mem) (img3 : ℕ) where
  pick_row :
      (run x y k j : ℕ) (buf : Mem)
      → scan_row (pick m img3) run x y k buf j
        ≡ (if leb k j && ltb j (k + run) then m (address img3 (x + (j - k)) y) else buf j)
  unfolding scan_row pick
  pick_row zero x y k j buf = ground arith
  pick_row (suc n) x y k j buf =
      let r = pick_row n (x + 1) y (k + 1) j (pick m img3 x y k buf) in
      let z : m (address img3 (x + (k - k)) y) ≡ m (address img3 x y) =
        ap (λ i. m (address img3 i y)) (omega arith) in
      let q : k < j
          → m (address img3 (x + 1 + (j - (k + 1))) y) ≡ m (address img3 (x + (j - k)) y) =
        λ h. ap (λ i. m (address img3 i y)) (omega arith) in
      ground (arith, r, z, q)

  -- The offsets before the first pixel are not written.
  pick_rows_behind :
      (rows run width x y k j : ℕ) (buf : Mem)
      → j < k
      → scan_rows (pick m img3) rows run width x y k buf j ≡ buf j
  unfolding scan_rows
  pick_rows_behind zero run width x y k j buf h = refl
  pick_rows_behind (suc n) run width x y k j buf h =
      pick_rows_behind n run width x (y + 1) (k + run + (width - run)) j
        (scan_row (pick m img3) run x y k buf) (omega arith)
      ∙ pick_row run x y k j buf
      ∙ ground arith

  first_row :
      (k j x y dx : ℕ)
      → j ≡ k + dx
      → m (address img3 (x + (j - k)) y) ≡ m (address img3 (x + dx) (y + 0))
  first_row k j x y dx h =
      ap (λ i. m (address img3 i y)) (omega arith)
      ∙ ap (λ i. m (address img3 (x + dx) i)) (omega arith)

  pick_rows :
      (rows run width x y k dx dy : ℕ) (buf : Mem)
      → run ≤ width
      → dx < run
      → dy < rows
      → scan_rows (pick m img3) rows run width x y k buf (k + dy * width + dx)
        ≡ m (address img3 (x + dx) (y + dy))
  unfolding scan_rows
  pick_rows zero run width x y k dx dy buf h a b = absurd (omega arith)
  pick_rows (suc n) run width x y k dx zero buf h a b =
      pick_rows_behind n run width x (y + 1) (k + run + (width - run)) (k + 0 * width + dx)
        (scan_row (pick m img3) run x y k buf) (omega arith)
      ∙ pick_row run x y k (k + 0 * width + dx) buf
      ∙ ground (arith, first_row k (k + 0 * width + dx) x y dx (omega arith))
  pick_rows (suc n) run width x y k dx (suc dy) buf h a b =
      let buf' = scan_row (pick m img3) run x y k buf in
      ap (scan_rows (pick m img3) n run width x (y + 1) (k + run + (width - run)) buf')
        (next_cell k run width dx dy h)
      ∙ pick_rows n run width x (y + 1) (k + run + (width - run)) dx dy buf' h a (omega arith)
      ∙ ap (λ i. m (address img3 (x + dx) i)) (omega arith)
    where
      next_cell :
          (k run width dx dy : ℕ)
          → run ≤ width
          → k + suc dy * width + dx ≡ k + run + (width - run) + dy * width + dx
      next_cell k run width dx dy h = ground arith

cell_in-some :
    (width a b k : ℕ) (bx b_y : Bool)
    → cell_in width (if bx then some a else none) (if b_y then some b else none) ≡ some k
    → (bx ≡ true) × (b_y ≡ true) × (k ≡ a + b * width)
cell_in-some width a b k true true e = (refl, refl, sym (some_inj e))
cell_in-some width a b k true false e = absurd cc
cell_in-some width a b k false b_y e = absurd cc

no_cell_left : (width k : ℕ) (dy : Option ℕ) → cell_in width none dy ≢ some k
no_cell_left width k dy e = cc

no_cell_right : (width k : ℕ) (dx : Option ℕ) → cell_in width dx none ≢ some k
no_cell_right width k none e = cc
no_cell_right width k (some dx) e = cc

restored :
    (ink ink' : ℕ → Option ℕ) (o : Option ℕ) (new old : ℕ)
    → new ≡ painted ink' o old
    → ((k : ℕ) → o ≡ some k → ink k ≡ some old)
    → painted ink o new ≡ old
restored ink ink' none new old h q = h
restored ink ink' (some k) new old h q = ap (λ o. coloured o new) (q k refl)

module _ (v : View) (px py : ℕ) (w : InWindow v.show_x v.show_y px py) (buf : Mem) where
  pick-Clipped :
      (width height k : ℕ) (pos_x pos_y : ℤ) (cx cy : Option Clip)
      → Clipped v.show_x scroll_x_dim width pos_x cx
      → Clipped v.show_y scroll_y_dim height pos_y cy
      → cell_in width (place_in width pos_x px) (place_in height pos_y py) ≡ some k
      → scan_clipped (pick v.mem v.img3) width cx cy buf k ≡ pixel v px py
  pick-Clipped width height k pos_x pos_y none cy f g e = absurd (
      no_cell_left width k (place_in height pos_y py)
        (ap (λ o. cell_in width o (place_in height pos_y py)) (sym (f px w.left w.right)) ∙ e))
  pick-Clipped width height k pos_x pos_y (some cx) none f g e = absurd (
      no_cell_right width k (place_in width pos_x px)
        (ap (cell_in width (place_in width pos_x px)) (sym (g py w.top w.bottom)) ∙ e))
  pick-Clipped width height k pos_x pos_y (some cx) (some cy) f g e =
      let bx = leb cx.start px && ltb px (cx.start + cx.run) in
      let b_y = leb cy.start py && ltb py (cy.start + cy.run) in
      let dx = px - cx.start in
      let dy = py - cy.start in
      let e' =
        ap (λ o. cell_in width o (if b_y then some (cy.skip + dy) else none))
          (sym (f.kept px w.left w.right))
        ∙ ap (λ o. cell_in width (place_in width pos_x px) o) (sym (g.kept py w.top w.bottom))
        ∙ e in
      let c = cell_in-some width (cx.skip + dx) (cy.skip + dy) k bx b_y e' in
      let k0 = cx.skip + cy.skip * width in
      ap (scan_rows (pick v.mem v.img3) cy.run cx.run width cx.start cy.start k0 buf)
        (c.2 ∙ sym (cell_sum cx.skip cy.skip width dx dy))
      ∙ pick_rows v.mem v.img3 cy.run cx.run width cx.start cy.start k0 dx dy buf f.short
          (inside cx.start cx.run px c.0) (inside cy.start cy.run py c.1)
      ∙ ap (λ i. v.mem (address v.img3 i (cy.start + dy))) (back cx.start cx.run px c.0)
      ∙ ap (λ i. v.mem (address v.img3 px i)) (back cy.start cy.run py c.1)
    where
      inside : (start run p : ℕ) → leb start p && ltb p (start + run) ≡ true → p - start < run
      inside start run p h = ground arith

      back : (start run p : ℕ) → leb start p && ltb p (start + run) ≡ true → start + (p - start) ≡ p
      back start run p h = ground arith

  -- A pixel of the window that lies in the block is saved at its place in the block's data.
  pub read_block-pixel :
      (width height k : ℕ) (pos_x pos_y : ℤ)
      → cell_in width (place_in width pos_x px) (place_in height pos_y py) ≡ some k
      → read_block v width height pos_x pos_y buf k ≡ pixel v px py
  unfolding read_block
  read_block-pixel width height k pos_x pos_y e =
      pick-Clipped width height k pos_x pos_y (clip_x v width pos_x) (clip_y v height pos_y)
        (clip-Clipped v.show_x scroll_x_dim width pos_x)
        (clip-Clipped v.show_y scroll_y_dim height pos_y) e

-- The player is drawn over the floor, and `draw_full_block` with what `copy_full_block` has saved
-- before takes it back: every pixel of the window is as it was, wherever the block lies.
pub draw_full_block-copy_full_block :
    (v : View) (pos_x pos_y : ℤ) (blk mask buf : Mem) (px py : ℕ)
    → InWindow v.show_x v.show_y px py
    → pixel
        (draw_full_block
          (draw_full_block_with_mask v pos_x pos_y blk mask)
          pos_x
          pos_y
          (copy_full_block v pos_x pos_y buf))
        px
        py
      ≡ pixel v px py
unfolding draw_full_block draw_full_block_with_mask copy_full_block draw_inked
draw_full_block-copy_full_block v pos_x pos_y blk mask buf px py w =
    let v' = draw_full_block_with_mask v pos_x pos_y blk mask in
    let saved = copy_full_block v pos_x pos_y buf in
    draw_inked-pixel v' px py w (λ k. some (saved k)) 12 12 pos_x pos_y
    ∙ restored (λ k. some (saved k)) (masked_ink blk mask)
        (cell_in 12 (place_in 12 pos_x px) (place_in 12 pos_y py)) (pixel v' px py) (pixel v px py)
        (draw_inked-pixel v px py w (masked_ink blk mask) 12 12 pos_x pos_y)
        (λ k e. ap some (read_block-pixel v px py w buf 12 12 k pos_x pos_y e))
