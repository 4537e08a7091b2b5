-- ===== src/ModeX/Drawing.antt =====
-- Which pixels of the window the drawing functions write, and with what.
use ece391_computer_systems.Base.{
  ℕ, zero, suc, ◌+◌, ◌-◌, ◌*◌, ◌≤◌, ◌<◌, ◌≡◌, true, false, inl, inr, ◌||◌, ◌&&◌, arith, Mem, leb,
  ltb, if◌then◌else◌, Bool, Bool-cases, refl, ap, ◌∙◌, sym, ◌==◌, ℤ, pos, negsuc, Option, none,
  some, ltb→lt,
}
use ece391_computer_systems.ModeX.{
  View, Clip, clip, address, scroll_x_dim, scroll_y_dim, scan_row, scan_rows, scan_clipped, plot,
  write_ink, clip_x, clip_y, draw_inked,
}
use ece391_computer_systems.ModeX.Address.{InWindow}
use ece391_computer_systems.ModeX.Window.{pixel}
use ece391_computer_systems.ModeX.Lines.{store-address, shift}

-- The place of a pixel in a block of `size` pixels at `p`, on one axis.
abbrev pub place_in : ℕ → ℤ → ℕ → Option ℕ
place_in size (pos p) q = if leb p q && ltb q (p + size) then some (q - p) else none
place_in size (negsuc n) q = if ltb (q + (n + 1)) size then some (q + (n + 1)) else none

-- The offset of a pixel in the data of a block, and the colour it gets.
abbrev pub cell_in : ℕ → Option ℕ → Option ℕ → Option ℕ
cell_in width none dy = none
cell_in width (some dx) none = none
cell_in width (some dx) (some dy) = some (dx + dy * width)

abbrev pub coloured : Option ℕ → ℕ → ℕ
coloured none old = old
coloured (some c) old = c

abbrev pub painted : (ℕ → Option ℕ) → Option ℕ → ℕ → ℕ
painted ink none old = old
painted ink (some k) old = coloured (ink k) old

-- What clipping keeps of a block on one axis.
pub record Keeps (show dim size : ℕ) (p : ℤ) (c : Clip) : Type 0 where
  pub short : c.run ≤ size
  pub first : show ≤ c.start
  pub last : c.start + c.run ≤ show + dim
  pub kept :
      (q : ℕ)
      → show ≤ q
      → q < show + dim
      → place_in size p q
        ≡ (if leb c.start q && ltb q (c.start + c.run) then some (c.skip + (q - c.start)) else none)

abbrev pub Clipped : ℕ → ℕ → ℕ → ℤ → Option Clip → Type 0
Clipped show dim size p none = (q : ℕ) → show ≤ q → q < show + dim → place_in size p q ≡ none
Clipped show dim size p (some c) = Keeps show dim size p c

pub clip-Clipped : (show dim size : ℕ) (p : ℤ) → Clipped show dim size p (clip show dim size p)
unfolding clip
clip-Clipped show dim size (pos p) = elim (Bool-cases (leb (p + size) show || leb (show + dim) p)) [
  | inl e ↦ rw e (λ q l h. ground arith)
  | inr e ↦ rw e (record {
    short = ground arith;
    first = ground arith;
    last = ground arith;
    kept = λ q l h. ground arith;
  })
]
clip-Clipped show dim size (negsuc n) = elim (Bool-cases (leb size (show + (n + 1)))) [
  | inl e ↦ rw e (λ q l h. ground arith)
  | inr e ↦ rw e (record {
    short = ground arith;
    first = ground arith;
    last = ground arith;
    kept = λ q l h. ground arith;
  })
]

later : (y py : ℕ) (p : Bool) (a b : ℕ) → y < py → (if (py == y) && p then a else b) ≡ b
later y py p a b h = ground arith

-- One row, then those below it.
rows_step :
    (y py n : ℕ) (p : Bool) (new old first : ℕ) (cell : ℕ → ℕ) (rest : ℕ)
    → new ≡ (if (py == y) && p then first else old)
    → cell y ≡ first
    → (y < py → rest ≡ cell py)
    → (if (leb (y + 1) py && ltb py (y + 1 + n)) && p then rest else new)
      ≡ (if (leb y py && ltb py (y + suc n)) && p then cell py else old)
rows_step y py n p new old first cell rest s z q = ground arith

same_row : (k y width d : ℕ) → k + (y - y) * width + d ≡ k + d
same_row k y width d = ground arith

next_row :
    (k run width y py d : ℕ)
    → run ≤ width
    → y < py
    → k + run + (width - run) + (py - (y + 1)) * width + d ≡ k + (py - y) * width + d
next_row k run width y py d h g = ground (arith, ap (λ n. k + n * width + d) (minus_suc py y g))
  where
    minus_suc : (p q : ℕ) → q < p → p - q ≡ p - (q + 1) + 1
    minus_suc p q h = omega arith

module _ (img3 sx sy px py : ℕ) (w : InWindow sx sy px py) (ink : ℕ → Option ℕ) where
  write_ink_lem :
      (o : Option ℕ) (x y : ℕ) (m : Mem)
      → InWindow sx sy x y
      → write_ink m (address img3 x y) o (address img3 px py) ≡ (
          if (px == x) && (py == y)
          then coloured o (m (address img3 px py))
          else m (address img3 px py))
  write_ink_lem none x y m i = ground arith
  write_ink_lem (some c) x y m i = store-address m img3 sx sy x y px py c i w

  plot_lem :
      (x y k : ℕ) (m : Mem)
      → InWindow sx sy x y
      → plot img3 ink x y k m (address img3 px py) ≡ (
          if (px == x) && (py == y)
          then coloured (ink k) (m (address img3 px py))
          else m (address img3 px py))
  unfolding plot
  plot_lem x y k m i = write_ink_lem (ink k) x y m i

  plot_row :
      (run x y k : ℕ) (m : Mem)
      → sx ≤ x
      → x + run ≤ sx + scroll_x_dim
      → sy ≤ y
      → y < sy + scroll_y_dim
      → scan_row (plot img3 ink) run x y k m (address img3 px py) ≡ (
          if (py == y) && (leb x px && ltb px (x + run))
          then coloured (ink (k + (px - x))) (m (address img3 px py))
          else m (address img3 px py))
  unfolding scan_row
  plot_row zero x y k m a b c d = ground arith
  plot_row (suc n) x y k m a b c d =
      let i : InWindow sx sy x y = record { left = a; right = omega arith; top = c; bottom = d } in
      let s = plot_lem x y k m i in
      let r =
        plot_row n (x + 1) y (k + 1) (plot img3 ink x y k m) (omega arith) (omega arith) c d in
      let old = m (address img3 px py) in
      let z : coloured (ink (k + (x - x))) old ≡ coloured (ink k) old =
        ap (λ i. coloured (ink i) old) (omega arith) in
      let q : ltb x px ≡ true
          → coloured (ink (k + 1 + (px - (x + 1)))) old ≡ coloured (ink (k + (px - x))) old =
        λ h. ap (λ o. coloured o old) (shift ink k px x (ltb→lt x px h)) in
      r ∙ ground (arith, s, z, q)

  plot_rows :
      (rows run width x y k : ℕ) (m : Mem)
      → run ≤ width
      → sx ≤ x
      → x + run ≤ sx + scroll_x_dim
      → sy ≤ y
      → y + rows ≤ sy + scroll_y_dim
      → scan_rows (plot img3 ink) rows run width x y k m (address img3 px py) ≡ (
          if (leb y py && ltb py (y + rows)) && (leb x px && ltb px (x + run))
          then coloured (ink (k + (py - y) * width + (px - x))) (m (address img3 px py))
          else m (address img3 px py))
  unfolding scan_rows
  plot_rows zero run width x y k m h a b c d = ground arith
  plot_rows (suc n) run width x y k m h a b c d =
      let s = plot_row run x y k m a b c (omega arith) in
      let m' = scan_row (plot img3 ink) run x y k m in
      let old = m (address img3 px py) in
      let r =
        plot_rows n run width x (y + 1) (k + run + (width - run)) m' h a b (omega arith)
          (omega arith) in
      let p = leb x px && ltb px (x + run) in
      let z : coloured (ink (k + (y - y) * width + (px - x))) old
          ≡ coloured (ink (k + (px - x))) old =
        ap (λ i. coloured (ink i) old) (same_row k y width (px - x)) in
      let q : (y < py)
          → coloured (ink (k + run + (width - run) + (py - (y + 1)) * width + (px - x)))
              (m' (address img3 px py))
            ≡ coloured (ink (k + (py - y) * width + (px - x))) old =
        λ e.
          ap (λ i. coloured (ink i) (m' (address img3 px py)))
            (next_row k run width y py (px - x) h e)
          ∙ ap (coloured (ink (k + (py - y) * width + (px - x))))
              (s ∙ later y py p (coloured (ink (k + (px - x))) old) old e) in
      r
      ∙ rows_step y py n p (m' (address img3 px py)) old _
          (λ t. coloured (ink (k + (t - y) * width + (px - x))) old) _ s z q

pub cell_sum :
    (sx sy width dx dy : ℕ) → sx + sy * width + dy * width + dx ≡ (sx + dx) + (sy + dy) * width
cell_sum sx sy width dx dy = ground arith

no_cell :
    (ink : ℕ → Option ℕ) (width old : ℕ) (o : Option ℕ)
    → painted ink (cell_in width o none) old ≡ old
no_cell ink width old none = refl
no_cell ink width old (some dx) = refl

clipped_cell :
    (ink : ℕ → Option ℕ) (width old sx dx sy dy : ℕ) (bx b_y : Bool)
    → (if b_y && bx then coloured (ink (sx + sy * width + dy * width + dx)) old else old)
      ≡ painted ink
          (cell_in width
            (if bx then some (sx + dx) else none)
            (if b_y then some (sy + dy) else none))
          old
clipped_cell ink width old sx dx sy dy true true =
    ap (λ k. coloured (ink k) old) (cell_sum sx sy width dx dy)
clipped_cell ink width old sx dx sy dy false true = refl
clipped_cell ink width old sx dx sy dy true false = refl
clipped_cell ink width old sx dx sy dy false false = refl

module _ (v : View) (px py : ℕ) (w : InWindow v.show_x v.show_y px py) (ink : ℕ → Option ℕ) where
  plot-Clipped :
      (width height : ℕ) (pos_x pos_y : ℤ) (cx cy : Option Clip)
      → Clipped v.show_x scroll_x_dim width pos_x cx
      → Clipped v.show_y scroll_y_dim height pos_y cy
      → scan_clipped (plot v.img3 ink) width cx cy v.mem (address v.img3 px py)
        ≡ painted ink
            (cell_in width (place_in width pos_x px) (place_in height pos_y py))
            (pixel v px py)
  plot-Clipped width height pos_x pos_y none cy f g =
      ap (λ o. painted ink (cell_in width o (place_in height pos_y py)) (pixel v px py))
        (sym (f px w.left w.right))
  plot-Clipped width height pos_x pos_y (some cx) none f g = sym (
      ap (λ o. painted ink (cell_in width (place_in width pos_x px) o) (pixel v px py))
        (g py w.top w.bottom)
      ∙ no_cell ink width (pixel v px py) (place_in width pos_x px))
  plot-Clipped width height pos_x pos_y (some cx) (some cy) f g =
      plot_rows v.img3 v.show_x v.show_y px py w ink cy.run cx.run width cx.start cy.start
        (cx.skip + cy.skip * width) v.mem f.short f.first f.last g.first g.last
      ∙ clipped_cell ink width (pixel v px py) cx.skip (px - cx.start) cy.skip (py - cy.start)
          (leb cx.start px && ltb px (cx.start + cx.run))
          (leb cy.start py && ltb py (cy.start + cy.run))
      ∙ sym (
          ap (λ o. painted ink (cell_in width o (place_in height pos_y py)) (pixel v px py))
            (f.kept px w.left w.right)
          ∙ ap
              (λ o.
                painted ink
                  (cell_in width
                    (if leb cx.start px && ltb px (cx.start + cx.run)
                      then some (cx.skip + (px - cx.start))
                      else none)
                    o)
                  (pixel v px py))
              (g.kept py w.top w.bottom))

  -- Drawing gives each pixel of the window that lies in the block the colour that the ink has at its
  -- place in the block's data, if it has one there, and leaves the other pixels of the window as they
  -- were, wherever the block lies.
  pub draw_inked-pixel :
      (width height : ℕ) (pos_x pos_y : ℤ)
      → pixel (draw_inked v width height ink pos_x pos_y) px py
        ≡ painted ink
            (cell_in width (place_in width pos_x px) (place_in height pos_y py))
            (pixel v px py)
  unfolding draw_inked
  draw_inked-pixel width height pos_x pos_y =
      plot-Clipped width height pos_x pos_y (clip_x v width pos_x) (clip_y v height pos_y)
        (clip-Clipped v.show_x scroll_x_dim width pos_x)
        (clip-Clipped v.show_y scroll_y_dim height pos_y)
