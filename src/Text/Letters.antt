-- ===== src/Text/Letters.antt =====
-- Every pixel of every letter of the status bar.
use ece391_computer_systems.Base.{
  ℕ, zero, suc, ◌+◌, ◌-◌, ◌*◌, ◌/◌, ◌%◌, ◌^◌, ◌≤◌, ◌<◌, ◌≡◌, Bool, true, false, ◌&&◌, ◌==◌, ltb,
  leb, not, all_below, all_below_sound, if◌then◌else◌, List, [], ◌∷◌, length, get_or, ℤ, arith,
  refl, ap, ◌∙◌,
}
use ece391_computer_systems.Text.{
  ones_loop, detect_ones, is_index, Planes, put_plane, letter_offset, pixel_loop, row_loop,
  letter_loop, text_to_graph, show_bar,
}

-- Column `k` of a row of a letter is lit when bit `7 - k` is set.
abbrev pub lit : ℕ → ℕ → Bool
lit row k = row / 2 ^ (7 - k) % 2 == 1

alike : Bool → Bool → Bool
alike true b = b
alike false b = not b

alike_eq : (a b : Bool) → alike a b ≡ true → a ≡ b
unfolding alike
alike_eq true true e = refl
alike_eq true false e = absurd cc
alike_eq false true e = absurd cc
alike_eq false false e = refl

every_row :
    all_below 256 (λ row. all_below 8 (λ k. alike (is_index (detect_ones row k)) (lit row k)))
    ≡ true
unfolding alike detect_ones ones_loop
every_row = refl

pub detect_ones_lem : (row k : ℕ) → row < 256 → k < 8 → is_index (detect_ones row k) ≡ lit row k
detect_ones_lem row k h l = alike_eq (is_index (detect_ones row k)) (lit row k) (
    all_below_sound 8 (λ k. alike (is_index (detect_ones row k)) (lit row k)) k
      (all_below_sound 256
        (λ row. all_below 8 (λ k. alike (is_index (detect_ones row k)) (lit row k))) row every_row
        h)
      l)

spot_lem :
    (buf : Planes) (so s idx i s0 r c color : ℕ)
    → i < 8
    → c < 8
    → s < 40
    → s0 < 40
    → put_plane buf
        (3 - i % 4)
        (letter_offset so s idx i)
        color
        (3 - c % 4)
        (letter_offset so s0 r c)
      ≡ (if (s0 == s) && ((r == idx) && (c == i))
          then color
          else buf (3 - c % 4) (letter_offset so s0 r c))
spot_lem buf so s idx i s0 r c color h k l m = ground arith

-- What the place of row `r`, column `c` of letter `s0` of a buffer holds.
abbrev pub spot : Planes → ℕ → ℕ → ℕ → ℕ → ℕ
spot buf so s0 r c = buf (3 - c % 4) (letter_offset so s0 r c)

module _ (so s0 r c : ℕ) (hc : c < 8) (h0 : s0 < 40) where
  pixel_loop_lem :
      (n i : ℕ) (result : ℕ → ℤ) (s idx : ℕ) (buf : Planes)
      → i + n ≤ 8
      → s < 40
      → spot (pixel_loop n i result so s idx buf) so s0 r c ≡ (
          if (s0 == s) && ((r == idx) && (leb i c && (ltb c (i + n) && is_index (result c))))
          then 15
          else spot buf so s0 r c)
  unfolding pixel_loop
  pixel_loop_lem zero i result s idx buf h k = ground arith
  pixel_loop_lem (suc n) i result s idx buf h k =
      pixel_loop_lem n (i + 1) result s idx
        (if is_index (result i)
          then put_plane buf (3 - i % 4) (letter_offset so s idx i) 15
          else buf)
        (omega arith) k
      ∙ one_pixel (is_index (result i)) refl
    where
      one_pixel :
          (b : Bool)
          → is_index (result i) ≡ b
          → (if (s0 == s)
                && ((r == idx) && (leb (i + 1) c && (ltb c (i + 1 + n) && is_index (result c))))
              then 15
              else spot
                  (if b then put_plane buf (3 - i % 4) (letter_offset so s idx i) 15 else buf)
                  so
                  s0
                  r
                  c)
            ≡ (if (s0 == s)
                  && ((r == idx) && (leb i c && (ltb c (i + suc n) && is_index (result c))))
                then 15
                else spot buf so s0 r c)
      one_pixel true e =
          let p = spot_lem buf so s idx i s0 r c 15 (omega arith) hc k h0 in
          let q : c ≡ i → is_index (result c) ≡ true = λ z. ap (λ x. is_index (result x)) z ∙ e in
          ground (arith, p, q)
      one_pixel false e =
          let q : c ≡ i → is_index (result c) ≡ false = λ z. ap (λ x. is_index (result x)) z ∙ e in
          ground (arith, q)

  row_loop_lem :
      (n idx : ℕ) (glyph : ℕ → ℕ) (s : ℕ) (buf : Planes)
      → s < 40
      → spot (row_loop n idx glyph so s buf) so s0 r c ≡ (
          if (s0 == s) && (leb idx r && (ltb r (idx + n) && is_index (detect_ones (glyph r) c)))
          then 15
          else spot buf so s0 r c)
  unfolding row_loop
  row_loop_lem zero idx glyph s buf k = ground arith
  row_loop_lem (suc n) idx glyph s buf k =
      let p = pixel_loop_lem 8 0 (detect_ones (glyph idx)) s idx buf (omega arith) k in
      let q : r ≡ idx → is_index (detect_ones (glyph r) c) ≡ is_index (detect_ones (glyph idx) c) =
        λ z. ap (λ x. is_index (detect_ones (glyph x) c)) z in
      row_loop_lem n (idx + 1) glyph s (pixel_loop 8 0 (detect_ones (glyph idx)) so s idx buf) k
      ∙ ground (arith, p, q)

  letter_loop_lem :
      (font_data : ℕ → ℕ → ℕ) (str : List ℕ) (s : ℕ) (buf : Planes)
      → r < 16
      → s + length str ≤ 40
      → spot (letter_loop font_data str s so buf) so s0 r c ≡ (
          if leb s s0
            && (ltb s0 (s + length str)
                && is_index (detect_ones (font_data (get_or str (s0 - s) 0) r) c))
          then 15
          else spot buf so s0 r c)
  unfolding letter_loop
  letter_loop_lem font_data [] s buf hr k = ground arith
  letter_loop_lem font_data (letter ∷ rest) s buf hr k =
      let p = row_loop_lem 16 0 (font_data letter) s buf (omega arith) in
      letter_loop_lem font_data rest (s + 1) (row_loop 16 0 (font_data letter) so s buf) hr
        (omega arith)
      ∙ one_letter (s0 - s) refl p
    where
      one_letter :
          (d : ℕ)
          → s0 - s ≡ d
          → spot (row_loop 16 0 (font_data letter) so s buf) so s0 r c ≡ (
              if (s0 == s)
                && (leb 0 r && (ltb r 16 && is_index (detect_ones (font_data letter r) c)))
              then 15
              else spot buf so s0 r c)
          → (if leb (s + 1) s0
                && (ltb s0 (s + 1 + length rest)
                    && is_index (detect_ones (font_data (get_or rest (s0 - (s + 1)) 0) r) c))
              then 15
              else spot (row_loop 16 0 (font_data letter) so s buf) so s0 r c)
            ≡ (if leb s s0
                  && (ltb s0 (s + suc (length rest))
                      && is_index (detect_ones (font_data (get_or (letter ∷ rest) d 0) r) c))
                then 15
                else spot buf so s0 r c)
      one_letter zero e p = ground (arith, p)
      one_letter (suc d) e p =
          let q : is_index (detect_ones (font_data (get_or rest (s0 - (s + 1)) 0) r) c)
              ≡ is_index (detect_ones (font_data (get_or rest d 0) r) c) =
            ap (λ x. is_index (detect_ones (font_data (get_or rest x 0) r) c)) (omega (arith, e)) in
          ground (arith, p, q)

-- On a status bar with at most 40 characters, the pixel in column `c` of row `r` of letter `s` is 15
-- when its bit of the font is set, and has the background colour otherwise. The text is centred: a
-- letter is 8 pixels wide, and the text starts 4 pixels for each missing character to the right.
pub show_bar-letter :
    (font_data : ℕ → ℕ → ℕ) (str : List ℕ) (bg_color : ℕ) (video : Planes) (s r c x : ℕ)
    → ((n r : ℕ) → font_data n r < 256)
    → length str ≤ 40
    → s < length str
    → r < 16
    → c < 8
    → x ≡ 4 * (40 - length str) + 8 * s + c
    → show_bar font_data str bg_color video (x % 4) ((r + 1) * 80 + x / 4) ≡ (
        if lit (font_data (get_or str s 0) r) c then 15 else if bg_color == 15 then 0 else bg_color)
unfolding show_bar text_to_graph
show_bar-letter font_data str bg_color video s r c x byte hl hs hr hc e =
    let bg = if bg_color == 15 then 0 else bg_color in
    let so = (320 - 8 * length str) / 8 in
    let l =
      letter_loop_lem so s r c hc (omega arith) font_data str 0 (λ p o. bg) hr (omega arith) in
    let a : x % 4 ≡ c % 4 = omega (arith, e) in
    let b : (r + 1) * 80 + x / 4 ≡ letter_offset so s r c = omega (arith, e, hl, hs) in
    inside (x % 4) ((r + 1) * 80 + x / 4) _ _ (omega arith) (omega (arith, e, hl, hs, hr, hc))
    ∙ ap (λ p. letter_loop font_data str 0 so (λ p o. bg) (3 - p) ((r + 1) * 80 + x / 4)) a
    ∙ ap (λ o. letter_loop font_data str 0 so (λ p o. bg) (3 - c % 4) o) b
    ∙ l
    ∙ chosen (length str) s hs _ _ bg (
        ap (λ i. is_index (detect_ones (font_data (get_or str i 0) r) c)) (omega arith)
        ∙ detect_ones_lem (font_data (get_or str s 0) r) c (byte (get_or str s 0) r) hc)
  where
    inside : (p o a b : ℕ) → p < 4 → o < 1440 → (if ltb p 4 && ltb o 1440 then a else b) ≡ a
    inside p o a b h k = ground arith

    chosen :
        (n s : ℕ)
        → s < n
        → (a b : Bool) (bg : ℕ) → a ≡ b
        → (if leb 0 s && (ltb s (0 + n) && a) then 15 else bg) ≡ (if b then 15 else bg)
    chosen n s h a b bg e = ground arith
