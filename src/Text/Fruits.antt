-- ===== src/Text/Fruits.antt =====
-- The pixels of the text over the player.
use ece391_computer_systems.Base.{
  ℕ, zero, suc, ◌+◌, ◌-◌, ◌*◌, ◌≤◌, ◌<◌, ◌≡◌, Bool, true, false, ◌&&◌, ◌==◌, ltb, leb,
  if◌then◌else◌, List, [], ◌∷◌, length, get_or, ℤ, arith, refl, ap, ◌∙◌,
}
use ece391_computer_systems.Text.{
  detect_ones, is_index, Planes, put_one, fruit_string, fruit_pixels, fruit_rows, fruit_letters,
  fruit_text_to_graph,
}
use ece391_computer_systems.Text.Letters.{lit, detect_ones_lem}

module _ (s0 r c : ℕ) (hc : c < 8) where
  fruit_pixels_lem :
      (n i : ℕ) (store : ℕ → ℤ) (s j : ℕ) (buf : Planes)
      → i + n ≤ 8
      → fruit_pixels n i store s j buf r (8 * s0 + c) ≡ (
          if (s0 == s) && ((r == j) && (leb i c && (ltb c (i + n) && is_index (store c))))
          then 1
          else buf r (8 * s0 + c))
  unfolding fruit_pixels
  fruit_pixels_lem zero i store s j buf h = ground arith
  fruit_pixels_lem (suc n) i store s j buf h =
      fruit_pixels_lem n (i + 1) store s j
        (if is_index (store i) then put_one buf j (8 * s + i) else buf) (omega arith)
      ∙ one_pixel (is_index (store i)) refl
    where
      one_pixel :
          (b : Bool)
          → is_index (store i) ≡ b
          → (if (s0 == s)
                && ((r == j) && (leb (i + 1) c && (ltb c (i + 1 + n) && is_index (store c))))
              then 1
              else (if b then put_one buf j (8 * s + i) else buf) r (8 * s0 + c))
            ≡ (if (s0 == s) && ((r == j) && (leb i c && (ltb c (i + suc n) && is_index (store c))))
                then 1
                else buf r (8 * s0 + c))
      one_pixel true e =
          let q : c ≡ i → is_index (store c) ≡ true = λ z. ap (λ x. is_index (store x)) z ∙ e in
          ground (arith, q)
      one_pixel false e =
          let q : c ≡ i → is_index (store c) ≡ false = λ z. ap (λ x. is_index (store x)) z ∙ e in
          ground (arith, q)

  fruit_rows_lem :
      (n j : ℕ) (glyph : ℕ → ℕ) (s : ℕ) (buf : Planes)
      → fruit_rows n j glyph s buf r (8 * s0 + c) ≡ (
          if (s0 == s) && (leb j r && (ltb r (j + n) && is_index (detect_ones (glyph r) c)))
          then 1
          else buf r (8 * s0 + c))
  unfolding fruit_rows
  fruit_rows_lem zero j glyph s buf = ground arith
  fruit_rows_lem (suc n) j glyph s buf =
      let p = fruit_pixels_lem 8 0 (detect_ones (glyph j)) s j buf (omega arith) in
      let q : r ≡ j → is_index (detect_ones (glyph r) c) ≡ is_index (detect_ones (glyph j) c) =
        λ z. ap (λ x. is_index (detect_ones (glyph x) c)) z in
      fruit_rows_lem n (j + 1) glyph s (fruit_pixels 8 0 (detect_ones (glyph j)) s j buf)
      ∙ ground (arith, p, q)

  fruit_letters_lem :
      (font_data : ℕ → ℕ → ℕ) (str : List ℕ) (s : ℕ) (buf : Planes)
      → r < 16
      → fruit_letters font_data str s buf r (8 * s0 + c) ≡ (
          if leb s s0
            && (ltb s0 (s + length str)
                && is_index (detect_ones (font_data (get_or str (s0 - s) 0) r) c))
          then 1
          else buf r (8 * s0 + c))
  unfolding fruit_letters
  fruit_letters_lem font_data [] s buf hr = ground arith
  fruit_letters_lem font_data (letter ∷ rest) s buf hr =
      let p = fruit_rows_lem 16 0 (font_data letter) s buf in
      fruit_letters_lem font_data rest (s + 1) (fruit_rows 16 0 (font_data letter) s buf) hr
      ∙ one_letter (s0 - s) refl p
    where
      one_letter :
          (d : ℕ)
          → s0 - s ≡ d
          → fruit_rows 16 0 (font_data letter) s buf r (8 * s0 + c) ≡ (
              if (s0 == s)
                && (leb 0 r && (ltb r 16 && is_index (detect_ones (font_data letter r) c)))
              then 1
              else buf r (8 * s0 + c))
          → (if leb (s + 1) s0
                && (ltb s0 (s + 1 + length rest)
                    && is_index (detect_ones (font_data (get_or rest (s0 - (s + 1)) 0) r) c))
              then 1
              else fruit_rows 16 0 (font_data letter) s buf r (8 * s0 + c))
            ≡ (if leb s s0
                  && (ltb s0 (s + suc (length rest))
                      && is_index (detect_ones (font_data (get_or (letter ∷ rest) d 0) r) c))
                then 1
                else buf r (8 * s0 + c))
      one_letter zero e p = ground (arith, p)
      one_letter (suc d) e p =
          let q : is_index (detect_ones (font_data (get_or rest (s0 - (s + 1)) 0) r) c)
              ≡ is_index (detect_ones (font_data (get_or rest d 0) r) c) =
            ap (λ x. is_index (detect_ones (font_data (get_or rest x 0) r) c)) (omega (arith, e)) in
          ground (arith, p, q)

-- A pixel of the buffer in column `c` of row `r` of letter `s` is 1 when the text of the fruit has
-- that letter and its bit of the font is set, and 0 otherwise. The length is at most 13 letters.
pub fruit_text_to_graph_lem :
    (font_data : ℕ → ℕ → ℕ) (n s r c : ℕ)
    → ((n r : ℕ) → font_data n r < 256)
    → r < 16
    → c < 8
    → ((fruit_text_to_graph font_data n).0 r (8 * s + c) ≡ (
        if ltb s (length (fruit_string n)) && lit (font_data (get_or (fruit_string n) s 0) r) c
        then 1
        else 0))
      × ((fruit_text_to_graph font_data n).1 ≤ 13)
unfolding fruit_text_to_graph
fruit_text_to_graph_lem font_data n s r c byte hr hc = (
  fruit_letters_lem s r c hc font_data (fruit_string n) 0 (λ j k. 0) hr
      ∙ chosen (length (fruit_string n)) _ _ (
          detect_ones_lem (font_data (get_or (fruit_string n) (s - 0) 0) r) c
            (byte (get_or (fruit_string n) (s - 0) 0) r) hc
          ∙ ap (λ d. lit (font_data (get_or (fruit_string n) d 0) r) c) (omega arith)),
  short n,
)
  where
    chosen :
        (n : ℕ) (a b : Bool)
        → a ≡ b
        → ◌≡◌ {A = ℕ}
            (if leb 0 s && (ltb s (0 + n) && a) then 1 else 0)
            (if ltb s n && b then 1 else 0)
    chosen n a b e = ground arith

    short : (n : ℕ) → length (fruit_string n) ≤ 13
    short n = ground arith
