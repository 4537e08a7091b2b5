-- ===== src/Text.antt =====
-- Letters as pixels and the text over the player, in MP2/text.c, and the pixels of show_status in
-- MP2/modex.c; its words are in Status.
-- `font_data n r` is row `r` of the picture of character `n`, a byte.
pub mod Letters
pub mod Fruits
pub mod Status
mod Examples
use ece391_computer_systems.Base.{
  ℕ, zero, suc, ◌+◌, ◌-◌, ◌*◌, ◌/◌, ◌%◌, Bool, true, false, ◌&&◌, ◌==◌, ltb, leb, if◌then◌else◌,
  List, [], ◌∷◌, length, ℤ, pos, negsuc,
}

-- detect_ones: `res[counter]` is `counter` where the bit is 1, and stays -1 elsewhere. The sign bit of `num` is
-- the one that is looked at.
abbrev pub put_index : (ℕ → ℤ) → ℕ → ℕ → ℤ
put_index res counter k = if k == counter then pos counter else res k

unfoldable pub ones_loop : ℕ → ℕ → ℕ → (ℕ → ℤ) → ℕ → ℤ
ones_loop zero counter num res = res
ones_loop (suc left) counter num res =
    ones_loop left (counter + 1) (num * 2 % 256)
      (if leb 128 num then put_index res counter else res)

unfoldable pub detect_ones : ℕ → ℕ → ℤ
detect_ones num = ones_loop 8 0 num (λ k. negsuc 0)

abbrev pub is_index : ℤ → Bool
is_index (pos n) = true
is_index (negsuc n) = false

-- A buffer of four planes.
abbrev pub Planes : Type 0
Planes = ℕ → ℕ → ℕ

abbrev pub put_plane : Planes → ℕ → ℕ → ℕ → Planes
put_plane buf p o c q k = if (q == p) && (k == o) then c else buf q k

-- The offset of column `i` of row `idx` of character `s`; the text begins one row below the top.
abbrev pub letter_offset : ℕ → ℕ → ℕ → ℕ → ℕ
letter_offset space_offset s idx i = space_offset + 80 + i / 4 + 80 * idx + 2 * s

unfoldable pub pixel_loop : ℕ → ℕ → (ℕ → ℤ) → ℕ → ℕ → ℕ → Planes → Planes
pixel_loop zero i result space_offset s idx buf = buf
pixel_loop (suc left) i result space_offset s idx buf =
    pixel_loop left (i + 1) result space_offset s idx (
      if is_index (result i)
      then put_plane buf (3 - i % 4) (letter_offset space_offset s idx i) 15
      else buf)

unfoldable pub row_loop : ℕ → ℕ → (ℕ → ℕ) → ℕ → ℕ → Planes → Planes
row_loop zero idx glyph space_offset s buf = buf
row_loop (suc left) idx glyph space_offset s buf =
    row_loop left (idx + 1) glyph space_offset s
      (pixel_loop 8 0 (detect_ones (glyph idx)) space_offset s idx buf)

unfoldable pub letter_loop : (ℕ → ℕ → ℕ) → List ℕ → ℕ → ℕ → Planes → Planes
letter_loop font_data [] s space_offset buf = buf
letter_loop font_data (letter ∷ rest) s space_offset buf =
    letter_loop font_data rest (s + 1) space_offset
      (row_loop 16 0 (font_data letter) space_offset s buf)

-- `str` has at most 40 characters.
unfoldable pub text_to_graph : (ℕ → ℕ → ℕ) → List ℕ → ℕ → Planes
text_to_graph font_data str bg_color =
    letter_loop font_data str 0 ((320 - 8 * length str) / 8) (λ p o. bg_color)

-- The last part of show_status: the text on its background, white being taken for black, in the
-- four planes at the start of the display.
unfoldable pub show_bar : (ℕ → ℕ → ℕ) → List ℕ → ℕ → Planes → Planes
show_bar font_data str bg_color video p o =
    if ltb p 4 && ltb o 1440
    then text_to_graph font_data str (if bg_color == 15 then 0 else bg_color) (3 - p) o
    else video p o

-- The text over the player: a pixel of `fruit_buf` is 1 in a letter. The strings have at most 13
-- characters.
abbrev pub fruit_string : ℕ → List ℕ
fruit_string n =
    if n == 1
    then b'a' ∷ b'n' ∷ b' ' ∷ b'a' ∷ b'p' ∷ b'p' ∷ b'l' ∷ b'e' ∷ b'!' ∷ []
    else if n == 2
    then b'g' ∷ b'r' ∷ b'a' ∷ b'p' ∷ b'e' ∷ b's' ∷ b'!' ∷ []
    else if n == 3
    then b'a' ∷ b' ' ∷ b'p' ∷ b'e' ∷ b'a' ∷ b'c' ∷ b'h' ∷ b'!' ∷ []
    else if n == 4
    then b'a' ∷ b' ' ∷ b's' ∷ b't' ∷ b'r' ∷ b'a' ∷ b'w' ∷ b'b' ∷ b'e' ∷ b'r' ∷ b'r' ∷ b'y' ∷ b'!'
      ∷ []
    else if n == 5
    then b'a' ∷ b' ' ∷ b'b' ∷ b'a' ∷ b'n' ∷ b'a' ∷ b'n' ∷ b'a' ∷ b'!' ∷ []
    else if n == 6
    then b'w' ∷ b'a' ∷ b't' ∷ b'e' ∷ b'r' ∷ b'm' ∷ b'e' ∷ b'l' ∷ b'o' ∷ b'n' ∷ b'!' ∷ []
    else if n == 7
    then b'Y' ∷ b'E' ∷ b'A' ∷ b'H' ∷ b'!' ∷ b' ' ∷ b'D' ∷ b'E' ∷ b'W' ∷ b'!' ∷ []
    else []

abbrev pub put_one : Planes → ℕ → ℕ → Planes
put_one buf j k a b = if (a == j) && (b == k) then 1 else buf a b

unfoldable pub fruit_pixels : ℕ → ℕ → (ℕ → ℤ) → ℕ → ℕ → Planes → Planes
fruit_pixels zero i store s j buf = buf
fruit_pixels (suc left) i store s j buf =
    fruit_pixels left (i + 1) store s j
      (if is_index (store i) then put_one buf j (8 * s + i) else buf)

unfoldable pub fruit_rows : ℕ → ℕ → (ℕ → ℕ) → ℕ → Planes → Planes
fruit_rows zero j glyph s buf = buf
fruit_rows (suc left) j glyph s buf =
    fruit_rows left (j + 1) glyph s (fruit_pixels 8 0 (detect_ones (glyph j)) s j buf)

unfoldable pub fruit_letters : (ℕ → ℕ → ℕ) → List ℕ → ℕ → Planes → Planes
fruit_letters font_data [] s buf = buf
fruit_letters font_data (letter ∷ rest) s buf =
    fruit_letters font_data rest (s + 1) (fruit_rows 16 0 (font_data letter) s buf)

-- The buffer and the length of the text.
unfoldable pub fruit_text_to_graph : (ℕ → ℕ → ℕ) → ℕ → Planes × ℕ
fruit_text_to_graph font_data n =
    (fruit_letters font_data (fruit_string n) 0 (λ j k. 0), length (fruit_string n))
