-- ===== src/Tux/Leds.antt =====
-- What the digits show: set_led_tux, and the time that the game shows.
use ece391_computer_systems.Base.{
  ℕ, zero, suc, ◌+◌, ◌-◌, ◌*◌, ◌/◌, ◌%◌, ◌^◌, ◌<◌, ◌≡◌, Bool-cases, inl, inr, true, ◌==◌,
  if◌then◌else◌, all_below, all_below_sound, get_or, List, [], ◌∷◌, ==_iff, refl, ap, ◌∙◌, sym,
  arith,
}
use ece391_computer_systems.Tux.{hex_formats, flip_point, led_byte, led_buffer}

-- A byte of the display: its decimal point, and its seven segments.
abbrev pub point_of : ℕ → ℕ
point_of byte = byte / 16 % 2

abbrev pub segments : ℕ → ℕ
segments byte = byte - point_of byte * 16

-- The map from bits to segments in mtcp.h: A on top, then clockwise B to F, and G in the middle.
abbrev pub seg_a : ℕ
seg_a = 128

abbrev pub seg_b : ℕ
seg_b = 2

abbrev pub seg_c : ℕ
seg_c = 4

abbrev pub seg_d : ℕ
seg_d = 1

abbrev pub seg_e : ℕ
seg_e = 64

abbrev pub seg_f : ℕ
seg_f = 32

abbrev pub seg_g : ℕ
seg_g = 8

-- The usual shapes of the digits 0 to 9 and A, b, C, d, E, F on seven segments.
abbrev pub shapes : List ℕ
shapes =
    (seg_a + seg_b + seg_c + seg_d + seg_e + seg_f)
    ∷ (seg_b + seg_c)
    ∷ (seg_a + seg_b + seg_g + seg_e + seg_d)
    ∷ (seg_a + seg_b + seg_g + seg_c + seg_d)
    ∷ (seg_f + seg_g + seg_b + seg_c)
    ∷ (seg_a + seg_f + seg_g + seg_c + seg_d)
    ∷ (seg_a + seg_f + seg_g + seg_e + seg_d + seg_c)
    ∷ (seg_a + seg_b + seg_c)
    ∷ (seg_a + seg_b + seg_c + seg_d + seg_e + seg_f + seg_g)
    ∷ (seg_a + seg_b + seg_c + seg_f + seg_g)
    ∷ (seg_a + seg_b + seg_c + seg_e + seg_f + seg_g)
    ∷ (seg_c + seg_d + seg_e + seg_f + seg_g)
    ∷ (seg_a + seg_d + seg_e + seg_f)
    ∷ (seg_b + seg_c + seg_d + seg_e + seg_g)
    ∷ (seg_a + seg_d + seg_e + seg_f + seg_g)
    ∷ (seg_a + seg_e + seg_f + seg_g)
    ∷ []

abbrev pub glyph : ℕ → ℕ
glyph d = get_or shapes d 0

formats_shaped : all_below 16 (λ d. segments (get_or hex_formats d 0) == glyph d) ≡ true
unfolding hex_formats
formats_shaped = refl

-- The table of the driver has the usual shapes.
format_shape : (d : ℕ) → d < 16 → segments (get_or hex_formats d 0) ≡ glyph d
format_shape d h =
    (==_iff (segments (get_or hex_formats d 0)) (glyph d)).0
      (all_below_sound 16 (λ d. segments (get_or hex_formats d 0) == glyph d) d formats_shaped h)

formats_pointed : all_below 16 (λ d. point_of (get_or hex_formats d 0) == 1) ≡ true
unfolding hex_formats
formats_pointed = refl

-- The byte of the place `i` from the right.
abbrev pub place_byte : ℕ → ℕ → ℕ
place_byte led i = get_or (led_buffer led) (2 + i) 0

abbrev byte_of : ℕ → ℕ → ℕ → ℕ
byte_of on dp n =
    if on % 2 == 1 then (if dp % 2 == 0 then flip_point n else n) else if dp % 2 == 1 then 16 else 0

lit_byte :
    (on dp hex : ℕ)
    → on % 2 ≡ 1
    → (point_of (led_byte on dp hex) ≡ dp % 2) × (segments (led_byte on dp hex) ≡ glyph (hex % 16))
lit_byte on dp hex h =
    let r = lit on dp (get_or hex_formats (hex % 16) 0) h (
      all_below_sound 16 (λ d. point_of (get_or hex_formats d 0) == 1) (hex % 16) formats_pointed
        (omega arith)) in
    (r.0, r.1 ∙ format_shape (hex % 16) (omega arith))
  where
    lit :
        (on dp n : ℕ)
        → on % 2 ≡ 1
        → point_of n == 1 ≡ true
        → (point_of (byte_of on dp n) ≡ dp % 2) × (segments (byte_of on dp n) ≡ segments n)
    lit on dp n h e = (ground arith, ground arith)

dark_byte :
    (on dp hex : ℕ)
    → on % 2 ≡ 0
    → (point_of (led_byte on dp hex) ≡ dp % 2) × (segments (led_byte on dp hex) ≡ 0)
dark_byte on dp hex h = (ground arith, ground arith)

-- Bit `i` of a number, and the hexadecimal digit `i`.
abbrev pub bit_at : ℕ → ℕ → ℕ
bit_at n i = n / 2 ^ i % 2

abbrev pub digit_at : ℕ → ℕ → ℕ
digit_at n i = n / 16 ^ i % 16

any_byte :
    (on dp hex : ℕ)
    → (point_of (led_byte on dp hex) ≡ dp % 2)
      × (segments (led_byte on dp hex) ≡ (if on % 2 == 1 then glyph (hex % 16) else 0))
any_byte on dp hex = elim (Bool-cases (on % 2 == 1)) [
  | inl e ↦
      let b = lit_byte on dp hex (ground arith) in
      (b.0, b.1 ∙ sym (ap (λ t. if t then glyph (hex % 16) else 0) e))
  | inr e ↦
      let b = dark_byte on dp hex (ground arith) in
      (b.0, b.1 ∙ sym (ap (λ t. if t then glyph (hex % 16) else 0) e))
]

placed :
    (on dp hex led i : ℕ)
    → on % 2 ≡ bit_at (led / 65536) i
    → dp % 2 ≡ bit_at (led / 16777216) i
    → hex % 16 ≡ digit_at led i
    → (point_of (led_byte on dp hex) ≡ bit_at (led / 16777216) i)
      × (segments (led_byte on dp hex)
          ≡ (if bit_at (led / 65536) i == 1 then glyph (digit_at led i) else 0))
placed on dp hex led i e f g =
    let b = any_byte on dp hex in
    (
      b.0 ∙ f,
      b.1
          ∙ ap (λ o. if o == 1 then glyph (hex % 16) else 0) e
          ∙ ap (λ d. if bit_at (led / 65536) i == 1 then glyph d else 0) g,
    )

-- Of the four places, place `i` shows digit `i` of the number when bit 16 + `i` is set and is dark
-- otherwise, and its decimal point is bit 24 + `i`.
pub led_buffer_lem :
    (led i : ℕ)
    → i < 4
    → (point_of (place_byte led i) ≡ bit_at (led / 16777216) i)
      × (segments (place_byte led i)
          ≡ (if bit_at (led / 65536) i == 1 then glyph (digit_at led i) else 0))
unfolding led_buffer
led_buffer_lem led zero h =
    placed (led / 65536 % 256) (led / 16777216 % 16) (led % 65536) led 0 (omega arith) (omega arith)
      (omega arith)
led_buffer_lem led (suc zero) h =
    placed (led / 65536 % 256 / 2) (led / 16777216 % 16 / 2) (led % 65536 / 16) led 1 (omega arith)
      (omega arith) (omega arith)
led_buffer_lem led (suc (suc zero)) h =
    placed (led / 65536 % 256 / 2 / 2) (led / 16777216 % 16 / 2 / 2) (led % 65536 / 16 / 16) led 2
      (omega arith) (omega arith) (omega arith)
led_buffer_lem led (suc (suc (suc zero))) h =
    placed (led / 65536 % 256 / 2 / 2 / 2) (led / 16777216 % 16 / 2 / 2 / 2)
      (led % 65536 / 16 / 16 / 16) led 3 (omega arith) (omega arith) (omega arith)
led_buffer_lem led (suc (suc (suc (suc i)))) h = absurd (omega arith)
