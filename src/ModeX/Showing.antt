-- ===== src/ModeX/Showing.antt =====
-- Showing the window: show_screen, copy_image, clear_screens.
use ece391_computer_systems.Base.{
  ℕ, zero, suc, ◌+◌, ◌-◌, ◌*◌, ◌/◌, ◌%◌, ◌≤◌, ◌<◌, ◌≡◌, ◌&&◌, [], ◌∷◌, ◌++◌, ◌==◌, ltb, leb,
  if◌then◌else◌, Mem, refl, ap, ◌∙◌, arith, List,
}
use ece391_computer_systems.ModeX.{View, address, scroll_size}
use ece391_computer_systems.ModeX.Window.{pixel}

abbrev pub Video : Type 0
Video = ℕ → ℕ → ℕ

abbrev pub poke : Video → ℕ → ℕ → ℕ → Video
poke video plane a c p b = if (p == plane) && (b == a) then c else video p b

-- `rep movsb` from memory to the plane that the write mask selects.
pub rep_movsb : ℕ → ℕ → Mem → ℕ → ℕ → Video → Video
rep_movsb zero plane m source target video = video
rep_movsb (suc left) plane m source target video =
    rep_movsb left plane m (source + 1) (target + 1) (poke video plane target (m source))

abbrev pub copy_image : ℕ → Mem → ℕ → ℕ → Video → Video
copy_image plane m img scr_addr video = rep_movsb scroll_size plane m img scr_addr video

-- `target_img ^= 0x4000`.
abbrev pub other_page : ℕ → ℕ
other_page t = if t / 16384 % 2 == 0 then t + 16384 else t - 16384

abbrev pub plane_source : ℕ → ℕ → ℕ → ℕ
plane_source addr p_off i =
    addr + ((p_off + 4 - i) % 4) * scroll_size + (if ltb p_off i then 1 else 0)

pub show_planes : ℕ → ℕ → Mem → ℕ → ℕ → ℕ → Video → Video
show_planes zero i m addr p_off target video = video
show_planes (suc left) i m addr p_off target video =
    show_planes left (i + 1) m addr p_off target
      (copy_image i m (plane_source addr p_off i) target video)

unfoldable pub show_screen : View → View
show_screen v =
    let addr = v.img3 + v.show_x / 4 + v.show_y * 80 in
    let target = other_page v.target_img in
    record v {
      target_img = target;
      video = show_planes 4 0 v.mem addr (3 - v.show_x % 4) target v.video;
      ports = v.ports ++ ((980, target / 256 * 256 + 12) ∷ (980, target % 256 * 256 + 13) ∷ []);
    }

-- All four planes of 64 KB.
abbrev pub clear_screens : View → View
clear_screens v = record v { video = λ p a. if ltb a 65536 then 0 else v.video p a }

rep_movsb_lem :
    (n plane : ℕ) (m : Mem) (source target : ℕ) (video : Video) (p a : ℕ)
    → rep_movsb n plane m source target video p a ≡ (
        if (p == plane) && (leb target a && ltb a (target + n))
        then m (source + (a - target))
        else video p a)
unfolding rep_movsb
rep_movsb_lem zero plane m source target video p a = ground arith
rep_movsb_lem (suc n) plane m source target video p a =
    let r =
      rep_movsb_lem n plane m (source + 1) (target + 1) (poke video plane target (m source)) p a in
    let z : m (source + (target - target)) ≡ m source = ap m (omega arith) in
    let q : target < a → m (source + 1 + (a - (target + 1))) ≡ m (source + (a - target)) =
      λ h. ap m (omega arith) in
    r ∙ ground (arith, z, q)

show_planes_lem :
    (n i : ℕ) (m : Mem) (addr p_off target : ℕ) (video : Video) (p a : ℕ)
    → target ≤ a
    → a < target + scroll_size
    → show_planes n i m addr p_off target video p a ≡ (
        if leb i p && ltb p (i + n)
        then m (plane_source addr p_off p + (a - target))
        else video p a)
unfolding show_planes
show_planes_lem zero i m addr p_off target video p a h k = ground arith
show_planes_lem (suc n) i m addr p_off target video p a h k =
    let video' = copy_image i m (plane_source addr p_off i) target video in
    let r = show_planes_lem n (i + 1) m addr p_off target video' p a h k in
    let c = rep_movsb_lem scroll_size i m (plane_source addr p_off i) target video p a in
    let q : p ≡ i
        → m (plane_source addr p_off p + (a - target))
          ≡ m (plane_source addr p_off i + (a - target)) =
      λ e. ap (λ i. m (plane_source addr p_off i + (a - target))) e in
    r ∙ ground (arith, c, q)

-- The byte of the window that lands at column `dx`, row `dy` of the display.
source_address :
    (img3 sx sy dx dy : ℕ)
    → plane_source (img3 + sx / 4 + sy * 80) (3 - sx % 4) (dx % 4) + (dy * 80 + dx / 4)
      ≡ address img3 (sx + dx) (sy + dy)
unfolding address
source_address img3 sx sy dx dy = ground arith

in_page : (dx dy : ℕ) → dx < 320 → dy < 182 → dy * 80 + dx / 4 < scroll_size
in_page dx dy h k = omega arith

-- The registers of the adapter's controller after words written by OUTW: one to port 0x3D4 has the
-- index in its low byte and the value in its high byte.
abbrev pub crtc : (ℕ → ℕ) → List (ℕ × ℕ) → ℕ → ℕ
crtc registers [] i = registers i
crtc registers ((port, word) ∷ rest) i =
    crtc (λ j. if (port == 0x3d4) && (j == word % 256) then word / 256 % 256 else registers j) rest
      i

-- Where the adapter starts to show its memory: register 0x0C has the high byte, 0x0D the low one.
abbrev pub start_address : (ℕ → ℕ) → View → ℕ
start_address registers v = crtc registers v.ports 0x0c * 256 + crtc registers v.ports 0x0d

crtc-append :
    (registers : ℕ → ℕ) (a b : List (ℕ × ℕ)) (i : ℕ)
    → crtc registers (a ++ b) i ≡ crtc (crtc registers a) b i
crtc-append registers [] b i = refl
crtc-append registers ((port, word) ∷ rest) b i =
    crtc-append
      (λ j. if (port == 0x3d4) && (j == word % 256) then word / 256 % 256 else registers j) rest b i

started_at :
    (registers : ℕ → ℕ) (ports : List (ℕ × ℕ)) (t : ℕ)
    → t < 65536
    → crtc registers (ports ++ ((980, t / 256 * 256 + 12) ∷ (980, t % 256 * 256 + 13) ∷ [])) 0x0c
          * 256
        + crtc registers
            (ports ++ ((980, t / 256 * 256 + 12) ∷ (980, t % 256 * 256 + 13) ∷ []))
            0x0d
      ≡ t
started_at registers ports t h =
    let words = (980, t / 256 * 256 + 12) ∷ (980, t % 256 * 256 + 13) ∷ [] in
    let p = crtc-append registers ports words 0x0c in
    let q = crtc-append registers ports words 0x0d in ground (arith, p, q)

-- After `show_screen`, from a page below 64 KB, the adapter starts to show its memory at the page that
-- was not shown, whatever its registers held, and this page has the window: the byte of plane
-- `dx % 4` for column `dx` and row `dy` is the pixel of the window there.
pub show_screen-pixel :
    (v : View) (registers : ℕ → ℕ) (dx dy : ℕ)
    → v.target_img < 65536
    → dx < 320
    → dy < 182
    → (start_address registers (show_screen v) ≡ other_page v.target_img)
      × ((show_screen v).target_img ≡ other_page v.target_img)
      × ((show_screen v).video (dx % 4) ((show_screen v).target_img + (dy * 80 + dx / 4))
          ≡ pixel v (v.show_x + dx) (v.show_y + dy))
unfolding show_screen
show_screen-pixel v registers dx dy l h k =
    let addr = v.img3 + v.show_x / 4 + v.show_y * 80 in
    let p_off = 3 - v.show_x % 4 in
    let t = other_page v.target_img in
    let o = dy * 80 + dx / 4 in
    let r =
      show_planes_lem 4 0 v.mem addr p_off t v.video (dx % 4) (t + o) (omega arith)
        (within t o (in_page dx dy h k)) in
    let e : plane_source addr p_off (dx % 4) + (t + o - t)
        ≡ address v.img3 (v.show_x + dx) (v.show_y + dy) =
      ap (λ i. plane_source addr p_off (dx % 4) + i) (back t o)
      ∙ source_address v.img3 v.show_x v.show_y dx dy in
    (
      started_at registers v.ports t (below v.target_img l),
      refl,
      r ∙ four (dx % 4) _ _ (omega arith) ∙ ap v.mem e,
    )
  where
    within : (t o : ℕ) → o < scroll_size → t + o < t + scroll_size
    within t o h = omega arith

    below : (t : ℕ) → t < 65536 → other_page t < 65536
    below t h = ground arith

    back : (t o : ℕ) → t + o - t ≡ o
    back t o = omega arith

    four : (p a b : ℕ) → p < 4 → (if leb 0 p && ltb p (0 + 4) then a else b) ≡ a
    four p a b h = ground arith

-- The shown page is 1440 or 17824, and `show_screen` turns from one to the other.
pub show_screen-pages :
    (v : View)
    → (v.target_img ≡ 1440 → (show_screen v).target_img ≡ 17824)
      × (v.target_img ≡ 17824 → (show_screen v).target_img ≡ 1440)
unfolding show_screen
show_screen-pages v = (λ h. ground arith, λ h. ground arith)
