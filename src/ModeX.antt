-- ===== src/ModeX.antt =====
-- The mode X screen of MP2/modex.c: the logical view window, and drawing into the build buffer.
-- The buffer is part of the memory; `build` is the address of its byte 0, behind the lower fence.
-- The code keeps `img3_off` too, which is always `img3 - build`: its tests are written with `img3`.
-- The window never leaves the non-negative coordinates; the corner of a block may.
pub mod Lines
pub mod Address
pub mod Window
pub mod Buffer
pub mod Drawing
pub mod Undraw
pub mod Fence
pub mod Showing
mod Examples
use ece391_computer_systems.Base.{
  ℕ, zero, suc, ◌+◌, ◌-◌, ◌*◌, ◌/◌, ◌%◌, Bool, true, false, ◌||◌, ◌&&◌, List, [], ◌∷◌, Option, none,
  some, ◌==◌, ltb, leb, if◌then◌else◌, Mem, store, ℤ, pos, negsuc, success, failure,
}

-- `video p a` is the byte at offset `a` of plane `p`. `ports` has the words written by OUTW, oldest
-- first, without those that select the planes.
pub record View : Type 0 where
  pub mem : Mem
  pub build : ℕ
  pub img3 : ℕ
  pub show_x : ℕ
  pub show_y : ℕ
  pub target_img : ℕ
  pub video : ℕ → ℕ → ℕ
  pub ports : List (ℕ × ℕ)

abbrev pub scroll_x_dim : ℕ
scroll_x_dim = 320

abbrev pub scroll_y_dim : ℕ
scroll_y_dim = 182

-- One plane: 80 * 182 bytes.
abbrev pub scroll_size : ℕ
scroll_size = 14560

-- 4 * 14560 + 1 + 20000.
abbrev pub build_buf_size : ℕ
build_buf_size = 78241

abbrev pub build_base_init : ℕ
build_base_init = 10000

-- `img3 + (x >> 2) + y * SCROLL_X_WIDTH + (3 - (x & 3)) * SCROLL_SIZE`.
unfoldable pub address : ℕ → ℕ → ℕ → ℕ
address img3 x y = img3 + x / 4 + y * 80 + (3 - x % 4) * scroll_size

-- The copies of `set_view_window`, downwards and upwards.
pub shift_down : ℕ → Mem → ℕ → ℕ → Mem
shift_down zero m target start = m
shift_down (suc i) m target start = shift_down i (store m (target + i) (m (start + i))) target start

pub shift_up : ℕ → Mem → ℕ → ℕ → Mem
shift_up zero m target start = m
shift_up (suc left) m target start =
    shift_up left (store m target (m start)) (target + 1) (start + 1)

abbrev pub move_bytes : Mem → ℕ → ℕ → ℕ → Mem
move_bytes m target start length =
    if ltb start target then shift_down length m target start else shift_up length m target start

-- `img3` for a window in the middle of the buffer.
abbrev pub centred : ℕ → ℕ → ℕ → ℕ
centred build x y = build + build_base_init - x / 4 - y * 80

abbrev pub larger : ℕ → ℕ → ℕ
larger a b = if ltb b a then a else b

abbrev pub smaller : ℕ → ℕ → ℕ
smaller a b = if ltb b a then b else a

-- Whether the window at `x`, `y` lies within the buffer, and whether two windows have no pixel in
-- common.
abbrev pub holds_window : ℕ → ℕ → ℕ → ℕ → Bool
holds_window build img3 x y =
    leb build (img3 + x / 4 + y * 80)
    && ltb (img3 + 3 * scroll_size + (x + scroll_x_dim - 1) / 4 + (y + scroll_y_dim - 1) * 80)
        (build + build_buf_size)

abbrev pub disjoint : ℕ → ℕ → ℕ → ℕ → Bool
disjoint x y old_x old_y =
    leb (x + scroll_x_dim) old_x
    || (leb (old_x + scroll_x_dim) x
        || (leb (y + scroll_y_dim) old_y || leb (old_y + scroll_y_dim) y))

-- The last part: what both windows show is moved.
unfoldable pub shift_view : View → ℕ → ℕ → View
shift_view v x y =
    let start_off = larger x v.show_x / 4 + larger y v.show_y * 80 in
    let end_x = smaller x v.show_x + scroll_x_dim - 1 in
    let end_y = smaller y v.show_y + scroll_y_dim - 1 in
    let length = end_x / 4 + end_y * 80 + 1 + 3 * scroll_size - start_off in
    let img3 = centred v.build x y in
    record v {
      show_x = x;
      show_y = y;
      img3 = img3;
      mem = move_bytes v.mem (img3 + start_off) (v.img3 + start_off) length;
    }

unfoldable pub set_view_window : View → ℕ → ℕ → View
set_view_window v x y =
    if holds_window v.build v.img3 x y
    then record v { show_x = x; show_y = y }
    else if disjoint x y v.show_x v.show_y
    then record v { show_x = x; show_y = y; img3 = centred v.build x y }
    else shift_view v x y

-- Clipping one axis of a block of `size` pixels at `p` to the window of `dim` pixels at `show`: the
-- pixels to skip, the pixels to draw, and where these start. `none` is a block off the window.
pub record Clip : Type 0 where
  pub skip : ℕ
  pub run : ℕ
  pub start : ℕ

abbrev pub clip_at : ℕ → ℕ → ℕ → Clip
clip_at skip right start = record { skip = skip; run = right - skip; start = start }

unfoldable pub clip : ℕ → ℕ → ℕ → ℤ → Option Clip
clip show dim size (pos p) =
    let skip = if ltb show p then 0 else show - p in
    let right = if ltb size (show + dim - p) then size else show + dim - p in
    if leb (p + size) show || leb (show + dim) p then none else some (clip_at skip right (p + skip))
clip show dim size (negsuc n) =
    let skip = show + (n + 1) in
    let right = if ltb size (show + dim + (n + 1)) then size else show + dim + (n + 1) in
    if leb size (show + (n + 1)) then none else some (clip_at skip right show)

-- The two loops over the clipped block: `k` is the offset of the pixel in the block's data, whose
-- rows have `width` bytes.
module _ {S : Type 0} (body : ℕ → ℕ → ℕ → S → S) where
  pub scan_row : ℕ → ℕ → ℕ → ℕ → S → S
  scan_row zero x y k s = s
  scan_row (suc left) x y k s = scan_row left (x + 1) y (k + 1) (body x y k s)

  pub scan_rows : ℕ → ℕ → ℕ → ℕ → ℕ → ℕ → S → S
  scan_rows zero run width x y k s = s
  scan_rows (suc left) run width x y k s =
      scan_rows left run width x (y + 1) (k + run + (width - run)) (scan_row run x y k s)

  abbrev pub scan_clipped : ℕ → Option Clip → Option Clip → S → S
  scan_clipped width none cy s = s
  scan_clipped width (some cx) none s = s
  scan_clipped width (some cx) (some cy) s =
      scan_rows cy.run cx.run width cx.start cy.start (cx.skip + cy.skip * width) s

-- The pixel that is written, if any.
abbrev pub write_ink : Mem → ℕ → Option ℕ → Mem
write_ink m a none = m
write_ink m a (some c) = store m a c

pub plot : ℕ → (ℕ → Option ℕ) → ℕ → ℕ → ℕ → Mem → Mem
plot img3 ink x y k m = write_ink m (address img3 x y) (ink k)

-- A pixel read into a buffer.
pub pick : Mem → ℕ → ℕ → ℕ → ℕ → Mem → Mem
pick m img3 x y k buf = store buf k (m (address img3 x y))

abbrev pub clip_x : View → ℕ → ℤ → Option Clip
clip_x v size p = clip v.show_x scroll_x_dim size p

abbrev pub clip_y : View → ℕ → ℤ → Option Clip
clip_y v size p = clip v.show_y scroll_y_dim size p

unfoldable pub draw_inked : View → ℕ → ℕ → (ℕ → Option ℕ) → ℤ → ℤ → View
unfolding scan_rows
draw_inked v width height ink pos_x pos_y = record v {
  mem = scan_clipped (plot v.img3 ink) width (clip_x v width pos_x) (clip_y v height pos_y) v.mem;
}

unfoldable pub read_block : View → ℕ → ℕ → ℤ → ℤ → Mem → Mem
unfolding scan_rows
read_block v width height pos_x pos_y buf =
    scan_clipped (pick v.mem v.img3) width (clip_x v width pos_x) (clip_y v height pos_y) buf

-- Blocks of 12 x 12 pixels.
unfoldable pub draw_full_block : View → ℤ → ℤ → Mem → View
draw_full_block v pos_x pos_y blk = draw_inked v 12 12 (λ k. some (blk k)) pos_x pos_y

abbrev pub masked_ink : Mem → Mem → ℕ → Option ℕ
masked_ink blk mask k = if mask k == 1 then some (blk k) else none

unfoldable pub draw_full_block_with_mask : View → ℤ → ℤ → Mem → Mem → View
draw_full_block_with_mask v pos_x pos_y blk mask =
    draw_inked v 12 12 (masked_ink blk mask) pos_x pos_y

unfoldable pub copy_full_block : View → ℤ → ℤ → Mem → Mem
copy_full_block v pos_x pos_y blk = read_block v 12 12 pos_x pos_y blk

-- Blocks of 104 x 16 pixels, whose rows are first moved into the window.
abbrev pub below_top : ℕ → ℤ → ℕ
below_top show_y (pos p) = if leb p show_y then show_y else p
below_top show_y (negsuc n) = show_y

abbrev pub adjust_y : View → ℤ → ℕ
adjust_y v pos_y =
    let y = below_top v.show_y pos_y in
    if leb (v.show_y + scroll_y_dim) (y + 16) then v.show_y + scroll_y_dim - 15 else y

pub save_floor_block : View → ℤ → ℤ → Mem → Mem
save_floor_block v pos_x pos_y floor_block =
    read_block v 104 16 pos_x (pos (adjust_y v pos_y)) floor_block

abbrev pub text_ink : Mem → Mem → ℕ → Option ℕ
text_ink blk fruit_text k = if fruit_text k == 0 then none else some ((blk k + 64) % 256)

pub draw_fruit_text_full_block : View → ℤ → ℤ → Mem → Mem → View
draw_fruit_text_full_block v pos_x pos_y blk fruit_text =
    draw_inked v 104 16 (text_ink blk fruit_text) pos_x (pos (adjust_y v pos_y))

pub mask_fruit_text_full_block : View → ℤ → ℤ → Mem → View
mask_fruit_text_full_block v pos_x pos_y blk =
    draw_inked v 104 16 (λ k. some (blk k)) pos_x (pos (adjust_y v pos_y))
