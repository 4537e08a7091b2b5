-- ===== src/ModeX/Examples.antt =====
-- A view at (0, 0) over an empty memory, whose buffer starts at 2 MB; a block at (-3, 5).
use ece391_computer_systems.Base.{ℕ, ◌≡◌, ◌+◌, inl, some, arith, [], pos, negsuc, Option, Mem}
use ece391_computer_systems.ModeX.{
  View, set_view_window, draw_full_block, draw_full_block_with_mask, copy_full_block, draw_inked,
}
use ece391_computer_systems.ModeX.Address.{InWindow}
use ece391_computer_systems.ModeX.Window.{IsView, pixel, set_view_window-pixel}
use ece391_computer_systems.ModeX.Drawing.{draw_inked-pixel}
use ece391_computer_systems.ModeX.Undraw.{draw_full_block-copy_full_block}
use ece391_computer_systems.ModeX.Fence.{draw_inked_frame}
use ece391_computer_systems.ModeX.Showing.{show_screen, start_address, show_screen-pixel}

abbrev view : View
view = record {
  mem = λ a. a;
  build = 2097152;
  img3 = 2107152;
  show_x = 0;
  show_y = 0;
  target_img = 1440;
  video = λ p a. 0;
  ports = [];
}

view-IsView : IsView view
view-IsView = record {
  holds = record { low = omega arith; high = omega arith };
  above = omega arith;
}

-- The pixel (5, 7) is in the window at (0, 0) and in that at (4, 3).
old : InWindow 0 0 5 7
old = record { left = omega arith; right = omega arith; top = omega arith; bottom = omega arith }

new : InWindow 4 3 5 7
new = record { left = omega arith; right = omega arith; top = omega arith; bottom = omega arith }

set_view_window-pixel_example : pixel (set_view_window view 4 3) 5 7 ≡ pixel view 5 7
set_view_window-pixel_example =
    set_view_window-pixel view 4 3 5 7 view-IsView (omega arith) (omega arith) old new

abbrev ink : ℕ → Option ℕ
ink k = some k

-- Row 2 and column 8 of the block.
draw_inked-pixel_example : pixel (draw_inked view 12 12 ink (negsuc 2) (pos 5)) 5 7 ≡ 32
draw_inked-pixel_example = draw_inked-pixel view 5 7 old ink 12 12 (negsuc 2) (pos 5)

abbrev picture : Mem
picture k = 3

draw_full_block-copy_full_block_example :
    pixel
      (draw_full_block
        (draw_full_block_with_mask view (negsuc 2) (pos 5) picture (λ k. 1))
        (negsuc 2)
        (pos 5)
        (copy_full_block view (negsuc 2) (pos 5) picture))
      5
      7
    ≡ pixel view 5 7
draw_full_block-copy_full_block_example =
    draw_full_block-copy_full_block view (negsuc 2) (pos 5) picture (λ k. 1) picture 5 7 old

draw_inked_frame_example : (draw_inked view 12 12 ink (negsuc 2) (pos 5)).mem 2097151 ≡ 2097151
draw_inked_frame_example =
    draw_inked_frame view 12 12 ink (negsuc 2) (pos 5) 2097151 view-IsView (inl (omega arith))

show_screen-pixel_example :
    (start_address (λ i. 0) (show_screen view) ≡ 17824)
    × ((show_screen view).target_img ≡ 17824)
    × ((show_screen view).video 1 ((show_screen view).target_img + 561) ≡ pixel view 5 7)
show_screen-pixel_example =
    show_screen-pixel view (λ i. 0) 5 7 (omega arith) (omega arith) (omega arith)
