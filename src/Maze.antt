-- ===== src/Maze.antt =====
-- The maze of MP2/maze.c: its squares, their pictures, fruits, and the walls around a square.
-- `blocks n k` is the byte `k` of picture `n` in blocks.s. Squares have non-negative coordinates.
pub mod Pictures
pub mod Filling
pub mod Squares
pub mod Shown
pub mod Unveiling
pub mod Eating
pub mod Counting
pub mod Fruits
pub mod Marking
pub mod Ending
pub mod Reaching
pub mod Ways
pub mod Making
pub mod Joiner
pub mod Crawler
pub mod Lattice
pub mod Rooms
pub mod Digging
pub mod Crawling
pub mod Worms
pub mod Neighbours
pub mod Finding
pub mod Joining
pub mod Knocking
pub mod Connecting
pub mod JoinRounds
pub mod Clearing
pub mod Connected
pub mod Furnishing
pub mod ExitPlace
pub mod Sowing
pub mod Made
pub mod Marked
pub mod Frontier
pub mod Scanning
pub mod Passes
pub mod Rounds
pub mod Returning
pub mod Worming
pub mod Yielding
pub mod Returns
mod Examples
use ece391_computer_systems.Base.{
  ℕ, zero, suc, ◌+◌, ◌-◌, ◌*◌, ◌/◌, ◌%◌, Bool, true, false, ◌||◌, ◌&&◌, not, ◌==◌, ltb, leb,
  if◌then◌else◌, Mem, store, ℤ, pos, negsuc,
}
use ece391_computer_systems.ModeX.{View, draw_full_block}

-- `n_fruits` is the 32-bit pattern of the `int`.
pub record Maze : Type 0 where
  pub maze : ℕ → ℕ
  pub maze_x_dim : ℕ
  pub maze_y_dim : ℕ
  pub n_fruits : ℕ
  pub exit_x : ℕ
  pub exit_y : ℕ

-- MAZE_INDEX(a, b).
abbrev pub maze_index : Maze → ℕ → ℕ → ℕ
maze_index m a b = a + (b + 1) * m.maze_x_dim * 2

abbrev pub square : Maze → ℕ → ℕ → ℕ
square m a b = m.maze (maze_index m a b)

-- The bits of a square: MAZE_WALL 1, MAZE_FRUIT 14, MAZE_EXIT 16, MAZE_REACH 128.
abbrev pub is_wall : ℕ → Bool
is_wall c = not (c % 2 == 0)

abbrev pub fruit_of : ℕ → ℕ
fruit_of c = c / 2 % 8

abbrev pub is_exit : ℕ → Bool
is_exit c = not (c / 16 % 2 == 0)

abbrev pub is_reached : ℕ → Bool
is_reached c = not (c / 128 % 2 == 0)

-- `c |= MAZE_REACH` and `c &= ~MAZE_FRUIT`.
abbrev pub with_reach : ℕ → ℕ
with_reach c = if is_reached c then c else c + 128

abbrev pub without_fruit : ℕ → ℕ
without_fruit c = c - fruit_of c * 2

-- The numbers of the pictures behind the 16 walls.
abbrev pub block_empty : ℕ
block_empty = 16

abbrev pub block_shadow : ℕ
block_shadow = 17

abbrev pub block_player_up : ℕ
block_player_up = 18

abbrev pub block_player_mask_up : ℕ
block_player_mask_up = 22

abbrev pub block_fruit_1 : ℕ
block_fruit_1 = 26

abbrev pub block_fruit_shadow : ℕ
block_fruit_shadow = 33

abbrev pub block_exit : ℕ
block_exit = 34

abbrev pub bit_if : Bool → ℕ → ℕ
bit_if b n = if b then n else 0

-- The neighbours are at `(x, y - 1)`, `(x + 1, y)`, `(x, y + 1)` and `(x - 1, y)`.
abbrev pub wall_up : Maze → ℕ → ℕ → Bool
wall_up m x y = is_wall (m.maze (x + y * m.maze_x_dim * 2))

abbrev pub wall_right : Maze → ℕ → ℕ → Bool
wall_right m x y = is_wall (square m (x + 1) y)

abbrev pub wall_down : Maze → ℕ → ℕ → Bool
wall_down m x y = is_wall (square m x (y + 1))

abbrev pub wall_left : Maze → ℕ → ℕ → Bool
wall_left m x y = is_wall (m.maze (maze_index m x y - 1))

abbrev pub pattern_at : Maze → ℕ → ℕ → ℕ
pattern_at m x y =
    bit_if (wall_up m x y) 1
    + bit_if (wall_right m x y) 2
    + bit_if (wall_down m x y) 4
    + bit_if (wall_left m x y) 8

-- The number of the picture.
unfoldable pub find_block : Maze → ℕ → ℕ → ℕ
find_block m x y =
    let c = square m x y in
    if (m.n_fruits == 0) && is_exit c
    then block_exit
    else if not (is_reached c)
    then (if fruit_of c == 0 then block_shadow else block_fruit_shadow)
    else if not (fruit_of c == 0)
    then block_fruit_1 + fruit_of c - 1
    else if not (is_wall c)
    then block_empty
    else pattern_at m x y

-- The pixels of one picture on a line of `dim` pixels: `at` is
-- the offset in the picture, `step` the way to the next.
pub run_loop : ℕ → ℕ → ℕ → (ℕ → ℕ) → ℕ → ℕ → ℕ → Mem → ℕ × Mem
run_loop zero dim step block at idx sub buf = (idx, buf)
run_loop (suc fuel) dim step block at idx sub buf =
    let rest =
      run_loop fuel dim step block (at + step) (idx + 1) (sub + 1) (store buf idx (block at)) in
    if ltb idx dim && ltb sub 12 then rest else (idx, buf)

-- The pictures of a line: `picture n` is that of the block `n`, `across` the offset that all
-- pixels of the line share.
pub line_loop : ℕ → ℕ → ℕ → ℕ → (ℕ → ℕ → ℕ) → ℕ → ℕ → ℕ → Mem → Mem
line_loop zero dim step across picture map sub idx buf = buf
line_loop (suc fuel) dim step across picture map sub idx buf =
    let run = run_loop 12 dim step (picture map) (across + sub * step) idx sub buf in
    let rest = line_loop fuel dim step across picture (map + 1) 0 run.0 run.1 in
    if ltb idx dim then rest else buf

-- 320 and 182 pixels: after the first block, each round but the last takes 12.
unfoldable pub fill_horiz_buffer : (ℕ → ℕ → ℕ) → Maze → ℕ → ℕ → Mem → Mem
fill_horiz_buffer blocks m x y buf =
    line_loop 28 320 1 (y % 12 * 12) (λ n. blocks (find_block m n (y / 12))) (x / 12) (x % 12) 0 buf

unfoldable pub fill_vert_buffer : (ℕ → ℕ → ℕ) → Maze → ℕ → ℕ → Mem → Mem
fill_vert_buffer blocks m x y buf =
    line_loop 17 182 12 (x % 12) (λ n. blocks (find_block m (x / 12) n)) (y / 12) (y % 12) 0 buf
