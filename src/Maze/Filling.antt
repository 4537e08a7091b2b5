-- ===== src/Maze/Filling.antt =====
-- The lines of the maze: fill_horiz_buffer and fill_vert_buffer give its pixels.
use ece391_computer_systems.Base.{
  ℕ, zero, suc, ◌+◌, ◌-◌, ◌*◌, ◌/◌, ◌%◌, ◌≤◌, ◌<◌, ◌≡◌, Bool-cases, inl, inr, false, ◌&&◌, ltb, leb,
  if◌then◌else◌, Mem, refl, ap, ◌∙◌, sym, arith,
}
use ece391_computer_systems.Maze.{
  Maze, find_block, run_loop, line_loop, fill_horiz_buffer, fill_vert_buffer,
}
use ece391_computer_systems.Maze.Pictures.{maze_pixel, run_end, run_loop_end, run_loop_lem}

line_goes :
    (n dim step across : ℕ) (picture : ℕ → ℕ → ℕ) (map sub idx : ℕ) (buf : Mem) (run : ℕ × Mem)
    → run ≡ run_loop 12 dim step (picture map) (across + sub * step) idx sub buf
    → line_loop (suc n) dim step across picture map sub idx buf
      ≡ (if ltb idx dim then line_loop n dim step across picture (map + 1) 0 run.0 run.1 else buf)
unfolding line_loop
line_goes n dim step across picture map sub idx buf run e =
    ap (λ r. if ltb idx dim then line_loop n dim step across picture (map + 1) 0 r.0 r.1 else buf)
      (sym e)

line_loop_zero :
    (dim step across : ℕ) (picture : ℕ → ℕ → ℕ) (map sub idx : ℕ) (buf : Mem)
    → line_loop 0 dim step across picture map sub idx buf ≡ buf
unfolding line_loop
line_loop_zero dim step across picture map sub idx buf = refl

-- The place of a pixel behind the first run, and in it.
place_behind :
    (dim idx sub j r0 map across step : ℕ)
    → r0 ≡ run_end dim idx sub
    → sub < 12
    → j < dim
    → r0 ≤ j
    → (map + 1 + (0 + (j - r0)) / 12 ≡ map + (sub + (j - idx)) / 12)
      × ((0 + (j - r0)) % 12 ≡ (sub + (j - idx)) % 12)
place_behind dim idx sub j r0 map across step e s h k = (ground arith, ground arith)

place_within :
    (dim idx sub j map across step : ℕ)
    → sub < 12
    → idx ≤ j
    → j < run_end dim idx sub
    → (map ≡ map + (sub + (j - idx)) / 12)
      × (across + sub * step + (j - idx) * step ≡ across + (sub + (j - idx)) % 12 * step)
place_within dim idx sub j map across step s h k =
    let q : (sub + (j - idx)) % 12 ≡ sub + (j - idx) = ground arith in
    (ground arith, ground (arith, ap (λ n. across + n * step) q))

at_both : (p : ℕ → ℕ → ℕ) (a b c d : ℕ) → a ≡ c → b ≡ d → p a b ≡ p c d
at_both p a b c d e f = ap (λ x. p x b) e ∙ ap (p c) f

line_split :
    (dim idx sub j r0 first behind b all old : ℕ)
    → r0 ≡ run_end dim idx sub
    → idx ≤ dim
    → sub < 12
    → b ≡ (if leb idx j && ltb j (run_end dim idx sub) then first else old)
    → (r0 ≤ j → behind ≡ all)
    → (idx ≤ j → j < run_end dim idx sub → first ≡ all)
    → (if leb r0 j then behind else b) ≡ (if leb idx j then all else old)
line_split dim idx sub j r0 first behind b all old e h s f p q = ground arith

line_loop_lem :
    (fuel dim step across : ℕ) (picture : ℕ → ℕ → ℕ) (map sub idx j : ℕ) (buf : Mem)
    → idx ≤ dim
    → sub < 12
    → dim + sub ≤ idx + 12 * fuel
    → j < dim
    → line_loop fuel dim step across picture map sub idx buf j ≡ (
        if leb idx j
        then picture (map + (sub + (j - idx)) / 12) (across + (sub + (j - idx)) % 12 * step)
        else buf j)
line_loop_lem zero dim step across picture map sub idx j buf h k l lt =
    ap (λ f. f j) (line_loop_zero dim step across picture map sub idx buf)
    ∙ nothing idx dim sub j (buf j) _ h l lt
  where
    nothing :
        (idx dim sub j b c : ℕ)
        → idx ≤ dim
        → dim + sub ≤ idx + 12 * 0
        → j < dim
        → b ≡ (if leb idx j then c else b)
    nothing idx dim sub j b c h l lt = ground arith
line_loop_lem (suc n) dim step across picture map sub idx j buf h k l lt =
    let run : ℕ × Mem = run_loop 12 dim step (picture map) (across + sub * step) idx sub buf in
    let e =
      run_loop_end 12 dim step (picture map) (across + sub * step) idx sub buf h (omega arith)
        (omega arith) in
    let b =
      run_loop_lem 12 dim step (picture map) (across + sub * step) idx sub j buf h (omega arith)
        (omega arith) in
    let g = ap (λ f. f j) (line_goes n dim step across picture map sub idx buf run refl) in
    elim (Bool-cases (ltb idx dim)) [
      | inl c ↦
          g
          ∙ ap
              (λ t.
                (if t then line_loop n dim step across picture (map + 1) 0 run.0 run.1 else buf) j)
              c
          ∙ line_loop_lem n dim step across picture (map + 1) 0 run.0 j run.1
              (within dim idx sub run.0 e h) (omega arith) (enough dim idx sub run.0 n e l) lt
          ∙ line_split dim idx sub j run.0 _ _ (run.1 j) _ (buf j) e h k b
              (λ r.
                let p = place_behind dim idx sub j run.0 map across step e k lt r in
                at_both picture _ _ _ _ p.0 (ap (λ i. across + i * step) p.1))
              (λ i r.
                let p = place_within dim idx sub j map across step k i r in
                at_both picture _ _ _ _ p.0 p.1)
      | inr c ↦
          g
          ∙ ap
              (λ t.
                (if t then line_loop n dim step across picture (map + 1) 0 run.0 run.1 else buf) j)
              c
          ∙ past idx dim j (buf j) _ c lt
    ]
  where
    within : (dim idx sub r0 : ℕ) → r0 ≡ run_end dim idx sub → idx ≤ dim → r0 ≤ dim
    within dim idx sub r0 e h = ground arith

    enough :
        (dim idx sub r0 n : ℕ)
        → r0 ≡ run_end dim idx sub
        → dim + sub ≤ idx + 12 * suc n
        → dim + 0 ≤ r0 + 12 * n
    enough dim idx sub r0 n e l = ground arith

    past : (idx dim j b d : ℕ) → ltb idx dim ≡ false → j < dim → b ≡ (if leb idx j then d else b)
    past idx dim j b d c lt = ground arith

from_start : (j a b : ℕ) → (if leb 0 j then a else b) ≡ a
from_start j a b = ground arith

-- The pixels of a horizontal line that starts at `x`, `y` are those of the maze.
pub fill_horiz_buffer_lem :
    (blocks : ℕ → ℕ → ℕ) (m : Maze) (x y j : ℕ) (buf : Mem)
    → j < 320
    → fill_horiz_buffer blocks m x y buf j ≡ maze_pixel blocks m (x + j) y
unfolding fill_horiz_buffer maze_pixel
fill_horiz_buffer_lem blocks m x y j buf h =
    line_loop_lem 28 320 1 (y % 12 * 12) (λ n. blocks (find_block m n (y / 12))) (x / 12) (x % 12) 0
      j buf (omega arith) (omega arith) (omega arith) h
    ∙ from_start j _ _
    ∙ at_both (λ a b. blocks (find_block m a (y / 12)) b) _ _ _ _ (omega arith) (omega arith)

-- The pixels of a vertical line that starts at `x`, `y` are those of the maze.
pub fill_vert_buffer_lem :
    (blocks : ℕ → ℕ → ℕ) (m : Maze) (x y j : ℕ) (buf : Mem)
    → j < 182
    → fill_vert_buffer blocks m x y buf j ≡ maze_pixel blocks m x (y + j)
unfolding fill_vert_buffer maze_pixel
fill_vert_buffer_lem blocks m x y j buf h =
    line_loop_lem 17 182 12 (x % 12) (λ n. blocks (find_block m (x / 12) n)) (y / 12) (y % 12) 0 j
      buf (omega arith) (omega arith) (omega arith) h
    ∙ from_start j _ _
    ∙ at_both (λ a b. blocks (find_block m (x / 12) a) b) _ _ _ _ (omega arith) (omega arith)
