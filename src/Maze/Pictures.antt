-- ===== src/Maze/Pictures.antt =====
-- The lines of the maze as pixels: fill_horiz_buffer, fill_vert_buffer.
use ece391_computer_systems.Base.{
  ℕ, zero, suc, ◌+◌, ◌-◌, ◌*◌, ◌/◌, ◌%◌, ◌≤◌, ◌<◌, ◌≡◌, Bool-cases, inl, inr, true, false, ◌&&◌,
  ◌==◌, ltb, leb, if◌then◌else◌, Mem, store, refl, ap, ◌∙◌, arith,
}
use ece391_computer_systems.Maze.{Maze, find_block, run_loop}

-- The colour of pixel `px`, `py` of the whole maze: that of its place in the picture of its square.
unfoldable pub maze_pixel : (ℕ → ℕ → ℕ) → Maze → ℕ → ℕ → ℕ
maze_pixel blocks m px py = blocks (find_block m (px / 12) (py / 12)) (py % 12 * 12 + px % 12)

abbrev pub run_end : ℕ → ℕ → ℕ → ℕ
run_end dim idx sub = if ltb dim (idx + (12 - sub)) then dim else idx + (12 - sub)

run_goes :
    (n dim step : ℕ) (block : ℕ → ℕ) (at idx sub : ℕ) (buf : Mem)
    → ltb idx dim && ltb sub 12 ≡ true
    → run_loop (suc n) dim step block at idx sub buf
      ≡ run_loop n dim step block (at + step) (idx + 1) (sub + 1) (store buf idx (block at))
unfolding run_loop
run_goes n dim step block at idx sub buf e = rw e refl

run_stops :
    (n dim step : ℕ) (block : ℕ → ℕ) (at idx sub : ℕ) (buf : Mem)
    → ltb idx dim && ltb sub 12 ≡ false
    → run_loop (suc n) dim step block at idx sub buf ≡ (idx, buf)
unfolding run_loop
run_stops n dim step block at idx sub buf e = rw e refl

pub run_loop_end :
    (fuel dim step : ℕ) (block : ℕ → ℕ) (at idx sub : ℕ) (buf : Mem)
    → idx ≤ dim
    → sub ≤ 12
    → 12 ≤ sub + fuel
    → (run_loop fuel dim step block at idx sub buf).0 ≡ run_end dim idx sub
unfolding run_loop
run_loop_end zero dim step block at idx sub buf h k l = ground arith
run_loop_end (suc n) dim step block at idx sub buf h k l = ground (
  arith,
  run_loop_end n dim step block (at + step) (idx + 1) (sub + 1) (store buf idx (block at)),
)

first_at : (at idx step : ℕ) → at + (idx - idx) * step ≡ at
first_at at idx step = ground arith

next_at : (at idx step j : ℕ) → idx < j → at + step + (j - (idx + 1)) * step ≡ at + (j - idx) * step
next_at at idx step j h = ground (arith, ap (λ n. at + n * step) (minus_suc j idx h))
  where
    minus_suc : (p q : ℕ) → q < p → p - q ≡ p - (q + 1) + 1
    minus_suc p q h = omega arith

-- One more pixel, then the rest of the run.
run_step :
    (dim idx sub j rest here new old : ℕ)
    → ltb idx dim && ltb sub 12 ≡ true
    → (idx < j → rest ≡ here)
    → (j ≡ idx → here ≡ new)
    → (if leb (idx + 1) j && ltb j (run_end dim (idx + 1) (sub + 1))
        then rest
        else (if j == idx then new else old))
      ≡ (if leb idx j && ltb j (run_end dim idx sub) then here else old)
run_step dim idx sub j rest here new old e q z = ground arith

run_rest :
    (dim idx sub j here old : ℕ)
    → idx ≤ dim
    → sub ≤ 12
    → ltb idx dim && ltb sub 12 ≡ false
    → old ≡ (if leb idx j && ltb j (run_end dim idx sub) then here else old)
run_rest dim idx sub j here old h k e = ground arith

run_none :
    (dim idx sub j here old : ℕ)
    → 12 ≤ sub + 0
    → idx ≤ dim
    → old ≡ (if leb idx j && ltb j (run_end dim idx sub) then here else old)
run_none dim idx sub j here old h k = ground arith

below_both : (dim idx sub : ℕ) → ltb idx dim && ltb sub 12 ≡ true → (idx + 1 ≤ dim) × (sub + 1 ≤ 12)
below_both dim idx sub e = (ground arith, ground arith)

run_loop_zero :
    (dim step : ℕ) (block : ℕ → ℕ) (at idx sub : ℕ) (buf : Mem)
    → run_loop 0 dim step block at idx sub buf ≡ (idx, buf)
unfolding run_loop
run_loop_zero dim step block at idx sub buf = refl

pub run_loop_lem :
    (fuel dim step : ℕ) (block : ℕ → ℕ) (at idx sub j : ℕ) (buf : Mem)
    → idx ≤ dim
    → sub ≤ 12
    → 12 ≤ sub + fuel
    → (run_loop fuel dim step block at idx sub buf).1 j
      ≡ (if leb idx j && ltb j (run_end dim idx sub) then block (at + (j - idx) * step) else buf j)
run_loop_lem zero dim step block at idx sub j buf h k l =
    ap (λ r. r.1 j) (run_loop_zero dim step block at idx sub buf)
    ∙ run_none dim idx sub j (block (at + (j - idx) * step)) (buf j) l h
run_loop_lem (suc n) dim step block at idx sub j buf h k l =
    elim (Bool-cases (ltb idx dim && ltb sub 12)) [
      | inl e ↦
          ap (λ r. r.1 j) (run_goes n dim step block at idx sub buf e)
          ∙ run_loop_lem n dim step block (at + step) (idx + 1) (sub + 1) j
              (store buf idx (block at)) (below_both dim idx sub e).0 (below_both dim idx sub e).1
              (omega arith)
          ∙ run_step dim idx sub j (block (at + step + (j - (idx + 1)) * step))
              (block (at + (j - idx) * step)) (block at) (buf j) e
              (λ g. ap block (next_at at idx step j g))
              (λ i. ap (λ i. block (at + (i - idx) * step)) i ∙ ap block (first_at at idx step))
      | inr e ↦
          ap (λ r. r.1 j) (run_stops n dim step block at idx sub buf e)
          ∙ run_rest dim idx sub j (block (at + (j - idx) * step)) (buf j) h k e
    ]
