-- ===== src/Game/Tracking.antt =====
-- The window follows the player: PAN_BORDER.
use ece391_computer_systems.Base.{
  ℕ, ◌+◌, ◌-◌, ◌*◌, ◌≤◌, ◌<◌, ◌≡◌, ◌⊎◌, inl, inr, Bool-cases, true, false, ◌&&◌, ◌==◌, ltb, Mem,
  arith,
}
use ece391_computer_systems.Game.{
  Game, move_up, move_right, move_down, move_left, move, step, dir_up, dir_right, dir_down,
  dir_left, dir_stop,
}
use ece391_computer_systems.Game.Framing.{either}

-- On one axis: the player is 60 pixels from the border of the window where it starts, and 72 from
-- the one where it ends, unless the window is at that end of the maze.
pub record Axis (map play size dim : ℕ) : Type 0 where
  pub start : (map ≡ 6) ⊎ (map + 60 ≤ play)
  pub end : (map + size ≡ (2 * dim + 1) * 12 - 6) ⊎ (play + 72 ≤ map + size)
  pub first : 6 ≤ map
  pub last : map + size ≤ (2 * dim + 1) * 12 - 6

-- The window follows the player on both axes.
pub record Tracked (g : Game) : Type 0 where
  pub axis_x : Axis g.map_x g.play_x 320 g.info_x_dim
  pub axis_y : Axis g.map_y g.play_y 182 g.info_y_dim

-- One pixel less, without and with a pan.
Axis-less :
    (map play size dim : ℕ)
    → 0 < play
    → Axis map play size dim
    → ltb (play - 1) (map + 60) && ltb 6 map ≡ false
    → Axis map (play - 1) size dim
Axis-less map play size dim h a e = record {
  start = ground (arith, a.start, a.first);
  end = ground (arith, a.end);
  first = a.first;
  last = a.last;
}

Axis-pan_less :
    (map play size dim : ℕ)
    → 132 ≤ size
    → Axis map play size dim
    → ltb (play - 1) (map + 60) && ltb 6 map ≡ true
    → Axis (map - 1) (play - 1) size dim
Axis-pan_less map play size dim h a e = record {
  start = ground (arith, a.start);
  end = ground (arith, a.end, a.start);
  first = ground arith;
  last = ground (arith, a.last);
}

Axis-more :
    (map play size dim : ℕ)
    → Axis map play size dim
    → ltb (map + size - 72) (play + 1) && ltb (map + size) ((2 * dim + 1) * 12 - 6) ≡ false
    → 132 ≤ size
    → Axis map (play + 1) size dim
Axis-more map play size dim a e h = record {
  start = ground (arith, a.start);
  end = ground (arith, a.end, a.last);
  first = a.first;
  last = a.last;
}

Axis-pan_more :
    (map play size dim : ℕ)
    → 132 ≤ size
    → Axis map play size dim
    → ltb (map + size - 72) (play + 1) && ltb (map + size) ((2 * dim + 1) * 12 - 6) ≡ true
    → Axis (map + 1) (play + 1) size dim
Axis-pan_more map play size dim h a e = record {
  start = ground (arith, a.start, a.end);
  end = ground (arith, a.end);
  first = ground (arith, a.first);
  last = ground arith;
}

module _ (blocks : ℕ → ℕ → ℕ) (junk : Mem) (g : Game) (t : Tracked g) (hx : 0 < g.play_x)
    (hy : 0 < g.play_y) where
  move_up-Tracked : Tracked (move_up blocks junk g)
  unfolding move_up
  move_up-Tracked = elim (Bool-cases (ltb (g.play_y - 1) (g.map_y + 60) && ltb 6 g.map_y)) [
    | inl e ↦ rw e (record {
      axis_x = t.axis_x;
      axis_y = Axis-pan_less g.map_y g.play_y 182 g.info_y_dim (omega arith) t.axis_y e;
    })
    | inr e ↦ rw e (record {
      axis_x = t.axis_x;
      axis_y = Axis-less g.map_y g.play_y 182 g.info_y_dim hy t.axis_y e;
    })
  ]

  move_left-Tracked : Tracked (move_left blocks junk g)
  unfolding move_left
  move_left-Tracked = elim (Bool-cases (ltb (g.play_x - 1) (g.map_x + 60) && ltb 6 g.map_x)) [
    | inl e ↦ rw e (record {
      axis_y = t.axis_y;
      axis_x = Axis-pan_less g.map_x g.play_x 320 g.info_x_dim (omega arith) t.axis_x e;
    })
    | inr e ↦ rw e (record {
      axis_y = t.axis_y;
      axis_x = Axis-less g.map_x g.play_x 320 g.info_x_dim hx t.axis_x e;
    })
  ]

  move_down-Tracked : Tracked (move_down blocks junk g)
  unfolding move_down
  move_down-Tracked =
      elim (Bool-cases (
        ltb (g.map_y + 182 - 72) (g.play_y + 1)
        && ltb (g.map_y + 182) ((2 * g.info_y_dim + 1) * 12 - 6))) [
          | inl e ↦ rw e (record {
            axis_x = t.axis_x;
            axis_y = Axis-pan_more g.map_y g.play_y 182 g.info_y_dim (omega arith) t.axis_y e;
          })
          | inr e ↦ rw e (record {
            axis_x = t.axis_x;
            axis_y = Axis-more g.map_y g.play_y 182 g.info_y_dim t.axis_y e (omega arith);
          })
        ]

  move_right-Tracked : Tracked (move_right blocks junk g)
  unfolding move_right
  move_right-Tracked =
      elim (Bool-cases (
        ltb (g.map_x + 320 - 72) (g.play_x + 1)
        && ltb (g.map_x + 320) ((2 * g.info_x_dim + 1) * 12 - 6))) [
          | inl e ↦ rw e (record {
            axis_y = t.axis_y;
            axis_x = Axis-pan_more g.map_x g.play_x 320 g.info_x_dim (omega arith) t.axis_x e;
          })
          | inr e ↦ rw e (record {
            axis_y = t.axis_y;
            axis_x = Axis-more g.map_x g.play_x 320 g.info_x_dim t.axis_x e (omega arith);
          })
        ]

-- A step in any direction, or none, of a player who is not in the first row or column of pixels
-- keeps the window around the player: 60 pixels to the left and above, 72 to the right and below,
-- unless the window is at that end of the maze.
pub step-Tracked :
    (blocks : ℕ → ℕ → ℕ) (junk : Mem) (g : Game)
    → 0 < g.play_x
    → 0 < g.play_y
    → Tracked g
    → Tracked (step blocks junk g)
unfolding step
step-Tracked blocks junk g hx hy t =
    let g' = record g { last_dir = g.dir; move_cnt = g.move_cnt - 1 } in
    let t' : Tracked g' = record { axis_x = t.axis_x; axis_y = t.axis_y } in
    either Tracked (g.dir == dir_stop) g (move blocks junk g') t (
      either Tracked (g.dir == dir_up) (move_up blocks junk g') _
        (move_up-Tracked blocks junk g' t' hx hy)
        (either Tracked (g.dir == dir_right) (move_right blocks junk g') _
          (move_right-Tracked blocks junk g' t' hx hy)
          (either Tracked (g.dir == dir_down) (move_down blocks junk g') _
            (move_down-Tracked blocks junk g' t' hx hy)
            (either Tracked (g.dir == dir_left) (move_left blocks junk g') g'
              (move_left-Tracked blocks junk g' t' hx hy) t'))))
