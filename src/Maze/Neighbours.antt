-- ===== src/Maze/Neighbours.antt =====
-- The neighbours of a room: where they are in the array, and that an open square leads to a room.
use ece391_computer_systems.Base.{
  ℕ, zero, suc, ◌+◌, ◌-◌, ◌*◌, ◌<◌, ◌≡◌, Bool, true, false, arith, refl, ap, ◌∙◌, sym, subst,
}
use native.Mathlib.Decide.{dec_lt}
use ece391_computer_systems.Maze.{is_wall}
use ece391_computer_systems.Maze.Lattice.{place, solid, Lattice, room, IsRoom}
use ece391_computer_systems.Maze.Ways.{Way, stop, go_up, go_right, go_down, go_left}

module _ (d a b : ℕ) where
  pub above : room d a b - 2 * d ≡ place d (2 * a + 1) (2 * b + 1)
  above = minus _ _ _ (ground arith)
    where
      minus : (x y z : ℕ) → x ≡ y + z → x - z ≡ y
      minus x y z e = omega (arith, e)

  pub below : room d a b + 2 * d ≡ place d (2 * a + 1) (2 * b + 3)
  below = ground arith

  pub beside : room d a b - 1 ≡ place d (2 * a) (2 * b + 2)
  beside = omega arith

  pub room_above : room d a (b + 1) - 4 * d ≡ room d a b
  room_above = minus _ _ _ (ground arith)
    where
      minus : (x y z : ℕ) → x ≡ y + z → x - z ≡ y
      minus x y z e = omega (arith, e)

  pub room_below : room d a b + 4 * d ≡ room d a (b + 1)
  room_below = ground arith

  pub room_right : room d a b + 2 ≡ room d (a + 1) b
  room_right = omega arith

  pub room_left : room d (a + 1) b - 2 ≡ room d a b
  room_left = omega arith

-- Behind the last column is the first of the next row.
pub last_column : (a b : ℕ) → room (a + 1) a b + 1 ≡ place (a + 1) 0 (2 * b + 3)
last_column a b = ground arith

module _ (d y_dim : ℕ) (cells : ℕ → ℕ) (l : Lattice d y_dim cells) where
  walled_off :
      (x r c : ℕ)
      → c ≡ place d x r
      → x < 2 * d
      → solid y_dim x r ≡ true
      → is_wall (cells c) ≡ false
      → ⊥
  unfolding Lattice
  walled_off x r c e h k o = clash _ (l x r h k) (ap (λ i. is_wall (cells i)) (sym e) ∙ o)
    where
      clash : (b : Bool) → b ≡ true → b ≡ false → ⊥
      clash b e f = ground arith

  up_IsRoom :
      (a b c : ℕ)
      → a < d
      → b < y_dim
      → c ≡ room d a b
      → is_wall (cells (c - 2 * d)) ≡ false
      → IsRoom d y_dim (c - 4 * d)
  up_IsRoom a zero c h k e o = absurd (
      walled_off (2 * a + 1) 1 (c - 2 * d) (ap (λ i. i - 2 * d) e ∙ above d a 0) (omega arith)
        (ground arith) o)
  up_IsRoom a (suc b) c h k e o = record {
    a = a;
    b = b;
    column = h;
    row = omega arith;
    index = ap (λ i. i - 4 * d) (e ∙ ap (λ n. room d a n) (omega arith)) ∙ room_above d a b;
  }

  down_IsRoom :
      (a b c : ℕ)
      → a < d
      → b < y_dim
      → c ≡ room d a b
      → is_wall (cells (c + 2 * d)) ≡ false
      → IsRoom d y_dim (c + 4 * d)
  down_IsRoom a b c h k e o = elim (dec_lt (b + 1) y_dim) [
    | yes m ↦ record {
      a = a;
      b = b + 1;
      column = h;
      row = m;
      index = ap (λ i. i + 4 * d) e ∙ room_below d a b;
    }
    | no m ↦ absurd (
        walled_off (2 * a + 1) (2 * b + 3) (c + 2 * d) (ap (λ i. i + 2 * d) e ∙ below d a b)
          (omega arith) (ground arith) o)
  ]

  right_IsRoom :
      (a b c : ℕ)
      → a < d
      → b < y_dim
      → c ≡ room d a b
      → is_wall (cells (c + 1)) ≡ false
      → IsRoom d y_dim (c + 2)
  right_IsRoom a b c h k e o = elim (dec_lt (a + 1) d) [
    | yes m ↦ record {
      a = a + 1;
      b = b;
      column = m;
      row = k;
      index = ap (λ i. i + 2) e ∙ room_right d a b;
    }
    | no m ↦
        let f : a + 1 ≡ d = omega arith in
        absurd (
          walled_off 0 (2 * b + 3) (c + 1)
            (ap (λ i. i + 1) e
              ∙ subst (λ n. room n a b + 1 ≡ place n 0 (2 * b + 3)) f (last_column a b))
            (omega arith) refl o)
  ]

  left_IsRoom :
      (a b c : ℕ)
      → a < d
      → b < y_dim
      → c ≡ room d a b
      → is_wall (cells (c - 1)) ≡ false
      → IsRoom d y_dim (c - 2)
  left_IsRoom zero b c h k e o =
      absurd
        (walled_off 0 (2 * b + 2) (c - 1) (ap (λ i. i - 1) e ∙ beside d 0 b) (omega arith) refl o)
  left_IsRoom (suc a) b c h k e o = record {
    a = a;
    b = b;
    column = omega arith;
    row = k;
    index = ap (λ i. i - 2) (e ∙ ap (λ n. room d n b) (omega arith)) ∙ room_left d a b;
  }

  -- A way from a room ends in a room.
  pub Way-IsRoom : {a c : ℕ} → IsRoom d y_dim a → Way d cells a c → IsRoom d y_dim c
  Way-IsRoom r stop = r
  Way-IsRoom r (go_up way o) =
      let i = Way-IsRoom r way in up_IsRoom i.a i.b _ i.column i.row i.index o
  Way-IsRoom r (go_right way o) =
      let i = Way-IsRoom r way in right_IsRoom i.a i.b _ i.column i.row i.index o
  Way-IsRoom r (go_down way o) =
      let i = Way-IsRoom r way in down_IsRoom i.a i.b _ i.column i.row i.index o
  Way-IsRoom r (go_left way o) =
      let i = Way-IsRoom r way in left_IsRoom i.a i.b _ i.column i.row i.index o
