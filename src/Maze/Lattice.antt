-- ===== src/Maze/Lattice.antt =====
-- The lattice of the maze: which squares are always walls, and the squares with two odd coordinates.
-- A place in the array is `x + r * x_dim * 2` for the column `x` and the row `r`, which is `y + 1`.
use ece391_computer_systems.Base.{
  ℕ, zero, suc, ◌+◌, ◌-◌, ◌*◌, ◌%◌, ◌<◌, ◌≡◌, inl, inr, Bool, true, false, ◌||◌, ◌&&◌, ◌==◌, ltb,
  if◌then◌else◌, Bool-cases, store, arith, refl, ap, ◌∙◌, sym,
}
use ece391_computer_systems.Maze.{is_wall}

abbrev pub place : ℕ → ℕ → ℕ → ℕ
place d x r = x + r * d * 2

-- Two places in the same array are equal only with the same column and row.
pub place_inj :
    (d x r x' r' : ℕ) → x < 2 * d → x' < 2 * d → place d x r ≡ place d x' r' → (x ≡ x') × (r ≡ r')
place_inj d x r x' r' h h' e = go (r - r') (r' - r) refl refl
  where
    far : (d x x' r r' k : ℕ) → r ≡ r' + suc k → x' < 2 * d → x + r * d * 2 ≡ x' + r' * d * 2 → ⊥
    far d x x' r r' k f h e =
        let g : r * d ≡ (r' + suc k) * d = ap (λ n. n * d) f in grind (arith, g)

    go : (k l : ℕ) → r - r' ≡ k → r' - r ≡ l → (x ≡ x') × (r ≡ r')
    go zero zero f g =
        let s : r ≡ r' = omega (arith, f, g) in (omega (arith, e, ap (λ n. n * d) s), s)
    go (suc k) l f g = absurd (far d x x' r r' k (omega (arith, f)) h' e)
    go zero (suc l) f g = absurd (far d x' x r' r l (omega (arith, g)) h (sym e))

-- The border and the squares with two even coordinates.
abbrev pub solid : ℕ → ℕ → ℕ → Bool
solid y_dim x r = (x == 0) || (ltb r 2 || (ltb (2 * y_dim) r || ((x % 2 == 0) && (r % 2 == 1))))

-- These squares are walls.
unfoldable pub Lattice : ℕ → ℕ → (ℕ → ℕ) → Type 0
Lattice d y_dim cells =
    (x r : ℕ) → x < 2 * d → solid y_dim x r ≡ true → is_wall (cells (place d x r)) ≡ true

-- A square of the others may change.
pub store-Lattice :
    (d y_dim x r c : ℕ) (cells : ℕ → ℕ)
    → x < 2 * d
    → solid y_dim x r ≡ false
    → Lattice d y_dim cells
    → Lattice d y_dim (store cells (place d x r) c)
unfolding Lattice
store-Lattice d y_dim x r c cells h k l x' r' h' k' =
    elim (Bool-cases (place d x' r' == place d x r)) [
      | inl e ↦
          let p = place_inj d x' r' x r h' h (ground arith) in
          absurd
            (clash _ _ (ap (λ n. solid y_dim n r') (p.0) ∙ ap (λ n. solid y_dim x n) (p.1)) k' k)
      | inr e ↦ ap (λ b. is_wall (if b then c else cells (place d x' r'))) e ∙ l x' r' h' k'
    ]
  where
    clash : (a b : Bool) → a ≡ b → a ≡ true → b ≡ false → ⊥
    clash a b e f g = ground arith

-- A square with two odd coordinates, 2 * a + 1 and 2 * b + 1.
abbrev pub room : ℕ → ℕ → ℕ → ℕ
room d a b = place d (2 * a + 1) (2 * b + 2)

pub record IsRoom (d y_dim c : ℕ) : Type 0 where
  pub a : ℕ
  pub b : ℕ
  pub column : a < d
  pub row : b < y_dim
  pub index : c ≡ room d a b

pub room_inj : (d a b a' b' : ℕ) → a < d → a' < d → room d a b ≡ room d a' b' → (a ≡ a') × (b ≡ b')
room_inj d a b a' b' h k e =
    let p =
      place_inj d (2 * a + 1) (2 * b + 2) (2 * a' + 1) (2 * b' + 2) (omega arith) (omega arith) e in
    (omega (arith, p.0), omega (arith, p.1))
