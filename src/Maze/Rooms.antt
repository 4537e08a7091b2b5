-- ===== src/Maze/Rooms.antt =====
-- How many squares with two odd coordinates have a property.
use ece391_computer_systems.Base.{
  ℕ, zero, suc, ◌+◌, ◌*◌, ◌<◌, ◌≡◌, ◌≢◌, inl, inr, Bool, true, false, ◌==◌, if◌then◌else◌,
  Bool-cases, store, arith, refl, ap, ◌∙◌,
}
use ece391_computer_systems.Maze.Counting.{one_if}
use ece391_computer_systems.Maze.Lattice.{room, room_inj}

sum_to : ℕ → (ℕ → ℕ) → ℕ
sum_to zero f = 0
sum_to (suc n) f = f n + sum_to n f

sum_same : (n : ℕ) (f g : ℕ → ℕ) → ((i : ℕ) → i < n → f i ≡ g i) → sum_to n f ≡ sum_to n g
unfolding sum_to
sum_same zero f g h = refl
sum_same (suc n) f g h = omega (arith, h n (omega arith), sum_same n f g (λ i k. h i (omega arith)))

sum_change :
    (n t : ℕ) (f g : ℕ → ℕ)
    → t < n
    → ((i : ℕ) → i < n → i ≢ t → f i ≡ g i)
    → sum_to n f + g t ≡ sum_to n g + f t
unfolding sum_to
sum_change zero t f g h e = absurd (omega arith)
sum_change (suc n) t f g h e = elim (Bool-cases (n == t)) [
  | inl b ↦
      let k : n ≡ t = ground arith in
      omega (
        arith,
        ap f k,
        ap g k,
        sum_same n f g (λ i l. e i (omega arith) (λ z. omega (arith, z, k))),
      )
  | inr b ↦
      let k : t < n = ground arith in
      let ne : n ≢ t = λ z. omega (arith, z) in
      omega (arith, e n (omega arith) ne, sum_change n t f g k (λ i l. e i (omega arith)))
]

sum_const : (n k : ℕ) (f : ℕ → ℕ) → ((i : ℕ) → i < n → f i ≡ k) → sum_to n f ≡ k * n
unfolding sum_to
sum_const zero k f h = omega arith
sum_const (suc n) k f h =
    grind (arith, h n (omega arith), sum_const n k f (λ i l. h i (omega arith)))

sum_zero : (n i : ℕ) (f : ℕ → ℕ) → sum_to n f ≡ 0 → i < n → f i ≡ 0
unfolding sum_to
sum_zero zero i f h k = absurd (omega arith)
sum_zero (suc n) i f h k = elim (Bool-cases (n == i)) [
  | inl b ↦ let e : n ≡ i = ground arith in omega (arith, ap f e)
  | inr b ↦ sum_zero n i f (omega arith) (ground arith)
]

module _ (p : ℕ → Bool) (d : ℕ) where
  -- 1 for a room with the property.
  at_room : (ℕ → ℕ) → ℕ → ℕ → ℕ
  at_room cells b a = one_if (p (cells (room d a b)))

  in_row : (ℕ → ℕ) → ℕ → ℕ
  unfolding at_room
  in_row cells b = sum_to d (at_room cells b)

  unfoldable pub count_rooms : ℕ → (ℕ → ℕ) → ℕ
  unfolding sum_to at_room in_row
  count_rooms y_dim cells = sum_to y_dim (in_row cells)

  pub count_rooms-same :
      (y_dim : ℕ) (cells cells' : ℕ → ℕ)
      → ((a b : ℕ) → a < d → b < y_dim → p (cells (room d a b)) ≡ p (cells' (room d a b)))
      → count_rooms y_dim cells ≡ count_rooms y_dim cells'
  unfolding count_rooms
  count_rooms-same y_dim cells cells' h =
      sum_same y_dim (in_row cells) (in_row cells')
        (λ b k. sum_same d (at_room cells b) (at_room cells' b) (λ a l. ap one_if (h a b l k)))

  pub count_rooms-all :
      (y_dim : ℕ) (cells : ℕ → ℕ)
      → ((a b : ℕ) → a < d → b < y_dim → p (cells (room d a b)) ≡ true)
      → count_rooms y_dim cells ≡ d * y_dim
  unfolding count_rooms
  count_rooms-all y_dim cells h =
      sum_const y_dim d (in_row cells)
        (λ b k. sum_const d 1 (at_room cells b) (λ a l. ap one_if (h a b l k)) ∙ omega arith)

  pub count_rooms-none :
      (y_dim : ℕ) (cells : ℕ → ℕ)
      → count_rooms y_dim cells ≡ 0
      → (a b : ℕ) → a < d
      → b < y_dim
      → p (cells (room d a b)) ≡ false
  unfolding count_rooms
  count_rooms-none y_dim cells e a b h k =
      no (p (cells (room d a b)))
        (sum_zero d a (at_room cells b) (sum_zero y_dim b (in_row cells) e k) h)
    where
      no : (b : Bool) → one_if b ≡ 0 → b ≡ false
      no b e = ground arith

  -- One room changes.
  pub count_rooms-change :
      (y_dim a b c : ℕ) (cells : ℕ → ℕ)
      → a < d
      → b < y_dim
      → count_rooms y_dim (store cells (room d a b) c) + one_if (p (cells (room d a b)))
        ≡ count_rooms y_dim cells + one_if (p c)
  unfolding count_rooms
  count_rooms-change y_dim a b c cells h k =
      let new = store cells (room d a b) c in
      let row =
        sum_change d a (at_room new b) (at_room cells b) h
          (λ i l ne. other i b l (λ e. ne ((room_inj d i b a b l h e).0))) in
      let all = sum_change y_dim b (in_row new) (in_row cells) k (λ j l ne.
        sum_same d (at_room new j) (at_room cells j)
          (λ i m. other i j m (λ e. ne ((room_inj d i j a b m h e).1)))) in
      together _ _ _ _ _ _ all row (self (room d a b))
    where
      other :
          (i j : ℕ)
          → i < d
          → room d i j ≢ room d a b
          → at_room (store cells (room d a b) c) j i ≡ at_room cells j i
      other i j l ne =
          ap (λ t. one_if (p (if t then c else cells (room d i j))))
            (off (room d i j) (room d a b) ne)
        where
          off : (x y : ℕ) → x ≢ y → x == y ≡ false
          off x y ne = ground arith

      self : (i : ℕ) → one_if (p (store cells i c i)) ≡ one_if (p c)
      self i = ap (λ t. one_if (p (if t then c else cells i))) (on i)
        where
          on : (i : ℕ) → i == i ≡ true
          on i = ground arith

      together :
          (s s' r r' o n : ℕ) {n' : ℕ} → s + r' ≡ s' + r → r + o ≡ r' + n' → n' ≡ n → s + o ≡ s' + n
      together s s' r r' o n e f g = omega arith

  -- A square that is no room does not count.
  pub count_rooms-other :
      (y_dim i c : ℕ) (cells : ℕ → ℕ)
      → ((a b : ℕ) → a < d → b < y_dim → room d a b ≢ i)
      → count_rooms y_dim (store cells i c) ≡ count_rooms y_dim cells
  count_rooms-other y_dim i c cells h = count_rooms-same y_dim (store cells i c) cells (λ a b l k.
      ap (λ t. p (if t then c else cells (room d a b))) (off (room d a b) i (h a b l k)))
    where
      off : (x y : ℕ) → x ≢ y → x == y ≡ false
      off x y ne = ground arith

sum_pos : (n : ℕ) (f : ℕ → ℕ) → 0 < sum_to n f → (i : ℕ) × (i < n) × (0 < f i)
unfolding sum_to
sum_pos zero f h = absurd (omega arith)
sum_pos (suc n) f h = elim (Bool-cases (f n == 0)) [
  | inl e ↦ let p = sum_pos n f (pos_rest (f n) (sum_to n f) e h) in (p.0, omega (arith, p.1), p.2)
  | inr e ↦ (n, omega arith, pos_first (f n) e)
]
  where
    pos_rest : (a b : ℕ) → a == 0 ≡ true → 0 < a + b → 0 < b
    pos_rest a b e h = ground arith

    pos_first : (a : ℕ) → a == 0 ≡ false → 0 < a
    pos_first a e = ground arith

-- A room that counts.
pub count_rooms-some :
    (p : ℕ → Bool) (d y_dim : ℕ) (cells : ℕ → ℕ)
    → 0 < count_rooms p d y_dim cells
    → (a b : ℕ) × (a < d) × (b < y_dim) × (p (cells (room d a b)) ≡ true)
unfolding count_rooms
count_rooms-some p d y_dim cells h =
    let r = sum_pos y_dim (in_row p d cells) h in
    let c = sum_pos d (at_room p d cells r.0) r.2 in
    (c.0, r.0, c.1, r.1, yes_one (p (cells (room d c.0 r.0))) c.2)
  where
    yes_one : (b : Bool) → 0 < one_if b → b ≡ true
    yes_one b h = ground arith

pub count_rooms-pos :
    (p : ℕ → Bool) (d y_dim a b : ℕ) (cells : ℕ → ℕ)
    → a < d
    → b < y_dim
    → p (cells (room d a b)) ≡ true
    → 0 < count_rooms p d y_dim cells
count_rooms-pos p d y_dim a b cells h k e = go (count_rooms p d y_dim cells) refl
  where
    clash : (b : Bool) → b ≡ true → b ≡ false → ⊥
    clash b e f = ground arith

    go : (n : ℕ) → count_rooms p d y_dim cells ≡ n → 0 < n
    go zero z = absurd (clash _ e (count_rooms-none p d y_dim cells z a b h k))
    go (suc n) z = omega arith
