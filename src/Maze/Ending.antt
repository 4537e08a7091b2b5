-- ===== src/Maze/Ending.antt =====
-- The search ends: mark_maze_area_terminates.
use ece391_computer_systems.Base.{
  ℕ, zero, suc, ◌+◌, ◌-◌, ◌*◌, ◌≤◌, ◌<◌, ◌≡◌, ◌⊎◌, inl, inr, Bool, true, false, ◌&&◌, not, ◌==◌,
  if◌then◌else◌, List, [], ◌∷◌, ◌++◌, length, Option, none, some, store, arith, refl, ap, ◌∙◌, sym,
  subst,
}
use ece391_computer_systems.Maze.{is_wall, is_reached, with_reach}
use ece391_computer_systems.Maze.Marking.{
  Search, explore, explore_all, search_rounds, mark_maze_area, unreached, with_reach-wall, index_eq,
  unreached_less, unreached-le,
}

length_snoc : (q : List ℕ) (t : ℕ) → length (q ++ (t ∷ [])) ≡ length q + 1
length_snoc [] t = refl
length_snoc (x ∷ q) t = omega (arith, length_snoc q t)

abbrev AllBelow : ℕ → List ℕ → Type 0
AllBelow n [] = ℕ
AllBelow n (x ∷ q) = (x < n) × AllBelow n q

below_snoc : (n : ℕ) (q : List ℕ) (t : ℕ) → AllBelow n q → t < n → AllBelow n (q ++ (t ∷ []))
below_snoc n [] t a h = (h, 0)
below_snoc n (x ∷ q) t a h = (a.0, below_snoc n q t a.1 h)

-- What a part of the search does: the walls stay, the queue stays in the maze, and each square that
-- is reached goes through the queue once.
record Explored (n : ℕ) (s s' : Search) : Type 0 where
  walls : (i : ℕ) → is_wall (s'.cells i) ≡ is_wall (s.cells i)
  below : AllBelow n s.q → AllBelow n s'.q
  work : length s'.q + unreached n s'.cells ≡ length s.q + unreached n s.cells
  marks : s'.q_end + unreached n s'.cells ≡ s.q_end + unreached n s.cells

unchanged : (n : ℕ) (s : Search) → Explored n s s
unchanged n s = record { walls = λ i. refl; below = λ a. a; work = refl; marks = refl }

Explored-Explored :
    (n : ℕ) (s s' s'' : Search) → Explored n s s' → Explored n s' s'' → Explored n s s''
Explored-Explored n s s' s'' a b = record {
  walls = λ i. b.walls i ∙ a.walls i;
  below = λ h. b.below (a.below h);
  work = b.work ∙ a.work;
  marks = b.marks ∙ a.marks;
}

abbrev pub mark_at : ℕ → Search → Search
mark_at target s = record {
  cells = store s.cells target (with_reach (s.cells target));
  q = s.q ++ (target ∷ []);
  q_end = s.q_end + 1;
}

pub explore-cases :
    (wall target : ℕ) (s : Search)
    → (explore wall target s ≡ s)
      ⊎ ((is_wall (s.cells wall) ≡ false)
          × (is_reached (s.cells target) ≡ false)
          × (explore wall target s ≡ mark_at target s))
unfolding explore
explore-cases wall target s =
    one_of (is_wall (s.cells wall)) (is_reached (s.cells target)) s (mark_at target s)
  where
    one_of :
        (a b : Bool) (s t : Search)
        → ((if not a && not b then t else s) ≡ s)
          ⊎ ((a ≡ false) × (b ≡ false) × ((if not a && not b then t else s) ≡ t))
    one_of true b s t = inl refl
    one_of false true s t = inl refl
    one_of false false s t = inr (refl, refl, refl)

mark_at-Explored :
    (n target : ℕ) (s : Search)
    → target < n
    → is_reached (s.cells target) ≡ false
    → Explored n s (mark_at target s)
mark_at-Explored n target s h f =
    let u = unreached_less n target s.cells h f in
    record {
      walls = λ i. same_wall (i == target) i refl;
      below = λ a. below_snoc n s.q target a h;
      work = omega (arith, u, length_snoc s.q target);
      marks = omega (arith, u);
    }
  where
    same_wall :
        (b : Bool) (i : ℕ)
        → i == target ≡ b
        → is_wall (if b then with_reach (s.cells target) else s.cells i) ≡ is_wall (s.cells i)
    same_wall true i e =
        with_reach-wall (s.cells target) ∙ ap (λ j. is_wall (s.cells j)) (sym (index_eq i target e))
    same_wall false i e = refl

explore-Explored :
    (n wall target : ℕ) (s : Search)
    → (is_wall (s.cells wall) ≡ false → target < n)
    → Explored n s (explore wall target s)
explore-Explored n wall target s h = elim (explore-cases wall target s) [
  | inl e ↦ subst (Explored n s) (sym e) (unchanged n s)
  | inr e ↦ subst (Explored n s) (sym e.2) (mark_at-Explored n target s (h e.0) e.1)
]

-- An open square is followed by a square of the maze.
unfoldable pub Roomy : ℕ → ℕ → (ℕ → ℕ) → Type 0
Roomy n x_dim cells =
    (c : ℕ)
    → c < n
    → (is_wall (cells (c + 1)) ≡ false → c + 2 < n)
      × (is_wall (cells (c + 2 * x_dim)) ≡ false → c + 4 * x_dim < n)

explore_all-Explored :
    (n x_dim cur : ℕ) (s : Search)
    → cur < n
    → Roomy n x_dim s.cells
    → Explored n s (explore_all x_dim cur s)
unfolding Roomy
explore_all-Explored n x_dim cur s h room =
    let s1 = explore (cur - 2 * x_dim) (cur - 4 * x_dim) s in
    let s2 = explore (cur + 1) (cur + 2) s1 in
    let s3 = explore (cur + 2 * x_dim) (cur + 4 * x_dim) s2 in
    let e1 = explore-Explored n (cur - 2 * x_dim) (cur - 4 * x_dim) s (λ o. omega (arith, h)) in
    let e2 = Explored-Explored n s s1 s2 e1 (
      explore-Explored n (cur + 1) (cur + 2) s1
        (λ o. (room cur h).0 (sym (e1.walls (cur + 1)) ∙ o))) in
    let e3 = Explored-Explored n s s2 s3 e2 (
      explore-Explored n (cur + 2 * x_dim) (cur + 4 * x_dim) s2
        (λ o. (room cur h).1 (sym (e2.walls (cur + 2 * x_dim)) ∙ o))) in
    Explored-Explored n s s3 _ e3
      (explore-Explored n (cur - 1) (cur - 2) s3 (λ o. omega (arith, h)))

Roomy-walls :
    (n x_dim : ℕ) (cells cells' : ℕ → ℕ)
    → ((i : ℕ) → is_wall (cells' i) ≡ is_wall (cells i))
    → Roomy n x_dim cells
    → Roomy n x_dim cells'
unfolding Roomy
Roomy-walls n x_dim cells cells' w room c h =
    (λ o. (room c h).0 (sym (w (c + 1)) ∙ o), λ o. (room c h).1 (sym (w (c + 2 * x_dim)) ∙ o))

-- What the whole search leads to.
abbrev Finished : ℕ → Search → Option Search → Type 0
Finished n s none = ⊥
Finished n s (some s') =
    (s'.q ≡ [])
    × (s'.q_end + unreached n s'.cells ≡ s.q_end + unreached n s.cells)
    × ((i : ℕ) → is_wall (s'.cells i) ≡ is_wall (s.cells i))

search_rounds-Finished :
    (fuel n x_dim : ℕ) (queue : List ℕ) (s : Search)
    → queue ≡ s.q
    → AllBelow n queue
    → Roomy n x_dim s.cells
    → length queue + unreached n s.cells ≤ fuel
    → Finished n s (search_rounds fuel x_dim queue s)
unfolding search_rounds
search_rounds-Finished fuel n x_dim [] s e a room h = (sym e, refl, λ i. refl)
search_rounds-Finished zero n x_dim (cur ∷ rest) s e a room h = absurd (omega arith)
search_rounds-Finished (suc fuel) n x_dim (cur ∷ rest) s e a room h =
    let popped = record s { q = rest } in
    let next = explore_all x_dim cur popped in
    let x = explore_all-Explored n x_dim cur popped a.0 room in
    let f =
      search_rounds-Finished fuel n x_dim next.q next refl (x.below a.1)
        (Roomy-walls n x_dim s.cells next.cells x.walls room) (omega (arith, x.work, h)) in
    onward (search_rounds fuel x_dim next.q next) s next x.marks x.walls f
  where
    onward :
        (o : Option Search) (s next : Search)
        → next.q_end + unreached n next.cells ≡ s.q_end + unreached n s.cells
        → ((i : ℕ) → is_wall (next.cells i) ≡ is_wall (s.cells i))
        → Finished n next o
        → Finished n s o
    onward none s next m w f = f
    onward (some t) s next m w f = (f.0, f.1 ∙ m, λ i. f.2 i ∙ w i)

-- From a square of an `n`-square maze that has not been reached, where every open square is followed
-- by a square of the maze, the search ends after at most `n` rounds, with an empty queue. It
-- returns the number of the squares that it has reached, and leaves all walls.
pub mark_maze_area_terminates :
    (n x_dim start : ℕ) (cells : ℕ → ℕ)
    → start < n
    → is_reached (cells start) ≡ false
    → Roomy n x_dim cells
    → (s : Search) × (mark_maze_area n x_dim start cells ≡ some s)
      × (s.q ≡ [])
      × (s.q_end + unreached n s.cells ≡ unreached n cells)
      × ((i : ℕ) → is_wall (s.cells i) ≡ is_wall (cells i))
unfolding mark_maze_area
mark_maze_area_terminates n x_dim start cells h e room =
    let t : Search = record { cells = cells; q = []; q_end = 0 } in
    let s : Search = mark_at start t in
    let x = mark_at-Explored n start t h e in
    result (search_rounds n x_dim (start ∷ []) s) s (omega (arith, x.marks)) x.walls (
      search_rounds-Finished n n x_dim (start ∷ []) s refl (h, 0)
        (Roomy-walls n x_dim cells s.cells x.walls room)
        (omega (arith, x.work, unreached-le n cells)))
  where
    result :
        (o : Option Search) (s : Search)
        → s.q_end + unreached n s.cells ≡ unreached n cells
        → ((i : ℕ) → is_wall (s.cells i) ≡ is_wall (cells i))
        → Finished n s o
        → (r : Search) × (o ≡ some r)
          × (r.q ≡ [])
          × (r.q_end + unreached n r.cells ≡ unreached n cells)
          × ((i : ℕ) → is_wall (r.cells i) ≡ is_wall (cells i))
    result none s m w f = absurd f
    result (some r) s m w f = (r, refl, f.0, f.1 ∙ m, λ i. f.2 i ∙ w i)
