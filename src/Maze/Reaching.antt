-- ===== src/Maze/Reaching.antt =====
-- What mark_maze_area has reached when it ends: everything that is connected to the start.
use ece391_computer_systems.Base.{
  ℕ, zero, suc, ◌+◌, ◌-◌, ◌*◌, ◌≡◌, ◌⊎◌, inl, inr, Bool, true, false, ◌&&◌, not, ◌==◌, ==_refl,
  if◌then◌else◌, List, [], ◌∷◌, ◌++◌, Option, none, some, arith, refl, ap, ◌∙◌, sym, subst,
}
use ece391_computer_systems.Maze.{is_wall, is_reached, with_reach}
use ece391_computer_systems.Maze.Marking.{
  Search, explore, explore_all, search_rounds, with_reach-reached, with_reach-wall, index_eq,
}
use ece391_computer_systems.Maze.Ending.{mark_at, explore-cases}

abbrev pub In : ℕ → List ℕ → Type 0
In c [] = ⊥
In c (x ∷ q) = (c ≡ x) ⊎ In c q

In-left : (c : ℕ) (q r : List ℕ) → In c q → In c (q ++ r)
In-left c [] r h = absurd h
In-left c (x ∷ q) r (inl e) = inl e
In-left c (x ∷ q) r (inr h) = inr (In-left c q r h)

In-last : (c : ℕ) (q : List ℕ) → In c (q ++ (c ∷ []))
In-last c [] = inl refl
In-last c (x ∷ q) = inr (In-last c q)

-- Nothing that was reached or queued is lost, and what is new is queued.
pub record Grows (s s' : Search) : Type 0 where
  pub walls : (i : ℕ) → is_wall (s'.cells i) ≡ is_wall (s.cells i)
  pub stays : (i : ℕ) → is_reached (s.cells i) ≡ true → is_reached (s'.cells i) ≡ true
  pub queued : (i : ℕ) → In i s.q → In i s'.q
  pub fresh : (i : ℕ) → is_reached (s'.cells i) ≡ true → (is_reached (s.cells i) ≡ true) ⊎ In i s'.q

Grows-same : (s : Search) → Grows s s
Grows-same s = record {
  walls = λ i. refl;
  stays = λ i h. h;
  queued = λ i h. h;
  fresh = λ i h. inl h;
}

Grows-Grows : (s s' s'' : Search) → Grows s s' → Grows s' s'' → Grows s s''
Grows-Grows s s' s'' a b = record {
  walls = λ i. b.walls i ∙ a.walls i;
  stays = λ i h. b.stays i (a.stays i h);
  queued = λ i h. b.queued i (a.queued i h);
  fresh = λ i h. elim (b.fresh i h) [
    | inl g ↦ elim (a.fresh i g) [ inl k ↦ inl k | inr k ↦ inr (b.queued i k) ]
    | inr g ↦ inr g
  ];
}

pub mark_at-Grows : (target : ℕ) (s : Search) → Grows s (mark_at target s)
mark_at-Grows t s = record {
  walls = λ i. wall (i == t) i refl;
  stays = λ i h. stay (i == t) i h;
  queued = λ i h. In-left i s.q (t ∷ []) h;
  fresh = λ i h. new (i == t) i refl h;
}
  where
    wall :
        (b : Bool) (i : ℕ)
        → i == t ≡ b
        → is_wall (if b then with_reach (s.cells t) else s.cells i) ≡ is_wall (s.cells i)
    wall true i e =
        with_reach-wall (s.cells t) ∙ ap (λ j. is_wall (s.cells j)) (sym (index_eq i t e))
    wall false i e = refl

    stay :
        (b : Bool) (i : ℕ)
        → is_reached (s.cells i) ≡ true
        → is_reached (if b then with_reach (s.cells t) else s.cells i) ≡ true
    stay true i h = with_reach-reached (s.cells t)
    stay false i h = h

    new :
        (b : Bool) (i : ℕ)
        → i == t ≡ b
        → is_reached (if b then with_reach (s.cells t) else s.cells i) ≡ true
        → (is_reached (s.cells i) ≡ true) ⊎ In i (s.q ++ (t ∷ []))
    new true i e h =
        inr (subst (λ j. In j (s.q ++ (t ∷ []))) (sym (index_eq i t e)) (In-last t s.q))
    new false i e h = inl h

explore-Grows : (wall target : ℕ) (s : Search) → Grows s (explore wall target s)
explore-Grows wall target s = elim (explore-cases wall target s) [
  | inl e ↦ subst (Grows s) (sym e) (Grows-same s)
  | inr e ↦ subst (Grows s) (sym e.2) (mark_at-Grows target s)
]

-- One direction is done: the way is walled off or its end is reached.
abbrev pub Done : Search → ℕ → ℕ → Type 0
Done s wall target = is_wall (s.cells wall) ≡ false → is_reached (s.cells target) ≡ true

Done-Grows :
    (s s' : Search) (wall target : ℕ) → Grows s s' → Done s wall target → Done s' wall target
Done-Grows s s' wall target g d o = g.stays target (d (sym (g.walls wall) ∙ o))

explore-Done : (wall target : ℕ) (s : Search) → Done (explore wall target s) wall target
unfolding explore
explore-Done wall target s = go (is_wall (s.cells wall)) (is_reached (s.cells target)) refl refl
  where
    go :
        (a b : Bool)
        → is_wall (s.cells wall) ≡ a
        → is_reached (s.cells target) ≡ b
        → Done (if not a && not b then mark_at target s else s) wall target
    go true b e f o = absurd (clash (is_wall (s.cells wall)) e o)
      where
        clash : (c : Bool) → c ≡ true → c ≡ false → ⊥
        clash c e f = ground arith
    go false true e f o = f
    go false false e f o =
        ap (λ x. is_reached (if x then with_reach (s.cells target) else s.cells target))
          (==_refl target)
        ∙ with_reach-reached (s.cells target)

-- All four directions of a square.
pub record AllDone (x_dim : ℕ) (s : Search) (c : ℕ) : Type 0 where
  pub up : Done s (c - 2 * x_dim) (c - 4 * x_dim)
  pub right : Done s (c + 1) (c + 2)
  pub down : Done s (c + 2 * x_dim) (c + 4 * x_dim)
  pub left : Done s (c - 1) (c - 2)

AllDone-Grows : (x_dim c : ℕ) (s s' : Search) → Grows s s' → AllDone x_dim s c → AllDone x_dim s' c
AllDone-Grows x_dim c s s' g d = record {
  up = Done-Grows s s' _ _ g d.up;
  right = Done-Grows s s' _ _ g d.right;
  down = Done-Grows s s' _ _ g d.down;
  left = Done-Grows s s' _ _ g d.left;
}

pub explore_all-Grows :
    (x_dim c : ℕ) (s : Search)
    → Grows s (explore_all x_dim c s) × AllDone x_dim (explore_all x_dim c s) c
explore_all-Grows x_dim c s =
    let s1 = explore (c - 2 * x_dim) (c - 4 * x_dim) s in
    let s2 = explore (c + 1) (c + 2) s1 in
    let s3 = explore (c + 2 * x_dim) (c + 4 * x_dim) s2 in
    let s4 = explore (c - 1) (c - 2) s3 in
    let g4 = explore-Grows (c - 1) (c - 2) s3 in
    let g3 = Grows-Grows s2 s3 s4 (explore-Grows (c + 2 * x_dim) (c + 4 * x_dim) s2) g4 in
    let g2 = Grows-Grows s1 s2 s4 (explore-Grows (c + 1) (c + 2) s1) g3 in
    (
      Grows-Grows s s1 s4 (explore-Grows (c - 2 * x_dim) (c - 4 * x_dim) s) g2,
      record {
        up = Done-Grows s1 s4 _ _ g2 (explore-Done (c - 2 * x_dim) (c - 4 * x_dim) s);
        right = Done-Grows s2 s4 _ _ g3 (explore-Done (c + 1) (c + 2) s1);
        down = Done-Grows s3 s4 _ _ g4 (explore-Done (c + 2 * x_dim) (c + 4 * x_dim) s2);
        left = explore-Done (c - 1) (c - 2) s3;
      },
    )

-- Every reached square was reached before the search, is done, or waits in the queue.
abbrev Sound : ℕ → (ℕ → ℕ) → List ℕ → Search → Type 0
Sound x_dim old queue s =
    (c : ℕ)
    → is_reached (s.cells c) ≡ true
    → (is_reached (old c) ≡ true) ⊎ (AllDone x_dim s c ⊎ In c queue)

abbrev pub Closed : ℕ → (ℕ → ℕ) → Option Search → Type 0
Closed x_dim old none = ℕ
Closed x_dim old (some s) =
    (c : ℕ) → is_reached (s.cells c) ≡ true → (is_reached (old c) ≡ true) ⊎ AllDone x_dim s c

pub search_rounds-Closed :
    (fuel x_dim : ℕ) (old : ℕ → ℕ) (queue : List ℕ) (s : Search)
    → Sound x_dim old queue s
    → Closed x_dim old (search_rounds fuel x_dim queue s)
unfolding search_rounds
search_rounds-Closed fuel x_dim old [] s h =
    λ c r. elim (h c r) [ inl e ↦ inl e | inr e ↦ elim e [ inl d ↦ inr d | inr i ↦ absurd i ] ]
search_rounds-Closed zero x_dim old (cur ∷ rest) s h = 0
search_rounds-Closed (suc fuel) x_dim old (cur ∷ rest) s h =
    let popped : Search = record s { q = rest } in
    let next = explore_all x_dim cur popped in
    let g = explore_all-Grows x_dim cur popped in
    search_rounds-Closed fuel x_dim old next.q next (λ c r. elim (g.0.fresh c r) [
      | inr i ↦ inr (inr i)
      | inl k ↦ elim (h c k) [
        | inl e ↦ inl e
        | inr e ↦ elim e [
          | inl d ↦ inr (inl (AllDone-Grows x_dim c popped next g.0 (again x_dim c s rest d)))
          | inr i ↦ elim i [
            | inl z ↦ inr (inl (subst (AllDone x_dim next) (sym z) g.1))
            | inr j ↦ inr (inr (g.0.queued c j))
          ]
        ]
      ]
    ])
  where
    again :
        (x_dim c : ℕ) (s : Search) (rest : List ℕ)
        → AllDone x_dim s c
        → AllDone x_dim (record s { q = rest }) c
    again x_dim c s rest d = record { up = d.up; right = d.right; down = d.down; left = d.left }
