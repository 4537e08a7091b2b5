-- ===== src/Maze/Finding.antt =====
-- mark_maze_area reaches nothing but what is connected to the start, and counts it.
use ece391_computer_systems.Base.{
  ℕ, zero, suc, ◌+◌, ◌-◌, ◌*◌, ◌%◌, ◌<◌, ◌≡◌, ◌⊎◌, inl, inr, Bool, true, false, not, ◌==◌, ==_refl,
  if◌then◌else◌, List, [], ◌∷◌, ◌++◌, Option, none, some, store, arith, refl, ap, ◌∙◌, sym, subst,
}
use ece391_computer_systems.Maze.{is_wall, is_reached, with_reach}
use ece391_computer_systems.Maze.Counting.{one_if}
use ece391_computer_systems.Maze.Marking.{
  Search, explore, explore_all, search_rounds, mark_maze_area, with_reach-reached, index_eq,
}
use ece391_computer_systems.Maze.Ending.{mark_at, explore-cases}
use ece391_computer_systems.Maze.Reaching.{In, mark_at-Grows}
use ece391_computer_systems.Maze.Ways.{
  Way, stop, go_up, go_right, go_down, go_left, Stays, search_rounds-Stays,
}
use ece391_computer_systems.Maze.Lattice.{Lattice, room, IsRoom}
use ece391_computer_systems.Maze.Rooms.{count_rooms, count_rooms-change}
use ece391_computer_systems.Maze.Neighbours.{Way-IsRoom}

abbrev pub is_hidden : ℕ → Bool
is_hidden c = not (is_reached c)

with_reach-low : (c : ℕ) → with_reach c % 128 ≡ c % 128
with_reach-low c = ground arith

In-snoc : (i t : ℕ) (q : List ℕ) → In i (q ++ (t ∷ [])) → In i q ⊎ (i ≡ t)
In-snoc i t [] (inl e) = inr e
In-snoc i t [] (inr h) = absurd h
In-snoc i t (x ∷ q) (inl e) = inl (inl e)
In-snoc i t (x ∷ q) (inr h) = elim (In-snoc i t q h) [ inl k ↦ inl (inr k) | inr e ↦ inr e ]

module _ (d y_dim : ℕ) (cells : ℕ → ℕ) (start : ℕ) where
  -- How far a search of `cells` from `start` is.
  pub record Found (s : Search) : Type 0 where
    pub walls : (i : ℕ) → is_wall (s.cells i) ≡ is_wall (cells i)
    pub low : (i : ℕ) → s.cells i % 128 ≡ cells i % 128
    pub queued : (i : ℕ) → In i s.q → Way d cells start i
    pub sound :
        (i : ℕ)
        → is_reached (s.cells i) ≡ true
        → (is_reached (cells i) ≡ true) ⊎ Way d cells start i
    pub counted :
        s.q_end + count_rooms is_hidden d y_dim s.cells ≡ count_rooms is_hidden d y_dim cells

  module _ (l : Lattice d y_dim cells) (r : IsRoom d y_dim start) where
    mark_at-Found :
        (t : ℕ) (s : Search)
        → Found s
        → Way d cells start t
        → is_reached (s.cells t) ≡ false
        → Found (mark_at t s)
    mark_at-Found t s f way e =
        let g = mark_at-Grows t s in
        let i = Way-IsRoom d y_dim cells l r way in
        record {
          walls = λ j. g.walls j ∙ f.walls j;
          low = λ j. low_bits (j == t) j refl ∙ f.low j;
          queued = λ j h. elim (In-snoc j t s.q h) [
            | inl k ↦ f.queued j k
            | inr z ↦ subst (Way d cells start) (sym z) way
          ];
          sound = λ j h. new j h (j == t) refl;
          counted = one_found i.a i.b i.column i.row i.index;
        }
      where
        low_bits :
            (b : Bool) (j : ℕ)
            → j == t ≡ b
            → (if b then with_reach (s.cells t) else s.cells j) % 128 ≡ s.cells j % 128
        low_bits true j e =
            with_reach-low (s.cells t) ∙ ap (λ k. s.cells k % 128) (sym (index_eq j t e))
        low_bits false j e = refl

        new :
            (j : ℕ)
            → is_reached (store s.cells t (with_reach (s.cells t)) j) ≡ true
            → (b : Bool) → j == t ≡ b
            → (is_reached (cells j) ≡ true) ⊎ Way d cells start j
        new j h true z = inr (subst (Way d cells start) (sym (index_eq j t z)) way)
        new j h false z =
            f.sound j
              (subst (λ b. is_reached (if b then with_reach (s.cells t) else s.cells j) ≡ true) z h)

        less :
            (n u v k : ℕ) (o c : Bool)
            → o ≡ false
            → c ≡ true
            → v + one_if (not o) ≡ u + one_if (not c)
            → n + u ≡ k
            → n + 1 + v ≡ k
        less n u v k o c e f g h = ground arith

        one_found :
            (a b : ℕ)
            → a < d
            → b < y_dim
            → t ≡ room d a b
            → s.q_end + 1 + count_rooms is_hidden d y_dim (store s.cells t (with_reach (s.cells t)))
              ≡ count_rooms is_hidden d y_dim cells
        one_found a b h k z =
            less s.q_end (count_rooms is_hidden d y_dim s.cells) _ _ _ _ e
              (with_reach-reached (s.cells t))
              (subst
                (λ i.
                  count_rooms is_hidden d y_dim (store s.cells i (with_reach (s.cells t)))
                    + one_if (is_hidden (s.cells i))
                  ≡ count_rooms is_hidden d y_dim s.cells
                    + one_if (is_hidden (with_reach (s.cells t))))
                (sym z)
                (count_rooms-change is_hidden d y_dim a b (with_reach (s.cells t)) s.cells h k))
              f.counted

    explore-Found :
        (wall target : ℕ) (s : Search)
        → Found s
        → (is_wall (cells wall) ≡ false → Way d cells start target)
        → Found (explore wall target s)
    explore-Found wall target s f h = elim (explore-cases wall target s) [
      | inl e ↦ subst Found (sym e) f
      | inr e ↦ subst Found (sym e.2) (mark_at-Found target s f (h (sym (f.walls wall) ∙ e.0)) e.1)
    ]

    explore_all-Found :
        (c : ℕ) (s : Search) → Way d cells start c → Found s → Found (explore_all d c s)
    explore_all-Found c s way f =
        let s1 = explore (c - 2 * d) (c - 4 * d) s in
        let s2 = explore (c + 1) (c + 2) s1 in
        let s3 = explore (c + 2 * d) (c + 4 * d) s2 in
        explore-Found (c - 1) (c - 2) s3
          (explore-Found (c + 2 * d) (c + 4 * d) s2
            (explore-Found (c + 1) (c + 2) s1
              (explore-Found (c - 2 * d) (c - 4 * d) s f (λ o. go_up way o)) (λ o. go_right way o))
            (λ o. go_down way o))
          (λ o. go_left way o)

    abbrev Finds : Option Search → Type 0
    Finds none = ℕ
    Finds (some s) = Found s

    search_rounds-Found :
        (fuel : ℕ) (queue : List ℕ) (s : Search)
        → queue ≡ s.q
        → Found s
        → Finds (search_rounds fuel d queue s)
    unfolding search_rounds
    search_rounds-Found fuel [] s e f = f
    search_rounds-Found zero (c ∷ rest) s e f = 0
    search_rounds-Found (suc fuel) (c ∷ rest) s e f =
        let popped : Search = record { cells = s.cells; q = rest; q_end = s.q_end } in
        let next = explore_all d c popped in
        search_rounds-Found fuel next.q next refl (
          explore_all-Found c popped (f.queued c (subst (In c) e (inl refl))) (record {
            walls = f.walls;
            low = f.low;
            queued = λ i h. f.queued i (subst (In i) e (inr h));
            sound = f.sound;
            counted = f.counted;
          }))

    -- Where a search ends.
    pub mark_maze_area-Found :
        (fuel : ℕ) (s : Search)
        → is_reached (cells start) ≡ false
        → mark_maze_area fuel d start cells ≡ some s
        → Found s
    unfolding mark_maze_area
    mark_maze_area-Found fuel s e m =
        let t : Search = record { cells = cells; q = []; q_end = 0 } in
        subst Finds m (
          search_rounds-Found fuel (start ∷ []) (mark_at start t) refl (
            mark_at-Found start t
              (record {
                walls = λ i. refl;
                low = λ i. refl;
                queued = λ i h. absurd h;
                sound = λ i h. inl h;
                counted = omega arith;
              })
              stop e))

-- What was reached stays so, and the start is reached.
pub mark_maze_area-Stays :
    (fuel d start : ℕ) (cells : ℕ → ℕ) (s : Search)
    → mark_maze_area fuel d start cells ≡ some s
    → ((i : ℕ) → is_reached (cells i) ≡ true → is_reached (s.cells i) ≡ true)
      × (is_reached (s.cells start) ≡ true)
unfolding mark_maze_area
mark_maze_area-Stays fuel d start cells s m =
    let t : Search = record { cells = cells; q = []; q_end = 0 } in
    let first : Search = mark_at start t in
    let g = mark_at-Grows start t in
    let f : Stays first (some s) =
      subst (Stays first) m (search_rounds-Stays fuel d (start ∷ []) first) in
    (
      λ i h. f.0 i (g.stays i h),
      f.0 start (
          ap (λ b. is_reached (if b then with_reach (cells start) else cells start)) (==_refl start)
          ∙ with_reach-reached (cells start)),
    )
