-- ===== src/FileSystem/Directory.antt =====
-- The look-up of a file by its name: the first entry of that name, or none.
use ece391_computer_systems.Base.{
  ℕ, zero, suc, ◌+◌, ◌*◌, ◌≤◌, ◌<◌, ◌≡◌, ◌↔◌, ◌⊎◌, inl, inr, Bool-cases, true, false, none, some,
  ltb, Mem, arith, pos, ℤ, eqz, subst, some_inj, ltb→lt, not_ltb→le, sym,
}
use ece391_computer_systems.Libc.{strlen, strncmp}
use ece391_computer_systems.Libc.Compare.{SameString, strncmp-zero_iff}
use ece391_computer_systems.FileSystem.{
  Fs, Dentry, load_dentry, dentry_addr, find_dentry, read_dentry_by_name,
}

eqz-zero : (z : ℤ) → (eqz z (pos 0) ≡ true) ↔ (z ≡ pos 0)
eqz-zero z = (λ h. ground arith, λ h. ground arith)

-- The entry at `a` has the name at `fname`.
abbrev pub Named : Mem → ℕ → ℕ → Type 0
Named m a fname = SameString m a fname 32

module _ (m : Mem) (bytes : (x : ℕ) → m x < 256) where
  Named-test : (a fname : ℕ) → (eqz (strncmp m a fname 32) (pos 0) ≡ true) ↔ Named m a fname
  Named-test a fname = (
    (λ h. (strncmp-zero_iff m a fname 32 bytes).0 ((eqz-zero (strncmp m a fname 32)).0 h)),
    (λ h. (eqz-zero (strncmp m a fname 32)).1 ((strncmp-zero_iff m a fname 32 bytes).1 h)),
  )

  not_Named : (a fname : ℕ) → eqz (strncmp m a fname 32) (pos 0) ≡ false → ¬ Named m a fname
  not_Named a fname h n = ground (arith, (Named-test a fname).1 n)

  -- The first entry of the name among `left` entries from `cur` on.
  abbrev FirstFrom : ℕ → ℕ → ℕ → Dentry → Type 0
  FirstFrom left fname cur d =
      (i : ℕ) × (i < left)
      × Named m (cur + 64 * i) fname
      × ((j : ℕ) → j < i → ¬ Named m (cur + 64 * j) fname)
      × (d ≡ load_dentry m (cur + 64 * i))

  none_before :
      (fname cur i : ℕ)
      → ¬ Named m cur fname
      → ((j : ℕ) → j < i → ¬ Named m (cur + 64 + 64 * j) fname)
      → (j : ℕ) → j < suc i
      → ¬ Named m (cur + 64 * j) fname
  none_before fname cur i no_match f zero h n =
      no_match (subst (λ a. Named m a fname) {x = cur + 64 * 0} (omega arith) n)
  none_before fname cur i no_match f (suc j) h n =
      f j (omega arith) (subst (λ a. Named m a fname) {x = cur + 64 * suc j} (omega arith) n)

  FirstFrom-suc :
      (left fname cur : ℕ) (d : Dentry)
      → ¬ Named m cur fname
      → FirstFrom left fname (cur + 64) d
      → FirstFrom (suc left) fname cur d
  FirstFrom-suc left fname cur d no_match (i, l, n, f, e) = (
    suc i,
    omega arith,
    subst (λ a. Named m a fname) (omega arith) n,
    none_before fname cur i no_match f,
    subst (λ a. d ≡ load_dentry m a) (omega arith) e,
  )

  find_dentry-some :
      (left fname cur : ℕ) (d : Dentry)
      → find_dentry left m fname cur ≡ some d
      → FirstFrom left fname cur d
  unfolding find_dentry
  find_dentry-some zero fname cur d e = cc
  find_dentry-some (suc left) fname cur d e =
      elim (Bool-cases (eqz (strncmp m cur fname 32) (pos 0))) [
        | inl match ↦ (
          0,
          omega arith,
          subst (λ a. Named m a fname) (omega arith) ((Named-test cur fname).0 match),
          (λ j h. absurd (omega arith)),
          subst (λ a. d ≡ load_dentry m a) {x = cur} (omega arith) (sym (some_inj (rw match at e))),
        )
        | inr go ↦
            FirstFrom-suc left fname cur d (not_Named cur fname go)
              (find_dentry-some left fname (cur + 64) d (rw go at e))
      ]

  find_dentry-none :
      (left fname cur : ℕ)
      → find_dentry left m fname cur ≡ none
      → (i : ℕ) → i < left
      → ¬ Named m (cur + 64 * i) fname
  unfolding find_dentry
  find_dentry-none zero fname cur e i h = absurd (omega arith)
  find_dentry-none (suc left) fname cur e i h =
      elim (Bool-cases (eqz (strncmp m cur fname 32) (pos 0))) [
        | inl match ↦ absurd (ground arith)
        | inr go ↦
            none_before fname cur left (not_Named cur fname go)
              (find_dentry-none left fname (cur + 64) (rw go at e)) i h
      ]

  -- If `read_dentry_by_name` succeeds, the name is at most 32 characters long, and the entry is a
  -- copy of the first directory entry, among `total_dirs`, whose name equals it.
  pub read_dentry_by_name-some :
      (f : Fs) (fname : ℕ) (d : Dentry)
      → read_dentry_by_name f m fname ≡ some d
      → (strlen m fname ≤ 32)
        × ((i : ℕ) × (i < f.total_dirs)
            × Named m (dentry_addr f i) fname
            × ((j : ℕ) → j < i → ¬ Named m (dentry_addr f j) fname)
            × (d ≡ load_dentry m (dentry_addr f i)))
  unfolding read_dentry_by_name
  read_dentry_by_name-some f fname d e = elim (Bool-cases (ltb 32 (strlen m fname))) [
    | inl long ↦ absurd (ground arith)
    | inr short ↦ (
      not_ltb→le 32 (strlen m fname) short,
      at_entry (find_dentry-some f.total_dirs fname (f.start_boot_block + 64) d (rw short at e)),
    )
  ]
    where
      at_entry :
          FirstFrom f.total_dirs fname (f.start_boot_block + 64) d
          → (i : ℕ) × (i < f.total_dirs)
            × Named m (dentry_addr f i) fname
            × ((j : ℕ) → j < i → ¬ Named m (dentry_addr f j) fname)
            × (d ≡ load_dentry m (dentry_addr f i))
      at_entry (i, l, n, g, q) = (
        i,
        l,
        subst (λ a. Named m a fname) (omega arith) n,
        (λ j h k. g j h (subst (λ a. Named m a fname) {x = dentry_addr f j} (omega arith) k)),
        subst (λ a. d ≡ load_dentry m a) (omega arith) q,
      )

  -- `read_dentry_by_name` fails only if the name is longer than 32 characters, or if no entry of
  -- the directory has that name.
  pub read_dentry_by_name-none :
      (f : Fs) (fname : ℕ)
      → read_dentry_by_name f m fname ≡ none
      → (32 < strlen m fname) ⊎ ((i : ℕ) → i < f.total_dirs → ¬ Named m (dentry_addr f i) fname)
  unfolding read_dentry_by_name
  read_dentry_by_name-none f fname e = elim (Bool-cases (ltb 32 (strlen m fname))) [
    | inl long ↦ inl (ltb→lt 32 (strlen m fname) long)
    | inr short ↦ inr (λ i h n.
        find_dentry-none f.total_dirs fname (f.start_boot_block + 64) (rw short at e) i h
          (subst (λ a. Named m a fname) {x = dentry_addr f i} (omega arith) n))
  ]
