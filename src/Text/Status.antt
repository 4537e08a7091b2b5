-- ===== src/Text/Status.antt =====
-- show_status of MP2/modex.c: the words of the status bar. `print n` is what `%d` of sprintf writes for `n`.
use ece391_computer_systems.Base.{
  ℕ, suc, ◌+◌, ◌-◌, ◌*◌, ◌/◌, ◌%◌, ◌≤◌, ◌<◌, ◌≡◌, ◌==◌, leb, if◌then◌else◌, List, [], ◌∷◌, ◌++◌,
  length, get_or, Bool, true, false, arith, refl, ap, ◌∙◌,
}
use ece391_computer_systems.Text.{Planes, show_bar}
use ece391_computer_systems.Text.Letters.{lit, show_bar-letter}

-- `"%d%d:%d%d"`: the digits of the minutes and of the seconds.
abbrev pub time_res : (ℕ → List ℕ) → ℕ → List ℕ
time_res print time_diff =
    let diff_minutes = time_diff / 60 in
    let diff_seconds = time_diff - 60 * diff_minutes in
    let diff_minutes_tens = diff_minutes / 10 in
    let diff_seconds_tens = diff_seconds / 10 in
    print diff_minutes_tens
    ++ (print (diff_minutes - 10 * diff_minutes_tens)
        ++ (b':' ∷ (print diff_seconds_tens ++ print (diff_seconds - 10 * diff_seconds_tens))))

-- What stands before the time: the format strings `"Level %d    %d Fruits    %s"`, with `Fruit` for all
-- numbers but 0, and `"Level %d%d    %d Fruit    %s"`.
abbrev pub level_format : List ℕ → List ℕ → Bool → List ℕ
level_format level fruit none_left =
    (b'L' ∷ b'e' ∷ b'v' ∷ b'e' ∷ b'l' ∷ b' ' ∷ [])
    ++ (level
        ++ ((b' ' ∷ b' ' ∷ b' ' ∷ b' ' ∷ [])
            ++ (fruit
                ++ (if none_left
                    then b' ' ∷ b'F' ∷ b'r' ∷ b'u' ∷ b'i' ∷ b't' ∷ b's' ∷ b' ' ∷ b' ' ∷ b' ' ∷ b' '
                      ∷ []
                    else b' ' ∷ b'F' ∷ b'r' ∷ b'u' ∷ b'i' ∷ b't' ∷ b' ' ∷ b' ' ∷ b' ' ∷ b' '
                      ∷ []))))

-- From level 10 on, this string replaces the other in `str`.
abbrev pub status_head : (ℕ → List ℕ) → ℕ → ℕ → List ℕ
status_head print level fruit =
    if leb 10 level
    then level_format (print (level / 10) ++ print (level - 10 * (level / 10))) (print fruit) false
    else level_format (print level) (print fruit) (fruit == 0)

unfoldable pub status_text : (ℕ → List ℕ) → ℕ → ℕ → ℕ → List ℕ
status_text print level fruit time_diff = status_head print level fruit ++ time_res print time_diff

unfoldable pub show_status : (ℕ → List ℕ) → (ℕ → ℕ → ℕ) → ℕ → ℕ → ℕ → ℕ → Planes → Planes
show_status print font_data level fruit time_diff bg_color video =
    show_bar font_data (status_text print level fruit time_diff) bg_color video

-- A clock: two digits of minutes and two of seconds.
abbrev pub clock : ℕ → List ℕ
clock t = (48 + t / 600) ∷ (48 + t / 60 % 10) ∷ 58 ∷ (48 + t % 60 / 10) ∷ (48 + t % 10) ∷ []

get_behind : (xs ys : List ℕ) (k : ℕ) → get_or (xs ++ ys) (length xs + k) 0 ≡ get_or ys k 0
get_behind [] ys k = ap (λ i. get_or ys i 0) {y = k} (omega arith)
get_behind (x ∷ xs) ys k =
    ap (λ i. get_or (x ∷ (xs ++ ys)) i 0) {y = suc (length xs + k)} (omega arith)
    ∙ get_behind xs ys k

length_both : (xs ys : List ℕ) → length (xs ++ ys) ≡ length xs + length ys
length_both [] ys = omega arith
length_both (x ∷ xs) ys = let ih = length_both xs ys in omega (arith, ih)

format_len :
    (level fruit : List ℕ) (none_left : Bool)
    → length (level_format level fruit none_left) ≤ length level + length fruit + 21
format_len level fruit true =
    let p = length_both level in let q = length_both fruit in omega (arith, p, q)
format_len level fruit false =
    let p = length_both level in let q = length_both fruit in omega (arith, p, q)

either_len :
    (b : Bool) (xs ys : List ℕ) (n : ℕ)
    → (b ≡ true → length xs ≤ n)
    → (b ≡ false → length ys ≤ n)
    → length (if b then xs else ys) ≤ n
either_len true xs ys n f g = f refl
either_len false xs ys n f g = g refl

module _ (print : ℕ → List ℕ) (digit : (n : ℕ) → n < 10 → print n ≡ (48 + n) ∷ []) where
  spelled : (n v : ℕ) (rest : List ℕ) → n < 10 → n ≡ v → print n ++ rest ≡ (48 + v) ∷ rest
  spelled n v rest h e = ap (λ z. z ++ rest) (digit n h) ∙ ap (λ z. (48 + z) ∷ rest) e

  time_res_lem : (t : ℕ) → t < 6000 → time_res print t ≡ clock t
  time_res_lem t h =
      let d : ℕ = t / 60 / 10 in
      let m : ℕ = t / 60 - 10 * (t / 60 / 10) in
      let s : ℕ = (t - 60 * (t / 60)) / 10 in
      let o : ℕ = t - 60 * (t / 60) - 10 * ((t - 60 * (t / 60)) / 10) in
      let tens = 48 + t / 600 in
      let ones = 48 + t / 60 % 10 in
      let secs = 48 + t % 60 / 10 in
      spelled d (t / 600) _ (omega (arith, h)) (omega arith)
      ∙ ap (λ z. tens ∷ z) (spelled m (t / 60 % 10) _ (omega arith) (omega arith))
      ∙ ap (λ z. tens ∷ ones ∷ 58 ∷ z)
          (spelled s (t % 60 / 10) (print o) (omega arith) (omega arith)
            ∙ ap (λ z. secs ∷ z) (digit o (omega arith) ∙ ap (λ z. (48 + z) ∷ []) (omega arith)))

  one_digit : (n : ℕ) → n < 10 → length (print n) ≡ 1
  one_digit n h = ap length (digit n h)

  head_len :
      (level fruit : ℕ) → level < 100 → fruit < 10 → length (status_head print level fruit) ≤ 24
  head_len level fruit h k =
      let f = one_digit fruit k in
      either_len (leb 10 level) _ _ 24
        (λ e.
          let l = length_both (print (level / 10)) (print (level - 10 * (level / 10))) in
          let a = one_digit (level / 10) (omega (arith, h)) in
          let b = one_digit (level - 10 * (level / 10)) (omega arith) in
          let p =
            format_len (print (level / 10) ++ print (level - 10 * (level / 10))) (print fruit)
              false in
          omega (arith, l, a, b, p, f))
        (λ e.
          let a = one_digit level (ground (arith, e)) in
          let p = format_len (print level) (print fruit) (fruit == 0) in omega (arith, a, p, f))

-- Where `%d` writes a number below 10 as its digit: below 100 minutes, up to level 99 and with fewer
-- than 10 fruits, the text of the status bar has fewer than 40 characters, and its last five are the time:
-- the pixel in column `c` of row `r` of the `k`-th of them is 15 when its bit of the font is set, and
-- has the background colour otherwise, with 0 for white.
pub show_status-clock :
    (print : ℕ → List ℕ) (font_data : ℕ → ℕ → ℕ) (level fruit time_diff bg_color : ℕ)
    (video : Planes) (k r c x : ℕ)
    → ((n : ℕ) → n < 10 → print n ≡ (48 + n) ∷ [])
    → ((n r : ℕ) → font_data n r < 256)
    → level < 100
    → fruit < 10
    → time_diff < 6000
    → k < 5
    → r < 16
    → c < 8
    → x
      ≡ 4 * (40 - length (status_text print level fruit time_diff))
        + 8 * (length (status_text print level fruit time_diff) - 5 + k)
        + c
    → (length (status_text print level fruit time_diff) < 40)
      × (show_status print font_data level fruit time_diff bg_color video
            (x % 4)
            ((r + 1) * 80 + x / 4)
          ≡ (if lit (font_data (get_or (clock time_diff) k 0) r) c
              then 15
              else if bg_color == 15
              then 0
              else bg_color))
unfolding status_text show_status
show_status-clock print font_data level fruit t bg video k r c x digit byte hl hf ht hk hr hc e =
    let head = status_head print level fruit in
    let text = time_res_lem print digit t ht in
    let n : length (head ++ time_res print t) ≡ length head + 5 =
      length_both head (time_res print t) ∙ ap (λ z. length head + length z) text in
    let l = head_len print digit level fruit hl hf in
    let place : get_or (head ++ time_res print t) (length (head ++ time_res print t) - 5 + k) 0
        ≡ get_or (clock t) k 0 =
      ap (λ i. get_or (head ++ time_res print t) i 0) {y = length head + k} (omega (arith, n))
      ∙ get_behind head (time_res print t) k
      ∙ ap (λ z. get_or z k 0) text in
    (
      omega (arith, n, l),
      show_bar-letter font_data (head ++ time_res print t) bg video
            (length (head ++ time_res print t) - 5 + k) r c x byte (omega (arith, n, l))
            (omega (arith, n, hk)) hr hc e
          ∙ ap (λ z. if lit (font_data z r) c then 15 else if bg == 15 then 0 else bg) place,
    )
