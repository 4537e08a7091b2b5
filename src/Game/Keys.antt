-- ===== src/Game/Keys.antt =====
-- keyboard_thread, tux_thread and display_time_tux.
use ece391_computer_systems.Base.{
  ℕ, ◌+◌, ◌-◌, ◌*◌, ◌/◌, ◌%◌, ◌≤◌, ◌<◌, ◌≡◌, Bool, true, false, ◌&&◌, not, ◌==◌, ltb, leb,
  if◌then◌else◌, List, [], ◌∷◌, arith, refl, ap, ◌∙◌,
}
use ece391_computer_systems.Game.{dir_up, dir_right, dir_down, dir_left}

-- `state` is the place in the sequence 27, 91 and a letter that an arrow key sends.
pub record Keys : Type 0 where
  pub state : ℕ
  pub next_dir : ℕ
  pub quit_flag : Bool

-- The letters from UP = 65 to LEFT = 68.
abbrev pub arrow : ℕ → ℕ → ℕ
arrow key old =
    if key == 65
    then dir_up
    else if key == 66
    then dir_down
    else if key == 67
    then dir_right
    else if key == 68
    then dir_left
    else old

-- One key of the loop; a backquote, 96, ends it.
unfoldable pub next_key : ℕ → Keys → Keys
next_key key k =
    if key == 96
    then record k { quit_flag = true }
    else if key == 27
    then record k { state = 1 }
    else if (key == 91) && (k.state == 1)
    then record k { state = 2 }
    else if (leb 65 key && leb key 68) && (k.state == 2)
    then record k { state = 0; next_dir = arrow key k.next_dir }
    else record k { state = 0 }

-- The loop over the keys that come while nobody has won.
pub keyboard_thread : List ℕ → Keys → Keys
keyboard_thread [] k = k
keyboard_thread (key ∷ keys) k =
    let rest = keyboard_thread keys (next_key key k) in
    if (next_key key k).quit_flag then next_key key k else rest

-- The direction that the pressed buttons give, a cleared bit being a pressed button.
unfoldable pub tux_dir : ℕ → ℕ → ℕ
tux_dir temp_tux_button old =
    if temp_tux_button % 2 == 0
    then dir_up
    else if temp_tux_button / 2 % 2 == 0
    then dir_down
    else if temp_tux_button / 4 % 2 == 0
    then dir_left
    else if temp_tux_button / 8 % 2 == 0
    then dir_right
    else old

-- The buttons that rtc_thread hands to tux_thread, and whether it wakes it.
abbrev pub polled : ℕ → ℕ
polled tux_button = tux_button % 256 / 16

abbrev pub wakes : ℕ → Bool
wakes tux_button = not (polled tux_button == 15) && not (polled tux_button == 0)

-- The direction after a poll, and the turn of tux_thread where it is woken.
unfoldable pub poll_buttons : ℕ → ℕ → ℕ
poll_buttons tux_button old = if wakes tux_button then tux_dir (polled tux_button) old else old

-- What display_time_tux hands to the driver: 0x040F0000 or 0x04070000, and four digits. The seconds
-- are not negative.
unfoldable pub display_time_tux : ℕ → ℕ
display_time_tux num_seconds =
    let minutes_tens = num_seconds / 60 / 10 in
    let minutes_ones = num_seconds / 60 - 10 * minutes_tens in
    let minute = 10 * minutes_tens + minutes_ones in
    let seconds_tens = (num_seconds - minute * 60) / 10 in
    let seconds_ones = num_seconds - minute * 60 - 10 * seconds_tens in
    let arg = if ltb 0 minutes_tens then 68091904 else 67567616 in
    arg + seconds_ones + seconds_tens * 16 + minutes_ones * 256 + minutes_tens * 4096

-- Four digits over a number of 65536ths.
nibbles :
    (base so st mo mt : ℕ)
    → base % 65536 ≡ 0
    → so < 10
    → st < 6
    → mo < 10
    → mt < 10
    → let a = base + so + st * 16 + mo * 256 + mt * 4096 in
      (a % 16 ≡ so)
      × (a / 16 % 16 ≡ st)
      × (a / 256 % 16 ≡ mo)
      × (a / 4096 % 16 ≡ mt)
      × (a / 65536 ≡ base / 65536)
nibbles base so st mo mt b h k l m =
    (omega arith, omega arith, omega arith, omega arith, omega arith)

digits :
    (t : ℕ)
    → t < 6000
    → let mt = t / 60 / 10 in
      let mo = t / 60 - 10 * mt in
      let minute = 10 * mt + mo in
      let st = (t - minute * 60) / 10 in
      let so = t - minute * 60 - 10 * st in
      (so < 10) × (st < 6) × (mo < 10) × (mt < 10) × ((mt * 10 + mo) * 60 + (st * 10 + so) ≡ t)
digits t h = (omega arith, omega arith, omega arith, omega arith, omega arith)

-- The four low nibbles as a time.
abbrev pub clock_of : ℕ → ℕ
clock_of a = (a / 4096 % 16 * 10 + a / 256 % 16) * 60 + (a / 16 % 16 * 10 + a % 16)

-- Below 100 minutes, the four low nibbles are decimal digits that spell the time in minutes and
-- seconds; above them, the fourth place is lit from ten minutes on, and the decimal point is that
-- behind the minutes.
pub display_time_tux_lem :
    (t : ℕ)
    → t < 6000
    → (clock_of (display_time_tux t) ≡ t)
      × (display_time_tux t % 16 < 10)
      × (display_time_tux t / 16 % 16 < 6)
      × (display_time_tux t / 65536 ≡ 1024 + (if leb 600 t then 15 else 7))
unfolding display_time_tux
display_time_tux_lem t h =
    let d = digits t h in
    let mt = t / 60 / 10 in
    let mo = t / 60 - 10 * mt in
    let st = (t - (10 * mt + mo) * 60) / 10 in
    let so = t - (10 * mt + mo) * 60 - 10 * st in
    let base = if ltb 0 mt then 68091904 else 67567616 in
    let n = nibbles base so st mo mt (ground arith) d.0 d.1 d.2 d.3 in
    (
      spelled _ _ _ _ _ _ _ _ n.0 n.1 n.2 n.3 ∙ d.4,
      omega (arith, n.0, d.0),
      omega (arith, n.1, d.1),
      n.4 ∙ lit t mt refl,
    )
  where
    spelled :
        (a b c d so st mo mt : ℕ)
        → a ≡ so
        → b ≡ st
        → c ≡ mo
        → d ≡ mt
        → (d * 10 + c) * 60 + (b * 10 + a) ≡ (mt * 10 + mo) * 60 + (st * 10 + so)
    spelled a b c d so st mo mt e f g h = omega arith

    lit :
        (t mt : ℕ)
        → mt ≡ t / 60 / 10
        → (if ltb 0 mt then 68091904 else 67567616) / 65536 ≡ 1024 + (if leb 600 t then 15 else 7)
    lit t mt e = ground arith

next_key-letter :
    (key : ℕ) (k : Keys)
    → 65 ≤ key
    → key ≤ 68
    → next_key key (record k { state = 2 })
      ≡ record k { state = 0; next_dir = arrow key k.next_dir }
unfolding next_key
next_key-letter key k h l =
    four (key == 96) (key == 27) (key == 91) (leb 65 key && leb key 68) (ground arith)
      (ground arith) (ground arith) (ground arith)
  where
    four :
        (a b c d : Bool)
        → a ≡ false
        → b ≡ false
        → c ≡ false
        → d ≡ true
        → (if a
            then record k { state = 2; quit_flag = true }
            else if b
            then record k { state = 1 }
            else if c && false
            then record k { state = 2 }
            else if d && true
            then record k { state = 0; next_dir = arrow key k.next_dir }
            else record k { state = 0 })
          ≡ record k { state = 0; next_dir = arrow key k.next_dir }
    four false false false true e f g i = refl
    four true b c d e f g i = absurd cc
    four false true c d e f g i = absurd cc
    four false false true d e f g i = absurd cc
    four false false false false e f g i = absurd cc

-- From any place in a sequence, the three keys 27, 91 and a letter from 65 to 68 turn the player's
-- next direction to that of the arrow, while the game has not been quit.
pub keyboard_thread-arrow :
    (key : ℕ) (k : Keys)
    → k.quit_flag ≡ false
    → 65 ≤ key
    → key ≤ 68
    → keyboard_thread (27 ∷ 91 ∷ key ∷ []) k
      ≡ record k { state = 0; next_dir = arrow key k.next_dir }
unfolding keyboard_thread next_key
keyboard_thread-arrow key k q h l =
    let last = next_key key (record k { state = 2 }) in
    ap
      (λ b.
        if b
        then record k { state = 1 }
        else if b
        then record k { state = 2 }
        else if last.quit_flag
        then last
        else last)
      q
    ∙ both last.quit_flag last
    ∙ next_key-letter key k h l
  where
    both : (b : Bool) (x : Keys) → (if b then x else x) ≡ x
    both true x = refl
    both false x = refl

-- A backquote ends the loop at once, and nothing but the flag changes.
pub keyboard_thread-quit :
    (keys : List ℕ) (k : Keys) → keyboard_thread (96 ∷ keys) k ≡ record k { quit_flag = true }
unfolding keyboard_thread next_key
keyboard_thread-quit keys k = refl
