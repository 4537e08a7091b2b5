-- ===== src/Text/Examples.antt =====
-- A font of full rows, and the bar of level 3 with two fruits after 12 minutes and 34 seconds.
use ece391_computer_systems.Base.{
  ℕ, ◌≡◌, ◌+◌, ◌*◌, ◌<◌, ◌≤◌, ◌==◌, if◌then◌else◌, List, [], ◌∷◌, length, refl, arith,
}
use ece391_computer_systems.Text.{fruit_text_to_graph}
use ece391_computer_systems.Text.Fruits.{fruit_text_to_graph_lem}
use ece391_computer_systems.Text.Status.{status_text, show_status, show_status-clock}

abbrev font_data : ℕ → ℕ → ℕ
font_data n r = if n == 50 then 129 else 0

abbrev print : ℕ → List ℕ
print n = (48 + n) ∷ []

-- Column 7 of row 3 of the second digit of the minutes.
show_status-clock_example :
    (length (status_text print 3 2 754) < 40)
    × (show_status print font_data 3 2 754 3 (λ p o. 0) 3 ((3 + 1) * 80 + 60) ≡ 15)
unfolding status_text
show_status-clock_example =
    show_status-clock print font_data 3 2 754 3 (λ p o. 0) 1 3 7 243 (λ n h. refl)
      (λ n r. ground arith) (omega arith) (omega arith) (omega arith) (omega arith) (omega arith)
      (omega arith) refl

-- Column 7 of row 2 of the "g" of "grapes!".
abbrev full_g : ℕ → ℕ → ℕ
full_g n r = if n == 103 then 255 else 0

fruit_text_to_graph_lem_example :
    ((fruit_text_to_graph full_g 2).0 2 7 ≡ 1) × ((fruit_text_to_graph full_g 2).1 ≤ 13)
fruit_text_to_graph_lem_example =
    fruit_text_to_graph_lem full_g 2 0 2 7 (λ n r. ground arith) (omega arith) (omega arith)
