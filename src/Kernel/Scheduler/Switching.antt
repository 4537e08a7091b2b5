-- ===== src/Kernel/Scheduler/Switching.antt =====
-- Switching terminals: the screens, the typed lines, and the user page.
use ece391_computer_systems.Base.{
  ℕ, ◌+◌, ◌-◌, ◌<◌, ◌≡◌, ◌≢◌, inl, inr, true, ◌&&◌, ltb, leb, if◌then◌else◌, Mem, arith, refl, sym,
  ap, ◌∙◌, ne→==_false, ==_refl, lt→ltb,
}
use ece391_computer_systems.Libc.{memcpy}
use ece391_computer_systems.Libc.Memcpy.{memcpy_lem}
use ece391_computer_systems.Console.{video, write_switch, update_cursor, get_cursor_position}
use ece391_computer_systems.Kernel.{Kernel, Machine}
use ece391_computer_systems.Kernel.Scheduler.{switch_terminal, remap_mem, screen_page}

-- Exchanging the screens of two different terminals saves the old one and shows the new one; every
-- other byte of memory stays.
pub remap_mem_lem :
    (m : Mem) (new_id old_id a : ℕ)
    → new_id ≢ old_id
    → remap_mem m new_id old_id a ≡ (
        if leb video a && ltb a (video + 4096)
        then m (screen_page new_id + (a - video))
        else if leb (screen_page old_id) a && ltb a (screen_page old_id + 4096)
        then m (video + (a - screen_page old_id))
        else m a)
unfolding remap_mem
remap_mem_lem m new_id old_id a ne =
    let n = screen_page new_id in
    let o = screen_page old_id in
    ground (
      arith,
      memcpy_lem (memcpy m o video 4096) video n 4096 a (inl (omega arith)),
      memcpy_lem m o video 4096 a (inr (omega arith)),
      memcpy_lem m o video 4096 (n + (a - video)) (inr (omega arith)),
    )

-- Switching to the terminal that is shown already does nothing but turn interrupts on.
pub switch_terminal-same :
    (w : Machine) (k : Kernel) → switch_terminal w k k.curr_term_id ≡ record k { interrupts = true }
unfolding switch_terminal
switch_terminal-same w k = rw (==_refl k.curr_term_id) refl

switch_terminal-mem :
    (w : Machine) (k : Kernel) (n : ℕ)
    → n ≢ k.curr_term_id
    → (switch_terminal w k n).console.mem ≡ remap_mem k.console.mem n k.curr_term_id
unfolding switch_terminal write_switch update_cursor get_cursor_position
switch_terminal-mem w k n ne = rw (ne→==_false n k.curr_term_id ne) refl

remapped_new :
    (m : Mem) (n o i : ℕ) → n ≢ o → i < 4096 → remap_mem m n o (video + i) ≡ m (screen_page n + i)
remapped_new m n o i ne lt = ground (arith, remap_mem_lem m n o (video + i) ne)

remapped_old :
    (m : Mem) (n o i : ℕ) → n ≢ o → i < 4096 → remap_mem m n o (screen_page o + i) ≡ m (video + i)
remapped_old m n o i ne lt = ground (arith, remap_mem_lem m n o (screen_page o + i) ne)

module _ (w : Machine) (k : Kernel) (n : ℕ) (ne : n ≢ k.curr_term_id) where
  switched_id : (switch_terminal w k n).curr_term_id ≡ n
  unfolding switch_terminal
  switched_id = rw (ne→==_false n k.curr_term_id ne) refl

  switched_ind : (switch_terminal w k n).kbb_ind ≡ 0
  unfolding switch_terminal
  switched_ind = rw (ne→==_false n k.curr_term_id ne) refl

  switched_line : (j : ℕ) → j < 127 → (switch_terminal w k n).keyb_buff j ≡ (k.terminals n).sbuf j
  unfolding switch_terminal
  switched_line j lt = rw (ne→==_false n k.curr_term_id ne, lt→ltb j 128 (omega arith)) refl

  saved_line :
      (j : ℕ) → j < 127 → ((switch_terminal w k n).terminals k.curr_term_id).sbuf j ≡ k.keyb_buff j
  unfolding switch_terminal
  saved_line j lt =
      rw (ne→==_false n k.curr_term_id ne, ==_refl k.curr_term_id, lt→ltb j 128 (omega arith)) refl

-- Switching to another terminal shows what that terminal's screen was and keeps the screen of the
-- old one.
pub switch_terminal-screens :
    (w : Machine) (k : Kernel) (n i : ℕ)
    → n ≢ k.curr_term_id
    → i < 4096
    → ((switch_terminal w k n).console.mem (video + i) ≡ k.console.mem (screen_page n + i))
      × ((switch_terminal w k n).console.mem (screen_page k.curr_term_id + i)
          ≡ k.console.mem (video + i))
switch_terminal-screens w k n i ne lt = (
  ap (λ m. m (video + i)) (switch_terminal-mem w k n ne)
      ∙ remapped_new k.console.mem n k.curr_term_id i ne lt,
  ap (λ m. m (screen_page k.curr_term_id + i)) (switch_terminal-mem w k n ne)
      ∙ remapped_old k.console.mem n k.curr_term_id i ne lt,
)

-- Switching to another terminal and back leaves the screen and the first 127 typed characters as
-- they were, but the position in the typed line is 0 then: what is typed next overwrites its start.
pub switch_terminal-back :
    (w : Machine) (k : Kernel) (n : ℕ)
    → n ≢ k.curr_term_id
    → let k' = switch_terminal w (switch_terminal w k n) k.curr_term_id in
      ((i : ℕ) → i < 4096 → k'.console.mem (video + i) ≡ k.console.mem (video + i))
      × ((j : ℕ) → j < 127 → k'.keyb_buff j ≡ k.keyb_buff j)
      × (k'.curr_term_id ≡ k.curr_term_id)
      × (k'.kbb_ind ≡ 0)
switch_terminal-back w k n ne =
    let there = switched_id w k n ne in
    let back =
      λ (e : k.curr_term_id ≡ (switch_terminal w k n).curr_term_id). ne (sym (e ∙ there)) in
    (
      λ i lt.
          (switch_terminal-screens w (switch_terminal w k n) k.curr_term_id i back lt).0
          ∙ (switch_terminal-screens w k n i ne lt).1,
      λ j lt.
          switched_line w (switch_terminal w k n) k.curr_term_id back j lt
          ∙ saved_line w k n ne j lt,
      switched_id w (switch_terminal w k n) k.curr_term_id back,
      switched_ind w (switch_terminal w k n) k.curr_term_id back,
    )
