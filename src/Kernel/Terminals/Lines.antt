-- ===== src/Kernel/Terminals/Lines.antt =====
-- The copying of a line by terminal_read.
use ece391_computer_systems.Base.{
  ℕ, zero, suc, ◌+◌, ◌-◌, ◌≤◌, ◌<◌, ◌≡◌, ◌≢◌, ◌⊎◌, ◌&&◌, some, ltb, leb, if◌then◌else◌, Mem, store,
  pos, arith, refl, ap, ◌∙◌, ne→==_false,
}
use ece391_computer_systems.Libc.{memset}
use ece391_computer_systems.Libc.Memset.{memset_lem}
use ece391_computer_systems.Kernel.{Kernel, Machine, with_mem}
use ece391_computer_systems.Kernel.Terminals.{terminal_read, copy_line, wait_enter}

-- A line ends at the first zero, or where the room for it does.
abbrev pub Ends : (ℕ → ℕ) → ℕ → ℕ → Type 0
Ends line room len =
    (len ≤ room) × ((len ≡ room) ⊎ (line len ≡ 0)) × ((j : ℕ) → j < len → line j ≢ 0)

copy_line_count :
    (left : ℕ) (line : ℕ → ℕ) (m : Mem) (buf i len room : ℕ)
    → i ≤ len
    → Ends line room len
    → room ≡ i + left
    → (copy_line left line m buf i).0 ≡ len
unfolding copy_line
copy_line_count zero line m buf i len room le (a, b, c) e = omega arith
copy_line_count (suc left) line m buf i len room le (a, b, c) e =
    ground (arith, c i, copy_line_count left line (store m (buf + i) (line i)) buf (i + 1) len room)

copy_line_lem :
    (left : ℕ) (line : ℕ → ℕ) (m : Mem) (buf i len room a : ℕ)
    → i ≤ len
    → Ends line room len
    → room ≡ i + left
    → (copy_line left line m buf i).1 a
      ≡ (if leb (buf + i) a && ltb a (buf + len) then line (a - buf) else m a)
unfolding copy_line
copy_line_lem zero line m buf i len room a le (h, b, c) e = ground arith
copy_line_lem (suc left) line m buf i len room a le (h, b, c) e =
    ground (arith, c i, copy_line_lem left line (store m (buf + i) (line i)) buf (i + 1) len room a)

plus_zero : (n : ℕ) → n + 0 ≡ n
plus_zero n = omega arith

-- A read of the terminal into a buffer that is not null waits for Enter. If it is pressed in the
-- state `l` that the wait ends in, with a line of `len` characters up to the first zero or up to
-- the size `n` of the buffer, then the call returns `len`, the line is in the buffer, no other byte
-- of memory changes, and the typed line is cleared so that the next read waits again.
pub terminal_read-line :
    (w : Machine) (k l : Kernel) (buf n len : ℕ)
    → buf ≢ 0
    → wait_enter w (record k { start_term = k.curr_term_id }) ≡ some l
    → Ends l.keyb_buff n len
    → (k' : Kernel) × (terminal_read w k buf (pos n) ≡ some (pos len, k'))
      × ((a : ℕ)
          → k'.console.mem a
            ≡ (if leb buf a && ltb a (buf + len) then l.keyb_buff (a - buf) else l.console.mem a))
      × ((j : ℕ) → j < 127 → k'.keyb_buff j ≡ 0)
      × (k'.enter_flag ≡ 0)
unfolding terminal_read
terminal_read-line w k l buf n len hb pressed line =
    let r = copy_line n l.keyb_buff l.console.mem buf 0 in
    let k' = record (with_mem l r.1) { keyb_buff = memset l.keyb_buff 0 0 127; enter_flag = 0 } in
    (
      k',
      rw (ne→==_false buf 0 hb, pressed)
          (ap (λ c. some (pos c, k'))
            (copy_line_count n l.keyb_buff l.console.mem buf 0 len n (omega arith) line
              (omega arith))),
      (λ a.
          copy_line_lem n l.keyb_buff l.console.mem buf 0 len n a (omega arith) line (omega arith)
          ∙ ap
              (λ b. if leb b a && ltb a (buf + len) then l.keyb_buff (a - buf) else l.console.mem a)
              (plus_zero buf)),
      (λ j h. ground (arith, memset_lem l.keyb_buff 0 0 127 j)),
      refl,
    )
