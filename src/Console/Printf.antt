-- ===== src/Console/Printf.antt =====
-- printf of student-distrib/lib.c. The format stands in memory; `args` are the words behind it on
-- the stack, `esp` counts those that are used, and `conv_buf` is the address of the local array.
pub mod Text
use ece391_computer_systems.Base.{
  ℕ, zero, suc, ◌+◌, ◌-◌, ◌*◌, ◌%◌, Bool, true, false, ◌==◌, ltb, leb, if◌then◌else◌, Mem, store,
}
use ece391_computer_systems.Libc.{itoa, strlen, address_space}
use ece391_computer_systems.Console.{Console, putc, puts}

abbrev pub put_string : Console → ℕ → Console
put_string s str = (puts s str).1

abbrev pub with_mem : Console → Mem → Console
with_mem s m = record s { mem = m }

-- `goto format_char_switch`: past the `#`, with the rounds left; the place and `alternate`.
pub skip_hashes : ℕ → Mem → ℕ → Bool → ℕ × Bool
skip_hashes zero m buf alternate = (buf, alternate)
skip_hashes (suc fuel) m buf alternate =
    let rest = skip_hashes fuel m (buf + 1) true in if m buf == 35 then rest else (buf, alternate)

-- `while (i < 8)`, from index `i` on, with the rounds left.
pub pad : ℕ → Mem → ℕ → ℕ → Mem
pad zero m conv_buf i = m
pad (suc left) m conv_buf i =
    let rest = pad left (store m (conv_buf + i) 48) conv_buf (i + 1) in if ltb i 8 then rest else m

pub print_hex : ℕ → ℕ → Bool → Console → Console
print_hex conv_buf value false s = put_string (with_mem s (itoa s.mem value conv_buf 16)) conv_buf
print_hex conv_buf value true s =
    let m = itoa s.mem value (conv_buf + 8) 16 in
    let starting_index = strlen m (conv_buf + 8) in
    put_string (with_mem s (pad 8 m conv_buf starting_index)) (conv_buf + starting_index)

pub print_signed : ℕ → ℕ → Console → Console
print_signed conv_buf value s =
    if ltb value 2147483648
    then put_string (with_mem s (itoa s.mem value conv_buf 10)) conv_buf
    else put_string
        (with_mem s (itoa (store s.mem conv_buf 45) (4294967296 - value) (conv_buf + 1) 10))
        conv_buf

-- One conversion: whether it takes an argument, and what it prints.
abbrev pub takes : ℕ → ℕ
takes c =
    if c == 120
    then 1
    else if c == 117
    then 1
    else if c == 100
    then 1
    else if c == 99
    then 1
    else if c == 115
    then 1
    else 0

pub convert : ℕ → ℕ → Bool → ℕ → Console → Console
convert conv_buf c alternate value s =
    if c == 37
    then putc 37 s
    else if c == 120
    then print_hex conv_buf value alternate s
    else if c == 117
    then put_string (with_mem s (itoa s.mem value conv_buf 10)) conv_buf
    else if c == 100
    then print_signed conv_buf value s
    else if c == 99
    then putc (value % 256) s
    else if c == 115
    then put_string s value
    else s

-- `while (*buf != '\0')`, with the rounds left. A format that ends within a conversion is left
-- behind its terminator.
pub printf_loop : ℕ → ℕ → (ℕ → ℕ) → ℕ → ℕ → Console → ℕ × Console
printf_loop zero conv_buf args buf esp s = (buf, s)
printf_loop (suc fuel) conv_buf args buf esp s =
    let (at, alternate) = skip_hashes address_space s.mem (buf + 1) false in
    let c = s.mem at in
    let plain = printf_loop fuel conv_buf args (buf + 1) esp (putc (s.mem buf) s) in
    let converted =
      printf_loop fuel conv_buf args (at + 1) (esp + takes c)
        (convert conv_buf c alternate (args esp) s) in
    if s.mem buf == 0 then (buf, s) else if s.mem buf == 37 then converted else plain

-- The result is `buf - format`.
pub printf : ℕ → (ℕ → ℕ) → ℕ → Console → ℕ × Console
printf conv_buf args format s =
    let r = printf_loop address_space conv_buf args format 0 s in (r.0 - format, r.1)
