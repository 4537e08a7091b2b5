-- ===== src/Libc.antt =====
-- The memory and string routines of MP3_FinalProj_Kernel/student-distrib/lib.c, over the memory.
-- A routine that writes through a pointer returns the new memory. The inline assembly of `memset`,
-- `memcpy` and `memmove` is written out with its alignment phases and its direction.
pub mod Memset
pub mod Memcpy
pub mod Memmove
pub mod Strings
pub mod Compare
pub mod Copying
pub mod Reverse
pub mod Itoa
mod Examples
use ece391_computer_systems.Base.{
  ℕ, zero, suc, ◌+◌, ◌-◌, ◌*◌, ◌/◌, ◌%◌, Bool, ◌||◌, not, List, [], ◌∷◌, ◌==◌, ltb, leb,
  if◌then◌else◌, get_or, Mem, store, store32, ℤ, pos, sub_ℕ,
}

-- `rep stosl`, and a loop of `movb %al, (%edi)`.
pub fill_dwords : Mem → ℕ → ℕ → ℕ → Mem
fill_dwords m edi eax zero = m
fill_dwords m edi eax (suc ecx) = fill_dwords (store32 m edi eax) (edi + 4) eax ecx

pub fill_bytes : Mem → ℕ → ℕ → ℕ → Mem
fill_bytes m edi al zero = m
fill_bytes m edi al (suc n) = fill_bytes (store m edi al) (edi + 1) al n

-- `.memset_aligned` and `.memset_bottom`: dwords, then the last `ecx & 3` bytes.
pub memset_aligned : Mem → ℕ → ℕ → ℕ → Mem
memset_aligned m edi c ecx =
    fill_bytes (fill_dwords m edi (c * 16777216 + c * 65536 + c * 256 + c) (ecx / 4))
      (edi + 4 * (ecx / 4)) c (ecx % 4)

-- `.memset_top`: bytes up to a multiple of four.
pub memset_top : Mem → ℕ → ℕ → ℕ → Mem
memset_top m edi c zero = m
memset_top m edi c (suc ecx) =
    let rest = memset_top (store m edi c) (edi + 1) c ecx in
    if edi % 4 == 0 then memset_aligned m edi c (suc ecx) else rest

pub memset : Mem → ℕ → ℕ → ℕ → Mem
memset m s c n = memset_top m s (c % 256) n

-- One step of `movsl`: four bytes are read, then written.
abbrev pub move_dword : Mem → ℕ → ℕ → Mem
move_dword m edi esi =
    store (store (store (store m edi (m esi)) (edi + 1) (m (esi + 1))) (edi + 2) (m (esi + 2)))
      (edi + 3) (m (esi + 3))

-- `rep movsl`, and a loop that moves one byte at a time upwards.
pub copy_dwords : Mem → ℕ → ℕ → ℕ → Mem
copy_dwords m edi esi zero = m
copy_dwords m edi esi (suc ecx) = copy_dwords (move_dword m edi esi) (edi + 4) (esi + 4) ecx

pub copy_up : Mem → ℕ → ℕ → ℕ → Mem
copy_up m edi esi zero = m
copy_up m edi esi (suc n) = copy_up (store m edi (m esi)) (edi + 1) (esi + 1) n

-- `std; rep movsb` from the last byte down.
pub copy_down : Mem → ℕ → ℕ → ℕ → Mem
copy_down m dest src zero = m
copy_down m dest src (suc n) = copy_down (store m (dest + n) (m (src + n))) dest src n

pub memcpy_aligned : Mem → ℕ → ℕ → ℕ → Mem
memcpy_aligned m edi esi ecx =
    copy_up (copy_dwords m edi esi (ecx / 4)) (edi + 4 * (ecx / 4)) (esi + 4 * (ecx / 4)) (ecx % 4)

pub memcpy_top : Mem → ℕ → ℕ → ℕ → Mem
memcpy_top m edi esi zero = m
memcpy_top m edi esi (suc ecx) =
    let rest = memcpy_top (store m edi (m esi)) (edi + 1) (esi + 1) ecx in
    if edi % 4 == 0 then memcpy_aligned m edi esi (suc ecx) else rest

unfoldable pub memcpy : Mem → ℕ → ℕ → ℕ → Mem
unfolding memcpy_top
memcpy m dest src n = memcpy_top m dest src n

-- `jae .memmove_go` goes upwards where `src` is not below `dest`.
pub memmove : Mem → ℕ → ℕ → ℕ → Mem
memmove m dest src n = if leb dest src then copy_up m dest src n else copy_down m dest src n

-- The rounds of a loop over a string: no string is longer than the address space.
abbrev pub address_space : ℕ
address_space = 4294967296

-- `while (s[len] != '\0') len++;`
pub strlen_loop : ℕ → Mem → ℕ → ℕ → ℕ
strlen_loop zero m s len = len
strlen_loop (suc fuel) m s len =
    let rest = strlen_loop fuel m s (len + 1) in if m (s + len) == 0 then len else rest

unfoldable pub strlen : Mem → ℕ → ℕ
unfolding strlen_loop
strlen m s = strlen_loop address_space m s 0

-- a - b for the bytes as `int8_t`.
abbrev pub char_diff : ℕ → ℕ → ℤ
char_diff a b = sub_ℕ ((a + 128) % 256) ((b + 128) % 256)

-- The loop over `i < n`, by the number of rounds left.
unfoldable pub strncmp : Mem → ℕ → ℕ → ℕ → ℤ
strncmp m s1 s2 zero = pos 0
strncmp m s1 s2 (suc n) =
    let rest = strncmp m (s1 + 1) (s2 + 1) n in
    if not (m s1 == m s2) || (m s1 == 0) then char_diff (m s1) (m s2) else rest

-- `while (src[i] != '\0')`, then the terminator.
pub strcpy_loop : ℕ → Mem → ℕ → ℕ → Mem
strcpy_loop zero m dest src = m
strcpy_loop (suc fuel) m dest src =
    let rest = strcpy_loop fuel (store m dest (m src)) (dest + 1) (src + 1) in
    if m src == 0 then store m dest 0 else rest

pub strcpy : Mem → ℕ → ℕ → Mem
strcpy m dest src = strcpy_loop address_space m dest src

-- The two loops of `strncpy`: copy up to the terminator, then pad with zeros.
pub strncpy : Mem → ℕ → ℕ → ℕ → Mem
unfolding fill_bytes
strncpy m dest src zero = m
strncpy m dest src (suc n) =
    let rest = strncpy (store m dest (m src)) (dest + 1) (src + 1) n in
    if m src == 0 then fill_bytes m dest 0 (suc n) else rest

-- `while (beg < end)`, where `stop` is `end + 1`: an empty string has `end == -1`.
pub strrev_loop : ℕ → Mem → ℕ → ℕ → ℕ → Mem
strrev_loop zero m s beg stop = m
strrev_loop (suc fuel) m s beg stop =
    let rest =
      strrev_loop fuel
        (store (store m (s + (stop - 1)) (m (s + beg))) (s + beg) (m (s + (stop - 1)))) s (beg + 1)
        (stop - 1) in
    if ltb (beg + 1) stop then rest else m

unfoldable pub strrev : Mem → ℕ → Mem
unfolding strrev_loop strlen
strrev m s = strrev_loop (strlen m s) m s 0 (strlen m s)

-- The characters of the array `lookup`.
abbrev pub lookup_table : List ℕ
lookup_table =
    48 ∷ 49 ∷ 50 ∷ 51 ∷ 52 ∷ 53 ∷ 54 ∷ 55 ∷ 56 ∷ 57 ∷ 65 ∷ 66 ∷ 67 ∷ 68 ∷ 69 ∷ 70 ∷ 71 ∷ 72 ∷ 73
    ∷ 74 ∷ 75 ∷ 76 ∷ 77 ∷ 78 ∷ 79 ∷ 80 ∷ 81 ∷ 82 ∷ 83 ∷ 84 ∷ 85 ∷ 86 ∷ 87 ∷ 88 ∷ 89 ∷ 90 ∷ []

-- The digits of `newval`, lowest first, and the terminator behind them.
pub itoa_loop : ℕ → Mem → ℕ → ℕ → ℕ → Mem
itoa_loop zero m newbuf newval radix = store m newbuf 0
itoa_loop (suc fuel) m newbuf newval radix =
    let rest =
      itoa_loop fuel (store m newbuf (get_or lookup_table (newval % radix) 0)) (newbuf + 1)
        (newval / radix) radix in
    if newval == 0 then store m newbuf 0 else rest

-- A value has at most 32 digits.
pub itoa : Mem → ℕ → ℕ → ℕ → Mem
itoa m value buf radix =
    if value == 0
    then store (store m buf 48) (buf + 1) 0
    else strrev (itoa_loop 32 m buf value radix) buf
