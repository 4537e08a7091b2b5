-- ===== src/Kernel/Processes/Examples.antt =====
-- Starting and ending programs on the sample machine.
use ece391_computer_systems.Base.{
  ℕ, ◌+◌, ◌-◌, ◌%◌, ◌≡◌, ◌≤◌, ◌<◌, ◌==◌, if◌then◌else◌, true, pos, failure, arith, refl, sym, ap,
  ◌∙◌, ◌&&◌, ltb, leb, some, none, Mem,
}
use ece391_computer_systems.Libc.{strlen, strncmp}
use ece391_computer_systems.FileSystem.{Dentry, read_dentry_by_name}
use ece391_computer_systems.Kernel.{Kernel, UserPage, returned, resumed}
use ece391_computer_systems.Kernel.Sample.{sample, machine, image}
use ece391_computer_systems.Kernel.Files.{find_space}
use ece391_computer_systems.Kernel.Processes.{
  sys_execute, sys_halt, parse_command, counted, started_kernel, kernel_stack,
}
use ece391_computer_systems.Kernel.Processes.Refusing.{
  parse_command-mem, SameProcesses, sys_execute-refused,
}
use ece391_computer_systems.Kernel.Processes.Ending.{sys_halt-started}

-- The command at 16385 is "ELF", which no file is named.
abbrev elf_mem : Mem
elf_mem a = if a == 40000 then 69 else if a == 40001 then 76 else if a == 40002 then 70 else image a

elf_parsed : (parse_command machine (counted sample) 16385).console.mem ≡ elf_mem
unfolding strlen find_space
elf_parsed =
    λ i a. (parse_command-mem machine (counted sample) 16385 3 3 a refl refl ∙ pointwise a) i
  where
    pointwise :
        (a : ℕ)
        → (if leb 40000 a && ltb a 40003
            then image (16385 + (a - 40000))
            else if leb 40000 a && ltb a 40032
            then 0
            else image a)
          ≡ elf_mem a
    pointwise a = ground arith

elf_none : read_dentry_by_name sample.fs elf_mem 40000 ≡ none
unfolding read_dentry_by_name strncmp strlen
elf_none = refl

nothing_found :
    read_dentry_by_name sample.fs (parse_command machine (counted sample) 16385).console.mem 40000
    ≡ none
nothing_found = ap (λ m. read_dentry_by_name sample.fs m 40000) elf_parsed ∙ elf_none

fits_elf : strlen image 16385 ≤ 500
unfolding strlen
fits_elf = omega arith

short_elf : find_space (strlen image 16385) (λ i. image (16385 + i)) 0 < 32
unfolding strlen find_space
short_elf = omega arith

none_is_some : {e : Dentry} → none ≡ some e → ⊥
none_is_some e = cc

sys_execute-refused_example :
    (k' : Kernel) × (sys_execute machine sample 16385 ≡ returned failure k')
    × SameProcesses sample k'
    × (k'.pid_val ≡ pos 3)
    × (k'.interrupts ≡ true)
sys_execute-refused_example =
    sys_execute-refused machine sample 16385 (omega arith) fits_elf short_elf
      (λ e found. absurd (none_is_some (sym nothing_found ∙ found)))

-- The first word of "a b".
abbrev a_mem : Mem
a_mem a = if a == 40000 then 97 else image a

-- The file of 40 bytes, for the page of process 3.
abbrev page : UserPage
page = record { present = true; user_or_supervisor = true; base_address = 5 }

sys_halt-started_example :
    (k' : Kernel) × (sys_halt machine (started_kernel machine (counted sample) 30000 0 40) 7
      ≡ resumed 8388000 8388100 7 k')
    × (k'.pid_val ≡ pos 0)
    × (k'.pcbs (pos 0) ≡ sample.pcbs (pos 0))
    × ((k'.terminals 0).proc_cnt ≡ 1)
    × (k'.user_page.base_address ≡ (2 + 0 % 4294967296) % 1024)
    × (k'.tss_esp0 ≡ kernel_stack (pos 0))
sys_halt-started_example =
    sys_halt-started machine (counted sample) 30000 0 40 7 (omega arith) (omega arith) refl
