-- ===== src/Pic.antt =====
-- The interrupt controllers of MP3_FinalProj_Kernel/student-distrib/i8259.c and i8259.h: the masks
-- that the kernel keeps, and what it writes to the two controllers.
pub mod Masks
use Prim.Native.Nat.{bit_and, bit_or}
use ece391_computer_systems.Base.{
  ℕ, zero, suc, ◌+◌, ◌-◌, ◌*◌, ◌/◌, ◌%◌, ◌^◌, List, [], ◌∷◌, ◌==◌, ltb, leb, if◌then◌else◌,
}
use ece391_computer_systems.Console.{Console, outb, print_text, print_number}

pub record Pic : Type 0 where
  pub master_mask : ℕ
  pub slave_mask : ℕ

abbrev pub master_command : ℕ
master_command = 0x20

abbrev pub master_data : ℕ
master_data = 0x21

abbrev pub slave_command : ℕ
slave_command = 0xa0

abbrev pub slave_data : ℕ
slave_data = 0xa1

abbrev pub send : ℕ → ℕ → Console → Console
send byte port s = record s { ports = outb byte port s.ports }

-- ICW1 to ICW4 to both controllers, then all interrupts masked but the cascade.
pub i8259_init : Console → Pic × Console
i8259_init s = (
  record { master_mask = 0xfb; slave_mask = 0xff },
  send 0xff slave_data (
      send 0xfb master_data (
        send 0x01 slave_data (
          send 0x01 master_data (
            send 0x02 slave_data (
              send 0x04 master_data (
                send 0x28 slave_data (
                  send 0x20 master_data
                    (send 0x11 slave_command (send 0x11 master_command s))))))))),
)

-- `mask |= 1 << k` and `mask &= ~(1 << k)` in an `uint8_t`.
pub set_bit : ℕ → ℕ → ℕ
set_bit mask k = bit_or mask (2 ^ k) % 256

pub clear_bit : ℕ → ℕ → ℕ
clear_bit mask k = bit_and mask (4294967295 - 2 ^ k) % 256

-- A new mask is kept and sent to its controller.
abbrev pub use_slave : ℕ → Pic → Console → Pic × Console
use_slave mask p s = (record p { slave_mask = mask }, send mask slave_data s)

abbrev pub use_master : ℕ → Pic → Console → Pic × Console
use_master mask p s = (record p { master_mask = mask }, send mask master_data s)

pub disable_irq : ℕ → Pic → Console → Pic × Console
disable_irq irq_num p s =
    if leb 8 irq_num
    then use_slave (set_bit p.slave_mask (irq_num - 8)) p s
    else use_master (set_bit p.master_mask irq_num) p s

-- "IRQ Num: "
abbrev pub irq_text : List ℕ
irq_text = 73 ∷ 82 ∷ 81 ∷ 32 ∷ 78 ∷ 117 ∷ 109 ∷ 58 ∷ 32 ∷ []

-- The line of text that ends `enable_irq`.
abbrev pub report_irq : ℕ → ℕ → Pic × Console → Pic × Console
report_irq conv_buf irq_num r = (r.0, print_number conv_buf irq_num (print_text irq_text r.1))

pub enable_irq : ℕ → ℕ → Pic → Console → Pic × Console
enable_irq conv_buf irq_num p s = report_irq conv_buf irq_num (
    if leb 8 irq_num
    then use_slave (clear_bit p.slave_mask (irq_num - 8)) p s
    else use_master (clear_bit p.master_mask irq_num) p s)

pub send_eoi : ℕ → Console → Console
send_eoi irq_num s =
    if leb 8 irq_num
    then send (bit_or 0x60 0x2) master_command (send (bit_or 0x60 (irq_num - 8)) slave_command s)
    else send (bit_or 0x60 irq_num) master_command s
