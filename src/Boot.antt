-- ===== src/Boot.antt =====
-- Kernel/module_loader.c, idt_loader.c, time.c and irq_dispatcher.c.
pub mod Gates
pub mod Exceptions
pub mod Digits
mod Tests
use macac_os.Base.{
  ℕ, zero, suc, ◌+◌, ◌-◌, ◌*◌, ◌/◌, ◌%◌, ◌^◌, Bool, true, false, ltb, ◌==◌, if◌then◌else◌, Option,
  none, some, List, [], ◌∷◌, get_elem?,
}
use macac_os.Base.Int.{ℤ, pos, negsuc}
use macac_os.KernelLib.{Bytes, mem_cpy, read_uint32}

-- The results of `read_uint32` and `load_module` have the address that `*address` is then.
unfoldable pub read_uint32_at : ℕ → Bytes → ℕ × ℕ
read_uint32_at address m = (read_uint32 address m, address + 4)

unfoldable pub load_module : ℕ → ℕ → Bytes → ℕ × Bytes
unfolding read_uint32_at
load_module address target_module_address m =
    let size = read_uint32_at address m in
    (size.1 + size.0, mem_cpy target_module_address size.1 size.0 m)

-- The loop of `load_modules` with the rounds that are left. `none` is a read behind the array of
-- addresses.
unfoldable pub load_from : ℕ → ℕ → List ℕ → Bytes → Option Bytes
load_from zero current_module targets m = some m
load_from (suc left) current_module [] m = none
load_from (suc left) current_module (t ∷ ts) m =
    let loaded = load_module current_module t m in load_from left loaded.0 ts loaded.1

unfoldable pub load_modules : ℕ → List ℕ → Bytes → Option Bytes
unfolding load_from read_uint32_at
load_modules payload_start target_module_address m =
    let count = read_uint32_at payload_start m in load_from count.0 count.1 target_module_address m

-- `DESCR_INT`
pub record DescrInt : Type 0 where
  pub offset_l : ℕ
  pub selector : ℕ
  pub cero : ℕ
  pub access : ℕ
  pub offset_m : ℕ
  pub offset_h : ℕ
  pub other_cero : ℕ

-- `ACS_INT`
abbrev pub acs_int : ℕ
acs_int = 0x8E

-- The table, the masks of the two interrupt controllers, and whether interrupts are enabled.
pub record Machine : Type 0 where
  pub idt : ℕ → DescrInt
  pub master_mask : ℕ
  pub slave_mask : ℕ
  pub enabled : Bool

unfoldable pub setup_idt_entry : ℕ → ℕ → Machine → Machine
setup_idt_entry index offset s = record s {
  idt = λ i.
      if i == index
      then record {
        offset_l = offset % 2 ^ 16;
        selector = 0x08;
        cero = 0;
        access = acs_int;
        offset_m = offset / 2 ^ 16 % 2 ^ 16;
        offset_h = offset / 2 ^ 32 % 2 ^ 32;
        other_cero = 0;
      }
      else s.idt i;
}

-- The addresses of the five handlers in Kernel/asm/interrupts.asm.
pub record Handlers : Type 0 where
  pub division_by_zero_interruption : ℕ
  pub invalid_op_code_interruption : ℕ
  pub irq00_handler : ℕ
  pub irq01_handler : ℕ
  pub irq80_handler : ℕ

unfoldable pub load_idt : Handlers → Machine → Machine
unfolding setup_idt_entry
load_idt h s =
    let s₁ : Machine = record s { enabled = false } in
    let s₂ = setup_idt_entry 0x00 h.division_by_zero_interruption s₁ in
    let s₃ = setup_idt_entry 0x06 h.invalid_op_code_interruption s₂ in
    let s₄ = setup_idt_entry 0x20 h.irq00_handler s₃ in
    let s₅ = setup_idt_entry 0x21 h.irq01_handler s₄ in
    let s₆ = setup_idt_entry 0x80 h.irq80_handler s₅ in
    record s₆ { master_mask = 0xFC; slave_mask = 0xFF; enabled = true }

-- The `unsigned long` that time.c counts in.
unfoldable pub timer_handler : ℕ → ℕ
timer_handler ticks = (ticks + 1) % 2 ^ 64

-- The value of an `int` that an `unsigned long` is converted to.
abbrev pub to_int : ℕ → ℤ
to_int n = let w = n % 2 ^ 32 in if ltb w (2 ^ 31) then pos w else negsuc (2 ^ 32 - w - 1)

unfoldable pub ticks_elapsed : ℕ → ℤ
ticks_elapsed ticks = to_int ticks

unfoldable pub seconds_elapsed : ℕ → ℤ
seconds_elapsed ticks = to_int (ticks / 18)

unfoldable pub irq_dispatcher : ℕ → ℕ → ℕ
unfolding timer_handler
irq_dispatcher irq ticks = if irq == 0 then timer_handler ticks else ticks
