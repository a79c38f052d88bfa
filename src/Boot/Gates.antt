-- ===== src/Boot/Gates.antt =====
-- The interrupt table that `load_idt` leaves behind.
use macac_os.Base.{ℕ, ◌+◌, ◌*◌, ◌^◌, ◌<◌, ◌≡◌, ◌≢◌, true, refl, arith}
use macac_os.Boot.{DescrInt, Machine, Handlers, setup_idt_entry, load_idt, acs_int}

-- The address that the processor puts together from a descriptor.
abbrev pub gate_address : DescrInt → ℕ
gate_address d = d.offset_l + 2 ^ 16 * d.offset_m + 2 ^ 32 * d.offset_h

-- A present interrupt gate of the kernel's code segment, for the handler.
pub record IsGate (d : DescrInt) (handler : ℕ) : Type 0 where
  pub leads_to : gate_address d ≡ handler
  pub segment : d.selector ≡ 0x08
  pub kind : d.access ≡ acs_int

module _ (h : Handlers) (s : Machine) where
  -- load_idt makes the five gates, for the two exceptions, the timer, the keyboard and the system
  -- calls, lead to their handlers, whose 64-bit addresses the three parts of a descriptor hold,
  -- leaves the other entries alone, and enables interrupts.
  pub load_idt-IsGate :
      h.division_by_zero_interruption < 2 ^ 64
      → h.invalid_op_code_interruption < 2 ^ 64
      → h.irq00_handler < 2 ^ 64
      → h.irq01_handler < 2 ^ 64
      → h.irq80_handler < 2 ^ 64
      → IsGate ((load_idt h s).idt 0x00) h.division_by_zero_interruption
        × IsGate ((load_idt h s).idt 0x06) h.invalid_op_code_interruption
        × IsGate ((load_idt h s).idt 0x20) h.irq00_handler
        × IsGate ((load_idt h s).idt 0x21) h.irq01_handler
        × IsGate ((load_idt h s).idt 0x80) h.irq80_handler
        × ((i : ℕ)
            → i ≢ 0x00
            → i ≢ 0x06
            → i ≢ 0x20
            → i ≢ 0x21
            → i ≢ 0x80
            → (load_idt h s).idt i ≡ s.idt i)
        × ((load_idt h s).enabled ≡ true)
  unfolding load_idt setup_idt_entry
  load_idt-IsGate a b c d e = (
    record { leads_to = omega arith; segment = refl; kind = refl },
    record { leads_to = omega arith; segment = refl; kind = refl },
    record { leads_to = omega arith; segment = refl; kind = refl },
    record { leads_to = omega arith; segment = refl; kind = refl },
    record { leads_to = omega arith; segment = refl; kind = refl },
    λ i u v w x y. ground arith,
    refl,
  )
