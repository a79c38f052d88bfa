-- ===== src/Boot/Tests.antt =====
-- Runs of the loader of modules, the interrupt table and the dispatcher of exceptions.
use macac_os.Base.{ℕ, ◌≡◌, ◌≢◌, true, false, arith}
use macac_os.Boot.{Machine, Handlers, load_idt}
use macac_os.Boot.Gates.{IsGate, load_idt-IsGate}

abbrev handlers : Handlers
handlers = record {
  division_by_zero_interruption = 0x1000123456789;
  invalid_op_code_interruption = 0x100200;
  irq00_handler = 0x100300;
  irq01_handler = 0x100400;
  irq80_handler = 0x100500;
}

abbrev machine : Machine
machine = record {
  idt = λ i. record {
    offset_l = 0;
    selector = 0;
    cero = 0;
    access = 0;
    offset_m = 0;
    offset_h = 0;
    other_cero = 0;
  };
  master_mask = 0;
  slave_mask = 0;
  enabled = false;
}

load_idt-IsGate_example :
    IsGate ((load_idt handlers machine).idt 0x00) 0x1000123456789
    × IsGate ((load_idt handlers machine).idt 0x06) 0x100200
    × IsGate ((load_idt handlers machine).idt 0x20) 0x100300
    × IsGate ((load_idt handlers machine).idt 0x21) 0x100400
    × IsGate ((load_idt handlers machine).idt 0x80) 0x100500
    × ((i : ℕ)
        → i ≢ 0x00
        → i ≢ 0x06
        → i ≢ 0x20
        → i ≢ 0x21
        → i ≢ 0x80
        → (load_idt handlers machine).idt i ≡ machine.idt i)
    × ((load_idt handlers machine).enabled ≡ true)
load_idt-IsGate_example =
    load_idt-IsGate handlers machine (omega arith) (omega arith) (omega arith) (omega arith)
      (omega arith)
