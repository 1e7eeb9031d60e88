-- ===== src/Kernel/Idt/Tests.antt =====
-- The gate of the keyboard, for handlers in the upper half of the address space.
use ryanos.Prelude.{ℕ, ◌+◌, ◌*◌, arith}
use ryanos.Kernel.Idt.{Handlers, IdtDescEntry, prepare_gates}
use ryanos.Kernel.Idt.Gates.{Leads, handler_of, Addresses, prepare_gates-Leads}

abbrev handlers : Handlers
handlers = record {
  page_fault_handler = 0xffffffff80001000;
  double_fault_handler = 0xffffffff80001100;
  gp_fault_handler = 0xffffffff80001200;
  keyboard_int_handler = 0xffffffff80001300;
  mouse_int_handler = 0xffffffff80001400;
  pit_int_handler = 0xffffffff80001500;
}

handlers-Addresses : Addresses handlers
handlers-Addresses = record {
  page_fault = omega arith;
  double_fault = omega arith;
  gp_fault = omega arith;
  keyboard_int = omega arith;
  mouse_int = omega arith;
  pit_int = omega arith;
}

abbrev stale : ℕ → IdtDescEntry
stale a = record { offset0 = 1; selector = 2; ist = 3; type_attr = 4; offset1 = 5; offset2 = 6 }

prepare_gates-Leads_example :
    Leads
      (handler_of handlers 0x21)
      ((prepare_gates handlers 0x9000 stale).1 (0x9000 + 0x21 * 16))
      (stale (0x9000 + 0x21 * 16))
prepare_gates-Leads_example =
    prepare_gates-Leads handlers 0x9000 stale 0x21 handlers-Addresses (omega arith) (omega arith)
