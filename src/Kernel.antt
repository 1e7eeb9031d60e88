-- ===== src/Kernel.antt =====
-- kernel/: the firmware's tables, the enumeration of the PCI bus, interrupts and the timer.
pub mod Acpi
pub mod Pci
pub mod PrepareMemory
pub mod Ports
pub mod Pit
pub mod Idt
pub mod Interrupts
