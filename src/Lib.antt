-- ===== src/Lib.antt =====
-- RyanOS: the memory management of the kernel, its interrupts and PCI bus, its keyboard and mouse
-- input and its FAT32 tables.
--
-- The kernel (kernel/src) gets from the boot loader the firmware's map of the physical memory. The
-- page frame allocator builds a bitmap of pages from it and hands out pages; the page table manager
-- maps virtual pages to physical ones with page table entries and the indexer of virtual addresses,
-- and takes the pages of new tables from the allocator; the firmware's ACPI tables lead to the PCI
-- bus, where the disk controllers are found; the interrupt table leads to the handlers of the
-- keyboard, the mouse and the timer; the heap hands out the bytes of pages that are mapped, and
-- aligned blocks of them. The keyboard interrupt edits the command line of the shell, which is
-- split into words whose first names the command, and the mouse interrupt gathers packets that its
-- loop processes; the file system keeps its clusters in a table on the disk behind the AHCI port,
-- whose driver builds a command in memory for each transfer and polls the port until it is done.
-- Text is drawn as characters into a back buffer, which is copied to the screen.
--
-- The files, each with the source that it models:
--   Memory.Bitmap          kernel/src/memory/bitmap.cpp: Bitmap::get and Bitmap::set
--   Memory.Frames          kernel/src/memory/page_frame_allocator.cpp: request_page, request_pages and
--                          the lock, free, reserve and unreserve operations on pages and ranges. The
--                          record Frames holds the file's globals and the bitmap.
--   Memory.Frames.Boot     the same file's read_efi_memory_map and init_bitmap, and get_memory_size of
--                          kernel/src/memory/mem.cpp
--   Memory.Paging          kernel/src/memory/paging.cpp: flags and address of a page table entry
--   Memory.PageMapIndexer  kernel/src/memory/page_map_indexer.cpp: the constructor
--   Memory.PageTables      kernel/src/memory/page_table_manager.cpp: map_memory and
--                          get_page_table_entry, over a store of tables and any source of pages;
--                          PageTables.Frames makes the frame allocator that source
--   Memory.Heap            kernel/src/memory/mem.cpp: find_best_mem_block, malloc, free and the merges,
--                          over a store of node headers by address
--   Memory.Heap.Init       the same file's init_heap, over the page tables, and its counters
--   Memory.Aligned         kernel/src/memory/mem.cpp: aligned_alloc and aligned_free
--   Kernel.Acpi            kernel/src/kernel/acpi.cpp: find_table, and prepare_acpi of kernel.cpp
--   Kernel.Pci             kernel/src/kernel/pci.cpp: the enumeration, with the page tables and the
--                          AHCI driver's constructor as parameters
--   Kernel.Pci.Names       kernel/src/kernel/pci_descriptors.cpp: the names
--   Kernel.Ports           kernel/src/kernel/io.cpp: port accesses as a list
--   Kernel.Pit             kernel/src/kernel/interrupts/pit/pit.cpp: the divisor of the timer
--   Kernel.Idt             kernel/src/kernel/interrupts/idt.cpp, and set_idt_gate and the gates of
--                          prepare_interrupts of kernel.cpp
--   Kernel.Interrupts      kernel/src/kernel/interrupts/interrupts.cpp: the controllers and the
--                          handlers of the keyboard, the mouse and the timer
--   Shell.Scancodes        kernel/src/shell/input/scancode_translator.cpp: the tables and translate
--   Shell.Keyboard         kernel/src/shell/input/keyboard.cpp: Shell::handle_keyboard, with the system
--                          around it as a parameter
--   Shell.Mouse            kernel/src/shell/input/mouse.cpp: handle_mouse and process_mouse_packet
--   Fs.Fat32               kernel/src/fs/fat32.cpp: read_fat_entry, write_fat_entry, find_free_cluster,
--                          cluster and sector numbers, dates, with the port as a parameter
--   Kernel.PrepareMemory   kernel/src/kernel/kernel.cpp: prepare_memory
--   Fs.Ahci                kernel/src/fs/ahci.cpp: read and write (Transfer), configure (Configure) and
--                          probe_ports (Probe), with the device as a parameter
--   Memory.Bytes           kernel/src/memory/mem.cpp: memset and memcopy, on bytes
--   Graphics               kernel/src/graphics/graphics.cpp: pixels, rectangles and characters
--   Graphics.Canvas        kernel/src/shell/window_mgr/canvas.cpp: render
--   Loader                 gnu-efi/bootloader/main.c: memcmp, strcmp, the loading of the kernel's
--                          segments, the font's size and the search for the ACPI root, with the
--                          firmware as a parameter
--   Shell.Out              kernel/src/shell/out.cpp: print, cprint, backspace and the prompt, over the
--                          graphics of the canvas
--   Shell.Commands         kernel/src/shell/commands/command_manager.cpp: strtoi, parse_command and its
--                          commands, with their effects as a parameter
--   Strings.Hex            kernel/src/lib/cstr.cpp: the four to_hstring
--   Strings.Decimal        kernel/src/lib/cstr.cpp: to_string of integers
--   Strings                kernel/src/lib/standard.cpp: compare_string, string_length, append, strcopy
-- The children of a module hold its proofs, and its Tests apply them to concrete data. Prelude has
-- machine words, bits and tests on numbers.
--
-- Pointers and addresses are numbers, and NULL is 0. Words wrap around at their width: `u64`,
-- `u32`, `sub64`; the product `i * 4096` of the page loops is an `int` that is extended to 64 bits.
--
-- Fuel: request_page and request_pages run on one round more than the bitmap has pages, and `none`
-- is the result when that runs out, which the theorems on them exclude. The walk along the heap's
-- nodes runs on fuel that exceeds the number of blocks, and `malloc` calls itself at most `tries`
-- times; the theorems name the fuel that they need, as those on strings do. The waits for a disk
-- run on fuel for the rounds that the device takes; the wait for a free port has the code's own
-- limit of 1000000 rounds.
--
-- The heap's invariant is an abstract list of blocks: the chain of nodes in the store is that list,
-- and the blocks tile the heap from its start to its end. `split` and `release` say on the list
-- what malloc and free do.
--
-- Not modelled: set_page_attribute, expand_heap (a parameter of malloc); to_string of floating
-- point numbers; the rest of fat32.cpp, which works on buffers that are too short or never set; the
-- constructor of the AHCI driver but for its choice of the disk; the virtual file system, lines and
-- the mouse cursor, windows, the prints of numbers and the shell's loop; the start of the kernel
-- but for prepare_memory, and the calls of the firmware by the boot loader; the handlers of faults,
-- which print and stop; the time since boot, which is floating point; kernel/src/lib/math.cpp and
-- gnu-efi, which are third-party code.
pub mod Prelude
pub mod Memory
pub mod Kernel
pub mod Strings
pub mod Shell
pub mod Fs
pub mod Graphics
pub mod Loader
