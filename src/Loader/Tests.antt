-- ===== src/Loader/Tests.antt =====
-- A kernel of two segments and a note, and a search among three tables.
use ryanos.Prelude.{
  ℕ, ◌+◌, ◌-◌, ◌%◌, ◌≡◌, refl, ◌*◌, ◌||◌, Bool, true, false, List, [], ◌∷◌, arith, if◌then◌else◌,
  ◌==◌,
}
use ryanos.Prelude.Int.{negsuc}
use ryanos.Memory.Bytes.{Bytes, within}
use ryanos.Loader.{
  Elf64Phdr, Firmware, load_segments, ConfigurationTable, find_rsdp, memcmp, memcmp_from,
}
use ryanos.Loader.Segments.{
  IsFirmware, AllFit, with_segments, Untouched, Separate, Loaded, load_segments-Loaded,
}
use ryanos.Loader.Search.{IsLast, find_rsdp-IsLast}

abbrev kernel_file : ℕ → ℕ
kernel_file i = i % 256

-- The state says which bytes are allocated.
abbrev plain : Firmware (ℕ → Bool)
plain = record {
  allocate_pages = λ pages address s. ((λ a. within address (pages * 4096) a || s a), address);
  read_file = λ position size dest s m.
      (s, λ a. if within dest size a then kernel_file (position + (a - dest)) else m a);
}

abbrev plain-IsFirmware : IsFirmware plain kernel_file 0x3000
plain-IsFirmware = record {
  allocated = λ s. s;
  allocates = λ pages address s whole free. (refl, λ a. refl);
  reads = λ position size dest s m has owned. (λ a. refl, λ a. refl);
}

abbrev phdrs : List Elf64Phdr
phdrs =
    record { p_type = 1; p_offset = 0x1000; p_paddr = 0x100000; p_filesz = 0x300; p_memsz = 0x300 }
    ∷ record { p_type = 4; p_offset = 0; p_paddr = 0; p_filesz = 0x20; p_memsz = 0x20 }
    ∷ record { p_type = 1; p_offset = 0x2000; p_paddr = 0x101000; p_filesz = 0x80; p_memsz = 0x900 }
    ∷ []

phdrs-Separate : Separate phdrs
phdrs-Separate = (
  λ is k h. (λ no. absurd (omega arith), ((λ load. ground arith), tt)),
  (λ no. absurd (omega arith), (λ is k h. tt, tt)),
)

abbrev nothing : ℕ → Bool
nothing a = false

phdrs-AllFit : AllFit 0x3000 phdrs nothing
phdrs-AllFit = (
  λ is. record {
    whole = omega arith;
    in_file = omega arith;
    in_memory = omega arith;
    countable = omega arith;
    free = λ a h. refl;
  },
  (
    λ no. absurd (omega arith),
    (
      λ is. record {
        whole = omega arith;
        in_file = omega arith;
        in_memory = omega arith;
        countable = omega arith;
        free = λ a h. ground arith;
      },
      tt,
    ),
  ),
)

abbrev filled : Bytes
filled a = 0xff

load_segments-Loaded_example :
    Loaded kernel_file phdrs (load_segments plain phdrs nothing filled).1
    × ((a : ℕ) → Untouched phdrs a → (load_segments plain phdrs nothing filled).1 a ≡ filled a)
    × ((a : ℕ) → (load_segments plain phdrs nothing filled).0 a ≡ with_segments phdrs nothing a)
load_segments-Loaded_example =
    load_segments-Loaded plain kernel_file 0x3000 plain-IsFirmware phdrs nothing filled phdrs-AllFit
      phdrs-Separate

abbrev three_tables : ℕ → ConfigurationTable
three_tables i =
    if i == 2
    then record { compare_guid = true; vendor_table = 0x500 }
    else record { compare_guid = false; vendor_table = 0x600 }

find_rsdp-IsLast_example :
    IsLast filled 0x400 three_tables 0 3 0 (find_rsdp filled 0x400 three_tables 3)
find_rsdp-IsLast_example = find_rsdp-IsLast filled 0x400 three_tables 3

bytes_compared : memcmp kernel_file 3 4 2 ≡ negsuc 0
unfolding memcmp memcmp_from
bytes_compared = refl
