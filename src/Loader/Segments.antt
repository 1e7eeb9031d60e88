-- ===== src/Loader/Segments.antt =====
-- The segments of the kernel that are loaded.
use ryanos.Prelude.{
  ℕ, ◌+◌, ◌-◌, ◌*◌, ◌/◌, ◌%◌, ◌^◌, ◌<◌, ◌≤◌, ◌≡◌, sym, Bool, ◌||◌, refl, ap, ◌∙◌, true, false, List,
  [], ◌∷◌, arith, ◌==◌, if◌then◌else◌, inl, inr, Bool-cases,
}
use ryanos.Memory.Bytes.{Bytes, within}
use ryanos.Loader.{Elf64Phdr, Firmware, page_count, load_segments}

-- What is asked of the firmware: pages at a multiple of 4096 that are free are allocated where they were asked
-- for, and bytes that the file has are read into allocated memory. Nothing is said of other calls.
pub record IsFirmware {S : Type 0} (fw : Firmware S) (file : ℕ → ℕ) (file_size : ℕ) : Type 0 where
  pub allocated : S → ℕ → Bool
  pub allocates :
      (pages address : ℕ) (s : S)
      → address % 4096 ≡ 0
      → ((a : ℕ) → within address (pages * 4096) a ≡ true → allocated s a ≡ false)
      → ((fw.allocate_pages pages address s).1 ≡ address)
        × ((a : ℕ)
            → allocated (fw.allocate_pages pages address s).0 a
              ≡ (within address (pages * 4096) a || allocated s a))
  pub reads :
      (position size dest : ℕ) (s : S) (m : Bytes)
      → position + size ≤ file_size
      → ((a : ℕ) → within dest size a ≡ true → allocated s a ≡ true)
      → ((a : ℕ) → allocated (fw.read_file position size dest s m).0 a ≡ allocated s a)
        × ((a : ℕ)
            → (fw.read_file position size dest s m).1 a
              ≡ (if within dest size a then file (position + (a - dest)) else m a))

-- The pages that the memory of a segment takes.
abbrev pub pages_of : Elf64Phdr → ℕ
pages_of phdr = (phdr.p_memsz + 4095) / 4096

-- What is allocated after a segment.
abbrev pub with_segment : Elf64Phdr → (ℕ → Bool) → ℕ → Bool
with_segment phdr owned a =
    if phdr.p_type == 1 then within phdr.p_paddr (pages_of phdr * 4096) a || owned a else owned a

-- What is allocated after all of them.
abbrev pub with_segments : List Elf64Phdr → (ℕ → Bool) → ℕ → Bool
with_segments [] owned a = owned a
with_segments (phdr ∷ phdrs) owned a = with_segments phdrs (with_segment phdr owned) a

-- The file has the segment, which is not longer there than in memory, and its pages, which begin a page
-- and are fewer than an `int` counts, are free.
pub record Fits (file_size : ℕ) (owned : ℕ → Bool) (phdr : Elf64Phdr) : Type 0 where
  pub whole : phdr.p_paddr % 4096 ≡ 0
  pub in_file : phdr.p_offset + phdr.p_filesz ≤ file_size
  pub in_memory : phdr.p_filesz ≤ phdr.p_memsz
  pub countable : phdr.p_memsz < 2 ^ 42
  pub free : (a : ℕ) → within phdr.p_paddr (pages_of phdr * 4096) a ≡ true → owned a ≡ false

-- Each loaded segment fits when those before it have been allocated.
abbrev pub AllFit : ℕ → List Elf64Phdr → (ℕ → Bool) → Type 0
AllFit file_size [] owned = Unit
AllFit file_size (phdr ∷ phdrs) owned =
    ((phdr.p_type ≡ 1) → Fits file_size owned phdr)
    × AllFit file_size phdrs (with_segment phdr owned)

-- The byte is none of those that the segments bring from the file.
abbrev pub Untouched : List Elf64Phdr → ℕ → Type 0
Untouched [] a = Unit
Untouched (phdr ∷ phdrs) a =
    ((phdr.p_type ≡ 1) → within phdr.p_paddr phdr.p_filesz a ≡ false) × Untouched phdrs a

-- No byte of a loaded segment is brought once more by one behind it.
abbrev pub Separate : List Elf64Phdr → Type 0
Separate [] = Unit
Separate (phdr ∷ phdrs) =
    ((phdr.p_type ≡ 1) → (k : ℕ) → k < phdr.p_filesz → Untouched phdrs (phdr.p_paddr + k))
    × Separate phdrs

-- Each loaded segment holds its part of the file.
abbrev pub Loaded : (ℕ → ℕ) → List Elf64Phdr → Bytes → Type 0
Loaded file [] m = Unit
Loaded file (phdr ∷ phdrs) m =
    ((phdr.p_type ≡ 1)
      → (k : ℕ) → k < phdr.p_filesz
      → m (phdr.p_paddr + k) ≡ file (phdr.p_offset + k))
    × Loaded file phdrs m

page_count-pages : (phdr : Elf64Phdr) → phdr.p_memsz < 2 ^ 42 → page_count phdr ≡ pages_of phdr
unfolding page_count
page_count-pages phdr small = ground arith

module _ {S : Type 0} (fw : Firmware S) (file : ℕ → ℕ) (file_size : ℕ)
    (law : IsFirmware fw file file_size) where
  -- The state and the memory after one segment.
  abbrev after_one : Elf64Phdr → S → Bytes → S × Bytes
  after_one phdr s m =
      let (s₁, segment) = fw.allocate_pages (page_count phdr) phdr.p_paddr s in
      fw.read_file phdr.p_offset phdr.p_filesz segment s₁ m

  record Brings (phdr : Elf64Phdr) (owned : ℕ → Bool) (s : S) (m : Bytes) : Type 0 where
    taken :
        (a : ℕ)
        → law.allocated (after_one phdr s m).0 a
          ≡ (within phdr.p_paddr (pages_of phdr * 4096) a || owned a)
    brought :
        (a : ℕ)
        → (after_one phdr s m).1 a ≡ (
            if within phdr.p_paddr phdr.p_filesz a
            then file (phdr.p_offset + (a - phdr.p_paddr))
            else m a)

  after_one-Brings :
      (phdr : Elf64Phdr) (owned : ℕ → Bool) (s : S) (m : Bytes)
      → ((a : ℕ) → law.allocated s a ≡ owned a)
      → Fits file_size owned phdr
      → Brings phdr owned s m
  after_one-Brings phdr owned s m same fits =
      let pages = page_count phdr in
      let count : pages ≡ pages_of phdr = page_count-pages phdr fits.countable in
      let (s₁, segment) = fw.allocate_pages pages phdr.p_paddr s in
      let in_pages : (a : ℕ)
          → within phdr.p_paddr (pages * 4096) a ≡ within phdr.p_paddr (pages_of phdr * 4096) a =
        λ a. ap (λ n. within phdr.p_paddr (n * 4096) a) count in
      let (at, owns) =
        law.allocates pages phdr.p_paddr s fits.whole
          (λ a h. same a ∙ fits.free a (sym (in_pages a) ∙ h)) in
      let owned₁ : (a : ℕ)
          → law.allocated s₁ a ≡ (within phdr.p_paddr (pages_of phdr * 4096) a || owned a) =
        λ a. owns a ∙ let e₁ = in_pages a in let e₂ = same a in rw (e₁, e₂) refl in
      let room = fits.in_memory in
      let (keeps, bytes) = law.reads phdr.p_offset phdr.p_filesz segment s₁ m fits.in_file (λ a h.
        owned₁ a ∙ covered phdr owned a room (ap (λ b. within b phdr.p_filesz a) (sym at) ∙ h)) in
      record {
        taken = λ a. keeps a ∙ owned₁ a;
        brought = λ a.
            bytes a
            ∙ ap (λ b. if within b phdr.p_filesz a then file (phdr.p_offset + (a - b)) else m a) at;
      }
    where
      covered :
          (phdr : Elf64Phdr) (owned : ℕ → Bool) (a : ℕ)
          → phdr.p_filesz ≤ phdr.p_memsz
          → within phdr.p_paddr phdr.p_filesz a ≡ true
          → (within phdr.p_paddr (pages_of phdr * 4096) a || owned a) ≡ true
      covered phdr owned a room h =
          let wide : within phdr.p_paddr (pages_of phdr * 4096) a ≡ true = ground arith in
          rw wide refl

  -- The three things that hold after the segments.
  record Ends (phdrs : List Elf64Phdr) (owned : ℕ → Bool) (m : Bytes) (r : Bytes × S) : Type 0 where
    held : (a : ℕ) → law.allocated r.1 a ≡ with_segments phdrs owned a
    kept : (a : ℕ) → Untouched phdrs a → r.0 a ≡ m a
    full : Separate phdrs → Loaded file phdrs r.0

  load_segments-Ends :
      (phdrs : List Elf64Phdr) (owned : ℕ → Bool) (s : S) (m : Bytes)
      → ((a : ℕ) → law.allocated s a ≡ owned a)
      → AllFit file_size phdrs owned
      → Ends phdrs owned m ((load_segments fw phdrs s m).1, (load_segments fw phdrs s m).0)
  unfolding load_segments
  load_segments-Ends [] owned s m same fit = record {
    held = same;
    kept = λ a away. refl;
    full = λ apart. tt;
  }
  load_segments-Ends (phdr ∷ phdrs) owned s m same (first, fit) =
      elim (Bool-cases (phdr.p_type == 1)) [
        | inr other ↦
            let rest =
              load_segments-Ends phdrs (with_segment phdr owned) s m (λ a. same a ∙ rw other refl)
                fit in
            rw (load_segments, other)
              (record {
                held = rest.held;
                kept = λ a (here, away). rest.kept a away;
                full = λ (here, apart). ((λ is. absurd (ground arith)), rest.full apart);
              })
        | inl load ↦
            let one = after_one-Brings phdr owned s m same (first (ground arith)) in
            let (s', m') = after_one phdr s m in
            let rest =
              load_segments-Ends phdrs (with_segment phdr owned) s' m'
                (λ a. one.taken a ∙ rw load refl) fit in
            rw (load_segments, load)
              (record {
                held = rest.held;
                kept = λ a (here, away).
                    let out = here (ground arith) in rest.kept a away ∙ one.brought a ∙ rw out refl;
                full = λ (here, apart). (
                  (λ is k h.
                      let inside : within phdr.p_paddr phdr.p_filesz (phdr.p_paddr + k) ≡ true =
                        ground arith in
                      let e : phdr.p_paddr + k - phdr.p_paddr ≡ k = omega arith in
                      rest.kept (phdr.p_paddr + k) (here is k h)
                      ∙ one.brought (phdr.p_paddr + k)
                      ∙ rw (inside, e) refl),
                  rest.full apart,
                );
              })
      ]

  -- For a firmware that allocates free pages where they are asked for and reads the bytes that the file has into
  -- allocated memory: if each loaded segment is in the file, is not longer there than in memory and finds its
  -- pages free, and no byte of a loaded segment is brought once more by a later one, each loaded segment holds its
  -- bytes of the file, a byte of none of them is as before, also where the segment is longer in memory than in
  -- the file, and what is allocated are the pages of the memory of the loaded segments and what was before.
  pub load_segments-Loaded :
      (phdrs : List Elf64Phdr) (s : S) (m : Bytes)
      → AllFit file_size phdrs (law.allocated s)
      → Separate phdrs
      → Loaded file phdrs (load_segments fw phdrs s m).1
        × ((a : ℕ) → Untouched phdrs a → (load_segments fw phdrs s m).1 a ≡ m a)
        × ((a : ℕ)
            → law.allocated (load_segments fw phdrs s m).0 a
              ≡ with_segments phdrs (law.allocated s) a)
  load_segments-Loaded phdrs s m fit apart =
      let r = load_segments-Ends phdrs (law.allocated s) s m (λ a. refl) fit in
      (r.full apart, r.kept, r.held)
