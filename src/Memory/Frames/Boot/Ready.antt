-- ===== src/Memory/Frames/Boot/Ready.antt =====
-- The state that the set-up leaves meets the allocator's invariants.
use ryanos.Prelude.{
  ℕ, ◌+◌, ◌/◌, ◌^◌, ◌<◌, ◌≤◌, ◌≡◌, true, false, arith, List, [], ◌∷◌, Bool-cases, inl, inr,
}
use ryanos.Memory.Frames.{
  Frames, page_total, reserve_page, unreserve_page, lock_page, reserve_pages, unreserve_pages,
  lock_pages,
}
use ryanos.Memory.Frames.Count.{IsBalanced, held_pages-zero}
use ryanos.Memory.Frames.Valid.{
  IsSound, IsTight, Keeps, Keeps-refl, Keeps-trans, for_pages-Keeps, reserve_page-Keeps,
  unreserve_page-Keeps, lock_page-Keeps,
}
use ryanos.Memory.Frames.Boot.{
  EfiMemoryDescriptor, is_conventional, get_memory_size, place_bitmap, reserve_all,
  unreserve_conventional, read_efi_memory_map,
}
use ryanos.Memory.Frames.Boot.Free.{memory_pages, place_bitmap-zero, place_bitmap-IsBytes}

unreserve_conventional-Keeps :
    (map : List EfiMemoryDescriptor) (f : Frames)
    → IsSound f
    → Keeps f (unreserve_conventional map f)
unfolding unreserve_conventional unreserve_pages
unreserve_conventional-Keeps [] f v = Keeps-refl f v
unreserve_conventional-Keeps (d ∷ map) f v = elim (Bool-cases (is_conventional d)) [
  | inl usable ↦
      let g = unreserve_pages d.physical_addr d.num_pages f in
      let one : Keeps f g =
        for_pages-Keeps unreserve_page unreserve_page-Keeps d.physical_addr d.num_pages 0 f v in
      rw usable (Keeps-trans one (unreserve_conventional-Keeps map g one.sound))
  | inr other ↦ rw other (unreserve_conventional-Keeps map f v)
]

-- The globals as the kernel's image has them.
pub record IsFresh (f : Frames) : Type 0 where
  pub not_set_up : f.initialized ≡ false
  pub unused : f.used_memory ≡ 0
  pub unreserved : f.reserved_memory ≡ 0
  pub cursor : f.page_bitmap_index ≡ 0

-- What the allocator promises after the set-up.
pub record IsReady (memory : ℕ) (f : Frames) : Type 0 where
  pub sound : IsSound f
  pub tight : IsTight f
  pub balanced : IsBalanced memory f

Keeps-IsReady : {memory : ℕ} {f g : Frames} → Keeps f g → IsReady memory f → IsReady memory g
Keeps-IsReady k r = record {
  sound = k.sound;
  tight = k.tight r.tight;
  balanced = k.balanced _ r.balanced;
}

module _ (map : List EfiMemoryDescriptor) (memory : ℕ → ℕ) (f : Frames)
    (bytes : (i : ℕ) → memory i < 256) (small : memory_pages map + 1 ≤ 2 ^ 19) where
  -- The state at the call, with the flag set.
  abbrev entered : Frames
  entered = record f { initialized = true }

  placed-IsReady : IsFresh f → IsReady (get_memory_size map) (place_bitmap map memory entered)
  unfolding place_bitmap page_total
  placed-IsReady fresh = record {
    sound = record {
      bytes = place_bitmap-IsBytes map memory entered bytes small;
      fits = omega arith;
    };
    tight = λ j h. let e = fresh.cursor in absurd (omega arith);
    balanced = record {
      money = let e = fresh.unused in let e' = fresh.unreserved in omega arith;
      held =
          let e = fresh.unused in
          let e' = fresh.unreserved in
          omega (
            arith,
            held_pages-zero (place_bitmap map memory entered).page_bitmap
                (place_bitmap-zero map memory entered bytes small)
                (page_total (place_bitmap map memory entered)),
          );
    };
  }

  read-Keeps :
      f.initialized ≡ false
      → IsSound (place_bitmap map memory entered)
      → Keeps (place_bitmap map memory entered) (read_efi_memory_map map memory f)
  unfolding read_efi_memory_map reserve_all reserve_pages lock_pages
  read-Keeps e v =
      let a = place_bitmap map memory entered in
      let b = reserve_pages 0 (memory_pages map + 1) a in
      let c = unreserve_conventional map b in
      let d = reserve_pages 0 0x100 c in
      let ab : Keeps a b =
        for_pages-Keeps reserve_page reserve_page-Keeps 0 (memory_pages map + 1) 0 a v in
      let bc : Keeps b c = unreserve_conventional-Keeps map b ab.sound in
      let cd : Keeps c d = for_pages-Keeps reserve_page reserve_page-Keeps 0 0x100 0 c bc.sound in
      rw e (
        Keeps-trans ab (
          Keeps-trans bc (
            Keeps-trans cd (
              for_pages-Keeps lock_page lock_page-Keeps d.bitmap_address
                (d.page_bitmap.size / 4096 + 1) 0 d cd.sound))))

-- From fresh globals, over a memory of bytes and fewer than 2^19 pages, the set-up leaves a sound
-- allocator, with no free page below the cursor, whose counters add up to the size of the memory and
-- are balanced against the pages that the bitmap holds.
pub read_efi_memory_map-IsReady :
    (map : List EfiMemoryDescriptor) (memory : ℕ → ℕ) (f : Frames)
    → ((i : ℕ) → memory i < 256)
    → memory_pages map + 1 ≤ 2 ^ 19
    → IsFresh f
    → IsReady (get_memory_size map) (read_efi_memory_map map memory f)
read_efi_memory_map-IsReady map memory f bytes small fresh =
    let r = placed-IsReady map memory f bytes small fresh in
    Keeps-IsReady (read-Keeps map memory f bytes small fresh.not_set_up r.sound) r
