-- ===== src/Memory/Paging/Address.antt =====
-- `set_address` and `get_address`: the field of bits 12 to 51.
use ryanos.Prelude.{ℕ, ◌-◌, ◌+◌, ◌*◌, ◌/◌, ◌%◌, ◌^◌, ◌<◌, ◌≡◌, ap, ◌∙◌, bit_and, bit_or, u64, arith}
use mathlib.Core.Path.{ap₂}
use ryanos.Prelude.Bits.Fields.{
  and_low, and_fields, or_fields, and_zero, and_ones, zero_or, or_zero,
}
use ryanos.Memory.Paging.{PageDirectoryEntry, get_address, set_address}

-- An entry by its three fields.
module _ (h m l : ℕ) (hh : h < 2 ^ 12) (hm : m < 2 ^ 40) (hl : l < 2 ^ 12) where
  and_middle : bit_and (h * 2 ^ 52 + (m * 2 ^ 12 + l)) 0x000f_ffff_ffff_f000 ≡ m * 2 ^ 12
  and_middle = omega (
    arith,
    and_fields 52 h 0 (m * 2 ^ 12 + l) 0x000f_ffff_ffff_f000 (omega arith) (omega arith),
    and_fields 12 m (2 ^ 40 - 1) l 0 (omega arith) (omega arith),
    and_zero 12 h hh,
    and_zero 12 l hl,
    and_ones 40 m hm,
  )

  and_outside : bit_and (h * 2 ^ 52 + (m * 2 ^ 12 + l)) 0xfff0_0000_0000_0fff ≡ h * 2 ^ 52 + l
  and_outside = omega (
    arith,
    and_fields 52 h (2 ^ 12 - 1) (m * 2 ^ 12 + l) 0xfff (omega arith) (omega arith),
    and_fields 12 m 0 l 0xfff (omega arith) (omega arith),
    and_zero 40 m hm,
    and_ones 12 l hl,
    and_ones 12 h hh,
  )

  or_middle : bit_or (h * 2 ^ 52 + l) (m * 2 ^ 12) ≡ h * 2 ^ 52 + (m * 2 ^ 12 + l)
  or_middle =
      ap₂ bit_or left right
      ∙ or_fields 52 h 0 (0 * 2 ^ 12 + l) (m * 2 ^ 12 + 0) (omega arith) (omega arith)
      ∙ omega (
        arith,
        or_fields 12 0 m l 0 (omega arith) (omega arith),
        or_zero 12 h hh,
        zero_or 40 m hm,
        or_zero 12 l hl,
      )
    where
      left : h * 2 ^ 52 + l ≡ h * 2 ^ 52 + (0 * 2 ^ 12 + l)
      left = omega arith

      right : m * 2 ^ 12 ≡ 0 * 2 ^ 52 + (m * 2 ^ 12 + 0)
      right = omega arith

module _ (e : PageDirectoryEntry) (h : e.value < 2 ^ 64) where
  fields :
      e.value ≡ e.value / 2 ^ 52 * 2 ^ 52 + (e.value / 2 ^ 12 % 2 ^ 40 * 2 ^ 12 + e.value % 2 ^ 12)
  fields = omega arith

  -- `get_address` is the number in bits 12 to 51.
  pub get_address_lem : get_address e ≡ e.value / 2 ^ 12 % 2 ^ 40
  unfolding get_address
  get_address_lem = omega (
    arith,
    ap (λ (t : ℕ). bit_and t 0x000f_ffff_ffff_f000) fields,
    and_middle (e.value / 2 ^ 52) (e.value / 2 ^ 12 % 2 ^ 40) (e.value % 2 ^ 12) (omega arith)
        (omega arith) (omega arith),
  )

  -- In a 64-bit entry, `set_address` writes the low 40 bits of a 64-bit address to bits 12 to 51 and
  -- keeps the 12 bits above and the 12 below.
  pub set_address_lem :
      (a : ℕ)
      → a < 2 ^ 64
      → (set_address e a).value
        ≡ e.value / 2 ^ 52 * 2 ^ 52 + (a % 2 ^ 40 * 2 ^ 12 + e.value % 2 ^ 12)
  unfolding set_address
  set_address_lem a ha =
      let cut : u64 (bit_and a (2 ^ 40 - 1) * 2 ^ 12) ≡ a % 2 ^ 40 * 2 ^ 12 =
        omega (arith, and_low 40 64 a ha) in
      let kept : bit_and e.value 0xfff0_0000_0000_0fff
          ≡ e.value / 2 ^ 52 * 2 ^ 52 + e.value % 2 ^ 12 =
        ap (λ (t : ℕ). bit_and t 0xfff0_0000_0000_0fff) fields
        ∙ and_outside (e.value / 2 ^ 52) (e.value / 2 ^ 12 % 2 ^ 40) (e.value % 2 ^ 12)
            (omega arith) (omega arith) (omega arith) in
      ap₂ bit_or kept cut
      ∙ or_middle (e.value / 2 ^ 52) (a % 2 ^ 40) (e.value % 2 ^ 12) (omega arith) (omega arith)
          (omega arith)

  pub set_address-lt : (a : ℕ) → a < 2 ^ 64 → (set_address e a).value < 2 ^ 64
  set_address-lt a ha = omega (arith, set_address_lem a ha)

-- A 64-bit address that was stored in a 64-bit entry is read back, cut to the 40 bits of the field.
pub get_address-set_address :
    (e : PageDirectoryEntry) (a : ℕ)
    → e.value < 2 ^ 64
    → a < 2 ^ 64
    → get_address (set_address e a) ≡ a % 2 ^ 40
get_address-set_address e a h ha =
    omega
      (arith, get_address_lem (set_address e a) (set_address-lt e h a ha), set_address_lem e h a ha)
