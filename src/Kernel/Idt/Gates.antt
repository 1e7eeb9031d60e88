-- ===== src/Kernel/Idt/Gates.antt =====
-- What the gates lead to.
use ryanos.Prelude.{
  ℕ, ◌+◌, ◌-◌, ◌*◌, ◌/◌, ◌%◌, ◌^◌, ◌<◌, ◌≤◌, ◌≡◌, refl, ap, ◌∙◌, arith, true, false, u16, u64,
  bit_and, bit_or, ◌==◌, if◌then◌else◌, Option, none, some, Bool-cases, inl, inr,
}
use mathlib.Core.Path.{ap₂}
use ryanos.Prelude.Bits.Fields.{
  and_low, and_fields, or_fields, and_zero, and_ones, zero_or, or_zero,
}
use ryanos.Kernel.Idt.{
  IdtDescEntry, Idtr, Handlers, Entries, interrupt_gate, set_offset, get_offset, set_idt_gate,
  prepare_gates,
}

-- An offset by its three fields.
module _ (h m l : ℕ) (hh : h < 2 ^ 32) (hm : m < 2 ^ 16) (hl : l < 2 ^ 16) where
  and_middle : bit_and (h * 2 ^ 32 + (m * 2 ^ 16 + l)) 0x00000000ffff0000 ≡ m * 2 ^ 16
  and_middle = omega (
    arith,
    and_fields 32 h 0 (m * 2 ^ 16 + l) 0xffff0000 (omega arith) (omega arith),
    and_fields 16 m (2 ^ 16 - 1) l 0 (omega arith) (omega arith),
    and_zero 32 h hh,
    and_zero 16 l hl,
    and_ones 16 m hm,
  )

  and_high : bit_and (h * 2 ^ 32 + (m * 2 ^ 16 + l)) 0xffffffff00000000 ≡ h * 2 ^ 32
  and_high = omega (
    arith,
    and_fields 32 h (2 ^ 32 - 1) (m * 2 ^ 16 + l) 0 (omega arith) (omega arith),
    and_zero 32 (m * 2 ^ 16 + l) (omega arith),
    and_ones 32 h hh,
  )

  or_three : bit_or (bit_or l (m * 2 ^ 16)) (h * 2 ^ 32) ≡ h * 2 ^ 32 + (m * 2 ^ 16 + l)
  or_three =
      let low : bit_or l (m * 2 ^ 16) ≡ m * 2 ^ 16 + l =
        ap₂ bit_or left₁ right₁
        ∙ omega (arith, or_fields 16 0 m l 0 hl (omega arith), zero_or 16 m hm, or_zero 16 l hl) in
      ap₂ bit_or (low ∙ left₂) right₂
      ∙ omega (
        arith,
        or_fields 32 0 h (m * 2 ^ 16 + l) 0 (omega arith) (omega arith),
        zero_or 32 h hh,
        or_zero 32 (m * 2 ^ 16 + l) (omega arith),
      )
    where
      left₁ : l ≡ 0 * 2 ^ 16 + l
      left₁ = omega arith

      right₁ : m * 2 ^ 16 ≡ m * 2 ^ 16 + 0
      right₁ = omega arith

      left₂ : m * 2 ^ 16 + l ≡ 0 * 2 ^ 32 + (m * 2 ^ 16 + l)
      left₂ = omega arith

      right₂ : h * 2 ^ 32 ≡ h * 2 ^ 32 + 0
      right₂ = omega arith

-- The offset that was set in an entry is read back without its bits 48 to 63.
pub get_offset-set_offset :
    (e : IdtDescEntry) (offset : ℕ)
    → offset < 2 ^ 64
    → get_offset (set_offset offset e) ≡ offset % 2 ^ 48
unfolding get_offset set_offset
get_offset-set_offset e offset w =
    let h = offset / 2 ^ 32 in
    let m = offset / 2 ^ 16 % 2 ^ 16 in
    let l = offset % 2 ^ 16 in
    let fields : offset ≡ h * 2 ^ 32 + (m * 2 ^ 16 + l) = omega arith in
    let low : u16 (bit_and offset 0x000000000000ffff) ≡ l = omega (arith, and_low 16 64 offset w) in
    let middle : u64 (u16 (bit_and offset 0x00000000ffff0000 / 2 ^ 16) * 2 ^ 16) ≡ m * 2 ^ 16 =
      omega (
        arith,
        ap (λ (t : ℕ). bit_and t 0x00000000ffff0000) fields,
        and_middle h m l (omega arith) (omega arith) (omega arith),
      ) in
    let high : u64 (u16 (bit_and offset 0xffffffff00000000 / 2 ^ 32) * 2 ^ 32)
        ≡ h % 2 ^ 16 * 2 ^ 32 =
      omega (
        arith,
        ap (λ (t : ℕ). bit_and t 0xffffffff00000000) fields,
        and_high h m l (omega arith) (omega arith) (omega arith),
      ) in
    ap₂ bit_or (ap₂ bit_or low middle) high
    ∙ or_three (h % 2 ^ 16) m l (omega arith) (omega arith) (omega arith)
    ∙ omega arith

-- What an entry is when it leads to the handler, or to none: then it is the entry from before.
abbrev pub Leads : Option ℕ → IdtDescEntry → IdtDescEntry → Type 0
Leads none e' e = e' ≡ e
Leads (some handler) e' e =
    (get_offset e' ≡ handler % 2 ^ 48)
    × (e'.selector ≡ 0x08)
    × (e'.type_attr ≡ interrupt_gate)
    × (e'.ist ≡ e.ist)

-- The handler of a vector.
abbrev pub handler_of : Handlers → ℕ → Option ℕ
handler_of h v =
    if 0x20 == v
    then some h.pit_int_handler
    else if 0x2c == v
    then some h.mouse_int_handler
    else if 0x21 == v
    then some h.keyboard_int_handler
    else if 0xd == v
    then some h.gp_fault_handler
    else if 0x8 == v
    then some h.double_fault_handler
    else if 0xe == v
    then some h.page_fault_handler
    else none

pub record Addresses (h : Handlers) : Type 0 where
  pub page_fault : h.page_fault_handler < 2 ^ 64
  pub double_fault : h.double_fault_handler < 2 ^ 64
  pub gp_fault : h.gp_fault_handler < 2 ^ 64
  pub keyboard_int : h.keyboard_int_handler < 2 ^ 64
  pub mouse_int : h.mouse_int_handler < 2 ^ 64
  pub pit_int : h.pit_int_handler < 2 ^ 64

module _ (page : ℕ) (room : page + 2 ^ 12 ≤ 2 ^ 64) (limit : ℕ) (v : ℕ) (vector : v < 256)
    (e : IdtDescEntry) where
  Leads-ist : (o : Option ℕ) (e' : IdtDescEntry) → Leads o e' e → e'.ist ≡ e.ist
  Leads-ist none e' l = ap (λ (x : IdtDescEntry). x.ist) l
  Leads-ist (some a) e' l = l.3

  -- One more gate.
  set_idt_gate-Leads :
      (handler k : ℕ) (m : Entries) (o : Option ℕ)
      → handler < 2 ^ 64
      → k < 256
      → Leads o (m (page + v * 16)) e
      → Leads
          (if k == v then some handler else o)
          (set_idt_gate
            (record { limit = limit; offset = page })
            handler
            k
            interrupt_gate
            0x08
            m
            (page + v * 16))
          e
  unfolding set_idt_gate get_offset set_offset
  set_idt_gate-Leads handler k m o fits small l = elim (Bool-cases (k == v)) [
    | inr other ↦
        let apart : (u64 (page + k * 16) == page + v * 16) ≡ false = ground arith in
        rw (other, apart) l
    | inl same ↦
        let here : (u64 (page + k * 16) == page + v * 16) ≡ true = ground arith in
        let there : u64 (page + k * 16) ≡ page + v * 16 = ground arith in
        let kept : (m (u64 (page + k * 16))).ist ≡ e.ist =
          ap (λ (a : ℕ). (m a).ist) there ∙ Leads-ist o (m (page + v * 16)) l in
        rw (same, here)
          (get_offset-set_offset (m (u64 (page + k * 16))) handler fits, refl, refl, kept)
  ]

-- For 64-bit addresses of the handlers and a page inside the address space: of the 256 gates, each of
-- the six vectors leads to its handler, but without bits 48 to 63 of its address, and keeps
-- its ist field from before; every other gate is what it was.
pub prepare_gates-Leads :
    (h : Handlers) (page : ℕ) (m : Entries) (v : ℕ)
    → Addresses h
    → page + 2 ^ 12 ≤ 2 ^ 64
    → v < 256
    → Leads (handler_of h v) ((prepare_gates h page m).1 (page + v * 16)) (m (page + v * 16))
unfolding prepare_gates
prepare_gates-Leads h page m v fits room vector =
    let idtr : Idtr = record { limit = 0x0fff; offset = page } in
    let m₁ = set_idt_gate idtr h.page_fault_handler 0xe interrupt_gate 0x08 m in
    let m₂ = set_idt_gate idtr h.double_fault_handler 0x8 interrupt_gate 0x08 m₁ in
    let m₃ = set_idt_gate idtr h.gp_fault_handler 0xd interrupt_gate 0x08 m₂ in
    let m₄ = set_idt_gate idtr h.keyboard_int_handler 0x21 interrupt_gate 0x08 m₃ in
    let m₅ = set_idt_gate idtr h.mouse_int_handler 0x2c interrupt_gate 0x08 m₄ in
    let o₁ = if 0xe == v then some h.page_fault_handler else none in
    let o₂ = if 0x8 == v then some h.double_fault_handler else o₁ in
    let o₃ = if 0xd == v then some h.gp_fault_handler else o₂ in
    let o₄ = if 0x21 == v then some h.keyboard_int_handler else o₃ in
    let o₅ = if 0x2c == v then some h.mouse_int_handler else o₄ in
    let l₁ = step h.page_fault_handler 0xe m none fits.page_fault (omega arith) refl in
    let l₂ = step h.double_fault_handler 0x8 m₁ o₁ fits.double_fault (omega arith) l₁ in
    let l₃ = step h.gp_fault_handler 0xd m₂ o₂ fits.gp_fault (omega arith) l₂ in
    let l₄ = step h.keyboard_int_handler 0x21 m₃ o₃ fits.keyboard_int (omega arith) l₃ in
    let l₅ = step h.mouse_int_handler 0x2c m₄ o₄ fits.mouse_int (omega arith) l₄ in
    step h.pit_int_handler 0x20 m₅ o₅ fits.pit_int (omega arith) l₅
  where
    step :
        (handler k : ℕ) (n : Entries) (o : Option ℕ)
        → handler < 2 ^ 64
        → k < 256
        → Leads o (n (page + v * 16)) (m (page + v * 16))
        → Leads
            (if k == v then some handler else o)
            (set_idt_gate
              (record { limit = 0x0fff; offset = page })
              handler
              k
              interrupt_gate
              0x08
              n
              (page + v * 16))
            (m (page + v * 16))
    step = set_idt_gate-Leads page room 0x0fff v vector (m (page + v * 16))
