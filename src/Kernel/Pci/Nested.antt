-- ===== src/Kernel/Pci/Nested.antt =====
-- The list of the AHCI functions, taken apart the way the loops take it.
use ryanos.Prelude.{
  ℕ, zero, suc, ◌+◌, ◌-◌, ◌*◌, ◌/◌, ◌^◌, ◌≡◌, refl, ap, ◌∙◌, arith, Bool, true, false, not, List,
  [], ◌∷◌, ◌&&◌, ◌==◌, ◌||◌, if◌then◌else◌, u32, u64, sub64, read32, read64, int_rounds,
}
use ryanos.Kernel.Pci.{is_absent, is_ahci, device_id, class_id, subclass_id, program_interface}
use ryanos.Kernel.Pci.Found.{
  concat_range, when, at, answers, speaks_ahci, found_at, bus_found, ahci_found,
}

module _ (memory : ℕ → ℕ) where
  abbrev pub is_present : ℕ → Bool
  is_present address = not (is_absent memory address)

  -- The address of a function, of a device or of a bus is the sum of its parts.
  abbrev pub functions_found : ℕ → List ℕ
  functions_found device =
      concat_range
        (λ function.
          let address = u64 (device + u64 (function * 4096)) in
          when (is_present address && is_ahci memory address) (address ∷ []))
        0 8

  abbrev pub devices_found : ℕ → List ℕ
  devices_found bus =
      concat_range
        (λ device.
          let address = u64 (bus + u64 (device * 2 ^ 15)) in
          when (is_present address) (functions_found address))
        0 32

  abbrev pub buses_found : ℕ → List ℕ
  buses_found config =
      concat_range
        (λ bus.
          let address = u64 (read64 memory config + u64 (bus * 2 ^ 20)) in
          when (is_present address) (devices_found address))
        (memory (config + 10)) (memory (config + 11) - memory (config + 10))

  abbrev pub nested_found : ℕ → List ℕ
  nested_found mcfg =
      concat_range (λ t. buses_found (u64 (mcfg + 44 + 16 * t))) 0
        (int_rounds (u32 (sub64 (read32 memory (mcfg + 4)) 44 / 16)))

  answers-present : (header : ℕ) → answers memory header ≡ is_present header
  unfolding answers is_absent device_id
  answers-present header =
      let next : header + 2 + 1 ≡ header + 3 = omega arith in
      let upper = ap memory next in
      let same : memory (header + 2) + 256 * memory (header + 3) ≡ device_id memory header =
        omega (arith, upper) in
      rw same (both (device_id memory header == 0) (device_id memory header == 0xffff))
    where
      both : (a b : Bool) → (not a && not b) ≡ not (a || b)
      both true b = refl
      both false b = refl

  speaks-ahci : (header : ℕ) → speaks_ahci memory header ≡ is_ahci memory header
  unfolding speaks_ahci is_ahci class_id subclass_id program_interface
  speaks-ahci header =
      both (memory (header + 11) == 1) (memory (header + 10) == 6) (memory (header + 9) == 1)
    where
      both : (a b c : Bool) → (a && (b && c)) ≡ (if a then (if b then c else false) else false)
      both true true c = refl
      both true false c = refl
      both false b c = refl

concat_range-same :
    (f g : ℕ → List ℕ)
    → ((i : ℕ) → f i ≡ g i)
    → (from count : ℕ) → concat_range f from count ≡ concat_range g from count
unfolding concat_range
concat_range-same f g same from zero = refl
concat_range-same f g same from (suc count) =
    rw (same from, concat_range-same f g same (from + 1) count) refl

concat_range-none : (from count : ℕ) → concat_range (λ i. []) from count ≡ []
unfolding concat_range
concat_range-none from zero = refl
concat_range-none from (suc count) = concat_range-none (from + 1) count

concat_range-when :
    (b : Bool) (f : ℕ → List ℕ) (from count : ℕ)
    → concat_range (λ i. when b (f i)) from count ≡ when b (concat_range f from count)
concat_range-when true f from count = refl
concat_range-when false f from count = concat_range-none from count

when_all : (a b c : Bool) (xs : List ℕ) → when (a && (b && c)) xs ≡ when a (when b (when c xs))
when_all true true c xs = refl
when_all true false c xs = refl
when_all false b c xs = refl

found-split :
    (a b c d a' b' c' d' : Bool) (x x' : ℕ)
    → a ≡ a'
    → b ≡ b'
    → c ≡ c'
    → d ≡ d'
    → x ≡ x'
    → when (a && (b && (c && d))) (x ∷ []) ≡ when a' (when b' (when (c' && d') (x' ∷ [])))
found-split a b c d a' b' c' d' x x' ea eb ec ed ex =
    rw (ea, eb, ec, ed, ex) (when_all a' b' (c' && d') (x' ∷ []))

module _ (memory : ℕ → ℕ) (base bus : ℕ) where
  at_bus : at base bus 0 0 ≡ u64 (base + u64 (bus * 2 ^ 20))
  at_bus = omega arith

  at_device :
      (device : ℕ)
      → at base bus device 0 ≡ u64 (u64 (base + u64 (bus * 2 ^ 20)) + u64 (device * 2 ^ 15))
  at_device device = omega arith

  at_function :
      (device function : ℕ)
      → at base bus device function
        ≡ u64
            (u64 (u64 (base + u64 (bus * 2 ^ 20)) + u64 (device * 2 ^ 15)) + u64 (function * 4096))
  at_function device function = omega arith

  function-nested :
      (device function : ℕ)
      → (let on_bus = u64 (base + u64 (bus * 2 ^ 20)) in
          let on_device = u64 (on_bus + u64 (device * 2 ^ 15)) in
          let here = u64 (on_device + u64 (function * 4096)) in
          found_at memory base bus device function
          ≡ when (is_present memory on_bus) (
              when
                (is_present memory on_device)
                (when (is_present memory here && is_ahci memory here) (here ∷ []))))
  function-nested device function =
      let shown : (x y : ℕ) → x ≡ y → answers memory x ≡ is_present memory y =
        λ x y e. answers-present memory x ∙ ap (is_present memory) e in
      let here = at_function device function in
      found-split _ _ _ _ _ _ _ _ _ _ (shown _ _ at_bus) (shown _ _ (at_device device))
        (shown _ _ here) (speaks-ahci memory _ ∙ ap (is_ahci memory) here) here

  bus-nested :
      let on_bus = u64 (base + u64 (bus * 2 ^ 20)) in
      bus_found memory base bus ≡ when (is_present memory on_bus) (devices_found memory on_bus)
  bus-nested =
      concat_range-same _ _
        (λ device.
          concat_range-same _ _ (function-nested device) 0 8
          ∙ concat_range-when _ _ 0 8
          ∙ ap (when _) (concat_range-when _ _ 0 8))
        0 32
      ∙ concat_range-when _ _ 0 32

pub found-nested : (memory : ℕ → ℕ) (mcfg : ℕ) → ahci_found memory mcfg ≡ nested_found memory mcfg
found-nested memory mcfg =
    concat_range-same _ _
      (λ t.
        concat_range-same _ _ (bus-nested memory (read64 memory (u64 (mcfg + 44 + 16 * t)))) _ _)
      0 _
