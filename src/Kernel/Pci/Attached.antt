-- ===== src/Kernel/Pci/Attached.antt =====
-- Drivers that are added one behind the other, and the loop that adds them.
use ryanos.Prelude.{
  ℕ, zero, suc, ◌+◌, ◌<◌, ◌≤◌, ◌≡◌, refl, ap, ◌∙◌, List, [], ◌∷◌, ◌++◌, ◌⊎◌, inl, inr, length,
  length-append, arith,
}
use mathlib.Core.Path.{subst}
use ryanos.Kernel.Pci.{Drivers, for_range}
use ryanos.Kernel.Pci.Found.{concat_range}

-- From slot `n` on stand drivers that were made from these addresses.
abbrev pub Hold : {D : Type 0} → (D → ℕ) → (ℕ → D) → ℕ → List ℕ → Type 0
Hold base slots n [] = Unit {0}
Hold base slots n (a ∷ xs) = (base (slots n) ≡ a) × Hold base slots (n + 1) xs

pub Hold-same :
    {D : Type 0} (base : D → ℕ) (slots slots' : ℕ → D) (n : ℕ) (xs : List ℕ)
    → ((j : ℕ) → n ≤ j → j < n + length xs → slots' j ≡ slots j)
    → Hold base slots n xs
    → Hold base slots' n xs
Hold-same base slots slots' n [] same h = tt
Hold-same base slots slots' n (a ∷ xs) same h = (
  ap base (same n (omega arith) (omega arith)) ∙ h.0,
  Hold-same base slots slots' (n + 1) xs (λ j l u. same j (omega arith) (omega arith)) h.1,
)

pub Hold-append :
    {D : Type 0} (base : D → ℕ) (slots : ℕ → D) (n : ℕ) (xs ys : List ℕ)
    → Hold base slots n xs
    → Hold base slots (n + length xs) ys
    → Hold base slots n (xs ++ ys)
Hold-append base slots n [] ys h k =
    subst (λ (m : ℕ). Hold base slots m ys) (let e : n + 0 ≡ n = omega arith in e) k
Hold-append base slots n (a ∷ xs) ys h k =
    let e : n + suc (length xs) ≡ n + 1 + length xs = omega arith in
    (h.0, Hold-append base slots (n + 1) xs ys h.1 (subst (λ (m : ℕ). Hold base slots m ys) e k))

-- The drivers of these addresses are new, behind those that were there.
pub record Attached {S D : Type 0} (base : D → ℕ) (p : Drivers S D) (xs : List ℕ) (p' : Drivers S D)
    : Type 0 where
  pub counted : p'.ahci_driver_count ≡ p.ahci_driver_count + length xs
  pub held : Hold base p'.ahci_drivers p.ahci_driver_count xs
  pub others :
      (j : ℕ)
      → (j < p.ahci_driver_count) ⊎ (p.ahci_driver_count + length xs ≤ j)
      → p'.ahci_drivers j ≡ p.ahci_drivers j
  pub within : p'.overrun ≡ p.overrun

-- There are slots for these addresses.
abbrev pub Room : {S D : Type 0} → Drivers S D → List ℕ → Type 0
Room p xs = p.ahci_driver_count + length xs ≤ 16

module _ {S D : Type 0} (base : D → ℕ) where
  pub Attached-none :
      (p p' : Drivers S D)
      → p'.ahci_driver_count ≡ p.ahci_driver_count
      → p'.ahci_drivers ≡ p.ahci_drivers
      → p'.overrun ≡ p.overrun
      → Attached base p [] p'
  Attached-none p p' same_count same_slots same_overrun = record {
    within = same_overrun;
    counted = omega (arith, same_count);
    held = tt;
    others = λ j o. ap (λ (slots : ℕ → D). slots j) same_slots;
  }

  Attached-append :
      (p q r : Drivers S D) (xs ys : List ℕ)
      → Attached base p xs q
      → Attached base q ys r
      → Attached base p (xs ++ ys) r
  Attached-append p q r xs ys h k = record {
    within = k.within ∙ h.within;
    counted = omega (arith, h.counted, k.counted, length-append {0} xs ys);
    held =
        Hold-append base r.ahci_drivers p.ahci_driver_count xs ys
          (Hold-same base q.ahci_drivers r.ahci_drivers p.ahci_driver_count xs
            (λ j l u. k.others j (inl (omega (arith, h.counted)))) h.held)
          (subst (λ (n : ℕ). Hold base r.ahci_drivers n ys) h.counted k.held);
    others = λ j o. elim o [
      | inl below ↦ k.others j (inl (omega (arith, h.counted))) ∙ h.others j (inl below)
      | inr above ↦
          k.others j (inr (omega (arith, h.counted, length-append {0} xs ys)))
          ∙ h.others j (inr (omega (arith, length-append {0} xs ys)))
    ];
  }

  -- A loop whose rounds attach the lists attaches them one behind the other.
  pub for_range-Attached :
      (body : ℕ → Drivers S D → Drivers S D) (f : ℕ → List ℕ)
      → ((i : ℕ) (p : Drivers S D) → Room p (f i) → Attached base p (f i) (body i p))
      → (from count : ℕ) (p : Drivers S D) → Room p (concat_range f from count)
      → Attached base p (concat_range f from count) (for_range body from count p)
  unfolding for_range concat_range
  for_range-Attached body f step from zero p room = Attached-none p p refl refl refl
  for_range-Attached body f step from (suc count) p room =
      let rest = concat_range f (from + 1) count in
      let first = step from p (omega (arith, length-append {0} (f from) rest)) in
      Attached-append p (body from p) (for_range body (from + 1) count (body from p)) (f from) rest
        first
        (for_range-Attached body f step (from + 1) count (body from p)
          (omega (arith, first.counted, length-append {0} (f from) rest)))
