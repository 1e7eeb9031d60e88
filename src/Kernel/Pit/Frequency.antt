-- ===== src/Kernel/Pit/Frequency.antt =====
-- How near the timer comes to the frequency that is asked for.
use ryanos.Prelude.{
  ℕ, ◌+◌, ◌*◌, ◌/◌, ◌%◌, ◌^◌, ◌<◌, ◌≤◌, ◌≡◌, refl, ap, arith, false, some, ◌∷◌, u8, u16, ltb, ◌==◌,
  bit_and, ◌>>>◌,
}
use native.Mathlib.Nat.{mul-div-le, div-lt_iff_lt-mul, le-div_iff_mul-le}
use ryanos.Prelude.Bits.Fields.{and_low, and_fields, and_zero, and_ones}
use ryanos.Kernel.Ports.{written, outb, io_wait}
use ryanos.Kernel.Pit.{Pit, base_frequency, set_divisor, get_frequency, set_frequency}

-- The two bytes that the chip gets are those of the divisor.
divisor_bytes :
    (d : ℕ)
    → d < 2 ^ 16
    → (u8 (bit_and d 0x00ff) ≡ d % 2 ^ 8) × (u8 (bit_and d 0xff00 / 2 ^ 8) ≡ d / 2 ^ 8)
divisor_bytes d h =
    let fields : d ≡ d / 2 ^ 8 * 2 ^ 8 + d % 2 ^ 8 = omega arith in
    (
      omega (arith, and_low 8 16 d h),
      omega (
        arith,
        ap (λ (t : ℕ). bit_and t 0xff00) fields,
        and_fields 8 (d / 2 ^ 8) 0xff (d % 2 ^ 8) 0 (omega arith) (omega arith),
        and_ones 8 (d / 2 ^ 8) (omega arith),
        and_zero 8 (d % 2 ^ 8) (omega arith),
      ),
    )

-- The divisor of a frequency from 19 to 11931 needs no bound: it fits 16 bits and is not too small.
divisor_fits :
    (f : ℕ) → 19 ≤ f → f ≤ 11931 → (100 ≤ base_frequency / f) × (base_frequency / f < 2 ^ 16)
divisor_fits f l u = (
  (le-div_iff_mul-le {k = f} {x = 100} {y = base_frequency} (omega arith)).1 (omega arith),
  (div-lt_iff_lt-mul {k = f} {x = base_frequency} {y = 2 ^ 16} (omega arith)).1 (omega arith),
)

-- The chip has got the divisor, and it ticks at least as often as asked for, and less often than the
-- next smaller divisor would make it.
pub record Ticks (f : ℕ) (p p' : Pit) : Type 0 where
  pub at_least : f ≤ get_frequency p'
  pub nearest : p'.current_divisor * get_frequency p' < (p'.current_divisor + 1) * f
  pub sent :
      (low : ℕ) × (high : ℕ) × (p'.io
        ≡ written 0x40 high ∷ written 0x80 0 ∷ written 0x40 low ∷ p.io)
      × (low < 2 ^ 8)
      × (high < 2 ^ 8)
      × (high * 2 ^ 8 + low ≡ p'.current_divisor)

-- For a frequency from 19 to 11931 Hz, set_frequency does not divide by 0, sends the chip the two
-- bytes of the divisor that it keeps, and the timer then ticks at the frequency f' with f ≤ f' and
-- d * f' < (d + 1) * f, where d is the divisor.
pub set_frequency-Ticks :
    (f : ℕ) (p : Pit)
    → 19 ≤ f
    → f ≤ 11931
    → (p' : Pit) × (set_frequency f p ≡ some p') × Ticks f p p'
unfolding set_frequency set_divisor get_frequency outb io_wait
set_frequency-Ticks f p l u =
    let d = base_frequency / f in
    let fits = divisor_fits f l u in
    let cut : u16 d ≡ d = omega (arith, fits) in
    let not_zero : (f == 0) ≡ false = ground arith in
    let slow : ltb d 100 ≡ false = ground (arith, fits) in
    let bytes = divisor_bytes d (fits.1) in
    let low = u8 (bit_and d 0x00ff) in
    let high = u8 (bit_and d 0xff00 >>> 8) in
    let at_most : d * (base_frequency / d) ≤ base_frequency = mul-div-le base_frequency d in
    let asked : f * d ≤ base_frequency = mul-div-le base_frequency f in
    let next : base_frequency < (d + 1) * f =
      (div-lt_iff_lt-mul {k = f} {x = base_frequency} {y = d + 1} (omega arith)).0 (omega arith) in
    (
      record {
        current_divisor = d;
        io = written 0x40 high ∷ written 0x80 0 ∷ written 0x40 low ∷ p.io;
      },
      rw (not_zero, cut, slow) refl,
      record {
        at_least =
            (le-div_iff_mul-le {k = d} {x = f} {y = base_frequency} (omega (arith, fits))).1 asked;
        nearest = omega (arith, at_most, next);
        sent = (
          low,
          high,
          refl,
          omega (arith, bytes),
          omega (arith, bytes, fits),
          omega (arith, bytes),
        );
      },
    )
