-- ===== src/Fs/Fat32/Dates.antt =====
-- The fields of a directory entry's date, and its cluster number.
use ryanos.Prelude.{ℕ, refl, ◌+◌, ◌-◌, ◌*◌, ◌/◌, ◌%◌, ◌^◌, ◌<◌, ◌≡◌, ap, ◌∙◌, bit_and, arith}
use ryanos.Prelude.Bits.Fields.{and_low, and_fields, and_zero}
use ryanos.Fs.Fat32.{get_creation_date_time}

-- A date and a time as a directory entry packs them.
abbrev pub packed_date : ℕ → ℕ → ℕ → ℕ
packed_date years month day = years * 512 + month * 32 + day

abbrev pub packed_time : ℕ → ℕ → ℕ → ℕ
packed_time hours minutes seconds = hours * 2048 + minutes * 32 + seconds

middle :
    (k n w x : ℕ)
    → 0 < 2 ^ k
    → x / 2 ^ k < 2 ^ w
    → x % 2 ^ k < 2 ^ k
    → x ≡ x / 2 ^ k * 2 ^ k + x % 2 ^ k
    → bit_and x ((2 ^ n - 1) * 2 ^ k + 0) ≡ x / 2 ^ k % 2 ^ n * 2 ^ k
middle k n w x pos high low whole =
    ap (λ (t : ℕ). bit_and t ((2 ^ n - 1) * 2 ^ k + 0)) whole
    ∙ and_fields k (x / 2 ^ k) (2 ^ n - 1) (x % 2 ^ k) 0 low pos
    ∙ omega (
      arith,
      ap (λ (t : ℕ). t * 2 ^ k) (and_low n w (x / 2 ^ k) high),
      and_zero k (x % 2 ^ k) low,
    )

-- Packed fields that fit their bits, years from 1980 on, are read back.
pub get_creation_date_time-packed :
    (years month day hours minutes seconds high low : ℕ)
    → years < 128
    → month < 16
    → day < 32
    → hours < 32
    → minutes < 64
    → seconds < 32
    → get_creation_date_time (record {
      time_created = packed_time hours minutes seconds;
      date_created = packed_date years month day;
      cluster_high = high;
      cluster_low = low;
    })
      ≡ record {
        seconds = seconds;
        minutes = minutes;
        hours = hours;
        day = day;
        month = month;
        year = years + 1980;
      }
unfolding get_creation_date_time
get_creation_date_time-packed years month day hours minutes seconds high low hy hm hd hh hi hs =
    let d = packed_date years month day in
    let t = packed_time hours minutes seconds in
    let day_of : bit_and d 31 ≡ day = omega (arith, and_low 5 16 d (omega arith)) in
    let month_of : bit_and d 480 / 2 ^ 5 ≡ month =
      omega (arith, middle 5 4 11 d (omega arith) (omega arith) (omega arith) (omega arith)) in
    let year_of : bit_and d 65024 / 2 ^ 9 ≡ years =
      omega (arith, middle 9 7 7 d (omega arith) (omega arith) (omega arith) (omega arith)) in
    let second_of : bit_and t 31 ≡ seconds = omega (arith, and_low 5 16 t (omega arith)) in
    let minute_of : bit_and t 2016 / 2 ^ 5 ≡ minutes =
      omega (arith, middle 5 6 11 t (omega arith) (omega arith) (omega arith) (omega arith)) in
    let hour_of : bit_and t 63488 / 2 ^ 11 ≡ hours =
      omega (arith, middle 11 5 5 t (omega arith) (omega arith) (omega arith) (omega arith)) in
    rw (day_of, month_of, year_of, second_of, minute_of, hour_of) refl
