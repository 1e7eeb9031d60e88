-- ===== src/Memory/Bitmap/Laws.antt =====
-- The bitmap behaves as a set of page indices.
use ryanos.Prelude.{
  ℕ, zero, suc, ◌*◌, ◌/◌, ◌%◌, ◌<◌, ◌≤◌, ◌≡◌, refl, Bool, true, false, bit_and, ltb, leb,
  if◌then◌else◌, u8, u64, ◌>>>◌, ◌==◌, arith, ◌&&◌, not, Bool-cases, inl, inr,
}
use ryanos.Prelude.Bits.Fields.{zero_and}
use ryanos.Memory.Bitmap.{Bitmap, bit_indexer, get, set, set_byte}

-- Every byte of the buffer is a byte.
abbrev pub IsBytes : Bitmap → Type 0
IsBytes m = (i : ℕ) → m.buffer i < 256

-- The index is one that `set` accepts.
abbrev pub IsInRange : Bitmap → ℕ → Type 0
IsInRange m i = i < u64 (m.size * 8)

abbrev test : ℕ → ℕ → Bool
test byte i = ltb 0 (bit_and byte (u8 (128 >>> i)))

abbrev same : Bool → Bool → Bool
same true b = b
same false b = not b

-- The check `p` passes for every byte value, offset or other number below the bound.
passes : (ℕ → Bool) → ℕ → Bool
passes p zero = true
passes p (suc bound) = let rest = passes p bound in if p bound then rest else false

passes-at : (p : ℕ → Bool) (bound : ℕ) → passes p bound ≡ true → (k : ℕ) → k < bound → p k ≡ true
unfolding passes
passes-at p zero checked k below = elim below [ ]
passes-at p (suc bound) checked k below = ground (arith, passes-at p bound (ground arith) k)

-- One byte, two bit positions and a value.
abbrev entry : Bool → ℕ → ℕ → ℕ → Bool
entry v i j b =
    same (test (set_byte b (u8 (128 >>> i)) v) j) (if i == j then v else test b j)
    && ltb (set_byte b (u8 (128 >>> i)) v) 256

abbrev table : Bool → Bool
table v = passes (λ i. passes (λ j. passes (entry v i j) 256) 8) 8

table-true : table true ≡ true
unfolding passes set_byte
table-true = refl

table-false : table false ≡ true
unfolding passes set_byte
table-false = refl

same_sound : (a b : Bool) → same a b ≡ true → a ≡ b
same_sound a b h = ground arith

entry_holds : (v : Bool) (i j b : ℕ) → i < 8 → j < 8 → b < 256 → entry v i j b ≡ true
entry_holds v i j b hi hj hb =
    passes-at (entry v i j) 256
      (passes-at (λ k. passes (entry v i k) 256) 8
        (passes-at (λ h. passes (λ k. passes (entry v h k) 256) 8) 8 (holds v) i hi) j hj)
      b hb
  where
    holds : (v : Bool) → table v ≡ true
    holds true = table-true
    holds false = table-false

test-set_byte :
    (v : Bool) (i j b : ℕ)
    → i < 8
    → j < 8
    → b < 256
    → (test (set_byte b (u8 (128 >>> i)) v) j ≡ (if i == j then v else test b j))
      × (set_byte b (u8 (128 >>> i)) v < 256)
test-set_byte v i j b hi hj hb = ground (
  arith,
  entry_holds v i j b hi hj hb,
  same_sound (test (set_byte b (u8 (128 >>> i)) v) j) (if i == j then v else test b j),
)

pub set-refuses : (m : Bitmap) (i : ℕ) (v : Bool) → u64 (m.size * 8) ≤ i → set m i v ≡ (m, false)
unfolding set
set-refuses m i v h = ground arith

pub get_refuses : (m : Bitmap) (i : ℕ) → u64 (m.size * 8) ≤ i → get m i ≡ false
unfolding get
get_refuses m i h = ground arith

module _ (m : Bitmap) (i : ℕ) (v : Bool) (bytes : IsBytes m) where
  -- In a buffer of bytes, a write at an index that the bitmap covers changes the entry of that index
  -- to the value, and no other entry.
  pub get-set : (j : ℕ) → IsInRange m i → get (set m i v).0 j ≡ (if i == j then v else get m j)
  unfolding get set bit_indexer
  get-set j h = ground (
    arith,
    test-set_byte v (i % 8) (j % 8) (m.buffer (i / 8)) (omega arith) (omega arith) (bytes (i / 8)),
  )

  pub set-IsBytes : IsBytes (set m i v).0
  unfolding set bit_indexer
  set-IsBytes j = ground (
    arith,
    bytes j,
    test-set_byte v (i % 8) 0 (m.buffer (i / 8)) (omega arith) (omega arith) (bytes (i / 8)),
  )

  -- The same at every index: a write out of range changes nothing, and reads there are false.
  pub get-set_total :
      (j : ℕ) → get (set m i v).0 j ≡ (if i == j then v && ltb j (u64 (m.size * 8)) else get m j)
  get-set_total j = elim (Bool-cases (leb (u64 (m.size * 8)) i)) [
    | inl out ↦ ground (arith, out_of_range out, get_refuses m i)
    | inr inside ↦ ground (arith, get-set j)
  ]
    where
      out_of_range : leb (u64 (m.size * 8)) i ≡ true → set m i v ≡ (m, false)
      out_of_range out = set-refuses m i v (ground arith)

pub set-done : (m : Bitmap) (i : ℕ) (v : Bool) → (set m i v).1 ≡ ltb i (u64 (m.size * 8))
unfolding set
set-done m i v = ground arith

pub set-size : (m : Bitmap) (i : ℕ) (v : Bool) → (set m i v).0.size ≡ m.size
unfolding set
set-size m i v = ground arith

pub set-accepts : (m : Bitmap) (i : ℕ) (v : Bool) → IsInRange m i → (set m i v).1 ≡ true
unfolding set
set-accepts m i v h = ground arith

-- Where the bytes of the bitmap are zero, no page is held.
pub get_zero : (m : Bitmap) → ((i : ℕ) → i < m.size → m.buffer i ≡ 0) → (j : ℕ) → get m j ≡ false
unfolding get
get_zero m zeros j = ground (arith, zeros (j / 8), zero_and (bit_indexer j))
