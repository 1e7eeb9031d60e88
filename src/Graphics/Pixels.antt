-- ===== src/Graphics/Pixels.antt =====
-- The pixels of a surface as words, and what a store and a fill do to one.
use ryanos.Prelude.{ℕ, ◌+◌, ◌-◌, ◌*◌, ◌%◌, ◌^◌, ◌<◌, ◌≤◌, ◌≡◌, ap, arith, ◌⊎◌, read32}
use ryanos.Memory.Bytes.{Bytes, byte, memset}
use ryanos.Memory.Bytes.Fill.{memset_lem}
use ryanos.Graphics.{store32}

-- The four bytes of a word are the word.
bytes_of :
    (c : ℕ) → c < 2 ^ 32 → byte c 0 + byte c 1 * 2 ^ 8 + (byte c 2 + byte c 3 * 2 ^ 8) * 2 ^ 16 ≡ c
unfolding byte
bytes_of c small = omega arith

-- A word is known by its four bytes.
read32-byte :
    (c a : ℕ) (m : Bytes) → c < 2 ^ 32 → ((i : ℕ) → i < 4 → m (a + i) ≡ byte c i) → read32 m a ≡ c
read32-byte c a m small same =
    let e : a + 2 + 1 ≡ a + 3 = omega arith in
    let z : a ≡ a + 0 = omega arith in
    omega (
      arith,
      ap m z,
      same 0 (omega arith),
      same 1 (omega arith),
      same 2 (omega arith),
      ap m e,
      same 3 (omega arith),
      bytes_of c small,
    )

pub read32_ext :
    (a b : ℕ) (m m' : Bytes) → ((i : ℕ) → i < 4 → m' (a + i) ≡ m (b + i)) → read32 m' a ≡ read32 m b
read32_ext a b m m' same =
    let e : a + 2 + 1 ≡ a + 3 = omega arith in
    let e' : b + 2 + 1 ≡ b + 3 = omega arith in
    let z : a ≡ a + 0 = omega arith in
    let z' : b ≡ b + 0 = omega arith in
    omega (
      arith,
      ap m z',
      ap m' z,
      same 0 (omega arith),
      same 1 (omega arith),
      same 2 (omega arith),
      ap m e',
      ap m' e,
      same 3 (omega arith),
    )

-- A word that is stored, and one that is elsewhere.
pub read32-store32 : (a c : ℕ) (m : Bytes) → c < 2 ^ 32 → read32 (store32 a c m) a ≡ c
unfolding store32
read32-store32 a c m small =
    read32-byte c a (store32 a c m) small
      (λ i h. let e : a + i - a ≡ i = omega arith in ground (arith, ap (byte c) e))

pub store32-apart :
    (a b c : ℕ) (m : Bytes) → (a + 4 ≤ b) ⊎ (b + 4 ≤ a) → read32 (store32 a c m) b ≡ read32 m b
unfolding store32
store32-apart a b c m off = read32_ext b b m (store32 a c m) (λ i h. ground arith)

-- A word within a region that is filled, at a whole distance, and one outside.
pub read32-memset :
    (start k n c : ℕ) (m : Bytes)
    → c < 2 ^ 32
    → k < n
    → read32 (memset start c (n * 4) m) (start + k * 4) ≡ c
read32-memset start k n c m small inside =
    read32-byte c (start + k * 4) (memset start c (n * 4) m) small (λ i h.
      let e : (start + k * 4 + i - start) % 4 ≡ i = omega arith in
      ground (arith, memset_lem start c (n * 4) m (start + k * 4 + i) small, ap (byte c) e))

pub memset-apart :
    (start n b c : ℕ) (m : Bytes)
    → c < 2 ^ 32
    → (start + n ≤ b) ⊎ (b + 4 ≤ start)
    → read32 (memset start c n m) b ≡ read32 m b
memset-apart start n b c m small off =
    read32_ext b b m (memset start c n m)
      (λ i h. ground (arith, memset_lem start c n m (b + i) small))
