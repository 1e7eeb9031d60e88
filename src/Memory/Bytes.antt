-- ===== src/Memory/Bytes.antt =====
-- `memset` and `memcopy` of memory/mem.cpp, on the bytes of the memory, for regions that end below
-- 2^64. The inline assembler is written out: `rep stosq` and `rep movsq` are one store or one copy of
-- eight bytes a round, and the loop over `movdqu` one copy of sixteen.
pub mod Fill
pub mod Copy
mod Tests
use ryanos.Prelude.{
  ℕ, zero, suc, ◌+◌, ◌-◌, ◌*◌, ◌/◌, ◌%◌, ◌^◌, Bool, ltb, leb, ◌&&◌, if◌then◌else◌, u64, update,
  ◌<<<◌, bit_or,
}

abbrev pub Bytes : Type 0
Bytes = ℕ → ℕ

-- Byte `i` of a number, the lowest one first.
unfoldable pub byte : ℕ → ℕ → ℕ
byte v zero = v % 256
byte v (suc i) = byte (v / 256) i

-- Address `a` is one of the `n` from `start` on.
abbrev pub within : ℕ → ℕ → ℕ → Bool
within start n a = leb start a && ltb a (start + n)

unfoldable pub store64 : ℕ → ℕ → Bytes → Bytes
unfolding byte
store64 a v m b = if within a 8 b then byte v (b - a) else m b

-- `rep stosq`
unfoldable pub stosq : ℕ → ℕ → ℕ → Bytes → Bytes
unfolding store64
stosq zero dest v m = m
stosq (suc num_qwords) dest v m = stosq num_qwords (dest + 8) v (store64 dest v m)

-- The loop over the remaining bytes, from byte `i` on.
unfoldable pub store_rest : ℕ → ℕ → ℕ → ℕ → Bytes → Bytes
unfolding byte
store_rest zero i byte_dest c m = m
store_rest (suc left) i byte_dest c m =
    store_rest left (i + 1) (byte_dest + 1) c (update m byte_dest (byte c (i % 4)))

unfoldable pub memset : ℕ → ℕ → ℕ → Bytes → Bytes
unfolding stosq store_rest
memset start c num m =
    let value64 = bit_or c (c <<< 32) in
    let num_qwords = num / 8 in
    store_rest (num % 8) 0 (start + num_qwords * 8) c (stosq num_qwords start value64 m)

-- One round that loads `w` bytes and stores them.
unfoldable pub copy_chunk : ℕ → ℕ → ℕ → Bytes → Bytes
copy_chunk w dest src m b = if within dest w b then m (src + (b - dest)) else m b

unfoldable pub copy_chunks : ℕ → ℕ → ℕ → ℕ → Bytes → Bytes
unfolding copy_chunk
copy_chunks w zero dest src m = m
copy_chunks w (suc rounds) dest src m =
    copy_chunks w rounds (dest + w) (src + w) (copy_chunk w dest src m)

-- A stage of `memcopy`: the rounds of `w` bytes, if there are any, and what they leave.
unfoldable pub stage : ℕ → ℕ × ℕ × ℕ × Bytes → ℕ × ℕ × ℕ × Bytes
unfolding copy_chunks
stage w (dest, src, n, m) =
    if leb w n
    then (dest + n / w * w, src + n / w * w, n % w, copy_chunks w (n / w) dest src m)
    else (dest, src, n, m)

unfoldable pub memcopy : ℕ → ℕ → ℕ → Bytes → Bytes
unfolding stage
memcopy dest src n m = (stage 1 (stage 8 (stage 16 (dest, src, n, m)))).3
