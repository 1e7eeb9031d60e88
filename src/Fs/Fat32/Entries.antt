-- ===== src/Fs/Fat32/Entries.antt =====
-- The sector that `write_fat_entry` hands to the port.
use ryanos.Prelude.{
  ℕ, ◌+◌, ◌*◌, ◌/◌, ◌%◌, ◌^◌, ◌<◌, ◌≤◌, ◌≡◌, ◌≢◌, refl, ◌∙◌, true, false, arith, ◌⊎◌, inl, inr, u32,
  bit_and,
}
use ryanos.Prelude.Bits.Fields.{and_low, below_pow}
use ryanos.Fs.Fat32.{
  Fat32, Port, get_u32, put_u32, bad_cluster, fat_sector, entry_offset, zeroed, write_fat_entry,
}

-- The sectors of the table have 512 bytes and numbers of 32 bits, and so have the offsets.
pub record IsVolume (v : Fat32) : Type 0 where
  pub sector : v.bytes_per_sector ≡ 512
  pub offsets : v.total_clusters * 4 < 2 ^ 32
  pub sectors : v.partition_start + v.reserved_sector_count + v.total_clusters * 4 / 512 < 2 ^ 32

get_u32-put_u32 :
    (buffer : ℕ → ℕ) (offset value : ℕ)
    → value < 2 ^ 32
    → get_u32 (put_u32 buffer offset value) offset ≡ value
unfolding get_u32 put_u32
get_u32-put_u32 buffer offset value h = ground arith

get_u32-same :
    (buffer buffer' : ℕ → ℕ) (offset : ℕ)
    → ((j : ℕ) → offset ≤ j → j < offset + 4 → buffer' j ≡ buffer j)
    → get_u32 buffer' offset ≡ get_u32 buffer offset
unfolding get_u32
get_u32-same buffer buffer' offset same = omega (
  arith,
  same offset (omega arith) (omega arith),
  same (offset + 1) (omega arith) (omega arith),
  same (offset + 2) (omega arith) (omega arith),
  same (offset + 3) (omega arith) (omega arith),
)

put_u32-away :
    (buffer : ℕ → ℕ) (offset value j : ℕ)
    → (j < offset) ⊎ (offset + 4 ≤ j)
    → put_u32 buffer offset value j ≡ buffer j
unfolding put_u32
put_u32-away buffer offset value j away = ground arith

module _ (v : Fat32) (volume : IsVolume v) where
  -- Where the table begins on the disk.
  abbrev pub table : ℕ
  table = (v.partition_start + v.reserved_sector_count) * 512

  placed :
      (c : ℕ)
      → bad_cluster v c ≡ false
      → (fat_sector v c * 512 + entry_offset v c ≡ table + c * 4)
        × (entry_offset v c + 3 < 512)
        × (entry_offset v c % 4 ≡ 0)
  unfolding bad_cluster fat_sector entry_offset
  placed c good =
      let valid : c ≤ v.total_clusters = ground arith in
      let small : u32 (c * 4) ≡ c * 4 = omega (arith, volume.offsets) in
      let whole : u32 (v.partition_start + v.reserved_sector_count + c * 4 / 512)
          ≡ v.partition_start + v.reserved_sector_count + c * 4 / 512 =
        omega (arith, volume.sectors) in
      rw (volume.sector, small, whole) (omega arith)

  module _ {D : Type 0} (port : Port D) where
    -- One sector is written: the one that the entry of the cluster lies in, four bytes for each cluster
    -- from the table's begin on. It has the low 28 bits of the entry there, and all else as the port
    -- had read it, also the entries of the other clusters of the sector.
    pub record Written (c e : ℕ) (d d' : D) : Type 0 where
      pub sector : ℕ
      pub offset : ℕ
      pub buffer : ℕ → ℕ
      pub state : d' ≡ port.write sector 1 buffer d
      pub at : sector * 512 + offset ≡ table + c * 4
      pub inside : offset + 4 ≤ 512
      pub entry : get_u32 buffer offset ≡ e % 2 ^ 28
      pub others :
          (j : ℕ) → (j < offset) ⊎ (offset + 4 ≤ j) → buffer j ≡ port.read sector 1 zeroed d j
      pub neighbours :
          (c' o : ℕ)
          → c' ≢ c
          → sector * 512 + o ≡ table + c' * 4
          → get_u32 buffer o ≡ get_u32 (port.read sector 1 zeroed d) o

    -- On a volume of 512-byte sectors whose table has 32-bit sector numbers, and for any port: for a number
    -- below 2 or above the total nothing is written. For each other one, one sector is written, which is the
    -- one that the four bytes of the cluster's entry lie in; the low 28 bits of the entry are there, and all
    -- other bytes, also the entries of the other clusters, are those that the port has read of the sector.
    pub write_fat_entry-Written :
        (c e : ℕ) (d : D)
        → (((c < 2) ⊎ (v.total_clusters < c)) × (write_fat_entry port v c e d ≡ d))
          ⊎ ((2 ≤ c) × (c ≤ v.total_clusters) × Written c e d (write_fat_entry port v c e d))
    unfolding write_fat_entry
    write_fat_entry-Written c e d = elim range [
      | inl out ↦ inl (out, nothing out)
      | inr (low, high) ↦ inr (low, high, something low high)
    ]
      where
        range : ((c < 2) ⊎ (v.total_clusters < c)) ⊎ ((2 ≤ c) × (c ≤ v.total_clusters))
        range = ground arith

        nothing : (c < 2) ⊎ (v.total_clusters < c) → write_fat_entry port v c e d ≡ d
        nothing out =
            let bad : bad_cluster v c ≡ true = unfold bad_cluster in ground arith in rw bad refl

        something : 2 ≤ c → c ≤ v.total_clusters → Written c e d (write_fat_entry port v c e d)
        something low high =
            let good : bad_cluster v c ≡ false = unfold bad_cluster in ground arith in
            let place = placed c good in
            let o = entry_offset v c in
            let old = port.read (fat_sector v c) 1 zeroed d in
            let cut : bit_and e 0x0FFFFFFF ≡ e % 2 ^ 28 = and_low 28 e e (below_pow e) in
            record {
              sector = fat_sector v c;
              offset = o;
              buffer = put_u32 old o (bit_and e 0x0FFFFFFF);
              state = rw good refl;
              at = place.0;
              inside = omega (arith, place.1);
              entry = get_u32-put_u32 old o (bit_and e 0x0FFFFFFF) (omega (arith, cut)) ∙ cut;
              others = put_u32-away old o (bit_and e 0x0FFFFFFF);
              neighbours = λ c' o' ne there.
                  get_u32-same old (put_u32 old o (bit_and e 0x0FFFFFFF)) o' (λ j l h.
                    put_u32-away old o (bit_and e 0x0FFFFFFF) j
                      (apart c' o' j place.0 ne there l h));
            }
          where
            apart :
                (c' o' j : ℕ)
                → fat_sector v c * 512 + entry_offset v c ≡ table + c * 4
                → c' ≢ c
                → fat_sector v c * 512 + o' ≡ table + c' * 4
                → o' ≤ j
                → j < o' + 4
                → (j < entry_offset v c) ⊎ (entry_offset v c + 4 ≤ j)
            apart c' o' j here ne there l h = ground arith
