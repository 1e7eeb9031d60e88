-- ===== src/Fs/Fat32.antt =====
-- fs/fat32.cpp: the entries of the file allocation table, the numbers of clusters and sectors, and
-- the dates. The disk is behind the AHCI port, whose `read` and `write` are parameters. The 128
-- pages of each buffer come zeroed from the frame allocator and go back to it, which is not part of
-- this model.
pub mod Entries
pub mod FreeCluster
pub mod Dates
mod Tests
use ryanos.Prelude.{
  ℕ, zero, suc, ◌+◌, ◌-◌, ◌*◌, ◌/◌, ◌%◌, ◌^◌, Bool, true, false, ltb, ◌==◌, ◌||◌, if◌then◌else◌,
  bit_and, bit_or, u32, u64, sub32, update, ◌<<<◌, ◌>>>◌,
}

-- The fields of the class that the functions read, with those of its boot sector.
pub record Fat32 : Type 0 where
  pub partition_start : ℕ
  pub first_data_sector : ℕ
  pub total_clusters : ℕ
  pub bytes_per_sector : ℕ
  pub sectors_per_cluster : ℕ
  pub reserved_sector_count : ℕ

-- `AHCI::Port` with a disk behind it: `read` fills a buffer from a number of sectors.
pub record Port (D : Type 0) : Type 0 where
  pub read : ℕ → ℕ → (ℕ → ℕ) → D → ℕ → ℕ
  pub write : ℕ → ℕ → (ℕ → ℕ) → D → D

pub record Fat32DirectoryEntry : Type 0 where
  pub time_created : ℕ
  pub date_created : ℕ
  pub cluster_high : ℕ
  pub cluster_low : ℕ

pub record DateTime : Type 0 where
  pub seconds : ℕ
  pub minutes : ℕ
  pub hours : ℕ
  pub day : ℕ
  pub month : ℕ
  pub year : ℕ

unfoldable pub get_sector_number : Fat32 → ℕ → ℕ
get_sector_number v cluster =
    u32 (v.first_data_sector + u32 (sub32 cluster 2 * v.sectors_per_cluster))

unfoldable pub get_cluster_number : Fat32DirectoryEntry → ℕ
get_cluster_number entry = bit_or (u32 (entry.cluster_high <<< 16)) entry.cluster_low

unfoldable pub get_creation_date_time : Fat32DirectoryEntry → DateTime
get_creation_date_time entry = record {
  day = bit_and entry.date_created 0b0000000000011111;
  month = bit_and entry.date_created 0b0000000111100000 >>> 5;
  year = (bit_and entry.date_created 0b1111111000000000 >>> 9) + 1980;
  seconds = bit_and entry.time_created 0b0000000000011111;
  minutes = bit_and entry.time_created 0b0000011111100000 >>> 5;
  hours = bit_and entry.time_created 0b1111100000000000 >>> 11;
}

-- `*(uint32_t *)(buffer + offset)`, read and written, the lowest byte first.
unfoldable pub get_u32 : (ℕ → ℕ) → ℕ → ℕ
get_u32 buffer offset =
    buffer offset
    + buffer (offset + 1) * 2 ^ 8
    + buffer (offset + 2) * 2 ^ 16
    + buffer (offset + 3) * 2 ^ 24

unfoldable pub put_u32 : (ℕ → ℕ) → ℕ → ℕ → ℕ → ℕ
put_u32 buffer offset value i =
    if i == offset
    then value % 2 ^ 8
    else if i == offset + 1
    then value / 2 ^ 8 % 2 ^ 8
    else if i == offset + 2
    then value / 2 ^ 16 % 2 ^ 8
    else if i == offset + 3
    then value / 2 ^ 24 % 2 ^ 8
    else buffer i

-- Whether the functions leave at once.
unfoldable pub bad_cluster : Fat32 → ℕ → Bool
bad_cluster v cluster = ltb cluster 2 || ltb v.total_clusters cluster

unfoldable pub fat_sector : Fat32 → ℕ → ℕ
fat_sector v cluster =
    u32 (v.partition_start + v.reserved_sector_count + u32 (cluster * 4) / v.bytes_per_sector)

unfoldable pub entry_offset : Fat32 → ℕ → ℕ
entry_offset v cluster = u32 (cluster * 4) % v.bytes_per_sector

abbrev pub zeroed : ℕ → ℕ
zeroed i = 0

module _ {D : Type 0} (port : Port D) (v : Fat32) where
  unfoldable pub read_fat_entry : ℕ → D → ℕ
  unfolding bad_cluster fat_sector entry_offset get_u32
  read_fat_entry cluster disk =
      let buffer = port.read (fat_sector v cluster) 32 zeroed disk in
      if bad_cluster v cluster
      then 0
      else bit_and (get_u32 buffer (entry_offset v cluster)) 0x0FFFFFFF

  unfoldable pub write_fat_entry : ℕ → ℕ → D → D
  unfolding bad_cluster fat_sector entry_offset put_u32
  write_fat_entry cluster entry disk =
      let buffer = port.read (fat_sector v cluster) 1 zeroed disk in
      if bad_cluster v cluster
      then disk
      else port.write (fat_sector v cluster) 1
          (put_u32 buffer (entry_offset v cluster) (bit_and entry 0x0FFFFFFF)) disk

  -- The loop, from a cluster on, with the number of rounds that are left.
  unfoldable pub find_free_from : ℕ → ℕ → D → ℕ
  find_free_from zero cluster disk = 0
  find_free_from (suc left) cluster disk =
      let rest = find_free_from left (cluster + 1) disk in
      if read_fat_entry cluster disk == 0 then cluster else rest

  unfoldable pub find_free_cluster : D → ℕ
  find_free_cluster disk = find_free_from (v.total_clusters - 2) 2 disk
