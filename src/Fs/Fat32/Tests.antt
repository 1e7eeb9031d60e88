-- ===== src/Fs/Fat32/Tests.antt =====
-- A volume on a disk in memory.
use ryanos.Prelude.{
  ℕ, ◌+◌, ◌-◌, ◌*◌, ◌%◌, ◌<◌, ◌≤◌, ◌≡◌, ◌⊎◌, refl, ltb, leb, ◌&&◌, if◌then◌else◌, arith,
}
use ryanos.Fs.Fat32.{
  Fat32, Port, bad_cluster, fat_sector, entry_offset, get_u32, read_fat_entry, write_fat_entry,
  find_free_from, find_free_cluster, get_creation_date_time, get_sector_number,
}
use ryanos.Fs.Fat32.Entries.{IsVolume, Written, write_fat_entry-Written}
use ryanos.Fs.Fat32.FreeCluster.{IsFirstFree, find_free_cluster-IsFirstFree}
use ryanos.Fs.Fat32.Dates.{packed_date, packed_time, get_creation_date_time-packed}

abbrev in_memory : Port (ℕ → ℕ)
in_memory = record {
  read = λ s n buffer d j. if ltb j (n * 512) then d (s * 512 + j) % 256 else buffer j;
  write = λ s n buffer d a.
      if leb (s * 512) a && ltb a ((s + n) * 512) then buffer (a - s * 512) else d a;
}

abbrev floppy : Fat32
floppy = record {
  partition_start = 0;
  first_data_sector = 34;
  total_clusters = 100;
  bytes_per_sector = 512;
  sectors_per_cluster = 1;
  reserved_sector_count = 32;
}

floppy-IsVolume : IsVolume floppy
floppy-IsVolume = record { sector = refl; offsets = omega arith; sectors = omega arith }

-- Only the first entries are taken.
abbrev image : ℕ → ℕ
image a = if ltb a 16396 then 255 else 0

write_fat_entry-Written_example :
    (((7 < 2) ⊎ (100 < 7)) × (write_fat_entry in_memory floppy 7 0x1234_5678 image ≡ image))
    ⊎ ((2 ≤ 7)
        × (7 ≤ 100)
        × Written floppy floppy-IsVolume in_memory 7 0x1234_5678 image
            (write_fat_entry in_memory floppy 7 0x1234_5678 image))
write_fat_entry-Written_example =
    write_fat_entry-Written floppy floppy-IsVolume in_memory 7 0x1234_5678 image

find_free_cluster-IsFirstFree_example :
    IsFirstFree in_memory floppy 2 100 image (find_free_cluster in_memory floppy image)
find_free_cluster-IsFirstFree_example =
    find_free_cluster-IsFirstFree in_memory floppy image (omega arith)

free_is_three : find_free_cluster in_memory floppy image ≡ 3
unfolding find_free_cluster find_free_from read_fat_entry bad_cluster fat_sector entry_offset
    get_u32
free_is_three = refl

date_read_back :
    get_creation_date_time (record {
      time_created = packed_time 17 45 10;
      date_created = packed_date 44 11 25;
      cluster_high = 0;
      cluster_low = 3;
    })
    ≡ record { seconds = 10; minutes = 45; hours = 17; day = 25; month = 11; year = 44 + 1980 }
date_read_back =
    get_creation_date_time-packed 44 11 25 17 45 10 0 3 (omega arith) (omega arith) (omega arith)
      (omega arith) (omega arith) (omega arith)

third_cluster : get_sector_number floppy 3 ≡ 35
unfolding get_sector_number
third_cluster = refl
