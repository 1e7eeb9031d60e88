-- ===== src/Memory/Bytes/Tests.antt =====
-- A region of eleven bytes that is filled, and one of twenty-seven bytes that is copied.
use ryanos.Prelude.{◌-◌, ◌%◌, ◌≡◌, arith, inl, if◌then◌else◌}
use ryanos.Memory.Bytes.{Bytes, byte, within, memset, memcopy}
use ryanos.Memory.Bytes.Fill.{memset_lem}
use ryanos.Memory.Bytes.Copy.{copied, memcopy_lem}

abbrev counting : Bytes
counting a = a % 256

memset_lem_example :
    memset 100 0xFFAABBCC 11 counting 109
    ≡ (if within 100 11 109 then byte 0xFFAABBCC ((109 - 100) % 4) else counting 109)
memset_lem_example = memset_lem 100 0xFFAABBCC 11 counting 109 (omega arith)

memcopy_lem_example : memcopy 100 200 27 counting 126 ≡ copied 100 200 27 counting 126
memcopy_lem_example = memcopy_lem 100 200 27 counting 126 (inl (omega arith))
