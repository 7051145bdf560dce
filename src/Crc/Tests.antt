-- ===== src/Crc/Tests.antt =====
-- The check values of the catalogue, and the theorems at the text that they are of.
use vsclib.Prelude.Bytes.{codes, all_bytes, all_bytes-IsBytes}
use vsclib.Prelude.{true, ◌≡◌, refl}
use vsclib.Crc.Bitwise.{bitwise_crc, poly32, poly32c, crc_bitwise}
use vsclib.Crc.Sum.{crc32, crc32c}

crc32_check : crc32 (codes "123456789") ≡ 0xcbf43926
unfolding crc32
crc32_check = refl

crc32c_check : crc32c (codes "123456789") ≡ 0xe3069283
unfolding crc32c
crc32c_check = refl

digits-all_bytes : all_bytes (codes "123456789") ≡ true
unfolding all_bytes
digits-all_bytes = refl

crc_bitwise_example :
    (crc32 (codes "123456789") ≡ bitwise_crc poly32 (codes "123456789"))
    × (crc32c (codes "123456789") ≡ bitwise_crc poly32c (codes "123456789"))
crc_bitwise_example =
    crc_bitwise (codes "123456789") (all_bytes-IsBytes (codes "123456789") digits-all_bytes)
