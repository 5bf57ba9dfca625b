-- ===== src/Crc/Tests.antt =====
-- The checksums of src/ld_crc.c on concrete bytes, and the theorems applied to them.
use liteldacssdk.Prelude.{ℕ, bit_xor, ◌≡◌, ◌≢◌, List, [], ◌∷◌, arith}
use liteldacssdk.Crc.{cal_crc_8bits, cal_crc_32bits}
use liteldacssdk.Crc.Bitwise.{divide8, divide32, cal_crc_8bits-divide8, cal_crc_32bits-divide32}
use liteldacssdk.Crc.Detect.{cal_crc_32bits-detects}

-- "123456789"
abbrev digits : List ℕ
digits = 0x31 ∷ 0x32 ∷ 0x33 ∷ 0x34 ∷ 0x35 ∷ 0x36 ∷ 0x37 ∷ 0x38 ∷ 0x39 ∷ []

cal_crc_32bits-divide32_example : cal_crc_32bits digits ≡ bit_xor (divide32 0 digits) 0xFFFFFFFF
cal_crc_32bits-divide32_example = cal_crc_32bits-divide32 digits (omega arith)

cal_crc_8bits-divide8_example : cal_crc_8bits digits ≡ divide8 0 digits
cal_crc_8bits-divide8_example = cal_crc_8bits-divide8 digits (omega arith)

cal_crc_32bits-detects_example :
    cal_crc_32bits (0x31 ∷ 0x32 ∷ 0x33 ∷ []) ≢ cal_crc_32bits (0x31 ∷ 0x30 ∷ 0x33 ∷ [])
cal_crc_32bits-detects_example =
    cal_crc_32bits-detects (0x31 ∷ []) (0x33 ∷ []) 0x32 0x30 (omega arith) (omega arith)
      (omega arith) (omega arith) (omega arith)
