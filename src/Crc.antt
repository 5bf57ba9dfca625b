-- ===== src/Crc.antt =====
-- src/ld_crc.c and the tables of include/ld_crc.h: the checksums of a run of bytes.
-- The bytes from `start` to `cur` are a list of numbers below 256.
pub mod Xor
mod Bitwise
pub mod Detect
pub mod Narrow
mod Tests
use liteldacssdk.Prelude.{ℕ, ◌/◌, ◌^◌, bit_and, bit_xor, List, [], ◌∷◌, get_or}

abbrev pub crc8_table : List ℕ
crc8_table =
    0x00 ∷ 0x97 ∷ 0xb9 ∷ 0x2e ∷ 0xe5 ∷ 0x72 ∷ 0x5c ∷ 0xcb ∷ 0x5d ∷ 0xca ∷ 0xe4 ∷ 0x73 ∷ 0xb8 ∷ 0x2f
    ∷ 0x01 ∷ 0x96 ∷ 0xba ∷ 0x2d ∷ 0x03 ∷ 0x94 ∷ 0x5f ∷ 0xc8 ∷ 0xe6 ∷ 0x71 ∷ 0xe7 ∷ 0x70 ∷ 0x5e
    ∷ 0xc9 ∷ 0x02 ∷ 0x95 ∷ 0xbb ∷ 0x2c ∷ 0xe3 ∷ 0x74 ∷ 0x5a ∷ 0xcd ∷ 0x06 ∷ 0x91 ∷ 0xbf ∷ 0x28
    ∷ 0xbe ∷ 0x29 ∷ 0x07 ∷ 0x90 ∷ 0x5b ∷ 0xcc ∷ 0xe2 ∷ 0x75 ∷ 0x59 ∷ 0xce ∷ 0xe0 ∷ 0x77 ∷ 0xbc
    ∷ 0x2b ∷ 0x05 ∷ 0x92 ∷ 0x04 ∷ 0x93 ∷ 0xbd ∷ 0x2a ∷ 0xe1 ∷ 0x76 ∷ 0x58 ∷ 0xcf ∷ 0x51 ∷ 0xc6
    ∷ 0xe8 ∷ 0x7f ∷ 0xb4 ∷ 0x23 ∷ 0x0d ∷ 0x9a ∷ 0x0c ∷ 0x9b ∷ 0xb5 ∷ 0x22 ∷ 0xe9 ∷ 0x7e ∷ 0x50
    ∷ 0xc7 ∷ 0xeb ∷ 0x7c ∷ 0x52 ∷ 0xc5 ∷ 0x0e ∷ 0x99 ∷ 0xb7 ∷ 0x20 ∷ 0xb6 ∷ 0x21 ∷ 0x0f ∷ 0x98
    ∷ 0x53 ∷ 0xc4 ∷ 0xea ∷ 0x7d ∷ 0xb2 ∷ 0x25 ∷ 0x0b ∷ 0x9c ∷ 0x57 ∷ 0xc0 ∷ 0xee ∷ 0x79 ∷ 0xef
    ∷ 0x78 ∷ 0x56 ∷ 0xc1 ∷ 0x0a ∷ 0x9d ∷ 0xb3 ∷ 0x24 ∷ 0x08 ∷ 0x9f ∷ 0xb1 ∷ 0x26 ∷ 0xed ∷ 0x7a
    ∷ 0x54 ∷ 0xc3 ∷ 0x55 ∷ 0xc2 ∷ 0xec ∷ 0x7b ∷ 0xb0 ∷ 0x27 ∷ 0x09 ∷ 0x9e ∷ 0xa2 ∷ 0x35 ∷ 0x1b
    ∷ 0x8c ∷ 0x47 ∷ 0xd0 ∷ 0xfe ∷ 0x69 ∷ 0xff ∷ 0x68 ∷ 0x46 ∷ 0xd1 ∷ 0x1a ∷ 0x8d ∷ 0xa3 ∷ 0x34
    ∷ 0x18 ∷ 0x8f ∷ 0xa1 ∷ 0x36 ∷ 0xfd ∷ 0x6a ∷ 0x44 ∷ 0xd3 ∷ 0x45 ∷ 0xd2 ∷ 0xfc ∷ 0x6b ∷ 0xa0
    ∷ 0x37 ∷ 0x19 ∷ 0x8e ∷ 0x41 ∷ 0xd6 ∷ 0xf8 ∷ 0x6f ∷ 0xa4 ∷ 0x33 ∷ 0x1d ∷ 0x8a ∷ 0x1c ∷ 0x8b
    ∷ 0xa5 ∷ 0x32 ∷ 0xf9 ∷ 0x6e ∷ 0x40 ∷ 0xd7 ∷ 0xfb ∷ 0x6c ∷ 0x42 ∷ 0xd5 ∷ 0x1e ∷ 0x89 ∷ 0xa7
    ∷ 0x30 ∷ 0xa6 ∷ 0x31 ∷ 0x1f ∷ 0x88 ∷ 0x43 ∷ 0xd4 ∷ 0xfa ∷ 0x6d ∷ 0xf3 ∷ 0x64 ∷ 0x4a ∷ 0xdd
    ∷ 0x16 ∷ 0x81 ∷ 0xaf ∷ 0x38 ∷ 0xae ∷ 0x39 ∷ 0x17 ∷ 0x80 ∷ 0x4b ∷ 0xdc ∷ 0xf2 ∷ 0x65 ∷ 0x49
    ∷ 0xde ∷ 0xf0 ∷ 0x67 ∷ 0xac ∷ 0x3b ∷ 0x15 ∷ 0x82 ∷ 0x14 ∷ 0x83 ∷ 0xad ∷ 0x3a ∷ 0xf1 ∷ 0x66
    ∷ 0x48 ∷ 0xdf ∷ 0x10 ∷ 0x87 ∷ 0xa9 ∷ 0x3e ∷ 0xf5 ∷ 0x62 ∷ 0x4c ∷ 0xdb ∷ 0x4d ∷ 0xda ∷ 0xf4
    ∷ 0x63 ∷ 0xa8 ∷ 0x3f ∷ 0x11 ∷ 0x86 ∷ 0xaa ∷ 0x3d ∷ 0x13 ∷ 0x84 ∷ 0x4f ∷ 0xd8 ∷ 0xf6 ∷ 0x61
    ∷ 0xf7 ∷ 0x60 ∷ 0x4e ∷ 0xd9 ∷ 0x12 ∷ 0x85 ∷ 0xab ∷ 0x3c ∷ []

abbrev pub crc32_table : List ℕ
crc32_table =
    0x00000000 ∷ 0xcea9c3d2 ∷ 0x69ff7cb7 ∷ 0xa756bf65 ∷ 0xd3fef96e ∷ 0x1d573abc ∷ 0xba0185d9
    ∷ 0x74a8460b ∷ 0x535109cf ∷ 0x9df8ca1d ∷ 0x3aae7578 ∷ 0xf407b6aa ∷ 0x80aff0a1 ∷ 0x4e063373
    ∷ 0xe9508c16 ∷ 0x27f94fc4 ∷ 0xa6a2139e ∷ 0x680bd04c ∷ 0xcf5d6f29 ∷ 0x01f4acfb ∷ 0x755ceaf0
    ∷ 0xbbf52922 ∷ 0x1ca39647 ∷ 0xd20a5595 ∷ 0xf5f31a51 ∷ 0x3b5ad983 ∷ 0x9c0c66e6 ∷ 0x52a5a534
    ∷ 0x260de33f ∷ 0xe8a420ed ∷ 0x4ff29f88 ∷ 0x815b5c5a ∷ 0xb9e8dc2f ∷ 0x77411ffd ∷ 0xd017a098
    ∷ 0x1ebe634a ∷ 0x6a162541 ∷ 0xa4bfe693 ∷ 0x03e959f6 ∷ 0xcd409a24 ∷ 0xeab9d5e0 ∷ 0x24101632
    ∷ 0x8346a957 ∷ 0x4def6a85 ∷ 0x39472c8e ∷ 0xf7eeef5c ∷ 0x50b85039 ∷ 0x9e1193eb ∷ 0x1f4acfb1
    ∷ 0xd1e30c63 ∷ 0x76b5b306 ∷ 0xb81c70d4 ∷ 0xccb436df ∷ 0x021df50d ∷ 0xa54b4a68 ∷ 0x6be289ba
    ∷ 0x4c1bc67e ∷ 0x82b205ac ∷ 0x25e4bac9 ∷ 0xeb4d791b ∷ 0x9fe53f10 ∷ 0x514cfcc2 ∷ 0xf61a43a7
    ∷ 0x38b38075 ∷ 0x877d434d ∷ 0x49d4809f ∷ 0xee823ffa ∷ 0x202bfc28 ∷ 0x5483ba23 ∷ 0x9a2a79f1
    ∷ 0x3d7cc694 ∷ 0xf3d50546 ∷ 0xd42c4a82 ∷ 0x1a858950 ∷ 0xbdd33635 ∷ 0x737af5e7 ∷ 0x07d2b3ec
    ∷ 0xc97b703e ∷ 0x6e2dcf5b ∷ 0xa0840c89 ∷ 0x21df50d3 ∷ 0xef769301 ∷ 0x48202c64 ∷ 0x8689efb6
    ∷ 0xf221a9bd ∷ 0x3c886a6f ∷ 0x9bded50a ∷ 0x557716d8 ∷ 0x728e591c ∷ 0xbc279ace ∷ 0x1b7125ab
    ∷ 0xd5d8e679 ∷ 0xa170a072 ∷ 0x6fd963a0 ∷ 0xc88fdcc5 ∷ 0x06261f17 ∷ 0x3e959f62 ∷ 0xf03c5cb0
    ∷ 0x576ae3d5 ∷ 0x99c32007 ∷ 0xed6b660c ∷ 0x23c2a5de ∷ 0x84941abb ∷ 0x4a3dd969 ∷ 0x6dc496ad
    ∷ 0xa36d557f ∷ 0x043bea1a ∷ 0xca9229c8 ∷ 0xbe3a6fc3 ∷ 0x7093ac11 ∷ 0xd7c51374 ∷ 0x196cd0a6
    ∷ 0x98378cfc ∷ 0x569e4f2e ∷ 0xf1c8f04b ∷ 0x3f613399 ∷ 0x4bc97592 ∷ 0x8560b640 ∷ 0x22360925
    ∷ 0xec9fcaf7 ∷ 0xcb668533 ∷ 0x05cf46e1 ∷ 0xa299f984 ∷ 0x6c303a56 ∷ 0x18987c5d ∷ 0xd631bf8f
    ∷ 0x716700ea ∷ 0xbfcec338 ∷ 0xfa567d89 ∷ 0x34ffbe5b ∷ 0x93a9013e ∷ 0x5d00c2ec ∷ 0x29a884e7
    ∷ 0xe7014735 ∷ 0x4057f850 ∷ 0x8efe3b82 ∷ 0xa9077446 ∷ 0x67aeb794 ∷ 0xc0f808f1 ∷ 0x0e51cb23
    ∷ 0x7af98d28 ∷ 0xb4504efa ∷ 0x1306f19f ∷ 0xddaf324d ∷ 0x5cf46e17 ∷ 0x925dadc5 ∷ 0x350b12a0
    ∷ 0xfba2d172 ∷ 0x8f0a9779 ∷ 0x41a354ab ∷ 0xe6f5ebce ∷ 0x285c281c ∷ 0x0fa567d8 ∷ 0xc10ca40a
    ∷ 0x665a1b6f ∷ 0xa8f3d8bd ∷ 0xdc5b9eb6 ∷ 0x12f25d64 ∷ 0xb5a4e201 ∷ 0x7b0d21d3 ∷ 0x43bea1a6
    ∷ 0x8d176274 ∷ 0x2a41dd11 ∷ 0xe4e81ec3 ∷ 0x904058c8 ∷ 0x5ee99b1a ∷ 0xf9bf247f ∷ 0x3716e7ad
    ∷ 0x10efa869 ∷ 0xde466bbb ∷ 0x7910d4de ∷ 0xb7b9170c ∷ 0xc3115107 ∷ 0x0db892d5 ∷ 0xaaee2db0
    ∷ 0x6447ee62 ∷ 0xe51cb238 ∷ 0x2bb571ea ∷ 0x8ce3ce8f ∷ 0x424a0d5d ∷ 0x36e24b56 ∷ 0xf84b8884
    ∷ 0x5f1d37e1 ∷ 0x91b4f433 ∷ 0xb64dbbf7 ∷ 0x78e47825 ∷ 0xdfb2c740 ∷ 0x111b0492 ∷ 0x65b34299
    ∷ 0xab1a814b ∷ 0x0c4c3e2e ∷ 0xc2e5fdfc ∷ 0x7d2b3ec4 ∷ 0xb382fd16 ∷ 0x14d44273 ∷ 0xda7d81a1
    ∷ 0xaed5c7aa ∷ 0x607c0478 ∷ 0xc72abb1d ∷ 0x098378cf ∷ 0x2e7a370b ∷ 0xe0d3f4d9 ∷ 0x47854bbc
    ∷ 0x892c886e ∷ 0xfd84ce65 ∷ 0x332d0db7 ∷ 0x947bb2d2 ∷ 0x5ad27100 ∷ 0xdb892d5a ∷ 0x1520ee88
    ∷ 0xb27651ed ∷ 0x7cdf923f ∷ 0x0877d434 ∷ 0xc6de17e6 ∷ 0x6188a883 ∷ 0xaf216b51 ∷ 0x88d82495
    ∷ 0x4671e747 ∷ 0xe1275822 ∷ 0x2f8e9bf0 ∷ 0x5b26ddfb ∷ 0x958f1e29 ∷ 0x32d9a14c ∷ 0xfc70629e
    ∷ 0xc4c3e2eb ∷ 0x0a6a2139 ∷ 0xad3c9e5c ∷ 0x63955d8e ∷ 0x173d1b85 ∷ 0xd994d857 ∷ 0x7ec26732
    ∷ 0xb06ba4e0 ∷ 0x9792eb24 ∷ 0x593b28f6 ∷ 0xfe6d9793 ∷ 0x30c45441 ∷ 0x446c124a ∷ 0x8ac5d198
    ∷ 0x2d936efd ∷ 0xe33aad2f ∷ 0x6261f175 ∷ 0xacc832a7 ∷ 0x0b9e8dc2 ∷ 0xc5374e10 ∷ 0xb19f081b
    ∷ 0x7f36cbc9 ∷ 0xd86074ac ∷ 0x16c9b77e ∷ 0x3130f8ba ∷ 0xff993b68 ∷ 0x58cf840d ∷ 0x966647df
    ∷ 0xe2ce01d4 ∷ 0x2c67c206 ∷ 0x8b317d63 ∷ 0x4598beb1 ∷ []

-- One round of the first loop: the byte is applied, then the table is read at `crc & 0xFF`.
abbrev pub crc8_round : ℕ → ℕ → ℕ
crc8_round crc byte = get_or crc8_table (bit_and (bit_xor crc byte) 0xFF) 0

unfoldable pub crc8_loop : ℕ → List ℕ → ℕ
crc8_loop crc [] = crc
crc8_loop crc (byte ∷ bytes) = crc8_loop (crc8_round crc byte) bytes

unfoldable pub cal_crc_8bits : List ℕ → ℕ
unfolding crc8_loop
cal_crc_8bits bytes = crc8_loop 0 bytes

-- One round of the second loop, which takes the lowest byte first.
abbrev pub crc32_round : ℕ → ℕ → ℕ
crc32_round crc byte =
    bit_xor (crc / 2 ^ 8) (get_or crc32_table (bit_and (bit_xor crc byte) 0xFF) 0)

pub crc32_loop : ℕ → List ℕ → ℕ
crc32_loop crc [] = crc
crc32_loop crc (byte ∷ bytes) = crc32_loop (crc32_round crc byte) bytes

pub cal_crc_32bits : List ℕ → ℕ
unfolding crc32_loop
cal_crc_32bits bytes = bit_xor (crc32_loop 0 bytes) 0xFFFFFFFF
