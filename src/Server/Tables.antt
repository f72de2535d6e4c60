-- ===== src/Server/Tables.antt =====
-- The byte substitution tables of OrderSyncServer/src/proxy/EncryptDecrypt.cpp.
use order_sync.Base.{ℕ, List, [], ◌∷◌}

unfoldable pub send_byte_map : List ℕ
send_byte_map =
    0x70 ∷ 0x2f ∷ 0x40 ∷ 0x5f ∷ 0x44 ∷ 0x8e ∷ 0x6e ∷ 0x45 ∷ 0x7e ∷ 0xab ∷ 0x2c ∷ 0x1f ∷ 0xb4 ∷ 0xac
    ∷ 0x9d ∷ 0x91 ∷ 0x0d ∷ 0x36 ∷ 0x9b ∷ 0x0b ∷ 0xd4 ∷ 0xc4 ∷ 0x39 ∷ 0x74 ∷ 0xbf ∷ 0x23 ∷ 0x16
    ∷ 0x14 ∷ 0x06 ∷ 0xeb ∷ 0x04 ∷ 0x3e ∷ 0x12 ∷ 0x5c ∷ 0x8b ∷ 0xbc ∷ 0x61 ∷ 0x63 ∷ 0xf6 ∷ 0xa5
    ∷ 0xe1 ∷ 0x65 ∷ 0xd8 ∷ 0xf5 ∷ 0x5a ∷ 0x07 ∷ 0xf0 ∷ 0x13 ∷ 0xf2 ∷ 0x20 ∷ 0x6b ∷ 0x4a ∷ 0x24
    ∷ 0x59 ∷ 0x89 ∷ 0x64 ∷ 0xd7 ∷ 0x42 ∷ 0x6a ∷ 0x5e ∷ 0x3d ∷ 0x0a ∷ 0x77 ∷ 0xe0 ∷ 0x80 ∷ 0x27
    ∷ 0xb8 ∷ 0xc5 ∷ 0x8c ∷ 0x0e ∷ 0xfa ∷ 0x8a ∷ 0xd5 ∷ 0x29 ∷ 0x56 ∷ 0x57 ∷ 0x6c ∷ 0x53 ∷ 0x67
    ∷ 0x41 ∷ 0xe8 ∷ 0x00 ∷ 0x1a ∷ 0xce ∷ 0x86 ∷ 0x83 ∷ 0xb0 ∷ 0x22 ∷ 0x28 ∷ 0x4d ∷ 0x3f ∷ 0x26
    ∷ 0x46 ∷ 0x4f ∷ 0x6f ∷ 0x2b ∷ 0x72 ∷ 0x3a ∷ 0xf1 ∷ 0x8d ∷ 0x97 ∷ 0x95 ∷ 0x49 ∷ 0x84 ∷ 0xe5
    ∷ 0xe3 ∷ 0x79 ∷ 0x8f ∷ 0x51 ∷ 0x10 ∷ 0xa8 ∷ 0x82 ∷ 0xc6 ∷ 0xdd ∷ 0xff ∷ 0xfc ∷ 0xe4 ∷ 0xcf
    ∷ 0xb3 ∷ 0x09 ∷ 0x5d ∷ 0xea ∷ 0x9c ∷ 0x34 ∷ 0xf9 ∷ 0x17 ∷ 0x9f ∷ 0xda ∷ 0x87 ∷ 0xf8 ∷ 0x15
    ∷ 0x05 ∷ 0x3c ∷ 0xd3 ∷ 0xa4 ∷ 0x85 ∷ 0x2e ∷ 0xfb ∷ 0xee ∷ 0x47 ∷ 0x3b ∷ 0xef ∷ 0x37 ∷ 0x7f
    ∷ 0x93 ∷ 0xaf ∷ 0x69 ∷ 0x0c ∷ 0x71 ∷ 0x31 ∷ 0xde ∷ 0x21 ∷ 0x75 ∷ 0xa0 ∷ 0xaa ∷ 0xba ∷ 0x7c
    ∷ 0x38 ∷ 0x02 ∷ 0xb7 ∷ 0x81 ∷ 0x01 ∷ 0xfd ∷ 0xe7 ∷ 0x1d ∷ 0xcc ∷ 0xcd ∷ 0xbd ∷ 0x1b ∷ 0x7a
    ∷ 0x2a ∷ 0xad ∷ 0x66 ∷ 0xbe ∷ 0x55 ∷ 0x33 ∷ 0x03 ∷ 0xdb ∷ 0x88 ∷ 0xb2 ∷ 0x1e ∷ 0x4e ∷ 0xb9
    ∷ 0xe6 ∷ 0xc2 ∷ 0xf7 ∷ 0xcb ∷ 0x7d ∷ 0xc9 ∷ 0x62 ∷ 0xc3 ∷ 0xa6 ∷ 0xdc ∷ 0xa7 ∷ 0x50 ∷ 0xb5
    ∷ 0x4b ∷ 0x94 ∷ 0xc0 ∷ 0x92 ∷ 0x4c ∷ 0x11 ∷ 0x5b ∷ 0x78 ∷ 0xd9 ∷ 0xb1 ∷ 0xed ∷ 0x19 ∷ 0xe9
    ∷ 0xa1 ∷ 0x1c ∷ 0xb6 ∷ 0x32 ∷ 0x99 ∷ 0xa3 ∷ 0x76 ∷ 0x9e ∷ 0x7b ∷ 0x6d ∷ 0x9a ∷ 0x30 ∷ 0xd6
    ∷ 0xa9 ∷ 0x25 ∷ 0xc7 ∷ 0xae ∷ 0x96 ∷ 0x35 ∷ 0xd0 ∷ 0xbb ∷ 0xd2 ∷ 0xc8 ∷ 0xa2 ∷ 0x08 ∷ 0xf3
    ∷ 0xd1 ∷ 0x73 ∷ 0xf4 ∷ 0x48 ∷ 0x2d ∷ 0x90 ∷ 0xca ∷ 0xe2 ∷ 0x58 ∷ 0xc1 ∷ 0x18 ∷ 0x52 ∷ 0xfe
    ∷ 0xdf ∷ 0x68 ∷ 0x98 ∷ 0x54 ∷ 0xec ∷ 0x60 ∷ 0x43 ∷ 0x0f ∷ []

unfoldable pub recv_byte_map : List ℕ
recv_byte_map =
    0x51 ∷ 0xa1 ∷ 0x9e ∷ 0xb0 ∷ 0x1e ∷ 0x83 ∷ 0x1c ∷ 0x2d ∷ 0xe9 ∷ 0x77 ∷ 0x3d ∷ 0x13 ∷ 0x93 ∷ 0x10
    ∷ 0x45 ∷ 0xff ∷ 0x6d ∷ 0xc9 ∷ 0x20 ∷ 0x2f ∷ 0x1b ∷ 0x82 ∷ 0x1a ∷ 0x7d ∷ 0xf5 ∷ 0xcf ∷ 0x52
    ∷ 0xa8 ∷ 0xd2 ∷ 0xa4 ∷ 0xb4 ∷ 0x0b ∷ 0x31 ∷ 0x97 ∷ 0x57 ∷ 0x19 ∷ 0x34 ∷ 0xdf ∷ 0x5b ∷ 0x41
    ∷ 0x58 ∷ 0x49 ∷ 0xaa ∷ 0x5f ∷ 0x0a ∷ 0xef ∷ 0x88 ∷ 0x01 ∷ 0xdc ∷ 0x95 ∷ 0xd4 ∷ 0xaf ∷ 0x7b
    ∷ 0xe3 ∷ 0x11 ∷ 0x8e ∷ 0x9d ∷ 0x16 ∷ 0x61 ∷ 0x8c ∷ 0x84 ∷ 0x3c ∷ 0x1f ∷ 0x5a ∷ 0x02 ∷ 0x4f
    ∷ 0x39 ∷ 0xfe ∷ 0x04 ∷ 0x07 ∷ 0x5c ∷ 0x8b ∷ 0xee ∷ 0x66 ∷ 0x33 ∷ 0xc4 ∷ 0xc8 ∷ 0x59 ∷ 0xb5
    ∷ 0x5d ∷ 0xc2 ∷ 0x6c ∷ 0xf6 ∷ 0x4d ∷ 0xfb ∷ 0xae ∷ 0x4a ∷ 0x4b ∷ 0xf3 ∷ 0x35 ∷ 0x2c ∷ 0xca
    ∷ 0x21 ∷ 0x78 ∷ 0x3b ∷ 0x03 ∷ 0xfd ∷ 0x24 ∷ 0xbd ∷ 0x25 ∷ 0x37 ∷ 0x29 ∷ 0xac ∷ 0x4e ∷ 0xf9
    ∷ 0x92 ∷ 0x3a ∷ 0x32 ∷ 0x4c ∷ 0xda ∷ 0x06 ∷ 0x5e ∷ 0x00 ∷ 0x94 ∷ 0x60 ∷ 0xec ∷ 0x17 ∷ 0x98
    ∷ 0xd7 ∷ 0x3e ∷ 0xcb ∷ 0x6a ∷ 0xa9 ∷ 0xd9 ∷ 0x9c ∷ 0xbb ∷ 0x08 ∷ 0x8f ∷ 0x40 ∷ 0xa0 ∷ 0x6f
    ∷ 0x55 ∷ 0x67 ∷ 0x87 ∷ 0x54 ∷ 0x80 ∷ 0xb2 ∷ 0x36 ∷ 0x47 ∷ 0x22 ∷ 0x44 ∷ 0x63 ∷ 0x05 ∷ 0x6b
    ∷ 0xf0 ∷ 0x0f ∷ 0xc7 ∷ 0x90 ∷ 0xc5 ∷ 0x65 ∷ 0xe2 ∷ 0x64 ∷ 0xfa ∷ 0xd5 ∷ 0xdb ∷ 0x12 ∷ 0x7a
    ∷ 0x0e ∷ 0xd8 ∷ 0x7e ∷ 0x99 ∷ 0xd1 ∷ 0xe8 ∷ 0xd6 ∷ 0x86 ∷ 0x27 ∷ 0xbf ∷ 0xc1 ∷ 0x6e ∷ 0xde
    ∷ 0x9a ∷ 0x09 ∷ 0x0d ∷ 0xab ∷ 0xe1 ∷ 0x91 ∷ 0x56 ∷ 0xcd ∷ 0xb3 ∷ 0x76 ∷ 0x0c ∷ 0xc3 ∷ 0xd3
    ∷ 0x9f ∷ 0x42 ∷ 0xb6 ∷ 0x9b ∷ 0xe5 ∷ 0x23 ∷ 0xa7 ∷ 0xad ∷ 0x18 ∷ 0xc6 ∷ 0xf4 ∷ 0xb8 ∷ 0xbe
    ∷ 0x15 ∷ 0x43 ∷ 0x70 ∷ 0xe0 ∷ 0xe7 ∷ 0xbc ∷ 0xf1 ∷ 0xba ∷ 0xa5 ∷ 0xa6 ∷ 0x53 ∷ 0x75 ∷ 0xe4
    ∷ 0xeb ∷ 0xe6 ∷ 0x85 ∷ 0x14 ∷ 0x48 ∷ 0xdd ∷ 0x38 ∷ 0x2a ∷ 0xcc ∷ 0x7f ∷ 0xb1 ∷ 0xc0 ∷ 0x71
    ∷ 0x96 ∷ 0xf8 ∷ 0x3f ∷ 0x28 ∷ 0xf2 ∷ 0x69 ∷ 0x74 ∷ 0x68 ∷ 0xb7 ∷ 0xa3 ∷ 0x50 ∷ 0xd0 ∷ 0x79
    ∷ 0x1d ∷ 0xfc ∷ 0xce ∷ 0x8a ∷ 0x8d ∷ 0x2e ∷ 0x62 ∷ 0x30 ∷ 0xea ∷ 0xed ∷ 0x2b ∷ 0x26 ∷ 0xb9
    ∷ 0x81 ∷ 0x7c ∷ 0x46 ∷ 0x89 ∷ 0x73 ∷ 0xa2 ∷ 0xf7 ∷ 0x72 ∷ []
