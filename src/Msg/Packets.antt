-- ===== src/Msg/Packets.antt =====
-- The payload of a PacketOut (src/of/messages.hpp, `dropbox_pkt`): an Ethernet frame with a
-- broadcast of the Dropbox LAN protocol.
use hvbench.Base.{[], ◌∷◌, Text}

unfoldable pub dropbox_pkt : Text
dropbox_pkt =
    0xff ∷ 0xff ∷ 0xff ∷ 0xff ∷ 0xff ∷ 0xff ∷ 0x0a ∷ 0x00 ∷ 0x27 ∷ 0x00 ∷ 0x00 ∷ 0x08 ∷ 0x08 ∷ 0x00
    ∷ 0x45 ∷ 0x00 ∷ 0x00 ∷ 0x8d ∷ 0x79 ∷ 0xa4 ∷ 0x40 ∷ 0x00 ∷ 0x40 ∷ 0x11 ∷ 0xfa ∷ 0x6a ∷ 0xc0
    ∷ 0xa8 ∷ 0x22 ∷ 0x01 ∷ 0xc0 ∷ 0xa8 ∷ 0x22 ∷ 0xff ∷ 0x44 ∷ 0x5c ∷ 0x44 ∷ 0x5c ∷ 0x00 ∷ 0x79
    ∷ 0xef ∷ 0x58 ∷ 0x7b ∷ 0x22 ∷ 0x68 ∷ 0x6f ∷ 0x73 ∷ 0x74 ∷ 0x5f ∷ 0x69 ∷ 0x6e ∷ 0x74 ∷ 0x22
    ∷ 0x3a ∷ 0x20 ∷ 0x39 ∷ 0x32 ∷ 0x31 ∷ 0x38 ∷ 0x37 ∷ 0x30 ∷ 0x39 ∷ 0x36 ∷ 0x32 ∷ 0x2c ∷ 0x20
    ∷ 0x22 ∷ 0x76 ∷ 0x65 ∷ 0x72 ∷ 0x73 ∷ 0x69 ∷ 0x6f ∷ 0x6e ∷ 0x22 ∷ 0x3a ∷ 0x20 ∷ 0x5b ∷ 0x31
    ∷ 0x2c ∷ 0x20 ∷ 0x38 ∷ 0x5d ∷ 0x2c ∷ 0x20 ∷ 0x22 ∷ 0x64 ∷ 0x69 ∷ 0x73 ∷ 0x70 ∷ 0x6c ∷ 0x61
    ∷ 0x79 ∷ 0x6e ∷ 0x61 ∷ 0x6d ∷ 0x65 ∷ 0x22 ∷ 0x3a ∷ 0x20 ∷ 0x22 ∷ 0x22 ∷ 0x2c ∷ 0x20 ∷ 0x22
    ∷ 0x70 ∷ 0x6f ∷ 0x72 ∷ 0x74 ∷ 0x22 ∷ 0x3a ∷ 0x20 ∷ 0x31 ∷ 0x37 ∷ 0x35 ∷ 0x30 ∷ 0x31 ∷ 0x2c
    ∷ 0x20 ∷ 0x22 ∷ 0x6e ∷ 0x61 ∷ 0x6d ∷ 0x65 ∷ 0x73 ∷ 0x70 ∷ 0x61 ∷ 0x63 ∷ 0x65 ∷ 0x73 ∷ 0x22
    ∷ 0x3a ∷ 0x20 ∷ 0x5b ∷ 0x37 ∷ 0x33 ∷ 0x35 ∷ 0x38 ∷ 0x31 ∷ 0x30 ∷ 0x37 ∷ 0x34 ∷ 0x2c ∷ 0x20
    ∷ 0x35 ∷ 0x35 ∷ 0x31 ∷ 0x39 ∷ 0x33 ∷ 0x37 ∷ 0x34 ∷ 0x38 ∷ 0x37 ∷ 0x5d ∷ 0x7d ∷ []
