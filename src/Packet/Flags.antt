-- ===== src/Packet/Flags.antt =====
-- `mod flags` of crates/protocol/src/packet.rs: the bits of the flag byte.
use udpix.Base.{ℕ}

abbrev pub syn : ℕ
syn = 0b0000_0001

abbrev pub fin : ℕ
fin = 0b0000_0010

abbrev pub data_flag : ℕ
data_flag = 0b0000_0100

abbrev pub ack : ℕ
ack = 0b0000_1000

abbrev pub nak : ℕ
nak = 0b0001_0000

abbrev pub ping : ℕ
ping = 0b0010_0000

abbrev pub pong : ℕ
pong = 0b0100_0000

abbrev pub fec : ℕ
fec = 0b1000_0000
