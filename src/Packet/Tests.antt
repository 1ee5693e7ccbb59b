-- ===== src/Packet/Tests.antt =====
-- Runs of the header code, and its theorems at concrete inputs (crates/protocol/src/packet.rs).
use udpix.Base.{ℕ, ◌≡◌, refl, true, false, List, ◌∷◌, ◌++◌, some, length, drop, replicate, arith}
use udpix.Packet.{
  RudpHeader, IsHeader, header_size, new_data, header_bytes, write_to, read_from, is_data, is_nak,
}
use udpix.Packet.RoundTrip.{read_from-write_to}

-- The header of the unit test `header_round_trip`.
abbrev sample : RudpHeader
sample = record {
  session_id = 0xDEAD_BEEF;
  sequence_number = 42;
  timestamp_us = 1000000;
  flags = 4;
  payload_len = 1400;
  fec_group_id = 0;
  fec_index = 0;
  fec_group_size = 0;
}

abbrev wire : List ℕ
wire =
    0xEF ∷ 0xBE ∷ 0xAD ∷ 0xDE ∷ 42 ∷ replicate 7 0
    ++ (0x40 ∷ 0x42 ∷ 0x0f ∷ replicate 5 0)
    ++ (4 ∷ 0x78 ∷ 5 ∷ replicate 6 0)

sample_built : new_data 0xDEAD_BEEF 42 1000000 1400 ≡ sample
unfolding new_data
sample_built = refl

sample_kind : (is_data sample ≡ true) × (is_nak sample ≡ false)
unfolding is_data is_nak
sample_kind = (refl, refl)

sample_bytes : header_bytes sample ≡ wire
unfolding header_bytes
sample_bytes = refl

sample-IsHeader : IsHeader sample
sample-IsHeader = omega arith

read_from-write_to_example :
    (out : List ℕ) × (write_to sample (replicate 33 7) ≡ some out)
    × (read_from out ≡ some sample)
    × (length out ≡ 33)
    × (drop header_size out ≡ replicate 4 7)
read_from-write_to_example =
    read_from-write_to sample (replicate 33 7) sample-IsHeader (omega arith)
