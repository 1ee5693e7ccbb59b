-- ===== src/Packet.antt =====
-- crates/protocol/src/packet.rs: the 29-byte RUDP header.
-- A byte buffer is a list of numbers. The packed struct is copied to and from memory as it lies
-- there, so the layout is that of a little-endian host, as the comments of the file say.
pub mod Flags
pub mod RoundTrip
mod Tests
use Flags
use udpix.Base.{
  ℕ, ◌+◌, ◌≤◌, ◌<◌, ◌^◌, bit_and, Bool, not, Option, none, some, List, ◌++◌, ◌==◌, leb, ltb,
  if◌then◌else◌, length, drop, slice, get_or,
}
use udpix.Base.Bytes.{to_le_bytes, from_le_bytes}

pub record RudpHeader : Type 0 where
  pub session_id : ℕ
  pub sequence_number : ℕ
  pub timestamp_us : ℕ
  pub flags : ℕ
  pub payload_len : ℕ
  pub fec_group_id : ℕ
  pub fec_index : ℕ
  pub fec_group_size : ℕ

-- `RudpHeader::SIZE`.
abbrev pub header_size : ℕ
header_size = 29

-- The fields fit their machine types.
pub record IsHeader (h : RudpHeader) : Type 0 where
  pub session_id_fits : h.session_id < 2 ^ 32
  pub sequence_number_fits : h.sequence_number < 2 ^ 64
  pub timestamp_us_fits : h.timestamp_us < 2 ^ 64
  pub flags_fits : h.flags < 2 ^ 8
  pub payload_len_fits : h.payload_len < 2 ^ 16
  pub fec_group_id_fits : h.fec_group_id < 2 ^ 32
  pub fec_index_fits : h.fec_index < 2 ^ 8
  pub fec_group_size_fits : h.fec_group_size < 2 ^ 8

abbrev plain : ℕ → ℕ → ℕ → ℕ → ℕ → RudpHeader
plain session_id seq ts_us flags payload_len = record {
  session_id = session_id;
  sequence_number = seq;
  timestamp_us = ts_us;
  flags = flags;
  payload_len = payload_len;
  fec_group_id = 0;
  fec_index = 0;
  fec_group_size = 0;
}

unfoldable pub new_data : ℕ → ℕ → ℕ → ℕ → RudpHeader
new_data session_id seq ts_us payload_len = plain session_id seq ts_us Flags.data_flag payload_len

unfoldable pub new_heartbeat_sack : ℕ → ℕ → ℕ → ℕ → RudpHeader
new_heartbeat_sack session_id seq ts_us payload_len =
    plain session_id seq ts_us Flags.nak payload_len

unfoldable pub new_ping : ℕ → ℕ → ℕ → RudpHeader
new_ping session_id seq ts_us = plain session_id seq ts_us Flags.ping 0

unfoldable pub new_pong : ℕ → ℕ → ℕ → RudpHeader
new_pong session_id seq sender_ts_us = plain session_id seq sender_ts_us Flags.pong 0

unfoldable pub new_syn : ℕ → ℕ → RudpHeader
new_syn session_id ts_us = plain session_id 0 ts_us Flags.syn 0

unfoldable pub new_fin : ℕ → ℕ → ℕ → RudpHeader
new_fin session_id seq ts_us = plain session_id seq ts_us Flags.fin 0

abbrev has_flag : RudpHeader → ℕ → Bool
has_flag h mask = not (bit_and h.flags mask == 0)

unfoldable pub is_syn : RudpHeader → Bool
is_syn h = has_flag h Flags.syn

unfoldable pub is_fin : RudpHeader → Bool
is_fin h = has_flag h Flags.fin

unfoldable pub is_data : RudpHeader → Bool
is_data h = has_flag h Flags.data_flag

unfoldable pub is_ack : RudpHeader → Bool
is_ack h = has_flag h Flags.ack

unfoldable pub is_nak : RudpHeader → Bool
is_nak h = has_flag h Flags.nak

unfoldable pub is_ping : RudpHeader → Bool
is_ping h = has_flag h Flags.ping

unfoldable pub is_pong : RudpHeader → Bool
is_pong h = has_flag h Flags.pong

unfoldable pub is_fec : RudpHeader → Bool
is_fec h = has_flag h Flags.fec

-- The struct as it lies in memory.
unfoldable pub header_bytes : RudpHeader → List ℕ
header_bytes h =
    to_le_bytes 4 h.session_id
    ++ (to_le_bytes 8 h.sequence_number
        ++ (to_le_bytes 8 h.timestamp_us
            ++ (to_le_bytes 1 h.flags
                ++ (to_le_bytes 2 h.payload_len
                    ++ (to_le_bytes 4 h.fec_group_id
                        ++ (to_le_bytes 1 h.fec_index ++ to_le_bytes 1 h.fec_group_size))))))

-- `none` is the panic of the assertion; the rest of the buffer stays.
unfoldable pub write_to : RudpHeader → List ℕ → Option (List ℕ)
unfolding header_bytes
write_to h buf =
    if leb header_size (length buf) then some (header_bytes h ++ drop header_size buf) else none

unfoldable pub read_from : List ℕ → Option RudpHeader
read_from buf =
    if ltb (length buf) header_size
    then none
    else some (record {
      session_id = from_le_bytes (slice buf 0 4);
      sequence_number = from_le_bytes (slice buf 4 8);
      timestamp_us = from_le_bytes (slice buf 12 8);
      flags = get_or buf 20 0;
      payload_len = from_le_bytes (slice buf 21 2);
      fec_group_id = from_le_bytes (slice buf 23 4);
      fec_index = get_or buf 27 0;
      fec_group_size = get_or buf 28 0;
    })
