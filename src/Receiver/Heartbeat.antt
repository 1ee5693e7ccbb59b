-- ===== src/Receiver/Heartbeat.antt =====
-- What the heartbeat sends (crates/protocol/src/receiver.rs).
use udpix.Base.{
  ℕ, ◌^◌, ◌<◌, ◌≡◌, refl, sym, ap, ◌∙◌, List, [], ◌∷◌, ◌++◌, none, some, if◌then◌else◌, drop,
  drop-append_left, arith, eq→==, append-nil,
}
use udpix.Base.Bytes.{u16}
use udpix.Base.F64.{F64}
use udpix.Packet.{IsHeader, header_size, header_bytes, new_heartbeat_sack, read_from}
use udpix.Packet.RoundTrip.{write_to_blank, read_from-header_bytes, length-header_bytes}
use udpix.Sack.Payload.{SackPayload, IsPayload, wire_size, deserialise, parsed}
use udpix.Sack.Wire.{deserialise-serialise}
use udpix.Sack.Manager.{tick}
use udpix.Receiver.State.{Receiver, to_sender, to_wire, sack_datagram, send_heartbeat_sack}

heartbeat-IsHeader :
    (session_id now_us n : ℕ)
    → session_id < 2 ^ 32
    → now_us < 2 ^ 64
    → n < 2 ^ 16
    → IsHeader (new_heartbeat_sack session_id 0 now_us n)
unfolding new_heartbeat_sack
heartbeat-IsHeader session_id now_us n a b c = record {
  session_id_fits = a;
  sequence_number_fits = omega arith;
  timestamp_us_fits = b;
  flags_fits = omega arith;
  payload_len_fits = c;
  fec_group_id_fits = omega arith;
  fec_index_fits = omega arith;
  fec_group_size_fits = omega arith;
}

wire_size-lt : (p : SackPayload) → IsPayload p → wire_size p < 2 ^ 16
unfolding wire_size
wire_size-lt p v = omega (arith, v.count_fits)

abbrev pub IsSackDatagram : ℕ → ℕ → SackPayload → List ℕ → Type 0
IsSackDatagram session_id now_us sack buf =
    (read_from buf ≡ some (new_heartbeat_sack session_id 0 now_us (wire_size sack)))
    × (deserialise (drop header_size buf) ≡ parsed sack (wire_size sack))

pub sack_datagram_lem :
    (session_id now_us : ℕ) (sack : SackPayload)
    → session_id < 2 ^ 32
    → now_us < 2 ^ 64
    → IsPayload sack
    → (buf : List ℕ) × (sack_datagram session_id now_us sack ≡ some buf)
      × IsSackDatagram session_id now_us sack buf
unfolding sack_datagram
sack_datagram_lem session_id now_us sack a b v =
    let n = wire_size sack in
    let small = wire_size-lt sack v in
    let fits : u16 n ≡ n = omega arith in
    let h = new_heartbeat_sack session_id 0 now_us n in
    let head = header_bytes h ++ [] in
    let (wire, written, size, back) = deserialise-serialise sack head [] v in
    let split : head ++ wire ≡ header_bytes h ++ wire =
      ap (λ (bs : List ℕ). bs ++ wire) (append-nil (header_bytes h)) in
    let rest : drop header_size (header_bytes h ++ wire) ≡ wire =
      drop-append_left (header_bytes h) wire header_size (sym (length-header_bytes h)) in
    let ends : wire ++ [] ≡ wire = append-nil wire in
    (
      header_bytes h ++ wire,
      rw (fits, write_to_blank h 0) (written ∙ ap some split),
      (
        read_from-header_bytes h wire (heartbeat-IsHeader session_id now_us n a b small),
        ap deserialise (rest ∙ sym ends) ∙ back,
      ),
    )

module _ (f : F64) where
  open f use {Float}

  -- The heartbeat hands the bitmap to the sender, and puts it onto the wire once data has come; it
  -- parses there as the heartbeat header with the bitmap behind it. The function never reports a
  -- new interval: the old one is read after the tick that sets it. It holds where the bitmap is
  -- well formed and the session and the timestamp fit their fields.
  pub send_heartbeat_sack_lem :
      (r : Receiver Float) (now_us : ℕ)
      → r.session_id < 2 ^ 32
      → now_us < 2 ^ 64
      → IsPayload r.sack_mgr.payload
      → let sack = r.sack_mgr.payload in
        (buf : List ℕ) × (send_heartbeat_sack f r now_us
          ≡ some (
            record r { sack_mgr = tick f r.sack_mgr },
            none,
            to_sender sack ∷ (if r.data_seen then to_wire buf ∷ [] else []),
          ))
        × IsSackDatagram r.session_id now_us sack buf
  unfolding send_heartbeat_sack tick
  send_heartbeat_sack_lem r now_us a b v =
      let (buf, built, is) = sack_datagram_lem r.session_id now_us r.sack_mgr.payload a b v in
      let interval = (tick f r.sack_mgr).heartbeat_interval in
      (buf, rw (built, eq→== interval interval refl) refl, is)
