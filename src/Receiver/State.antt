-- ===== src/Receiver/State.antt =====
-- The receiver's state and handlers (crates/protocol/src/receiver.rs). What goes into a channel or
-- onto the socket is an output of the handler; the code ignores whether that fails. The clock is an
-- argument. `none` around a result is a panic. A batch is the list of the received datagrams, which
-- the code copies out of the slots of its buffer pool one by one.
use udpix.Base.{
  ℕ, ◌+◌, Bool, true, false, List, [], ◌∷◌, ◌++◌, Option, none, some, ltb, ◌==◌, if◌then◌else◌,
  length, slice, replicate, ◌>>=◌,
}
use udpix.Base.Bytes.{u16, u64}
use udpix.Base.F64.{F64}
use udpix.Packet.{
  RudpHeader, header_size, new_heartbeat_sack, new_pong, new_ping, is_data, is_ping, is_pong,
  is_fin, write_to, read_from,
}
use udpix.Session.{SessionStats, handle_pong}
use udpix.Sack.Payload.{SackPayload, wire_size, serialise}
use udpix.Sack.Manager.{SackManager, new, on_packet_received, tick}

pub record Receiver (Float : Type 0) : Type 0 where
  pub session_id : ℕ
  pub sack_mgr : SackManager Float
  pub stats : SessionStats
  pub data_seen : Bool

pub data Output : Type 0 where
  to_application : List ℕ → Output
  to_sender : SackPayload → Output
  to_wire : List ℕ → Output

-- `send_ping` of crates/protocol/src/sender.rs: the datagram that it sends.
unfoldable pub ping_datagram : ℕ → ℕ → ℕ → Option (List ℕ)
ping_datagram session_id seq ts = write_to (new_ping session_id seq ts) (replicate header_size 0)

unfoldable pub sack_datagram : ℕ → ℕ → SackPayload → Option (List ℕ)
sack_datagram session_id now_us sack = do
  buf ←
      write_to (new_heartbeat_sack session_id 0 now_us (u16 (wire_size sack)))
        (replicate header_size 0)
  serialise sack buf

module _ (f : F64) where
  open f use {Float}

  unfoldable pub new_receiver : ℕ → ℕ → SessionStats → Receiver Float
  new_receiver session_id initial_seq stats = record {
    session_id = session_id;
    sack_mgr = new f initial_seq;
    stats = stats;
    data_seen = false;
  }

  -- The new interval, if it changed.
  unfoldable pub send_heartbeat_sack :
      Receiver Float → ℕ → Option (Receiver Float × Option ℕ × List Output)
  send_heartbeat_sack r now_us =
      let mgr = tick f r.sack_mgr in
      let old_interval = mgr.heartbeat_interval in
      do
        buf ← sack_datagram r.session_id now_us mgr.payload
        let new_interval = mgr.heartbeat_interval
        some (
          record r { sack_mgr = mgr },
          if new_interval == old_interval then none else some new_interval,
          to_sender mgr.payload ∷ (if r.data_seen then to_wire buf ∷ [] else []),
        )

  -- The state, what the function returns, and the outputs.
  abbrev pub Handled : Type 0
  Handled = Option (Receiver Float × Option Bool × List Output)

  unfoldable pub handle_data : Receiver Float → RudpHeader → List ℕ → Handled
  handle_data r hdr buf =
      let payload_len = hdr.payload_len in
      let seen = record r { data_seen = true } in
      if ltb (length buf) (header_size + payload_len)
      then some (seen, none, [])
      else some (
        record seen {
          sack_mgr = on_packet_received f r.sack_mgr hdr.sequence_number;
          stats = record r.stats {
            packets_acked = u64 (r.stats.packets_acked + 1);
            bytes_acked = u64 (r.stats.bytes_acked + payload_len);
          };
        },
        some false,
        to_application (slice buf header_size payload_len) ∷ [],
      )

  unfoldable pub handle_ping : Receiver Float → RudpHeader → Handled
  handle_ping r hdr = do
    out ←
        write_to (new_pong r.session_id hdr.sequence_number hdr.timestamp_us)
          (replicate header_size 0)
    some (r, some false, to_wire out ∷ [])

  unfoldable pub handle_fin : Receiver Float → ℕ → Handled
  handle_fin r now_us = do out ← send_heartbeat_sack r now_us; some (out.0, some true, out.2)

  unfoldable pub dispatch : Receiver Float → RudpHeader → List ℕ → ℕ → Handled
  dispatch r hdr buf now_us =
      if is_data hdr
      then handle_data r hdr buf
      else if is_ping hdr
      then handle_ping r hdr
      else if is_pong hdr
      then some (record r { stats = handle_pong r.stats now_us hdr.timestamp_us }, some false, [])
      else if is_fin hdr
      then handle_fin r now_us
      else some (r, some false, [])

  abbrev pub in_session : Receiver Float → List ℕ → ℕ → Option RudpHeader → Handled
  in_session r buf now_us none = some (r, none, [])
  in_session r buf now_us (some hdr) =
      if hdr.session_id == r.session_id then dispatch r hdr buf now_us else some (r, none, [])

  unfoldable pub process_datagram : Receiver Float → List ℕ → ℕ → Handled
  process_datagram r buf now_us = in_session r buf now_us (read_from buf)

  abbrev pub is_end : Option Bool → Bool
  is_end (some fin) = fin
  is_end none = false

  -- Whether a FIN ended the batch; the datagrams behind it are dropped.
  unfoldable pub recv_batch :
      List (List ℕ) → Receiver Float → ℕ → Option (Receiver Float × Bool × List Output)
  recv_batch [] r now_us = some (r, false, [])
  recv_batch (buf ∷ bufs) r now_us = process_datagram r buf now_us >>= λ out.
      if is_end out.1
      then some (out.0, true, out.2)
      else (recv_batch bufs out.0 now_us >>= λ rest. some (rest.0, rest.1, out.2 ++ rest.2))
