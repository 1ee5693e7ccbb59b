-- ===== src/Receiver/Probe.antt =====
-- RTT probes: `send_ping` of crates/protocol/src/sender.rs, answered and measured by
-- crates/protocol/src/receiver.rs.
use udpix.Base.{
  ℕ, ◌-◌, ◌^◌, ◌≤◌, ◌<◌, ◌≡◌, refl, sym, true, false, List, [], ◌∷◌, some, replicate, arith, eq→==,
  leb,
}
use udpix.Base.F64.{F64}
use udpix.Packet.{IsHeader, header_size, new_ping, new_pong, is_data, is_ping, is_pong}
use udpix.Packet.RoundTrip.{read_from-write_to}
use udpix.Session.{update_rtt, handle_pong}
use udpix.Receiver.State.{Receiver, to_wire, ping_datagram, process_datagram, dispatch, handle_ping}

new_ping-IsHeader :
    (id seq ts : ℕ) → id < 2 ^ 32 → seq < 2 ^ 64 → ts < 2 ^ 64 → IsHeader (new_ping id seq ts)
unfolding new_ping
new_ping-IsHeader id seq ts a b c = record {
  session_id_fits = a;
  sequence_number_fits = b;
  timestamp_us_fits = c;
  flags_fits = omega arith;
  payload_len_fits = omega arith;
  fec_group_id_fits = omega arith;
  fec_index_fits = omega arith;
  fec_group_size_fits = omega arith;
}

new_pong-IsHeader :
    (id seq ts : ℕ) → id < 2 ^ 32 → seq < 2 ^ 64 → ts < 2 ^ 64 → IsHeader (new_pong id seq ts)
unfolding new_pong
new_pong-IsHeader id seq ts a b c = record {
  session_id_fits = a;
  sequence_number_fits = b;
  timestamp_us_fits = c;
  flags_fits = omega arith;
  payload_len_fits = omega arith;
  fec_group_id_fits = omega arith;
  fec_index_fits = omega arith;
  fec_group_size_fits = omega arith;
}

module _ (f : F64) where
  open f use {Float}

  -- A ping sent at one time is answered by one datagram and nothing else; the end that sent the
  -- ping, when it takes this answer no earlier, records the time between as a round trip. It holds
  -- for two ends of one session, and for a sequence number and times that fit 64 bits.
  pub ping-process_datagram :
      (peer here : Receiver Float) (seq sent at_peer now : ℕ)
      → here.session_id < 2 ^ 32
      → peer.session_id ≡ here.session_id
      → seq < 2 ^ 64
      → sent ≤ now
      → now < 2 ^ 64
      → (probe : List ℕ) × (answer : List ℕ) × (ping_datagram here.session_id seq sent ≡ some probe)
        × (process_datagram f peer probe at_peer ≡ some (peer, some false, to_wire answer ∷ []))
        × (process_datagram f here answer now
            ≡ some (record here { stats = update_rtt here.stats (now - sent) }, some false, []))
  unfolding ping_datagram process_datagram dispatch handle_ping handle_pong new_ping new_pong
      is_data is_ping is_pong
  ping-process_datagram peer here seq sent at_peer now id same b le c =
      let small : sent < 2 ^ 64 = omega arith in
      let early : leb sent now ≡ true = ground arith in
      let peer_id : peer.session_id < 2 ^ 32 = omega arith in
      let (probe, made, probe_read, _, _) =
        read_from-write_to (new_ping here.session_id seq sent) (replicate header_size 0)
          (new_ping-IsHeader here.session_id seq sent id b small) (omega arith) in
      let (answer, replied, answer_read, _, _) =
        read_from-write_to (new_pong peer.session_id seq sent) (replicate header_size 0)
          (new_pong-IsHeader peer.session_id seq sent peer_id b small) (omega arith) in
      (
        probe,
        answer,
        made,
        rw (probe_read, eq→== here.session_id peer.session_id (sym same), replied) refl,
        rw (answer_read, eq→== peer.session_id here.session_id same, early) refl,
      )
