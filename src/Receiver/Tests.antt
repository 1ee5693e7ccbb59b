-- ===== src/Receiver/Tests.antt =====
-- The theorems on the receiver at concrete inputs.
use udpix.Base.{
  ℕ, ◌<◌, ◌≡◌, ◌≢◌, refl, Bool, true, false, List, [], ◌∷◌, ◌++◌, Option, none, some, length, arith,
  map, All,
}
use mathlib.Core.List.{Memᴰ, Permᴰ}
use udpix.Base.F64.{fixed}
use udpix.Packet.{RudpHeader, header_size, read_from, header_bytes, new_fin}
use udpix.Session.{new_stats}
use udpix.Sack.Advance.{starting_at-IsPayload}
use udpix.Sack.Manager.{new}
use udpix.Sender.State.{Sender, InFlightEntry, InFlight, new_sender}
use udpix.Sender.Chunks.{chunks, chunks_fuel, concat}
use udpix.Sender.Enqueue.{enqueue_data}
use udpix.Receiver.State.{Receiver, Output, new_receiver, process_datagram, recv_batch}
use udpix.Receiver.Dispatch.{IsReceiver, EndsSession, process_datagram_lem}
use udpix.Receiver.Loop.{ReceiverEvent, heartbeat_tick, readable, start_receiver}
use udpix.Receiver.Runs.{Ran, run_receiver_lem}
use udpix.Receiver.Transfer.{wire_of, applied, body, transfer_lem}

abbrev listening : Receiver ℕ
listening = new_receiver fixed 7 0 new_stats

listening-IsReceiver : IsReceiver fixed listening
unfolding new_receiver new
listening-IsReceiver = record {
  session_fits = omega arith;
  payload_fits = starting_at-IsPayload 0 (omega arith);
}

abbrev fin_packet : List ℕ
fin_packet = header_bytes (new_fin 7 3 55)

process_datagram_lem_example :
    (s : Receiver ℕ) × (res : Option Bool) × (outs : List Output) × (process_datagram fixed
        listening fin_packet 99
      ≡ some (s, res, outs))
    × IsReceiver fixed s
    × (s.session_id ≡ listening.session_id)
    × (length fin_packet < header_size → (s ≡ listening) × (outs ≡ []))
    × ((hdr : RudpHeader)
        → read_from fin_packet ≡ some hdr
        → hdr.session_id ≢ listening.session_id
        → (s ≡ listening) × (res ≡ none) × (outs ≡ []))
    × (res ≡ some true → EndsSession listening.session_id fin_packet)
process_datagram_lem_example =
    process_datagram_lem fixed listening fin_packet 99 listening-IsReceiver (omega arith)

abbrev idle : Sender ℕ
idle = new_sender fixed 0 7

abbrev small_payload : List ℕ
small_payload = 1 ∷ 2 ∷ 3 ∷ []

transfer_lem_example :
    (t : Sender ℕ) × (m : InFlight) × (enqueue_data (λ k. 0) (λ k. 17) idle small_payload ≡ some t)
    × (t.in_flight ≡ idle.in_flight ++ m)
    × (concat (map body m) ≡ small_payload)
    × ((arrived : InFlight)
        → All (λ (e : ℕ × InFlightEntry). Memᴰ e m) arrived
        → (q : Receiver ℕ) × (outs : List Output) × (recv_batch fixed (wire_of arrived) listening 99
            ≡ some (q, false, outs))
          × (applied outs ≡ map body arrived)
          × (Permᴰ m arrived → Permᴰ (chunks small_payload) (applied outs)))
unfolding new_sender new_receiver chunks chunks_fuel
transfer_lem_example =
    transfer_lem fixed (λ k. 0) (λ k. 17) idle listening small_payload 99 (omega arith)
      (λ k. omega arith) tt (omega arith) refl

abbrev two_events : List ReceiverEvent
two_events = heartbeat_tick 5 ∷ readable true (fin_packet ∷ []) 9 ∷ []

run_receiver_lem_example : Ran fixed two_events (start_receiver fixed listening)
unfolding start_receiver
run_receiver_lem_example =
    run_receiver_lem fixed two_events (start_receiver fixed listening) listening-IsReceiver
      (omega arith, (omega arith, tt))
