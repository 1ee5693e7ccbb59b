-- ===== src/Sender/Tests.antt =====
-- The theorems on the sender at concrete inputs.
use udpix.Base.{
  ℕ, ◌+◌, ◌-◌, ◌≤◌, ◌<◌, ◌≡◌, Bool, true, false, ◌↔◌, ◌⊎◌, List, [], ◌∷◌, ◌++◌, some, length,
  replicate, All, arith, map,
}
use udpix.Base.Bytes.{u64}
use udpix.Base.F64.{fixed}
use udpix.Sack.Payload.{SackPayload, is_received}
use udpix.Session.{new_stats}
use udpix.Sender.State.{Sender, send_chunk, shutdown, InFlight, batch_size, new_sender}
use udpix.Sender.Chunks.{chunks, chunks_fuel}
use udpix.Sender.Gaps.{Fresh, Holds, counted, missed_with}
use udpix.Sender.Ack.{process_sack}
use udpix.Sender.Process.{bytes_in, process_sack_lem, process_sack-queues}
use udpix.Sender.Batch.{SendMmsg, send_batch}
use udpix.Sender.InBatch.{Same, InMap, send_batch_lem}
use udpix.Sender.Loop.{
  SenderEvent, probe_tick, incoming_sack, incoming_command, Round, SenderLoop, run_sender,
}
use udpix.Sender.Coverage.{InFlightNow}
use udpix.Sender.NoLoss.{AckedBy, run_sender_lem}

abbrev empty_sender : Sender ℕ
empty_sender = new_sender fixed 0 7

-- Packets 3, 4 and 5 are in flight, and 4 had a gap counted.
abbrev three : InFlight
three =
    (3, record { datagram = 1 ∷ 2 ∷ []; last_sent = 0; nak_count = 0 })
    ∷ (4, record { datagram = 3 ∷ []; last_sent = 0; nak_count = 1 })
    ∷ (5, record { datagram = 4 ∷ []; last_sent = 0; nak_count = 0 })
    ∷ []

abbrev busy : Sender ℕ
busy = record empty_sender { in_flight = three; next_seq = 6 }

-- It acknowledges everything below 4, and 5.
abbrev some_sack : SackPayload
some_sack = record { base_seq = 4; word_count = 1; words = 2 ∷ replicate 15 0 }

three-Fresh : Fresh three
three-Fresh = (omega arith, (omega arith, (omega arith, tt)))

process_sack_lem_example :
    let t = process_sack fixed busy some_sack 9 in
    ((seq : ℕ) (datagram : List ℕ)
      → Holds seq datagram t.in_flight
        ↔ (Holds seq datagram three × (is_received some_sack seq ≡ false)))
    × (t.stats.packets_acked ≡ u64 (busy.stats.packets_acked + (length three - length t.in_flight)))
    × (t.stats.bytes_acked ≡ u64 (busy.stats.bytes_acked + (bytes_in three - bytes_in t.in_flight)))
process_sack_lem_example = process_sack_lem fixed busy some_sack 9 three-Fresh (omega arith)

process_sack-queues_example :
    let t = process_sack fixed busy some_sack 9 in
    let urgent = missed_with 1 some_sack three in
    let normal = missed_with 0 some_sack three in
    Fresh t.in_flight
    × (t.urgent_retransmits ≡ busy.urgent_retransmits ++ urgent)
    × (t.normal_retransmits ≡ busy.normal_retransmits ++ normal)
    × (counted 0 t.in_flight ≡ urgent)
    × (counted 1 t.in_flight ≡ normal)
    × (t.pacer ≡ busy.pacer)
    × (t.next_seq ≡ busy.next_seq)
process_sack-queues_example = process_sack-queues fixed busy some_sack 9 three-Fresh

abbrev all_sent : SendMmsg
all_sent = λ batch. (length batch, map (λ d. length d) batch)

send_batch_lem_example :
    let (t, batch) = send_batch fixed 20000000000 all_sent busy in
    (length batch ≤ batch_size)
    × All (InMap three) batch
    × Same three t.in_flight
    × (t.stats.packets_sent ≡ u64 (busy.stats.packets_sent + length batch))
    × (t.next_seq ≡ 6)
unfolding new_sender new_stats
send_batch_lem_example = send_batch_lem fixed 20000000000 all_sent busy (omega arith)

abbrev round_with : SenderEvent → Round
round_with event = record {
  event = event;
  now = 20000000000;
  sent_at = λ k. 0;
  ts_us = λ k. 17;
  sendmmsg = all_sent;
}

abbrev four_rounds : List Round
four_rounds =
    round_with (incoming_command (send_chunk (1 ∷ 2 ∷ 3 ∷ [])))
    ∷ round_with probe_tick
    ∷ round_with (incoming_sack some_sack)
    ∷ round_with (incoming_command shutdown)
    ∷ []

run_sender_lem_example :
    let l : SenderLoop ℕ = record { sender = new_sender fixed 0 7; shutdown_requested = false } in
    (k : SenderLoop ℕ) × (ended : Bool) × (run_sender fixed four_rounds l ≡ some (k, ended))
    × ((seq : ℕ)
        → seq < k.sender.next_seq
        → InFlightNow seq k.sender.in_flight ⊎ AckedBy four_rounds seq)
    × (ended ≡ true → (seq : ℕ) → seq < k.sender.next_seq → AckedBy four_rounds seq)
unfolding chunks chunks_fuel
run_sender_lem_example =
    run_sender_lem fixed 0 7 four_rounds (omega arith)
      ((λ k. omega arith), ((λ k. omega arith), ((λ k. omega arith), ((λ k. omega arith), tt))))
      (omega arith)
