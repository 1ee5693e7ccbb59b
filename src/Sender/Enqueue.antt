-- ===== src/Sender/Enqueue.antt =====
-- `enqueue_data` of crates/protocol/src/sender.rs. A clock is read once for each packet: both clocks
-- are arguments that give the reading at a sequence number.
use udpix.Base.{ℕ, ◌+◌, ◌-◌, List, [], ◌∷◌, ◌++◌, Option, some, length, take, replicate, ◌>>=◌}
use udpix.Base.Bytes.{u16, u64}
use udpix.Packet.{new_data, write_to, header_size}
use udpix.Sender.State.{Sender, insert}
use udpix.Sender.Chunks.{chunks}

-- The buffer with the header written and the chunk copied behind it.
unfoldable pub data_datagram : ℕ → ℕ → ℕ → List ℕ → Option (List ℕ)
data_datagram session_id seq ts_us chunk = do
  buf ←
      write_to (new_data session_id seq ts_us (u16 (length chunk)))
        (replicate (header_size + length chunk) 0)
  some (take header_size buf ++ chunk)

module _ {Float : Type 0} (now ts_us : ℕ → ℕ) where
  -- A second is taken off the clock to mark the packet as unsent.
  unfoldable pub enqueue_chunk : Sender Float → List ℕ → Option (Sender Float)
  enqueue_chunk s chunk = do
    datagram ← data_datagram s.session_id s.next_seq (ts_us s.next_seq) chunk
    some (record s {
      in_flight =
          insert s.next_seq
            (record { datagram = datagram; last_sent = now s.next_seq - 1000000000; nak_count = 0 })
            s.in_flight;
      next_seq = u64 (s.next_seq + 1);
    })

  unfoldable pub enqueue_chunks : List (List ℕ) → Sender Float → Option (Sender Float)
  enqueue_chunks [] s = some s
  enqueue_chunks (c ∷ cs) s = do s' ← enqueue_chunk s c; enqueue_chunks cs s'

  unfoldable pub enqueue_data : Sender Float → List ℕ → Option (Sender Float)
  enqueue_data s payload = enqueue_chunks (chunks payload) s
