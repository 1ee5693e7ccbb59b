-- ===== src/Sender/Ack.antt =====
-- `process_sack` of crates/protocol/src/sender.rs.
use udpix.Base.{ℕ, ◌+◌, Bool, ◌||◌, ◌&&◌, not, List, [], ◌∷◌, ◌++◌, ltb, leb, if◌then◌else◌, length}
use udpix.Base.Bytes.{u8, u64}
use udpix.Base.F64.{F64}
use udpix.Sack.Payload.{SackPayload, is_received}
use udpix.Congestion.Profiler.{on_bytes_acked}
use udpix.Sender.State.{Sender, InFlight}

-- `seq < sack.base_seq || sack.is_received(seq)`.
unfoldable pub is_acked : SackPayload → ℕ → Bool
is_acked sack seq = ltb seq sack.base_seq || is_received sack seq

-- The entries that the acknowledgement leaves.
unfoldable pub retain_unacked : SackPayload → InFlight → InFlight
retain_unacked sack [] = []
retain_unacked sack ((seq, e) ∷ m) =
    let rest = retain_unacked sack m in if is_acked sack seq then rest else (seq, e) ∷ rest

-- How many entries it removes, and how many bytes they hold together.
unfoldable pub acked_totals : SackPayload → InFlight → ℕ × ℕ
acked_totals sack [] = (0, 0)
acked_totals sack ((seq, e) ∷ m) =
    let (count, bytes) = acked_totals sack m in
    if is_acked sack seq then (count + 1, u64 (length e.datagram + bytes)) else (count, bytes)

-- What the second loop passes over: the map with its counters, and the two queues.
pub record Gaps : Type 0 where
  pub entries : InFlight
  pub urgent : List ℕ
  pub normal : List ℕ

-- The loop over the entries still in flight; the pushed numbers are in the order of the entries.
unfoldable pub count_gaps : SackPayload → InFlight → Gaps
count_gaps sack [] = record { entries = []; urgent = []; normal = [] }
count_gaps sack ((seq, e) ∷ m) =
    let g = count_gaps sack m in
    let nak_count = u8 (e.nak_count + 1) in
    if leb sack.base_seq seq && not (is_received sack seq)
    then if leb 2 nak_count
      then record {
        entries = (seq, record e { nak_count = 0 }) ∷ g.entries;
        urgent = seq ∷ g.urgent;
        normal = g.normal;
      }
      else record {
        entries = (seq, record e { nak_count = nak_count }) ∷ g.entries;
        urgent = g.urgent;
        normal = seq ∷ g.normal;
      }
    else record g { entries = (seq, e) ∷ g.entries }

module _ (f : F64) where
  open f use {Float}

  -- The rate that `on_bytes_acked` returns is dropped, as in the code.
  unfoldable pub process_sack : Sender Float → SackPayload → ℕ → Sender Float
  process_sack s sack now =
      let (count, bytes) = acked_totals sack s.in_flight in
      let g = count_gaps sack (retain_unacked sack s.in_flight) in
      record s {
        in_flight = g.entries;
        urgent_retransmits = s.urgent_retransmits ++ g.urgent;
        normal_retransmits = s.normal_retransmits ++ g.normal;
        stats = record s.stats {
          packets_acked = u64 (s.stats.packets_acked + count);
          bytes_acked = u64 (s.stats.bytes_acked + bytes);
        };
        profiler = (on_bytes_acked f s.profiler bytes now).0;
      }
