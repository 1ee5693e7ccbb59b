-- ===== src/Sender/Batch.antt =====
-- `send_batch` and `send_batch_sendmmsg` of crates/protocol/src/sender.rs. The clock is read once for
-- a batch, and the system call is an argument: for the datagrams of a batch it gives how many it sent,
-- zero for an error, and how many bytes of each.
use udpix.Base.{
  ℕ, ◌+◌, ◌-◌, ◌*◌, Bool, true, false, ◌&&◌, List, [], ◌∷◌, ◌++◌, Option, none, some, ltb, leb,
  ◌==◌, if◌then◌else◌, length, take,
}
use udpix.Base.Bytes.{u64}
use udpix.Base.F64.{F64}
use udpix.Session.{rto}
use udpix.Congestion.Bucket.{TokenBucket, try_consume}
use udpix.Congestion.Profiler.{on_bytes_sent}
use udpix.Sender.State.{Sender, InFlightEntry, InFlight, batch_size, insert, lookup}

-- What the three loops pass on.
pub record Drawing (Float : Type 0) : Type 0 where
  pub pacer : TokenBucket Float
  pub in_flight : InFlight
  pub batch : List (List ℕ)
  pub retransmits : ℕ

pub data Drawn (Float : Type 0) : Type 0 where
  drawn : Drawing Float → Drawn Float
  dry : Drawn Float

abbrev pub SendMmsg : Type 0
SendMmsg = List (List ℕ) → ℕ × List ℕ

abbrev sum_u64 : List ℕ → ℕ
sum_u64 [] = 0
sum_u64 (n ∷ ns) = u64 (n + sum_u64 ns)

unfoldable pub send_batch_sendmmsg : SendMmsg → List (List ℕ) → ℕ
send_batch_sendmmsg sendmmsg batch =
    let (sent, msg_lens) = sendmmsg batch in if sent == 0 then 0 else sum_u64 (take sent msg_lens)

-- `last_sent.elapsed() > rto && nak_count == 0`, the clock in nanoseconds, the timeout in
-- microseconds.
unfoldable pub is_due : ℕ → ℕ → InFlightEntry → Bool
is_due now rto_us e = ltb (rto_us * 1000) (now - e.last_sent) && (e.nak_count == 0)

unfoldable pub unsent_seqs : ℕ → ℕ → InFlight → List ℕ
unsent_seqs now rto_us [] = []
unsent_seqs now rto_us ((seq, e) ∷ m) =
    let rest = unsent_seqs now rto_us m in if is_due now rto_us e then seq ∷ rest else rest

module _ (f : F64) (now : ℕ) where
  open f use {Float}

  abbrev pub take_datagram :
      Bool → ℕ → InFlightEntry → Drawing Float → TokenBucket Float → Drawing Float
  take_datagram resend seq e w pacer = record {
    pacer = pacer;
    in_flight = insert seq (record e { last_sent = now }) w.in_flight;
    batch = w.batch ++ (e.datagram ∷ []);
    retransmits = if resend then u64 (w.retransmits + 1) else w.retransmits;
  }

  abbrev pub draw_entry : Bool → ℕ → Drawing Float → Option InFlightEntry → Drawn Float
  draw_entry resend seq w none = drawn w
  draw_entry resend seq w (some e) =
      let (granted, pacer) = try_consume f w.pacer (length e.datagram) in
      if granted then drawn (take_datagram resend seq e w pacer) else dry

  -- One number: nothing if it is not in flight any more.
  unfoldable pub draw : Bool → Drawing Float → ℕ → Drawn Float
  draw resend w seq = draw_entry resend seq w (lookup seq w.in_flight)

  -- The loop over a retransmission queue. A number that the tokens do not cover goes to the end.
  unfoldable pub drain : List ℕ → Drawing Float → List ℕ × Drawing Float
  drain [] w = ([], w)
  drain (seq ∷ q) w = elim (leb batch_size (length w.batch)) [
    | true ↦ (seq ∷ q, w)
    | false ↦ elim (draw true w seq) [ drawn w' ↦ drain q w' | dry ↦ (q ++ (seq ∷ []), w) ]
  ]

  unfoldable pub send_new : List ℕ → Drawing Float → Drawing Float
  send_new [] w = w
  send_new (seq ∷ q) w = elim (draw false w seq) [ drawn w' ↦ send_new q w' | dry ↦ w ]

  unfoldable pub start_batch : Sender Float → Drawing Float
  start_batch s = record {
    pacer = s.pacer;
    in_flight = s.in_flight;
    batch = [];
    retransmits = s.stats.retransmits;
  }

  unfoldable pub fill_new : ℕ → Drawing Float → Drawing Float
  fill_new rto_us w =
      send_new (take (batch_size - length w.batch) (unsent_seqs now rto_us w.in_flight)) w

  -- The sender after the loops, with the statistics but for the retransmissions untouched.
  unfoldable pub fill_batch : Sender Float → Sender Float × List (List ℕ)
  fill_batch s =
      let (urgent, w1) = drain s.urgent_retransmits (start_batch s) in
      let (normal, w2) = drain s.normal_retransmits w1 in
      let w = fill_new (rto s.stats) w2 in
      (
        record s {
          urgent_retransmits = urgent;
          normal_retransmits = normal;
          in_flight = w.in_flight;
          pacer = w.pacer;
          stats = record s.stats { retransmits = w.retransmits };
        },
        w.batch,
      )

  unfoldable pub count_sent : Sender Float → ℕ → ℕ → Sender Float
  count_sent s total_bytes packets = record s {
    stats = record s.stats {
      bytes_sent = u64 (s.stats.bytes_sent + total_bytes);
      packets_sent = u64 (s.stats.packets_sent + packets);
    };
    profiler = on_bytes_sent f s.profiler total_bytes;
  }

  -- The batch is returned besides, as what goes onto the wire.
  unfoldable pub send_batch : SendMmsg → Sender Float → Sender Float × List (List ℕ)
  send_batch sendmmsg s =
      let (t, batch) = fill_batch s in
      if length batch == 0
      then (t, batch)
      else (count_sent t (send_batch_sendmmsg sendmmsg batch) (length batch), batch)
