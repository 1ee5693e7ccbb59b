-- ===== src/Sender/Loop.antt =====
-- `run` of crates/protocol/src/sender.rs, one round for each event that `select!` yields. The timer
-- always fires again, so the `else` branch is not reached. A round brings the readings of the clocks
-- and the answer of the system call.
use udpix.Base.{ℕ, Bool, true, false, ◌&&◌, List, [], ◌∷◌, Option, none, some, if◌then◌else◌, ◌>>=◌}
use udpix.Base.F64.{F64}
use udpix.Sack.Payload.{SackPayload}
use udpix.Congestion.Bucket.{set_rate, refill, TokenBucket}
use udpix.Congestion.Profiler.{evaluate_probe}
use udpix.Sender.State.{Sender, SenderCommand, send_chunk, shutdown, InFlight}
use udpix.Sender.Enqueue.{enqueue_data}
use udpix.Sender.Ack.{process_sack}
use udpix.Sender.Batch.{SendMmsg, send_batch}

pub data SenderEvent : Type 0 where
  probe_tick : SenderEvent
  incoming_sack : SackPayload → SenderEvent
  incoming_command : SenderCommand → SenderEvent

pub record Round : Type 0 where
  pub event : SenderEvent
  pub now : ℕ
  pub sent_at : ℕ → ℕ
  pub ts_us : ℕ → ℕ
  pub sendmmsg : SendMmsg

pub record SenderLoop (Float : Type 0) : Type 0 where
  pub sender : Sender Float
  pub shutdown_requested : Bool

abbrev pub is_empty : InFlight → Bool
is_empty [] = true
is_empty (x ∷ m) = false

module _ (f : F64) where
  open f use {Float}

  abbrev pub apply_rate : TokenBucket Float → Option ℕ → TokenBucket Float
  apply_rate b none = b
  apply_rate b (some rate) = set_rate f b rate

  unfoldable pub on_probe_tick : Sender Float → ℕ → Option (Sender Float)
  on_probe_tick s now = do
    out ← evaluate_probe f s.profiler now
    some (record s { profiler = out.0; pacer = apply_rate s.pacer out.1 })

  -- `none` is a panic.
  unfoldable pub handle_event : SenderLoop Float → Round → SenderEvent → Option (SenderLoop Float)
  handle_event l r probe_tick = do s ← on_probe_tick l.sender r.now; some (record l { sender = s })
  handle_event l r (incoming_sack sack) =
      some (record l { sender = process_sack f l.sender sack r.now })
  handle_event l r (incoming_command (send_chunk payload)) = do
    s ← enqueue_data r.sent_at r.ts_us l.sender payload
    some (record l { sender = s })
  handle_event l r (incoming_command shutdown) = some (record l { shutdown_requested = true })

  unfoldable pub refill_and_send : Sender Float → Round → Sender Float
  refill_and_send s r =
      (send_batch f r.now r.sendmmsg (record s { pacer = refill f s.pacer r.now })).0

  -- The state after one round, and whether the loop ends with it.
  unfoldable pub loop_round : SenderLoop Float → Round → Option (SenderLoop Float × Bool)
  loop_round l r = do
    l' ← handle_event l r r.event
    let s = refill_and_send l'.sender r
    some (record l' { sender = s }, l'.shutdown_requested && is_empty s.in_flight)

  unfoldable pub run_sender : List Round → SenderLoop Float → Option (SenderLoop Float × Bool)
  run_sender [] l = some (l, false)
  run_sender (r ∷ rs) l = do out ← loop_round l r; if out.1 then some out else run_sender rs out.0
