-- ===== src/Sender/State.antt =====
-- The sender's state (crates/protocol/src/sender.rs). A time is in nanoseconds. The hash map of
-- packets in flight is an association list: its order stands for the order of an iteration, which
-- the code does not know. The lock-free queues are lists, first in first out. The channels are
-- not fields: what comes through them is the argument of a step.
use udpix.Base.{ℕ, List, [], ◌∷◌, Option, none, some, ◌==◌, if◌then◌else◌}
use udpix.Base.F64.{F64}
use udpix.Congestion.Bucket.{TokenBucket, new_bucket}
use udpix.Congestion.Profiler.{BandwidthProfiler, new_profiler}
use udpix.Session.{SessionStats, new_stats}

pub data SenderCommand : Type 0 where
  send_chunk : List ℕ → SenderCommand
  shutdown : SenderCommand

pub record InFlightEntry : Type 0 where
  pub datagram : List ℕ
  pub last_sent : ℕ
  pub nak_count : ℕ

abbrev pub batch_size : ℕ
batch_size = 64

abbrev pub max_payload : ℕ
max_payload = 1443

-- The entries of the `HashMap` in one order of iteration, which the code leaves open: a new entry stands
-- last here.
abbrev pub InFlight : Type 0
InFlight = List (ℕ × InFlightEntry)

pub record Sender (Float : Type 0) : Type 0 where
  pub session_id : ℕ
  pub urgent_retransmits : List ℕ
  pub normal_retransmits : List ℕ
  pub in_flight : InFlight
  pub next_seq : ℕ
  pub pacer : TokenBucket Float
  pub profiler : BandwidthProfiler Float
  pub stats : SessionStats

-- `HashMap::insert`.
unfoldable pub insert : ℕ → InFlightEntry → InFlight → InFlight
insert seq e [] = (seq, e) ∷ []
insert seq e ((k, x) ∷ m) =
    let rest = insert seq e m in if k == seq then (k, e) ∷ m else (k, x) ∷ rest

-- `HashMap::get_mut`, the reading of it; the write is `insert`.
unfoldable pub lookup : ℕ → InFlight → Option InFlightEntry
lookup seq [] = none
lookup seq ((k, x) ∷ m) = let rest = lookup seq m in if k == seq then some x else rest

module _ (f : F64) where
  open f use {Float}

  unfoldable pub new_sender : ℕ → ℕ → Sender Float
  new_sender now session_id = record {
    session_id = session_id;
    urgent_retransmits = [];
    normal_retransmits = [];
    in_flight = [];
    next_seq = 0;
    pacer = new_bucket f now 10000000;
    profiler = new_profiler f now;
    stats = new_stats;
  }
