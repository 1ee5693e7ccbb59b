-- ===== src/Receiver/Loop.antt =====
-- `run` of crates/protocol/src/receiver.rs: a fold over the events that its select! delivers, in any
-- order. `none` is a panic.
use udpix.Base.{ℕ, Bool, true, false, List, [], ◌∷◌, ◌++◌, Option, none, some, if◌then◌else◌, ◌>>=◌}
use udpix.Base.F64.{F64}
use udpix.Receiver.State.{Receiver, Output, send_heartbeat_sack, recv_batch}

-- A tick of the heartbeat timer, or word from the socket, with the datagrams of one recvmmsg call; and
-- the clock.
pub data ReceiverEvent : Type 0 where
  heartbeat_tick : ℕ → ReceiverEvent
  readable : Bool → List (List ℕ) → ℕ → ReceiverEvent

abbrev pub interval_or : ℕ → Option ℕ → ℕ
interval_or old none = old
interval_or old (some new_interval) = new_interval

module _ (f : F64) where
  open f use {Float}

  pub record ReceiverLoop : Type 0 where
    pub receiver : Receiver Float
    pub heartbeat_ms : ℕ
    pub outputs : List Output

  unfoldable pub start_receiver : Receiver Float → ReceiverLoop
  start_receiver r = record { receiver = r; heartbeat_ms = 5; outputs = [] }

  abbrev pub after_tick : ReceiverLoop → Receiver Float × Option ℕ × List Output → ReceiverLoop
  after_tick l (r, new_interval, outs) = record {
    receiver = r;
    heartbeat_ms = interval_or l.heartbeat_ms new_interval;
    outputs = l.outputs ++ outs;
  }

  abbrev pub after_batch : ReceiverLoop → Receiver Float × Bool × List Output → ReceiverLoop
  after_batch l (r, fin, outs) = record l { receiver = r; outputs = l.outputs ++ outs }

  -- Whether a FIN has ended the loop.
  unfoldable pub run_receiver : List ReceiverEvent → ReceiverLoop → Option (ReceiverLoop × Bool)
  run_receiver [] l = some (l, false)
  run_receiver (heartbeat_tick now_us ∷ events) l =
      send_heartbeat_sack f l.receiver now_us >>= λ out. run_receiver events (after_tick l out)
  run_receiver (readable false bufs now_us ∷ events) l = run_receiver events l
  run_receiver (readable true bufs now_us ∷ events) l =
      recv_batch f bufs l.receiver now_us >>= λ out.
      if out.1 then some (after_batch l out, true) else run_receiver events (after_batch l out)
