-- ===== src/Sender/NoLoss.antt =====
-- Runs of the sender's loop lose no packet (crates/protocol/src/sender.rs).
use udpix.Base.{
  ℕ, ◌+◌, ◌^◌, ◌<◌, ◌≡◌, refl, ◌∙◌, Bool, true, false, ◌&&◌, ◌⊎◌, List, [], ◌∷◌, some, All, arith,
  inl, inr, Bool-cases,
}
use udpix.Base.F64.{F64}
use udpix.Congestion.Runs.{new_IsProfiler}
use udpix.Sender.State.{Sender, send_chunk, shutdown, InFlight, new_sender}
use udpix.Sack.Payload.{SackPayload}
use udpix.Sender.Ack.{process_sack}
use udpix.Sender.Loop.{
  SenderEvent, probe_tick, incoming_sack, incoming_command, Round, SenderLoop, is_empty,
  handle_event, refill_and_send, loop_round, run_sender,
}
use udpix.Sender.Coverage.{InFlightNow, IsSender, AckedIn, added, enqueue-IsSender}
use udpix.Sender.Rounds.{process-IsSender, tick-IsSender, send-IsSender}

-- Some acknowledgement among the rounds covers the number.
abbrev pub AckedBy : List Round → ℕ → Type 0
AckedBy [] seq = ⊥
AckedBy (r ∷ rs) seq = AckedIn r.event seq ⊎ AckedBy rs seq

-- The packets that the rounds add together.
abbrev pub total_added : List Round → ℕ
total_added [] = 0
total_added (r ∷ rs) = added r.event + total_added rs

abbrev pub ClockFits : Round → Type 0
ClockFits r = (k : ℕ) → r.ts_us k < 2 ^ 64

IsSender-mono :
    {Float : Type 0} (A B : ℕ → Type 0) (s : Sender Float)
    → ((seq : ℕ) → A seq → B seq)
    → IsSender A s
    → IsSender B s
IsSender-mono A B s wider v = record {
  below = v.below;
  fresh = v.fresh;
  profiler_fits = v.profiler_fits;
  covered = λ seq low. elim (v.covered seq low) [
    | inl flying ↦ inl flying
    | inr known ↦ inr (wider seq known)
  ];
}

all_acked :
    {Float : Type 0} (A : ℕ → Type 0) (s : Sender Float) (asked : Bool)
    → IsSender A s
    → (asked && is_empty s.in_flight) ≡ true
    → (seq : ℕ) → seq < s.next_seq
    → A seq
all_acked A s asked v ended seq low = go s.in_flight asked ended (v.covered seq low)
  where
    go :
        (m : InFlight) (asked : Bool)
        → (asked && is_empty m) ≡ true
        → InFlightNow seq m ⊎ A seq
        → A seq
    go m asked ended (inr known) = known
    go [] asked ended (inl (d, h)) = elim h [ ]
    go (x ∷ m) true ended (inl flying) = ground arith
    go (x ∷ m) false ended (inl flying) = ground arith

module _ (f : F64) where
  open f use {Float}

  sack_next :
      (s : Sender Float) (sack : SackPayload) (now : ℕ)
      → (process_sack f s sack now).next_seq ≡ s.next_seq + 0
  unfolding process_sack
  sack_next s sack now = omega arith

  sack_id :
      (s : Sender Float) (sack : SackPayload) (now : ℕ)
      → (process_sack f s sack now).session_id ≡ s.session_id
  unfolding process_sack
  sack_id s sack now = refl

  event_lem :
      (Acked : ℕ → Type 0) (l : SenderLoop Float) (r : Round) (e : SenderEvent)
      → IsSender Acked l.sender
      → l.sender.session_id < 2 ^ 32
      → ClockFits r
      → l.sender.next_seq + added e < 2 ^ 64
      → (k : SenderLoop Float) × (handle_event f l r e ≡ some k)
        × IsSender (λ seq. Acked seq ⊎ AckedIn e seq) k.sender
        × (k.sender.next_seq ≡ l.sender.next_seq + added e)
        × (k.sender.session_id ≡ l.sender.session_id)
  unfolding handle_event
  event_lem Acked l r probe_tick v a b room =
      let (t, found, w, next, id) = tick-IsSender f Acked l.sender r.now v in
      (
        record l { sender = t },
        rw found refl,
        IsSender-mono Acked _ t (λ seq h. inl h) w,
        omega arith,
        id,
      )
  event_lem Acked l r (incoming_sack sack) v a b room = (
    record l { sender = process_sack f l.sender sack r.now },
    refl,
    process-IsSender f Acked l.sender sack r.now v,
    sack_next l.sender sack r.now,
    sack_id l.sender sack r.now,
  )
  event_lem Acked l r (incoming_command (send_chunk payload)) v a b room =
      let (t, found, w, next, id) = enqueue-IsSender f Acked l.sender r payload v a b room in
      (record l { sender = t }, rw found refl, IsSender-mono Acked _ t (λ seq h. inl h) w, next, id)
  event_lem Acked l r (incoming_command shutdown) v a b room = (
    record l { shutdown_requested = true },
    refl,
    IsSender-mono Acked _ l.sender (λ seq h. inl h) v,
    omega arith,
    refl,
  )

  round_lem :
      (Acked : ℕ → Type 0) (l : SenderLoop Float) (r : Round)
      → IsSender Acked l.sender
      → l.sender.session_id < 2 ^ 32
      → ClockFits r
      → l.sender.next_seq + added r.event < 2 ^ 64
      → let Now = λ (seq : ℕ). Acked seq ⊎ AckedIn r.event seq in
        (k : SenderLoop Float) × (ended : Bool) × (loop_round f l r ≡ some (k, ended))
        × IsSender Now k.sender
        × (k.sender.next_seq ≡ l.sender.next_seq + added r.event)
        × (k.sender.session_id ≡ l.sender.session_id)
        × (ended ≡ true → (seq : ℕ) → seq < k.sender.next_seq → Now seq)
  unfolding loop_round
  round_lem Acked l r v a b room =
      let (l', found, w, next, id) = event_lem Acked l r r.event v a b room in
      let (w', next', id') =
        send-IsSender f (λ seq. Acked seq ⊎ AckedIn r.event seq) l'.sender r w in
      let s = refill_and_send f l'.sender r in
      (
        record l' { sender = s },
        l'.shutdown_requested && is_empty s.in_flight,
        rw found refl,
        w',
        next' ∙ next,
        id' ∙ id,
        all_acked (λ seq. Acked seq ⊎ AckedIn r.event seq) s l'.shutdown_requested w',
      )

  run_from :
      (rs : List Round) (Acked : ℕ → Type 0) (l : SenderLoop Float)
      → IsSender Acked l.sender
      → l.sender.session_id < 2 ^ 32
      → All ClockFits rs
      → l.sender.next_seq + total_added rs < 2 ^ 64
      → let Then = λ (seq : ℕ). Acked seq ⊎ AckedBy rs seq in
        (k : SenderLoop Float) × (ended : Bool) × (run_sender f rs l ≡ some (k, ended))
        × IsSender Then k.sender
        × (ended ≡ true → (seq : ℕ) → seq < k.sender.next_seq → Then seq)
  unfolding run_sender
  run_from [] Acked l v a b room =
      (l, false, refl, IsSender-mono Acked _ l.sender (λ seq h. inl h) v, λ h. ground arith)
  run_from (r ∷ rs) Acked l v a (b, bs) room =
      let (k, ended, found, w, next, id, over) = round_lem Acked l r v a b (omega arith) in
      let Now = λ (seq : ℕ). Acked seq ⊎ AckedIn r.event seq in
      let Then = λ (seq : ℕ). Acked seq ⊎ (AckedIn r.event seq ⊎ AckedBy rs seq) in
      let first : (seq : ℕ) → Now seq → Then seq =
        λ seq h. elim h [ inl old ↦ inl old | inr new ↦ inr (inl new) ] in
      elim (Bool-cases ended) [
        | inl stop ↦ (
          k,
          ended,
          rw (found, stop) refl,
          IsSender-mono Now Then k.sender first w,
          λ e seq low. first seq (over e seq low),
        )
        | inr further ↦
            let (k', ended', found', w', over') =
              run_from rs Now k w (omega arith) bs (omega arith) in
            let both : (seq : ℕ) → Now seq ⊎ AckedBy rs seq → Then seq =
              λ seq h. elim h [ inl now ↦ first seq now | inr later ↦ inr (inr later) ] in
            (
              k',
              ended',
              rw (found, further) found',
              IsSender-mono (λ (seq : ℕ). Now seq ⊎ AckedBy rs seq) Then k'.sender both w',
              λ e seq low. both seq (over' e seq low),
            )
      ]

  new_IsSender : (A : ℕ → Type 0) (now session_id : ℕ) → IsSender A (new_sender f now session_id)
  unfolding new_sender
  new_IsSender A now session_id = record {
    below = tt;
    fresh = tt;
    profiler_fits = new_IsProfiler f now;
    covered = λ seq low. absurd (omega arith);
  }

  new_sender-room :
      (now session_id n : ℕ) → n < 2 ^ 64 → (new_sender f now session_id).next_seq + n < 2 ^ 64
  unfolding new_sender
  new_sender-room now session_id n h = omega arith

  new_sender-id : (now session_id : ℕ) → (new_sender f now session_id).session_id ≡ session_id
  unfolding new_sender
  new_sender-id now session_id = refl

  -- Whatever timer ticks, acknowledgements and commands a new sender handles, in whatever order,
  -- and whatever the pacer and the kernel let through: the loop does not panic, and every number
  -- that it has given out is still in flight or was covered by one of the acknowledgements. Where
  -- the loop ends by itself, all of them were. It holds as long as the numbers, the session and
  -- the timestamps fit their fields.
  pub run_sender_lem :
      (start session_id : ℕ) (rs : List Round)
      → session_id < 2 ^ 32
      → All ClockFits rs
      → total_added rs < 2 ^ 64
      → let l : SenderLoop Float = record {
        sender = new_sender f start session_id;
        shutdown_requested = false;
      } in
        (k : SenderLoop Float) × (ended : Bool) × (run_sender f rs l ≡ some (k, ended))
        × ((seq : ℕ)
            → seq < k.sender.next_seq
            → InFlightNow seq k.sender.in_flight ⊎ AckedBy rs seq)
        × (ended ≡ true → (seq : ℕ) → seq < k.sender.next_seq → AckedBy rs seq)
  run_sender_lem start session_id rs a clocks room =
      let s = new_sender f start session_id in
      let l : SenderLoop Float = record { sender = s; shutdown_requested = false } in
      let (k, ended, found, w, over) =
        run_from rs (λ seq. ⊥) l (new_IsSender (λ seq. ⊥) start session_id)
          (omega (arith, new_sender-id start session_id)) clocks
          (new_sender-room start session_id (total_added rs) room) in
      let only : (seq : ℕ) → ⊥ ⊎ AckedBy rs seq → AckedBy rs seq =
        λ seq h. elim h [ inl never ↦ absurd never | inr known ↦ known ] in
      (
        k,
        ended,
        found,
        (λ seq low. elim (w.covered seq low) [
          | inl flying ↦ inl flying
          | inr known ↦ inr (only seq known)
        ]),
        λ e seq low. only seq (over e seq low),
      )
