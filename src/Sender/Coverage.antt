-- ===== src/Sender/Coverage.antt =====
-- No packet is lost: every number that the sender has given out is in flight or was acknowledged
-- (crates/protocol/src/sender.rs).
use udpix.Base.{
  ℕ, ◌+◌, ◌^◌, ◌≤◌, ◌<◌, ◌≡◌, refl, sym, ◌∙◌, true, ◌⊎◌, List, [], ◌∷◌, ◌++◌, some, ltb, ◌==◌,
  length, All-append, arith, inl, inr, Bool-cases, ltb→lt, ltb→ge, ==→eq,
}
use udpix.Base.F64.{F64}
use udpix.Sack.Payload.{is_received}
use udpix.Congestion.Ladder.{IsProfiler}
use udpix.Sender.State.{Sender, send_chunk, InFlight, InFlightEntry}
use udpix.Sender.Chunks.{chunks}
use udpix.Sender.Enqueue.{enqueue_data}
use udpix.Sender.Queued.{Below, Queued, enqueue_data_lem}
use udpix.Sender.Gaps.{Fresh, Holds}
use udpix.Sender.InBatch.{Same}
use udpix.Sender.Loop.{SenderEvent, incoming_sack, incoming_command, Round}

abbrev pub InFlightNow : ℕ → InFlight → Type 0
InFlightNow seq m = (datagram : List ℕ) × Holds seq datagram m

Holds-append_left : (seq : ℕ) (d : List ℕ) (m n : InFlight) → Holds seq d m → Holds seq d (m ++ n)
Holds-append_left seq d [] n h = elim h [ ]
Holds-append_left seq d (x ∷ m) n (inl here) = inl here
Holds-append_left seq d (x ∷ m) n (inr there) = inr (Holds-append_left seq d m n there)

Holds-append_right : (seq : ℕ) (d : List ℕ) (m n : InFlight) → Holds seq d n → Holds seq d (m ++ n)
Holds-append_right seq d [] n h = h
Holds-append_right seq d (x ∷ m) n h = inr (Holds-append_right seq d m n h)

Below-mono : (n k : ℕ) (m : InFlight) → n ≤ k → Below n m → Below k m
Below-mono n k [] le h = tt
Below-mono n k (e ∷ m) le (low, h) = (omega arith, Below-mono n k m le h)

Queued-shape :
    (session_id : ℕ) (ts : ℕ → ℕ) (n : ℕ) (cs : List (List ℕ)) (m : InFlight)
    → Queued session_id ts n cs m
    → Below (n + length cs) m
      × Fresh m
      × ((seq : ℕ) → n ≤ seq → seq < n + length cs → InFlightNow seq m)
Queued-shape session_id ts n [] [] h = (tt, tt, λ seq low high. absurd (omega arith))
Queued-shape session_id ts n [] (e ∷ m) h = elim h [ ]
Queued-shape session_id ts n (c ∷ cs) [] h = elim h [ ]
Queued-shape session_id ts n (c ∷ cs) ((k, e) ∷ m) (here, zero_naks, carries, more) =
    let (below, fresh, held) = Queued-shape session_id ts (n + 1) cs m more in
    (
      (omega arith, Below-mono (n + 1 + length cs) (n + length (c ∷ cs)) m (omega arith) below),
      (omega arith, fresh),
      λ seq low high. elim (Bool-cases (n == seq)) [
        | inl same ↦ (e.datagram, inl (here ∙ ==→eq n seq same, refl))
        | inr other ↦ let (d, h) = held seq (ground arith) (omega arith) in (d, inr h)
      ],
    )

pub Same-sym : (a b : InFlight) → Same a b → Same b a
Same-sym [] [] p = tt
Same-sym [] (y ∷ b) p = elim p [ ]
Same-sym (x ∷ a) [] p = elim p [ ]
Same-sym (x ∷ a) (y ∷ b) (k, d, n, p) = (sym k, sym d, sym n, Same-sym a b p)

-- What holds between two rounds, where `Acked` says which numbers were acknowledged.
pub record IsSender {Float : Type 0} (Acked : ℕ → Type 0) (s : Sender Float) : Type 0 where
  pub below : Below s.next_seq s.in_flight
  pub fresh : Fresh s.in_flight
  pub profiler_fits : IsProfiler s.profiler
  pub covered : (seq : ℕ) → seq < s.next_seq → InFlightNow seq s.in_flight ⊎ Acked seq

-- The acknowledgement of a round covers the number.
abbrev pub AckedIn : SenderEvent → ℕ → Type 0
AckedIn (incoming_sack sack) seq = is_received sack seq ≡ true
AckedIn _ seq = ⊥

-- The packets that a round adds.
abbrev pub added : SenderEvent → ℕ
added (incoming_command (send_chunk payload)) = length (chunks payload)
added _ = 0

module _ (f : F64) where
  open f use {Float}

  pub enqueue-IsSender :
      (Acked : ℕ → Type 0) (s : Sender Float) (r : Round) (payload : List ℕ)
      → IsSender Acked s
      → s.session_id < 2 ^ 32
      → ((k : ℕ) → r.ts_us k < 2 ^ 64)
      → s.next_seq + length (chunks payload) < 2 ^ 64
      → (t : Sender Float) × (enqueue_data r.sent_at r.ts_us s payload ≡ some t)
        × IsSender Acked t
        × (t.next_seq ≡ s.next_seq + length (chunks payload))
        × (t.session_id ≡ s.session_id)
  enqueue-IsSender Acked s r payload v a b room =
      let (m, found, queued, _) = enqueue_data_lem r.sent_at r.ts_us s payload a b v.below room in
      let (below, fresh, held) =
        Queued-shape s.session_id r.ts_us s.next_seq (chunks payload) m queued in
      let n = s.next_seq + length (chunks payload) in
      (
        record s { in_flight = s.in_flight ++ m; next_seq = n },
        found,
        record {
          below =
              All-append (λ (e : ℕ × InFlightEntry). e.0 < n) s.in_flight m
                (Below-mono s.next_seq n s.in_flight (omega arith) v.below) below;
          fresh =
              All-append (λ (e : ℕ × InFlightEntry). e.1.nak_count < 2) s.in_flight m v.fresh fresh;
          profiler_fits = v.profiler_fits;
          covered = λ seq low. elim (Bool-cases (ltb seq s.next_seq)) [
            | inl old ↦ elim (v.covered seq (ltb→lt _ _ old)) [
              | inl (d, h) ↦ inl (d, Holds-append_left seq d s.in_flight m h)
              | inr known ↦ inr known
            ]
            | inr fresh_one ↦
                let (d, h) = held seq (ltb→ge _ _ fresh_one) low in
                inl (d, Holds-append_right seq d s.in_flight m h)
          ];
        },
        refl,
        refl,
      )
