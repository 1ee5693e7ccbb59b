-- ===== src/Sender/Rounds.antt =====
-- The rounds of the sender's loop keep what `Sender/Coverage` states (crates/protocol/src/sender.rs).
use udpix.Base.{
  ℕ, ◌≡◌, refl, sym, subst, true, ◌⊎◌, [], ◌∷◌, some, ◌==◌, length, arith, inl, inr, Bool-cases,
}
use udpix.Base.F64.{F64}
use udpix.Sack.Payload.{SackPayload, is_received}
use udpix.Congestion.Bucket.{refill}
use udpix.Congestion.Profiler.{on_bytes_sent, BandwidthProfiler}
use udpix.Congestion.Ladder.{IsProfiler, evaluate_probe-Promise, on_bytes_acked-Promise}
use udpix.Sender.State.{Sender, InFlight}
use udpix.Sender.Queued.{Below}
use udpix.Sender.Gaps.{Fresh, gaps, acked, first_gap, second_gap, gap_case, held_after}
use udpix.Sender.Ack.{Gaps, process_sack, count_gaps, retain_unacked}
use udpix.Sender.Process.{process_sack-queues}
use udpix.Sender.Batch.{SendMmsg, send_batch, fill_batch, count_sent}
use udpix.Sender.InBatch.{Same, fill_batch_lem, Fresh-Same, Below-Same, Holds-Same}
use udpix.Sender.Loop.{Round, apply_rate, on_probe_tick, refill_and_send}
use udpix.Sender.Coverage.{Same-sym, IsSender}

gaps-Below :
    (sack : SackPayload) (n : ℕ) (m : InFlight)
    → Fresh m
    → Below n m
    → Below n (gaps sack m).entries
unfolding count_gaps retain_unacked
gaps-Below sack n [] fresh h = tt
gaps-Below sack n ((k, e) ∷ m) (low, fresh) (small, h) =
    let rest = gaps-Below sack n m fresh h in
    let goal = λ (g : Gaps). Below n g.entries in
    elim (gap_case sack k e m low) [
      | acked _ same _ ↦ subst goal (sym same) rest
      | first_gap _ _ same _ ↦ subst goal (sym same) (small, rest)
      | second_gap _ _ same _ ↦ subst goal (sym same) (small, rest)
    ]

module _ (f : F64) where
  open f use {Float}

  pub process-IsSender :
      (Acked : ℕ → Type 0) (s : Sender Float) (sack : SackPayload) (now : ℕ)
      → IsSender Acked s
      → IsSender (λ seq. Acked seq ⊎ (is_received sack seq ≡ true)) (process_sack f s sack now)
  unfolding process_sack
  process-IsSender Acked s sack now v = record {
    below = gaps-Below sack s.next_seq s.in_flight v.fresh v.below;
    fresh = (process_sack-queues f s sack now v.fresh).0;
    profiler_fits = (on_bytes_acked-Promise f s.profiler _ now v.profiler_fits).0;
    covered = λ seq low. elim (Bool-cases (is_received sack seq)) [
      | inl known ↦ inr (inr known)
      | inr missing ↦ elim (v.covered seq low) [
        | inl (d, h) ↦ inl (d, held_after sack seq d s.in_flight v.fresh h missing)
        | inr known ↦ inr (inl known)
      ]
    ];
  }

  pub tick-IsSender :
      (Acked : ℕ → Type 0) (s : Sender Float) (now : ℕ)
      → IsSender Acked s
      → (t : Sender Float) × (on_probe_tick f s now ≡ some t)
        × IsSender Acked t
        × (t.next_seq ≡ s.next_seq)
        × (t.session_id ≡ s.session_id)
  unfolding on_probe_tick
  tick-IsSender Acked s now v =
      let (q, rate, found, promise) = evaluate_probe-Promise f s.profiler now v.profiler_fits in
      (
        record s { profiler = q; pacer = apply_rate f s.pacer rate },
        rw found refl,
        record { below = v.below; fresh = v.fresh; profiler_fits = promise.0; covered = v.covered },
        refl,
        refl,
      )

  sent-IsProfiler :
      (p : BandwidthProfiler Float) (n : ℕ) → IsProfiler p → IsProfiler (on_bytes_sent f p n)
  unfolding on_bytes_sent
  sent-IsProfiler p n v = record {
    seven_results = v.seven_results;
    phase_fits = v.phase_fits;
    best_fits = v.best_fits;
  }

  fill_batch-IsProfiler :
      (now : ℕ) (s : Sender Float)
      → IsProfiler s.profiler
      → IsProfiler (fill_batch f now s).0.profiler
  unfolding fill_batch
  fill_batch-IsProfiler now s v = v

  fill_batch-session_id :
      (now : ℕ) (s : Sender Float) → (fill_batch f now s).0.session_id ≡ s.session_id
  unfolding fill_batch
  fill_batch-session_id now s = refl

  -- What a batch leaves alone.
  abbrev Kept : Sender Float → Sender Float → Type 0
  Kept s t =
      Same s.in_flight t.in_flight
      × (t.next_seq ≡ s.next_seq)
      × (t.session_id ≡ s.session_id)
      × IsProfiler t.profiler

  send_batch-Kept :
      (now : ℕ) (sendmmsg : SendMmsg) (s : Sender Float)
      → IsProfiler s.profiler
      → Kept s (send_batch f now sendmmsg s).0
  unfolding send_batch count_sent
  send_batch-Kept now sendmmsg s v =
      let (_, _, same, _, next) = fill_batch_lem f now s in
      let w = fill_batch-IsProfiler now s v in
      let id = fill_batch-session_id now s in
      elim (Bool-cases (length (fill_batch f now s).1 == 0)) [
        | inl nothing ↦ rw nothing (same, next, id, w)
        | inr something ↦ rw something (same, next, id, sent-IsProfiler _ _ w)
      ]

  pub send-IsSender :
      (Acked : ℕ → Type 0) (s : Sender Float) (r : Round)
      → IsSender Acked s
      → let t = refill_and_send f s r in
        IsSender Acked t × (t.next_seq ≡ s.next_seq) × (t.session_id ≡ s.session_id)
  unfolding refill_and_send
  send-IsSender Acked s r v =
      let s' : Sender Float = record s { pacer = refill f s.pacer r.now } in
      let t = (send_batch f r.now r.sendmmsg s').0 in
      let (same, next, id, w) = send_batch-Kept r.now r.sendmmsg s' v.profiler_fits in
      (
        record {
          below =
              subst (λ n. Below n t.in_flight) (sym next)
                (Below-Same s.next_seq s.in_flight t.in_flight same v.below);
          fresh = Fresh-Same s.in_flight t.in_flight same v.fresh;
          profiler_fits = w;
          covered = λ seq low. elim (v.covered seq (omega arith)) [
            | inl (d, h) ↦ inl (
              d,
              Holds-Same seq d t.in_flight s.in_flight (Same-sym s.in_flight t.in_flight same) h,
            )
            | inr known ↦ inr known
          ];
        },
        next,
        id,
      )
