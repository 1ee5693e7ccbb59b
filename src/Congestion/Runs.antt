-- ===== src/Congestion/Runs.antt =====
-- Runs of the profiler (crates/protocol/src/congestion.rs) over the events that the send loop feeds
-- it, and the end of its ladder.
use udpix.Base.{
  ◌>>=◌, ℕ, ◌+◌, ◌-◌, ◌/◌, ◌<◌, ◌≡◌, refl, ap, ◌∙◌, false, ◌⊎◌, List, [], ◌∷◌, Option, none, some,
  ltb, length, get_or, arith, inl, inr,
}
use udpix.Base.F64.{F64}
use udpix.Congestion.Profiler.{
  BandwidthProfiler, ProberPhase, probing, steady, throttling, floor_rate, new_profiler,
  on_bytes_sent, on_bytes_acked, evaluate_probe, evaluate_in, evaluate_probing, current_rate_bps,
  probe_step_ms, probe_steps, rate_in,
}
use udpix.Congestion.Ladder.{
  IsRate, IsPhase, IsProfiler, evaluate_probe-Promise, on_bytes_acked-Promise, evaluate_probing_lem,
  probe_steps-IsRate,
}

pub data ProfilerEvent : Type 0 where
  bytes_sent : ℕ → ProfilerEvent
  bytes_acked : ℕ → ℕ → ProfilerEvent
  timer : ℕ → ProfilerEvent

module _ (f : F64) where
  open f use {Float}

  abbrev after : Option (BandwidthProfiler Float × Option ℕ) → Option (BandwidthProfiler Float)
  after none = none
  after (some (p, r)) = some p

  unfoldable pub profiler_step :
      BandwidthProfiler Float → ProfilerEvent → Option (BandwidthProfiler Float)
  profiler_step p (bytes_sent n) = some (on_bytes_sent f p n)
  profiler_step p (bytes_acked n now) = some (on_bytes_acked f p n now).0
  profiler_step p (timer now) = after (evaluate_probe f p now)

  unfoldable pub profiler_run :
      List ProfilerEvent → BandwidthProfiler Float → Option (BandwidthProfiler Float)
  profiler_run [] p = some p
  profiler_run (e ∷ es) p = do q ← profiler_step p e; profiler_run es q

  profiler_step_lem :
      (p : BandwidthProfiler Float) (e : ProfilerEvent)
      → IsProfiler p
      → (q : BandwidthProfiler Float) × (profiler_step p e ≡ some q) × IsProfiler q
  unfolding profiler_step on_bytes_sent
  profiler_step_lem p (bytes_sent n) v = (
    on_bytes_sent f p n,
    refl,
    record { seven_results = v.seven_results; phase_fits = v.phase_fits; best_fits = v.best_fits },
  )
  profiler_step_lem p (bytes_acked n now) v =
      ((on_bytes_acked f p n now).0, refl, (on_bytes_acked-Promise f p n now v).0)
  profiler_step_lem p (timer now) v =
      let (q, r, found, promise) = evaluate_probe-Promise f p now v in
      (q, ap after found, promise.0)

  profiler_run_from :
      (es : List ProfilerEvent) (p : BandwidthProfiler Float)
      → IsProfiler p
      → (q : BandwidthProfiler Float) × (profiler_run es p ≡ some q) × IsProfiler q
  unfolding profiler_run
  profiler_run_from [] p v = (p, refl, v)
  profiler_run_from (e ∷ es) p v =
      let (q, found, w) = profiler_step_lem p e v in
      let (q', found', w') = profiler_run_from es q w in (q', rw found found', w')

  pub new_IsProfiler : (now : ℕ) → IsProfiler (new_profiler f now)
  unfolding new_profiler
  new_IsProfiler now = record { seven_results = refl; phase_fits = omega arith; best_fits = refl }

  current_rate_bps-IsRate :
      (p : BandwidthProfiler Float)
      → IsProfiler p
      → (r : ℕ) × (current_rate_bps f p ≡ some r) × (IsRate r ⊎ (r ≡ floor_rate))
  unfolding current_rate_bps
  current_rate_bps-IsRate p v = go p.phase v.phase_fits
    where
      go :
          (a : ProberPhase)
          → IsPhase a
          → (r : ℕ) × (rate_in f a ≡ some r) × (IsRate r ⊎ (r ≡ floor_rate))
      go (probing i) fits =
          let (found, rate) = probe_steps-IsRate i fits in (get_or probe_steps i 0, found, inl rate)
      go (steady r) fits = (r, refl, inl fits)
      go throttling fits = (floor_rate, refl, inr refl)

  -- No sequence of sent bytes, acknowledged bytes and timer ticks makes a new profiler panic, and
  -- the rate that it asks for is always one of the seven or the floor.
  pub profiler_run_lem :
      (start : ℕ) (es : List ProfilerEvent)
      → (q : BandwidthProfiler Float) × (r : ℕ) × (profiler_run es (new_profiler f start) ≡ some q)
        × (current_rate_bps f q ≡ some r)
        × (IsRate r ⊎ (r ≡ floor_rate))
  profiler_run_lem start es =
      let (q, found, v) = profiler_run_from es (new_profiler f start) (new_IsProfiler start) in
      let (r, rate, among) = current_rate_bps-IsRate q v in (q, r, found, rate, among)

  -- The bytes and the loss estimate that one rung measured, whatever they are short of a throttle.
  abbrev pub Traffic : Type 0
  Traffic = ℕ × ℕ × Float

  abbrev pub with_traffic : BandwidthProfiler Float → Traffic → BandwidthProfiler Float
  with_traffic p (sent, acked, loss) = record p {
    step_bytes_sent = sent;
    step_bytes_acked = acked;
    loss_ema = loss;
  }

  abbrev on_ladder {ℓ} : {B : Type ℓ} → ProberPhase → B → B → B
  on_ladder (probing i) b other = b
  on_ladder _ b other = other

  -- Each rung is evaluated when its half second is over, until the ladder is left.
  unfoldable pub climb : List Traffic → BandwidthProfiler Float → Option (BandwidthProfiler Float)
  climb [] p = some p
  climb (t ∷ ts) p =
      on_ladder p.phase
        (do out ← evaluate_probe f (with_traffic p t) (p.step_start + 500000000); climb ts out.0)
        (some p)

  step_is_due : (start : ℕ) → ltb ((start + 500000000 - start) / 1000000) probe_step_ms ≡ false
  step_is_due start = ground arith

  climb_settled :
      (ts : List Traffic) (p : BandwidthProfiler Float) (r : ℕ)
      → p.phase ≡ steady r
      → climb ts p ≡ some p
  unfolding climb
  climb_settled [] p r e = refl
  climb_settled (t ∷ ts) p r e =
      ap
        (λ (a : ProberPhase).
          on_ladder a
            (do
              out ← evaluate_probe f (with_traffic p t) (p.step_start + 500000000)
              climb ts out.0)
            (some p))
        e

  climb_rung :
      (t : Traffic) (ts : List Traffic) (p q : BandwidthProfiler Float) (r : Option ℕ) (i : ℕ)
      → p.phase ≡ probing i
      → evaluate_probe f (with_traffic p t) (p.step_start + 500000000) ≡ some (q, r)
      → climb (t ∷ ts) p ≡ climb ts q
  unfolding climb
  climb_rung t ts p q r i e found =
      ap
        (λ (a : ProberPhase).
          on_ladder a
            (do
              out ← evaluate_probe f (with_traffic p t) (p.step_start + 500000000)
              climb ts out.0)
            (some p))
        e
      ∙ ap (λ (o : Option (BandwidthProfiler Float × Option ℕ)). o >>= λ out. climb ts out.0) found

  due_probing :
      (p : BandwidthProfiler Float) (i : ℕ) (t : Traffic)
      → p.phase ≡ probing i
      → evaluate_probe f (with_traffic p t) (p.step_start + 500000000)
        ≡ evaluate_probing f (with_traffic p t) i (p.step_start + 500000000)
  unfolding evaluate_probe
  due_probing p i t e =
      rw (step_is_due p.step_start)
        (ap (λ (a : ProberPhase). evaluate_in f a (with_traffic p t) (p.step_start + 500000000)) e)

  climb_lem :
      (ts : List Traffic) (p : BandwidthProfiler Float) (i : ℕ)
      → IsProfiler p
      → p.phase ≡ probing i
      → i + length ts ≡ 7
      → (q : BandwidthProfiler Float) × (r : ℕ) × (climb ts p ≡ some q)
        × (q.phase ≡ steady r)
        × IsRate r
  climb_lem [] p i v e h = let fits : i < 7 = rw e at v.phase_fits in absurd (omega arith)
  climb_lem (t ∷ ts) p i v e h =
      let fits : i < 7 = rw e at v.phase_fits in
      let now = p.step_start + 500000000 in
      let (q, r, found, w, rate, _, next) =
        evaluate_probing_lem f (with_traffic p t) i now fits v.seven_results v.best_fits in
      let rung = climb_rung t ts p q (some r) i e (due_probing p i t e ∙ found) in
      elim next [
        | inl settled ↦
            let among : IsRate r = rw settled at w.phase_fits in
            (q, r, rung ∙ climb_settled ts q r settled, settled, among)
        | inr (higher, low) ↦
            let (q', r', done, settled, among) = climb_lem ts q (i + 1) w higher (omega arith) in
            (q', r', rung ∙ done, settled, among)
      ]

  -- The ladder ends: whatever the rungs measure short of a throttle, a new profiler that is
  -- evaluated after each half second is in the steady phase after at most seven evaluations, at
  -- one of the seven rates.
  pub climb-settles :
      (start : ℕ) (ts : List Traffic)
      → length ts ≡ 7
      → (q : BandwidthProfiler Float) × (r : ℕ) × (climb ts (new_profiler f start) ≡ some q)
        × (q.phase ≡ steady r)
        × IsRate r
  unfolding new_profiler
  climb-settles start ts h =
      climb_lem ts (new_profiler f start) 0 (new_IsProfiler start) refl (omega arith)
