-- ===== src/Congestion/Ladder.antt =====
-- The profiler's state machine (crates/protocol/src/congestion.rs): which phase follows which, and
-- that no index leaves the table of rates.
use udpix.Base.{
  ℕ, zero, suc, ◌+◌, ◌-◌, ◌/◌, ◌<◌, ◌≡◌, refl, sym, ap, ◌∙◌, subst, true, false, ◌⊎◌, Option, none,
  some, ltb, if◌then◌else◌, length, get_or, get_elem?, set, contains, length-set, arith, inl, inr,
  Bool-cases,
}
use udpix.Base.F64.{F64}
use udpix.Congestion.Profiler.{
  BandwidthProfiler, ProberPhase, probing, steady, throttling, probe_steps, first_rate,
  on_bytes_acked, enter_throttle, evaluate_probe, evaluate_probing, evaluate_steady,
  current_rate_bps, keep_best, probe_panics, ladder_over, measured, probe_ratio,
  reset_step_counters, restart, count_acked, evaluate_in, ratio_of, probe_step_ms,
}

-- One of the seven rates.
abbrev pub IsRate : ℕ → Type 0
IsRate r = contains r probe_steps ≡ true

abbrev pub IsPhase : ProberPhase → Type 0
IsPhase (probing i) = i < 7
IsPhase (steady r) = IsRate r
IsPhase throttling = Unit {0}

pub record IsProfiler {Float : Type 0} (p : BandwidthProfiler Float) : Type 0 where
  pub seven_results : length p.probe_results ≡ 7
  pub phase_fits : IsPhase p.phase
  pub best_fits : IsRate p.best_rate_bps

-- Which phase may follow which.
pub data Transition : ProberPhase → ProberPhase → Type 0 where
  stay : (a : ProberPhase) → Transition a a
  climb_step : (i : ℕ) → i < 6 → Transition (probing i) (probing (i + 1))
  settle : (i r : ℕ) → Transition (probing i) (steady r)
  degrade : (r : ℕ) → Transition (steady r) (probing 0)
  recover : Transition throttling (probing 0)
  throttle : (a : ProberPhase) → Transition a throttling

phase_cases :
    (a : ProberPhase)
    → ((i : ℕ) × (a ≡ probing i)) ⊎ (((r : ℕ) × (a ≡ steady r)) ⊎ (a ≡ throttling))
phase_cases (probing i) = inl (i, refl)
phase_cases (steady r) = inr (inl (r, refl))
phase_cases throttling = inr (inr refl)

pub probe_steps-IsRate :
    (i : ℕ)
    → i < 7
    → (get_elem? probe_steps i ≡ some (get_or probe_steps i 0)) × IsRate (get_or probe_steps i 0)
probe_steps-IsRate zero h = (refl, refl)
probe_steps-IsRate (suc zero) h = (refl, refl)
probe_steps-IsRate (suc (suc zero)) h = (refl, refl)
probe_steps-IsRate (suc (suc (suc zero))) h = (refl, refl)
probe_steps-IsRate (suc (suc (suc (suc zero)))) h = (refl, refl)
probe_steps-IsRate (suc (suc (suc (suc (suc zero))))) h = (refl, refl)
probe_steps-IsRate (suc (suc (suc (suc (suc (suc zero)))))) h = (refl, refl)
probe_steps-IsRate (suc (suc (suc (suc (suc (suc (suc i))))))) h = absurd (omega arith)

module _ (f : F64) where
  open f use {Float, of_u64, hundredths, mul, lt}

  -- What one call promises of the state before, the state after and the returned rate.
  abbrev pub Promise : BandwidthProfiler Float → BandwidthProfiler Float → Option ℕ → Type 0
  Promise p q r =
      IsProfiler q
      × Transition p.phase q.phase
      × (((r ≡ none) × (p.phase ≡ q.phase)) ⊎ (current_rate_bps f q ≡ r))

  no_panic :
      (p : BandwidthProfiler Float) (i : ℕ) (ratio : Float)
      → i < 7
      → length p.probe_results ≡ 7
      → probe_panics f p i ratio ≡ false
  unfolding probe_panics
  no_panic p i ratio h seven = elim (Bool-cases (lt p.best_goodput ratio)) [
    | inl e ↦ rw e (ground arith)
    | inr e ↦ rw e (ground arith)
  ]

  keep_best_lem :
      (p : BandwidthProfiler Float) (i : ℕ) (ratio : Float)
      → i < 7
      → IsRate p.best_rate_bps
      → IsRate (keep_best f p i ratio).best_rate_bps
  unfolding keep_best
  keep_best_lem p i ratio h best = elim (Bool-cases (lt p.best_goodput ratio)) [
    | inl e ↦ rw e (probe_steps-IsRate i h).1
    | inr e ↦ rw e best
  ]

  last_rung :
      (p : BandwidthProfiler Float) (i : ℕ) (ratio : Float)
      → ladder_over f p i ratio ≡ false
      → i < 6
  unfolding ladder_over
  last_rung p i ratio h = ground arith

  first_rung :
      (q : BandwidthProfiler Float) → q.phase ≡ probing 0 → current_rate_bps f q ≡ some first_rate
  unfolding current_rate_bps
  first_rung q e = rw e

  probing-Transition :
      (i r : ℕ) (b : ProberPhase)
      → (b ≡ steady r) ⊎ ((b ≡ probing (i + 1)) × (i < 6))
      → Transition (probing i) b
  probing-Transition i r b (inl e) = rw e (settle i r)
  probing-Transition i r b (inr (e, low)) = rw e (climb_step i low)

  -- A measured rung leads to the steady phase at the best rate or to the next rung.
  pub evaluate_probing_lem :
      (p : BandwidthProfiler Float) (i now : ℕ)
      → i < 7
      → length p.probe_results ≡ 7
      → IsRate p.best_rate_bps
      → (q : BandwidthProfiler Float) × (r : ℕ) × (evaluate_probing f p i now ≡ some (q, some r))
        × IsProfiler q
        × (current_rate_bps f q ≡ some r)
        × (q.step_start ≡ now)
        × ((q.phase ≡ steady r) ⊎ ((q.phase ≡ probing (i + 1)) × (i < 6)))
  unfolding evaluate_probing reset_step_counters current_rate_bps
  evaluate_probing_lem p i now h seven best =
      let ratio = probe_ratio f (measured f p) in
      let kept = keep_best f p i ratio in
      let results = set p.probe_results i (measured f p) in
      let q : BandwidthProfiler Float = record kept { probe_results = results } in
      let safe = no_panic p i ratio h seven in
      let best' = keep_best_lem p i ratio h best in
      let seven' : length results ≡ 7 = length-set p.probe_results i (measured f p) ∙ seven in
      elim (Bool-cases (ladder_over f q i ratio)) [
        | inl e ↦ (
          reset_step_counters f (record q { phase = steady q.best_rate_bps }) now,
          q.best_rate_bps,
          rw (safe, e) refl,
          record { seven_results = seven'; phase_fits = best'; best_fits = best' },
          refl,
          refl,
          inl refl,
        )
        | inr e ↦
            let low = last_rung q i ratio e in
            let (found, rate) = probe_steps-IsRate (i + 1) (omega arith) in
            (
              reset_step_counters f (record q { phase = probing (i + 1) }) now,
              get_or probe_steps (i + 1) 0,
              rw (safe, e) refl,
              record { seven_results = seven'; phase_fits = omega arith; best_fits = best' },
              found,
              refl,
              inr (refl, low),
            )
      ]

  steady_rate :
      (p : BandwidthProfiler Float) (r : ℕ) → p.phase ≡ steady r → current_rate_bps f p ≡ some r
  unfolding current_rate_bps
  steady_rate p r e = rw e

  evaluate_steady-Promise :
      (p : BandwidthProfiler Float) (r now : ℕ)
      → IsProfiler p
      → p.phase ≡ steady r
      → let out = evaluate_steady f p r now in Promise p out.0 out.1
  unfolding evaluate_steady reset_step_counters
  evaluate_steady-Promise p r now v e =
      let current =
        if ltb 0 p.step_bytes_sent
        then ratio_of f p.step_bytes_acked p.step_bytes_sent
        else of_u64 1 in
      elim (Bool-cases (lt current (mul p.best_goodput (hundredths 80)))) [
        | inl low ↦
            rw (low, e)
              (
                record {
                  seven_results = v.seven_results;
                  phase_fits = omega arith;
                  best_fits = refl;
                },
                degrade r,
                inr (first_rung (reset_step_counters f (restart f p) now) refl),
              )
        | inr fine ↦ rw fine (
          record {
            seven_results = v.seven_results;
            phase_fits = v.phase_fits;
            best_fits = v.best_fits;
          },
          stay p.phase,
          inr (steady_rate (reset_step_counters f p now) r e),
        )
      ]

  evaluate_due :
      (p : BandwidthProfiler Float) (now : ℕ)
      → IsProfiler p
      → (q : BandwidthProfiler Float) × (r : Option ℕ) × (evaluate_in f p.phase p now ≡ some (q, r))
        × Promise p q r
  unfolding reset_step_counters
  evaluate_due p now v = elim (phase_cases p.phase) [
    | inl (i, e) ↦
        let fits : i < 7 = rw e at v.phase_fits in
        let (q, r, found, w, rate, _, next) =
          evaluate_probing_lem p i now fits v.seven_results v.best_fits in
        let found' : evaluate_in f p.phase p now ≡ some (q, some r) =
          subst (λ a. evaluate_in f a p now ≡ some (q, some r)) (sym e) found in
        let next' : Transition p.phase q.phase =
          subst (λ a. Transition a q.phase) (sym e) (probing-Transition i r q.phase next) in
        (q, some r, found', (w, next', inr rate))
    | inr (inl (r, e)) ↦
        let out = evaluate_steady f p r now in
        let found : evaluate_in f p.phase p now ≡ some (out.0, out.1) =
          ap (λ (a : ProberPhase). evaluate_in f a p now) e in
        (out.0, out.1, found, evaluate_steady-Promise p r now v e)
    | inr (inr e) ↦
        let q : BandwidthProfiler Float =
          reset_step_counters f (record (restart f p) { loss_ema = of_u64 0 }) now in
        let found : evaluate_in f p.phase p now ≡ some (q, some first_rate) =
          ap (λ (a : ProberPhase). evaluate_in f a p now) e in
        let next : Transition p.phase (probing 0) =
          subst (λ a. Transition a (probing 0)) (sym e) recover in
        let w : IsProfiler q = record {
          seven_results = v.seven_results;
          phase_fits = omega arith;
          best_fits = refl;
        } in
        (q, some first_rate, found, (w, next, inr (first_rung q refl)))
  ]

  -- One evaluation never panics. It keeps the invariant, changes the phase along the state
  -- machine, and returns no rate, in which case the phase stays, or that of the new phase.
  pub evaluate_probe-Promise :
      (p : BandwidthProfiler Float) (now : ℕ)
      → IsProfiler p
      → (q : BandwidthProfiler Float) × (r : Option ℕ) × (evaluate_probe f p now ≡ some (q, r))
        × Promise p q r
  unfolding evaluate_probe
  evaluate_probe-Promise p now v =
      elim (Bool-cases (ltb ((now - p.step_start) / 1000000) probe_step_ms)) [
        | inl e ↦ rw e (p, none, refl, (v, stay p.phase, inl (refl, refl)))
        | inr e ↦ rw e (evaluate_due p now v)
      ]

  enter_throttle-Promise :
      (p : BandwidthProfiler Float) (now : ℕ)
      → IsProfiler p
      → let out = enter_throttle f p now in Promise p out.0 out.1
  unfolding enter_throttle reset_step_counters current_rate_bps
  enter_throttle-Promise p now v =
      let w : IsProfiler (record (reset_step_counters f p now) { phase = throttling }) = record {
        seven_results = v.seven_results;
        phase_fits = tt;
        best_fits = v.best_fits;
      } in
      elim (phase_cases p.phase) [
        | inl (i, e) ↦ rw e (w, throttle (probing i), inr refl)
        | inr (inl (r, e)) ↦ rw e (w, throttle (steady r), inr refl)
        | inr (inr e) ↦ rw e (
          record { seven_results = v.seven_results; phase_fits = tt; best_fits = v.best_fits },
          stay throttling,
          inl (refl, refl),
        )
      ]

  -- The same of an acknowledgement, which can only throttle.
  pub on_bytes_acked-Promise :
      (p : BandwidthProfiler Float) (n now : ℕ)
      → IsProfiler p
      → let out = on_bytes_acked f p n now in Promise p out.0 out.1
  unfolding on_bytes_acked count_acked
  on_bytes_acked-Promise p n now v =
      let q = count_acked f p n in
      let w : IsProfiler q = record {
        seven_results = v.seven_results;
        phase_fits = v.phase_fits;
        best_fits = v.best_fits;
      } in
      elim (Bool-cases (lt (hundredths 30) q.loss_ema)) [
        | inl e ↦ rw e (enter_throttle-Promise q now w)
        | inr e ↦ rw e (w, stay p.phase, inl (refl, refl))
      ]
