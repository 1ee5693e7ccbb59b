-- ===== src/Congestion/Profiler.antt =====
-- `BandwidthProfiler` of crates/protocol/src/congestion.rs. A time is in nanoseconds; the clock that
-- the code reads is an argument.
use udpix.Base.{
  ℕ, ◌+◌, ◌-◌, ◌/◌, Bool, ◌||◌, ◌&&◌, List, [], ◌∷◌, Option, none, some, ltb, leb, ◌==◌,
  if◌then◌else◌, length, get_or, get_elem?, set, replicate,
}
use udpix.Base.Bytes.{u64}
use udpix.Base.F64.{F64}

abbrev pub probe_steps : List ℕ
probe_steps = 10000000 ∷ 50000000 ∷ 100000000 ∷ 200000000 ∷ 500000000 ∷ 1000000000 ∷ 2000000000 ∷ []

abbrev pub floor_rate : ℕ
floor_rate = 5000000

-- `PROBE_STEPS_BPS[0]`.
abbrev pub first_rate : ℕ
first_rate = 10000000

abbrev pub probe_step_ms : ℕ
probe_step_ms = 500

pub data ProberPhase : Type 0 where
  probing : ℕ → ProberPhase
  steady : ℕ → ProberPhase
  throttling : ProberPhase

pub record ProbeResult : Type 0 where
  pub bytes_sent : ℕ
  pub bytes_acked : ℕ

abbrev pub no_result : ProbeResult
no_result = record { bytes_sent = 0; bytes_acked = 0 }

pub record BandwidthProfiler (Float : Type 0) : Type 0 where
  pub phase : ProberPhase
  pub probe_results : List ProbeResult
  pub step_bytes_sent : ℕ
  pub step_bytes_acked : ℕ
  pub step_start : ℕ
  pub loss_ema : Float
  pub best_rate_bps : ℕ
  pub best_goodput : Float

module _ (f : F64) where
  open f use {Float, of_u64, hundredths, add, sub, mul, div, minimum, lt}

  -- The quotient that `ProbeResult::goodput_ratio` and the profiler share.
  abbrev pub ratio_of : ℕ → ℕ → Float
  ratio_of acked sent = minimum (div (of_u64 acked) (of_u64 sent)) (of_u64 1)

  unfoldable pub probe_ratio : ProbeResult → Float
  probe_ratio r = if r.bytes_sent == 0 then of_u64 0 else ratio_of r.bytes_acked r.bytes_sent

  unfoldable pub new_profiler : ℕ → BandwidthProfiler Float
  new_profiler now = record {
    phase = probing 0;
    probe_results = replicate 7 no_result;
    step_bytes_sent = 0;
    step_bytes_acked = 0;
    step_start = now;
    loss_ema = of_u64 0;
    best_rate_bps = first_rate;
    best_goodput = of_u64 0;
  }

  unfoldable pub on_bytes_sent : BandwidthProfiler Float → ℕ → BandwidthProfiler Float
  on_bytes_sent p n = record p { step_bytes_sent = u64 (p.step_bytes_sent + n) }

  unfoldable pub reset_step_counters : BandwidthProfiler Float → ℕ → BandwidthProfiler Float
  reset_step_counters p now = record p {
    step_bytes_sent = 0;
    step_bytes_acked = 0;
    step_start = now;
  }

  abbrev throttle_from :
      ProberPhase → BandwidthProfiler Float → ℕ → BandwidthProfiler Float × Option ℕ
  throttle_from throttling p now = (p, none)
  throttle_from _ p now =
      (reset_step_counters (record p { phase = throttling }) now, some floor_rate)

  unfoldable pub enter_throttle : BandwidthProfiler Float → ℕ → BandwidthProfiler Float × Option ℕ
  enter_throttle p now = throttle_from p.phase p now

  -- The state after the bytes are counted and the loss estimate is updated.
  unfoldable pub count_acked : BandwidthProfiler Float → ℕ → BandwidthProfiler Float
  count_acked p n =
      let acked = u64 (p.step_bytes_acked + n) in
      record p {
        step_bytes_acked = acked;
        loss_ema =
            if ltb 0 p.step_bytes_sent
            then add (mul (hundredths 80) p.loss_ema)
                (mul (hundredths 20) (sub (of_u64 1) (ratio_of acked p.step_bytes_sent)))
            else p.loss_ema;
      }

  unfoldable pub on_bytes_acked :
      BandwidthProfiler Float → ℕ → ℕ → BandwidthProfiler Float × Option ℕ
  on_bytes_acked p n now =
      let q = count_acked p n in
      if lt (hundredths 30) q.loss_ema then enter_throttle q now else (q, none)

  -- A step of the ladder that has been measured.
  unfoldable pub keep_best : BandwidthProfiler Float → ℕ → Float → BandwidthProfiler Float
  keep_best p idx ratio =
      if lt p.best_goodput ratio
      then record p { best_goodput = ratio; best_rate_bps = get_or probe_steps idx 0 }
      else p

  -- Indexing past the rates or past the results is a panic.
  unfoldable pub probe_panics : BandwidthProfiler Float → ℕ → Float → Bool
  probe_panics p idx ratio =
      (lt p.best_goodput ratio && leb 7 idx) || leb (length p.probe_results) idx

  -- The rates are used up, or the goodput fell below 95 % of that of the step before.
  unfoldable pub ladder_over : BandwidthProfiler Float → ℕ → Float → Bool
  ladder_over p idx ratio =
      leb 7 (idx + 1)
      || (ltb 0 idx
          && lt ratio
              (mul (probe_ratio (get_or p.probe_results (idx - 1) no_result)) (hundredths 95)))

  unfoldable pub measured : BandwidthProfiler Float → ProbeResult
  measured p = record { bytes_sent = p.step_bytes_sent; bytes_acked = p.step_bytes_acked }

  unfoldable pub evaluate_probing :
      BandwidthProfiler Float → ℕ → ℕ → Option (BandwidthProfiler Float × Option ℕ)
  evaluate_probing p idx now =
      let ratio = probe_ratio (measured p) in
      let kept = keep_best p idx ratio in
      let q = record kept { probe_results = set p.probe_results idx (measured p) } in
      if probe_panics p idx ratio
      then none
      else if ladder_over q idx ratio
      then some (
        reset_step_counters (record q { phase = steady q.best_rate_bps }) now,
        some q.best_rate_bps,
      )
      else some (
        reset_step_counters (record q { phase = probing (idx + 1) }) now,
        some (get_or probe_steps (idx + 1) 0),
      )

  abbrev pub restart : BandwidthProfiler Float → BandwidthProfiler Float
  restart p = record p { phase = probing 0; best_goodput = of_u64 0; best_rate_bps = first_rate }

  unfoldable pub evaluate_steady :
      BandwidthProfiler Float → ℕ → ℕ → BandwidthProfiler Float × Option ℕ
  evaluate_steady p rate_bps now =
      let current =
        if ltb 0 p.step_bytes_sent
        then ratio_of p.step_bytes_acked p.step_bytes_sent
        else of_u64 1 in
      if lt current (mul p.best_goodput (hundredths 80))
      then (reset_step_counters (restart p) now, some first_rate)
      else (reset_step_counters p now, some rate_bps)

  abbrev pub evaluate_in :
      ProberPhase → BandwidthProfiler Float → ℕ → Option (BandwidthProfiler Float × Option ℕ)
  evaluate_in (probing idx) p now = evaluate_probing p idx now
  evaluate_in (steady rate_bps) p now = some (evaluate_steady p rate_bps now)
  evaluate_in throttling p now =
      some (reset_step_counters (record (restart p) { loss_ema = of_u64 0 }) now, some first_rate)

  -- `as_millis` truncates. The inner `Option` is what the code returns, `none` outside a panic.
  unfoldable pub evaluate_probe :
      BandwidthProfiler Float → ℕ → Option (BandwidthProfiler Float × Option ℕ)
  evaluate_probe p now =
      if ltb ((now - p.step_start) / 1000000) probe_step_ms
      then some (p, none)
      else evaluate_in p.phase p now

  abbrev pub rate_in : ProberPhase → Option ℕ
  rate_in (probing idx) = get_elem? probe_steps idx
  rate_in (steady rate_bps) = some rate_bps
  rate_in throttling = some floor_rate

  -- `none` is the panic of an index past the rates.
  unfoldable pub current_rate_bps : BandwidthProfiler Float → Option ℕ
  current_rate_bps p = rate_in p.phase
