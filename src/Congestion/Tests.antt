-- ===== src/Congestion/Tests.antt =====
-- The theorems on congestion control at concrete inputs, on the fixed-point floats.
use udpix.Base.{ℕ, ◌≡◌, refl, ◌⊎◌, List, [], ◌∷◌, some, replicate}
use udpix.Base.F64.{fixed}
use udpix.Congestion.Bucket.{BucketOp, to_set_rate, to_refill, to_consume}
use udpix.Congestion.Profiler.{
  BandwidthProfiler, steady, floor_rate, new_profiler, current_rate_bps,
}
use udpix.Congestion.Ladder.{IsRate}
use udpix.Congestion.Runs.{
  ProfilerEvent, bytes_sent, bytes_acked, timer, profiler_run, climb, Traffic, profiler_run_lem,
  climb-settles,
}

abbrev some_ops : List BucketOp
some_ops = to_consume 1472 ∷ to_set_rate 50000000 ∷ to_refill 4000000 ∷ to_consume 1472 ∷ []

abbrev some_events : List ProfilerEvent
some_events = bytes_sent 20000 ∷ bytes_acked 1000 1 ∷ timer 600000000 ∷ bytes_acked 0 700000000 ∷ []

profiler_run_lem_example :
    (q : BandwidthProfiler ℕ) × (r : ℕ) × (profiler_run fixed some_events (new_profiler fixed 0)
      ≡ some q)
    × (current_rate_bps fixed q ≡ some r)
    × (IsRate r ⊎ (r ≡ floor_rate))
profiler_run_lem_example = profiler_run_lem fixed 0 some_events

abbrev seven_rungs : List (Traffic fixed)
seven_rungs = replicate 7 (625000, 500000, 200000)

climb-settles_example :
    (q : BandwidthProfiler ℕ) × (r : ℕ) × (climb fixed seven_rungs (new_profiler fixed 0) ≡ some q)
    × (q.phase ≡ steady r)
    × IsRate r
climb-settles_example = climb-settles fixed 0 seven_rungs refl
