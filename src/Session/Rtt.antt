-- ===== src/Session/Rtt.antt =====
-- The RTT estimators against RFC 6298 (crates/protocol/src/session.rs).
use udpix.Base.{
  ℕ, ◌+◌, ◌-◌, ◌*◌, ◌/◌, ◌^◌, ◌≤◌, ◌<◌, ◌≡◌, ◌≢◌, refl, min, max, List, [], ◌∷◌, leb, ◌==◌, arith,
  inl, inr, Bool-cases, ==→eq, eq→==, ne→==,
}
use udpix.Base.Bytes.{u64}
use udpix.Session.{
  SessionStats, new_stats, deviation, update_rtt, rto, handle_pong, min_rto, max_rto,
}

-- |a - b|.
abbrev pub distance : ℕ → ℕ → ℕ
distance a b = max a b - min a b

pub deviation-distance : (a b : ℕ) → a < 2 ^ 63 → b < 2 ^ 63 → deviation a b ≡ distance a b
unfolding deviation
deviation-distance a b ha hb = ground arith

first_sample :
    (s : SessionStats) (r : ℕ)
    → s.srtt_us ≡ 0
    → update_rtt s r ≡ record s { srtt_us = r; rttvar_us = r / 2 }
unfolding update_rtt
first_sample s r z = rw (eq→== _ _ z)

later_sample :
    (s : SessionStats) (r : ℕ)
    → s.srtt_us ≢ 0
    → update_rtt s r ≡ record s {
      srtt_us = u64 (u64 (7 * s.srtt_us) / 8 + r / 8);
      rttvar_us = u64 (u64 (3 * s.rttvar_us) / 4 + deviation s.srtt_us r / 4);
    }
unfolding update_rtt
later_sample s r nz = rw (ne→== _ _ nz)

-- The first sample sets both estimators. A later one moves SRTT to 7/8 SRTT + 1/8 R and RTTVAR to
-- 3/4 RTTVAR + 1/4 |SRTT - R|, each lower by less than 2 for the truncated divisions. It holds
-- where three times RTTVAR and seven times SRTT fit 64 bits. The counters do not change.
pub update_rtt_lem :
    (s : SessionStats) (r : ℕ)
    → s.srtt_us < 2 ^ 61
    → s.rttvar_us < 2 ^ 61
    → r < 2 ^ 61
    → let t = update_rtt s r in
      (s.srtt_us ≡ 0 → (t.srtt_us ≡ r) × (t.rttvar_us ≡ r / 2))
      × (s.srtt_us ≢ 0
          → (8 * t.srtt_us ≤ 7 * s.srtt_us + r)
            × (7 * s.srtt_us + r < 8 * t.srtt_us + 16)
            × (4 * t.rttvar_us ≤ 3 * s.rttvar_us + distance s.srtt_us r)
            × (3 * s.rttvar_us + distance s.srtt_us r < 4 * t.rttvar_us + 8))
      × (t.packets_sent ≡ s.packets_sent)
      × (t.bytes_acked ≡ s.bytes_acked)
update_rtt_lem s r hs hv hr = elim (Bool-cases (s.srtt_us == 0)) [
  | inl e ↦
      let z = ==→eq _ _ e in
      rw (first_sample s r z) ((λ _. (refl, refl)), (λ nz. absurd (nz z)), refl, refl)
  | inr e ↦
      let nz : s.srtt_us ≢ 0 = ground arith in
      let d = deviation-distance s.srtt_us r (omega arith) (omega arith) in
      rw (later_sample s r nz, d)
        (
          (λ z. absurd (nz z)),
          (λ _. (ground arith, ground arith, ground arith, ground arith)),
          refl,
          refl,
        )
]

-- The timeout lies between 200 ms and 10 s whatever the estimators hold, and is
-- SRTT + 4 RTTVAR where that lies between them.
pub rto_bounds :
    (s : SessionStats)
    → (min_rto ≤ rto s)
      × (rto s ≤ max_rto)
      × (s.rttvar_us < 2 ^ 62
          → min_rto ≤ s.srtt_us + 4 * s.rttvar_us
          → s.srtt_us + 4 * s.rttvar_us ≤ max_rto
          → rto s ≡ s.srtt_us + 4 * s.rttvar_us)
unfolding rto
rto_bounds s = (ground arith, ground arith, λ h lo hi. ground arith)

-- A stream of PONGs, each with the time at which it is handled and the timestamp that it echoes.
unfoldable pub handle_pongs : SessionStats → List (ℕ × ℕ) → SessionStats
handle_pongs s [] = s
handle_pongs s ((now, ts) ∷ more) = handle_pongs (handle_pong s now ts) more

-- No PONG shows a round trip above `m`; one from the future is not counted.
abbrev pub Within : ℕ → List (ℕ × ℕ) → Type 0
Within m [] = Unit {0}
Within m ((now, ts) ∷ more) = (now ≤ ts + m) × Within m more

update_rtt_bounded :
    (s : SessionStats) (r m : ℕ)
    → m < 2 ^ 60
    → r ≤ m
    → s.srtt_us ≤ m
    → s.rttvar_us ≤ max 5000 m
    → ((update_rtt s r).srtt_us ≤ m) × ((update_rtt s r).rttvar_us ≤ max 5000 m)
update_rtt_bounded s r m small hr hs hv = elim (Bool-cases (s.srtt_us == 0)) [
  | inl e ↦ rw (first_sample s r (==→eq _ _ e)) (hr, ground arith)
  | inr e ↦
      let nz : s.srtt_us ≢ 0 = ground arith in
      let d = deviation-distance s.srtt_us r (omega arith) (omega arith) in
      rw (later_sample s r nz, d) (ground arith, ground arith)
]

handle_pongs_bounded_from :
    (m : ℕ) (pongs : List (ℕ × ℕ)) (s : SessionStats)
    → m < 2 ^ 60
    → Within m pongs
    → s.srtt_us ≤ m
    → s.rttvar_us ≤ max 5000 m
    → ((handle_pongs s pongs).srtt_us ≤ m) × ((handle_pongs s pongs).rttvar_us ≤ max 5000 m)
unfolding handle_pongs handle_pong
handle_pongs_bounded_from m [] s small within hs hv = (hs, hv)
handle_pongs_bounded_from m ((now, ts) ∷ more) s small (h, within) hs hv =
    elim (Bool-cases (leb ts now)) [
      | inl e ↦
          let (hs', hv') = update_rtt_bounded s (now - ts) m small (omega arith) hs hv in
          rw (e, handle_pongs, handle_pong)
            (handle_pongs_bounded_from m more (update_rtt s (now - ts)) small within hs' hv')
      | inr e ↦
          rw (e, handle_pongs, handle_pong) (handle_pongs_bounded_from m more s small within hs hv)
    ]

-- Whatever PONGs come, SRTT never exceeds the longest round trip that one of them showed, and
-- RTTVAR never exceeds that or the initial 5 ms. It holds for round trips shorter than 2^60 microseconds.
pub handle_pongs_bounded :
    (m : ℕ) (pongs : List (ℕ × ℕ))
    → m < 2 ^ 60
    → Within m pongs
    → ((handle_pongs new_stats pongs).srtt_us ≤ m)
      × ((handle_pongs new_stats pongs).rttvar_us ≤ max 5000 m)
unfolding new_stats
handle_pongs_bounded m pongs small within =
    handle_pongs_bounded_from m pongs new_stats small within (omega arith) (omega arith)
