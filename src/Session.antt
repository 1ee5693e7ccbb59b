-- ===== src/Session.antt =====
-- crates/protocol/src/session.rs: RTT estimators and counters of a session, and `handle_pong` of
-- crates/protocol/src/sender.rs. Every atomic is a field, since one call reads and writes it in
-- one go; the products and sums are written with their 64-bit wrap-around.
pub mod Rtt
mod Tests
use udpix.Base.{ℕ, ◌+◌, ◌-◌, ◌*◌, ◌/◌, ◌^◌, min, max, List, [], ◌∷◌, ltb, leb, ◌==◌, if◌then◌else◌}
use udpix.Base.Bytes.{u64}
use udpix.Base.F64.{F64}
use Prim.Native.String.{String}

pub data SessionState : Type 0 where
  connecting active draining closed : SessionState
  failed : String → SessionState

pub record SessionStats : Type 0 where
  pub srtt_us : ℕ
  pub rttvar_us : ℕ
  pub packets_sent : ℕ
  pub packets_acked : ℕ
  pub bytes_sent : ℕ
  pub bytes_acked : ℕ
  pub retransmits : ℕ

unfoldable pub new_stats : SessionStats
new_stats = record {
  srtt_us = 0;
  rttvar_us = 5000;
  packets_sent = 0;
  packets_acked = 0;
  bytes_sent = 0;
  bytes_acked = 0;
  retransmits = 0;
}

-- `(a as i64 - b as i64).unsigned_abs()`: the difference as a 64-bit pattern, read as signed.
unfoldable pub deviation : ℕ → ℕ → ℕ
deviation a b = let d = u64 (a + 2 ^ 64 - b) in if ltb d (2 ^ 63) then d else 2 ^ 64 - d

unfoldable pub update_rtt : SessionStats → ℕ → SessionStats
update_rtt s rtt_us =
    if s.srtt_us == 0 then record s { srtt_us = rtt_us; rttvar_us = rtt_us / 2 } else record s {
      srtt_us = u64 (u64 (7 * s.srtt_us) / 8 + rtt_us / 8);
      rttvar_us = u64 (u64 (3 * s.rttvar_us) / 4 + deviation s.srtt_us rtt_us / 4);
    }

abbrev pub min_rto : ℕ
min_rto = 200000

abbrev pub max_rto : ℕ
max_rto = 10000000

-- In microseconds. `saturating_add`, then `clamp`.
unfoldable pub rto : SessionStats → ℕ
rto s =
    let rto_us = min (s.srtt_us + u64 (4 * s.rttvar_us)) (2 ^ 64 - 1) in
    if ltb rto_us min_rto then min_rto else if ltb max_rto rto_us then max_rto else rto_us

-- The current time is an argument.
unfoldable pub handle_pong : SessionStats → ℕ → ℕ → SessionStats
handle_pong s now pong_ts_us = if leb pong_ts_us now then update_rtt s (now - pong_ts_us) else s

module _ (f : F64) where
  open f use {Float, of_u64, div, minimum}

  -- `sent.saturating_sub(acked)`.
  unfoldable pub loss_rate : SessionStats → Float
  loss_rate s =
      if s.packets_sent == 0
      then of_u64 0
      else div (of_u64 (s.packets_sent - s.packets_acked)) (of_u64 s.packets_sent)

  unfoldable pub goodput_ratio : SessionStats → Float
  goodput_ratio s =
      if s.bytes_sent == 0
      then of_u64 0
      else minimum (div (of_u64 s.bytes_acked) (of_u64 s.bytes_sent)) (of_u64 1)
