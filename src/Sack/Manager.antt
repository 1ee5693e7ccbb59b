-- ===== src/Sack/Manager.antt =====
-- `SackManager` of crates/protocol/src/sack.rs. Durations are in milliseconds.
use udpix.Base.{ℕ, zero, suc, ◌+◌, ◌-◌, ltb, leb, if◌then◌else◌}
use udpix.Base.Bytes.{u64}
use udpix.Base.F64.{F64}
use udpix.Sack.Payload.{
  SackPayload, starting_at, mark_received, is_received, advance_base, sack_window,
}

pub record SackManager (Float : Type 0) : Type 0 where
  pub payload : SackPayload
  pub packets_since_last_sack : ℕ
  pub expected_since_last_sack : ℕ
  pub heartbeat_interval : ℕ
  pub next_expected_seq : ℕ
  pub loss_ema : Float

-- `while payload.is_received(new_base) { new_base += 1 }`, with fuel.
unfoldable pub first_missing : ℕ → SackPayload → ℕ → ℕ
first_missing zero p n = n
first_missing (suc fuel) p n =
    let rest = first_missing fuel p (u64 (n + 1)) in if is_received p n then rest else n

-- The first number past the window is never received, so a window and one more round are enough where
-- that number is below 2^64. From there on the loop of the code wraps around and does not end, which
-- is not modelled.
abbrev pub base_fuel : ℕ
base_fuel = sack_window + 1

unfoldable pub record_arrival : SackPayload → ℕ → SackPayload
record_arrival p seq =
    let marked = mark_received p seq in
    let new_base = first_missing base_fuel marked marked.base_seq in
    if ltb marked.base_seq new_base then advance_base marked new_base else marked

module _ (f : F64) where
  open f use {Float, of_u64, hundredths, add, sub, mul, div, lt}

  unfoldable pub new : ℕ → SackManager Float
  new initial_seq = record {
    payload = starting_at initial_seq;
    packets_since_last_sack = 0;
    expected_since_last_sack = 0;
    heartbeat_interval = 5;
    next_expected_seq = initial_seq;
    loss_ema = of_u64 0;
  }

  unfoldable pub on_packet_received : SackManager Float → ℕ → SackManager Float
  on_packet_received m seq = record m {
    payload = record_arrival m.payload seq;
    packets_since_last_sack = u64 (m.packets_since_last_sack + 1);
    expected_since_last_sack =
        if leb m.next_expected_seq seq
        then u64 (m.expected_since_last_sack + (seq - m.next_expected_seq + 1))
        else m.expected_since_last_sack;
    next_expected_seq = if leb m.next_expected_seq seq then u64 (seq + 1) else m.next_expected_seq;
  }

  -- The share of the expected packets that did not arrive since the last tick.
  unfoldable pub interval_loss : SackManager Float → Float
  interval_loss m =
      let received = m.packets_since_last_sack in
      let expected = m.expected_since_last_sack in
      if leb expected received
      then of_u64 0
      else div (of_u64 (expected - received)) (of_u64 expected)

  unfoldable pub next_ema : SackManager Float → Float
  unfolding interval_loss
  next_ema m =
      if ltb 0 m.expected_since_last_sack
      then add (mul (hundredths 75) m.loss_ema) (mul (hundredths 25) (interval_loss m))
      else m.loss_ema

  unfoldable pub interval_for : Float → ℕ
  interval_for ema = if lt (hundredths 20) ema then 1 else if lt (hundredths 10) ema then 3 else 5

  -- The payload that `tick` returns is that of the new state.
  unfoldable pub tick : SackManager Float → SackManager Float
  unfolding next_ema interval_for
  tick m = record m {
    loss_ema = next_ema m;
    packets_since_last_sack = 0;
    expected_since_last_sack = 0;
    heartbeat_interval = interval_for (next_ema m);
  }
