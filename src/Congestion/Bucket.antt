-- ===== src/Congestion/Bucket.antt =====
-- `TokenBucket` of crates/protocol/src/congestion.rs. A time is in nanoseconds; the clock that
-- the code reads is an argument.
use udpix.Base.{
  ℕ, ◌+◌, ◌-◌, ◌/◌, ◌%◌, ◌≡◌, refl, Bool, true, false, List, [], ◌∷◌, if◌then◌else◌, arith, inl,
  inr, Bool-cases,
}
use udpix.Base.F64.{F64, F64Laws}

pub record TokenBucket (Float : Type 0) : Type 0 where
  pub capacity_bytes : ℕ
  pub tokens : Float
  pub rate_bytes_per_sec : Float
  pub last_refill : ℕ

-- What the send loop asks of the bucket.
pub data BucketOp : Type 0 where
  to_set_rate : ℕ → BucketOp
  to_refill : ℕ → BucketOp
  to_consume : ℕ → BucketOp

module _ (f : F64) where
  open f use {Float, of_u64, add, sub, mul, div, minimum, le}

  -- `Duration::as_secs_f64`.
  abbrev pub as_secs : ℕ → Float
  as_secs ns = add (of_u64 (ns / 1000000000)) (div (of_u64 (ns % 1000000000)) (of_u64 1000000000))

  unfoldable pub new_bucket : ℕ → ℕ → TokenBucket Float
  new_bucket now rate_bps =
      let rate_bytes = div (of_u64 rate_bps) (of_u64 8) in
      record {
        capacity_bytes = 3000;
        tokens = div rate_bytes (of_u64 1000);
        rate_bytes_per_sec = rate_bytes;
        last_refill = now;
      }

  unfoldable pub set_rate : TokenBucket Float → ℕ → TokenBucket Float
  set_rate b rate_bps = record b {
    rate_bytes_per_sec = div (of_u64 rate_bps) (of_u64 8);
    tokens = minimum b.tokens (of_u64 b.capacity_bytes);
  }

  -- `duration_since` saturates.
  unfoldable pub refill : TokenBucket Float → ℕ → TokenBucket Float
  refill b now = record b {
    last_refill = now;
    tokens =
        minimum (add b.tokens (mul b.rate_bytes_per_sec (as_secs (now - b.last_refill))))
          (of_u64 b.capacity_bytes);
  }

  unfoldable pub try_consume : TokenBucket Float → ℕ → Bool × TokenBucket Float
  try_consume b bytes =
      if le (of_u64 bytes) b.tokens
      then (true, record b { tokens = sub b.tokens (of_u64 bytes) })
      else (false, b)

  unfoldable pub bucket_step : TokenBucket Float → BucketOp → TokenBucket Float
  bucket_step b (to_set_rate r) = set_rate b r
  bucket_step b (to_refill now) = refill b now
  bucket_step b (to_consume n) = (try_consume b n).1

  unfoldable pub bucket_run : TokenBucket Float → List BucketOp → TokenBucket Float
  bucket_run b [] = b
  bucket_run b (op ∷ ops) = bucket_run (bucket_step b op) ops

  -- The bytes of the datagrams that are let through one after the other, with no refill between.
  abbrev pub burst_bytes : TokenBucket Float → List ℕ → ℕ
  burst_bytes b [] = 0
  burst_bytes b (n ∷ ns) =
      let (granted, after) = try_consume b n in
      let rest = burst_bytes after ns in if granted then n + rest else rest

  abbrev pub IsCapped : TokenBucket Float → Type 0
  IsCapped b = le b.tokens (of_u64 b.capacity_bytes) ≡ true

module _ (f : F64) (laws : F64Laws f) where
  open f use {Float, of_u64, le}

  -- A datagram is let through exactly if the tokens cover its bytes. Then the tokens do not fall
  -- below zero, and otherwise the bucket does not change.
  pub try_consume_lem :
      (b : TokenBucket Float) (n : ℕ)
      → let (granted, after) = try_consume f b n in
        (granted ≡ le (of_u64 n) b.tokens)
        × (granted ≡ true → le (of_u64 0) after.tokens ≡ true)
        × (granted ≡ false → after ≡ b)
  unfolding try_consume
  try_consume_lem b n = elim (Bool-cases (le (of_u64 n) b.tokens)) [
    | inl e ↦ rw e (refl, (λ _. laws.sub-nonneg b.tokens n e), (λ h. ground arith))
    | inr e ↦ rw e (refl, (λ h. ground arith), (λ _. refl))
  ]
