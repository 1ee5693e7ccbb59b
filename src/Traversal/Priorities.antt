-- ===== src/Traversal/Priorities.antt =====
-- Priorities of candidates and of pairs (crates/traversal/src/ice.rs).
use udpix.Base.{
  ℕ, zero, suc, ◌+◌, ◌*◌, ◌/◌, ◌%◌, ◌^◌, ◌≤◌, ◌<◌, ◌≡◌, refl, ap, ap₂, ◌∙◌, bit_or, min, max, ltb,
  if◌then◌else◌, arith,
}
use udpix.Base.Bits.{bit_or_step}
use native.Mathlib.Nat.{pow-suc}
use udpix.Base.Bytes.{u64}
use udpix.Traversal.Ice.{
  CandidateType, host, server_reflexive, relayed, type_preference, compute_priority, controlling,
  controlled, pair_priority,
}

bit_or-zero : (n a : ℕ) → a ≤ n → bit_or a 0 ≡ a
bit_or-zero n zero h = omega (arith, bit_or_step 0 0)
bit_or-zero zero (suc a) h = absurd (omega arith)
bit_or-zero (suc n) (suc a) h =
    omega (arith, bit_or_step (suc a) 0, bit_or-zero n (suc a / 2) (omega arith))

-- Numbers with no bit in common are added.
bit_or-add : (n a b : ℕ) → b < 2 ^ n → bit_or (a * 2 ^ n) b ≡ a * 2 ^ n + b
bit_or-add zero a zero h =
    let one : a * 2 ^ 0 ≡ a = omega arith in
    ap (λ (t : ℕ). bit_or t 0) one ∙ bit_or-zero a a (omega arith) ∙ omega arith
bit_or-add zero a (suc b) h = absurd (omega arith)
bit_or-add (suc n) a b h =
    let double : a * 2 ^ suc n ≡ a * 2 ^ n * 2 =
      omega (arith, ap (λ (t : ℕ). a * t) (pow-suc 2 n)) in
    let half : a * 2 ^ suc n / 2 ≡ a * 2 ^ n = omega (arith, double) in
    let even : a * 2 ^ suc n % 2 ≡ 0 = omega (arith, double) in
    let rest : bit_or (a * 2 ^ suc n / 2) (b / 2) ≡ a * 2 ^ n + b / 2 =
      ap (λ (t : ℕ). bit_or t (b / 2)) half ∙ bit_or-add n a (b / 2) (omega (arith, pow-suc 2 n)) in
    omega (arith, rest, bit_or_step (a * 2 ^ suc n) b, even, half)

three_parts :
    (low high tie : ℕ)
    → low < 2 ^ 31
    → high < 2 ^ 31
    → tie < 2
    → bit_or (bit_or (u64 (low * 2 ^ 32)) (u64 (high * 2))) tie ≡ low * 2 ^ 32 + high * 2 + tie
three_parts low high tie hl hh ht =
    let a : u64 (low * 2 ^ 32) ≡ low * 2 ^ 32 = omega arith in
    let b : u64 (high * 2) ≡ high * 2 = omega arith in
    let even : low * 2 ^ 32 + high * 2 ≡ (low * 2 ^ 31 + high) * 2 ^ 1 = omega arith in
    ap₂ (λ (x y : ℕ). bit_or (bit_or x y) tie) a b
    ∙ ap (λ (t : ℕ). bit_or t tie) (bit_or-add 32 low (high * 2) (omega arith) ∙ even)
    ∙ bit_or-add 1 (low * 2 ^ 31 + high) tie (omega arith)
    ∙ omega arith

tie-lt : (d g : ℕ) → (if ltb d g then 1 else 0) < 2
tie-lt d g = ground arith

-- A candidate of a better type has the higher priority, and among those of one type that with the
-- higher preference; all priorities are below 2^31. It holds for preferences of 16 bits.
pub compute_priority_lem :
    (a b lo hi : ℕ) (t : CandidateType)
    → a < 2 ^ 16
    → b < 2 ^ 16
    → lo < hi
    → hi < 2 ^ 16
    → let priority =
        λ (t : CandidateType) (pref : ℕ). compute_priority (type_preference t) pref 1 in
      (priority server_reflexive a < priority host b)
      × (priority relayed a < priority server_reflexive b)
      × (priority host a < 2 ^ 31)
      × (priority t lo < priority t hi)
unfolding compute_priority
compute_priority_lem a b lo hi t ha hb less fits = (
  omega arith,
  omega arith,
  omega arith,
  elim t [ host ↦ omega arith | server_reflexive ↦ omega arith | relayed ↦ omega arith ],
)

-- Both agents rank a pair alike: the lower of the two priorities first, then the higher, then a bit
-- that says whether the controlling side has the higher. It holds for priorities below 2^31, where
-- the three parts do not run into each other.
pub pair_priority_lem :
    (g d : ℕ)
    → g < 2 ^ 31
    → d < 2 ^ 31
    → (pair_priority g d controlling ≡ pair_priority d g controlled)
      × (pair_priority g d controlling
          ≡ min g d * 2 ^ 32 + max g d * 2 + (if ltb d g then 1 else 0))
unfolding pair_priority
pair_priority_lem g d hg hd = (
  refl,
  three_parts (min g d) (max g d) (if ltb d g then 1 else 0) (omega arith) (omega arith)
      (tie-lt d g),
)
