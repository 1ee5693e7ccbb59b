-- ===== src/Base/F64.antt =====
-- The 64-bit floats as a parameter: the operations and literals that the program uses, and apart
-- from them the few facts of IEEE arithmetic that a theorem may ask for. `fixed` is a model in
-- millionths, by which definitions run and hypotheses are met.
use udpix.Base.Tests.{ltb, leb}
use Prim.Native.Nat.{ℕ, ◌+◌, ◌-◌, ◌*◌, ◌/◌, ◌^◌, ◌≤◌, min}
use mathlib.Core.Path.{◌≡◌}
use mathlib.Core.Bool.{Bool, true}
use native.Mathlib.Omega.{arith}

pub record F64 : Type 1 where
  pub Float : Type 0
  -- `n as f64`.
  pub of_u64 : ℕ → Float
  -- The literal of so many hundredths: `0.75` is `hundredths 75`.
  pub hundredths : ℕ → Float
  pub add : Float → Float → Float
  pub sub : Float → Float → Float
  pub mul : Float → Float → Float
  pub div : Float → Float → Float
  pub minimum : Float → Float → Float
  -- `a < b` and `a <= b`; `a > b` is `lt b a`.
  pub lt : Float → Float → Bool
  pub le : Float → Float → Bool

-- Facts that hold of every float, infinities and NaN included, since an integer is neither.
pub record F64Laws (f : F64) : Type 0 where
  pub minimum-le : (a : f.Float) (n : ℕ) → f.le (f.minimum a (f.of_u64 n)) (f.of_u64 n) ≡ true
  pub sub-nonneg :
      (a : f.Float) (n : ℕ)
      → f.le (f.of_u64 n) a ≡ true
      → f.le (f.of_u64 0) (f.sub a (f.of_u64 n)) ≡ true
  pub sub-le :
      (a : f.Float) (n : ℕ) → f.le (f.of_u64 n) a ≡ true → f.le (f.sub a (f.of_u64 n)) a ≡ true
  -- Below 2^53 the difference of a float and an integer that is not larger is exact.
  pub sub-sum :
      (a : f.Float) (k m n : ℕ)
      → k ≤ 2 ^ 53
      → f.le a (f.of_u64 k) ≡ true
      → f.le (f.of_u64 m) a ≡ true
      → f.le (f.of_u64 n) (f.sub a (f.of_u64 m)) ≡ true
      → f.le (f.of_u64 (m + n)) a ≡ true
  -- Up to 2^53 an integer is a float, so the conversion keeps the order.
  pub of_u64-le : (m n : ℕ) → n ≤ 2 ^ 53 → f.le (f.of_u64 m) (f.of_u64 n) ≡ true → m ≤ n
  pub le-trans : (a b c : f.Float) → f.le a b ≡ true → f.le b c ≡ true → f.le a c ≡ true

abbrev pub fixed : F64
fixed = record {
  Float = ℕ;
  of_u64 = λ n. n * 1000000;
  hundredths = λ n. n * 10000;
  add = λ a b. a + b;
  sub = λ a b. a - b;
  mul = λ a b. a * b / 1000000;
  div = λ a b. a * 1000000 / b;
  minimum = λ a b. min a b;
  lt = λ a b. ltb a b;
  le = λ a b. leb a b;
}

fixed-minimum : (a n : ℕ) → leb (min a (n * 1000000)) (n * 1000000) ≡ true
fixed-minimum a n = ground arith

fixed-sub : (a n : ℕ) → leb (n * 1000000) a ≡ true → leb 0 (a - n * 1000000) ≡ true
fixed-sub a n h = ground arith

fixed-sub-le : (a n : ℕ) → leb (n * 1000000) a ≡ true → leb (a - n * 1000000) a ≡ true
fixed-sub-le a n h = ground arith

fixed_trans : (a b c : ℕ) → leb a b ≡ true → leb b c ≡ true → leb a c ≡ true
fixed_trans a b c h h' = ground arith

fixed-sub_sum :
    (a k m n : ℕ)
    → k ≤ 2 ^ 53
    → leb a (k * 1000000) ≡ true
    → leb (m * 1000000) a ≡ true
    → leb (n * 1000000) (a - m * 1000000) ≡ true
    → leb ((m + n) * 1000000) a ≡ true
fixed-sub_sum a k m n small above inside more = ground arith

fixed-of_u64 : (m n : ℕ) → n ≤ 2 ^ 53 → leb (m * 1000000) (n * 1000000) ≡ true → m ≤ n
fixed-of_u64 m n small h = ground arith

pub fixed_laws : F64Laws fixed
fixed_laws = record {
  minimum-le = fixed-minimum;
  sub-nonneg = fixed-sub;
  sub-le = fixed-sub-le;
  sub-sum = fixed-sub_sum;
  of_u64-le = fixed-of_u64;
  le-trans = fixed_trans;
}
