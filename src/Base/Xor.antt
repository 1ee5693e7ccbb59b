-- ===== src/Base/Xor.antt =====
-- When `^` and `|` give zero, and how `^` is undone.
use udpix.Base.Bits.{lowest_digit, bit_or_step}
use Prim.Native.Nat.{
  ℕ, zero, suc, ◌+◌, ◌*◌, ◌/◌, ◌%◌, ◌^◌, ◌≤◌, ◌<◌, differ, bit_or, bit_or-bitwise, bit_xor,
  bit_xor-bitwise,
}
use mathlib.Core.Path.{◌≡◌, refl, ap, ◌∙◌}
use native.Mathlib.Omega.{arith}
use native.Mathlib.Nat.{pow-suc}

differ_self : (x : ℕ) → differ x x ≡ 0
differ_self zero = refl
differ_self (suc x) = differ_self x

differ_zero : (x y : ℕ) → differ x y ≡ 0 → x ≡ y
differ_zero zero y h = omega arith
differ_zero (suc x) zero h = absurd (omega arith)
differ_zero (suc x) (suc y) h = ap suc (differ_zero x y h)

bit_xor_step :
    (x y : ℕ) → bit_xor (suc x) y ≡ differ (suc x % 2) (y % 2) + 2 * bit_xor (suc x / 2) (y / 2)
bit_xor_step x y = simp bit_xor-bitwise (lowest_digit (λ k. k) differ x y)

bit_xor_nil : (y : ℕ) → bit_xor 0 y ≡ y
bit_xor_nil y = simp bit_xor-bitwise refl

self_fuel : (n x : ℕ) → x ≤ n → bit_xor x x ≡ 0
self_fuel n zero h = bit_xor_nil 0
self_fuel zero (suc x) h = absurd (omega arith)
self_fuel (suc n) (suc x) h =
    omega (
      arith,
      bit_xor_step x (suc x),
      differ_self (suc x % 2),
      self_fuel n (suc x / 2) (omega arith),
    )

pub bit_xor_self : (x : ℕ) → bit_xor x x ≡ 0
bit_xor_self x = self_fuel x x (omega arith)

zero_fuel : (n x y : ℕ) → x ≤ n → bit_xor x y ≡ 0 → x ≡ y
zero_fuel n zero y h e = omega (arith, bit_xor_nil y)
zero_fuel zero (suc x) y h e = absurd (omega arith)
zero_fuel (suc n) (suc x) y h e =
    let step = bit_xor_step x y in
    let digit : suc x % 2 ≡ y % 2 = differ_zero (suc x % 2) (y % 2) (omega (arith, step)) in
    let halves : suc x / 2 ≡ y / 2 =
      zero_fuel n (suc x / 2) (y / 2) (omega arith) (omega (arith, step)) in
    omega (arith, digit, halves)

pub bit_xor_zero : (x y : ℕ) → bit_xor x y ≡ 0 → x ≡ y
bit_xor_zero x y e = zero_fuel x x y (omega arith) e

bit_or_nil : (y : ℕ) → bit_or 0 y ≡ y
bit_or_nil y = simp bit_or-bitwise refl

or_fuel : (n x y : ℕ) → x ≤ n → bit_or x y ≡ 0 → (x ≡ 0) × (y ≡ 0)
or_fuel n zero y h e = (refl, omega (arith, bit_or_nil y))
or_fuel zero (suc x) y h e = absurd (omega arith)
or_fuel (suc n) (suc x) y h e =
    let step = bit_or_step (suc x) y in
    let (low, high) = or_fuel n (suc x / 2) (y / 2) (omega arith) (omega (arith, step)) in
    (omega (arith, step), omega (arith, step))

pub bit_or_zero : (x y : ℕ) → bit_or x y ≡ 0 → (x ≡ 0) × (y ≡ 0)
bit_or_zero x y e = or_fuel x x y (omega arith) e

-- The lowest digit and the others, for every number.
bit_xor_digits : (x y : ℕ) → bit_xor x y ≡ differ (x % 2) (y % 2) + 2 * bit_xor (x / 2) (y / 2)
bit_xor_digits zero y = omega (arith, bit_xor_nil y, bit_xor_nil (y / 2))
bit_xor_digits (suc x) y = bit_xor_step x y

differ_digits : (a b : ℕ) → a < 2 → b < 2 → (differ (differ a b) b ≡ a) × (differ a b < 2)
differ_digits zero zero ha hb = omega arith
differ_digits zero (suc zero) ha hb = omega arith
differ_digits zero (suc (suc b)) ha hb = absurd (omega arith)
differ_digits (suc zero) zero ha hb = omega arith
differ_digits (suc zero) (suc zero) ha hb = omega arith
differ_digits (suc zero) (suc (suc b)) ha hb = absurd (omega arith)
differ_digits (suc (suc a)) b ha hb = absurd (omega arith)

pub bit_xor-lt : (n a b : ℕ) → a < 2 ^ n → b < 2 ^ n → bit_xor a b < 2 ^ n
bit_xor-lt zero zero zero ha hb = omega (arith, bit_xor_nil 0)
bit_xor-lt zero (suc a) b ha hb = absurd (omega arith)
bit_xor-lt zero zero (suc b) ha hb = absurd (omega arith)
bit_xor-lt (suc n) a b ha hb =
    let lo : bit_xor (a / 2) (b / 2) < 2 ^ n =
      bit_xor-lt n (a / 2) (b / 2) (omega (arith, pow-suc 2 n)) (omega (arith, pow-suc 2 n)) in
    let (_, digit) = differ_digits (a % 2) (b % 2) (omega arith) (omega arith) in
    omega (arith, digit, bit_xor_digits a b, pow-suc 2 n)

-- A second exclusive or with the same key gives the number back, where both fit `n` bits.
pub bit_xor_twice : (n x key : ℕ) → x < 2 ^ n → key < 2 ^ n → bit_xor (bit_xor x key) key ≡ x
bit_xor_twice zero x key hx hk =
    let none_left : x ≡ 0 = omega arith in
    let no_key : key ≡ 0 = omega arith in rw (none_left, no_key) (bit_xor_self 0)
bit_xor_twice (suc n) x key hx hk =
    let a = bit_xor x key in
    let (back, digit) = differ_digits (x % 2) (key % 2) (omega arith) (omega arith) in
    let low : a % 2 ≡ differ (x % 2) (key % 2) = omega (arith, digit, bit_xor_digits x key) in
    let high : a / 2 ≡ bit_xor (x / 2) (key / 2) = omega (arith, digit, bit_xor_digits x key) in
    let rest : bit_xor (bit_xor (x / 2) (key / 2)) (key / 2) ≡ x / 2 =
      bit_xor_twice n (x / 2) (key / 2) (omega (arith, pow-suc 2 n)) (omega (arith, pow-suc 2 n)) in
    let first : differ (a % 2) (key % 2) ≡ x % 2 = ap (λ (t : ℕ). differ t (key % 2)) low ∙ back in
    let others : bit_xor (a / 2) (key / 2) ≡ x / 2 =
      ap (λ (t : ℕ). bit_xor t (key / 2)) high ∙ rest in
    omega (arith, first, others, bit_xor_digits a key)
