-- ===== src/Base/Bits.antt =====
-- Bits of a machine word: what `|`, `&`, `^`, `<<` and `>>` do to each of them.
use udpix.Base.Tests.{◌==◌}
use Prim.Native.Nat.{
  ℕ, zero, suc, ◌+◌, ◌-◌, ◌*◌, ◌/◌, ◌%◌, ◌^◌, ◌≤◌, ◌<◌, min, max, digits, bitwise, bit_and, bit_or,
  bit_and-bitwise, bit_or-bitwise,
}
use mathlib.Core.Path.{◌≡◌, refl, sym, ap, ◌∙◌}
use mathlib.Core.Bool.{Bool, false, ◌||◌}
use native.Mathlib.Nat.{
  le_refl, le_trans, pow-zero, pow-suc, pow-succ', pow-le-pow_right, one-le-pow, zero-div,
  div-eq_of_lt, div-div-eq-div-mul, mul-div_cancel, mod-eq-sub-mul-div, mul-div-le,
}
use native.Mathlib.Omega.{arith}

-- A native operation runs through the binary digits of its first operand on as much fuel as that
-- operand is large. One round more than enough changes nothing, so none of the spare rounds does.
module _ (rest : ℕ → ℕ) (on_digit : ℕ → ℕ → ℕ) where
  one_round_more :
      (fuel x y : ℕ)
      → x ≤ fuel
      → digits rest on_digit (suc fuel) x y ≡ digits rest on_digit fuel x y
  one_round_more fuel zero y enough = go fuel
    where
      go : (k : ℕ) → digits rest on_digit (suc k) 0 y ≡ digits rest on_digit k 0 y
      go zero = refl
      go (suc k) = refl
  one_round_more zero (suc x) y enough = absurd (omega arith)
  one_round_more (suc fuel) (suc x) y enough =
      rw (one_round_more fuel (suc x / 2) (y / 2) (omega arith))

  spare_rounds : (spare x y : ℕ) → digits rest on_digit (spare + x) x y ≡ digits rest on_digit x x y
  spare_rounds zero x y = ap (λ (k : ℕ). digits rest on_digit k x y) (omega arith)
  spare_rounds (suc spare) x y =
      let shifted : suc spare + x ≡ suc (spare + x) = omega arith in
      ap (λ (k : ℕ). digits rest on_digit k x y) shifted
      ∙ one_round_more (spare + x) x y (omega arith)
      ∙ spare_rounds spare x y

  pub lowest_digit :
      (x y : ℕ)
      → bitwise rest on_digit (suc x) y
        ≡ on_digit (suc x % 2) (y % 2) + 2 * bitwise rest on_digit (suc x / 2) (y / 2)
  lowest_digit x y =
      let half = suc x / 2 in
      let split : x - half + half ≡ x = omega arith in
      let dropped : digits rest on_digit x half (y / 2) ≡ digits rest on_digit half half (y / 2) =
        ap (λ (k : ℕ). digits rest on_digit k half (y / 2)) (sym split)
        ∙ spare_rounds (x - half) half (y / 2) in
      omega (arith, dropped)

pub bit_or_step : (x y : ℕ) → bit_or x y ≡ max (x % 2) (y % 2) + 2 * bit_or (x / 2) (y / 2)
bit_or_step zero y = rw (bit_or-bitwise, bit_or-bitwise) (omega arith)
bit_or_step (suc x) y = simp bit_or-bitwise (lowest_digit (λ k. k) max x y)

pub bit_and_step : (x y : ℕ) → bit_and x y ≡ min (x % 2) (y % 2) + 2 * bit_and (x / 2) (y / 2)
bit_and_step zero y = simp bit_and-bitwise (omega arith)
bit_and_step (suc x) y = simp bit_and-bitwise (lowest_digit (λ k. 0) min x y)

-- `(a >> k) & 1 == 1`, in plain arithmetic.
unfoldable pub bit : ℕ → ℕ → Bool
bit a k = a / 2 ^ k % 2 == 1

and_zero : (n a : ℕ) → a ≤ n → bit_and a 0 ≡ 0
and_zero n zero h = refl
and_zero zero (suc a) h = absurd (omega arith)
and_zero (suc n) (suc a) h =
    omega (arith, bit_and_step (suc a) 0, and_zero n (suc a / 2) (omega arith))

pub bit_and-one : (a : ℕ) → bit_and a 1 ≡ a % 2
bit_and-one a = omega (arith, bit_and_step a 1, and_zero (a / 2) (a / 2) (le_refl _))

-- The test as the code writes it.
pub bit_and-bit : (a k : ℕ) → (bit_and (a / 2 ^ k) 1 == 1) ≡ bit a k
unfolding bit
bit_and-bit a k = rw (bit_and-one (a / 2 ^ k))

pub shift-suc : (a k : ℕ) → a / 2 ^ suc k ≡ a / 2 / 2 ^ k
shift-suc a k = ap (λ (t : ℕ). a / t) (pow-succ' 2 k) ∙ sym (div-div-eq-div-mul a 2 (2 ^ k))

pub bit-suc : (a k : ℕ) → bit a (suc k) ≡ bit (a / 2) k
unfolding bit
bit-suc a k = ap (λ (t : ℕ). t % 2 == 1) (shift-suc a k)

pub bit-bit_or : (k a b : ℕ) → bit (bit_or a b) k ≡ bit a k || bit b k
unfolding bit
bit-bit_or zero a b = ground (arith, bit_or_step a b)
bit-bit_or (suc k) a b =
    bit-suc (bit_or a b) k
    ∙ ap (λ (t : ℕ). bit t k) half
    ∙ bit-bit_or k (a / 2) (b / 2)
    ∙ rw (bit-suc a k, bit-suc b k) refl
  where
    half : bit_or a b / 2 ≡ bit_or (a / 2) (b / 2)
    half = omega (arith, bit_or_step a b)

pub bit-zero : (k : ℕ) → bit 0 k ≡ false
unfolding bit
bit-zero k = rw (zero-div (2 ^ k))

pow-add : (n s k : ℕ) → n ^ (s + k) ≡ n ^ s * n ^ k
pow-add n zero k =
    let e : zero + k ≡ k = omega arith in
    let one : n ^ zero * n ^ k ≡ 1 * n ^ k = ap (λ (t : ℕ). t * n ^ k) (pow-zero n) in
    omega (arith, ap (λ (t : ℕ). n ^ t) e, one)
pow-add n (suc s) k =
    let e : suc s + k ≡ suc (s + k) = omega arith in
    omega (
      arith,
      ap (λ (t : ℕ). n ^ t) e,
      pow-suc n (s + k),
      ap (λ (t : ℕ). t * n) (pow-add n s k),
      ap (λ (t : ℕ). t * n ^ k) (pow-suc n s),
    )

pub bit_shift_right : (a s k : ℕ) → bit (a / 2 ^ s) k ≡ bit a (s + k)
unfolding bit
bit_shift_right a s k =
    ap (λ (t : ℕ). t % 2 == 1)
      (div-div-eq-div-mul a (2 ^ s) (2 ^ k) ∙ ap (λ (t : ℕ). a / t) (sym (pow-add 2 s k)))

pub bit_shift_left_low : (a s k : ℕ) → k < s → bit (a * 2 ^ s) k ≡ false
unfolding bit
bit_shift_left_low a zero k h = absurd (omega arith)
bit_shift_left_low a (suc s) zero h = ground (arith, ap (λ (t : ℕ). a * t) (pow-suc 2 s))
bit_shift_left_low a (suc s) (suc k) h =
    bit-suc _ k ∙ ap (λ (t : ℕ). bit t k) half ∙ bit_shift_left_low a s k (omega arith)
  where
    half : a * 2 ^ suc s / 2 ≡ a * 2 ^ s
    half = omega (arith, ap (λ (t : ℕ). a * t) (pow-suc 2 s))

pub bit_shift_left_high : (a s k : ℕ) → bit (a * 2 ^ s) (s + k) ≡ bit a k
bit_shift_left_high a s k =
    sym (bit_shift_right (a * 2 ^ s) s k)
    ∙ ap (λ (t : ℕ). bit t k) (mul-div_cancel a (one-le-pow s 2 (omega arith)))

mod_half : (a t : ℕ) → a % (2 * t) / 2 ≡ a / 2 % t
mod_half a t = omega (
  arith,
  mod-eq-sub-mul-div a (2 * t),
  mod-eq-sub-mul-div (a / 2) t,
  ap (λ (q : ℕ). t * q) (div-div-eq-div-mul a 2 t),
)

pub bit_mod : (n a k : ℕ) → k < n → bit (a % 2 ^ n) k ≡ bit a k
unfolding bit
bit_mod zero a k h = absurd (omega arith)
bit_mod (suc n) a zero h = ap (λ (t : ℕ). t == 1) parity
  where
    parity : a % 2 ^ suc n / 1 % 2 ≡ a / 1 % 2
    parity = omega (
      arith,
      mod-eq-sub-mul-div a (2 ^ suc n),
      mul-div-le a (2 ^ suc n),
      ap (λ (t : ℕ). t * (a / 2 ^ suc n)) (pow-succ' 2 n),
    )
bit_mod (suc n) a (suc k) h =
    bit-suc _ k
    ∙ ap (λ (t : ℕ). bit t k) (ap (λ (t : ℕ). a % t / 2) (pow-succ' 2 n) ∙ mod_half a (2 ^ n))
    ∙ bit_mod n (a / 2) k (omega arith)
    ∙ sym (bit-suc a k)

pub bit_past : (n a k : ℕ) → a < 2 ^ n → n ≤ k → bit a k ≡ false
unfolding bit
bit_past n a k h le =
    ap (λ (t : ℕ). t % 2 == 1)
      (div-eq_of_lt (le_trans h (pow-le-pow_right {n = 2} (omega arith) le)))

pub bit_two_pow : (i k : ℕ) → bit (2 ^ i) k ≡ (i == k)
unfolding bit
bit_two_pow zero zero = refl
bit_two_pow zero (suc k) = bit_past 1 1 (suc k) (omega arith) (omega arith) ∙ ground arith
bit_two_pow (suc i) zero = ground (arith, pow-suc 2 i)
bit_two_pow (suc i) (suc k) =
    bit-suc _ k ∙ ap (λ (t : ℕ). bit t k) half ∙ bit_two_pow i k ∙ ground arith
  where
    half : 2 ^ suc i / 2 ≡ 2 ^ i
    half = omega (arith, pow-suc 2 i)

pub bit_or-lt : (n a b : ℕ) → a < 2 ^ n → b < 2 ^ n → bit_or a b < 2 ^ n
bit_or-lt zero zero zero ha hb = omega arith
bit_or-lt zero (suc a) b ha hb = absurd (omega arith)
bit_or-lt zero zero (suc b) ha hb = absurd (omega arith)
bit_or-lt (suc n) a b ha hb =
    let lo : bit_or (a / 2) (b / 2) < 2 ^ n =
      bit_or-lt n (a / 2) (b / 2) (omega (arith, pow-suc 2 n)) (omega (arith, pow-suc 2 n)) in
    omega (arith, bit_or_step a b, pow-suc 2 n)
