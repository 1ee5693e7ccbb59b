-- ===== src/Sack/Flags.antt =====
-- The bitmap as a sequence of flags: what a write and each shift do to them
-- (crates/protocol/src/sack.rs).
use udpix.Base.{
  ℕ, zero, suc, ◌+◌, ◌-◌, ◌*◌, ◌/◌, ◌%◌, ◌^◌, ◌≤◌, ◌<◌, ◌≡◌, refl, sym, ap, ap₂, ◌∙◌, bit_or, Bool,
  true, false, ◌||◌, List, [], ◌∷◌, ◌++◌, ltb, ◌==◌, length, get_or, set, drop, replicate, All,
  arith, inl, inr, Bool-cases, ◌≢◌, ltb→lt, ltb→ge, ==→eq, eq→==, ne→==,
}
use udpix.Base.{
  get_or-set_self, get_or-set_ne, get_or-append_left, get_or-append_right, get_or-drop,
  get_or-replicate, get_or_past, length-drop, take-append_left, All-get_or,
}
use udpix.Base.Bits.{
  bit, bit_and-bit, bit-bit_or, bit_two_pow, bit_shift_right, bit_shift_left_low,
  bit_shift_left_high, bit_mod, bit_past,
}
use udpix.Base.Bytes.{u64}
use native.Mathlib.Nat.{zero-div}
use udpix.Sack.Payload.{has_bit, shift_words, shift_bits}

abbrev pub IsWord : ℕ → Type 0
IsWord w = w < 2 ^ 64

-- The flag of an offset, in plain arithmetic.
unfoldable pub flag : List ℕ → ℕ → Bool
flag ws o = bit (get_or ws (o / 64) 0) (o % 64)

pub has_bit-flag : (ws : List ℕ) (o : ℕ) → has_bit ws o ≡ flag ws o
unfolding has_bit flag
has_bit-flag ws o = bit_and-bit (get_or ws (o / 64) 0) (o % 64)

or-false : (b : Bool) → (b || false) ≡ b
or-false true = refl
or-false false = refl

-- `words[o / 64] |= 1 << (o % 64)` sets the flag `o` and no other.
pub flag-set :
    (ws : List ℕ) (o t : ℕ)
    → o < length ws * 64
    → flag (set ws (o / 64) (bit_or (get_or ws (o / 64) 0) (u64 (2 ^ (o % 64))))) t
      ≡ flag ws t || (o == t)
unfolding flag
flag-set ws o t h = elim (Bool-cases (o / 64 == t / 64)) [
  | inl same ↦
      let e : o / 64 ≡ t / 64 = ==→eq _ _ same in
      let inside : o / 64 < length ws = omega arith in
      let w = get_or ws (o / 64) 0 in
      ap (λ (x : ℕ). bit x (t % 64))
        (ap (λ (i : ℕ). get_or (set ws (o / 64) (bit_or w (u64 (2 ^ (o % 64))))) i 0) (sym e)
          ∙ get_or-set_self ws (o / 64) (bit_or w (u64 (2 ^ (o % 64)))) 0 inside)
      ∙ bit-bit_or (t % 64) w (u64 (2 ^ (o % 64)))
      ∙ ap₂ ◌||◌ (ap (λ (i : ℕ). bit (get_or ws i 0) (t % 64)) e) (
          bit_mod 64 (2 ^ (o % 64)) (t % 64) (omega arith)
          ∙ bit_two_pow (o % 64) (t % 64)
          ∙ ground arith)
  | inr other ↦
      let ne : o / 64 ≢ t / 64 = λ e. cc (other, eq→== _ _ e) in
      let differ : (o == t) ≡ false = ne→== o t (λ e. ne (ap (λ (x : ℕ). x / 64) e)) in
      rw
        (
          get_or-set_ne ws (o / 64) (t / 64) (bit_or (get_or ws (o / 64) 0) (u64 (2 ^ (o % 64)))) 0
              ne,
          differ,
        )
        (sym (or-false _))
]

-- Copying down and clearing the tail drops the first `k` words.
pub shift_words-eq :
    (k : ℕ) (ws : List ℕ) → k ≤ length ws → shift_words k ws ≡ drop k ws ++ replicate k 0
unfolding shift_words
shift_words-eq k ws h =
    ap (λ (xs : List ℕ). xs ++ replicate k 0)
      (take-append_left (drop k ws) (drop (length ws - k) ws) (length ws - k)
        (omega (arith, length-drop k ws)))

pub get_or-shift_words :
    (k : ℕ) (ws : List ℕ) (i : ℕ)
    → k ≤ length ws
    → get_or (shift_words k ws) i 0 ≡ get_or ws (k + i) 0
get_or-shift_words k ws i h =
    ap (λ (xs : List ℕ). get_or xs i 0) (shift_words-eq k ws h)
    ∙ elim (Bool-cases (ltb i (length (drop k ws)))) [
      | inl inside ↦
          get_or-append_left (drop k ws) (replicate k 0) i 0 (ltb→lt _ _ inside)
          ∙ get_or-drop ws k i 0
      | inr behind ↦
          let far : length (drop k ws) ≤ i = ltb→ge _ _ behind in
          get_or-append_right (drop k ws) (replicate k 0) i (i - length (drop k ws)) 0 (omega arith)
          ∙ get_or-replicate k _ 0
          ∙ sym (get_or_past ws (k + i) 0 (omega (arith, length-drop k ws)))
    ]

-- The words moved down by `k` places.
pub flag-shift_words :
    (k : ℕ) (ws : List ℕ) (o : ℕ) → k ≤ length ws → flag (shift_words k ws) o ≡ flag ws (o + k * 64)
unfolding flag
flag-shift_words k ws o h =
    let word : k + o / 64 ≡ (o + k * 64) / 64 = omega arith in
    let place : o % 64 ≡ (o + k * 64) % 64 = omega arith in
    ap₂ bit (get_or-shift_words k ws (o / 64) h ∙ ap (λ (i : ℕ). get_or ws i 0) word) place

-- A word of the shifted bitmap takes its upper bits from the next word.
abbrev joined : ℕ → ℕ → ℕ → ℕ
joined b w next = bit_or (w / 2 ^ b) (u64 (next * 2 ^ (64 - b)))

shift_bits_carry : (b : ℕ) (ws : List ℕ) → (shift_bits b ws).1 ≡ u64 (get_or ws 0 0 * 2 ^ (64 - b))
unfolding shift_bits
shift_bits_carry b [] = omega arith
shift_bits_carry b (w ∷ ws) = refl

get_or-shift_bits :
    (b : ℕ) (ws : List ℕ) (i : ℕ)
    → get_or (shift_bits b ws).0 i 0 ≡ joined b (get_or ws i 0) (get_or ws (suc i) 0)
unfolding shift_bits
get_or-shift_bits b [] i =
    let none_carried : u64 (0 * 2 ^ (64 - b)) ≡ 0 = omega arith in
    sym (ap₂ bit_or (zero-div (2 ^ b)) none_carried)
get_or-shift_bits b (w ∷ ws) zero = ap (bit_or (w / 2 ^ b)) (shift_bits_carry b ws)
get_or-shift_bits b (w ∷ ws) (suc i) = get_or-shift_bits b ws i

bit-joined_low : (b w next j : ℕ) → 0 < b → b + j < 64 → bit (joined b w next) j ≡ bit w (b + j)
bit-joined_low b w next j pos h =
    bit-bit_or j (w / 2 ^ b) (u64 (next * 2 ^ (64 - b)))
    ∙ ap₂ ◌||◌ (bit_shift_right w b j) (
        bit_mod 64 (next * 2 ^ (64 - b)) j (omega arith)
        ∙ bit_shift_left_low next (64 - b) j (omega arith))
    ∙ or-false _

bit-joined_high :
    (b w next j i : ℕ)
    → IsWord w
    → b < 64
    → j < 64
    → b + j ≡ 64 + i
    → bit (joined b w next) j ≡ bit next i
bit-joined_high b w next j i fits small inside e =
    bit-bit_or j (w / 2 ^ b) (u64 (next * 2 ^ (64 - b)))
    ∙ ap₂ ◌||◌ (bit_shift_right w b j ∙ bit_past 64 w (b + j) fits (omega arith)) (
        bit_mod 64 (next * 2 ^ (64 - b)) j inside
        ∙ ap (λ (k : ℕ). bit (next * 2 ^ (64 - b)) k) place
        ∙ bit_shift_left_high next (64 - b) i)
  where
    place : j ≡ 64 - b + i
    place = omega arith

-- The bits moved down by `b` places, across the words.
pub flag-shift_bits :
    (b : ℕ) (ws : List ℕ) (o : ℕ)
    → 0 < b
    → b < 64
    → All IsWord ws
    → flag (shift_bits b ws).0 o ≡ flag ws (o + b)
unfolding flag
flag-shift_bits b ws o pos small fit =
    ap (λ (w : ℕ). bit w (o % 64)) (get_or-shift_bits b ws (o / 64))
    ∙ elim (Bool-cases (ltb (b + o % 64) 64)) [
      | inl same_word ↦
          let low : b + o % 64 < 64 = ltb→lt _ _ same_word in
          let word : o / 64 ≡ (o + b) / 64 = omega arith in
          let place : b + o % 64 ≡ (o + b) % 64 = omega arith in
          bit-joined_low b (get_or ws (o / 64) 0) (get_or ws (suc (o / 64)) 0) (o % 64) pos low
          ∙ ap₂ bit (ap (λ (i : ℕ). get_or ws i 0) word) place
      | inr next_word ↦
          let high : 64 ≤ b + o % 64 = ltb→ge _ _ next_word in
          let word : suc (o / 64) ≡ (o + b) / 64 = omega arith in
          let place : b + o % 64 ≡ 64 + (o + b) % 64 = omega arith in
          bit-joined_high b (get_or ws (o / 64) 0) (get_or ws (suc (o / 64)) 0) (o % 64)
            ((o + b) % 64) (All-get_or IsWord ws (o / 64) 0 fit (omega arith)) small (omega arith)
            place
          ∙ ap (λ (i : ℕ). bit (get_or ws i 0) ((o + b) % 64)) word
    ]
