-- ===== src/Sack/Window.antt =====
-- What the shifts of `advance_base`, by words and then by bits, do to the flags of the bitmap
-- (crates/protocol/src/sack.rs).
use udpix.Base.{
  ℕ, zero, suc, ◌+◌, ◌*◌, ◌/◌, ◌%◌, ◌^◌, ◌≤◌, ◌<◌, ◌≡◌, refl, sym, ap, ◌∙◌, Bool, true, false, List,
  [], ◌∷◌, ltb, if◌then◌else◌, length, drop, replicate, All, arith, inl, inr, Bool-cases, ltb→lt,
  ltb→ge, lt→ltb, subst,
}
use udpix.Base.{length-drop, length-append, length-replicate, All-append, All-drop}
use udpix.Base.Bits.{bit_or-lt}
use native.Mathlib.Nat.{div-le_self}
use udpix.Sack.Payload.{shift_words, shift_bits, shift_window}
use udpix.Sack.Flags.{IsWord, flag, shift_words-eq, flag-shift_words, flag-shift_bits}

-- The first stage of `shift_window`.
abbrev moved : ℕ → List ℕ → List ℕ
moved k ws = if ltb 0 k then shift_words k ws else ws

moved-suc : (k : ℕ) (ws : List ℕ) → moved (suc k) ws ≡ shift_words (suc k) ws
moved-suc k ws = rw (lt→ltb 0 (suc k) (omega arith))

flag-moved :
    (k : ℕ) (ws : List ℕ) (o : ℕ) → k ≤ length ws → flag (moved k ws) o ≡ flag ws (o + k * 64)
flag-moved zero ws o h = ap (flag ws) (omega arith)
flag-moved (suc k) ws o h =
    ap (λ (xs : List ℕ). flag xs o) (moved-suc k ws) ∙ flag-shift_words (suc k) ws o h

shift_words-IsWord :
    (k : ℕ) (ws : List ℕ) → k ≤ length ws → All IsWord ws → All IsWord (shift_words k ws)
shift_words-IsWord k ws h fit =
    rw (shift_words-eq k ws h)
      (All-append IsWord (drop k ws) (replicate k 0) (All-drop IsWord k ws fit) (zeros k))
  where
    zeros : (n : ℕ) → All IsWord (replicate n 0)
    zeros zero = tt
    zeros (suc n) = (omega arith, zeros n)

length-shift_words : (k : ℕ) (ws : List ℕ) → k ≤ length ws → length (shift_words k ws) ≡ length ws
length-shift_words k ws h = rw (shift_words-eq k ws h) (
    omega (
      arith,
      length-append (drop k ws) (replicate k 0),
      length-drop k ws,
      length-replicate k (zero),
    ))

moved-IsWord : (k : ℕ) (ws : List ℕ) → k ≤ length ws → All IsWord ws → All IsWord (moved k ws)
moved-IsWord zero ws h fit = fit
moved-IsWord (suc k) ws h fit =
    subst (All IsWord) (sym (moved-suc k ws)) (shift_words-IsWord (suc k) ws h fit)

length-moved : (k : ℕ) (ws : List ℕ) → k ≤ length ws → length (moved k ws) ≡ length ws
length-moved zero ws h = refl
length-moved (suc k) ws h = ap length (moved-suc k ws) ∙ length-shift_words (suc k) ws h

-- Any shift below the window, by words and then by bits.
pub flag-shift_window :
    (shift : ℕ) (ws : List ℕ) (o : ℕ)
    → shift / 64 ≤ length ws
    → All IsWord ws
    → flag (shift_window shift ws) o ≡ flag ws (o + shift)
unfolding shift_window
flag-shift_window shift ws o h fit = elim (Bool-cases (ltb 0 (shift % 64))) [
  | inl bits ↦
      let pos : 0 < shift % 64 = ltb→lt _ _ bits in
      let place : o + shift % 64 + shift / 64 * 64 ≡ o + shift = omega arith in
      ap
        (λ (t : Bool).
          flag
            (if t
              then (shift_bits (shift % 64) (moved (shift / 64) ws)).0
              else moved (shift / 64) ws)
            o)
        bits
      ∙ flag-shift_bits (shift % 64) (moved (shift / 64) ws) o pos (omega arith)
          (moved-IsWord (shift / 64) ws h fit)
      ∙ flag-moved (shift / 64) ws (o + shift % 64) h
      ∙ ap (flag ws) place
  | inr whole ↦
      let none_left : shift % 64 ≤ 0 = ltb→ge _ _ whole in
      let place : o + shift / 64 * 64 ≡ o + shift = omega arith in
      ap
        (λ (t : Bool).
          flag
            (if t
              then (shift_bits (shift % 64) (moved (shift / 64) ws)).0
              else moved (shift / 64) ws)
            o)
        whole
      ∙ flag-moved (shift / 64) ws o h
      ∙ ap (flag ws) place
]

-- The shifted bitmap is again one of as many 64-bit words.
shift_bits-shape :
    (b : ℕ) (ws : List ℕ)
    → All IsWord ws
    → (length (shift_bits b ws).0 ≡ length ws)
      × All IsWord (shift_bits b ws).0
      × IsWord (shift_bits b ws).1
unfolding shift_bits
shift_bits-shape b [] fit = (refl, tt, omega arith)
shift_bits-shape b (w ∷ ws) fit =
    let (len, fits, carry) = shift_bits-shape b ws fit.1 in
    (
      ap suc len,
      (
        bit_or-lt 64 (w / 2 ^ b) (shift_bits b ws).1 (omega (arith, div-le_self w (2 ^ b), fit.0))
            carry,
        fits,
      ),
      omega arith,
    )

pub shift_window-shape :
    (shift : ℕ) (ws : List ℕ)
    → shift / 64 ≤ length ws
    → All IsWord ws
    → (length (shift_window shift ws) ≡ length ws) × All IsWord (shift_window shift ws)
unfolding shift_window
shift_window-shape shift ws h fit =
    let k = shift / 64 in
    let len = length-moved k ws h in
    let fits = moved-IsWord k ws h fit in
    let (len', fits', _) = shift_bits-shape (shift % 64) (moved k ws) fits in
    elim (ltb 0 (shift % 64))
      as (λ t.
        (length (if t then (shift_bits (shift % 64) (moved k ws)).0 else moved k ws) ≡ length ws)
        × All IsWord (if t then (shift_bits (shift % 64) (moved k ws)).0 else moved k ws)) [
          | true ↦ (len' ∙ len, fits')
          | false ↦ (len, fits)
        ]
