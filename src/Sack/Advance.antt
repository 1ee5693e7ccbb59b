-- ===== src/Sack/Advance.antt =====
-- `advance_base` slides the window and loses no mark (crates/protocol/src/sack.rs).
use udpix.Base.{
  ℕ, zero, suc, ◌+◌, ◌-◌, ◌/◌, ◌%◌, ◌^◌, ◌≤◌, ◌<◌, ◌≡◌, refl, sym, ap, ◌∙◌, subst, false, ◌||◌,
  List, ltb, ◌==◌, length, get_or, replicate, arith, inl, inr, Bool-cases, ltb→lt, ltb→ge, ==→eq,
}
use udpix.Base.{get_or-replicate, get_or_past}
use udpix.Base.Bits.{bit, bit-zero}
use udpix.Sack.Payload.{
  SackPayload, IsPayload, sack_window, sack_words, is_received, advance_base, starting_at,
  shift_window, trim_count,
}
use udpix.Sack.Flags.{flag}
use udpix.Sack.Window.{flag-shift_window, shift_window-shape}
use udpix.Sack.Mark.{
  below, inside, beyond, place, is_received-below, is_received-inside, is_received-beyond,
}

trim_count-le : (n : ℕ) (ws : List ℕ) → trim_count n ws ≤ n
unfolding trim_count
trim_count-le zero ws = omega arith
trim_count-le (suc n) ws = ground (arith, trim_count-le n ws)

trim_count_zeros : (n : ℕ) (ws : List ℕ) (i : ℕ) → trim_count n ws ≤ i → i < n → get_or ws i 0 ≡ 0
unfolding trim_count
trim_count_zeros zero ws i h k = absurd (omega arith)
trim_count_zeros (suc n) ws i h k = elim (Bool-cases (i == n)) [
  | inl last ↦ ground (arith, ==→eq i n last)
  | inr other ↦ ground (arith, trim_count_zeros n ws i)
]

-- A flag past the sixteen words is not set.
flag_past : (p : SackPayload) (o : ℕ) → IsPayload p → sack_window ≤ o → flag p.words o ≡ false
unfolding flag
flag_past p o v h =
    let far : length p.words ≤ o / 64 = omega (arith, v.sixteen) in
    ap (λ (w : ℕ). bit w (o % 64)) (get_or_past p.words (o / 64) 0 far) ∙ bit-zero (o % 64)

flag-replicate : (n o : ℕ) → flag (replicate n 0) o ≡ false
unfolding flag
flag-replicate n o =
    ap (λ (w : ℕ). bit w (o % 64)) (get_or-replicate n (o / 64) 0) ∙ bit-zero (o % 64)

-- The three cases of `advance_base`.
advance_base-stays : (p : SackPayload) (n : ℕ) → n ≤ p.base_seq → advance_base p n ≡ p
unfolding advance_base
advance_base-stays p n h = ground arith

advance_base-clears :
    (p : SackPayload) (n : ℕ) → p.base_seq + sack_window ≤ n → advance_base p n ≡ starting_at n
unfolding advance_base starting_at
advance_base-clears p n h = ground arith

slid : SackPayload → ℕ → SackPayload
slid p n = record {
  base_seq = n;
  word_count = trim_count sack_words (shift_window (n - p.base_seq) p.words);
  words = shift_window (n - p.base_seq) p.words;
}

advance_base-slides :
    (p : SackPayload) (n : ℕ)
    → p.base_seq < n
    → n < p.base_seq + sack_window
    → advance_base p n ≡ slid p n
unfolding advance_base slid
advance_base-slides p n lo hi = ground arith

pub is_received-starting_at : (n t : ℕ) → is_received (starting_at n) t ≡ ltb t n
unfolding starting_at
is_received-starting_at n t = ground (
  arith,
  is_received-below (starting_at n) t,
  is_received-inside (starting_at n) t,
  is_received-beyond (starting_at n) t,
  flag-replicate sack_words (t - n),
)

flag-slid :
    (p : SackPayload) (n t : ℕ)
    → IsPayload p
    → p.base_seq < n
    → n < p.base_seq + sack_window
    → n ≤ t
    → flag (slid p n).words (t - n) ≡ flag p.words (t - p.base_seq)
unfolding slid
flag-slid p n t v lo hi after =
    let place : t - n + (n - p.base_seq) ≡ t - p.base_seq = omega arith in
    flag-shift_window (n - p.base_seq) p.words (t - n) (omega (arith, v.sixteen)) v.words_fit
    ∙ ap (flag p.words) place

is_received-slid :
    (p : SackPayload) (n t : ℕ)
    → IsPayload p
    → p.base_seq < n
    → n < p.base_seq + sack_window
    → is_received (slid p n) t ≡ ltb t n || is_received p t
unfolding slid
is_received-slid p n t v lo hi = elim (place n t) [
  | below h ↦ ground (arith, is_received-below (slid p n) t h)
  | beyond h ↦
      ground (arith, is_received-beyond (slid p n) t h, is_received-beyond p t (omega arith))
  | inside h k ↦ ground (
    arith,
    is_received-inside (slid p n) t h k,
    flag-slid p n t v lo hi h,
    is_received-inside p t (omega arith),
    is_received-beyond p t,
    flag_past p (t - p.base_seq) v,
  )
]

-- After the base has moved to `n`, everything below `n` counts as received, and every other
-- number is received exactly if it was before.
pub is_received-advance_base :
    (p : SackPayload) (n t : ℕ)
    → IsPayload p
    → is_received (advance_base p n) t ≡ ltb t n || is_received p t
is_received-advance_base p n t v = elim (place p.base_seq n) [
  | below h ↦ ground (arith, advance_base-stays p n (omega arith), is_received-below p t)
  | beyond h ↦
      ground (arith, advance_base-clears p n h, is_received-starting_at n t, is_received-beyond p t)
  | inside h k ↦ ground (
    arith,
    advance_base-stays p n,
    is_received-below p t,
    advance_base-slides p n,
    is_received-slid p n t v,
  )
]

slid-IsPayload :
    (p : SackPayload) (n : ℕ)
    → IsPayload p
    → n < 2 ^ 64
    → n < p.base_seq + sack_window
    → IsPayload (slid p n)
unfolding slid
slid-IsPayload p n v fits hi =
    let (len, words) =
      shift_window-shape (n - p.base_seq) p.words (omega (arith, v.sixteen)) v.words_fit in
    let shifted = shift_window (n - p.base_seq) p.words in
    record {
      base_fits = fits;
      count_fits = trim_count-le sack_words shifted;
      sixteen = len ∙ v.sixteen;
      words_fit = words;
      zero_behind = λ i behind. elim (Bool-cases (ltb i sack_words)) [
        | inl lt ↦ trim_count_zeros sack_words shifted i behind (ltb→lt _ _ lt)
        | inr ge ↦ get_or_past shifted i 0 (omega (arith, ltb→ge _ _ ge, len, v.sixteen))
      ];
    }

pub starting_at-IsPayload : (n : ℕ) → n < 2 ^ 64 → IsPayload (starting_at n)
unfolding starting_at
starting_at-IsPayload n fits = record {
  base_fits = fits;
  count_fits = omega arith;
  sixteen = refl;
  words_fit = omega arith;
  zero_behind = λ i _. get_or-replicate sack_words i 0;
}

pub advance_base-IsPayload :
    (p : SackPayload) (n : ℕ) → IsPayload p → n < 2 ^ 64 → IsPayload (advance_base p n)
advance_base-IsPayload p n v fits = elim (place (suc p.base_seq) n) [
  | below h ↦ subst IsPayload (sym (advance_base-stays p n (omega arith))) v
  | beyond h ↦
      subst IsPayload (sym (advance_base-clears p n (omega arith))) (starting_at-IsPayload n fits)
  | inside h k ↦ elim (Bool-cases (ltb n (p.base_seq + sack_window))) [
    | inl lt ↦
        subst IsPayload (sym (advance_base-slides p n (omega arith) (ltb→lt _ _ lt)))
          (slid-IsPayload p n v fits (ltb→lt _ _ lt))
    | inr ge ↦
        subst IsPayload (sym (advance_base-clears p n (ltb→ge _ _ ge)))
          (starting_at-IsPayload n fits)
  ]
]

pub base_seq-advance_base :
    (p : SackPayload) (n : ℕ) → p.base_seq ≤ n → (advance_base p n).base_seq ≡ n
unfolding advance_base
base_seq-advance_base p n h = ground arith
