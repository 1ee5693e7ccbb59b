-- ===== src/Sack/Mark.antt =====
-- `mark_received` against `is_received`, and what it keeps (crates/protocol/src/sack.rs).
use udpix.Base.{
  ℕ, ◌+◌, ◌-◌, ◌/◌, ◌%◌, ◌^◌, ◌≤◌, ◌<◌, ◌≡◌, ◌≢◌, sym, ◌∙◌, subst, bit_or, true, false, ◌||◌, ◌&&◌,
  max, ◌⊎◌, List, ltb, ◌==◌, get_or, set, arith, inl, inr, Bool-cases, ltb→lt, ltb→ge, lt→ltb,
}
use udpix.Base.{length-set, get_or-set_ne, All-set, All-get_or}
use udpix.Base.Bits.{bit_or-lt}
use udpix.Base.Bytes.{u64}
use udpix.Sack.Payload.{SackPayload, IsPayload, sack_window, mark_received, is_received}
use udpix.Sack.Flags.{flag, has_bit-flag, flag-set, IsWord}

pub is_received-below : (p : SackPayload) (t : ℕ) → t < p.base_seq → is_received p t ≡ true
unfolding is_received
is_received-below p t h = rw (lt→ltb t p.base_seq h)

pub is_received-beyond :
    (p : SackPayload) (t : ℕ) → p.base_seq + sack_window ≤ t → is_received p t ≡ false
unfolding is_received
is_received-beyond p t h = ground arith

pub is_received-inside :
    (p : SackPayload) (t : ℕ)
    → p.base_seq ≤ t
    → t < p.base_seq + sack_window
    → is_received p t ≡ flag p.words (t - p.base_seq)
unfolding is_received
is_received-inside p t lo hi = ground (arith, has_bit-flag p.words (t - p.base_seq))

-- Where a sequence number stands against the window.
pub data Place (base t : ℕ) : Type 0 where
  below : t < base → Place base t
  inside : base ≤ t → t < base + sack_window → Place base t
  beyond : base + sack_window ≤ t → Place base t

pub place : (base t : ℕ) → Place base t
place base t = elim (Bool-cases (ltb t base)) [
  | inl lt ↦ below (ltb→lt _ _ lt)
  | inr ge ↦ elim (Bool-cases (ltb t (base + sack_window))) [
    | inl lt ↦ inside (ltb→ge _ _ ge) (ltb→lt _ _ lt)
    | inr far ↦ beyond (ltb→ge _ _ far)
  ]
]

mark_words : SackPayload → ℕ → List ℕ
mark_words p o = set p.words (o / 64) (bit_or (get_or p.words (o / 64) 0) (u64 (2 ^ (o % 64))))

mark_received-inside :
    (p : SackPayload) (s : ℕ)
    → p.base_seq ≤ s
    → s < p.base_seq + sack_window
    → ((mark_received p s).base_seq ≡ p.base_seq)
      × ((mark_received p s).words ≡ mark_words p (s - p.base_seq))
      × ((mark_received p s).word_count ≡ max p.word_count ((s - p.base_seq) / 64 + 1))
unfolding mark_received mark_words
mark_received-inside p s lo hi = (ground arith, ground arith, ground arith)

mark_received-outside :
    (p : SackPayload) (s : ℕ)
    → (s < p.base_seq) ⊎ (p.base_seq + sack_window ≤ s)
    → mark_received p s ≡ p
unfolding mark_received
mark_received-outside p s h = ground arith

flag-mark_words :
    (p : SackPayload) (o t : ℕ)
    → IsPayload p
    → o < sack_window
    → flag (mark_words p o) t ≡ flag p.words t || (o == t)
unfolding mark_words
flag-mark_words p o t v h = flag-set p.words o t (omega (arith, v.sixteen))

mark_inside :
    (p : SackPayload) (s t : ℕ)
    → IsPayload p
    → p.base_seq ≤ s
    → s < p.base_seq + sack_window
    → is_received (mark_received p s) t ≡ is_received p t || (s == t)
mark_inside p s t v lo hi = elim (place p.base_seq t) [
  | below h ↦ ground (
    arith,
    is_received-below p t h,
    is_received-below (mark_received p s) t,
    mark_received-inside p s lo hi,
  )
  | beyond h ↦ ground (
    arith,
    is_received-beyond p t h,
    is_received-beyond (mark_received p s) t,
    mark_received-inside p s lo hi,
  )
  | inside h k ↦ ground (
    arith,
    is_received-inside p t h k,
    is_received-inside (mark_received p s) t,
    mark_received-inside p s lo hi,
    flag-mark_words p (s - p.base_seq) (t - p.base_seq) v (omega arith),
  )
]

-- A mark inside the window records that number and no other; outside the window it changes nothing.
pub is_received-mark_received :
    (p : SackPayload) (s t : ℕ)
    → IsPayload p
    → is_received (mark_received p s) t
      ≡ is_received p t || (s == t && ltb s (p.base_seq + sack_window))
is_received-mark_received p s t v = elim (place p.base_seq s) [
  | below h ↦ ground (arith, mark_received-outside p s, is_received-below p t)
  | beyond h ↦ ground (arith, mark_received-outside p s)
  | inside h k ↦ ground (arith, mark_inside p s t v h k)
]

mark_words-IsPayload :
    (p : SackPayload) (o : ℕ)
    → IsPayload p
    → o < sack_window
    → IsPayload (record p { words = mark_words p o; word_count = max p.word_count (o / 64 + 1) })
unfolding mark_words
mark_words-IsPayload p o v h = record {
  base_fits = v.base_fits;
  count_fits = omega (arith, v.count_fits);
  sixteen = length-set p.words (o / 64) marked ∙ v.sixteen;
  words_fit = All-set IsWord p.words (o / 64) marked v.words_fit (
      bit_or-lt 64 (get_or p.words (o / 64) 0) (u64 (2 ^ (o % 64)))
        (All-get_or IsWord p.words (o / 64) 0 v.words_fit (omega arith)) (omega arith));
  zero_behind = λ i behind.
      let apart : o / 64 ≢ i = omega arith in
      get_or-set_ne p.words (o / 64) i marked 0 apart ∙ v.zero_behind i (omega arith);
}
  where
    marked : ℕ
    marked = bit_or (get_or p.words (o / 64) 0) (u64 (2 ^ (o % 64)))

pub mark_received-IsPayload :
    (p : SackPayload) (s : ℕ) → IsPayload p → IsPayload (mark_received p s)
mark_received-IsPayload p s v = elim (place p.base_seq s) [
  | below h ↦ subst IsPayload (sym (mark_received-outside p s (inl h))) v
  | beyond h ↦ subst IsPayload (sym (mark_received-outside p s (inr h))) v
  | inside h k ↦
      let (base, words, count) = mark_received-inside p s h k in
      subst IsPayload
        (λ i. record { base_seq = sym base i; word_count = sym count i; words = sym words i })
        (mark_words-IsPayload p (s - p.base_seq) v (omega arith))
]

pub base_seq-mark_received : (p : SackPayload) (s : ℕ) → (mark_received p s).base_seq ≡ p.base_seq
unfolding mark_received
base_seq-mark_received p s = ground arith
