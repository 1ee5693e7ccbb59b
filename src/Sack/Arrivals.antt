-- ===== src/Sack/Arrivals.antt =====
-- What the manager acknowledges, against the packets that arrived (crates/protocol/src/sack.rs).
use udpix.Base.{
  ℕ, zero, suc, ◌+◌, ◌-◌, ◌^◌, ◌≤◌, ◌<◌, ◌≡◌, sym, ap, ◌∙◌, subst, true, false, ◌||◌, ◌&&◌, ltb,
  ◌==◌, if◌then◌else◌, arith, inl, inr, Bool-cases, ==→eq,
}
use udpix.Base.Bytes.{u64}
use udpix.Sack.Payload.{
  SackPayload, IsPayload, sack_window, starting_at, mark_received, is_received, advance_base,
}
use udpix.Sack.Mark.{
  is_received-below, is_received-beyond, is_received-mark_received, mark_received-IsPayload,
  base_seq-mark_received,
}
use udpix.Sack.Advance.{
  is_received-advance_base, advance_base-IsPayload, base_seq-advance_base, starting_at-IsPayload,
  is_received-starting_at,
}
use udpix.Sack.Manager.{first_missing, base_fuel, record_arrival}

-- The first number from `n` on that is not received.
abbrev Stops : SackPayload → ℕ → ℕ → Type 0
Stops p n m =
    (is_received p m ≡ false) × (n ≤ m) × ((t : ℕ) → n ≤ t → t < m → is_received p t ≡ true)

-- The loop stops by its test, at the first number that is not received.
first_missing_lem :
    (fuel : ℕ) (p : SackPayload) (n : ℕ)
    → p.base_seq + sack_window < 2 ^ 64
    → n ≤ p.base_seq + sack_window
    → p.base_seq + sack_window < n + fuel
    → Stops p n (first_missing fuel p n)
unfolding first_missing
first_missing_lem zero p n small lo hi = absurd (omega arith)
first_missing_lem (suc fuel) p n small lo hi = elim (Bool-cases (is_received p n)) [
  | inl got ↦
      let below_end : n < p.base_seq + sack_window = inside n got in
      let next : u64 (n + 1) ≡ n + 1 = omega arith in
      let (gap, after, between) =
        first_missing_lem fuel p (n + 1) small (omega arith) (omega arith) in
      let step : first_missing (suc fuel) p n ≡ first_missing fuel p (n + 1) =
        rw got (ap (first_missing fuel p) next) in
      subst (Stops p n) (sym step) (
        gap,
        omega (arith, after),
        λ t h k. elim (Bool-cases (n == t)) [
          | inl here ↦ rw (← ==→eq n t here) got
          | inr further ↦ between t (ground arith) k
        ],
      )
  | inr gap ↦ rw gap (gap, omega arith, λ t h k. absurd (omega arith))
]
  where
    inside : (m : ℕ) → is_received p m ≡ true → m < p.base_seq + sack_window
    inside m got = ground (arith, is_received-beyond p m)

-- The last base whose window ends within the 64-bit range.
abbrev pub last_base : ℕ
last_base = 2 ^ 64 - 1025

-- What one arrival does to the window, as far as its numbers stay below the end of the 64-bit range.
pub record IsWindow (p : SackPayload) : Type 0 where
  pub shape : IsPayload p
  -- The base is the first number that has not arrived.
  pub base_missing : is_received p p.base_seq ≡ false
  pub room : p.base_seq ≤ last_base
  pub ahead : (t : ℕ) → is_received p t ≡ true → t < last_base

pub starting_at-IsWindow : (n : ℕ) → n ≤ last_base → IsWindow (starting_at n)
starting_at-IsWindow n small = record {
  shape = starting_at-IsPayload n (omega arith);
  base_missing = unfold starting_at in ground (arith, is_received-starting_at n n);
  room = unfold starting_at in small;
  ahead = λ t h. ground (arith, is_received-starting_at n t);
}

module _ (p : SackPayload) (s : ℕ) (w : IsWindow p) where
  abbrev marked : SackPayload
  marked = mark_received p s

  abbrev new_base : ℕ
  new_base = first_missing base_fuel marked marked.base_seq

  marked-IsPayload : IsPayload marked
  marked-IsPayload = mark_received-IsPayload p s w.shape

  new_base-Stops : Stops marked marked.base_seq new_base
  new_base-Stops =
      let base = base_seq-mark_received p s in
      first_missing_lem base_fuel marked marked.base_seq (omega (arith, base, w.room)) (omega arith)
        (omega arith)

  marked_ahead : (t : ℕ) → s < last_base → is_received marked t ≡ true → t < last_base
  marked_ahead t fits got = ground (arith, is_received-mark_received p s t w.shape, w.ahead t)

  new_base-le : s < last_base → new_base ≤ last_base
  new_base-le fits =
      let (gap, after, between) = new_base-Stops in
      ground (
        arith,
        base_seq-mark_received p s,
        w.room,
        between (new_base - 1),
        marked_ahead (new_base - 1) fits,
      )

  -- Moving the base over the numbers that have arrived changes no answer.
  is_received-record_arrival-marked :
      (t : ℕ) → is_received (record_arrival p s) t ≡ is_received marked t
  is_received-record_arrival-marked t =
      let (gap, after, between) = new_base-Stops in
      unfold record_arrival in
      ground (
        arith,
        is_received-advance_base marked new_base t marked-IsPayload,
        is_received-below marked t,
        between t,
      )

  base_seq-record_arrival : (record_arrival p s).base_seq ≡ new_base
  base_seq-record_arrival =
      let (gap, after, between) = new_base-Stops in
      unfold record_arrival in ground (arith, base_seq-advance_base marked new_base)

  record_arrival-IsPayload : s < last_base → IsPayload (record_arrival p s)
  record_arrival-IsPayload fits =
      unfold record_arrival in
      elim (ltb marked.base_seq new_base)
        as (λ t. IsPayload (if t then advance_base marked new_base else marked)) [
          | true ↦
              advance_base-IsPayload marked new_base marked-IsPayload
                (omega (arith, new_base-le fits))
          | false ↦ marked-IsPayload
        ]

  -- An arrival inside the window is recorded, one outside changes nothing, and no other number's
  -- answer changes; the base is again the first number that has not arrived. It holds where the number
  -- that arrives is below 2^64 - 1025, in a window whose base is its first number that has not arrived
  -- and at most 2^64 - 1025, and whose numbers that have arrived are all below that; the new window is
  -- such a one too.
  pub record_arrival_lem :
      s < last_base
      → ((t : ℕ)
          → is_received (record_arrival p s) t
            ≡ is_received p t || (s == t && ltb s (p.base_seq + sack_window)))
        × IsWindow (record_arrival p s)
  record_arrival_lem fits = (
    λ t. is_received-record_arrival-marked t ∙ is_received-mark_received p s t w.shape,
    record {
      shape = record_arrival-IsPayload fits;
      base_missing =
          is_received-record_arrival-marked _
          ∙ ap (is_received marked) base_seq-record_arrival
          ∙ new_base-Stops.0;
      room = omega (arith, base_seq-record_arrival, new_base-le fits);
      ahead = λ t got. marked_ahead t fits (sym (is_received-record_arrival-marked t) ∙ got);
    },
  )
