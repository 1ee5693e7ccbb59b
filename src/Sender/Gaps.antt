-- ===== src/Sender/Gaps.antt =====
-- What `process_sack` does to the packets in flight (crates/protocol/src/sender.rs).
use udpix.Base.{
  ℕ, ◌+◌, ◌<◌, ◌≡◌, refl, sym, ap, ◌∙◌, subst, true, false, ◌⊎◌, List, [], ◌∷◌, ltb, leb, ◌==◌,
  if◌then◌else◌, length, All, arith, inl, inr, Bool-cases, ltb→lt, ==→eq,
}
use udpix.Base.Bytes.{u64}
use udpix.Sack.Payload.{SackPayload, is_received}
use udpix.Sack.Mark.{is_received-below}
use udpix.Sender.State.{InFlightEntry, InFlight}
use udpix.Sender.Ack.{Gaps, is_acked, retain_unacked, acked_totals, count_gaps}

abbrev pub keys : InFlight → List ℕ
keys [] = []
keys ((seq, e) ∷ m) = seq ∷ keys m

abbrev pub datagrams : InFlight → List (ℕ × List ℕ)
datagrams [] = []
datagrams ((seq, e) ∷ m) = (seq, e.datagram) ∷ datagrams m

-- At most one report of a gap is counted before the packet is sent again.
abbrev pub Fresh : InFlight → Type 0
Fresh m = All (λ (e : ℕ × InFlightEntry). e.1.nak_count < 2) m

-- The numbers of the entries whose counter is `n`.
abbrev pub counted : ℕ → InFlight → List ℕ
counted n [] = []
counted n ((seq, e) ∷ m) = if e.nak_count == n then seq ∷ counted n m else counted n m

-- The numbers of the packets that the acknowledgement does not cover and whose counter is `n`.
abbrev pub missed_with : ℕ → SackPayload → InFlight → List ℕ
missed_with n sack [] = []
missed_with n sack ((seq, e) ∷ m) =
    let rest = missed_with n sack m in
    if is_received sack seq then rest else (if e.nak_count == n then seq ∷ rest else rest)

is_acked-false :
    (sack : SackPayload) (seq : ℕ)
    → is_acked sack seq ≡ false
    → (leb sack.base_seq seq ≡ true) × (is_received sack seq ≡ false)
unfolding is_acked
is_acked-false sack seq h = elim (Bool-cases (ltb seq sack.base_seq)) [
  | inl e ↦ ground arith
  | inr e ↦ (ground arith, ground arith)
]

abbrev pub gaps : SackPayload → InFlight → Gaps
gaps sack m = count_gaps sack (retain_unacked sack m)

gaps-acked :
    (sack : SackPayload) (seq : ℕ) (e : InFlightEntry) (m : InFlight)
    → is_acked sack seq ≡ true
    → gaps sack ((seq, e) ∷ m) ≡ gaps sack m
unfolding retain_unacked
gaps-acked sack seq e m h = rw h

gaps-first :
    (sack : SackPayload) (seq : ℕ) (e : InFlightEntry) (m : InFlight)
    → is_acked sack seq ≡ false
    → e.nak_count ≡ 0
    → gaps sack ((seq, e) ∷ m) ≡ record {
      entries = (seq, record e { nak_count = 1 }) ∷ (gaps sack m).entries;
      urgent = (gaps sack m).urgent;
      normal = seq ∷ (gaps sack m).normal;
    }
unfolding retain_unacked count_gaps
gaps-first sack seq e m h z =
    let (above, missing) = is_acked-false sack seq h in rw (h, above, missing, z)

gaps-second :
    (sack : SackPayload) (seq : ℕ) (e : InFlightEntry) (m : InFlight)
    → is_acked sack seq ≡ false
    → e.nak_count ≡ 1
    → gaps sack ((seq, e) ∷ m) ≡ record {
      entries = (seq, record e { nak_count = 0 }) ∷ (gaps sack m).entries;
      urgent = seq ∷ (gaps sack m).urgent;
      normal = (gaps sack m).normal;
    }
unfolding retain_unacked count_gaps
gaps-second sack seq e m h z =
    let (above, missing) = is_acked-false sack seq h in rw (h, above, missing, z)

-- What an entry, with at most one gap counted, contributes to the result.
pub data GapCase (sack : SackPayload) (seq : ℕ) (e : InFlightEntry) (m : InFlight) : Type 0 where
  acked :
      is_received sack seq ≡ true
      → gaps sack ((seq, e) ∷ m) ≡ gaps sack m
      → acked_totals sack ((seq, e) ∷ m)
        ≡ ((acked_totals sack m).0 + 1, u64 (length e.datagram + (acked_totals sack m).1))
      → GapCase sack seq e m
  first_gap :
      e.nak_count ≡ 0
      → is_received sack seq ≡ false
      → gaps sack ((seq, e) ∷ m) ≡ record {
        entries = (seq, record e { nak_count = 1 }) ∷ (gaps sack m).entries;
        urgent = (gaps sack m).urgent;
        normal = seq ∷ (gaps sack m).normal;
      }
      → acked_totals sack ((seq, e) ∷ m) ≡ acked_totals sack m
      → GapCase sack seq e m
  second_gap :
      e.nak_count ≡ 1
      → is_received sack seq ≡ false
      → gaps sack ((seq, e) ∷ m) ≡ record {
        entries = (seq, record e { nak_count = 0 }) ∷ (gaps sack m).entries;
        urgent = seq ∷ (gaps sack m).urgent;
        normal = (gaps sack m).normal;
      }
      → acked_totals sack ((seq, e) ∷ m) ≡ acked_totals sack m
      → GapCase sack seq e m

acked_received :
    (sack : SackPayload) (seq : ℕ) → is_acked sack seq ≡ true → is_received sack seq ≡ true
unfolding is_acked
acked_received sack seq h = elim (Bool-cases (ltb seq sack.base_seq)) [
  | inl e ↦ is_received-below sack seq (ltb→lt seq sack.base_seq e)
  | inr e ↦ rw e at h
]

totals-acked :
    (sack : SackPayload) (seq : ℕ) (e : InFlightEntry) (m : InFlight)
    → is_acked sack seq ≡ true
    → acked_totals sack ((seq, e) ∷ m)
      ≡ ((acked_totals sack m).0 + 1, u64 (length e.datagram + (acked_totals sack m).1))
unfolding acked_totals
totals-acked sack seq e m h = rw h

totals-unacked :
    (sack : SackPayload) (seq : ℕ) (e : InFlightEntry) (m : InFlight)
    → is_acked sack seq ≡ false
    → acked_totals sack ((seq, e) ∷ m) ≡ acked_totals sack m
unfolding acked_totals
totals-unacked sack seq e m h = rw h

pub gap_case :
    (sack : SackPayload) (seq : ℕ) (e : InFlightEntry) (m : InFlight)
    → e.nak_count < 2
    → GapCase sack seq e m
gap_case sack seq e m low = elim (Bool-cases (is_acked sack seq)) [
  | inl h ↦
      acked (acked_received sack seq h) (gaps-acked sack seq e m h) (totals-acked sack seq e m h)
  | inr h ↦
      let missing = (is_acked-false sack seq h).1 in
      elim (Bool-cases (e.nak_count == 0)) [
        | inl z ↦
            first_gap (==→eq _ _ z) missing (gaps-first sack seq e m h (==→eq _ _ z))
              (totals-unacked sack seq e m h)
        | inr nz ↦
            let one : e.nak_count ≡ 1 = ground arith in
            second_gap one missing (gaps-second sack seq e m h one) (totals-unacked sack seq e m h)
      ]
]

-- A packet with this number and these bytes is in the map.
abbrev pub Holds : ℕ → List ℕ → InFlight → Type 0
Holds seq datagram [] = ⊥
Holds seq datagram ((k, e) ∷ m) = ((k ≡ seq) × (e.datagram ≡ datagram)) ⊎ Holds seq datagram m

module _ (sack : SackPayload) (seq : ℕ) (datagram : List ℕ) where
  pub held_before :
      (m : InFlight)
      → Fresh m
      → Holds seq datagram (gaps sack m).entries
      → Holds seq datagram m × (is_received sack seq ≡ false)
  unfolding count_gaps retain_unacked
  held_before [] fresh h = elim h [ ]
  held_before ((k, e) ∷ m) (low, fresh) h =
      let moved = λ (g : Gaps). Holds seq datagram g.entries in
      elim (gap_case sack k e m low) [
        | acked received same _ ↦
            let (h', missing) = held_before m fresh (subst moved same h) in (inr h', missing)
        | first_gap _ missing same _ ↦ elim (subst moved same h) [
          | inl (here, bytes) ↦
              (inl (here, bytes), subst (λ n. is_received sack n ≡ false) here missing)
          | inr there ↦ let (h', missing') = held_before m fresh there in (inr h', missing')
        ]
        | second_gap _ missing same _ ↦ elim (subst moved same h) [
          | inl (here, bytes) ↦
              (inl (here, bytes), subst (λ n. is_received sack n ≡ false) here missing)
          | inr there ↦ let (h', missing') = held_before m fresh there in (inr h', missing')
        ]
      ]

  pub held_after :
      (m : InFlight)
      → Fresh m
      → Holds seq datagram m
      → is_received sack seq ≡ false
      → Holds seq datagram (gaps sack m).entries
  held_after [] fresh h missing = elim h [ ]
  held_after ((k, e) ∷ m) (low, fresh) h missing =
      let moved = λ (g : Gaps). Holds seq datagram g.entries in
      elim (gap_case sack k e m low) [
        | acked received same _ ↦ elim h [
          | inl (here, bytes) ↦
              let both : true ≡ false = sym received ∙ ap (is_received sack) here ∙ missing in
              ground arith
          | inr there ↦ subst moved (sym same) (held_after m fresh there missing)
        ]
        | first_gap _ _ same _ ↦
            subst moved (sym same)
              (elim h [ inl here ↦ inl here | inr there ↦ inr (held_after m fresh there missing) ])
        | second_gap _ _ same _ ↦
            subst moved (sym same)
              (elim h [ inl here ↦ inl here | inr there ↦ inr (held_after m fresh there missing) ])
      ]

-- Each number that stays in flight stands in exactly one queue's new part: the urgent one if its
-- counter was reset, the normal one if it was raised.
pub gaps-counted :
    (sack : SackPayload) (m : InFlight)
    → Fresh m
    → Fresh (gaps sack m).entries
      × ((gaps sack m).urgent ≡ counted 0 (gaps sack m).entries)
      × ((gaps sack m).normal ≡ counted 1 (gaps sack m).entries)
unfolding retain_unacked count_gaps
gaps-counted sack [] fresh = (tt, refl, refl)
gaps-counted sack ((k, e) ∷ m) (low, fresh) =
    let (fresh', urgent, normal) = gaps-counted sack m fresh in
    let goal = λ (g : Gaps).
      Fresh g.entries × (g.urgent ≡ counted 0 g.entries) × (g.normal ≡ counted 1 g.entries) in
    elim (gap_case sack k e m low) [
      | acked received same _ ↦ subst goal (sym same) (fresh', urgent, normal)
      | first_gap _ _ same _ ↦
          subst goal (sym same) ((omega arith, fresh'), urgent, ap (λ (ks : List ℕ). k ∷ ks) normal)
      | second_gap _ _ same _ ↦
          subst goal (sym same) ((omega arith, fresh'), ap (λ (ks : List ℕ). k ∷ ks) urgent, normal)
    ]

-- The two queues take over what was missed before, by the number of gaps counted until then.
pub gaps-missed :
    (sack : SackPayload) (m : InFlight)
    → Fresh m
    → ((gaps sack m).urgent ≡ missed_with 1 sack m) × ((gaps sack m).normal ≡ missed_with 0 sack m)
unfolding retain_unacked count_gaps
gaps-missed sack [] fresh = (refl, refl)
gaps-missed sack ((k, e) ∷ m) (low, fresh) =
    let (urgent, normal) = gaps-missed sack m fresh in
    let goal = λ (g : Gaps).
      (g.urgent ≡ missed_with 1 sack ((k, e) ∷ m)) × (g.normal ≡ missed_with 0 sack ((k, e) ∷ m)) in
    elim (gap_case sack k e m low) [
      | acked received same _ ↦ subst goal (sym same) (rw received (urgent, normal))
      | first_gap none_yet missing same _ ↦
          subst goal (sym same)
            (rw (missing, none_yet) (urgent, ap (λ (ks : List ℕ). k ∷ ks) normal))
      | second_gap one missing same _ ↦
          subst goal (sym same) (rw (missing, one) (ap (λ (ks : List ℕ). k ∷ ks) urgent, normal))
    ]
