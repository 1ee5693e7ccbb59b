-- ===== src/Sender/Process.antt =====
-- What `process_sack` promises (crates/protocol/src/sender.rs).
use udpix.Base.{
  ℕ, ◌+◌, ◌-◌, ◌^◌, ◌<◌, ◌≡◌, refl, sym, ap, ◌∙◌, subst, false, ◌↔◌, List, [], ◌∷◌, ◌++◌, length,
  arith,
}
use udpix.Base.Bytes.{u64}
use udpix.Base.F64.{F64}
use udpix.Sack.Payload.{SackPayload, is_received}
use udpix.Sender.State.{Sender, InFlight}
use udpix.Sender.Ack.{Gaps, retain_unacked, acked_totals, count_gaps, process_sack}
use udpix.Sender.Gaps.{
  Fresh, Holds, counted, gaps, acked, first_gap, second_gap, gap_case, held_before, held_after,
  gaps-counted, missed_with, gaps-missed,
}

-- The bytes of the datagrams in flight.
abbrev pub bytes_in : InFlight → ℕ
bytes_in [] = 0
bytes_in ((seq, e) ∷ m) = length e.datagram + bytes_in m

gaps-totals :
    (sack : SackPayload) (m : InFlight)
    → Fresh m
    → bytes_in m < 2 ^ 64
    → (length m ≡ (acked_totals sack m).0 + length (gaps sack m).entries)
      × (bytes_in m ≡ (acked_totals sack m).1 + bytes_in (gaps sack m).entries)
unfolding retain_unacked count_gaps acked_totals
gaps-totals sack [] fresh small = (refl, refl)
gaps-totals sack ((k, e) ∷ m) (low, fresh) small =
    let (count, bytes) = gaps-totals sack m fresh (omega arith) in
    let goal = λ (g : Gaps) (t : ℕ × ℕ).
      (length ((k, e) ∷ m) ≡ t.0 + length g.entries)
      × (bytes_in ((k, e) ∷ m) ≡ t.1 + bytes_in g.entries) in
    let moved : (g : Gaps) (t : ℕ × ℕ)
        → gaps sack ((k, e) ∷ m) ≡ g
        → acked_totals sack ((k, e) ∷ m) ≡ t
        → goal g t
        → goal (gaps sack ((k, e) ∷ m)) (acked_totals sack ((k, e) ∷ m)) =
      λ g t p q h.
        subst (λ x. goal x (acked_totals sack ((k, e) ∷ m))) (sym p)
          (subst (λ x. goal g x) (sym q) h) in
    elim (gap_case sack k e m low) [
      | acked _ same totals ↦ moved _ _ same totals (omega arith, omega arith)
      | first_gap _ _ same totals ↦ moved _ _ same totals (omega arith, omega arith)
      | second_gap _ _ same totals ↦ moved _ _ same totals (omega arith, omega arith)
    ]

module _ (f : F64) where
  open f use {Float}

  -- The packets in flight after an acknowledgement are those before it that it does not cover,
  -- with the same bytes. The counters of acknowledged packets and bytes grow by exactly what left
  -- the map, modulo 2^64. It holds where no packet has two gaps counted and the bytes in flight
  -- fit 64 bits.
  pub process_sack_lem :
      (s : Sender Float) (sack : SackPayload) (now : ℕ)
      → Fresh s.in_flight
      → bytes_in s.in_flight < 2 ^ 64
      → let t = process_sack f s sack now in
        ((seq : ℕ) (datagram : List ℕ)
          → Holds seq datagram t.in_flight
            ↔ (Holds seq datagram s.in_flight × (is_received sack seq ≡ false)))
        × (t.stats.packets_acked
            ≡ u64 (s.stats.packets_acked + (length s.in_flight - length t.in_flight)))
        × (t.stats.bytes_acked
            ≡ u64 (s.stats.bytes_acked + (bytes_in s.in_flight - bytes_in t.in_flight)))
  unfolding process_sack
  process_sack_lem s sack now fresh small =
      let (count, bytes) = gaps-totals sack s.in_flight fresh small in
      (
        (λ seq datagram. (
          held_before sack seq datagram s.in_flight fresh,
          λ h. held_after sack seq datagram s.in_flight fresh h.0 h.1,
        )),
        omega arith,
        omega arith,
      )

  -- Every packet that stays in flight is put into exactly one retransmission queue: the packets that the
  -- acknowledgement does not cover and that had no gap counted before go into the normal one, those
  -- that had one counted go into the urgent one, in the order of the map, and no others go into either.
  -- In the new map the counter of the former is one and that of the latter zero, so no counter ever
  -- reaches two. The pacer keeps its rate, also when the profiler throttles, and the next number stays.
  -- It holds where no packet has two gaps counted.
  pub process_sack-queues :
      (s : Sender Float) (sack : SackPayload) (now : ℕ)
      → Fresh s.in_flight
      → let t = process_sack f s sack now in
        let urgent = missed_with 1 sack s.in_flight in
        let normal = missed_with 0 sack s.in_flight in
        Fresh t.in_flight
        × (t.urgent_retransmits ≡ s.urgent_retransmits ++ urgent)
        × (t.normal_retransmits ≡ s.normal_retransmits ++ normal)
        × (counted 0 t.in_flight ≡ urgent)
        × (counted 1 t.in_flight ≡ normal)
        × (t.pacer ≡ s.pacer)
        × (t.next_seq ≡ s.next_seq)
  unfolding process_sack
  process_sack-queues s sack now fresh =
      let (fresh', urgent, normal) = gaps-counted sack s.in_flight fresh in
      let (first, second) = gaps-missed sack s.in_flight fresh in
      (
        fresh',
        ap (λ (q : List ℕ). s.urgent_retransmits ++ q) first,
        ap (λ (q : List ℕ). s.normal_retransmits ++ q) second,
        sym urgent ∙ first,
        sym normal ∙ second,
        refl,
        refl,
      )
