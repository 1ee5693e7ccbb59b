-- ===== src/Sack/Missing.antt =====
-- `missing_seqs` lists exactly the gaps (crates/protocol/src/sack.rs).
use udpix.Base.{
  ℕ, zero, suc, ◌+◌, ◌-◌, ◌^◌, ◌≤◌, ◌≡◌, true, false, ◌&&◌, not, ◌∷◌, ltb, leb, ◌==◌, if◌then◌else◌,
  arith, inl, inr, Bool-cases, ==→eq,
}
use udpix.Base.{contains, AscendsFrom, AscendsFrom-mono}
use udpix.Base.Bytes.{u64}
use udpix.Sack.Payload.{SackPayload, sack_window, is_received, has_bit, missing_from, missing_seqs}
use udpix.Sack.Mark.{is_received-below, is_received-inside, is_received-beyond}
use udpix.Sack.Flags.{flag, has_bit-flag}

-- The gaps among `n` offsets from `o` on.
contains-missing_from :
    (p : SackPayload) (n o t : ℕ)
    → p.base_seq + o + n ≤ 2 ^ 64
    → contains t (missing_from p n o)
      ≡ (leb (p.base_seq + o) t && ltb t (p.base_seq + o + n))
        && not (flag p.words (t - p.base_seq))
unfolding missing_from
contains-missing_from p zero o t h = ground arith
contains-missing_from p (suc n) o t h = elim (Bool-cases (p.base_seq + o == t)) [
  | inl here ↦
      let e : t - p.base_seq ≡ o = omega (arith, ==→eq _ _ here) in
      ground (arith, contains-missing_from p n (o + 1) t, has_bit-flag p.words o, e, ==→eq _ _ here)
  | inr other ↦ ground (arith, contains-missing_from p n (o + 1) t, has_bit-flag p.words o)
]

missing_from-AscendsFrom :
    (p : SackPayload) (n o : ℕ)
    → p.base_seq + o + n ≤ 2 ^ 64
    → AscendsFrom (p.base_seq + o) (missing_from p n o)
unfolding missing_from
missing_from-AscendsFrom p zero o h = tt
missing_from-AscendsFrom p (suc n) o h =
    let rest = missing_from p n (o + 1) in
    let ascends : AscendsFrom (p.base_seq + (o + 1)) rest =
      missing_from-AscendsFrom p n (o + 1) (omega arith) in
    elim (has_bit p.words o)
      as (λ t. AscendsFrom (p.base_seq + o) (if t then rest else u64 (p.base_seq + o) ∷ rest)) [
        | true ↦ AscendsFrom-mono (p.base_seq + o) (p.base_seq + (o + 1)) rest (omega arith) ascends
        | false ↦ (
          omega arith,
          AscendsFrom-mono (suc (u64 (p.base_seq + o))) (p.base_seq + (o + 1)) rest (omega arith)
              ascends,
        )
      ]

-- A window that does not run over the end of the 64-bit numbers lists a number as missing exactly
-- if it lies in the window and is not received; the list ascends, so none stands in it twice.
pub missing_seqs_lem :
    (p : SackPayload)
    → p.base_seq + sack_window ≤ 2 ^ 64
    → ((t : ℕ)
        → contains t (missing_seqs p) ≡ ltb t (p.base_seq + sack_window) && not (is_received p t))
      × AscendsFrom p.base_seq (missing_seqs p)
unfolding missing_seqs
missing_seqs_lem p h = (
  λ t. ground (
    arith,
    contains-missing_from p sack_window 0 t,
    is_received-below p t,
    is_received-inside p t,
    is_received-beyond p t,
  ),
  AscendsFrom-mono p.base_seq (p.base_seq + 0) (missing_seqs p) (omega arith)
      (missing_from-AscendsFrom p sack_window 0 (omega arith)),
)
