-- ===== src/Traversal/Pairs.antt =====
-- The pairs of the check list before they are sorted (crates/traversal/src/ice.rs).
use udpix.Base.{
  ℕ, suc, ◌+◌, ◌*◌, ◌++◌, length, length-append, subst, if◌then◌else◌, ◌≡◌, refl, sym, ◌∙◌, true,
  false, List, [], ◌∷◌, All, arith, inl, inr, Bool-cases, All-append,
}
use mathlib.Core.Logic.Or
use mathlib.Core.List.{
  Mem, Mem-prop, mem-cons_self, mem-cons_of_mem, eq-or-mem_of_mem-cons, not-mem-nil,
  mem-append_left, mem-append_right,
}
use udpix.Traversal.Address.{is_ipv4}
use udpix.Traversal.Ice.{
  Candidate, CandidatePair, waiting, IceRole, new_pair, pair_priority, same_family, pairs_of,
  all_pairs,
}

-- What holds of a pair that was just made.
abbrev pub IsFresh : IceRole → CandidatePair → Type 0
IsFresh role p =
    (p.state ≡ waiting)
    × (is_ipv4 p.local.addr.ip ≡ is_ipv4 p.remote.addr.ip)
    × (p.priority ≡ pair_priority p.local.priority p.remote.priority role)

same_family_lem : (l r : Candidate) → same_family l r ≡ true → is_ipv4 l.addr.ip ≡ is_ipv4 r.addr.ip
same_family_lem l r h = elim (Bool-cases (is_ipv4 l.addr.ip)) [
  | inl e ↦ elim (Bool-cases (is_ipv4 r.addr.ip)) [
    | inl f ↦ e ∙ sym f
    | inr f ↦ let no_way : false ≡ true = rw (e, f) at h in ground arith
  ]
  | inr e ↦ elim (Bool-cases (is_ipv4 r.addr.ip)) [
    | inl f ↦ let no_way : false ≡ true = rw (e, f) at h in ground arith
    | inr f ↦ e ∙ sym f
  ]
]

-- The number of candidates with an IPv4 address, and of the others.
abbrev pub ipv4_count : List Candidate → ℕ
ipv4_count [] = 0
ipv4_count (c ∷ cs) = let rest = ipv4_count cs in if is_ipv4 c.addr.ip then suc rest else rest

abbrev pub ipv6_count : List Candidate → ℕ
ipv6_count [] = 0
ipv6_count (c ∷ cs) = let rest = ipv6_count cs in if is_ipv4 c.addr.ip then rest else suc rest

module _ (P Q : Candidate → Type 0) (role : IceRole) where
  abbrev pub Joins : CandidatePair → Type 0
  Joins p = IsFresh role p × P p.local × Q p.remote

  pairs_of-Joins :
      (l : Candidate) (rs : List Candidate)
      → P l
      → All Q rs
      → All (λ (p : CandidatePair). Joins p) (pairs_of role l rs)
  unfolding pairs_of new_pair
  pairs_of-Joins l [] h hs = tt
  pairs_of-Joins l (r ∷ rs) h hs = elim (Bool-cases (same_family l r)) [
    | inl e ↦ rw e (((refl, same_family_lem l r e, refl), h, hs.0), pairs_of-Joins l rs h hs.1)
    | inr e ↦ rw e (pairs_of-Joins l rs h hs.1)
  ]

  pub all_pairs-Joins :
      (ls rs : List Candidate)
      → All P ls
      → All Q rs
      → All (λ (p : CandidatePair). Joins p) (all_pairs role ls rs)
  unfolding all_pairs
  all_pairs-Joins [] rs h hs = tt
  all_pairs-Joins (l ∷ ls) rs h hs =
      All-append (λ (p : CandidatePair). Joins p) (pairs_of role l rs) (all_pairs role ls rs)
        (pairs_of-Joins l rs h.0 hs) (all_pairs-Joins ls rs h.1 hs)

pub All-Mem :
    (all cs : List Candidate)
    → ((c : Candidate) → Mem c cs → Mem c all)
    → All (λ (c : Candidate). Mem c all) cs
All-Mem all [] h = tt
All-Mem all (c ∷ cs) h = (h c mem-cons_self, All-Mem all cs (λ d m. h d (mem-cons_of_mem c m)))

module _ (role : IceRole) (l r : Candidate) (same : same_family l r ≡ true) where
  mem-pairs_of : (rs : List Candidate) → Mem r rs → Mem (new_pair l r role) (pairs_of role l rs)
  unfolding pairs_of
  mem-pairs_of [] m = absurd (not-mem-nil m)
  mem-pairs_of (x ∷ rs) m =
      let further = λ (m' : Mem r rs). mem-pairs_of rs m' in
      Or.elim Mem-prop (eq-or-mem_of_mem-cons m)
        (λ e.
          subst (λ y. Mem (new_pair l r role) (pairs_of role l (y ∷ rs))) e (rw same mem-cons_self))
        (λ m'. elim (Bool-cases (same_family l x)) [
          | inl e ↦ rw e (mem-cons_of_mem (new_pair l x role) (further m'))
          | inr e ↦ rw e (further m')
        ])

  pub mem-all_pairs :
      (ls rs : List Candidate)
      → Mem l ls
      → Mem r rs
      → Mem (new_pair l r role) (all_pairs role ls rs)
  unfolding all_pairs
  mem-all_pairs [] rs m n = absurd (not-mem-nil m)
  mem-all_pairs (x ∷ ls) rs m n =
      Or.elim Mem-prop (eq-or-mem_of_mem-cons m)
        (λ e.
          subst (λ y. Mem (new_pair l r role) (pairs_of role y rs ++ all_pairs role ls rs)) e
            (mem-append_left (all_pairs role ls rs) (mem-pairs_of rs n)))
        (λ m'. mem-append_right (pairs_of role x rs) (mem-all_pairs ls rs m' n))

length-pairs_of :
    (role : IceRole) (l : Candidate) (rs : List Candidate)
    → length (pairs_of role l rs) ≡ (if is_ipv4 l.addr.ip then ipv4_count rs else ipv6_count rs)
unfolding pairs_of
length-pairs_of role l [] = ground arith
length-pairs_of role l (r ∷ rs) = ground (arith, length-pairs_of role l rs)

suc_mul : (k m : ℕ) → suc k * m ≡ m + k * m
suc_mul k m = grind arith

pub length-all_pairs :
    (role : IceRole) (ls rs : List Candidate)
    → length (all_pairs role ls rs) ≡ ipv4_count ls * ipv4_count rs + ipv6_count ls * ipv6_count rs
unfolding all_pairs
length-all_pairs role [] rs = omega arith
length-all_pairs role (l ∷ ls) rs =
    let both = length-append (pairs_of role l rs) (all_pairs role ls rs) in
    let rest = length-all_pairs role ls rs in
    let four = suc_mul (ipv4_count ls) (ipv4_count rs) in
    let six = suc_mul (ipv6_count ls) (ipv6_count rs) in
    ground (arith, both, rest, four, six, length-pairs_of role l rs)

pub same_family-eq :
    (l r : Candidate) → is_ipv4 l.addr.ip ≡ is_ipv4 r.addr.ip → same_family l r ≡ true
same_family-eq l r h = ground (arith, h)
