-- ===== src/Traversal/CheckList.antt =====
-- The order of the check list (crates/traversal/src/ice.rs).
use udpix.Base.{
  ℕ, suc, ◌+◌, ◌*◌, length, ap, ◌≤◌, ◌≡◌, refl, ◌∙◌, List, [], ◌∷◌, ltb, All, arith, inl, inr,
  Bool-cases, ltb→lt, ltb→ge,
}
use mathlib.Core.List.{Perm, Mem}
use mathlib.Core.List.Perm as PermLaws
use udpix.Traversal.Address.{is_ipv4}
use udpix.Traversal.Pairs.{
  IsFresh, ipv4_count, ipv6_count, all_pairs-Joins, All-Mem, mem-all_pairs, length-all_pairs,
  same_family-eq,
}
use udpix.Traversal.Ice.{
  Candidate, CandidatePair, waiting, IceAgent, new_pair, pair_priority, all_pairs, insert_pair,
  sort_pairs, form_check_list,
}

-- No later pair has a higher priority.
abbrev pub IsRanked : List CandidatePair → Type 0
IsRanked [] = Unit {0}
IsRanked (p ∷ ps) = All (λ (q : CandidatePair). q.priority ≤ p.priority) ps × IsRanked ps

module _ (P : CandidatePair → Type 0) where
  All-insert_pair :
      (p : CandidatePair) (qs : List CandidatePair) → P p → All P qs → All P (insert_pair p qs)
  unfolding insert_pair
  All-insert_pair p [] h hs = (h, tt)
  All-insert_pair p (q ∷ qs) h hs = elim (Bool-cases (ltb p.priority q.priority)) [
    | inl e ↦ rw e (hs.0, All-insert_pair p qs h hs.1)
    | inr e ↦ rw e (h, hs)
  ]

  pub All-sort_pairs : (ps : List CandidatePair) → All P ps → All P (sort_pairs ps)
  unfolding sort_pairs
  All-sort_pairs [] h = tt
  All-sort_pairs (p ∷ ps) h = All-insert_pair p (sort_pairs ps) h.0 (All-sort_pairs ps h.1)

weaken :
    (m n : ℕ) (ps : List CandidatePair)
    → m ≤ n
    → All (λ (q : CandidatePair). q.priority ≤ m) ps
    → All (λ (q : CandidatePair). q.priority ≤ n) ps
weaken m n [] le h = tt
weaken m n (p ∷ ps) le h = (omega arith, weaken m n ps le h.1)

insert_pair-IsRanked :
    (p : CandidatePair) (qs : List CandidatePair) → IsRanked qs → IsRanked (insert_pair p qs)
unfolding insert_pair
insert_pair-IsRanked p [] h = (tt, tt)
insert_pair-IsRanked p (q ∷ qs) h = elim (Bool-cases (ltb p.priority q.priority)) [
  | inl e ↦
      let less = ltb→lt p.priority q.priority e in
      rw e (
        All-insert_pair (λ (r : CandidatePair). r.priority ≤ q.priority) p qs (omega arith) h.0,
        insert_pair-IsRanked p qs h.1,
      )
  | inr e ↦
      let le = ltb→ge p.priority q.priority e in
      rw e ((le, weaken q.priority p.priority qs le h.0), h)
]

sort_pairs-IsRanked : (ps : List CandidatePair) → IsRanked (sort_pairs ps)
unfolding sort_pairs
sort_pairs-IsRanked [] = tt
sort_pairs-IsRanked (p ∷ ps) = insert_pair-IsRanked p (sort_pairs ps) (sort_pairs-IsRanked ps)

insert_pair-perm : (p : CandidatePair) (qs : List CandidatePair) → Perm (insert_pair p qs) (p ∷ qs)
unfolding insert_pair
insert_pair-perm p [] = PermLaws.rfl
insert_pair-perm p (q ∷ qs) = elim (Bool-cases (ltb p.priority q.priority)) [
  | inl e ↦ rw e (PermLaws.trans (PermLaws.cons q (insert_pair-perm p qs)) (PermLaws.swap p q qs))
  | inr e ↦ rw e PermLaws.rfl
]

sort_pairs-perm : (ps : List CandidatePair) → Perm (sort_pairs ps) ps
unfolding sort_pairs
sort_pairs-perm [] = PermLaws.rfl
sort_pairs-perm (p ∷ ps) =
    PermLaws.trans (insert_pair-perm p (sort_pairs ps)) (PermLaws.cons p (sort_pairs-perm ps))

length-insert_pair :
    (p : CandidatePair) (qs : List CandidatePair) → length (insert_pair p qs) ≡ suc (length qs)
unfolding insert_pair
length-insert_pair p [] = refl
length-insert_pair p (q ∷ qs) = ground (arith, length-insert_pair p qs)

length-sort_pairs : (ps : List CandidatePair) → length (sort_pairs ps) ≡ length ps
unfolding sort_pairs
length-sort_pairs [] = refl
length-sort_pairs (p ∷ ps) = length-insert_pair p (sort_pairs ps) ∙ ap suc (length-sort_pairs ps)

-- The check list holds the pairs of a local with a remote candidate of the agent, both of the same
-- family: each pair in it is one, each two such candidates are joined by a pair in it, and there are as
-- many pairs as ways to choose the two. A pair waits, and has the priority that its candidates give it
-- in the role of the agent; those of the highest priority come first.
pub form_check_list_lem :
    (agent : IceAgent)
    → let pairs = (form_check_list agent).check_list in
      IsRanked pairs
      × All
          (λ (p : CandidatePair).
            IsFresh agent.role p × Mem p.local agent.local_cands × Mem p.remote agent.remote_cands)
          pairs
      × ((l r : Candidate)
          → Mem l agent.local_cands
          → Mem r agent.remote_cands
          → is_ipv4 l.addr.ip ≡ is_ipv4 r.addr.ip
          → Mem
              (record {
                local = l;
                remote = r;
                priority = pair_priority l.priority r.priority agent.role;
                state = waiting;
              })
              pairs)
      × (length pairs
          ≡ ipv4_count agent.local_cands * ipv4_count agent.remote_cands
            + ipv6_count agent.local_cands * ipv6_count agent.remote_cands)
unfolding form_check_list new_pair
form_check_list_lem agent =
    let ls = agent.local_cands in
    let rs = agent.remote_cands in
    let pairs = all_pairs agent.role ls rs in
    (
      sort_pairs-IsRanked pairs,
      All-sort_pairs
          (λ (p : CandidatePair). IsFresh agent.role p × Mem p.local ls × Mem p.remote rs) pairs
          (all_pairs-Joins (λ (c : Candidate). Mem c ls) (λ (c : Candidate). Mem c rs) agent.role ls
            rs (All-Mem ls ls (λ c m. m)) (All-Mem rs rs (λ c m. m))),
      (λ l r m n same.
          (PermLaws.mem_iff (sort_pairs-perm pairs)).1
            (mem-all_pairs agent.role l r (same_family-eq l r same) ls rs m n)),
      length-sort_pairs pairs ∙ length-all_pairs agent.role ls rs,
    )
