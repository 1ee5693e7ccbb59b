-- ===== src/Traversal/Attempts.antt =====
-- Checks and attempts (crates/traversal/src/ice.rs, crates/traversal/src/holepunch.rs).
use udpix.Base.{
  ℕ, zero, suc, ◌≡◌, refl, sym, ap, ◌∙◌, false, List, [], ◌∷◌, Option, none, some, All, inl, inr,
  Bool-cases, Option-cases,
}
use mathlib.Core.Option.{none-ne-some}
use udpix.Traversal.Address.{SocketAddr}
use udpix.Traversal.Ice.{
  CandidatePair, succeeded, IceAgent, Targets, is_waiting, behind_pair, stun_check, check_pairs,
  run_checks,
}
use udpix.Traversal.Punch.{
  HolePunchConfig, Relay, build_agent, query_servers, attempt_checks, after_attempt, on_checked,
  punch,
}

abbrev pub IsDone : CandidatePair → Type 0
IsDone p = is_waiting p.state ≡ false

-- A round that finds nothing hands over to the next.
after_attempt-none :
    (s rest : IceAgent × Option CandidatePair × Targets) → s.1 ≡ none → after_attempt s rest ≡ rest
after_attempt-none (agent, none, queried) rest h = refl
after_attempt-none (agent, some pair, queried) rest h = absurd (none-ne-some pair (sym h))

after_attempt-some :
    (s rest : IceAgent × Option CandidatePair × Targets) (pair : CandidatePair)
    → s.1 ≡ some pair
    → after_attempt s rest ≡ s
after_attempt-some (agent, none, queried) rest pair h = absurd (none-ne-some pair h)
after_attempt-some (agent, some p, queried) rest pair h = refl

module _ (exchange : Targets → SocketAddr → List ℕ → Option (List ℕ))
    (draw : Targets → List ℕ) where
  -- Pairs that do not wait are not checked again.
  check_pairs-done :
      (ps : List CandidatePair) (queried : Targets)
      → All IsDone ps
      → check_pairs exchange draw ps queried ≡ (ps, none, queried)
  unfolding check_pairs
  check_pairs-done [] queried h = refl
  check_pairs-done (p ∷ ps) queried h =
      rw h.0 (ap (behind_pair p) (check_pairs-done ps queried h.1))

  -- Where no pair succeeds, none is left waiting.
  check_pairs-none :
      (ps : List CandidatePair) (queried : Targets)
      → (check_pairs exchange draw ps queried).1 ≡ none
      → All IsDone (check_pairs exchange draw ps queried).0
  unfolding check_pairs
  check_pairs-none [] queried h = tt
  check_pairs-none (p ∷ ps) queried h = elim (Bool-cases (is_waiting p.state)) [
    | inr e ↦ rw e (e, check_pairs-none ps queried (rw e at h))
    | inl e ↦
        let target = p.remote.addr in
        elim (Option-cases (stun_check exchange draw queried target)) [
          | inr (addr, found) ↦
              absurd (none-ne-some (record p { state = succeeded }) (sym (rw (e, found) at h)))
          | inl missed ↦
              rw (e, missed) (refl, check_pairs-none ps (target ∷ queried) (rw (e, missed) at h))
        ]
  ]

  idle_round :
      (agent : IceAgent) (queried : Targets)
      → All IsDone agent.check_list
      → run_checks exchange draw agent queried ≡ (agent, none, queried)
  unfolding run_checks
  idle_round agent queried h = rw (check_pairs-done agent.check_list queried h) refl

  run_checks-IsDone :
      (agent : IceAgent) (queried : Targets)
      → (run_checks exchange draw agent queried).1 ≡ none
      → All IsDone (run_checks exchange draw agent queried).0.check_list
  unfolding run_checks
  run_checks-IsDone agent queried h = check_pairs-none agent.check_list queried h

  idle :
      (n : ℕ) (agent : IceAgent) (queried : Targets)
      → All IsDone agent.check_list
      → attempt_checks exchange draw n agent queried ≡ (agent, none, queried)
  unfolding attempt_checks
  idle zero agent queried h = refl
  idle (suc n) agent queried h =
      let round : run_checks exchange draw agent queried ≡ (agent, none, queried) =
        idle_round agent queried h in
      rw round (idle n agent queried h)

  -- If the first attempt finds no pair, all attempts together do what the first one did: they query
  -- nobody and change nothing, however many there are.
  pub attempt_checks_lem :
      (n : ℕ) (agent : IceAgent) (queried : Targets)
      → (run_checks exchange draw agent queried).1 ≡ none
      → attempt_checks exchange draw (suc n) agent queried ≡ run_checks exchange draw agent queried
  unfolding attempt_checks
  attempt_checks_lem n agent queried h =
      let s = run_checks exchange draw agent queried in
      after_attempt-none s (attempt_checks exchange draw n s.0 s.2) h
      ∙ idle n s.0 s.2 (run_checks-IsDone agent queried h)
      ∙ ap
          (λ (o : Option CandidatePair).
            let out : IceAgent × Option CandidatePair × Targets = (s.0, o, s.2) in out)
          (sym h)

  first_attempt :
      (n : ℕ) (agent : IceAgent) (queried : Targets) (pair : CandidatePair)
      → (run_checks exchange draw agent queried).1 ≡ some pair
      → attempt_checks exchange draw (suc n) agent queried ≡ run_checks exchange draw agent queried
  unfolding attempt_checks
  first_attempt n agent queried pair h =
      let s = run_checks exchange draw agent queried in
      after_attempt-some s (attempt_checks exchange draw n s.0 s.2) pair h

  -- More attempts than one never change the outcome.
  pub punch_lem :
      (config : HolePunchConfig) (w : Relay) (peer : SocketAddr) (bound : Option SocketAddr) (n : ℕ)
      → punch exchange draw (record config { attempts = suc n }) w peer bound
        ≡ punch exchange draw (record config { attempts = 1 }) w peer bound
  unfolding punch
  punch_lem config w peer none n = refl
  punch_lem config w peer (some local_addr) n =
      let (public_addr, queried) = query_servers exchange draw config.stun_servers [] in
      let agent = build_agent local_addr public_addr peer in
      ap (λ (out : IceAgent × Option CandidatePair × Targets). on_checked config w peer out.1)
        (once n agent queried ∙ sym (once zero agent queried))
    where
      once :
          (n : ℕ) (agent : IceAgent) (queried : Targets)
          → attempt_checks exchange draw (suc n) agent queried
            ≡ run_checks exchange draw agent queried
      once n agent queried = elim (Option-cases (run_checks exchange draw agent queried).1) [
        | inl e ↦ attempt_checks_lem n agent queried e
        | inr (pair, e) ↦ first_attempt n agent queried pair e
      ]
