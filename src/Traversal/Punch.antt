-- ===== src/Traversal/Punch.antt =====
-- crates/traversal/src/holepunch.rs. The socket is no part of the results: binding it gives its local
-- address, or fails. Waiting between attempts changes no state.
use udpix.Base.{
  ℕ, zero, suc, Bool, true, false, List, [], ◌∷◌, Option, none, some, if◌then◌else◌, ◌>>=◌,
}
use udpix.Traversal.Address.{SocketAddr}
use udpix.Traversal.Turn.{Hashes}
use udpix.Traversal.TurnClient.{
  TurnClient, TurnAllocation, Answer, ok, bail, panic, new_client, allocate, create_permission,
}
use udpix.Traversal.Ice.{
  CandidatePair, IceAgent, Targets, host, server_reflexive, controlling, new_candidate, new_agent,
  add_local_candidate, set_remote_candidates, form_check_list, stun_check, run_checks,
}

pub record TurnConfig : Type 0 where
  pub server : SocketAddr
  pub username : List ℕ
  pub password : List ℕ

pub record HolePunchConfig : Type 0 where
  pub stun_servers : List SocketAddr
  pub turn : Option TurnConfig
  pub attempts : ℕ
  pub attempt_interval_ms : ℕ

unfoldable pub default_config : HolePunchConfig
default_config = record { stun_servers = []; turn = none; attempts = 10; attempt_interval_ms = 250 }

pub record NatEndpoint : Type 0 where
  pub local_addr : SocketAddr
  pub public_addr : SocketAddr

pub record HolePunchResult : Type 0 where
  pub peer_addr : SocketAddr
  pub relay_used : Bool

abbrev pub add_reflexive : Option SocketAddr → IceAgent → IceAgent
add_reflexive none agent = agent
add_reflexive (some addr) agent =
    add_local_candidate agent (new_candidate server_reflexive addr 65535)

unfoldable pub build_agent : SocketAddr → Option SocketAddr → SocketAddr → IceAgent
build_agent local_addr public_addr peer = form_check_list (
    set_remote_candidates
      (add_reflexive public_addr
        (add_local_candidate (new_agent controlling) (new_candidate host local_addr 65535)))
      (new_candidate host peer 65535 ∷ []))

-- What the relay takes: the hashes, the datagrams of its socket, whether that socket could be bound,
-- and the identifiers of its three requests.
pub record Relay : Type 0 where
  pub hashes : Hashes
  pub turn_exchange : SocketAddr → List ℕ → Option (List ℕ)
  pub bound : Bool
  pub tid1 : List ℕ
  pub tid2 : List ℕ
  pub tid3 : List ℕ

abbrev pub relayed_result : TurnAllocation → Option (Unit {0}) → Answer HolePunchResult
relayed_result alloc none = bail
relayed_result alloc (some u) = ok (record { peer_addr = alloc.relayed_addr; relay_used = true })

abbrev pub on_allocated :
    Relay → SocketAddr → TurnClient × Answer TurnAllocation → Answer HolePunchResult
on_allocated w peer (c, ok alloc) =
    relayed_result alloc (create_permission w.hashes w.turn_exchange c w.tid3 peer)
on_allocated w peer (c, bail) = bail
on_allocated w peer (c, panic) = panic

unfoldable pub use_relay : Relay → SocketAddr → Option TurnConfig → Answer HolePunchResult
use_relay w peer none = bail
use_relay w peer (some cfg) =
    if w.bound
    then on_allocated w peer (
        allocate w.hashes w.turn_exchange (new_client cfg.server cfg.username cfg.password) w.tid1
          w.tid2)
    else bail

abbrev pub endpoint : SocketAddr → Option SocketAddr → Option NatEndpoint
endpoint local_addr none = none
endpoint local_addr (some addr) = some (record { local_addr = local_addr; public_addr = addr })

abbrev pub after_attempt :
    IceAgent × Option CandidatePair × Targets
    → IceAgent × Option CandidatePair × Targets
    → IceAgent × Option CandidatePair × Targets
after_attempt (agent, some pair, queried) rest = (agent, some pair, queried)
after_attempt (agent, none, queried) rest = rest

abbrev pub on_checked :
    HolePunchConfig → Relay → SocketAddr → Option CandidatePair → Answer HolePunchResult
on_checked config w peer (some pair) =
    ok (record { peer_addr = pair.remote.addr; relay_used = false })
on_checked config w peer none = use_relay w peer config.turn

module _ (exchange : Targets → SocketAddr → List ℕ → Option (List ℕ))
    (draw : Targets → List ℕ) where
  -- The loop over the STUN servers: the first that answers ends it.
  unfoldable pub query_servers : List SocketAddr → Targets → Option SocketAddr × Targets
  query_servers [] queried = (none, queried)
  query_servers (s ∷ servers) queried =
      let rest = query_servers servers (s ∷ queried) in
      elim (stun_check exchange draw queried s) [
        | some addr ↦ (some addr, s ∷ queried)
        | none ↦ rest
      ]

  unfoldable pub discover : HolePunchConfig → Option SocketAddr → Option NatEndpoint
  discover config bound =
      bound >>= λ local_addr. endpoint local_addr (query_servers config.stun_servers []).0

  -- The loop over the attempts.
  unfoldable pub attempt_checks : ℕ → IceAgent → Targets → IceAgent × Option CandidatePair × Targets
  attempt_checks zero agent queried = (agent, none, queried)
  attempt_checks (suc n) agent queried =
      let first = run_checks exchange draw agent queried in
      let rest = attempt_checks n first.0 first.2 in after_attempt first rest

  -- The last argument is the local address of the socket, if it could be bound.
  unfoldable pub punch :
      HolePunchConfig → Relay → SocketAddr → Option SocketAddr → Answer HolePunchResult
  punch config w peer none = bail
  punch config w peer (some local_addr) =
      let (public_addr, queried) = query_servers config.stun_servers [] in
      let agent = build_agent local_addr public_addr peer in
      on_checked config w peer (attempt_checks config.attempts agent queried).1
