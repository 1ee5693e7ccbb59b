-- ===== src/Traversal/Ice.antt =====
-- crates/traversal/src/ice.rs. What a check finds out depends on all checks before it: `exchange` and
-- `draw`, the datagrams and the random identifiers, are functions of the targets queried so far, the last
-- first.
use udpix.Base.{
  ℕ, ◌+◌, ◌-◌, ◌*◌, ◌^◌, bit_or, Bool, true, false, not, min, max, List, [], ◌∷◌, ◌++◌, Option,
  none, some, ltb, if◌then◌else◌,
}
use udpix.Base.Bytes.{u32, u64}
use udpix.Traversal.Address.{SocketAddr, Ip, is_ipv4}
use udpix.Traversal.Stun.{discover_with_socket}

pub data CandidateType : Type 0 where
  host : CandidateType
  server_reflexive : CandidateType
  relayed : CandidateType

-- The foundation is the text of the type and of the IP address, which tells these two.
pub record Candidate : Type 0 where
  pub cand_type : CandidateType
  pub addr : SocketAddr
  pub priority : ℕ
  pub foundation : CandidateType × Ip
  pub component_id : ℕ

abbrev pub type_preference : CandidateType → ℕ
type_preference host = 126
type_preference server_reflexive = 100
type_preference relayed = 0

-- With the wrap of 32-bit arithmetic.
unfoldable pub compute_priority : ℕ → ℕ → ℕ → ℕ
compute_priority type_pref local_pref component_id =
    u32 (2 ^ 24 * type_pref + 2 ^ 8 * local_pref + (256 + 2 ^ 32 - component_id))

unfoldable pub new_candidate : CandidateType → SocketAddr → ℕ → Candidate
new_candidate cand_type addr local_pref = record {
  cand_type = cand_type;
  addr = addr;
  priority = compute_priority (type_preference cand_type) local_pref 1;
  foundation = (cand_type, addr.ip);
  component_id = 1;
}

pub data PairState : Type 0 where
  waiting : PairState
  in_progress : PairState
  succeeded : PairState
  failed : PairState

pub record CandidatePair : Type 0 where
  pub local : Candidate
  pub remote : Candidate
  pub priority : ℕ
  pub state : PairState

pub data IceRole : Type 0 where
  controlling : IceRole
  controlled : IceRole

abbrev pub rank : ℕ → ℕ → ℕ
rank g d = bit_or (bit_or (u64 (min g d * 2 ^ 32)) (u64 (max g d * 2))) (if ltb d g then 1 else 0)

unfoldable pub pair_priority : ℕ → ℕ → IceRole → ℕ
pair_priority g d controlling = rank g d
pair_priority g d controlled = rank d g

unfoldable pub new_pair : Candidate → Candidate → IceRole → CandidatePair
new_pair local remote role = record {
  local = local;
  remote = remote;
  priority = pair_priority local.priority remote.priority role;
  state = waiting;
}

pub record IceAgent : Type 0 where
  pub role : IceRole
  pub local_cands : List Candidate
  pub remote_cands : List Candidate
  pub check_list : List CandidatePair

unfoldable pub new_agent : IceRole → IceAgent
new_agent role = record { role = role; local_cands = []; remote_cands = []; check_list = [] }

unfoldable pub add_local_candidate : IceAgent → Candidate → IceAgent
add_local_candidate agent c = record agent { local_cands = agent.local_cands ++ (c ∷ []) }

unfoldable pub set_remote_candidates : IceAgent → List Candidate → IceAgent
set_remote_candidates agent candidates = record agent { remote_cands = candidates }

abbrev pub same_family : Candidate → Candidate → Bool
same_family l r = if is_ipv4 l.addr.ip then is_ipv4 r.addr.ip else not (is_ipv4 r.addr.ip)

-- The inner and the outer loop of `form_check_list`.
unfoldable pub pairs_of : IceRole → Candidate → List Candidate → List CandidatePair
pairs_of role l [] = []
pairs_of role l (r ∷ rs) =
    let rest = pairs_of role l rs in if same_family l r then new_pair l r role ∷ rest else rest

unfoldable pub all_pairs : IceRole → List Candidate → List Candidate → List CandidatePair
all_pairs role [] rs = []
all_pairs role (l ∷ ls) rs = pairs_of role l rs ++ all_pairs role ls rs

-- `sort_by` is a stable sort: here by insertion.
unfoldable pub insert_pair : CandidatePair → List CandidatePair → List CandidatePair
insert_pair p [] = p ∷ []
insert_pair p (q ∷ qs) =
    let rest = insert_pair p qs in if ltb p.priority q.priority then q ∷ rest else p ∷ q ∷ qs

unfoldable pub sort_pairs : List CandidatePair → List CandidatePair
sort_pairs [] = []
sort_pairs (p ∷ ps) = insert_pair p (sort_pairs ps)

unfoldable pub form_check_list : IceAgent → IceAgent
form_check_list agent = record agent {
  check_list = sort_pairs (all_pairs agent.role agent.local_cands agent.remote_cands);
}

abbrev pub is_waiting : PairState → Bool
is_waiting waiting = true
is_waiting in_progress = false
is_waiting succeeded = false
is_waiting failed = false

abbrev pub is_succeeded : PairState → Bool
is_succeeded waiting = false
is_succeeded in_progress = false
is_succeeded succeeded = true
is_succeeded failed = false

abbrev pub Targets : Type 0
Targets = List SocketAddr

-- The pairs, the pair that succeeded if one did, and the targets queried so far.
abbrev pub Checked : Type 0
Checked = List CandidatePair × Option CandidatePair × Targets

abbrev pub behind_pair : CandidatePair → Checked → Checked
behind_pair p (ps, found, queried) = (p ∷ ps, found, queried)

abbrev pub after_check :
    CandidatePair → List CandidatePair → Targets → Option SocketAddr → Checked → Checked
after_check p ps queried none rest = behind_pair (record p { state = failed }) rest
after_check p ps queried (some addr) rest =
    (record p { state = succeeded } ∷ ps, some (record p { state = succeeded }), queried)

module _ (exchange : Targets → SocketAddr → List ℕ → Option (List ℕ))
    (draw : Targets → List ℕ) where
  unfoldable pub stun_check : Targets → SocketAddr → Option SocketAddr
  stun_check queried target = discover_with_socket (exchange queried) (draw queried) target

  -- The state `InProgress` lasts during the check only.
  unfoldable pub check_pairs : List CandidatePair → Targets → Checked
  check_pairs [] queried = ([], none, queried)
  check_pairs (p ∷ ps) queried =
      let skipped = check_pairs ps queried in
      let target = p.remote.addr in
      let rest = check_pairs ps (target ∷ queried) in
      if is_waiting p.state
      then after_check p ps (target ∷ queried) (stun_check queried target) rest
      else behind_pair p skipped

  unfoldable pub run_checks : IceAgent → Targets → IceAgent × Option CandidatePair × Targets
  run_checks agent queried =
      let (pairs, found, after) = check_pairs agent.check_list queried in
      (record agent { check_list = pairs }, found, after)

unfoldable pub find_succeeded : List CandidatePair → Option CandidatePair
find_succeeded [] = none
find_succeeded (p ∷ ps) =
    let rest = find_succeeded ps in if is_succeeded p.state then some p else rest

unfoldable pub selected_pair : IceAgent → Option CandidatePair
selected_pair agent = find_succeeded agent.check_list
