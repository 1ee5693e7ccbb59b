-- ===== src/Traversal/Tests.antt =====
-- The theorems on NAT traversal at concrete inputs.
use udpix.Base.{
  ℕ, ◌+◌, ◌*◌, ◌^◌, ◌≤◌, ◌<◌, ◌≡◌, refl, List, [], ◌∷◌, ◌++◌, Option, none, some, ◌==◌,
  if◌then◌else◌, length, get_or, replicate, take, drop, slice, All, arith, true,
}
use mathlib.Core.List.{Mem}
use udpix.Base.Bytes.{u16, to_be_bytes, from_be_bytes, IsByte}
use udpix.Traversal.Address.{SocketAddr, v4, is_ipv4}
use udpix.Traversal.Stun.{
  StunMessage, unknown, binding_success, header_len, serialise_attribute, serialise_attributes,
  with_header, serialise_message, parse, discover_with_socket,
}
use udpix.Traversal.Messages.{parse-serialise_message}
use udpix.Traversal.Turn.{
  Hashes, RawAttr, turn_allocate_success, turn_channel_bind_ok, turn_refresh_request, attr_lifetime,
  attr_msg_integrity, new_msg, attr_bytes, push_attr, build, pre_mi, parse_raw_attrs, derive_key,
  message_integrity, build_with_integrity,
}
use udpix.Traversal.TurnClient.{
  TurnClient, TurnAllocation, ok, new_client, with_credentials, sign, allocate_msg, allocate,
  set_channel, contains_channel, bind_channel, on_bound, send_channel_data,
}
use udpix.Traversal.Discover.{answer_attributes, discover_with_socket_lem}
use udpix.Traversal.Signed.{raw, raw_bytes, pushed, credentials, sign_lem}
use udpix.Traversal.Grants.{challenge, granted, allocate-grants}
use udpix.Traversal.Channels.{Binding, send_channel_data_lem}
use udpix.Traversal.Ice.{
  Candidate, CandidatePair, waiting, pair_priority, IceAgent, controlling, host, relayed,
  compute_priority, new_candidate, form_check_list,
}
use udpix.Traversal.Punch.{HolePunchConfig, Relay, punch}
use udpix.Traversal.Priorities.{compute_priority_lem}
use udpix.Traversal.Pairs.{IsFresh, ipv4_count, ipv6_count}
use udpix.Traversal.CheckList.{IsRanked, form_check_list_lem}
use udpix.Traversal.Attempts.{punch_lem}

abbrev tid12 : List ℕ
tid12 = 1 ∷ 2 ∷ 3 ∷ 4 ∷ 5 ∷ 6 ∷ 7 ∷ 8 ∷ 9 ∷ 10 ∷ 11 ∷ 12 ∷ []

abbrev zeros12 : List ℕ
zeros12 = replicate 12 0

tid12-bytes : All IsByte tid12
tid12-bytes = (
  omega arith,
  (
    omega arith,
    (
      omega arith,
      (
        omega arith,
        (
          omega arith,
          (
            omega arith,
            (
              omega arith,
              (omega arith, (omega arith, (omega arith, (omega arith, (omega arith, tt))))),
            ),
          ),
        ),
      ),
    ),
  ),
)

abbrev server : SocketAddr
server = record { ip = v4 0x0A000001; port = 3478 }

abbrev client : SocketAddr
client = record { ip = v4 0xC0A80102; port = 9000 }

abbrev peer : SocketAddr
peer = record { ip = v4 0x08080808; port = 443 }

abbrev toy : Hashes
toy = record {
  md5 = λ bytes. bytes;
  hmac_sha1 = λ key bytes. replicate 20 7;
  from_utf8_lossy = λ bytes. bytes;
}

abbrev software : StunMessage
software = record {
  msg_type = 1;
  transaction_id = tid12;
  attributes = unknown 0x8022 (1 ∷ 2 ∷ 3 ∷ []) ∷ [];
}

parse-serialise_message_example : parse (serialise_message software) ≡ some software
unfolding serialise_attributes serialise_attribute
parse-serialise_message_example =
    parse-serialise_message software (omega arith) refl
      ((omega arith, (λ e. omega (arith, e)), (λ e. omega (arith, e)), omega arith), tt)
      (omega arith)

abbrev answers : SocketAddr → List ℕ → Option (List ℕ)
answers target bytes =
    some (with_header binding_success tid12 (answer_attributes tid12 client software.attributes))

discover_with_socket_lem_example : discover_with_socket answers zeros12 server ≡ some client
unfolding serialise_attributes serialise_attribute
discover_with_socket_lem_example =
    discover_with_socket_lem answers zeros12 tid12 server client software.attributes refl refl
      tid12-bytes (omega arith, omega arith)
      ((omega arith, (λ e. omega (arith, e)), (λ e. omega (arith, e)), omega arith), tt)
      (omega arith)

abbrev user : TurnClient
user = record {
  server_addr = server;
  username = 117 ∷ [];
  password = 112 ∷ [];
  realm = 114 ∷ [];
  nonce = 110 ∷ [];
  allocation = none;
  channels = [];
}

abbrev ten_minutes : List RawAttr
ten_minutes = raw attr_lifetime (to_be_bytes 4 600) ∷ []

sign_lem_example :
    let wire = sign toy user (pushed ten_minutes (new_msg turn_refresh_request tid12)) in
    (before : List ℕ) × (parse_raw_attrs (drop header_len wire)
      ≡ ten_minutes ++ (credentials toy user ++ (raw attr_msg_integrity (replicate 20 7) ∷ [])))
    × (take (length before) wire ≡ before)
    × (length wire ≡ length before + 24)
    × (header_len + from_be_bytes (slice wire 2 2) ≡ length wire)
unfolding attr_bytes
sign_lem_example =
    sign_lem toy user turn_refresh_request tid12 ten_minutes refl ((omega arith, omega arith), tt)
      ((omega arith, omega arith), ((omega arith, omega arith), ((omega arith, omega arith), tt)))
      (omega arith) (λ key bytes. refl)

abbrev grants : SocketAddr → List ℕ → Option (List ℕ)
grants target bytes =
    if length bytes == 36
    then some (replicate 20 0 ++ raw_bytes (challenge [] (114 ∷ []) (110 ∷ [])))
    else some (with_header turn_allocate_success tid12 (raw_bytes (granted tid12 peer client 300)))

abbrev fresh : TurnClient
fresh = new_client server (117 ∷ []) (112 ∷ [])

abbrev held : TurnAllocation
held = record { relayed_addr = peer; mapped_addr = client; lifetime_secs = 300 }

allocate-grants_example :
    allocate toy grants fresh tid12 zeros12
    ≡ (record fresh { realm = 114 ∷ []; nonce = 110 ∷ []; allocation = some held }, ok held)
unfolding new_client build allocate_msg new_msg push_attr attr_bytes sign with_credentials
    build_with_integrity pre_mi message_integrity derive_key
allocate-grants_example =
    allocate-grants toy grants fresh tid12 zeros12 (replicate 20 0) [] (114 ∷ []) (110 ∷ []) tid12
      peer client 300 refl refl refl (omega arith) refl refl refl tid12-bytes
      (omega arith, omega arith) (omega arith, omega arith) (omega arith)

abbrev binds : SocketAddr → List ℕ → Option (List ℕ)
binds target bytes = some (with_header turn_channel_bind_ok tid12 [])

abbrev one_binding : List Binding
one_binding = record { tid = tid12; channel = 0x4001; peer_addr = peer } ∷ []

abbrev framed : List ℕ
framed = 0x40 ∷ 1 ∷ 0 ∷ 1 ∷ 9 ∷ []

send_channel_data_lem_example :
    (framed ≡ to_be_bytes 2 0x4001 ++ (to_be_bytes 2 (u16 1) ++ (9 ∷ [])))
    × (0x4000 ≤ 0x4001)
    × (0x4001 ≤ 0x7FFF)
    × (64 ≤ get_or framed 0 0)
    × (get_or framed 0 0 < 128)
unfolding send_channel_data new_client bind_channel on_bound set_channel contains_channel
    with_header
send_channel_data_lem_example =
    send_channel_data_lem toy binds server (117 ∷ []) (112 ∷ []) one_binding 0x4001 (9 ∷ []) framed
      refl

compute_priority_lem_example :
    (compute_priority 100 5 1 < compute_priority 126 6 1)
    × (compute_priority 0 5 1 < compute_priority 100 6 1)
    × (compute_priority 126 5 1 < 2 ^ 31)
    × (compute_priority 126 8 1 < compute_priority 126 9 1)
compute_priority_lem_example =
    compute_priority_lem 5 6 8 9 host (omega arith) (omega arith) (omega arith) (omega arith)

abbrev agent : IceAgent
agent = record {
  role = controlling;
  local_cands = new_candidate relayed client 65535 ∷ new_candidate host client 65535 ∷ [];
  remote_cands = new_candidate host peer 65535 ∷ [];
  check_list = [];
}

form_check_list_lem_example :
    let pairs = (form_check_list agent).check_list in
    IsRanked pairs
    × All
        (λ (p : CandidatePair).
          IsFresh controlling p × Mem p.local agent.local_cands × Mem p.remote agent.remote_cands)
        pairs
    × ((l r : Candidate)
        → Mem l agent.local_cands
        → Mem r agent.remote_cands
        → is_ipv4 l.addr.ip ≡ is_ipv4 r.addr.ip
        → Mem
            (record {
              local = l;
              remote = r;
              priority = pair_priority l.priority r.priority controlling;
              state = waiting;
            })
            pairs)
    × (length pairs
        ≡ ipv4_count agent.local_cands * ipv4_count agent.remote_cands
          + ipv6_count agent.local_cands * ipv6_count agent.remote_cands)
form_check_list_lem_example = form_check_list_lem agent

abbrev relay : Relay
relay = record {
  hashes = toy;
  turn_exchange = grants;
  bound = true;
  tid1 = tid12;
  tid2 = zeros12;
  tid3 = zeros12;
}

abbrev config : HolePunchConfig
config = record {
  stun_servers = server ∷ [];
  turn = none;
  attempts = 10;
  attempt_interval_ms = 250;
}

punch_lem_example :
    punch
      (λ queried target bytes. answers target bytes)
      (λ queried. zeros12)
      config
      relay
      peer
      (some client)
    ≡ punch
        (λ queried target bytes. answers target bytes)
        (λ queried. zeros12)
        (record config { attempts = 1 })
        relay
        peer
        (some client)
punch_lem_example =
    punch_lem (λ queried target bytes. answers target bytes) (λ queried. zeros12) config relay peer
      (some client) 9
