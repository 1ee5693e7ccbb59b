-- ===== src/Traversal/TurnClient.antt =====
-- crates/traversal/src/turn.rs: the client and its requests. `exchange` sends a message to the server and
-- waits for one datagram: `none` if sending or receiving fails or the time is over.
use udpix.Base.{
  ℕ, Bool, true, false, ◌||◌, ◌&&◌, not, List, [], ◌∷◌, ◌++◌, Option, none, some, ltb, leb, ◌==◌,
  if◌then◌else◌, length, take, drop, slice, replicate, ◌>>=◌,
}
use udpix.Base.Bytes.{u16, to_be_bytes, from_be_bytes}
use udpix.Traversal.Address.{SocketAddr}
use udpix.Traversal.Stun.{header_len}
use udpix.Traversal.Turn.{
  Hashes, TurnMsg, RawAttr, turn_allocate_request, turn_allocate_success, turn_create_perm_request,
  turn_create_perm_success, turn_channel_bind, turn_channel_bind_ok, turn_refresh_request,
  attr_username, attr_realm, attr_nonce, attr_xor_relayed, attr_xor_mapped, attr_lifetime,
  attr_req_transport, attr_channel_number, attr_xor_peer_addr, new_msg, push_attr, build,
  parse_raw_attrs, parse_xor_mapped_addr, error_code, find_attr, encode_xor_peer, derive_key,
  build_with_integrity,
}

-- A result, an error, or a panic.
pub data Answer (A : Type 0) : Type 0 where
  ok : A → Answer A
  bail : Answer A
  panic : Answer A

pub record TurnAllocation : Type 0 where
  pub relayed_addr : SocketAddr
  pub mapped_addr : SocketAddr
  pub lifetime_secs : ℕ

pub record TurnClient : Type 0 where
  pub server_addr : SocketAddr
  pub username : List ℕ
  pub password : List ℕ
  pub realm : List ℕ
  pub nonce : List ℕ
  pub allocation : Option TurnAllocation
  pub channels : List (ℕ × SocketAddr)

unfoldable pub new_client : SocketAddr → List ℕ → List ℕ → TurnClient
new_client server username password = record {
  server_addr = server;
  username = username;
  password = password;
  realm = [];
  nonce = [];
  allocation = none;
  channels = [];
}

abbrev pub or_addr : Option SocketAddr → SocketAddr → SocketAddr
or_addr none d = d
or_addr (some a) d = a

abbrev pub code_of : Option ℕ → ℕ
code_of none = 0
code_of (some code) = code

abbrev pub lifetime_of : Option RawAttr → ℕ
lifetime_of none = 600
lifetime_of (some a) = from_be_bytes a.value

abbrev pub is_empty : List ℕ → Bool
is_empty [] = true
is_empty (x ∷ xs) = false

unfoldable pub contains_channel : ℕ → List (ℕ × SocketAddr) → Bool
contains_channel channel [] = false
contains_channel channel ((c, a) ∷ m) = (c == channel) || contains_channel channel m

-- `insert`.
unfoldable pub set_channel : ℕ → SocketAddr → List (ℕ × SocketAddr) → List (ℕ × SocketAddr)
set_channel channel addr [] = (channel, addr) ∷ []
set_channel channel addr ((c, a) ∷ m) =
    let rest = set_channel channel addr m in if c == channel then (c, addr) ∷ m else (c, a) ∷ rest

-- The credentials behind the attributes of every authenticated request.
unfoldable pub with_credentials : TurnClient → TurnMsg → TurnMsg
with_credentials c m =
    push_attr attr_nonce c.nonce
      (push_attr attr_realm c.realm (push_attr attr_username c.username m))

unfoldable pub sign : Hashes → TurnClient → TurnMsg → List ℕ
sign h c m =
    build_with_integrity h (with_credentials c m) (derive_key h c.username c.realm c.password)

unfoldable pub allocate_msg : List ℕ → TurnMsg
allocate_msg tid =
    push_attr attr_lifetime (to_be_bytes 4 600)
      (push_attr attr_req_transport (0x11 ∷ 0 ∷ 0 ∷ 0 ∷ []) (new_msg turn_allocate_request tid))

abbrev pub in_range : ℕ → Bool
in_range channel = leb 0x4000 channel && leb channel 0x7FFF

-- The type in a buffer of 512 zeros into which a datagram was received.
abbrev pub type_in_buffer : List ℕ → ℕ
type_in_buffer r = from_be_bytes (slice (take 512 r ++ replicate 2 0) 0 2)

unfoldable pub permission_msg : List ℕ → SocketAddr → TurnMsg
permission_msg tid peer_addr =
    push_attr attr_xor_peer_addr (encode_xor_peer peer_addr) (new_msg turn_create_perm_request tid)

unfoldable pub bind_msg : List ℕ → ℕ → SocketAddr → TurnMsg
bind_msg tid channel peer_addr = push_attr attr_xor_peer_addr (encode_xor_peer peer_addr) (
    push_attr attr_channel_number (to_be_bytes 2 channel ++ (0 ∷ 0 ∷ []))
      (new_msg turn_channel_bind tid))

-- The datagram that is sent.
unfoldable pub send_channel_data : TurnClient → ℕ → List ℕ → Option (List ℕ)
send_channel_data c channel bytes =
    if contains_channel channel c.channels
    then some (to_be_bytes 2 channel ++ (to_be_bytes 2 (u16 (length bytes)) ++ bytes))
    else none

-- The datagram that is sent.
unfoldable pub refresh : Hashes → TurnClient → List ℕ → List ℕ
refresh h c tid =
    sign h c (push_attr attr_lifetime (to_be_bytes 4 600) (new_msg turn_refresh_request tid))

unfoldable pub on_bound :
    TurnClient → ℕ → SocketAddr → Option (List ℕ) → TurnClient × Option (Unit {0})
on_bound c channel peer_addr none = (c, none)
on_bound c channel peer_addr (some r) =
    if type_in_buffer r == turn_channel_bind_ok
    then (record c { channels = set_channel channel peer_addr c.channels }, some tt)
    else (c, none)

module _ (h : Hashes) (exchange : SocketAddr → List ℕ → Option (List ℕ)) where
  open h use {from_utf8_lossy}

  -- The buffer holds 1024 bytes.
  unfoldable pub send_allocate_request : TurnClient → Bool → List ℕ → Option (List ℕ)
  send_allocate_request c authenticated tid =
      exchange c.server_addr
        (if authenticated then sign h c (allocate_msg tid) else build (allocate_msg tid))
      >>= λ r. some (take 1024 r)

  -- One round of the loop over the attributes of the 401.
  unfoldable pub store_attr : RawAttr → TurnClient → TurnClient
  store_attr a c =
      if a.attr_type == attr_realm
      then record c { realm = from_utf8_lossy a.value }
      else if a.attr_type == attr_nonce
      then record c { nonce = a.value }
      else c

  -- A later attribute replaces an earlier one.
  unfoldable pub store_challenge : List RawAttr → TurnClient → TurnClient
  store_challenge [] c = c
  store_challenge (a ∷ attrs) c = store_challenge attrs (store_attr a c)

  abbrev pub allocation_from :
      List RawAttr → List ℕ → TurnClient → Option SocketAddr → TurnClient × Answer TurnAllocation
  allocation_from attrs tid c none = (c, bail)
  allocation_from attrs tid c (some relayed) =
      let alloc : TurnAllocation = record {
        relayed_addr = relayed;
        mapped_addr =
            or_addr
              (find_attr (λ a. a.attr_type == attr_xor_mapped) attrs >>= λ a.
                parse_xor_mapped_addr a.value tid)
              relayed;
        lifetime_secs =
            lifetime_of
              (find_attr (λ a. (a.attr_type == attr_lifetime) && (length a.value == 4)) attrs);
      } in
      (record c { allocation = some alloc }, ok alloc)

  -- The second answer. A datagram shorter than a header makes an index panic on either branch.
  unfoldable pub on_second : TurnClient → Option (List ℕ) → TurnClient × Answer TurnAllocation
  on_second c none = (c, bail)
  on_second c (some r2) =
      let attrs = parse_raw_attrs (drop header_len r2) in
      let tid = slice r2 8 12 in
      if ltb (length r2) header_len
      then (c, panic)
      else if not (from_be_bytes (slice r2 0 2) == turn_allocate_success)
      then (c, bail)
      else allocation_from attrs tid c (
          find_attr (λ a. a.attr_type == attr_xor_relayed) attrs >>= λ a.
          parse_xor_mapped_addr a.value tid)

  abbrev pub on_first : TurnClient → List ℕ → Option (List ℕ) → TurnClient × Answer TurnAllocation
  on_first c tid none = (c, bail)
  on_first c tid (some r1) =
      let attrs = parse_raw_attrs (drop header_len r1) in
      let c' = store_challenge attrs c in
      if ltb (length r1) header_len
      then (c, panic)
      else if not (code_of (error_code attrs) == 401)
      then (c, bail)
      else if is_empty c'.realm || is_empty c'.nonce
      then (c', bail)
      else on_second c' (send_allocate_request c' true tid)

  -- The two identifiers are those of the two requests.
  unfoldable pub allocate : TurnClient → List ℕ → List ℕ → TurnClient × Answer TurnAllocation
  allocate c tid1 tid2 = on_first c tid2 (send_allocate_request c false tid1)

  unfoldable pub create_permission : TurnClient → List ℕ → SocketAddr → Option (Unit {0})
  create_permission c tid peer_addr =
      exchange c.server_addr (sign h c (permission_msg tid peer_addr)) >>= λ r.
      if type_in_buffer r == turn_create_perm_success then some tt else none

  unfoldable pub bind_channel :
      TurnClient → List ℕ → ℕ → SocketAddr → TurnClient × Option (Unit {0})
  bind_channel c tid channel peer_addr =
      if in_range channel
      then on_bound c channel peer_addr
          (exchange c.server_addr (sign h c (bind_msg tid channel peer_addr)))
      else (c, none)
