-- ===== src/Traversal/Turn.antt =====
-- crates/traversal/src/turn.rs: the messages of the TURN client. The hashes and the lossy reading of
-- UTF-8 are parameters; random transaction identifiers are arguments.
use udpix.Base.{
  ℕ, zero, suc, ◌+◌, ◌*◌, bit_and, Bool, ◌&&◌, not, List, [], ◌∷◌, ◌++◌, Option, none, some, ltb,
  ◌==◌, if◌then◌else◌, length, get_or, take, drop, slice, replicate, bit_xor,
}
use udpix.Base.Bytes.{u16, to_be_bytes, from_be_bytes}
use udpix.Traversal.Address.{SocketAddr, Ip, v4, v6, magic_cookie, port_mask, xor_key, xor_bytes}
use udpix.Traversal.Stun.{padding}

abbrev pub turn_allocate_request : ℕ
turn_allocate_request = 0x0003

abbrev pub turn_allocate_success : ℕ
turn_allocate_success = 0x0103

abbrev pub turn_create_perm_request : ℕ
turn_create_perm_request = 0x0008

abbrev pub turn_create_perm_success : ℕ
turn_create_perm_success = 0x0108

abbrev pub turn_channel_bind : ℕ
turn_channel_bind = 0x0009

abbrev pub turn_channel_bind_ok : ℕ
turn_channel_bind_ok = 0x0109

abbrev pub turn_refresh_request : ℕ
turn_refresh_request = 0x0004

abbrev pub attr_username : ℕ
attr_username = 0x0006

abbrev pub attr_msg_integrity : ℕ
attr_msg_integrity = 0x0008

abbrev pub attr_error_code : ℕ
attr_error_code = 0x0009

abbrev pub attr_realm : ℕ
attr_realm = 0x0014

abbrev pub attr_nonce : ℕ
attr_nonce = 0x0015

abbrev pub attr_xor_relayed : ℕ
attr_xor_relayed = 0x0016

abbrev pub attr_xor_mapped : ℕ
attr_xor_mapped = 0x0020

abbrev pub attr_lifetime : ℕ
attr_lifetime = 0x000D

abbrev pub attr_req_transport : ℕ
attr_req_transport = 0x0019

abbrev pub attr_channel_number : ℕ
attr_channel_number = 0x000C

abbrev pub attr_xor_peer_addr : ℕ
attr_xor_peer_addr = 0x0012

-- `md5::compute`, HMAC-SHA1 with its twenty bytes, and `String::from_utf8_lossy`.
pub record Hashes : Type 0 where
  pub md5 : List ℕ → List ℕ
  pub hmac_sha1 : List ℕ → List ℕ → List ℕ
  pub from_utf8_lossy : List ℕ → List ℕ

pub record TurnMsg : Type 0 where
  pub msg_type : ℕ
  pub tid : List ℕ
  pub attrs : List ℕ

unfoldable pub new_msg : ℕ → List ℕ → TurnMsg
new_msg msg_type tid = record { msg_type = msg_type; tid = tid; attrs = [] }

-- What `push_attr` appends.
unfoldable pub attr_bytes : ℕ → List ℕ → List ℕ
attr_bytes attr_type value =
    to_be_bytes 2 attr_type
    ++ (to_be_bytes 2 (u16 (length value)) ++ (value ++ replicate (padding (length value)) 0))

unfoldable pub push_attr : ℕ → List ℕ → TurnMsg → TurnMsg
push_attr attr_type value m = record m { attrs = m.attrs ++ attr_bytes attr_type value }

unfoldable pub build : TurnMsg → List ℕ
build m =
    to_be_bytes 2 m.msg_type
    ++ (to_be_bytes 2 (u16 (length m.attrs)) ++ (to_be_bytes 4 magic_cookie ++ (m.tid ++ m.attrs)))

-- The message up to its integrity, with the length that counts the integrity.
unfoldable pub pre_mi : TurnMsg → List ℕ
pre_mi m =
    to_be_bytes 2 m.msg_type
    ++ (to_be_bytes 2 (u16 (length m.attrs + 4 + 20))
        ++ (to_be_bytes 4 magic_cookie ++ (m.tid ++ m.attrs)))

pub record RawAttr : Type 0 where
  pub attr_type : ℕ
  pub value : List ℕ

-- The loop, on what stands behind `pos`. The fuel is the length of the buffer: each round takes the
-- four bytes of an attribute's header.
unfoldable pub parse_raw_fuel : ℕ → List ℕ → List RawAttr
parse_raw_fuel zero buf = []
parse_raw_fuel (suc n) buf =
    let l = from_be_bytes (slice buf 2 2) in
    let body = drop 4 buf in
    let rest = parse_raw_fuel n (drop (l + padding l) body) in
    if ltb (length buf) 4
    then []
    else if ltb (length body) l
    then []
    else record { attr_type = from_be_bytes (slice buf 0 2); value = take l body } ∷ rest

unfoldable pub parse_raw_attrs : List ℕ → List RawAttr
parse_raw_attrs buf = parse_raw_fuel (length buf) buf

unfoldable pub parse_xor_mapped_addr : List ℕ → List ℕ → Option SocketAddr
parse_xor_mapped_addr val tid =
    let port = bit_xor (from_be_bytes (slice val 2 2)) port_mask in
    if ltb (length val) 8
    then none
    else if get_or val 1 0 == 0x01
    then some
        (record { ip = v4 (bit_xor (from_be_bytes (slice val 4 4)) magic_cookie); port = port })
    else if (get_or val 1 0 == 0x02) && not (ltb (length val) 20)
    then some (record { ip = v6 (xor_bytes (slice val 4 16) (xor_key tid)); port = port })
    else none

unfoldable pub error_code : List RawAttr → Option ℕ
error_code [] = none
error_code (a ∷ attrs) =
    let rest = error_code attrs in
    if (a.attr_type == attr_error_code) && not (ltb (length a.value) 4)
    then some (bit_and (get_or a.value 2 0) 0x07 * 100 + get_or a.value 3 0)
    else rest

-- `attrs.iter().find(...)`.
unfoldable pub find_attr : (RawAttr → Bool) → List RawAttr → Option RawAttr
find_attr p [] = none
find_attr p (a ∷ attrs) = let rest = find_attr p attrs in if p a then some a else rest

-- The two arms of `encode_xor_peer`.
abbrev pub peer_value : ℕ → Ip → List ℕ
peer_value port (v4 n) =
    0 ∷ 0x01 ∷ (to_be_bytes 2 (bit_xor port port_mask) ++ to_be_bytes 4 (bit_xor n magic_cookie))
peer_value port (v6 octets) = 0 ∷ 0x02 ∷ (to_be_bytes 2 (bit_xor port port_mask) ++ octets)

-- The identifier that the code hands over is not used.
unfoldable pub encode_xor_peer : SocketAddr → List ℕ
encode_xor_peer addr = peer_value addr.port addr.ip

module _ (h : Hashes) where
  open h use {md5, hmac_sha1}

  unfoldable pub derive_key : List ℕ → List ℕ → List ℕ → List ℕ
  derive_key username realm password = md5 (username ++ (b':' ∷ (realm ++ (b':' ∷ password))))

  unfoldable pub message_integrity : List ℕ → List ℕ → List ℕ
  message_integrity key msg_bytes = hmac_sha1 key msg_bytes

  unfoldable pub build_with_integrity : TurnMsg → List ℕ → List ℕ
  build_with_integrity m key =
      pre_mi m
      ++ (to_be_bytes 2 attr_msg_integrity
          ++ (to_be_bytes 2 20 ++ message_integrity key (pre_mi m)))
