-- ===== src/Traversal/Stun.antt =====
-- crates/traversal/src/stun.rs. An error is `none`. Every index is behind a length test, so that nothing
-- panics; positions stay below the length of the datagram and do not wrap.
use udpix.Base.{
  ℕ, zero, suc, ◌+◌, ◌-◌, ◌%◌, not, List, [], ◌∷◌, ◌++◌, Option, none, some, ltb, ◌==◌,
  if◌then◌else◌, length, get_or, take, drop, slice, replicate, bit_xor, ◌>>=◌,
}
use udpix.Base.Bytes.{u16, to_be_bytes, from_be_bytes}
use udpix.Traversal.Address.{SocketAddr, v4, v6, magic_cookie, port_mask, xor_key, xor_bytes}

abbrev pub binding_request : ℕ
binding_request = 0x0001

abbrev pub binding_success : ℕ
binding_success = 0x0101

abbrev pub attr_mapped : ℕ
attr_mapped = 0x0001

abbrev pub attr_xor_mapped : ℕ
attr_xor_mapped = 0x0020

abbrev pub header_len : ℕ
header_len = 20

abbrev pub attr_hdr_len : ℕ
attr_hdr_len = 4

pub data StunAttribute : Type 0 where
  xor_mapped_address : SocketAddr → StunAttribute
  mapped_address : SocketAddr → StunAttribute
  unknown : ℕ → List ℕ → StunAttribute

pub record StunMessage : Type 0 where
  pub msg_type : ℕ
  pub transaction_id : List ℕ
  pub attributes : List StunAttribute

-- The transaction identifier is drawn at random.
unfoldable pub new_binding_request : List ℕ → StunMessage
new_binding_request tid = record {
  msg_type = binding_request;
  transaction_id = tid;
  attributes = [];
}

-- The zeros up to the next multiple of four.
abbrev pub padding : ℕ → ℕ
padding n = (4 - n % 4) % 4

unfoldable pub serialise_attribute : StunAttribute → List ℕ
serialise_attribute (xor_mapped_address a) = []
serialise_attribute (mapped_address a) = []
serialise_attribute (unknown attr_type value) =
    to_be_bytes 2 attr_type
    ++ (to_be_bytes 2 (u16 (length value)) ++ (value ++ replicate (padding (length value)) 0))

unfoldable pub serialise_attributes : List StunAttribute → List ℕ
serialise_attributes [] = []
serialise_attributes (a ∷ attrs) = serialise_attribute a ++ serialise_attributes attrs

-- A header and attributes that are serialised already.
unfoldable pub with_header : ℕ → List ℕ → List ℕ → List ℕ
with_header msg_type tid attrs =
    to_be_bytes 2 msg_type
    ++ (to_be_bytes 2 (u16 (length attrs)) ++ (to_be_bytes 4 magic_cookie ++ (tid ++ attrs)))

unfoldable pub serialise_message : StunMessage → List ℕ
serialise_message m = with_header m.msg_type m.transaction_id (serialise_attributes m.attributes)

unfoldable pub decode_xor_mapped : List ℕ → List ℕ → Option SocketAddr
decode_xor_mapped val tid =
    let port = bit_xor (from_be_bytes (slice val 2 2)) port_mask in
    if ltb (length val) 4
    then none
    else if get_or val 1 0 == 0x01
    then (if ltb (length val) 8
        then none
        else some (record {
          ip = v4 (bit_xor (from_be_bytes (slice val 4 4)) magic_cookie);
          port = port;
        }))
    else if get_or val 1 0 == 0x02
    then (if ltb (length val) 20
        then none
        else some (record { ip = v6 (xor_bytes (slice val 4 16) (xor_key tid)); port = port }))
    else none

unfoldable pub decode_mapped : List ℕ → Option SocketAddr
decode_mapped val =
    if ltb (length val) 4
    then none
    else if get_or val 1 0 == 0x01
    then (if ltb (length val) 8
        then none
        else some (record {
          ip = v4 (from_be_bytes (slice val 4 4));
          port = from_be_bytes (slice val 2 2);
        }))
    else none

unfoldable pub decode_attribute : ℕ → List ℕ → List ℕ → Option StunAttribute
decode_attribute attr_type val tid =
    if attr_type == attr_xor_mapped
    then (decode_xor_mapped val tid >>= λ a. some (xor_mapped_address a))
    else if attr_type == attr_mapped
    then (decode_mapped val >>= λ a. some (mapped_address a))
    else some (unknown attr_type val)

-- The loop, on what stands behind `pos`. The fuel is the length of the buffer: each round takes the
-- four bytes of an attribute's header.
unfoldable pub parse_attributes : ℕ → List ℕ → List ℕ → Option (List StunAttribute)
parse_attributes zero tid buf = some []
parse_attributes (suc n) tid buf =
    let attr_len = from_be_bytes (slice buf 2 2) in
    let body = drop attr_hdr_len buf in
    let rest = parse_attributes n tid (drop (attr_len + padding attr_len) body) in
    if ltb (length buf) attr_hdr_len
    then some []
    else if ltb (length body) attr_len
    then none
    else (decode_attribute (from_be_bytes (slice buf 0 2)) (take attr_len body) tid >>= λ attr.
        rest >>= λ attrs. some (attr ∷ attrs))

unfoldable pub parse : List ℕ → Option StunMessage
parse buf =
    let attr_len = from_be_bytes (slice buf 2 2) in
    let tid = slice buf 8 12 in
    if ltb (length buf) header_len
    then none
    else if not (from_be_bytes (slice buf 4 4) == magic_cookie)
    then none
    else if ltb (length buf) (header_len + attr_len)
    then none
    else (parse_attributes attr_len tid (slice buf header_len attr_len) >>= λ attrs. some (record {
      msg_type = from_be_bytes (slice buf 0 2);
      transaction_id = tid;
      attributes = attrs;
    }))

-- The loop of `mapped_addr`, with the fallback that it carries.
unfoldable pub scan_mapped : Option SocketAddr → List StunAttribute → Option SocketAddr
scan_mapped fallback [] = fallback
scan_mapped fallback (xor_mapped_address a ∷ attrs) = some a
scan_mapped fallback (mapped_address a ∷ attrs) = scan_mapped (some a) attrs
scan_mapped fallback (unknown t value ∷ attrs) = scan_mapped fallback attrs

unfoldable pub mapped_addr : StunMessage → Option SocketAddr
mapped_addr m = scan_mapped none m.attributes

abbrev pub reflexive : StunMessage → Option SocketAddr
reflexive resp = if resp.msg_type == binding_success then mapped_addr resp else none

-- Sending to an address and waiting for one datagram: `none` if sending or receiving fails or the
-- time is over. The buffer holds 512 bytes.
unfoldable pub discover_with_socket :
    (SocketAddr → List ℕ → Option (List ℕ)) → List ℕ → SocketAddr → Option SocketAddr
discover_with_socket exchange tid stun_addr =
    exchange stun_addr (serialise_message (new_binding_request tid)) >>= λ datagram.
    parse (take 512 datagram) >>= λ resp. reflexive resp
