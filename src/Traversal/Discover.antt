-- ===== src/Traversal/Discover.antt =====
-- Discovering the public address (crates/traversal/src/stun.rs).
use udpix.Base.{
  ℕ, suc, ◌+◌, ◌≤◌, ◌≡◌, refl, ◌∙◌, false, List, [], ◌∷◌, ◌++◌, Option, none, some, ltb, length,
  take, drop, All, arith, ge→ltb, length-append, drop-append_left, take-append_left, take_all,
}
use udpix.Base.Bytes.{IsByte, to_be_bytes}
use udpix.Traversal.Address.{SocketAddr, Ip, v4, v6, xor_key}
use udpix.Traversal.Stun.{
  StunAttribute, xor_mapped_address, mapped_address, unknown, attr_xor_mapped, binding_success,
  padding, serialise_attributes, with_header, serialise_message, new_binding_request,
  decode_attribute, parse_attributes, scan_mapped, mapped_addr, discover_with_socket,
}
use udpix.Traversal.Messages.{
  IsOpaque, parse_attributes-suc, parse_attributes-serialise_attributes, parse-with_header,
}
use udpix.Traversal.Masked.{
  IsIp, IsAddr, masked, masked_ip, length-xor_bytes, decode_xor_mapped-masked,
}

-- The attributes of a server's answer: the masked address, and others that the client does not read.
abbrev pub answer_attributes : List ℕ → SocketAddr → List StunAttribute → List ℕ
answer_attributes tid a more =
    to_be_bytes 2 attr_xor_mapped
    ++ (to_be_bytes 2 (length (masked tid a)) ++ (masked tid a ++ serialise_attributes more))

pub length-masked_ip :
    (tid : List ℕ) (port : ℕ) (ip : Ip)
    → IsIp ip
    → (length (masked_ip tid port ip) ≤ 20) × (padding (length (masked_ip tid port ip)) ≡ 0)
length-masked_ip tid port (v4 n) fits = omega arith
length-masked_ip tid port (v6 octets) (sixteen, v) =
    let size = length-xor_bytes octets (xor_key tid) in (omega (arith, size), omega (arith, size))

parse_attributes-answer_attributes :
    (tid : List ℕ) (a : SocketAddr) (more : List StunAttribute)
    → All IsByte tid
    → IsAddr a
    → All IsOpaque more
    → parse_attributes (length (answer_attributes tid a more)) tid (answer_attributes tid a more)
      ≡ some (xor_mapped_address a ∷ more)
unfolding decode_attribute
parse_attributes-answer_attributes tid a more bytes v opaque =
    let value = masked tid a in
    let len = length value in
    let rest = serialise_attributes more in
    let (short, no_pad) = length-masked_ip tid a.port a.ip v.0 in
    let long : ltb (length (value ++ rest)) len ≡ false =
      ge→ltb _ _ (omega (arith, length-append value rest)) in
    let whole : take len (value ++ rest) ≡ value = take-append_left value rest len refl in
    let behind : drop (len + padding len) (value ++ rest) ≡ rest =
      drop-append_left value rest (len + padding len) (omega (arith, no_pad)) in
    let n = suc (suc (suc (length (value ++ rest)))) in
    let others : parse_attributes n tid rest ≡ some more =
      parse_attributes-serialise_attributes n tid more opaque
        (omega (arith, length-append value rest)) in
    parse_attributes-suc n attr_xor_mapped len tid (value ++ rest) (omega arith) (omega arith)
    ∙ rw (long, whole, behind, decode_xor_mapped-masked tid bytes a v, others) refl

-- The client learns its address from any server that answers with it masked, as the first of the
-- attributes, whether the address is IPv4 or IPv6, where the answer fits the buffer. The identifier
-- of the answer unmasks it and is not compared with that of the request.
pub discover_with_socket_lem :
    (exchange : SocketAddr → List ℕ → Option (List ℕ)) (tid answer_tid : List ℕ)
    (server a : SocketAddr) (more : List StunAttribute)
    → exchange server (serialise_message (new_binding_request tid))
      ≡ some (with_header binding_success answer_tid (answer_attributes answer_tid a more))
    → length answer_tid ≡ 12
    → All IsByte answer_tid
    → IsAddr a
    → All IsOpaque more
    → length (answer_attributes answer_tid a more) ≤ 492
    → discover_with_socket exchange tid server ≡ some a
unfolding discover_with_socket mapped_addr scan_mapped with_header
discover_with_socket_lem exchange tid answer_tid server a more answered twelve bytes v opaque fits =
    let attrs = answer_attributes answer_tid a more in
    let whole : take 512 (with_header binding_success answer_tid attrs)
        ≡ with_header binding_success answer_tid attrs =
      take_all _ 512 (omega (arith, length-append answer_tid attrs)) in
    rw
      (
        answered,
        whole,
        parse-with_header binding_success answer_tid attrs (omega arith) twelve (omega arith),
        parse_attributes-answer_attributes answer_tid a more bytes v opaque,
      )
      refl

-- No masked address.
abbrev pub IsPlain : StunAttribute → Type 0
IsPlain (xor_mapped_address a) = ⊥
IsPlain (mapped_address a) = Unit {0}
IsPlain (unknown t value) = Unit {0}

scan_masked :
    (front back : List StunAttribute) (a : SocketAddr) (fallback : Option SocketAddr)
    → All IsPlain front
    → scan_mapped fallback (front ++ (xor_mapped_address a ∷ back)) ≡ some a
unfolding scan_mapped
scan_masked [] back a fallback h = refl
scan_masked (xor_mapped_address b ∷ front) back a fallback h = absurd h.0
scan_masked (mapped_address b ∷ front) back a fallback h = scan_masked front back a (some b) h.1
scan_masked (unknown t value ∷ front) back a fallback h = scan_masked front back a fallback h.1

scan_rest :
    (back : List StunAttribute) (fallback : Option SocketAddr)
    → All IsOpaque back
    → scan_mapped fallback back ≡ fallback
unfolding scan_mapped
scan_rest [] fallback h = refl
scan_rest (xor_mapped_address b ∷ back) fallback h = absurd h.0
scan_rest (mapped_address b ∷ back) fallback h = absurd h.0
scan_rest (unknown t value ∷ back) fallback h = scan_rest back fallback h.1

scan_plain :
    (front back : List StunAttribute) (a : SocketAddr) (fallback : Option SocketAddr)
    → All IsPlain front
    → All IsOpaque back
    → scan_mapped fallback (front ++ (mapped_address a ∷ back)) ≡ some a
unfolding scan_mapped
scan_plain [] back a fallback h g = scan_rest back (some a) g
scan_plain (xor_mapped_address b ∷ front) back a fallback h g = absurd h.0
scan_plain (mapped_address b ∷ front) back a fallback h g = scan_plain front back a (some b) h.1 g
scan_plain (unknown t value ∷ front) back a fallback h g = scan_plain front back a fallback h.1 g

-- Among the attributes the first masked address is taken, whatever follows it; without a masked one
-- it is the last plain address.
pub mapped_addr_lem :
    (msg_type : ℕ) (tid : List ℕ) (front back others : List StunAttribute) (a : SocketAddr)
    → All IsPlain front
    → All IsOpaque others
    → (mapped_addr (record {
      msg_type = msg_type;
      transaction_id = tid;
      attributes = front ++ (xor_mapped_address a ∷ back);
    })
        ≡ some a)
      × (mapped_addr (record {
        msg_type = msg_type;
        transaction_id = tid;
        attributes = front ++ (mapped_address a ∷ others);
      })
          ≡ some a)
unfolding mapped_addr
mapped_addr_lem msg_type tid front back others a plain opaque =
    (scan_masked front back a none plain, scan_plain front others a none plain opaque)
