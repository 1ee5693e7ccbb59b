-- ===== src/Traversal/Masked.antt =====
-- Masked addresses (crates/traversal/src/stun.rs, crates/traversal/src/turn.rs).
use udpix.Base.{
  ℕ, suc, ◌^◌, ◌≤◌, ◌<◌, ◌≡◌, refl, ap, ap₂, ◌∙◌, false, List, [], ◌∷◌, ◌++◌, Option, some, ltb,
  length, take, All, arith, ge→ltb, bit_xor, take_all,
}
use udpix.Base.Bytes.{
  IsByte, to_be_bytes, from_be_bytes, from_be_bytes-to_be_bytes_two, from_be_bytes-to_be_bytes_four,
}
use udpix.Base.Xor.{bit_xor-lt, bit_xor_twice}
use udpix.Traversal.Address.{SocketAddr, Ip, v4, v6, magic_cookie, port_mask, xor_key, xor_bytes}
use udpix.Traversal.Stun.{decode_xor_mapped}
use udpix.Traversal.Turn.{parse_xor_mapped_addr, encode_xor_peer}

-- What fits the types of the standard library.
abbrev pub IsIp : Ip → Type 0
IsIp (v4 n) = n < 2 ^ 32
IsIp (v6 octets) = (length octets ≡ 16) × All IsByte octets

abbrev pub IsAddr : SocketAddr → Type 0
IsAddr a = IsIp a.ip × (a.port < 2 ^ 16)

-- The value of the attribute XOR-MAPPED-ADDRESS, as RFC 5389 section 15.2 describes it.
abbrev pub masked_ip : List ℕ → ℕ → Ip → List ℕ
masked_ip tid port (v4 n) =
    0 ∷ 0x01 ∷ (to_be_bytes 2 (bit_xor port port_mask) ++ to_be_bytes 4 (bit_xor n magic_cookie))
masked_ip tid port (v6 octets) =
    0 ∷ 0x02 ∷ (to_be_bytes 2 (bit_xor port port_mask) ++ xor_bytes octets (xor_key tid))

abbrev pub masked : List ℕ → SocketAddr → List ℕ
masked tid a = masked_ip tid a.port a.ip

pub length-xor_bytes : (xs key : List ℕ) → length (xor_bytes xs key) ≡ length xs
unfolding xor_bytes
length-xor_bytes [] key = refl
length-xor_bytes (x ∷ xs) [] = refl
length-xor_bytes (x ∷ xs) (k ∷ key) = ap suc (length-xor_bytes xs key)

xor_bytes_twice :
    (xs key : List ℕ) → All IsByte xs → All IsByte key → xor_bytes (xor_bytes xs key) key ≡ xs
unfolding xor_bytes
xor_bytes_twice [] key a b = refl
xor_bytes_twice (x ∷ xs) [] a b = refl
xor_bytes_twice (x ∷ xs) (k ∷ key) a b =
    ap₂ (λ (y : ℕ) (ys : List ℕ). y ∷ ys) (bit_xor_twice 8 x k a.0 b.0)
      (xor_bytes_twice xs key a.1 b.1)

unmask_port :
    (port : ℕ)
    → port < 2 ^ 16
    → bit_xor (from_be_bytes (to_be_bytes 2 (bit_xor port port_mask))) port_mask ≡ port
unmask_port port h =
    let fits : port_mask < 2 ^ 16 = omega arith in
    ap (λ (t : ℕ). bit_xor t port_mask)
      (from_be_bytes-to_be_bytes_two (bit_xor port port_mask) (bit_xor-lt 16 port port_mask h fits))
    ∙ bit_xor_twice 16 port port_mask h fits

unmask_four :
    (n : ℕ)
    → n < 2 ^ 32
    → bit_xor (from_be_bytes (to_be_bytes 4 (bit_xor n magic_cookie))) magic_cookie ≡ n
unmask_four n h =
    let fits : magic_cookie < 2 ^ 32 = omega arith in
    ap (λ (t : ℕ). bit_xor t magic_cookie)
      (from_be_bytes-to_be_bytes_four (bit_xor n magic_cookie)
        (bit_xor-lt 32 n magic_cookie h fits))
    ∙ bit_xor_twice 32 n magic_cookie h fits

abbrev address : Ip → ℕ → Option SocketAddr
address ip port = some (record { ip = ip; port = port })

module _ (tid : List ℕ) (bytes : All IsByte tid) where
  key-IsByte : All IsByte (xor_key tid)
  key-IsByte = (omega arith, (omega arith, (omega arith, (omega arith, bytes))))

  unmask_octets :
      (octets : List ℕ)
      → IsIp (v6 octets)
      → xor_bytes (take 16 (xor_bytes octets (xor_key tid))) (xor_key tid) ≡ octets
  unmask_octets octets (sixteen, v) =
      let whole : take 16 (xor_bytes octets (xor_key tid)) ≡ xor_bytes octets (xor_key tid) =
        take_all _ 16 (omega (arith, length-xor_bytes octets (xor_key tid))) in
      ap (λ (t : List ℕ). xor_bytes t (xor_key tid)) whole
      ∙ xor_bytes_twice octets (xor_key tid) v key-IsByte

  long_enough :
      (octets : List ℕ) (n : ℕ)
      → length octets ≡ 16
      → n ≤ 20
      → ltb (suc (suc (suc (suc (length (xor_bytes octets (xor_key tid))))))) n ≡ false
  long_enough octets n h le = ge→ltb _ _ (omega (arith, length-xor_bytes octets (xor_key tid)))

  pub decode_xor_mapped-masked :
      (a : SocketAddr) → IsAddr a → decode_xor_mapped (masked tid a) tid ≡ some a
  unfolding decode_xor_mapped
  decode_xor_mapped-masked a (v, small) = go a.ip v
    where
      go : (ip : Ip) → IsIp ip → decode_xor_mapped (masked_ip tid a.port ip) tid ≡ address ip a.port
      go (v4 n) fits =
          ap₂ (λ (i p : ℕ). address (v4 i) p) (unmask_four n fits) (unmask_port a.port small)
      go (v6 octets) fits =
          rw (long_enough octets 4 fits.0 (omega arith), long_enough octets 20 fits.0 (omega arith))
            (ap₂ (λ (i : List ℕ) (p : ℕ). address (v6 i) p) (unmask_octets octets fits)
              (unmask_port a.port small))

  pub parse_xor_mapped_addr-masked :
      (a : SocketAddr) → IsAddr a → parse_xor_mapped_addr (masked tid a) tid ≡ some a
  unfolding parse_xor_mapped_addr
  parse_xor_mapped_addr-masked a (v, small) = go a.ip v
    where
      go :
          (ip : Ip)
          → IsIp ip
          → parse_xor_mapped_addr (masked_ip tid a.port ip) tid ≡ address ip a.port
      go (v4 n) fits =
          ap₂ (λ (i p : ℕ). address (v4 i) p) (unmask_four n fits) (unmask_port a.port small)
      go (v6 octets) fits =
          rw (long_enough octets 8 fits.0 (omega arith), long_enough octets 20 fits.0 (omega arith))
            (ap₂ (λ (i : List ℕ) (p : ℕ). address (v6 i) p) (unmask_octets octets fits)
              (unmask_port a.port small))

-- The address of a peer that stands in a request: an IPv4 one is masked, so that it is read back as
-- it is; an IPv6 one is not masked, and who reads it gets its octets masked with the cookie and the
-- identifier.
pub parse_xor_mapped_addr-encode_xor_peer :
    (port n : ℕ) (octets tid : List ℕ)
    → port < 2 ^ 16
    → n < 2 ^ 32
    → length octets ≡ 16
    → (parse_xor_mapped_addr (encode_xor_peer (record { ip = v4 n; port = port })) tid
        ≡ some (record { ip = v4 n; port = port }))
      × (parse_xor_mapped_addr (encode_xor_peer (record { ip = v6 octets; port = port })) tid
          ≡ some (record { ip = v6 (xor_bytes octets (xor_key tid)); port = port }))
unfolding encode_xor_peer parse_xor_mapped_addr
parse_xor_mapped_addr-encode_xor_peer port n octets tid small fits sixteen =
    let size = suc (suc (suc (suc (length octets)))) in
    let long : ltb size 8 ≡ false = ge→ltb _ _ (omega arith) in
    let longer : ltb size 20 ≡ false = ge→ltb _ _ (omega arith) in
    let whole : take 16 octets ≡ octets = take_all octets 16 (omega arith) in
    (
      ap₂ (λ (i p : ℕ). address (v4 i) p) (unmask_four n fits) (unmask_port port small),
      rw (long, longer)
          (ap₂ (λ (i : List ℕ) (p : ℕ). address (v6 (xor_bytes i (xor_key tid))) p) whole
            (unmask_port port small)),
    )
