-- ===== src/Traversal/Address.antt =====
-- Socket addresses, as the standard library has them, and the masks of crates/traversal/src/stun.rs.
use udpix.Base.{ℕ, ◌/◌, ◌^◌, Bool, true, false, List, [], ◌∷◌, ◌++◌, bit_xor}
use udpix.Base.Bytes.{to_be_bytes}

-- An IPv4 address is a 32-bit number, an IPv6 address its sixteen octets.
pub data Ip : Type 0 where
  v4 : ℕ → Ip
  v6 : List ℕ → Ip

pub record SocketAddr : Type 0 where
  pub ip : Ip
  pub port : ℕ

abbrev pub is_ipv4 : Ip → Bool
is_ipv4 (v4 n) = true
is_ipv4 (v6 octets) = false

abbrev pub magic_cookie : ℕ
magic_cookie = 0x2112_A442

-- `(MAGIC_COOKIE >> 16) as u16`.
abbrev pub port_mask : ℕ
port_mask = magic_cookie / 2 ^ 16

-- The mask of an IPv6 address.
abbrev pub xor_key : List ℕ → List ℕ
xor_key tid = to_be_bytes 4 magic_cookie ++ tid

-- The loop `x[i] ^= key[i]`.
unfoldable pub xor_bytes : List ℕ → List ℕ → List ℕ
xor_bytes [] key = []
xor_bytes (x ∷ xs) [] = x ∷ xs
xor_bytes (x ∷ xs) (k ∷ key) = bit_xor x k ∷ xor_bytes xs key
