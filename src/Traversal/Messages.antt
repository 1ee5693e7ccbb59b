-- ===== src/Traversal/Messages.antt =====
-- STUN messages on the wire (crates/traversal/src/stun.rs).
use udpix.Base.{
  ℕ, zero, suc, ◌+◌, ◌^◌, ◌≤◌, ◌<◌, ◌≡◌, ◌≢◌, refl, sym, ap, ap₂, ◌∙◌, false, List, [], ◌∷◌, ◌++◌,
  Option, none, some, ltb, if◌then◌else◌, length, take, drop, replicate, All, arith, ge→ltb, ne→==,
  append_assoc, ◌>>=◌, length-append, length-replicate, drop-append_left, take-append_left,
  take_all,
}
use udpix.Base.Bytes.{u16, to_be_bytes, from_be_bytes, from_be_bytes-to_be_bytes_two}
use udpix.Traversal.Address.{magic_cookie}
use udpix.Traversal.Stun.{
  StunAttribute, StunMessage, xor_mapped_address, mapped_address, unknown, attr_mapped,
  attr_xor_mapped, attr_hdr_len, header_len, padding, serialise_attribute, serialise_attributes,
  with_header, serialise_message, decode_attribute, parse_attributes, parse,
}

-- The attributes that this client writes.
abbrev pub IsOpaque : StunAttribute → Type 0
IsOpaque (xor_mapped_address a) = ⊥
IsOpaque (mapped_address a) = ⊥
IsOpaque (unknown t value) =
    (t < 2 ^ 16) × (t ≢ attr_mapped) × (t ≢ attr_xor_mapped) × (length value < 2 ^ 16)

-- What the loop does with a type, a length and what follows.
abbrev pub on_attribute : ℕ → List ℕ → ℕ → ℕ → List ℕ → Option (List StunAttribute)
on_attribute n tid t len body =
    if ltb (length body) len
    then none
    else (decode_attribute t (take len body) tid >>= λ attr.
        parse_attributes n tid (drop (len + padding len) body) >>= λ attrs. some (attr ∷ attrs))

pub parse_attributes-suc :
    (n t len : ℕ) (tid body : List ℕ)
    → t < 2 ^ 16
    → len < 2 ^ 16
    → parse_attributes (suc n) tid (to_be_bytes 2 t ++ (to_be_bytes 2 len ++ body))
      ≡ on_attribute n tid t len body
unfolding parse_attributes
parse_attributes-suc n t len tid body ht hl =
    let long : ltb (suc (suc (suc (suc (length body))))) attr_hdr_len ≡ false =
      ge→ltb _ _ (omega arith) in
    rw long (
      ap₂ (λ (a b : ℕ). on_attribute n tid a b body) (from_be_bytes-to_be_bytes_two t ht)
        (from_be_bytes-to_be_bytes_two len hl))

decode_opaque :
    (t : ℕ) (value tid : List ℕ)
    → t ≢ attr_mapped
    → t ≢ attr_xor_mapped
    → decode_attribute t value tid ≡ some (unknown t value)
unfolding decode_attribute
decode_opaque t value tid a b = rw (ne→== t attr_xor_mapped b, ne→== t attr_mapped a) refl

parse_attributes-nil : (n : ℕ) (tid : List ℕ) → parse_attributes n tid [] ≡ some []
unfolding parse_attributes
parse_attributes-nil zero tid = refl
parse_attributes-nil (suc n) tid = refl

pub parse_attributes-serialise_attributes :
    (n : ℕ) (tid : List ℕ) (attrs : List StunAttribute)
    → All IsOpaque attrs
    → length (serialise_attributes attrs) ≤ n
    → parse_attributes n tid (serialise_attributes attrs) ≡ some attrs
unfolding serialise_attributes serialise_attribute
parse_attributes-serialise_attributes n tid [] v h = parse_attributes-nil n tid
parse_attributes-serialise_attributes n tid (xor_mapped_address a ∷ attrs) v h = absurd v.0
parse_attributes-serialise_attributes n tid (mapped_address a ∷ attrs) v h = absurd v.0
parse_attributes-serialise_attributes zero tid (unknown t value ∷ attrs) v h = absurd (omega arith)
parse_attributes-serialise_attributes (suc n) tid (unknown t value ∷ attrs)
      ((small, not_mapped, not_xor, short), v) h =
    let len = length value in
    let pad = replicate {A = ℕ} (padding len) 0 in
    let more = serialise_attributes attrs in
    let sizes : length (value ++ pad) ≡ len + padding len =
      omega (arith, length-append value pad, length-replicate {A = ℕ} (padding len) 0) in
    let body = (value ++ pad) ++ more in
    let long : ltb (length body) len ≡ false =
      ge→ltb _ _ (omega (arith, sizes, length-append (value ++ pad) more)) in
    let whole : take len body ≡ value =
      ap (λ (b : List ℕ). take len b) (append_assoc value pad more)
      ∙ take-append_left value (pad ++ more) len refl in
    let behind : drop (len + padding len) body ≡ more =
      drop-append_left (value ++ pad) more (len + padding len) (sym sizes) in
    let wrap : u16 len ≡ len = omega arith in
    let rest : parse_attributes n tid more ≡ some attrs =
      parse_attributes-serialise_attributes n tid attrs v
        (omega (arith, length-append (value ++ pad) more)) in
    ap (λ (l : ℕ). parse_attributes (suc n) tid (to_be_bytes 2 t ++ (to_be_bytes 2 l ++ body))) wrap
    ∙ parse_attributes-suc n t len tid body small (omega arith)
    ∙ rw (long, whole, behind, decode_opaque t value tid not_mapped not_xor, rest) refl

-- What `parse` does with a type, a length and what stands behind the cookie.
abbrev on_header : ℕ → ℕ → List ℕ → Option StunMessage
on_header msg_type attr_len rest =
    if ltb (length rest) (12 + attr_len)
    then none
    else (parse_attributes attr_len (take 12 rest) (take attr_len (drop 12 rest)) >>= λ found.
        some (record { msg_type = msg_type; transaction_id = take 12 rest; attributes = found }))

parse-on_header :
    (msg_type len : ℕ) (rest : List ℕ)
    → msg_type < 2 ^ 16
    → len < 2 ^ 16
    → 12 + len ≤ length rest
    → parse (to_be_bytes 2 msg_type ++ (to_be_bytes 2 len ++ (to_be_bytes 4 magic_cookie ++ rest)))
      ≡ on_header msg_type len rest
unfolding parse
parse-on_header msg_type len rest ht hl fits =
    let size : ℕ = suc (suc (suc (suc (suc (suc (suc (suc (length rest)))))))) in
    let whole : ltb size header_len ≡ false = ge→ltb _ _ (omega arith) in
    let read : from_be_bytes (to_be_bytes 2 len) ≡ len = from_be_bytes-to_be_bytes_two len hl in
    let long : ltb size (header_len + from_be_bytes (to_be_bytes 2 len)) ≡ false =
      ge→ltb _ _ (omega (arith, read)) in
    let short : ltb (length rest) (12 + len) ≡ false = ge→ltb _ _ (omega arith) in
    rw (whole, long, short)
      (ap₂
        (λ (a b : ℕ). parse_attributes b (take 12 rest) (take b (drop 12 rest)) >>= λ found.
          some (record { msg_type = a; transaction_id = take 12 rest; attributes = found }))
        (from_be_bytes-to_be_bytes_two msg_type ht) read)

-- Whatever the attributes are: the header is read back, and the attributes that stand behind it.
pub parse-with_header :
    (msg_type : ℕ) (tid attrs : List ℕ)
    → msg_type < 2 ^ 16
    → length tid ≡ 12
    → length attrs < 2 ^ 16
    → parse (with_header msg_type tid attrs) ≡ (
        parse_attributes (length attrs) tid attrs >>= λ found.
        some (record { msg_type = msg_type; transaction_id = tid; attributes = found }))
unfolding with_header
parse-with_header msg_type tid attrs small twelve short =
    let len = length attrs in
    let wrap : u16 len ≡ len = omega arith in
    let long : ltb (length (tid ++ attrs)) (12 + len) ≡ false =
      ge→ltb _ _ (omega (arith, length-append tid attrs)) in
    let front : take 12 (tid ++ attrs) ≡ tid = take-append_left tid attrs 12 (sym twelve) in
    let behind : drop 12 (tid ++ attrs) ≡ attrs = drop-append_left tid attrs 12 (sym twelve) in
    let all : take len attrs ≡ attrs = take_all attrs len (omega arith) in
    ap
      (λ (l : ℕ). parse (
        to_be_bytes 2 msg_type
        ++ (to_be_bytes 2 l ++ (to_be_bytes 4 magic_cookie ++ (tid ++ attrs)))))
      wrap
    ∙ parse-on_header msg_type len (tid ++ attrs) small short
        (omega (arith, length-append tid attrs))
    ∙ rw (long, front, behind, all) refl

-- A message whose attributes are opaque is read back as it was written, where its type fits 16 bits,
-- its identifier has twelve bytes, and its attributes fit the length field.
pub parse-serialise_message :
    (m : StunMessage)
    → m.msg_type < 2 ^ 16
    → length m.transaction_id ≡ 12
    → All IsOpaque m.attributes
    → length (serialise_attributes m.attributes) < 2 ^ 16
    → parse (serialise_message m) ≡ some m
unfolding serialise_message
parse-serialise_message m small twelve v short =
    parse-with_header m.msg_type m.transaction_id (serialise_attributes m.attributes) small twelve
      short
    ∙ rw
        (parse_attributes-serialise_attributes (length (serialise_attributes m.attributes))
          m.transaction_id m.attributes v (omega arith))
        refl
