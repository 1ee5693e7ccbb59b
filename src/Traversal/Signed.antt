-- ===== src/Traversal/Signed.antt =====
-- The attributes of TURN messages, signed and unsigned (crates/traversal/src/turn.rs).
use udpix.Base.{
  ℕ, zero, suc, ◌+◌, ◌^◌, ◌≤◌, ◌<◌, ◌≡◌, refl, sym, ap, ap₂, ◌∙◌, false, List, [], ◌∷◌, ◌++◌, ltb,
  if◌then◌else◌, length, take, drop, slice, replicate, All, arith, ge→ltb, append-nil, append_assoc,
  length-append, length-replicate, drop-append_left, take-append_left, All-append,
}
use udpix.Base.Bytes.{u16, to_be_bytes, from_be_bytes, from_be_bytes-to_be_bytes_two}
use udpix.Traversal.Stun.{padding, header_len}
use udpix.Traversal.Turn.{
  Hashes, TurnMsg, RawAttr, attr_msg_integrity, attr_username, attr_realm, attr_nonce, new_msg,
  push_attr, attr_bytes, pre_mi, parse_raw_fuel, parse_raw_attrs, derive_key, message_integrity,
  build_with_integrity,
}
use udpix.Traversal.TurnClient.{TurnClient, with_credentials, sign}

abbrev pub IsRaw : RawAttr → Type 0
IsRaw a = (a.attr_type < 2 ^ 16) × (length a.value < 2 ^ 16)

-- The attributes one behind the other.
abbrev pub raw_bytes : List RawAttr → List ℕ
raw_bytes [] = []
raw_bytes (a ∷ attrs) = attr_bytes a.attr_type a.value ++ raw_bytes attrs

raw_bytes-append : (xs ys : List RawAttr) → raw_bytes (xs ++ ys) ≡ raw_bytes xs ++ raw_bytes ys
raw_bytes-append [] ys = refl
raw_bytes-append (x ∷ xs) ys =
    ap (λ (t : List ℕ). attr_bytes x.attr_type x.value ++ t) (raw_bytes-append xs ys)
    ∙ sym (append_assoc (attr_bytes x.attr_type x.value) (raw_bytes xs) (raw_bytes ys))

abbrev pub raw : ℕ → List ℕ → RawAttr
raw attr_type value = record { attr_type = attr_type; value = value }

-- What the loop does with a type, a length and what follows.
abbrev on_raw : ℕ → ℕ → ℕ → List ℕ → List RawAttr
on_raw n t l body =
    if ltb (length body) l
    then []
    else raw t (take l body) ∷ parse_raw_fuel n (drop (l + padding l) body)

parse_raw_fuel-suc :
    (n t l : ℕ) (body : List ℕ)
    → t < 2 ^ 16
    → l < 2 ^ 16
    → parse_raw_fuel (suc n) (to_be_bytes 2 t ++ (to_be_bytes 2 l ++ body)) ≡ on_raw n t l body
unfolding parse_raw_fuel
parse_raw_fuel-suc n t l body ht hl =
    let long : ltb (suc (suc (suc (suc (length body))))) 4 ≡ false = ge→ltb _ _ (omega arith) in
    rw long (
      ap₂ (λ (a b : ℕ). on_raw n a b body) (from_be_bytes-to_be_bytes_two t ht)
        (from_be_bytes-to_be_bytes_two l hl))

parse_raw_fuel-nil : (n : ℕ) → parse_raw_fuel n [] ≡ []
unfolding parse_raw_fuel
parse_raw_fuel-nil zero = refl
parse_raw_fuel-nil (suc n) = refl

parse_raw_fuel-raw_bytes :
    (n : ℕ) (attrs : List RawAttr)
    → All IsRaw attrs
    → length (raw_bytes attrs) ≤ n
    → parse_raw_fuel n (raw_bytes attrs) ≡ attrs
unfolding attr_bytes
parse_raw_fuel-raw_bytes n [] v h = parse_raw_fuel-nil n
parse_raw_fuel-raw_bytes zero (a ∷ attrs) v h = absurd (omega arith)
parse_raw_fuel-raw_bytes (suc n) (a ∷ attrs) ((small, short), v) h =
    let value = a.value in
    let len = length value in
    let pad = replicate {A = ℕ} (padding len) 0 in
    let more = raw_bytes attrs in
    let sizes : length (value ++ pad) ≡ len + padding len =
      omega (arith, length-append value pad, length-replicate {A = ℕ} (padding len) 0) in
    let body = (value ++ pad) ++ more in
    let long : ltb (length body) len ≡ false =
      ge→ltb _ _ (omega (arith, sizes, length-append (value ++ pad) more)) in
    let whole : take len body ≡ value =
      ap (λ (b : List ℕ). take len b) (append_assoc value pad more)
      ∙ take-append_left value (pad ++ more) len refl in
    let behind : drop (len + padding len) body ≡ more =
      drop-append_left (value ++ pad) more (len + padding len) (sym sizes) in
    let wrap : u16 len ≡ len = omega arith in
    let rest : parse_raw_fuel n more ≡ attrs =
      parse_raw_fuel-raw_bytes n attrs v (omega (arith, length-append (value ++ pad) more)) in
    ap (λ (l : ℕ). parse_raw_fuel (suc n) (to_be_bytes 2 a.attr_type ++ (to_be_bytes 2 l ++ body)))
      wrap
    ∙ parse_raw_fuel-suc n a.attr_type len body small (omega arith)
    ∙ rw (long, whole, behind, rest) refl

pub parse_raw_attrs-raw_bytes :
    (attrs : List RawAttr) → All IsRaw attrs → parse_raw_attrs (raw_bytes attrs) ≡ attrs
unfolding parse_raw_attrs
parse_raw_attrs-raw_bytes attrs v =
    parse_raw_fuel-raw_bytes (length (raw_bytes attrs)) attrs v (omega arith)

-- A message to which attributes were pushed in order.
abbrev pub pushed : List RawAttr → TurnMsg → TurnMsg
pushed [] m = m
pushed (a ∷ attrs) m = pushed attrs (push_attr a.attr_type a.value m)

pushed-append : (xs ys : List RawAttr) (m : TurnMsg) → pushed (xs ++ ys) m ≡ pushed ys (pushed xs m)
pushed-append [] ys m = refl
pushed-append (x ∷ xs) ys m = pushed-append xs ys (push_attr x.attr_type x.value m)

pushed_lem :
    (attrs : List RawAttr) (m : TurnMsg)
    → pushed attrs m ≡ record m { attrs = m.attrs ++ raw_bytes attrs }
unfolding push_attr
pushed_lem [] m = ap (λ (t : List ℕ). record m { attrs = t }) (sym (append-nil m.attrs))
pushed_lem (a ∷ attrs) m =
    pushed_lem attrs (push_attr a.attr_type a.value m)
    ∙ ap (λ (t : List ℕ). record m { attrs = t })
        (append_assoc m.attrs (attr_bytes a.attr_type a.value) (raw_bytes attrs))

integrity_bytes :
    (mac : List ℕ)
    → length mac ≡ 20
    → to_be_bytes 2 attr_msg_integrity ++ (to_be_bytes 2 20 ++ mac)
      ≡ raw_bytes (raw attr_msg_integrity mac ∷ [])
unfolding attr_bytes
integrity_bytes mac twenty = rw twenty (rw (append-nil mac, append-nil mac) refl)

module _ (h : Hashes) where
  open h use {hmac_sha1}

  -- The credentials that stand behind the attributes of a request.
  abbrev pub credentials : TurnClient → List RawAttr
  credentials c =
      raw attr_username c.username ∷ raw attr_realm c.realm ∷ raw attr_nonce c.nonce ∷ []

  -- A signed request carries its attributes, then the credentials, then the code of all bytes before
  -- it under the derived key; its length field counts everything behind the header. It holds where
  -- the attributes and the whole fit 16 bits and the code has twenty bytes.
  pub sign_lem :
      (c : TurnClient) (msg_type : ℕ) (tid : List ℕ) (attrs : List RawAttr)
      → length tid ≡ 12
      → All IsRaw attrs
      → All IsRaw (credentials c)
      → length (raw_bytes (attrs ++ credentials c)) + 24 < 2 ^ 16
      → ((key bytes : List ℕ) → length (hmac_sha1 key bytes) ≡ 20)
      → let wire = sign h c (pushed attrs (new_msg msg_type tid)) in
        let key = derive_key h c.username c.realm c.password in
        (before : List ℕ) × (parse_raw_attrs (drop header_len wire)
          ≡ attrs ++ (credentials c ++ (raw attr_msg_integrity (hmac_sha1 key before) ∷ [])))
        × (take (length before) wire ≡ before)
        × (length wire ≡ length before + 24)
        × (header_len + from_be_bytes (slice wire 2 2) ≡ length wire)
  unfolding sign with_credentials build_with_integrity message_integrity pre_mi new_msg
  sign_lem c msg_type tid attrs twelve v vc short sizes =
      let all = attrs ++ credentials c in
      let raws = raw_bytes all in
      let key = derive_key h c.username c.realm c.password in
      let made : pushed (credentials c) (pushed attrs (new_msg msg_type tid))
          ≡ record { msg_type = msg_type; tid = tid; attrs = raws } =
        sym (pushed-append attrs (credentials c) (new_msg msg_type tid))
        ∙ pushed_lem all (new_msg msg_type tid) in
      let before = pre_mi (record { msg_type = msg_type; tid = tid; attrs = raws }) in
      let mac = hmac_sha1 key before in
      let twenty : length mac ≡ 20 = sizes key before in
      let tail = to_be_bytes 2 attr_msg_integrity ++ (to_be_bytes 2 20 ++ mac) in
      let head : drop 12 ((tid ++ raws) ++ tail) ≡ raws ++ tail =
        ap (λ (t : List ℕ). drop 12 t) (append_assoc tid raws tail)
        ∙ drop-append_left tid (raws ++ tail) 12 (sym twelve) in
      let last : tail ≡ raw_bytes (raw attr_msg_integrity mac ∷ []) =
        integrity_bytes mac (sizes key before) in
      rw made (
        before,
        ap parse_raw_attrs (
              head
              ∙ ap (λ (t : List ℕ). raws ++ t) last
              ∙ sym (raw_bytes-append all (raw attr_msg_integrity mac ∷ [])))
            ∙ parse_raw_attrs-raw_bytes (all ++ (raw attr_msg_integrity mac ∷ [])) (
                All-append IsRaw all _ (All-append IsRaw attrs (credentials c) v vc)
                  ((omega arith, omega (arith, sizes key before)), tt))
            ∙ append_assoc attrs (credentials c) (raw attr_msg_integrity mac ∷ []),
        take-append_left before tail (length before) refl,
        omega (arith, twenty, length-append before tail),
        omega (arith, twenty, length-append (tid ++ raws) tail, length-append tid raws),
      )
