-- ===== src/Traversal/Grants.antt =====
-- A server that challenges and then grants (crates/traversal/src/turn.rs).
use udpix.Base.{
  ℕ, suc, ◌+◌, ◌^◌, ◌≤◌, ◌<◌, ◌≡◌, refl, sym, ap, ◌∙◌, Bool, true, false, List, [], ◌∷◌, ◌++◌,
  Option, some, ltb, if◌then◌else◌, length, take, drop, replicate, All, arith, ge→ltb,
  length-append, length-replicate, drop-append_left, take-append_left, take_all,
}
use udpix.Base.Bytes.{IsByte, to_be_bytes, from_be_bytes-to_be_bytes_four}
use udpix.Traversal.Address.{SocketAddr}
use udpix.Traversal.Stun.{padding, header_len, with_header}
use udpix.Traversal.Turn.{
  Hashes, RawAttr, turn_allocate_success, attr_error_code, attr_realm, attr_nonce, attr_xor_relayed,
  attr_xor_mapped, attr_lifetime, build, parse_raw_attrs, error_code, find_attr, attr_bytes,
}
use udpix.Traversal.TurnClient.{
  TurnClient, TurnAllocation, Answer, ok, sign, allocate_msg, send_allocate_request, store_attr,
  store_challenge, on_second, allocate, is_empty,
}
use udpix.Traversal.Signed.{raw, raw_bytes, parse_raw_attrs-raw_bytes}
use udpix.Traversal.Discover.{length-masked_ip}
use udpix.Traversal.Masked.{IsAddr, masked, parse_xor_mapped_addr-masked}

-- A 401 with a reason, a realm and a nonce.
abbrev pub challenge : List ℕ → List ℕ → List ℕ → List RawAttr
challenge reason realm nonce =
    raw attr_error_code (0 ∷ 0 ∷ 4 ∷ 1 ∷ reason) ∷ raw attr_realm realm ∷ raw attr_nonce nonce ∷ []

-- A relayed address, the client's own address, and the lifetime of the allocation.
abbrev pub granted : List ℕ → SocketAddr → SocketAddr → ℕ → List RawAttr
granted tid relayed mapped secs =
    raw attr_xor_relayed (masked tid relayed)
    ∷ raw attr_xor_mapped (masked tid mapped)
    ∷ raw attr_lifetime (to_be_bytes 4 secs)
    ∷ []

abbrev stored_as : TurnClient → TurnAllocation → TurnClient × Answer TurnAllocation
stored_as c alloc = (record c { allocation = some alloc }, ok alloc)

length-attr_bytes : (t : ℕ) (v : List ℕ) → length (attr_bytes t v) ≤ length v + 7
unfolding attr_bytes
length-attr_bytes t v =
    let pad = replicate {A = ℕ} (padding (length v)) 0 in
    omega (arith, length-append v pad, length-replicate {A = ℕ} (padding (length v)) 0)

short_values :
    (attrs : List RawAttr) (n : ℕ)
    → length (raw_bytes attrs) ≤ n
    → All (λ (a : RawAttr). length a.value ≤ n) attrs
unfolding attr_bytes
short_values [] n h = tt
short_values (a ∷ attrs) n h =
    let pad = replicate {A = ℕ} (padding (length a.value)) 0 in
    let size = length-append (a.value ++ pad) (raw_bytes attrs) in
    (omega (arith, size, length-append a.value pad), short_values attrs n (omega (arith, size)))

abbrev error_bytes : List ℕ → ℕ
error_bytes reason = suc (suc (suc (suc (length reason))))

error_code-challenge :
    (reason realm nonce : List ℕ) → error_code (challenge reason realm nonce) ≡ some 401
unfolding error_code
error_code-challenge reason realm nonce =
    let long : ltb (error_bytes reason) 4 ≡ false = ge→ltb _ _ (omega arith) in rw long refl

module _ (h : Hashes) (exchange : SocketAddr → List ℕ → Option (List ℕ)) where
  open h use {from_utf8_lossy}

  received :
      (c : TurnClient) (authenticated : Bool) (tid r : List ℕ)
      → exchange c.server_addr
          (if authenticated then sign h c (allocate_msg tid) else build (allocate_msg tid))
        ≡ some r
      → length r ≤ 1024
      → send_allocate_request h exchange c authenticated tid ≡ some r
  unfolding send_allocate_request
  received c authenticated tid r e fits = rw e (ap some (take_all r 1024 fits))

  challenged :
      (c : TurnClient) (reason realm nonce : List ℕ)
      → store_challenge h exchange (challenge reason realm nonce) c
        ≡ record c { realm = from_utf8_lossy realm; nonce = nonce }
  unfolding store_challenge store_attr
  challenged c reason realm nonce = refl

  length-granted :
      (tid : List ℕ) (relayed mapped : SocketAddr) (secs : ℕ)
      → length tid ≡ 12
      → IsAddr relayed
      → IsAddr mapped
      → length (with_header turn_allocate_success tid (raw_bytes (granted tid relayed mapped secs)))
        ≤ 1024
  unfolding with_header
  length-granted tid relayed mapped secs twelve vr vm =
      let (lr, _) = length-masked_ip tid relayed.port relayed.ip vr.0 in
      let (lm, _) = length-masked_ip tid mapped.port mapped.ip vm.0 in
      let a = attr_bytes attr_xor_relayed (masked tid relayed) in
      let b = attr_bytes attr_xor_mapped (masked tid mapped) in
      let c = attr_bytes attr_lifetime (to_be_bytes 4 secs) in
      omega (
        arith,
        length-attr_bytes attr_xor_relayed (masked tid relayed),
        length-attr_bytes attr_xor_mapped (masked tid mapped),
        length-attr_bytes attr_lifetime (to_be_bytes 4 secs),
        length-append tid (a ++ (b ++ (c ++ []))),
        length-append a (b ++ (c ++ [])),
        length-append b (c ++ []),
        length-append c [],
      )

  on_second-granted :
      (c : TurnClient) (tid : List ℕ) (relayed mapped : SocketAddr) (secs : ℕ)
      → length tid ≡ 12
      → All IsByte tid
      → IsAddr relayed
      → IsAddr mapped
      → secs < 2 ^ 32
      → let alloc : TurnAllocation = record {
        relayed_addr = relayed;
        mapped_addr = mapped;
        lifetime_secs = secs;
      } in
        on_second h exchange c (
          some
            (with_header turn_allocate_success tid (raw_bytes (granted tid relayed mapped secs))))
        ≡ (record c { allocation = some alloc }, ok alloc)
  unfolding on_second with_header find_attr
  on_second-granted c tid relayed mapped secs twelve bytes vr vm small =
      let raws = granted tid relayed mapped secs in
      let attrs = raw_bytes raws in
      let rest = tid ++ attrs in
      let size : ℕ = suc (suc (suc (suc (suc (suc (suc (suc (length rest)))))))) in
      let whole : ltb size header_len ≡ false =
        ge→ltb _ _ (omega (arith, length-append tid attrs)) in
      let front : take 12 rest ≡ tid = take-append_left tid attrs 12 (sym twelve) in
      let (lr, _) = length-masked_ip tid relayed.port relayed.ip vr.0 in
      let (lm, _) = length-masked_ip tid mapped.port mapped.ip vm.0 in
      let behind : parse_raw_attrs (drop 12 rest) ≡ raws =
        ap parse_raw_attrs (drop-append_left tid attrs 12 (sym twelve))
        ∙ parse_raw_attrs-raw_bytes raws (
          (omega arith, omega arith),
          ((omega arith, omega arith), ((omega arith, omega arith), tt)),
        ) in
      rw
        (
          whole,
          front,
          behind,
          parse_xor_mapped_addr-masked tid bytes relayed vr,
          parse_xor_mapped_addr-masked tid bytes mapped vm,
        )
        (ap
          (λ (t : ℕ).
            stored_as c
              (record { relayed_addr = relayed; mapped_addr = mapped; lifetime_secs = t }))
          (from_be_bytes-to_be_bytes_four secs small))

  -- A server that challenges the first request and grants the second gives the client exactly what
  -- it granted: the client signs the second request with the realm and the nonce of the challenge.
  -- It holds where both answers fit the buffer and their fields fit their types.
  pub allocate-grants :
      (c : TurnClient) (tid1 tid2 header reason realm nonce answer_tid : List ℕ)
      (relayed mapped : SocketAddr) (secs : ℕ)
      → let c' = record c { realm = from_utf8_lossy realm; nonce = nonce } in
        exchange c.server_addr (build (allocate_msg tid1))
          ≡ some (header ++ raw_bytes (challenge reason realm nonce))
        → exchange c.server_addr (sign h c' (allocate_msg tid2))
          ≡ some (
              with_header turn_allocate_success answer_tid
                (raw_bytes (granted answer_tid relayed mapped secs)))
        → length header ≡ 20
        → length (header ++ raw_bytes (challenge reason realm nonce)) ≤ 1024
        → is_empty (from_utf8_lossy realm) ≡ false
        → is_empty nonce ≡ false
        → length answer_tid ≡ 12
        → All IsByte answer_tid
        → IsAddr relayed
        → IsAddr mapped
        → secs < 2 ^ 32
        → let alloc : TurnAllocation = record {
          relayed_addr = relayed;
          mapped_addr = mapped;
          lifetime_secs = secs;
        } in
          allocate h exchange c tid1 tid2 ≡ (record c' { allocation = some alloc }, ok alloc)
  unfolding allocate
  allocate-grants c tid1 tid2 header reason realm nonce answer_tid relayed mapped secs first second
        twenty fits named fresh twelve bytes vr vm small =
      let chal = challenge reason realm nonce in
      let r1 = header ++ raw_bytes chal in
      let c' = record c { realm = from_utf8_lossy realm; nonce = nonce } in
      let (s1, (s2, (s3, _))) =
        short_values chal 1024 (omega (arith, length-append header (raw_bytes chal))) in
      let first_read : send_allocate_request h exchange c false tid1 ≡ some r1 =
        received c false tid1 r1 first fits in
      let long : ltb (length r1) header_len ≡ false =
        ge→ltb _ _ (omega (arith, length-append header (raw_bytes chal))) in
      let behind : parse_raw_attrs (drop header_len r1) ≡ chal =
        ap parse_raw_attrs (drop-append_left header (raw_bytes chal) header_len (sym twenty))
        ∙ parse_raw_attrs-raw_bytes chal (
          (omega arith, omega arith),
          ((omega arith, omega arith), ((omega arith, omega arith), tt)),
        ) in
      let stored : store_challenge h exchange chal c ≡ c' = challenged c reason realm nonce in
      rw (first_read, long, behind, error_code-challenge reason realm nonce, stored, named, fresh)
        (ap (on_second h exchange c') (
            received c' true tid2 _ second
              (length-granted answer_tid relayed mapped secs twelve vr vm))
          ∙ on_second-granted c' answer_tid relayed mapped secs twelve bytes vr vm small)
