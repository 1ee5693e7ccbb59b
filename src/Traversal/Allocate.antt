-- ===== src/Traversal/Allocate.antt =====
-- The two rounds of an allocation (crates/traversal/src/turn.rs).
use udpix.Base.{
  ℕ, ◌<◌, ◌≡◌, refl, ◌∙◌, true, false, ◌||◌, List, [], ◌∷◌, Option, none, some, ltb, ◌==◌, length,
  drop, slice, inl, inr, Bool-cases, lt→ltb,
}
use udpix.Base.Bytes.{from_be_bytes}
use udpix.Traversal.Address.{SocketAddr}
use udpix.Traversal.Stun.{header_len}
use udpix.Traversal.Turn.{
  Hashes, RawAttr, turn_allocate_success, attr_realm, attr_nonce, parse_raw_attrs, error_code,
}
use udpix.Traversal.TurnClient.{
  TurnClient, TurnAllocation, Answer, ok, bail, panic, send_allocate_request, store_attr,
  store_challenge, allocation_from, on_first, on_second, allocate, code_of, is_empty,
}

-- What fails leaves the allocation as it was, and a result is what is stored.
abbrev pub Keeps : TurnClient → TurnClient × Answer TurnAllocation → Type 0
Keeps c (t, ok alloc) = (t.allocation ≡ some alloc) × (t.channels ≡ c.channels)
Keeps c (t, bail) = (t.allocation ≡ c.allocation) × (t.channels ≡ c.channels)
Keeps c (t, panic) = (t.allocation ≡ c.allocation) × (t.channels ≡ c.channels)

Keeps-after :
    (c c' : TurnClient)
    → (c'.allocation ≡ c.allocation) × (c'.channels ≡ c.channels)
    → (out : TurnClient × Answer TurnAllocation) → Keeps c' out
    → Keeps c out
Keeps-after c c' (a, b) (t, ok alloc) (stored, kept) = (stored, kept ∙ b)
Keeps-after c c' (a, b) (t, bail) (stored, kept) = (stored ∙ a, kept ∙ b)
Keeps-after c c' (a, b) (t, panic) (stored, kept) = (stored ∙ a, kept ∙ b)

module _ (h : Hashes) (exchange : SocketAddr → List ℕ → Option (List ℕ)) where
  open h use {from_utf8_lossy}

  store_attr_lem :
      (a : RawAttr) (c : TurnClient)
      → ((store_attr h exchange a c).allocation ≡ c.allocation)
        × ((store_attr h exchange a c).channels ≡ c.channels)
  unfolding store_attr
  store_attr_lem a c = elim (Bool-cases (a.attr_type == attr_realm)) [
    | inl e ↦ rw e (refl, refl)
    | inr e ↦ elim (Bool-cases (a.attr_type == attr_nonce)) [
      | inl f ↦ rw (e, f) (refl, refl)
      | inr f ↦ rw (e, f) (refl, refl)
    ]
  ]

  store_challenge_lem :
      (attrs : List RawAttr) (c : TurnClient)
      → ((store_challenge h exchange attrs c).allocation ≡ c.allocation)
        × ((store_challenge h exchange attrs c).channels ≡ c.channels)
  unfolding store_challenge
  store_challenge_lem [] c = (refl, refl)
  store_challenge_lem (a ∷ attrs) c =
      let (x, y) = store_challenge_lem attrs (store_attr h exchange a c) in
      let (z, w) = store_attr_lem a c in (x ∙ z, y ∙ w)

  on_second-Keeps : (c : TurnClient) (r : Option (List ℕ)) → Keeps c (on_second h exchange c r)
  unfolding on_second
  on_second-Keeps c none = (refl, refl)
  on_second-Keeps c (some r2) = elim (Bool-cases (ltb (length r2) header_len)) [
    | inl e ↦ rw e (refl, refl)
    | inr e ↦ elim (Bool-cases (from_be_bytes (slice r2 0 2) == turn_allocate_success)) [
      | inl f ↦ rw (e, f) (granted_or_not _ _ _)
      | inr f ↦ rw (e, f) (refl, refl)
    ]
  ]
    where
      granted_or_not :
          (attrs : List RawAttr) (tid : List ℕ) (relayed : Option SocketAddr)
          → Keeps c (allocation_from h exchange attrs tid c relayed)
      granted_or_not attrs tid none = (refl, refl)
      granted_or_not attrs tid (some relayed) = (refl, refl)

  -- A first answer that is shorter than a header panics.
  pub short_answer :
      (c : TurnClient) (tid1 tid2 r1 : List ℕ)
      → send_allocate_request h exchange c false tid1 ≡ some r1
      → length r1 < header_len
      → allocate h exchange c tid1 tid2 ≡ (c, panic)
  unfolding allocate
  short_answer c tid1 tid2 r1 e short = let small = lt→ltb _ _ short in rw (e, small) refl

  -- Whatever the server answers: a result is stored as the allocation, an error or a panic leaves
  -- the allocation as it was, and the channels stay.
  pub allocate_lem :
      (c : TurnClient) (tid1 tid2 : List ℕ) → Keeps c (allocate h exchange c tid1 tid2)
  unfolding allocate
  allocate_lem c tid1 tid2 = first (send_allocate_request h exchange c false tid1)
    where
      first : (r : Option (List ℕ)) → Keeps c (on_first h exchange c tid2 r)
      first none = (refl, refl)
      first (some r1) =
          let attrs = parse_raw_attrs (drop header_len r1) in
          let c' = store_challenge h exchange attrs c in
          let kept = store_challenge_lem attrs c in
          elim (Bool-cases (ltb (length r1) header_len)) [
            | inl e ↦ rw e (refl, refl)
            | inr e ↦ elim (Bool-cases (code_of (error_code attrs) == 401)) [
              | inr f ↦ rw (e, f) (refl, refl)
              | inl f ↦ elim (Bool-cases (is_empty c'.realm || is_empty c'.nonce)) [
                | inl g ↦ rw (e, f, g) kept
                | inr g ↦
                    rw (e, f, g)
                      (Keeps-after c c' kept
                        (on_second h exchange c' (send_allocate_request h exchange c' true tid2))
                        (on_second-Keeps c' (send_allocate_request h exchange c' true tid2)))
              ]
            ]
          ]
