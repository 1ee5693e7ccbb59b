-- ===== src/Receiver/Dispatch.antt =====
-- What a datagram does to the receiver (crates/protocol/src/receiver.rs).
use udpix.Base.{
  ℕ, zero, suc, ◌+◌, ◌^◌, ◌<◌, ◌≡◌, ◌≢◌, refl, sym, ap, ◌∙◌, Bool, true, false, List, [], Option,
  none, some, ltb, ◌==◌, length, arith, inl, inr, Bool-cases, ==→eq,
}
use mathlib.Core.Option.{some-injective, none-ne-some}
use udpix.Base.Bytes.{u64}
use udpix.Base.F64.{F64}
use udpix.Packet.{
  RudpHeader, header_size, new_pong, new_data, is_data, is_ping, is_pong, is_fin, read_from,
}
use udpix.Packet.RoundTrip.{write_to_blank, short_buffer}
use udpix.Sack.Payload.{SackPayload, IsPayload, is_received, mark_received}
use udpix.Sack.Mark.{mark_received-IsPayload}
use udpix.Sack.Advance.{advance_base-IsPayload}
use udpix.Sack.Manager.{first_missing, base_fuel, record_arrival, on_packet_received, tick}
use udpix.Receiver.State.{
  Receiver, Output, Handled, handle_data, handle_ping, handle_fin, dispatch, in_session,
  process_datagram, is_end,
}
use udpix.Receiver.Heartbeat.{send_heartbeat_sack_lem}

first_missing-lt :
    (fuel : ℕ) (p : SackPayload) (n : ℕ) → n < 2 ^ 64 → first_missing fuel p n < 2 ^ 64
unfolding first_missing
first_missing-lt zero p n h = h
first_missing-lt (suc fuel) p n h = elim (Bool-cases (is_received p n)) [
  | inl e ↦ rw (e, first_missing) (first_missing-lt fuel p (u64 (n + 1)) (omega arith))
  | inr e ↦ rw (e, first_missing) h
]

pub record_arrival-IsPayload :
    (p : SackPayload) (seq : ℕ) → IsPayload p → IsPayload (record_arrival p seq)
unfolding record_arrival
record_arrival-IsPayload p seq v =
    let marked = mark_received p seq in
    let w = mark_received-IsPayload p seq v in
    let n = first_missing base_fuel marked marked.base_seq in
    let fits = first_missing-lt base_fuel marked marked.base_seq w.base_fits in
    elim (Bool-cases (ltb marked.base_seq n)) [
      | inl e ↦ rw e (advance_base-IsPayload marked n w fits)
      | inr e ↦ rw e w
    ]

-- The header is for this session and none of the four kinds ahead of it in the dispatch.
abbrev pub EndsSession : ℕ → List ℕ → Type 0
EndsSession session_id buf =
    (hdr : RudpHeader) × (read_from buf ≡ some hdr)
    × (hdr.session_id ≡ session_id)
    × (is_data hdr ≡ false)
    × (is_ping hdr ≡ false)
    × (is_pong hdr ≡ false)
    × (is_fin hdr ≡ true)

short_none : (buf : List ℕ) → length buf < header_size → read_from buf ≡ none
short_none buf short = (short_buffer (new_data 0 0 0 0) buf).0.1 short

module _ (f : F64) where
  open f use {Float}

  pub record IsReceiver (r : Receiver Float) : Type 0 where
    pub session_fits : r.session_id < 2 ^ 32
    pub payload_fits : IsPayload r.sack_mgr.payload

  -- What handling a header promises.
  abbrev Outcome : Receiver Float → RudpHeader → Handled f → Type 0
  Outcome r hdr none = ⊥
  Outcome r hdr (some (s, res, outs)) =
      IsReceiver s
      × (s.session_id ≡ r.session_id)
      × (res ≡ some true
          → (is_data hdr ≡ false)
            × (is_ping hdr ≡ false)
            × (is_pong hdr ≡ false)
            × (is_fin hdr ≡ true))

  never : (res : Option Bool) → is_end f res ≡ false → res ≡ some true → ⊥
  never res shut h = let both : false ≡ true = sym shut ∙ ap (is_end f) h in ground arith

  -- The dispatched header and what its tests answer.
  abbrev Ended : RudpHeader → Type 0
  Ended hdr =
      (is_data hdr ≡ false) × (is_ping hdr ≡ false) × (is_pong hdr ≡ false) × (is_fin hdr ≡ true)

  handle_data-Outcome :
      (r : Receiver Float) (hdr : RudpHeader) (buf : List ℕ)
      → IsReceiver r
      → Outcome r hdr (handle_data f r hdr buf)
  unfolding handle_data on_packet_received
  handle_data-Outcome r hdr buf v =
      elim (Bool-cases (ltb (length buf) (header_size + hdr.payload_len))) [
        | inl e ↦ rw e (
          record { session_fits = v.session_fits; payload_fits = v.payload_fits },
          refl,
          λ h. absurd (never none refl h),
        )
        | inr e ↦ rw e (
          record {
            session_fits = v.session_fits;
            payload_fits =
                record_arrival-IsPayload r.sack_mgr.payload hdr.sequence_number v.payload_fits;
          },
          refl,
          λ h. absurd (never (some false) refl h),
        )
      ]

  handle_ping-Outcome :
      (r : Receiver Float) (hdr : RudpHeader) → IsReceiver r → Outcome r hdr (handle_ping f r hdr)
  unfolding handle_ping
  handle_ping-Outcome r hdr v =
      rw (write_to_blank (new_pong r.session_id hdr.sequence_number hdr.timestamp_us) 0)
        (v, refl, λ h. absurd (never (some false) refl h))

  handle_fin-Outcome :
      (r : Receiver Float) (hdr : RudpHeader) (now_us : ℕ)
      → IsReceiver r
      → now_us < 2 ^ 64
      → Ended hdr
      → Outcome r hdr (handle_fin f r now_us)
  unfolding handle_fin tick
  handle_fin-Outcome r hdr now_us v fits ended =
      let (buf, sent, _) = send_heartbeat_sack_lem f r now_us v.session_fits fits v.payload_fits in
      rw sent
        (record { session_fits = v.session_fits; payload_fits = v.payload_fits }, refl, λ h. ended)

  dispatch-Outcome :
      (r : Receiver Float) (hdr : RudpHeader) (buf : List ℕ) (now_us : ℕ)
      → IsReceiver r
      → now_us < 2 ^ 64
      → Outcome r hdr (dispatch f r hdr buf now_us)
  unfolding dispatch
  dispatch-Outcome r hdr buf now_us v fits = elim (Bool-cases (is_data hdr)) [
    | inl d ↦ rw d (handle_data-Outcome r hdr buf v)
    | inr nd ↦ elim (Bool-cases (is_ping hdr)) [
      | inl p ↦ rw (nd, p) (handle_ping-Outcome r hdr v)
      | inr np ↦ elim (Bool-cases (is_pong hdr)) [
        | inl q ↦
            rw (nd, np, q)
              (
                record { session_fits = v.session_fits; payload_fits = v.payload_fits },
                refl,
                λ h. absurd (never (some false) refl h),
              )
        | inr nq ↦ elim (Bool-cases (is_fin hdr)) [
          | inl fn ↦ rw (nd, np, nq, fn) (handle_fin-Outcome r hdr now_us v fits (nd, np, nq, fn))
          | inr nf ↦ rw (nd, np, nq, nf) (v, refl, λ h. absurd (never (some false) refl h))
        ]
      ]
    ]
  ]

  unpack :
      (r : Receiver Float) (hdr : RudpHeader) (d : Handled f)
      → Outcome r hdr d
      → (s : Receiver Float) × (res : Option Bool) × (outs : List Output) × (d
          ≡ some (s, res, outs))
        × IsReceiver s
        × (s.session_id ≡ r.session_id)
        × (res ≡ some true → Ended hdr)
  unpack r hdr none h = elim h [ ]
  unpack r hdr (some (s, res, outs)) (w, id, ended) = (s, res, outs, refl, w, id, ended)

  -- Whatever bytes arrive, the handler does not panic, and it keeps the bitmap well formed and the
  -- session. Bytes that are no header, or a header of another session, change nothing and send
  -- nothing. The session ends only at a header of this session with the FIN flag and none of DATA,
  -- PING and PONG.
  pub process_datagram_lem :
      (r : Receiver Float) (buf : List ℕ) (now_us : ℕ)
      → IsReceiver r
      → now_us < 2 ^ 64
      → (s : Receiver Float) × (res : Option Bool) × (outs : List Output) × (process_datagram f r
            buf now_us
          ≡ some (s, res, outs))
        × IsReceiver s
        × (s.session_id ≡ r.session_id)
        × (length buf < header_size → (s ≡ r) × (outs ≡ []))
        × ((hdr : RudpHeader)
            → read_from buf ≡ some hdr
            → hdr.session_id ≢ r.session_id
            → (s ≡ r) × (res ≡ none) × (outs ≡ []))
        × (res ≡ some true → EndsSession r.session_id buf)
  unfolding process_datagram
  process_datagram_lem r buf now_us v fits = go (read_from buf) refl
    where
      go :
          (o : Option RudpHeader)
          → read_from buf ≡ o
          → (s : Receiver Float) × (res : Option Bool) × (outs : List Output) × (in_session f r buf
                now_us
                (read_from buf)
              ≡ some (s, res, outs))
            × IsReceiver s
            × (s.session_id ≡ r.session_id)
            × (length buf < header_size → (s ≡ r) × (outs ≡ []))
            × ((hdr : RudpHeader)
                → read_from buf ≡ some hdr
                → hdr.session_id ≢ r.session_id
                → (s ≡ r) × (res ≡ none) × (outs ≡ []))
            × (res ≡ some true → EndsSession r.session_id buf)
      go none e = (
        r,
        none,
        [],
        ap (in_session f r buf now_us) e,
        v,
        refl,
        (λ _. (refl, refl)),
        (λ hdr found differ. (refl, refl, refl)),
        λ h. absurd (never none refl h),
      )
      go (some hdr) e = elim (Bool-cases (hdr.session_id == r.session_id)) [
        | inl same ↦
            let (s, res, outs, found, w, id, ended) =
              unpack r hdr (dispatch f r hdr buf now_us)
                (dispatch-Outcome r hdr buf now_us v fits) in
            (
              s,
              res,
              outs,
              ap (in_session f r buf now_us) e ∙ rw same found,
              w,
              id,
              (λ short. absurd (none-ne-some hdr (sym (short_none buf short) ∙ e))),
              (λ hdr' found' differ.
                  let agree = some-injective hdr' hdr (sym found' ∙ e) in
                  absurd (differ (ap (λ (h : RudpHeader). h.session_id) agree ∙ ==→eq _ _ same))),
              λ h. let (nd, np, nq, fn) = ended h in (hdr, e, ==→eq _ _ same, nd, np, nq, fn),
            )
        | inr other ↦ (
          r,
          none,
          [],
          ap (in_session f r buf now_us) e ∙ rw other refl,
          v,
          refl,
          (λ _. (refl, refl)),
          (λ hdr' found differ. (refl, refl, refl)),
          λ h. absurd (never none refl h),
        )
      ]
