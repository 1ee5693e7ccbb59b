-- ===== src/Receiver/Runs.antt =====
-- Any run of the receiver's loop (crates/protocol/src/receiver.rs).
use udpix.Base.{
  ℕ, ◌^◌, ◌<◌, ◌≡◌, refl, ◌∙◌, ◌⊎◌, inl, inr, Bool, true, false, List, [], ◌∷◌, ◌++◌, Option, none,
  some, All, subst,
}
use udpix.Base.F64.{F64}
use udpix.Sack.Manager.{tick}
use udpix.Receiver.State.{Receiver, Output, send_heartbeat_sack, process_datagram, recv_batch}
use udpix.Receiver.Heartbeat.{send_heartbeat_sack_lem}
use udpix.Receiver.Dispatch.{IsReceiver, EndsSession, process_datagram_lem}
use udpix.Receiver.Loop.{
  ReceiverEvent, heartbeat_tick, readable, ReceiverLoop, after_tick, after_batch, run_receiver,
}

-- One of the datagrams is a FIN of the session.
abbrev pub HasEnd : ℕ → List (List ℕ) → Type 0
HasEnd id [] = ⊥
HasEnd id (buf ∷ bufs) = EndsSession id buf ⊎ HasEnd id bufs

abbrev pub Ends : ℕ → List ReceiverEvent → Type 0
Ends id [] = ⊥
Ends id (heartbeat_tick now_us ∷ events) = Ends id events
Ends id (readable ready bufs now_us ∷ events) = HasEnd id bufs ⊎ Ends id events

abbrev pub ClockFits : ReceiverEvent → Type 0
ClockFits (heartbeat_tick now_us) = now_us < 2 ^ 64
ClockFits (readable ready bufs now_us) = now_us < 2 ^ 64

module _ (f : F64) where
  open f use {Float}

  recv_batch-IsReceiver :
      (bufs : List (List ℕ)) (r : Receiver Float) (now_us : ℕ)
      → IsReceiver f r
      → now_us < 2 ^ 64
      → (s : Receiver Float) × (fin : Bool) × (outs : List Output) × (recv_batch f bufs r now_us
          ≡ some (s, fin, outs))
        × IsReceiver f s
        × (s.session_id ≡ r.session_id)
        × ((fin ≡ false) ⊎ HasEnd r.session_id bufs)
  unfolding recv_batch
  recv_batch-IsReceiver [] r now_us v c = (r, false, [], refl, v, refl, inl refl)
  recv_batch-IsReceiver (buf ∷ bufs) r now_us v c =
      let (s, res, outs, found, kept, same, _, _, ends) = process_datagram_lem f r buf now_us v c in
      go s res outs found kept same ends (recv_batch-IsReceiver bufs s now_us kept c)
    where
      later :
          (s : Receiver Float) (fin : Bool)
          → s.session_id ≡ r.session_id
          → (fin ≡ false) ⊎ HasEnd s.session_id bufs
          → (fin ≡ false) ⊎ HasEnd r.session_id (buf ∷ bufs)
      later s fin same (inl e) = inl e
      later s fin same (inr e) = inr (inr (subst (λ id. HasEnd id bufs) same e))

      go :
          (s : Receiver Float) (res : Option Bool) (outs : List Output)
          → process_datagram f r buf now_us ≡ some (s, res, outs)
          → IsReceiver f s
          → s.session_id ≡ r.session_id
          → (res ≡ some true → EndsSession r.session_id buf)
          → (t : Receiver Float) × (fin : Bool) × (more : List Output) × (recv_batch f bufs s now_us
              ≡ some (t, fin, more))
            × IsReceiver f t
            × (t.session_id ≡ s.session_id)
            × ((fin ≡ false) ⊎ HasEnd s.session_id bufs)
          → (t : Receiver Float) × (fin : Bool) × (more : List Output) × (recv_batch f
                (buf ∷ bufs)
                r
                now_us
              ≡ some (t, fin, more))
            × IsReceiver f t
            × (t.session_id ≡ r.session_id)
            × ((fin ≡ false) ⊎ HasEnd r.session_id (buf ∷ bufs))
      go s (some true) outs found kept same ends rest =
          (s, true, outs, rw found refl, kept, same, inr (inl (ends refl)))
      go s (some false) outs found kept same ends (t, fin, more, ran, v', same', last) =
          (t, fin, outs ++ more, rw (found, ran) refl, v', same' ∙ same, later s fin same last)
      go s none outs found kept same ends (t, fin, more, ran, v', same', last) =
          (t, fin, outs ++ more, rw (found, ran) refl, v', same' ∙ same, later s fin same last)

  -- What a run promises.
  abbrev pub Ran : List ReceiverEvent → ReceiverLoop f → Type 0
  Ran events l =
      (m : ReceiverLoop f) × (ended : Bool) × (run_receiver f events l ≡ some (m, ended))
      × IsReceiver f m.receiver
      × (m.receiver.session_id ≡ l.receiver.session_id)
      × (m.heartbeat_ms ≡ l.heartbeat_ms)
      × ((ended ≡ false) ⊎ Ends l.receiver.session_id events)

  ticked :
      (now_us : ℕ) (events : List ReceiverEvent) (l : ReceiverLoop f) (r : Receiver Float)
      (outs : List Output)
      → send_heartbeat_sack f l.receiver now_us ≡ some (r, none, outs)
      → r.session_id ≡ l.receiver.session_id
      → Ran events (after_tick f l (r, none, outs))
      → Ran (heartbeat_tick now_us ∷ events) l
  unfolding run_receiver
  ticked now_us events l r outs sent same (m, ended, ran, v, id, ms, last) = (
    m,
    ended,
    rw sent ran,
    v,
    id ∙ same,
    ms,
    subst (λ n. (ended ≡ false) ⊎ Ends n events) same last,
  )

  batched :
      (bufs : List (List ℕ)) (now_us : ℕ) (events : List ReceiverEvent) (l : ReceiverLoop f)
      (r : Receiver Float) (fin : Bool) (outs : List Output)
      → recv_batch f bufs l.receiver now_us ≡ some (r, fin, outs)
      → IsReceiver f r
      → r.session_id ≡ l.receiver.session_id
      → (fin ≡ false) ⊎ HasEnd l.receiver.session_id bufs
      → Ran events (after_batch f l (r, fin, outs))
      → Ran (readable true bufs now_us ∷ events) l
  unfolding run_receiver
  batched bufs now_us events l r true outs found v same last rest = (
    after_batch f l (r, true, outs),
    true,
    rw found refl,
    v,
    same,
    refl,
    elim last [ inl e ↦ inl e | inr e ↦ inr (inl e) ],
  )
  batched bufs now_us events l r false outs found v same last (m, ended, ran, v', id, ms, later) = (
    m,
    ended,
    rw found ran,
    v',
    id ∙ same,
    ms,
    widen ended (subst (λ n. (ended ≡ false) ⊎ Ends n events) same later),
  )
    where
      widen :
          (ended : Bool)
          → (ended ≡ false) ⊎ Ends l.receiver.session_id events
          → (ended ≡ false)
            ⊎ (HasEnd l.receiver.session_id bufs ⊎ Ends l.receiver.session_id events)
      widen ended (inl e) = inl e
      widen ended (inr e) = inr (inr e)

  -- Whatever events come in whatever order: the loop does not panic, it keeps the bitmap well formed,
  -- its session and the interval of its heartbeat, and it ends only if one of the datagrams is a FIN
  -- of its session. It holds where the clock fits 64 bits.
  pub run_receiver_lem :
      (events : List ReceiverEvent) (l : ReceiverLoop f)
      → IsReceiver f l.receiver
      → All ClockFits events
      → Ran events l
  unfolding run_receiver tick
  run_receiver_lem [] l v c = (l, false, refl, v, refl, refl, inl refl)
  run_receiver_lem (heartbeat_tick now_us ∷ events) l v (c, cs) =
      let (buf, sent, _) =
        send_heartbeat_sack_lem f l.receiver now_us v.session_fits c v.payload_fits in
      let r : Receiver Float = record l.receiver { sack_mgr = tick f l.receiver.sack_mgr } in
      let kept : IsReceiver f r = record {
        session_fits = v.session_fits;
        payload_fits = v.payload_fits;
      } in
      ticked now_us events l r _ sent refl (run_receiver_lem events _ kept cs)
  run_receiver_lem (readable false bufs now_us ∷ events) l v (c, cs) =
      let (m, ended, ran, w, id, ms, last) = run_receiver_lem events l v cs in
      (m, ended, ran, w, id, ms, elim last [ inl e ↦ inl e | inr e ↦ inr (inr e) ])
  run_receiver_lem (readable true bufs now_us ∷ events) l v (c, cs) =
      let (r, fin, outs, found, kept, same, last) =
        recv_batch-IsReceiver bufs l.receiver now_us v c in
      batched bufs now_us events l r fin outs found kept same last
        (run_receiver_lem events (after_batch f l (r, fin, outs)) kept cs)
