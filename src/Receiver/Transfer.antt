-- ===== src/Receiver/Transfer.antt =====
-- What `enqueue_data` of the sender stores, and what of it reaches the application behind the receiver
-- (crates/protocol/src/sender.rs, crates/protocol/src/receiver.rs).
use udpix.Base.{
  ℕ, ◌+◌, ◌-◌, ◌^◌, ◌<◌, ◌≡◌, refl, sym, ap, ap₂, map, ◌∙◌, subst, true, false, List, [], ◌∷◌, ◌++◌,
  some, ltb, length, take, drop, slice, All, length-drop, take_all, arith, ge→ltb, eq→==,
}
use mathlib.Core.List.{Memᴰ, Permᴰ}
use mathlib.Core.List.Permᴰ as PermLaws
use udpix.Base.Bytes.{u64}
use udpix.Base.F64.{F64}
use udpix.Packet.{header_size, new_data, is_data}
use udpix.Sack.Manager.{on_packet_received}
use udpix.Sender.State.{Sender, InFlightEntry, InFlight}
use udpix.Sender.Chunks.{chunks, concat, IsChunk, concat-chunks, chunks-IsChunk}
use udpix.Sender.Enqueue.{enqueue_data}
use udpix.Sender.Queued.{Below, Carries, Queued, enqueue_data_lem}
use udpix.Receiver.State.{
  Receiver, Output, to_application, to_sender, to_wire, handle_data, dispatch, in_session,
  process_datagram, recv_batch,
}

-- The datagrams as they lie in the map.
abbrev pub wire_of : InFlight → List (List ℕ)
wire_of [] = []
wire_of ((seq, e) ∷ m) = e.datagram ∷ wire_of m

-- The payloads that the application gets, in order.
abbrev pub applied : List Output → List (List ℕ)
applied [] = []
applied (to_application bytes ∷ outs) = bytes ∷ applied outs
applied (to_sender sack ∷ outs) = applied outs
applied (to_wire bytes ∷ outs) = applied outs

-- What an entry brings.
abbrev pub body : ℕ × InFlightEntry → List ℕ
body (seq, e) = drop header_size e.datagram

is_data-new_data : (session_id seq ts n : ℕ) → is_data (new_data session_id seq ts n) ≡ true
unfolding is_data new_data
is_data-new_data session_id seq ts n = refl

module _ (f : F64) where
  open f use {Float}

  -- The receiver after the data packet `seq` with `n` bytes.
  abbrev pub after_data : Receiver Float → ℕ → ℕ → Receiver Float
  after_data r seq n = record r {
    data_seen = true;
    sack_mgr = on_packet_received f r.sack_mgr seq;
    stats = record r.stats {
      packets_acked = u64 (r.stats.packets_acked + 1);
      bytes_acked = u64 (r.stats.bytes_acked + n);
    };
  }

  handle_data_lem :
      (r : Receiver Float) (session_id seq ts : ℕ) (chunk datagram : List ℕ)
      → IsChunk chunk
      → drop header_size datagram ≡ chunk
      → handle_data f r (new_data session_id seq ts (length chunk)) datagram
        ≡ some (after_data r seq (length chunk), some false, to_application chunk ∷ [])
  unfolding handle_data new_data
  handle_data_lem r session_id seq ts chunk datagram (positive, small) behind =
      let size : length chunk ≡ length datagram - header_size =
        sym (ap (λ (xs : List ℕ). length xs) behind) ∙ length-drop header_size datagram in
      let whole : ltb (length datagram) (header_size + length chunk) ≡ false =
        ge→ltb _ _ (omega arith) in
      let bytes : slice datagram header_size (length chunk) ≡ chunk =
        ap (λ (xs : List ℕ). take (length chunk) xs) behind
        ∙ take_all chunk (length chunk) (omega arith) in
      rw (whole, bytes) refl

  -- A data packet of the session is delivered.
  pub process_datagram-Carries :
      (r : Receiver Float) (seq ts now_us : ℕ) (chunk datagram : List ℕ)
      → IsChunk chunk
      → Carries r.session_id seq ts chunk datagram
      → process_datagram f r datagram now_us
        ≡ some (after_data r seq (length chunk), some false, to_application chunk ∷ [])
  unfolding process_datagram dispatch new_data on_packet_received
  process_datagram-Carries r seq ts now_us chunk datagram sized (parsed, behind) =
      let h = new_data r.session_id seq ts (length chunk) in
      let kind = is_data-new_data r.session_id seq ts (length chunk) in
      ap (in_session f r datagram now_us) parsed
      ∙ rw (eq→== r.session_id r.session_id refl, kind)
          (handle_data_lem r r.session_id seq ts chunk datagram sized behind)

  -- An entry of the session that brings a chunk.
  abbrev IsSent : ℕ → (ℕ → ℕ) → ℕ × InFlightEntry → Type 0
  IsSent session_id ts (seq, e) =
      IsChunk (body (seq, e)) × Carries session_id seq (ts seq) (body (seq, e)) e.datagram

  recv_batch_lem :
      (m : InFlight) (r : Receiver Float) (ts : ℕ → ℕ) (now_us : ℕ)
      → All (IsSent r.session_id ts) m
      → (s : Receiver Float) × (outs : List Output) × (recv_batch f (wire_of m) r now_us
          ≡ some (s, false, outs))
        × (applied outs ≡ map body m)
  unfolding recv_batch
  recv_batch_lem [] r ts now_us sent = (r, [], refl, refl)
  recv_batch_lem ((seq, e) ∷ m) r ts now_us ((sized, carries), sent) =
      let chunk = body (seq, e) in
      let r' = after_data r seq (length chunk) in
      let first = process_datagram-Carries r seq (ts seq) now_us chunk e.datagram sized carries in
      let (s, outs, found, bodies) = recv_batch_lem m r' ts now_us sent in
      (
        s,
        to_application chunk ∷ outs,
        rw (first, found) refl,
        ap (λ (xs : List (List ℕ)). chunk ∷ xs) bodies,
      )

  Queued-IsSent :
      (session_id : ℕ) (ts : ℕ → ℕ) (m : InFlight) (cs : List (List ℕ)) (n : ℕ)
      → All IsChunk cs
      → Queued session_id ts n cs m
      → All (IsSent session_id ts) m × (map body m ≡ cs)
  Queued-IsSent session_id ts [] [] n sized queued = (tt, refl)
  Queued-IsSent session_id ts [] (c ∷ cs) n sized queued = elim queued [ ]
  Queued-IsSent session_id ts (x ∷ m) [] n sized queued = elim queued [ ]
  Queued-IsSent session_id ts ((seq, e) ∷ m) (c ∷ cs) n (one, sized)
        (same, fresh, (parsed, behind), queued) =
      let (sent, bodies) = Queued-IsSent session_id ts m cs (n + 1) sized queued in
      let goal =
        λ (k : ℕ) (bytes : List ℕ). IsChunk bytes × Carries session_id k (ts k) bytes e.datagram in
      let here : goal seq (body (seq, e)) =
        subst (λ k. goal k (body (seq, e))) (sym same)
          (subst (λ bytes. goal n bytes) (sym behind) (one, (parsed, behind))) in
      ((here, sent), ap₂ (λ (x : List ℕ) (xs : List (List ℕ)). x ∷ xs) behind bodies)

  IsSent-entry :
      (session_id : ℕ) (ts : ℕ → ℕ) (m : InFlight) (e : ℕ × InFlightEntry)
      → All (IsSent session_id ts) m
      → Memᴰ e m
      → IsSent session_id ts e
  IsSent-entry session_id ts [] e sent inside = elim inside [ ]
  IsSent-entry session_id ts (x ∷ m) e (one, sent) (Memᴰ.head same) =
      subst (IsSent session_id ts) (sym same) one
  IsSent-entry session_id ts (x ∷ m) e (one, sent) (Memᴰ.tail inside) =
      IsSent-entry session_id ts m e sent inside

  IsSent-arrived :
      (session_id : ℕ) (ts : ℕ → ℕ) (m arrived : InFlight)
      → All (IsSent session_id ts) m
      → All (λ (e : ℕ × InFlightEntry). Memᴰ e m) arrived
      → All (IsSent session_id ts) arrived
  IsSent-arrived session_id ts m [] sent inside = tt
  IsSent-arrived session_id ts m (e ∷ arrived) sent inside = (
    IsSent-entry session_id ts m e sent inside.0,
    IsSent-arrived session_id ts m arrived sent inside.1,
  )

  -- A payload is enqueued without a panic as new entries behind the old ones, and what these bring, one
  -- after the other, is the payload. Whatever datagrams of the new entries arrive, in any order, some
  -- lost and some repeated, the receiver takes them without a panic and without the end of the session,
  -- and the application gets exactly what they bring, in the order of their arrival: so the whole payload
  -- if each arrives once in the order of the entries, and if each arrives once in another order, the
  -- chunks of the payload in that order. It holds where the numbers, the session and the timestamps fit
  -- their fields, the numbers in flight lie below the next one, and the receiver has the same session.
  pub transfer_lem :
      (now ts : ℕ → ℕ) (s : Sender Float) (r : Receiver Float) (payload : List ℕ) (now_us : ℕ)
      → s.session_id < 2 ^ 32
      → ((k : ℕ) → ts k < 2 ^ 64)
      → Below s.next_seq s.in_flight
      → s.next_seq + length (chunks payload) < 2 ^ 64
      → r.session_id ≡ s.session_id
      → (t : Sender Float) × (m : InFlight) × (enqueue_data now ts s payload ≡ some t)
        × (t.in_flight ≡ s.in_flight ++ m)
        × (concat (map body m) ≡ payload)
        × ((arrived : InFlight)
            → All (λ (e : ℕ × InFlightEntry). Memᴰ e m) arrived
            → (q : Receiver Float) × (outs : List Output) × (recv_batch f (wire_of arrived) r now_us
                ≡ some (q, false, outs))
              × (applied outs ≡ map body arrived)
              × (Permᴰ m arrived → Permᴰ (chunks payload) (applied outs)))
  transfer_lem now ts s r payload now_us a b below room same =
      let (m, found, queued, _) = enqueue_data_lem now ts s payload a b below room in
      let mine : Queued r.session_id ts s.next_seq (chunks payload) m =
        subst (λ id. Queued id ts s.next_seq (chunks payload) m) (sym same) queued in
      let (sent, bodies) =
        Queued-IsSent r.session_id ts m (chunks payload) s.next_seq (chunks-IsChunk payload) mine in
      (
        _,
        m,
        found,
        refl,
        ap concat bodies ∙ concat-chunks payload,
        λ arrived inside.
            let (q, outs, received, got) =
              recv_batch_lem arrived r ts now_us
                (IsSent-arrived r.session_id ts m arrived sent inside) in
            (
              q,
              outs,
              received,
              got,
              λ once.
                  let shuffled : Permᴰ (map body m) (map body arrived) = PermLaws.map body once in
                  subst (λ xs. Permᴰ (chunks payload) xs) (sym got)
                    (subst (λ cs. Permᴰ cs (map body arrived)) bodies shuffled),
            ),
      )
