-- ===== src/Sender/InBatch.antt =====
-- What a batch is (crates/protocol/src/sender.rs).
use udpix.Base.{
  ℕ, ◌+◌, ◌-◌, ◌^◌, ◌≤◌, ◌<◌, ◌≡◌, refl, sym, ap, ◌∙◌, Bool, true, false, List, [], ◌∷◌, ◌++◌,
  Option, none, some, leb, ◌==◌, length, take, All, All-append, length-append, length-take, arith,
  inl, inr, Bool-cases, ==→eq,
}
use mathlib.Core.Option.{some-injective, none-ne-some}
use udpix.Base.Bytes.{u64}
use udpix.Base.F64.{F64}
use udpix.Session.{rto}
use udpix.Congestion.Bucket.{try_consume}
use udpix.Sender.State.{Sender, InFlightEntry, InFlight, batch_size, insert, lookup}
use udpix.Sender.Gaps.{Fresh, Holds}
use udpix.Sender.Queued.{Below}
use udpix.Sender.Batch.{
  Drawing, Drawn, drawn, dry, SendMmsg, draw, draw_entry, drain, send_new, start_batch, fill_new,
  fill_batch, count_sent, send_batch, unsent_seqs,
}

-- Two maps that differ only in when the packets were last sent.
abbrev pub Same : InFlight → InFlight → Type 0
Same [] [] = Unit {0}
Same [] (x ∷ n) = ⊥
Same (x ∷ m) [] = ⊥
Same ((k, e) ∷ m) ((l, d) ∷ n) =
    (k ≡ l) × (e.datagram ≡ d.datagram) × (e.nak_count ≡ d.nak_count) × Same m n

pub Same-refl : (m : InFlight) → Same m m
Same-refl [] = tt
Same-refl (x ∷ m) = (refl, refl, refl, Same-refl m)

Same-trans : (a b c : InFlight) → Same a b → Same b c → Same a c
Same-trans [] [] c p q = q
Same-trans [] (y ∷ b) c p q = elim p [ ]
Same-trans (x ∷ a) [] c p q = elim p [ ]
Same-trans (x ∷ a) (y ∷ b) [] p q = elim q [ ]
Same-trans (x ∷ a) (y ∷ b) (z ∷ c) (k, d, n, p) (k', d', n', q) =
    (k ∙ k', d ∙ d', n ∙ n', Same-trans a b c p q)

pub Fresh-Same : (a b : InFlight) → Same a b → Fresh a → Fresh b
Fresh-Same [] [] p h = tt
Fresh-Same [] (y ∷ b) p h = elim p [ ]
Fresh-Same (x ∷ a) [] p h = elim p [ ]
Fresh-Same (x ∷ a) (y ∷ b) (k, d, n, p) (low, h) = (omega arith, Fresh-Same a b p h)

pub Below-Same : (n : ℕ) (a b : InFlight) → Same a b → Below n a → Below n b
Below-Same m [] [] p h = tt
Below-Same m [] (y ∷ b) p h = elim p [ ]
Below-Same m (x ∷ a) [] p h = elim p [ ]
Below-Same m (x ∷ a) (y ∷ b) (k, d, n, p) (low, h) = (omega arith, Below-Same m a b p h)

pub Holds-Same :
    (seq : ℕ) (datagram : List ℕ) (a b : InFlight)
    → Same a b
    → Holds seq datagram b
    → Holds seq datagram a
Holds-Same seq datagram [] [] p h = h
Holds-Same seq datagram [] (y ∷ b) p h = elim p [ ]
Holds-Same seq datagram (x ∷ a) [] p h = elim p [ ]
Holds-Same seq datagram (x ∷ a) (y ∷ b) (k, d, n, p) h = elim h [
  | inl (here, bytes) ↦ inl (k ∙ here, d ∙ bytes)
  | inr there ↦ inr (Holds-Same seq datagram a b p there)
]

lookup-here :
    (seq k : ℕ) (x : InFlightEntry) (m : InFlight)
    → (k == seq) ≡ true
    → lookup seq ((k, x) ∷ m) ≡ some x
unfolding lookup
lookup-here seq k x m h = rw h

lookup-there :
    (seq k : ℕ) (x : InFlightEntry) (m : InFlight)
    → (k == seq) ≡ false
    → lookup seq ((k, x) ∷ m) ≡ lookup seq m
unfolding lookup
lookup-there seq k x m h = rw h

lookup-nil : (seq : ℕ) → lookup seq [] ≡ none
unfolding lookup
lookup-nil seq = refl

touch-Same :
    (seq now : ℕ) (m : InFlight) (e : InFlightEntry)
    → lookup seq m ≡ some e
    → Same m (insert seq (record e { last_sent = now }) m) × Holds seq e.datagram m
unfolding insert
touch-Same seq now [] e h = absurd (none-ne-some e (sym (lookup-nil seq) ∙ h))
touch-Same seq now ((k, x) ∷ m) e h = elim (Bool-cases (k == seq)) [
  | inl same ↦
      let found : x ≡ e = some-injective x e (sym (lookup-here seq k x m same) ∙ h) in
      let bytes = ap (λ (d : InFlightEntry). d.datagram) found in
      let counter = ap (λ (d : InFlightEntry). d.nak_count) found in
      rw same ((refl, bytes, counter, Same-refl m), inl (==→eq k seq same, bytes))
  | inr other ↦
      let (rest, held) = touch-Same seq now m e (sym (lookup-there seq k x m other) ∙ h) in
      rw other ((refl, refl, refl, rest), inr held)
]

-- The datagram belongs to a packet of the map.
abbrev pub InMap : InFlight → List ℕ → Type 0
InMap m datagram = (seq : ℕ) × Holds seq datagram m

module _ {Float : Type 0} (m : InFlight) where
  -- What holds of the loops' state all along, where `m` is the map that they started from.
  pub record IsDrawing (w : Drawing Float) : Type 0 where
    pub same : Same m w.in_flight
    pub sent_held : All (InMap m) w.batch
    pub bounded : length w.batch ≤ batch_size

module _ (f : F64) (now : ℕ) where
  open f use {Float}

  abbrev IsDrawn : InFlight → Drawn Float → Type 0
  IsDrawn m (drawn w) = IsDrawing m w
  IsDrawn m dry = Unit {0}

  draw-IsDrawn :
      (m : InFlight) (resend : Bool) (w : Drawing Float) (seq : ℕ)
      → IsDrawing m w
      → length w.batch < batch_size
      → IsDrawn m (draw f now resend w seq)
  unfolding draw
  draw-IsDrawn m resend w seq v room = go (lookup seq w.in_flight) refl
    where
      go :
          (o : Option InFlightEntry)
          → lookup seq w.in_flight ≡ o
          → IsDrawn m (draw_entry f now resend seq w o)
      go none found = v
      go (some e) found =
          let granted = (try_consume f w.pacer (length e.datagram)).0 in
          let (touched, held) = touch-Same seq now w.in_flight e found in
          let kept = Holds-Same seq e.datagram m w.in_flight v.same held in
          elim (Bool-cases granted) [
            | inl given ↦ rw given (record {
              same = Same-trans m w.in_flight _ v.same touched;
              sent_held =
                  All-append (InMap m) w.batch (e.datagram ∷ []) v.sent_held ((seq, kept), tt);
              bounded = omega (arith, length-append w.batch (e.datagram ∷ []));
            })
            | inr short ↦ rw short tt
          ]

  drain-IsDrawing :
      (m : InFlight) (q : List ℕ) (w : Drawing Float)
      → IsDrawing m w
      → IsDrawing m (drain f now q w).1
  unfolding drain
  drain-IsDrawing m [] w v = v
  drain-IsDrawing m (seq ∷ q) w v = elim (Bool-cases (leb batch_size (length w.batch))) [
    | inl full ↦ rw (full, drain) v
    | inr room ↦
        rw (room, drain)
          (go (λ w' v'. drain-IsDrawing m q w' v') (draw f now true w seq)
            (draw-IsDrawn m true w seq v (ground arith)))
  ]
    where
      go :
          ((w' : Drawing Float) → IsDrawing m w' → IsDrawing m (drain f now q w').1)
          → (d : Drawn Float) → IsDrawn m d
          → IsDrawing m
              (elim d as (λ d. List ℕ × Drawing Float) [
                | drawn w' ↦ drain f now q w'
                | dry ↦ (q ++ (seq ∷ []), w)
              ]).1
      go further (drawn w') v' = further w' v'
      go further dry v' = v

  abbrev AtMost : ℕ → Drawn Float → Type 0
  AtMost n (drawn w) = length w.batch ≤ n
  AtMost n dry = Unit {0}

  draw-AtMost :
      (resend : Bool) (w : Drawing Float) (seq : ℕ)
      → AtMost (length w.batch + 1) (draw f now resend w seq)
  unfolding draw
  draw-AtMost resend w seq = go (lookup seq w.in_flight)
    where
      go :
          (o : Option InFlightEntry) → AtMost (length w.batch + 1) (draw_entry f now resend seq w o)
      go none = omega arith
      go (some e) = elim (Bool-cases (try_consume f w.pacer (length e.datagram)).0) [
        | inl given ↦ rw given (omega (arith, length-append w.batch (e.datagram ∷ [])))
        | inr short ↦ rw short tt
      ]

  send_new-IsDrawing :
      (m : InFlight) (q : List ℕ) (w : Drawing Float)
      → IsDrawing m w
      → length q + length w.batch ≤ batch_size
      → IsDrawing m (send_new f now q w)
  unfolding send_new
  send_new-IsDrawing m [] w v room = v
  send_new-IsDrawing m (seq ∷ q) w v room =
      go (λ w' v' r'. send_new-IsDrawing m q w' v' r') (draw f now false w seq)
        (draw-IsDrawn m false w seq v (omega arith)) (draw-AtMost false w seq)
    where
      go :
          ((w' : Drawing Float)
            → IsDrawing m w'
            → length q + length w'.batch ≤ batch_size
            → IsDrawing m (send_new f now q w'))
          → (d : Drawn Float) → IsDrawn m d
          → AtMost (length w.batch + 1) d
          → IsDrawing m
              (elim d as (λ d. Drawing Float) [ drawn w' ↦ send_new f now q w' | dry ↦ w ])
      go further (drawn w') v' g = further w' v' (omega arith)
      go further dry v' g = v

  fill_new-IsDrawing :
      (m : InFlight) (rto_us : ℕ) (w : Drawing Float)
      → IsDrawing m w
      → IsDrawing m (fill_new f now rto_us w)
  unfolding fill_new
  fill_new-IsDrawing m rto_us w v =
      let room = batch_size - length w.batch in
      let seqs = unsent_seqs now rto_us w.in_flight in
      send_new-IsDrawing m (take room seqs) w v (omega (arith, length-take room seqs, v.bounded))

  start-IsDrawing : (s : Sender Float) → IsDrawing s.in_flight (start_batch f now s)
  unfolding start_batch
  start-IsDrawing s = record { same = Same-refl s.in_flight; sent_held = tt; bounded = omega arith }

  pub fill_batch_lem :
      (s : Sender Float)
      → let (t, batch) = fill_batch f now s in
        (length batch ≤ batch_size)
        × All (InMap s.in_flight) batch
        × Same s.in_flight t.in_flight
        × (t.stats.packets_sent ≡ s.stats.packets_sent)
        × (t.next_seq ≡ s.next_seq)
  unfolding fill_batch
  fill_batch_lem s =
      let m = s.in_flight in
      let v1 = drain-IsDrawing m s.urgent_retransmits _ (start-IsDrawing s) in
      let v2 = drain-IsDrawing m s.normal_retransmits _ v1 in
      let v = fill_new-IsDrawing m (rto s.stats) _ v2 in
      (v.bounded, v.sent_held, v.same, refl, refl)

  -- Whatever the queues hold and the pacer allows, a batch has at most 64 datagrams, each of them
  -- is that of a packet in flight, and no packet in flight is lost or changed but for the time at
  -- which it was last sent. The packet counter grows by the size of the batch, modulo 2^64.
  pub send_batch_lem :
      (sendmmsg : SendMmsg) (s : Sender Float)
      → s.stats.packets_sent < 2 ^ 64
      → let (t, batch) = send_batch f now sendmmsg s in
        (length batch ≤ batch_size)
        × All (InMap s.in_flight) batch
        × Same s.in_flight t.in_flight
        × (t.stats.packets_sent ≡ u64 (s.stats.packets_sent + length batch))
        × (t.next_seq ≡ s.next_seq)
  unfolding send_batch count_sent
  send_batch_lem sendmmsg s fits =
      let (bounded, held, same, packets, next) = fill_batch_lem s in
      elim (Bool-cases (length (fill_batch f now s).1 == 0)) [
        | inl nothing ↦
            let none_sent : length (fill_batch f now s).1 ≡ 0 = ==→eq _ _ nothing in
            rw nothing (bounded, held, same, omega arith, next)
        | inr something ↦ rw something (
          bounded,
          held,
          same,
          ap (λ (n : ℕ). u64 (n + length (fill_batch f now s).1)) packets,
          next,
        )
      ]
