-- ===== src/Sack/History.antt =====
-- Whole histories of arrivals and heartbeats of a `SackManager` (crates/protocol/src/sack.rs).
use udpix.Base.{
  ℕ, ◌+◌, ◌≤◌, ◌<◌, ◌≡◌, refl, sym, ap, ◌∙◌, subst, true, false, ◌⊎◌, List, [], ◌∷◌, ◌++◌, arith,
  inl,
}
use udpix.Base.F64.{F64}
use udpix.Sack.Payload.{sack_window, is_received}
use udpix.Sack.Mark.{is_received-below}
use udpix.Sack.Advance.{is_received-starting_at}
use udpix.Sack.Manager.{SackManager, new, on_packet_received, tick, record_arrival}
use udpix.Sack.Arrivals.{IsWindow, last_base, record_arrival_lem, starting_at-IsWindow}

-- What happens to a manager: a packet, or the heartbeat timer.
pub data Event : Type 0 where
  arrival : ℕ → Event
  heartbeat : Event

-- The packets that arrived.
abbrev pub Arrived : ℕ → List Event → Type 0
Arrived t [] = ⊥
Arrived t (arrival s ∷ es) = (s ≡ t) ⊎ Arrived t es
Arrived t (heartbeat ∷ es) = Arrived t es

abbrev pub Fits : List Event → Type 0
Fits [] = Unit {0}
Fits (arrival s ∷ es) = (s < last_base) × Fits es
Fits (heartbeat ∷ es) = Fits es

module _ (f : F64) where
  open f use {Float}

  unfoldable pub step : SackManager Float → Event → SackManager Float
  step m (arrival s) = on_packet_received f m s
  step m heartbeat = tick f m

  unfoldable pub run : SackManager Float → List Event → SackManager Float
  run m [] = m
  run m (e ∷ es) = run (step m e) es

  run-append : (m : SackManager Float) (es fs : List Event) → run m (es ++ fs) ≡ run (run m es) fs
  unfolding run
  run-append m [] fs = refl
  run-append m (e ∷ es) fs = run-append (step m e) es fs

  -- The bitmap after an event.
  step_arrival :
      (m : SackManager Float) (s : ℕ) → (step m (arrival s)).payload ≡ record_arrival m.payload s
  unfolding step on_packet_received
  step_arrival m s = refl

  step-heartbeat : (m : SackManager Float) → (step m heartbeat).payload ≡ m.payload
  unfolding step tick
  step-heartbeat m = refl

  -- A history keeps the window, keeps what is received, and adds only what arrived.
  run_history :
      (m : SackManager Float) (es : List Event)
      → IsWindow m.payload
      → Fits es
      → IsWindow (run m es).payload
        × ((t : ℕ) → is_received m.payload t ≡ true → is_received (run m es).payload t ≡ true)
        × ((t : ℕ)
            → is_received (run m es).payload t ≡ true
            → (is_received m.payload t ≡ true) ⊎ Arrived t es)
  unfolding run
  run_history m [] w fits = (w, λ t h. h, λ t h. inl h)
  run_history m (heartbeat ∷ es) w fits =
      let p = step-heartbeat m in
      let (window, kept, added) =
        run_history (step m heartbeat) es (subst IsWindow (sym p) w) fits in
      (window, λ t h. kept t (ground (arith, p)), λ t h. ground (arith, p, added t h))
  run_history m (arrival s ∷ es) w fits =
      let (recorded, w') = record_arrival_lem m.payload s w fits.0 in
      let p = step_arrival m s in
      let (window, kept, added) =
        run_history (step m (arrival s)) es (subst IsWindow (sym p) w') fits.1 in
      (
        window,
        λ t h. kept t (ground (arith, p, recorded t)),
        λ t h. ground (arith, p, recorded t, added t h),
      )

  -- From a fresh manager, whatever packets arrive in whatever order: every number that the bitmap
  -- acknowledges lies below the initial one or arrived, and the base is the first number that is
  -- not acknowledged, so all below it are. It holds where the initial number is at most 2^64 - 1025
  -- and all numbers that arrive are below 2^64 - 1025, so that no window reaches the end of the range.
  pub acknowledged-Arrived :
      (initial_seq : ℕ) (es : List Event)
      → initial_seq ≤ last_base
      → Fits es
      → let p = (run (new f initial_seq) es).payload in
        ((t : ℕ) → is_received p t ≡ true → (t < initial_seq) ⊎ Arrived t es)
        × (is_received p p.base_seq ≡ false)
        × ((t : ℕ) → t < p.base_seq → is_received p t ≡ true)
  unfolding new
  acknowledged-Arrived initial_seq es small fits =
      let (window, kept, added) =
        run_history (new f initial_seq) es (starting_at-IsWindow initial_seq small) fits in
      (
        λ t h. ground (arith, added t h, is_received-starting_at initial_seq t),
        window.base_missing,
        λ t h. is_received-below _ t h,
      )

  -- A packet that arrives inside the window stays acknowledged, whatever happens later.
  pub arrival_kept :
      (initial_seq s : ℕ) (es later : List Event)
      → initial_seq ≤ last_base
      → Fits es
      → Fits (arrival s ∷ later)
      → s < (run (new f initial_seq) es).payload.base_seq + sack_window
      → is_received (run (new f initial_seq) (es ++ (arrival s ∷ later))).payload s ≡ true
  unfolding new
  arrival_kept initial_seq s es later small before after near =
      let m = run (new f initial_seq) es in
      let (window, _, _) =
        run_history (new f initial_seq) es (starting_at-IsWindow initial_seq small) before in
      let (recorded, w') = record_arrival_lem m.payload s window after.0 in
      let p = step_arrival m s in
      let (_, kept, _) =
        run_history (step m (arrival s)) later (subst IsWindow (sym p) w') after.1 in
      ap (λ (x : SackManager Float). is_received x.payload s)
        (run-append (new f initial_seq) es (arrival s ∷ later))
      ∙ unfold run in kept s (ground (arith, p, recorded s))
