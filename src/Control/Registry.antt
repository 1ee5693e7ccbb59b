-- ===== src/Control/Registry.antt =====
-- The session registry keeps its promises (crates/controlplane/src/session_mgr.rs).
use udpix.Base.{
  ℕ, ◌-◌, ◌<◌, ◌≡◌, ◌≢◌, refl, sym, ap, ◌∙◌, true, List, [], ◌∷◌, Option, none, some, inl, inr,
  Bool-cases, ltb→lt, lt→ltb,
}
use mathlib.Core.Option.{some-injective, none-ne-some}
use udpix.Control.Table.{
  Text, same_text, find, find-put, find-put_other, find-erase, find-erase_other,
}
use udpix.Control.Sessions.{
  SessionInfo, SessionManager, Draw, create, get_clone, beat, heartbeat, is_some, terminate,
  is_live, retain_live, reap_expired,
}

-- A session that is there, with a new time.
abbrev pub renewed : ℕ → Option SessionInfo → Option SessionInfo
renewed now none = none
renewed now (some s) = some (record s { last_heartbeat = now })

-- Creating a session makes it the one under its identifier; a heartbeat changes nothing but the time
-- of the session it names, and tells whether it is there; terminating removes one session and tells
-- whether it was there. No call touches the other identifiers.
pub registry_lem :
    (m : SessionManager) (d : Draw) (username uuid other : Text) (max_bps now : ℕ)
    → uuid ≢ other
    → d.uuid ≢ other
    → (get_clone (create m d username max_bps).0 d.uuid ≡ some (create m d username max_bps).1)
      × (get_clone (create m d username max_bps).0 other ≡ get_clone m other)
      × (get_clone (heartbeat m uuid now).0 other ≡ get_clone m other)
      × (get_clone (heartbeat m uuid now).0 uuid ≡ renewed now (get_clone m uuid))
      × ((heartbeat m uuid now).1 ≡ is_some (get_clone m uuid))
      × (get_clone (terminate m uuid).0 uuid ≡ none)
      × (get_clone (terminate m uuid).0 other ≡ get_clone m other)
      × ((terminate m uuid).1 ≡ is_some (get_clone m uuid))
unfolding create get_clone heartbeat terminate
registry_lem m d username uuid other max_bps now differ differ' = (
  find-put d.uuid _ m.sessions,
  find-put_other d.uuid other _ m.sessions differ',
  kept (find uuid m.sessions),
  beaten (find uuid m.sessions) refl,
  told (find uuid m.sessions),
  find-erase uuid m.sessions,
  find-erase_other uuid other m.sessions differ,
  refl,
)
  where
    kept :
        (o : Option SessionInfo) → find other (beat m uuid now o).0.sessions ≡ find other m.sessions
    kept none = refl
    kept (some s) = find-put_other uuid other _ m.sessions differ

    beaten :
        (o : Option SessionInfo)
        → find uuid m.sessions ≡ o
        → find uuid (beat m uuid now o).0.sessions ≡ renewed now o
    beaten none h = h
    beaten (some s) h = find-put uuid _ m.sessions

    told : (o : Option SessionInfo) → (beat m uuid now o).1 ≡ is_some o
    told none = refl
    told (some s) = refl

found_live :
    (now ttl : ℕ) (uuid : Text) (s : SessionInfo) (m : List (Text × SessionInfo))
    → find uuid (retain_live now ttl m) ≡ some s
    → is_live now ttl s ≡ true
unfolding retain_live find
found_live now ttl uuid s [] h = absurd (none-ne-some s h)
found_live now ttl uuid s ((k, w) ∷ m) h = elim (Bool-cases (is_live now ttl w)) [
  | inl live ↦ elim (Bool-cases (same_text k uuid)) [
    | inl here ↦
        let same : w ≡ s = some-injective w s (rw (live, here) at h) in
        ap (is_live now ttl) (sym same) ∙ live
    | inr there ↦ found_live now ttl uuid s m (rw (live, there) at h)
  ]
  | inr late ↦ found_live now ttl uuid s m (rw late at h)
]

live_found :
    (now ttl : ℕ) (uuid : Text) (s : SessionInfo) (m : List (Text × SessionInfo))
    → find uuid m ≡ some s
    → is_live now ttl s ≡ true
    → find uuid (retain_live now ttl m) ≡ some s
unfolding retain_live find
live_found now ttl uuid s [] h live = h
live_found now ttl uuid s ((k, w) ∷ m) h live = elim (Bool-cases (same_text k uuid)) [
  | inl here ↦
      let same : w ≡ s = some-injective w s (rw here at h) in
      let alive : is_live now ttl w ≡ true = ap (is_live now ttl) same ∙ live in
      rw (alive, here) (ap some same)
  | inr there ↦
      let rest = live_found now ttl uuid s m (rw there at h) live in
      elim (Bool-cases (is_live now ttl w)) [
        | inl young ↦ rw (young, there) rest
        | inr late ↦ rw late rest
      ]
]

-- Reaping spares every session whose last heartbeat is younger than the time to live, and every
-- session that is still found afterwards is that young.
pub reap_expired_lem :
    (m : SessionManager) (now : ℕ) (uuid : Text) (s : SessionInfo)
    → (get_clone m uuid ≡ some s
        → now - s.last_heartbeat < m.session_ttl
        → get_clone (reap_expired m now).0 uuid ≡ some s)
      × (get_clone (reap_expired m now).0 uuid ≡ some s → now - s.last_heartbeat < m.session_ttl)
unfolding reap_expired get_clone
reap_expired_lem m now uuid s = (
  (λ found young. live_found now m.session_ttl uuid s m.sessions found (lt→ltb _ _ young)),
  λ found. ltb→lt _ _ (found_live now m.session_ttl uuid s m.sessions found),
)
