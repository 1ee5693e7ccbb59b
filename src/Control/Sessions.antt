-- ===== src/Control/Sessions.antt =====
-- crates/controlplane/src/session_mgr.rs and crates/controlplane/src/policy.rs. The random bytes, the
-- identifier of `Uuid::new_v4` and the clock are arguments. Each method takes the lock once, so a call
-- is one step.
use udpix.Base.{
  ℕ, ◌+◌, ◌-◌, Bool, true, false, List, [], ◌∷◌, Option, none, some, ltb, if◌then◌else◌, length,
}
use udpix.Base.Bytes.{u32}
use udpix.Control.Table.{Text, find, put, erase}

pub record SessionInfo : Type 0 where
  pub session_uuid : Text
  pub numeric_id : ℕ
  pub username : Text
  pub session_key : List ℕ
  pub session_nonce : List ℕ
  pub max_bps : ℕ
  pub created_at : ℕ
  pub last_heartbeat : ℕ

pub record SessionManager : Type 0 where
  pub sessions : List (Text × SessionInfo)
  pub next_id : ℕ
  pub session_ttl : ℕ

-- What `create` draws and reads.
pub record Draw : Type 0 where
  pub key_bytes : List ℕ
  pub nonce_bytes : List ℕ
  pub uuid : Text
  pub now : ℕ

unfoldable pub new_manager : ℕ → SessionManager
new_manager session_ttl = record { sessions = []; next_id = 1; session_ttl = session_ttl }

unfoldable pub create : SessionManager → Draw → Text → ℕ → SessionManager × SessionInfo
create m d username max_bps =
    let info : SessionInfo = record {
      session_uuid = d.uuid;
      numeric_id = m.next_id;
      username = username;
      session_key = d.key_bytes;
      session_nonce = d.nonce_bytes;
      max_bps = max_bps;
      created_at = d.now;
      last_heartbeat = d.now;
    } in
    (record m { sessions = put d.uuid info m.sessions; next_id = u32 (m.next_id + 1) }, info)

unfoldable pub get_clone : SessionManager → Text → Option SessionInfo
get_clone m uuid = find uuid m.sessions

abbrev pub beat : SessionManager → Text → ℕ → Option SessionInfo → SessionManager × Bool
beat m uuid now none = (m, false)
beat m uuid now (some s) =
    (record m { sessions = put uuid (record s { last_heartbeat = now }) m.sessions }, true)

unfoldable pub heartbeat : SessionManager → Text → ℕ → SessionManager × Bool
heartbeat m uuid now = beat m uuid now (find uuid m.sessions)

abbrev pub is_some : Option SessionInfo → Bool
is_some none = false
is_some (some s) = true

unfoldable pub terminate : SessionManager → Text → SessionManager × Bool
terminate m uuid = (record m { sessions = erase uuid m.sessions }, is_some (find uuid m.sessions))

-- `duration_since` saturates.
abbrev pub is_live : ℕ → ℕ → SessionInfo → Bool
is_live now ttl s = ltb (now - s.last_heartbeat) ttl

unfoldable pub retain_live : ℕ → ℕ → List (Text × SessionInfo) → List (Text × SessionInfo)
retain_live now ttl [] = []
retain_live now ttl ((k, s) ∷ m) =
    let rest = retain_live now ttl m in if is_live now ttl s then (k, s) ∷ rest else rest

unfoldable pub reap_expired : SessionManager → ℕ → SessionManager × ℕ
reap_expired m now =
    let left = retain_live now m.session_ttl m.sessions in
    (record m { sessions = left }, length m.sessions - length left)

-- The burst factor is kept in hundredths: the code only stores it.
pub record BandwidthPolicy : Type 0 where
  pub max_bps : ℕ
  pub burst_factor : ℕ

pub record PolicyEngine : Type 0 where
  pub default : BandwidthPolicy
  pub per_user : List (Text × BandwidthPolicy)

unfoldable pub new_policies : ℕ → PolicyEngine
new_policies default_max_bps = record {
  default = record { max_bps = default_max_bps; burst_factor = 150 };
  per_user = [];
}

abbrev pub or_default : BandwidthPolicy → Option BandwidthPolicy → BandwidthPolicy
or_default d none = d
or_default d (some p) = p

unfoldable pub resolve : PolicyEngine → Text → BandwidthPolicy
resolve e username = or_default e.default (find username e.per_user)

unfoldable pub set_user_policy : PolicyEngine → Text → ℕ → ℕ → PolicyEngine
set_user_policy e username max_bps burst_factor = record e {
  per_user = put username (record { max_bps = max_bps; burst_factor = burst_factor }) e.per_user;
}
