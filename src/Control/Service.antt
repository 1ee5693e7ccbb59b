-- ===== src/Control/Service.antt =====
-- crates/controlplane/src/server.rs: the three handlers. A request is the arguments of its handler.
use udpix.Base.{ℕ, Bool, not, List, Option, none, some, if◌then◌else◌}
use udpix.Control.Table.{Text}
use udpix.Control.Auth.{AuthEngine, Crypto, Claims, issue_token, verify_token}
use udpix.Control.Auth as Auth
use udpix.Control.Sessions.{SessionManager, SessionInfo, Draw, PolicyEngine, create, resolve}
use udpix.Control.Sessions as Sessions

pub record ControlService : Type 0 where
  pub auth : AuthEngine
  pub sessions : SessionManager
  pub policies : PolicyEngine

pub data Status (A : Type 0) : Type 0 where
  response : A → Status A
  unauthenticated : Status A
  internal : Status A

pub record AuthResponse : Type 0 where
  pub session_id : Text
  pub jwt_token : Text
  pub session_key : List ℕ
  pub session_nonce : List ℕ
  pub max_bps : ℕ

module _ (c : Crypto) where
  abbrev pub respond : SessionInfo → Option Text → Status AuthResponse
  respond session none = internal
  respond session (some jwt) = response (record {
    session_id = session.session_uuid;
    jwt_token = jwt;
    session_key = session.session_key;
    session_nonce = session.session_nonce;
    max_bps = session.max_bps;
  })

  -- `unix_now` is the clock of the token, in seconds.
  unfoldable pub on_authenticate :
      ControlService → Text → Text → Draw → ℕ → ControlService × Status AuthResponse
  on_authenticate s username password d unix_now =
      let policy = resolve s.policies username in
      let (sessions, session) = create s.sessions d username policy.max_bps in
      let jwt = issue_token c s.auth username session.session_uuid unix_now in
      if not (Auth.authenticate c s.auth username password)
      then (s, unauthenticated)
      else (record s { sessions = sessions }, respond session jwt)

  abbrev pub if_valid :
      Option Claims → ControlService → ControlService × Status Bool → ControlService × Status Bool
  if_valid none s out = (s, unauthenticated)
  if_valid (some claims) s out = out

  unfoldable pub on_heartbeat : ControlService → Text → Text → ℕ → ℕ → ControlService × Status Bool
  on_heartbeat s session_id jwt_token unix_now now =
      let (sessions, ok) = Sessions.heartbeat s.sessions session_id now in
      if_valid (verify_token c s.auth jwt_token unix_now) s
        (record s { sessions = sessions }, response ok)

  unfoldable pub on_terminate : ControlService → Text → Text → ℕ → ControlService × Status Bool
  on_terminate s session_id jwt_token unix_now =
      let (sessions, ok) = Sessions.terminate s.sessions session_id in
      if_valid (verify_token c s.auth jwt_token unix_now) s
        (record s { sessions = sessions }, response ok)
