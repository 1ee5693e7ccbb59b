-- ===== src/Control/Tests.antt =====
-- The theorems on the control plane at concrete inputs, with a toy hash and token.
use udpix.Base.{
  ℕ, ◌-◌, ◌<◌, ◌≡◌, ◌≢◌, ap, subst, refl, lt→ltb, true, false, ◌↔◌, List, [], ◌∷◌, ◌++◌, Option,
  none, some, ltb, if◌then◌else◌, length, get_or, take, replicate, length-take, length-append,
  length-replicate, arith,
}
use mathlib.Core.Option.{some-injective}
use udpix.Control.Table.{Text}
use udpix.Control.Sessions.{
  SessionInfo, SessionManager, Draw, new_manager, create, get_clone, heartbeat, is_some, terminate,
  reap_expired, new_policies, resolve,
}
use udpix.Control.Auth.{
  Claims, AuthEngine, Crypto, new_auth, add_user, authenticate, issue_token, verify_token,
}
use udpix.Control.Service.{
  ControlService, response, unauthenticated, internal, on_authenticate, on_heartbeat, on_terminate,
}
use udpix.Control.Registry.{renewed, registry_lem, reap_expired_lem}
use udpix.Control.Login.{Accepts, authenticate-add_user, on_authenticate_lem, on_terminate_lem}

abbrev read_token : Text → ℕ → Option Claims
read_token [] now = none
read_token (exp ∷ sid) now =
    if ltb now exp then some (record { sub = []; sid = sid; exp = exp }) else none

abbrev toy : Crypto
toy = record {
  pbkdf2 = λ password salt. take 32 (password ++ (salt ++ replicate 32 0));
  encode = λ claims secret. some (claims.exp ∷ claims.sid);
  decode = λ token secret now. read_token token now;
}

toy_sizes : (p s : List ℕ) → length (take 32 (p ++ (s ++ replicate 32 0))) ≡ 32
toy_sizes p s = omega (
  arith,
  length-take 32 (p ++ (s ++ replicate 32 0)),
  length-append p (s ++ replicate 32 0),
  length-append s (replicate {A = ℕ} 32 0),
  length-replicate {A = ℕ} 32 0,
)

abbrev alice : Text
alice = 97 ∷ []

abbrev bob : Text
bob = 98 ∷ []

alice-ne-bob : alice ≢ bob
alice-ne-bob h = let both : ◌≡◌ {A = ℕ} 97 98 = ap (λ (t : Text). get_or t 0 0) h in omega arith

abbrev drawn_once : Draw
drawn_once = record { key_bytes = 1 ∷ []; nonce_bytes = 2 ∷ []; uuid = 97 ∷ []; now = 5 }

abbrev one_session : SessionManager
one_session = (create (new_manager 30) drawn_once alice 1000).0

registry_lem_example :
    let m = one_session in
    (get_clone (create m drawn_once bob 7).0 drawn_once.uuid ≡ some (create m drawn_once bob 7).1)
    × (get_clone (create m drawn_once bob 7).0 bob ≡ get_clone m bob)
    × (get_clone (heartbeat m alice 9).0 bob ≡ get_clone m bob)
    × (get_clone (heartbeat m alice 9).0 alice ≡ renewed 9 (get_clone m alice))
    × ((heartbeat m alice 9).1 ≡ is_some (get_clone m alice))
    × (get_clone (terminate m alice).0 alice ≡ none)
    × (get_clone (terminate m alice).0 bob ≡ get_clone m bob)
    × ((terminate m alice).1 ≡ is_some (get_clone m alice))
registry_lem_example =
    registry_lem one_session drawn_once bob alice bob 7 9 alice-ne-bob alice-ne-bob

abbrev the_session : SessionInfo
the_session = (create (new_manager 30) drawn_once alice 1000).1

reap_expired_lem_example :
    (get_clone one_session alice ≡ some the_session
      → 20 - the_session.last_heartbeat < one_session.session_ttl
      → get_clone (reap_expired one_session 20).0 alice ≡ some the_session)
    × (get_clone (reap_expired one_session 20).0 alice ≡ some the_session
        → 20 - the_session.last_heartbeat < one_session.session_ttl)
reap_expired_lem_example = reap_expired_lem one_session 20 alice the_session

abbrev engine : AuthEngine
engine = new_auth (7 ∷ []) 60

authenticate-add_user_example :
    let b = add_user toy engine alice (1 ∷ 2 ∷ []) (9 ∷ []) in
    ((authenticate toy b alice (1 ∷ 3 ∷ []) ≡ true)
      ↔ (toy.pbkdf2 (1 ∷ 3 ∷ []) (9 ∷ []) ≡ toy.pbkdf2 (1 ∷ 2 ∷ []) (9 ∷ [])))
    × (authenticate toy b alice (1 ∷ 2 ∷ []) ≡ true)
    × (authenticate toy b bob (1 ∷ 3 ∷ []) ≡ authenticate toy engine bob (1 ∷ 3 ∷ []))
authenticate-add_user_example =
    authenticate-add_user toy engine alice bob (1 ∷ 2 ∷ []) (1 ∷ 3 ∷ []) (9 ∷ []) toy_sizes
      alice-ne-bob

abbrev service : ControlService
service = record {
  auth = add_user toy engine alice (1 ∷ 2 ∷ []) (9 ∷ []);
  sessions = one_session;
  policies = new_policies 1000;
}

toy-Accepts : Accepts toy
toy-Accepts claims secret token now made early =
    let same : claims.exp ∷ claims.sid ≡ token = some-injective _ _ made in
    (
      record { sub = []; sid = claims.sid; exp = claims.exp },
      subst (λ t. read_token t now ≡ some (record { sub = []; sid = claims.sid; exp = claims.exp }))
          same (rw (lt→ltb now claims.exp early) refl),
    )

on_authenticate_lem_example :
    let (t, answer) = on_authenticate toy service alice (1 ∷ 2 ∷ []) drawn_once 100 in
    let jwt = issue_token toy service.auth alice drawn_once.uuid 100 in
    (authenticate toy service.auth alice (1 ∷ 2 ∷ []) ≡ false
      → (t ≡ service) × (answer ≡ unauthenticated))
    × (authenticate toy service.auth alice (1 ∷ 2 ∷ []) ≡ true
        → (session : SessionInfo) × (get_clone t.sessions drawn_once.uuid ≡ some session)
          × (session.username ≡ alice)
          × (session.session_key ≡ 1 ∷ [])
          × (session.session_nonce ≡ 2 ∷ [])
          × (session.max_bps ≡ (resolve service.policies alice).max_bps)
          × (jwt ≡ none → answer ≡ internal)
          × ((token : Text)
              → jwt ≡ some token
              → (answer
                  ≡ response (record {
                    session_id = drawn_once.uuid;
                    jwt_token = token;
                    session_key = session.session_key;
                    session_nonce = session.session_nonce;
                    max_bps = session.max_bps;
                  }))
                × ((on_heartbeat toy t drawn_once.uuid token 130 9).1 ≡ response true)))
unfolding add_user new_auth
on_authenticate_lem_example =
    on_authenticate_lem toy service alice (1 ∷ 2 ∷ []) drawn_once 100 130 9 toy-Accepts
      (omega arith)

on_terminate_lem_example :
    let (t, answer) = on_terminate toy service alice (160 ∷ bob) 100 in
    ((claims : Claims)
      → verify_token toy service.auth (160 ∷ bob) 100 ≡ some claims
      → (get_clone t.sessions alice ≡ none)
        × (answer ≡ response (is_some (get_clone service.sessions alice))))
    × (verify_token toy service.auth (160 ∷ bob) 100 ≡ none
        → (t ≡ service) × (answer ≡ unauthenticated))
on_terminate_lem_example = on_terminate_lem toy service alice (160 ∷ bob) 100
