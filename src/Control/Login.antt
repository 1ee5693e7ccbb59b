-- ===== src/Control/Login.antt =====
-- Logging in, and what a token allows (crates/controlplane/src/server.rs, auth.rs).
use udpix.Base.{
  ℕ, ◌+◌, ◌-◌, ◌^◌, ◌<◌, min, ◌≡◌, ◌≢◌, refl, sym, ap, ap₂, ◌∙◌, bit_xor, true, false, ◌↔◌, List,
  [], ◌∷◌, none, some, length, arith, ==→eq, eq→==,
}
use udpix.Base.Xor.{bit_xor_self, bit_xor_zero, bit_or_zero}
use udpix.Control.Table.{Text, find-put, find-put_other, find-erase}
use udpix.Control.Auth.{
  StoredUser, Claims, AuthEngine, Crypto, diff, add_user, check_user, authenticate, issue_token,
  verify_token,
}
use udpix.Control.Sessions.{Draw, SessionInfo, create, get_clone, terminate, resolve, is_some}
use udpix.Control.Sessions as Sessions
use udpix.Control.Service.{
  ControlService, response, unauthenticated, internal, on_authenticate, on_heartbeat, on_terminate,
}

diff_self : (bs : List ℕ) → diff bs bs ≡ 0
unfolding diff
diff_self [] = refl
diff_self (b ∷ bs) = rw (bit_xor_self b, diff_self bs) refl

diff_zero : (front bs : List ℕ) → length front ≡ length bs → diff front bs ≡ 0 → front ≡ bs
unfolding diff
diff_zero [] [] h e = refl
diff_zero [] (b ∷ bs) h e = absurd (omega arith)
diff_zero (a ∷ more) [] h e = absurd (omega arith)
diff_zero (a ∷ more) (b ∷ bs) h e =
    let (first, rest) = bit_or_zero (bit_xor a b) (diff more bs) e in
    ap₂ (λ (x : ℕ) (xs : List ℕ). x ∷ xs) (bit_xor_zero a b first)
      (diff_zero more bs (omega arith) rest)

module _ (c : Crypto) where
  open c use {pbkdf2}

  check_lem :
      (password : Text) (user : StoredUser)
      → length (pbkdf2 password user.salt) ≡ length user.hash
      → (check_user c password (some user) ≡ true) ↔ (pbkdf2 password user.salt ≡ user.hash)
  check_lem password user same = (
    (λ h. diff_zero (pbkdf2 password user.salt) user.hash same (==→eq _ _ h)),
    λ h. eq→== _ _ (ap (λ (t : List ℕ). diff t user.hash) h ∙ diff_self user.hash),
  )

  -- After a user is stored, exactly the passwords that hash with the stored salt to the stored
  -- hash are let in, the user's own among them: the comparison by exclusive or decides equality.
  -- Other users are let in as before. It holds where all hashes have the same length.
  pub authenticate-add_user :
      (a : AuthEngine) (username other password attempt : Text) (salt : List ℕ)
      → ((p s : List ℕ) → length (pbkdf2 p s) ≡ 32)
      → username ≢ other
      → let b = add_user c a username password salt in
        ((authenticate c b username attempt ≡ true) ↔ (pbkdf2 attempt salt ≡ pbkdf2 password salt))
        × (authenticate c b username password ≡ true)
        × (authenticate c b other attempt ≡ authenticate c a other attempt)
  unfolding add_user authenticate
  authenticate-add_user a username other password attempt salt sizes differ =
      let user : StoredUser = record { hash = pbkdf2 password salt; salt = salt } in
      let found = find-put username user a.users in
      let alike = λ (p : Text). sizes p salt ∙ sym (sizes password salt) in
      (
        rw found (check_lem attempt user (alike attempt)),
        rw found ((check_lem password user (alike password)).1 refl),
        ap (check_user c attempt) (find-put_other username other user a.users differ),
      )

  -- A token that `issue_token` makes is accepted until it expires.
  abbrev pub Accepts : Type 0
  Accepts =
      (claims : Claims) (secret : List ℕ) (token : Text) (now : ℕ)
      → c.encode claims secret ≡ some token
      → now < claims.exp
      → (read : Claims) × (c.decode token secret now ≡ some read)

  on_heartbeat-created :
      (t : ControlService) (session : SessionInfo) (uuid jwt : Text) (claims : Claims)
      (later now : ℕ)
      → verify_token c t.auth jwt later ≡ some claims
      → get_clone t.sessions uuid ≡ some session
      → (on_heartbeat c t uuid jwt later now).1 ≡ response true
  unfolding on_heartbeat get_clone Sessions.heartbeat
  on_heartbeat-created t session uuid jwt claims later now valid found = rw (valid, found) refl

  issue_token-verify :
      (a : AuthEngine) (username uuid jwt : Text) (now later : ℕ)
      → Accepts
      → issue_token c a username uuid now ≡ some jwt
      → later < min (now + a.token_ttl_secs) (2 ^ 64 - 1)
      → (claims : Claims) × (verify_token c a jwt later ≡ some claims)
  unfolding issue_token verify_token
  issue_token-verify a username uuid jwt now later accepts made early =
      accepts _ a.jwt_secret jwt later made early

  -- Logging in, and the heartbeat that follows. Wrong credentials change nothing and are refused. Right
  -- ones store a session under the drawn identifier, with the drawn key and nonce, the user's name and
  -- the rate of the user's policy. Where no token can be made for it the answer is an internal error,
  -- and the session stays. Where one can, the answer has the identifier, the token, and the key, nonce
  -- and rate of the stored session, and at any time before the token expires a heartbeat with this
  -- identifier and token is confirmed. It holds where the token library accepts the tokens that it made
  -- until they expire.
  pub on_authenticate_lem :
      (s : ControlService) (username password : Text) (d : Draw) (unix_now later now : ℕ)
      → Accepts
      → later < min (unix_now + s.auth.token_ttl_secs) (2 ^ 64 - 1)
      → let (t, answer) = on_authenticate c s username password d unix_now in
        let jwt = issue_token c s.auth username d.uuid unix_now in
        (authenticate c s.auth username password ≡ false → (t ≡ s) × (answer ≡ unauthenticated))
        × (authenticate c s.auth username password ≡ true
            → (session : SessionInfo) × (get_clone t.sessions d.uuid ≡ some session)
              × (session.username ≡ username)
              × (session.session_key ≡ d.key_bytes)
              × (session.session_nonce ≡ d.nonce_bytes)
              × (session.max_bps ≡ (resolve s.policies username).max_bps)
              × (jwt ≡ none → answer ≡ internal)
              × ((token : Text)
                  → jwt ≡ some token
                  → (answer
                      ≡ response (record {
                        session_id = d.uuid;
                        jwt_token = token;
                        session_key = session.session_key;
                        session_nonce = session.session_nonce;
                        max_bps = session.max_bps;
                      }))
                    × ((on_heartbeat c t d.uuid token later now).1 ≡ response true)))
  unfolding on_authenticate create get_clone
  on_authenticate_lem s username password d unix_now later now accepts early = (
    (λ wrong. rw wrong (refl, refl)),
    λ right. rw right (
      (create s.sessions d username (resolve s.policies username).max_bps).1,
      find-put d.uuid _ s.sessions.sessions,
      refl,
      refl,
      refl,
      refl,
      (λ no_token. rw no_token refl),
      λ token made.
          let (claims, valid) =
            issue_token-verify s.auth username d.uuid token unix_now later accepts made early in
          (
            rw made refl,
            on_heartbeat-created _ _ d.uuid token claims later now valid
                (find-put d.uuid _ s.sessions.sessions),
          ),
    ),
  )

  -- A valid token ends the session that the request names, whichever session it was issued for;
  -- without one nothing changes.
  pub on_terminate_lem :
      (s : ControlService) (session_id jwt_token : Text) (unix_now : ℕ)
      → let (t, answer) = on_terminate c s session_id jwt_token unix_now in
        ((claims : Claims)
          → verify_token c s.auth jwt_token unix_now ≡ some claims
          → (get_clone t.sessions session_id ≡ none)
            × (answer ≡ response (is_some (get_clone s.sessions session_id))))
        × (verify_token c s.auth jwt_token unix_now ≡ none → (t ≡ s) × (answer ≡ unauthenticated))
  unfolding on_terminate terminate get_clone
  on_terminate_lem s session_id jwt_token unix_now = (
    (λ claims valid. rw valid (find-erase session_id s.sessions.sessions, refl)),
    λ invalid. rw invalid (refl, refl),
  )
