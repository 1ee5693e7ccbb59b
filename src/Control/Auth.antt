-- ===== src/Control/Auth.antt =====
-- crates/controlplane/src/auth.rs. The hash, the token library and the clock are parameters.
use udpix.Base.{
  ℕ, ◌+◌, ◌-◌, ◌^◌, bit_or, bit_xor, Bool, false, min, List, [], ◌∷◌, Option, none, some, ◌==◌,
}
use udpix.Control.Table.{Text, find, put}

pub record StoredUser : Type 0 where
  pub hash : List ℕ
  pub salt : List ℕ

pub record Claims : Type 0 where
  pub sub : Text
  pub sid : Text
  pub exp : ℕ

pub record AuthEngine : Type 0 where
  pub users : List (Text × StoredUser)
  pub jwt_secret : List ℕ
  pub token_ttl_secs : ℕ

-- `pbkdf2_hmac` with 100000 rounds, `encode` of the token with the secret, and `decode`, which
-- checks the signature and the expiry against the clock.
pub record Crypto : Type 0 where
  pub pbkdf2 : Text → List ℕ → List ℕ
  pub encode : Claims → List ℕ → Option Text
  pub decode : Text → List ℕ → ℕ → Option Claims

unfoldable pub new_auth : List ℕ → ℕ → AuthEngine
new_auth jwt_secret token_ttl_secs = record {
  users = [];
  jwt_secret = jwt_secret;
  token_ttl_secs = token_ttl_secs;
}

-- The `zip` and `fold` of the comparison.
unfoldable pub diff : List ℕ → List ℕ → ℕ
diff [] bs = 0
diff (a ∷ more) [] = 0
diff (a ∷ more) (b ∷ bs) = bit_or (bit_xor a b) (diff more bs)

module _ (c : Crypto) where
  open c use {pbkdf2, encode, decode}

  -- The salt is drawn at random.
  unfoldable pub add_user : AuthEngine → Text → Text → List ℕ → AuthEngine
  add_user a username password salt = record a {
    users = put username (record { hash = pbkdf2 password salt; salt = salt }) a.users;
  }

  abbrev pub check_user : Text → Option StoredUser → Bool
  check_user password none = false
  check_user password (some user) = diff (pbkdf2 password user.salt) user.hash == 0

  unfoldable pub authenticate : AuthEngine → Text → Text → Bool
  authenticate a username password = check_user password (find username a.users)

  -- `saturating_add`.
  unfoldable pub issue_token : AuthEngine → Text → Text → ℕ → Option Text
  issue_token a username session_id now =
      encode
        (record {
          sub = username;
          sid = session_id;
          exp = min (now + a.token_ttl_secs) (2 ^ 64 - 1);
        })
        a.jwt_secret

  unfoldable pub verify_token : AuthEngine → Text → ℕ → Option Claims
  verify_token a token now = decode token a.jwt_secret now
