-- ===== src/Auth/Service/Login.antt =====
-- From a password to a token, and from the token back to the subject.
use Prim.Native.Nat.{◌+◌}
use open_mcp_chain.Prelude.{
  ℕ, ◌≤◌, ◌≡◌, refl, sym, ap, ◌∙◌, false, ◌⊎◌, inl, inr, none, some, [], ◌++◌, Text, txt, text_eq,
  text_beq, arith, is_empty, trim_space, to_lower, trim_left, is_space,
}
use open_mcp_chain.Prelude.Int.{pos}
use open_mcp_chain.Prelude.Trim.{IsBlankless, trim_space-blankless, trim_space_blankless}
use open_mcp_chain.Prelude.Parse.{format_int, max_int, split_once}
use open_mcp_chain.Prelude.Numerals.{atoi-format_int, split_once-append}
use open_mcp_chain.Auth.Subject.{User, Subject, err_invalid_token, normalise, clone}
use open_mcp_chain.Auth.MemoryStore.{Sealed}
use open_mcp_chain.Auth.Tokens.{
  Crypto, JwtClaims, JwtManager, TokenPair, token_type_access, access_claims, refresh_claims,
  check_claims, sign, generate, verify, seal,
}
use open_mcp_chain.Auth.Tokens.Signed.{
  IsCodec, IsSerial, sign-verify, own_claims, verify_password-seal,
}
use open_mcp_chain.Auth.Service.{mode_jwt, Store, TokenRequest, Service}
use open_mcp_chain.Auth.Service.Requests.{
  issue, log_in, authenticate_jwt, authenticate, verify_jwt, verify_in, token_in,
  authenticate_request,
}

-- A service of mode jwt.
abbrev pub jwt_service : {W : Type 0} → Store W → JwtManager → Service W
jwt_service store m = record { mode = mode_jwt; store = some store; jwt = some m; oauth = none }

abbrev text_in : Sealed → Text
text_in (inl s) = s
text_in (inr _) = []

abbrev pub bearer : Text → Text
bearer token = txt "Bearer " ++ token

split-bearer : (token : Text) → split_once b' ' (bearer token) ≡ some (txt "Bearer", token)
split-bearer token =
    split_once-append b' ' (txt "Bearer") token (refl, (refl, (refl, (refl, (refl, (refl, tt))))))

-- The token is found in its header.
token_in-bearer :
    (token : Text)
    → IsBlankless token
    → is_empty token ≡ false
    → token_in (split_once b' ' (trim_space (bearer token))) ≡ inl token
unfolding trim_left is_space text_beq to_lower
token_in-bearer token h full = rw (
  trim_space-blankless (txt "Bearer ") token h full refl,
  split-bearer token,
  trim_space_blankless token h full,
  full,
)

-- What Verify makes of claims is the claims, or the error of a token that is not valid.
check_claims-cases :
    (m : JwtManager) (now : ℕ) (claims : JwtClaims)
    → (check_claims m now claims ≡ inl claims) ⊎ (check_claims m now claims ≡ inr err_invalid_token)
unfolding check_claims
check_claims-cases m now claims = ground arith

module _ {W : Type 0} (crypto : Crypto) (codec : IsCodec crypto) (store : Store W) (m : JwtManager)
    (w : W) where
  -- With the name and password of a user who is enabled, the subject of the user is given its tokens.
  log_in_lem :
      (now : ℕ) (req : TokenRequest) (user : User) (subject : Subject) (salt : Text)
      → store.find_user_by_username (trim_space req.username) w ≡ inl user
      → user.disabled ≡ false
      → seal crypto req.password (inl salt) ≡ inl user.password_hash
      → store.load_subject (pos user.id) w ≡ inl subject
      → subject.disabled ≡ false
      → log_in crypto store (some m) now req w ≡ issue crypto (some m) now subject
  unfolding log_in
  log_in_lem now req user subject salt known unlocked sealed loaded enabled =
      let (hashed, made, good) = verify_password-seal crypto codec req.password salt in
      let same : user.password_hash ≡ hashed = ap text_in (sym sealed ∙ made) in
      rw (known, unlocked, same, good, loaded, enabled)

  issue_lem :
      (now : ℕ) (subject : Subject) (access refresh : Text)
      → sign crypto m (access_claims m (normalise subject) now) ≡ inl access
      → sign crypto m (refresh_claims m (normalise subject) now) ≡ inl refresh
      → (pair : TokenPair) × (issue crypto (some m) now subject ≡ inl pair)
        × (pair.access_token ≡ access)
        × (pair.refresh_token ≡ refresh)
  unfolding generate
  issue_lem now subject access refresh signed signed' =
      let pair : TokenPair = record {
        access_token = access;
        expires_in = m.access_ttl;
        refresh_token = refresh;
        refresh_expires_in = m.refresh_ttl;
        token_type = txt "Bearer";
        subject = some (clone subject);
        granted_scopes = [];
      } in
      (pair, rw (signed, signed'), refl, refl)

  request-verify :
      (later : ℕ) (token : Text)
      → IsBlankless token
      → is_empty token ≡ false
      → authenticate_request crypto (jwt_service store m) later (bearer token) w
        ≡ verify_jwt crypto (jwt_service store m) later token w
  unfolding authenticate_request verify_in
  request-verify later token h full = rw (token_in-bearer token h full)

  verify_jwt-access :
      (later : ℕ) (claims : JwtClaims) (token : Text) (subject : Subject) (id : ℕ)
      → verify crypto m later token ≡ inl claims
      → claims.token_type ≡ token_type_access
      → claims.subject ≡ format_int id
      → id ≤ max_int
      → store.load_subject (pos id) w ≡ inl subject
      → subject.disabled ≡ false
      → verify_jwt crypto (jwt_service store m) later token w ≡ inl (normalise subject)
  unfolding verify_jwt text_beq
  verify_jwt-access later claims token subject id good access named small loaded enabled =
      rw (good, access, named, atoi-format_int id small, loaded, enabled)

  -- A token that is not an access token is refused, before and after it expires.
  verify_jwt-refresh :
      (later : ℕ) (claims : JwtClaims) (token : Text)
      → verify crypto m later token ≡ check_claims m later claims
      → text_beq claims.token_type token_type_access ≡ false
      → verify_jwt crypto (jwt_service store m) later token w ≡ inr err_invalid_token
  unfolding verify_jwt
  verify_jwt-refresh later claims token signed other = elim (check_claims-cases m later claims) [
    | inl good ↦ rw (signed, good, other)
    | inr bad ↦ rw (signed, bad)
  ]

  authenticate-log_in :
      (now : ℕ) (req : TokenRequest)
      → req.grant_type ≡ txt "password"
      → authenticate crypto (jwt_service store m) now req w ≡ log_in crypto store (some m) now req w
  unfolding authenticate authenticate_jwt trim_space to_lower is_space text_beq
  authenticate-log_in now req h = rw h refl

  -- With the grant type password, and the name and the password of a user who is enabled, whose hash was made of
  -- that password, a service of mode jwt issues a pair of tokens, where JSON writes and reads the claims of both. Until it expires, the
  -- access token as a bearer token authenticates the subject that the store then loads for the user; the refresh
  -- token authenticates nobody, at any time.
  pub login_then_request :
      (now later later' : ℕ) (req : TokenRequest) (user : User) (subject : Subject) (salt : Text)
      → req.grant_type ≡ txt "password"
      → store.find_user_by_username (trim_space req.username) w ≡ inl user
      → user.disabled ≡ false
      → seal crypto req.password (inl salt) ≡ inl user.password_hash
      → store.load_subject (pos user.id) w ≡ inl subject
      → subject.id ≡ user.id
      → subject.disabled ≡ false
      → user.id ≤ max_int
      → IsSerial crypto (access_claims m (normalise subject) now)
      → IsSerial crypto (refresh_claims m (normalise subject) now)
      → later ≤ now + m.access_ttl
      → (pair : TokenPair) × (authenticate crypto (jwt_service store m) now req w ≡ inl pair)
        × (authenticate_request crypto (jwt_service store m) later (bearer pair.access_token) w
            ≡ inl (normalise subject))
        × (authenticate_request crypto (jwt_service store m) later' (bearer pair.refresh_token) w
            ≡ inr err_invalid_token)
  unfolding access_claims refresh_claims normalise text_beq
  login_then_request now later later' req user subject salt grant known unlocked sealed loaded same
        enabled small access_json refresh_json alive =
      let claims = access_claims m (normalise subject) now in
      let (access, signed, taken, blankless, full) =
        sign-verify crypto codec m claims access_json in
      let (refresh, signed', taken', blankless', full') =
        sign-verify crypto codec m (refresh_claims m (normalise subject) now) refresh_json in
      let (pair, issued, is_access, is_refresh) =
        issue_lem now subject access refresh signed signed' in
      (
        pair,
        authenticate-log_in now req grant
            ∙ log_in_lem now req user subject salt known unlocked sealed loaded enabled
            ∙ issued,
        rw is_access (
            request-verify later access blankless full
            ∙ verify_jwt-access later claims access subject user.id
                (taken later ∙ own_claims m later claims refl refl alive) refl (ap format_int same)
                small loaded enabled),
        rw is_refresh (
            request-verify later' refresh blankless' full'
            ∙ verify_jwt-refresh later' (refresh_claims m (normalise subject) now) refresh
                (taken' later') refl),
      )
