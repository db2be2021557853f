-- ===== src/Auth/Service/Requests.antt =====
-- internal/auth/service.go: issuing tokens, the authentication of requests, and the in-memory store behind the
-- service.
use open_mcp_chain.Prelude.{
  ℕ, Bool, true, false, not, ◌||◌, Option, none, some, List, [], ◌∷◌, Text, txt, text_eq, ◌==◌,
  is_empty, trim_space, to_lower, map, if◌then◌else◌, inl, inr,
}
use open_mcp_chain.Prelude.Int.{ℤ, pos, negsuc}
use open_mcp_chain.Prelude.Map.{insert}
use open_mcp_chain.Prelude.Parse.{atoi, split_once}
use open_mcp_chain.Errors.Value.{GoError, nil, plain}
use open_mcp_chain.Auth.Subject.{
  Subject, Seed, Set, err_invalid_token, err_subject_revoked, normalise, clone,
}
use open_mcp_chain.Auth.MemoryStore.{
  MemoryStore, Sealed, apply_seed, find_user_by_username, load_subject, loaded_subject,
}
use open_mcp_chain.Auth.Tokens.{
  Outcome, ◌>>=◌, labelled, equal_fold, Crypto, JwtManager, TokenPair, generate, verify,
  verify_password, token_type_access,
}
use open_mcp_chain.Auth.Service.{
  err_disabled, err_invalid_credentials, err_unsupported_grant, err_missing_token, mode_disabled,
  mode_jwt, mode_oauth, mode_other, Mode, Store, TokenRequest, IntrospectionResponse, OauthSubject,
  OauthClient, Service,
}

unfoldable pub pick_claim : IntrospectionResponse → Text → Text
pick_claim resp claim =
    let c = to_lower claim in
    if c == txt "username"
    then resp.username
    else if c == txt "sub" || c == txt "subject"
    then resp.subject
    else if c == txt "client_id"
    then resp.client_id
    else if (if claim == txt "preferred_username" then is_empty resp.username else false)
    then resp.subject
    else resp.username

unfoldable pub introspect : OauthClient → Text → Outcome OauthSubject
unfolding pick_claim
introspect client token = do
  resp ← client.request_introspection token
  inl (record {
    active = resp.active;
    subject = resp.subject;
    username = pick_claim resp client.username_claim;
    roles = [];
    permissions = if is_empty resp.scope then [] else client.fields resp.scope;
  })

-- The keys that the loops over two lists of permissions leave in a map.
unfoldable pub merged_keys : Set → List Text → Set
merged_keys set [] = set
merged_keys set (p ∷ ps) = merged_keys (insert p tt set) ps

unfoldable pub merge_permissions : List Text → Subject → Subject
unfolding merged_keys
merge_permissions [] s = s
merge_permissions (p ∷ ps) s = record s {
  permissions = map (λ e. e.0) (merged_keys (merged_keys [] s.permissions) (p ∷ ps));
}

abbrev pub found : {A : Type 0} → GoError → Outcome A → Outcome A
found e (inl a) = inl a
found e (inr _) = inr e

abbrev external_subject : Text → OauthSubject → Subject
external_subject username info = record {
  id = 0;
  username = username;
  roles = info.roles;
  permissions = info.permissions;
  disabled = false;
  permissions_set = none;
}

abbrev pub no_store : GoError
no_store = plain (txt "user store not configured")

abbrev pub no_manager : GoError
no_manager = plain (txt "jwt manager not initialised")

-- the test of the subject that was loaded
abbrev pub enabled : Subject → Outcome Subject
enabled s = if s.disabled then inr err_subject_revoked else inl s

abbrev pub issue : Crypto → Option JwtManager → ℕ → Subject → Outcome TokenPair
issue crypto none now subject = inr no_manager
issue crypto (some m) now subject = do
  pair ← generate crypto m now (some (normalise subject))
  inl (record pair { subject = some (clone subject); token_type = txt "Bearer" })

abbrev exchange_with : Option OauthClient → TokenRequest → Outcome TokenPair
exchange_with none req = inr (plain (txt "oauth client not configured"))
exchange_with (some client) req = client.exchange req

abbrev pub id_of : Option ℤ → Outcome ℤ
id_of none = inr err_invalid_token
id_of (some n) = inl n

abbrev pub token_in : Option (Text × Text) → Outcome Text
token_in none = inr err_missing_token
token_in (some (scheme, rest)) =
    let token = trim_space rest in
    if not (equal_fold scheme (txt "bearer")) || is_empty token
    then inr err_missing_token
    else inl token

abbrev pub is_disabled : Mode → Bool
is_disabled mode_disabled = true
is_disabled _ = false

module _ {W : Type 0} where
  abbrev pub loaded_for : Option (Store W) → ℤ → W → Outcome Subject
  loaded_for none id w = inr no_store
  loaded_for (some store) id w = do
    subject ← labelled (txt "load subject") (store.load_subject id w)
    subject' ← enabled subject
    inl (normalise subject')

  -- verifyOAuth with a store, for the name of the user
  unfoldable pub oauth_subject_in : Store W → Text → OauthSubject → W → Outcome Subject
  unfolding merge_permissions normalise
  oauth_subject_in store username info w = do
    user ← found err_invalid_token (store.find_user_by_username username w)
    subject ← labelled (txt "load subject") (store.load_subject (pos user.id) w)
    subject' ← enabled subject
    inl (normalise (merge_permissions info.permissions subject'))

  abbrev oauth_subject_of : Option (Store W) → Text → OauthSubject → W → Outcome Subject
  oauth_subject_of none username info w = inl (external_subject username info)
  oauth_subject_of (some store) username info w = oauth_subject_in store username info w

  abbrev verify_oauth_by : Option OauthClient → Option (Store W) → Text → W → Outcome Subject
  verify_oauth_by none store token w = inr (plain (txt "oauth client not configured"))
  verify_oauth_by (some client) store token w = do
    info ← introspect client token
    let username = if is_empty info.username then info.subject else info.username
    if not info.active || is_empty username
        then inr err_invalid_token
        else oauth_subject_of store username info w

  unfoldable pub verify_oauth : Service W → Text → W → Outcome Subject
  unfolding introspect oauth_subject_in
  verify_oauth s token w = verify_oauth_by s.oauth s.store token w

module _ {W : Type 0} (crypto : Crypto) where
  -- authenticateJWT with a store, from the look-up of the user on
  unfoldable pub log_in : Store W → Option JwtManager → ℕ → TokenRequest → W → Outcome TokenPair
  unfolding generate normalise clone
  log_in store jwt now req w = do
    user ← found err_invalid_credentials (store.find_user_by_username (trim_space req.username) w)
    if user.disabled
        then inr err_subject_revoked
        else if not (verify_password crypto user.password_hash req.password)
        then inr err_invalid_credentials
        else (do
          subject ← labelled (txt "load subject") (store.load_subject (pos user.id) w)
          subject' ← enabled subject
          issue crypto jwt now subject')

  abbrev pub log_in_to :
      Option (Store W) → Option JwtManager → ℕ → TokenRequest → W → Outcome TokenPair
  log_in_to none jwt now req w = inr no_store
  log_in_to (some store) jwt now req w = log_in store jwt now req w

  unfoldable pub authenticate_jwt : Service W → ℕ → TokenRequest → W → Outcome TokenPair
  unfolding log_in
  authenticate_jwt s now req w =
      let grant = trim_space (to_lower req.grant_type) in
      let grant' = if is_empty grant then txt "password" else grant in
      if not (grant' == txt "password")
      then inr err_unsupported_grant
      else log_in_to s.store s.jwt now req w

  unfoldable pub authenticate : Service W → ℕ → TokenRequest → W → Outcome TokenPair
  unfolding authenticate_jwt
  authenticate s now req w = elim s.mode [
    | mode_jwt ↦ authenticate_jwt s now req w
    | mode_oauth ↦ exchange_with s.oauth req
    | mode_disabled ↦ inr err_disabled
    | mode_other _ ↦ inr err_disabled
  ]

  abbrev pub verify_jwt_by : Option JwtManager → Option (Store W) → ℕ → Text → W → Outcome Subject
  verify_jwt_by none store now token w = inr no_manager
  verify_jwt_by (some m) store now token w = do
    claims ← verify crypto m now token
    if not (claims.token_type == token_type_access)
        then inr err_invalid_token
        else (do id ← id_of (atoi claims.subject); loaded_for store id w)

  unfoldable pub verify_jwt : Service W → ℕ → Text → W → Outcome Subject
  unfolding verify atoi normalise
  verify_jwt s now token w = verify_jwt_by s.jwt s.store now token w

  -- the second switch on the mode
  unfoldable pub verify_in : Mode → Service W → ℕ → Text → W → Outcome Subject
  unfolding verify_jwt verify_oauth
  verify_in mode_jwt s now token w = verify_jwt s now token w
  verify_in mode_oauth s now token w = verify_oauth s token w
  verify_in mode s now token w = inr err_disabled

  unfoldable pub authenticate_request : Service W → ℕ → Text → W → Outcome Subject
  unfolding verify_in split_once
  authenticate_request s now authorization w = if is_disabled s.mode then inr err_disabled else (do
    token ← token_in (split_once b' ' (trim_space authorization))
    verify_in s.mode s now token w)

abbrev outcome_of : {A : Type 0} → Option A × GoError → Outcome A
outcome_of (some a, nil) = inl a
outcome_of (_, e) = inr e

abbrev load_by : ℤ → MemoryStore → Option Subject × GoError
load_by (pos id) store = load_subject id store
load_by (negsuc n) store = loaded_subject none

-- The in-memory store; `sealed` is what HashPassword gives for a seed.
unfoldable pub memory_store : (Seed → Sealed) → Store MemoryStore
unfolding find_user_by_username load_subject apply_seed
memory_store sealed = record {
  find_user_by_username = λ username w. outcome_of (find_user_by_username username w);
  load_subject = λ id w. outcome_of (load_by id w);
  apply_seed = some (λ seed w. apply_seed seed (sealed seed) w);
}
