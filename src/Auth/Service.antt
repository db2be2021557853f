-- ===== src/Auth/Service.antt =====
-- internal/auth/service.go: the service. A nil store, JWT manager or OAuth client is `none`; a nil service has
-- the mode `disabled`. The OAuth provider answers the requests of the client; the audit log is left out.
pub mod Requests
pub mod Login
pub mod Scopes
use open_mcp_chain.Prelude.{
  ℕ, Bool, true, false, not, ◌||◌, Option, none, some, List, [], ◌∷◌, ◌++◌, Text, txt, text_eq,
  ◌==◌, is_empty, trim_space, to_lower, map, if◌then◌else◌, inl, inr,
}
use open_mcp_chain.Prelude.Int.{ℤ, pos, negsuc, leb_ℤ, pos_part}
use open_mcp_chain.Prelude.Map.{insert}
use open_mcp_chain.Prelude.Parse.{atoi, split_once}
use open_mcp_chain.Errors.Value.{GoError, nil, plain, wrapped, is_nil, error_text}
use open_mcp_chain.Auth.Subject.{
  User, Subject, Seed, Set, err_invalid_token, err_subject_revoked, normalise, clone,
}
use open_mcp_chain.Auth.MemoryStore.{
  MemoryStore, Sealed, apply_seed, find_user_by_username, load_subject, loaded_subject,
}
use open_mcp_chain.Auth.Tokens.{
  Outcome, ◌>>=◌, labelled, equal_fold, Crypto, JwtManager, TokenPair, generate, verify,
  verify_password, token_type_access,
}

abbrev pub err_disabled : GoError
err_disabled = plain (txt "authentication disabled")

abbrev pub err_invalid_credentials : GoError
err_invalid_credentials = plain (txt "invalid credentials")

abbrev pub err_unsupported_grant : GoError
err_unsupported_grant = plain (txt "unsupported grant type")

abbrev pub err_missing_token : GoError
err_missing_token = plain (txt "missing bearer token")

-- A mode that is none of the three is kept as its text, in lower case.
pub data Mode : Type 0 where
  mode_disabled mode_jwt mode_oauth : Mode
  mode_other : Text → Mode

unfoldable pub mode_of_text : Text → Mode
mode_of_text text =
    let t = to_lower text in
    if t == txt "disabled"
    then mode_disabled
    else if t == txt "jwt"
    then mode_jwt
    else if t == txt "oauth"
    then mode_oauth
    else mode_other t

-- Store, over a state `W`; `apply_seed` where the store is a SeedWriter too.
pub record Store (W : Type 0) : Type 0 where
  pub find_user_by_username : Text → W → Outcome User
  pub load_subject : ℤ → W → Outcome Subject
  pub apply_seed : Option (Seed → W → GoError × W)

pub record TokenRequest : Type 0 where
  pub grant_type : Text
  pub username : Text
  pub password : Text
  pub scope : List Text

pub record JwtOptions : Type 0 where
  pub secret : Text
  pub issuer : Text
  pub audience : List Text
  pub access_ttl : ℤ
  pub refresh_ttl : ℤ

pub record IntrospectionResponse : Type 0 where
  pub active : Bool
  pub subject : Text
  pub username : Text
  pub scope : Text
  pub client_id : Text

pub record OauthSubject : Type 0 where
  pub active : Bool
  pub subject : Text
  pub username : Text
  pub roles : List Text
  pub permissions : List Text

-- The client's requests over HTTP, with the decoding of the answers, and strings.Fields on a scope.
pub record OauthClient : Type 0 where
  pub username_claim : Text
  pub exchange : TokenRequest → Outcome TokenPair
  pub request_introspection : Text → Outcome IntrospectionResponse
  pub fields : Text → List Text

pub record Config : Type 0 where
  pub mode : Text
  pub jwt : JwtOptions
  pub new_oauth_client : Outcome OauthClient
  pub seeds : List Seed

pub record Service (W : Type 0) : Type 0 where
  pub mode : Mode
  pub store : Option (Store W)
  pub jwt : Option JwtManager
  pub oauth : Option OauthClient

abbrev or_else : ℤ → ℕ → ℕ
or_else n default = if leb_ℤ n (pos 0) then default else pos_part n

unfoldable pub new_jwt_manager : JwtOptions → JwtManager
new_jwt_manager o = record {
  secret = o.secret;
  issuer = o.issuer;
  audience = o.audience;
  access_ttl = or_else o.access_ttl 3600;
  refresh_ttl = or_else o.refresh_ttl 86400;
}

module _ {W : Type 0} where
  -- the loop over the seeds
  unfoldable pub apply_seeds : (Seed → W → GoError × W) → List Seed → W → Outcome (Unit {0}) × W
  apply_seeds write [] w = (inl tt, w)
  apply_seeds write (seed ∷ seeds) w =
      let (e, w') = write seed w in
      let rest = apply_seeds write seeds w' in
      if is_nil e
      then rest
      else (inr (wrapped (txt "apply seed " ++ seed.username ++ txt ": " ++ error_text e) e), w')

  abbrev seeded : Service W → Option (Store W) → List Seed → W → Outcome (Service W) × W
  seeded s none seeds w = (inl s, w)
  seeded s (some store) seeds w = elim store.apply_seed [
    | none ↦ (inl s, w)
    | some write ↦ let (done, w') = apply_seeds write seeds w in (done >>= λ _. inl s, w')
  ]

  abbrev service_of : Mode → Option (Store W) → Option JwtManager → Option OauthClient → Service W
  service_of mode store jwt oauth = record { mode = mode; store = store; jwt = jwt; oauth = oauth }

  abbrev new_jwt_service : Config → Store W → W → Outcome (Service W) × W
  new_jwt_service cfg store w =
      if is_empty (trim_space cfg.jwt.secret)
      then (inr (plain (txt "jwt secret must be configured")), w)
      else seeded (service_of mode_jwt (some store) (some (new_jwt_manager cfg.jwt)) none)
          (some store) cfg.seeds w

  abbrev new_oauth_service :
      Config → Option (Store W) → Outcome OauthClient → W → Outcome (Service W) × W
  new_oauth_service cfg store (inr e) w = (inr e, w)
  new_oauth_service cfg store (inl client) w =
      seeded (service_of mode_oauth store none (some client)) store cfg.seeds w

  abbrev new_service_in : Mode → Config → Option (Store W) → W → Outcome (Service W) × W
  new_service_in mode_disabled cfg store w = (inl (service_of mode_disabled store none none), w)
  new_service_in mode_jwt cfg none w = (inr (plain (txt "jwt mode requires a user store")), w)
  new_service_in mode_jwt cfg (some store) w = new_jwt_service cfg store w
  new_service_in mode_oauth cfg store w = new_oauth_service cfg store cfg.new_oauth_client w
  new_service_in (mode_other t) cfg store w =
      (inr (plain (txt "unsupported auth mode: " ++ cfg.mode)), w)

  unfoldable pub new_service : Config → Option (Store W) → W → Outcome (Service W) × W
  unfolding mode_of_text new_jwt_manager apply_seeds
  new_service cfg store w = new_service_in (mode_of_text cfg.mode) cfg store w
