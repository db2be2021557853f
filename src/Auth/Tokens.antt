-- ===== src/Auth/Tokens.antt =====
-- internal/auth/service.go: the tokens of jwtManager, and passwords. Base64, JSON, HMAC and SHA-256 come from
-- a `Crypto`. Times are in seconds since 1970, not before (int64 in the code); a lifetime is whole seconds, within time.Duration.
pub mod Signed
pub mod Checked
use Prim.Native.Nat.{◌+◌}
use open_mcp_chain.Prelude.{
  ℕ, Bool, true, false, not, ◌&&◌, ◌||◌, Option, none, some, List, [], ◌∷◌, ◌++◌, Text, txt,
  text_eq, ◌==◌, is_empty, trim_space, to_lower, eqb, ltb, if◌then◌else◌, ◌⊎◌, inl, inr,
}
use open_mcp_chain.Prelude.Parse.{join_with, split_on, split_once, format_int}
use open_mcp_chain.Errors.Value.{GoError, plain, wrapped, error_text}
use open_mcp_chain.Auth.Subject.{Subject, err_invalid_token, normalise}
use open_mcp_chain.Auth.MemoryStore.{Sealed}

-- A value, or an error that is not nil.
abbrev pub Outcome : Type 0 → Type 0
Outcome A = A ⊎ GoError

infixl 10 ◌>>=◌
abbrev pub ◌>>=◌ : {A B : Type 0} → Outcome A → (A → Outcome B) → Outcome B
inl a >>= f = f a
inr e >>= f = inr e

-- fmt.Errorf("%s: %w", label, err)
abbrev pub labelled : {A : Type 0} → Text → Outcome A → Outcome A
labelled label (inl a) = inl a
labelled label (inr e) = inr (wrapped (label ++ txt ": " ++ error_text e) e)

pub record JwtClaims : Type 0 where
  pub username : Text
  pub roles : List Text
  pub permissions : List Text
  pub token_type : Text
  pub subject : Text
  pub issuer : Text
  pub audience : List Text
  pub issued_at : ℕ
  pub expires_at : ℕ

-- base64.RawURLEncoding, base64.RawStdEncoding, encoding/json on claims, HMAC-SHA256 of a message under a
-- secret, and SHA-256.
pub record Crypto : Type 0 where
  pub encode_url : Text → Text
  pub decode_url : Text → Option Text
  pub encode_std : Text → Text
  pub decode_std : Text → Option Text
  pub marshal : JwtClaims → Outcome Text
  pub unmarshal : Text → Option JwtClaims
  pub mac : Text → Text → Text
  pub sum : Text → Text

pub record JwtManager : Type 0 where
  pub secret : Text
  pub issuer : Text
  pub audience : List Text
  pub access_ttl : ℕ
  pub refresh_ttl : ℕ

pub record TokenPair : Type 0 where
  pub access_token : Text
  pub expires_in : ℕ
  pub refresh_token : Text
  pub refresh_expires_in : ℕ
  pub token_type : Text
  pub subject : Option Subject
  pub granted_scopes : List Text

abbrev pub token_type_access : Text
token_type_access = txt "access"

abbrev pub token_type_refresh : Text
token_type_refresh = txt "refresh"

abbrev pub jwt_header_json : Text
jwt_header_json = txt "{\"alg\":\"HS256\",\"typ\":\"JWT\"}"

-- strings.EqualFold, by the case of the letters A to Z
abbrev pub equal_fold : Text → Text → Bool
equal_fold s t = to_lower s == to_lower t

unfoldable pub access_claims : JwtManager → Subject → ℕ → JwtClaims
access_claims m s now = record {
  username = s.username;
  roles = s.roles;
  permissions = s.permissions;
  token_type = token_type_access;
  subject = format_int s.id;
  issuer = m.issuer;
  audience = m.audience;
  issued_at = now;
  expires_at = now + m.access_ttl;
}

unfoldable pub refresh_claims : JwtManager → Subject → ℕ → JwtClaims
refresh_claims m s now = record {
  username = s.username;
  roles = s.roles;
  permissions = [];
  token_type = token_type_refresh;
  subject = format_int s.id;
  issuer = m.issuer;
  audience = m.audience;
  issued_at = now;
  expires_at = now + m.refresh_ttl;
}

-- the inner loop over the audiences that a token names
unfoldable pub names_audience : Text → List Text → Bool
names_audience expected [] = false
names_audience expected (provided ∷ rest) =
    equal_fold (trim_space expected) (trim_space provided) || names_audience expected rest

-- the outer loop, over those that the manager expects
unfoldable pub audience_matched : List Text → List Text → Bool
unfolding names_audience
audience_matched [] provided = false
audience_matched (expected ∷ rest) provided =
    names_audience expected provided || audience_matched rest provided

abbrev pub none_of : List Text → Bool
none_of [] = true
none_of _ = false

-- the three tests of Verify on the claims
abbrev pub is_expired : ℕ → JwtClaims → Bool
is_expired now claims = not (eqb claims.expires_at 0) && ltb claims.expires_at now

abbrev pub differs_in_issuer : JwtManager → JwtClaims → Bool
differs_in_issuer m claims =
    not (is_empty m.issuer)
    && not (is_empty claims.issuer)
    && not (equal_fold m.issuer claims.issuer)

unfoldable pub differs_in_audience : JwtManager → JwtClaims → Bool
unfolding audience_matched
differs_in_audience m claims =
    not (none_of m.audience)
    && not (none_of claims.audience)
    && not (audience_matched m.audience claims.audience)

unfoldable pub check_claims : JwtManager → ℕ → JwtClaims → Outcome JwtClaims
unfolding differs_in_audience
check_claims m now claims =
    if is_expired now claims
    then inr err_invalid_token
    else if differs_in_issuer m claims
    then inr err_invalid_token
    else if differs_in_audience m claims
    then inr err_invalid_token
    else inl claims

abbrev pub or_invalid : {A : Type 0} → Option A → Outcome A
or_invalid none = inr err_invalid_token
or_invalid (some a) = inl a

module _ (crypto : Crypto) where
  unfoldable pub encoded_jwt_header : Text
  encoded_jwt_header = crypto.encode_url jwt_header_json

  unfoldable pub signature : JwtManager → Text → Text → Text
  signature m header payload = crypto.mac m.secret (header ++ txt "." ++ payload)

  unfoldable pub sign : JwtManager → JwtClaims → Outcome Text
  unfolding encoded_jwt_header signature
  sign m claims = do
    payload_bytes ← labelled (txt "encode claims") (crypto.marshal claims)
    let payload = crypto.encode_url payload_bytes
    inl (
        join_with b'.' (
          encoded_jwt_header
          ∷ payload
          ∷ crypto.encode_url (signature m encoded_jwt_header payload)
          ∷ []))

  unfoldable pub generate : JwtManager → ℕ → Option Subject → Outcome TokenPair
  unfolding sign access_claims refresh_claims
  generate m now none = inr (plain (txt "subject required"))
  generate m now (some subject) = do
    access ← labelled (txt "sign access token") (sign m (access_claims m subject now))
    refresh ← labelled (txt "sign refresh token") (sign m (refresh_claims m subject now))
    inl (record {
      access_token = access;
      expires_in = m.access_ttl;
      refresh_token = refresh;
      refresh_expires_in = m.refresh_ttl;
      token_type = txt "Bearer";
      subject = none;
      granted_scopes = [];
    })

  -- Verify on the three parts of a token
  unfoldable pub verify_parts : JwtManager → ℕ → Text → Text → Text → Outcome JwtClaims
  unfolding signature check_claims
  verify_parts m now header payload signed = do
    actual ← or_invalid (crypto.decode_url signed)
    if not (signature m header payload == actual) then inr err_invalid_token else (do
      bytes ← or_invalid (crypto.decode_url payload)
      claims ← or_invalid (crypto.unmarshal bytes)
      check_claims m now claims)

  abbrev pub verify_split : JwtManager → ℕ → List Text → Outcome JwtClaims
  verify_split m now (header ∷ payload ∷ signed ∷ []) = verify_parts m now header payload signed
  verify_split m now _ = inr err_invalid_token

  unfoldable pub verify : JwtManager → ℕ → Text → Outcome JwtClaims
  unfolding verify_parts split_on
  verify m now token = verify_split m now (split_on b'.' token)

  abbrev digest_matches : Text → Option Text → Option Text → Bool
  digest_matches password (some salt) (some expected) = expected == crypto.sum (salt ++ password)
  digest_matches password _ _ = false

  abbrev verify_sealed : Text → Option (Text × Text) → Bool
  verify_sealed password none = false
  verify_sealed password (some (salt, digest)) =
      digest_matches password (crypto.decode_std salt) (crypto.decode_std digest)

  unfoldable pub verify_password : Text → Text → Bool
  unfolding split_once
  verify_password hashed password =
      if is_empty hashed then false else verify_sealed password (split_once b':' hashed)

  -- hashPassword from the salt on, where rand.Read gives one
  unfoldable pub seal : Text → Outcome Text → Sealed
  seal password (inr e) = inr e
  seal password (inl salt) =
      inl (crypto.encode_std salt ++ b':' ∷ crypto.encode_std (crypto.sum (salt ++ password)))
