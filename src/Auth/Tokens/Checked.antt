-- ===== src/Auth/Tokens/Checked.antt =====
-- What a chain of steps that gives a value has passed, and what a token that Verify accepts shows.
use mathlib.Core.Path.{subst}
use open_mcp_chain.Prelude.{
  ℕ, ◌≤◌, ◌≡◌, refl, sym, ap, ◌∙◌, Bool, true, false, not, ◌⊎◌, Option, none, some, List, [], ◌∷◌,
  Text, text_eq, text_beq_iff, ◌==◌, arith, if◌then◌else◌, inl, inr,
}
use open_mcp_chain.Errors.Value.{GoError}
use open_mcp_chain.Auth.Subject.{err_invalid_token}
use open_mcp_chain.Auth.Tokens.{
  Outcome, ◌>>=◌, labelled, Crypto, JwtClaims, JwtManager, or_invalid, signature, is_expired,
  differs_in_issuer, differs_in_audience, check_claims, verify_parts, verify_split,
}

abbrev pub value_or : {A : Type 0} → A → Outcome A → A
value_or d (inl a) = a
value_or d (inr _) = d

-- A chain that gives a value passed its first step.
pub bind-inl :
    {A B : Type 0} (o : Outcome A) (f : A → Outcome B) (b : B)
    → (o >>= f) ≡ inl b
    → (a : A) × (o ≡ inl a) × (f a ≡ inl b)
bind-inl (inl a) f b h = (a, refl, h)
bind-inl (inr e) f b h = ground arith

-- A test that refuses did not.
pub unless-inl :
    {A : Type 0} (t : Bool) (e : GoError) (o : Outcome A) (a : A)
    → (if t then inr e else o) ≡ inl a
    → (t ≡ false) × (o ≡ inl a)
unless-inl true e o a h = ground arith
unless-inl false e o a h = (refl, h)

pub labelled-inl :
    {A : Type 0} (label : Text) (o : Outcome A) (a : A) → labelled label o ≡ inl a → o ≡ inl a
labelled-inl label (inl b) a h = h
labelled-inl label (inr e) a h = ground arith

pub or_invalid-inl : {A : Type 0} (o : Option A) (a : A) → or_invalid o ≡ inl a → o ≡ some a
or_invalid-inl none a h = ground arith
or_invalid-inl (some b) a h = ap (λ r. some (value_or b r)) h

-- The claims that are accepted are those that were read, and have not expired.
pub check_claims-inl :
    (m : JwtManager) (now : ℕ) (claims claims' : JwtClaims)
    → check_claims m now claims ≡ inl claims'
    → (claims ≡ claims') × ((claims.expires_at ≡ 0) ⊎ (now ≤ claims.expires_at))
unfolding check_claims
check_claims-inl m now claims claims' h =
    let last : Outcome JwtClaims = inl claims in
    let third : Outcome JwtClaims =
      if differs_in_audience m claims then inr err_invalid_token else last in
    let second : Outcome JwtClaims =
      if differs_in_issuer m claims then inr err_invalid_token else third in
    let (alive, h1) = unless-inl (is_expired now claims) err_invalid_token second claims' h in
    let (_, h2) = unless-inl (differs_in_issuer m claims) err_invalid_token third claims' h1 in
    let (_, h3) = unless-inl (differs_in_audience m claims) err_invalid_token last claims' h2 in
    (ap (value_or claims) h3, ground (arith, alive))

module _ (crypto : Crypto) (m : JwtManager) (now : ℕ) (claims : JwtClaims) where
  -- A token in three parts, with the manager's signature of the first two, whose second holds the claims.
  abbrev pub IsSigned : List Text → Type 0
  IsSigned parts =
      (header : Text) × (payload : Text) × (signed : Text) × (bytes : Text) × (parts
        ≡ header ∷ payload ∷ signed ∷ [])
      × (crypto.decode_url signed ≡ some (signature crypto m header payload))
      × (crypto.decode_url payload ≡ some bytes)
      × (crypto.unmarshal bytes ≡ some claims)

  verify_parts-inl :
      (header payload signed : Text)
      → verify_parts crypto m now header payload signed ≡ inl claims
      → IsSigned (header ∷ payload ∷ signed ∷ [])
        × ((claims.expires_at ≡ 0) ⊎ (now ≤ claims.expires_at))
  unfolding verify_parts
  verify_parts-inl header payload signed h =
      let expected = signature crypto m header payload in
      let parse : Text → Outcome JwtClaims =
        λ bytes. or_invalid (crypto.unmarshal bytes) >>= check_claims m now in
      let unpack : Outcome JwtClaims = or_invalid (crypto.decode_url payload) >>= parse in
      let compare : Text → Outcome JwtClaims =
        λ actual. if not (expected == actual) then inr err_invalid_token else unpack in
      let (actual, decoded, h1) =
        bind-inl (or_invalid (crypto.decode_url signed)) compare claims h in
      let (same, h2) = unless-inl (not (expected == actual)) err_invalid_token unpack claims h1 in
      let (bytes, unpacked, h3) =
        bind-inl (or_invalid (crypto.decode_url payload)) parse claims h2 in
      let (read, parsed, h4) =
        bind-inl (or_invalid (crypto.unmarshal bytes)) (check_claims m now) claims h3 in
      let (kept, alive) = check_claims-inl m now read claims h4 in
      let equal : expected ≡ actual = (text_beq_iff expected actual).0 (ground (arith, same)) in
      (
        (
          header,
          payload,
          signed,
          bytes,
          refl,
          or_invalid-inl _ actual decoded ∙ ap some (sym equal),
          or_invalid-inl _ bytes unpacked,
          or_invalid-inl _ read parsed ∙ ap some kept,
        ),
        subst (λ (c : JwtClaims). (c.expires_at ≡ 0) ⊎ (now ≤ c.expires_at)) kept alive,
      )

  pub verify_split-inl :
      (parts : List Text)
      → verify_split crypto m now parts ≡ inl claims
      → IsSigned parts × ((claims.expires_at ≡ 0) ⊎ (now ≤ claims.expires_at))
  verify_split-inl [] h = ground arith
  verify_split-inl (a ∷ []) h = ground arith
  verify_split-inl (a ∷ b ∷ []) h = ground arith
  verify_split-inl (a ∷ b ∷ c ∷ []) h = verify_parts-inl a b c h
  verify_split-inl (a ∷ b ∷ c ∷ d ∷ rest) h = ground arith
