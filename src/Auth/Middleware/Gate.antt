-- ===== src/Auth/Middleware/Gate.antt =====
-- What a request that reaches the handler has shown.
use open_mcp_chain.Prelude.{
  ℕ, ◌≤◌, ◌≡◌, refl, ap, ◌∙◌, Bool, true, false, not, ◌⊎◌, Option, none, some, List, [], ◌∷◌, Text,
  txt, text_eq, text_beq_iff, ◌==◌, Bool-cases, arith, if◌then◌else◌, inl, inr, trim_space,
}
use open_mcp_chain.Prelude.Map.{Map}
use open_mcp_chain.Prelude.Int.{ℤ}
use open_mcp_chain.Prelude.Parse.{atoi, split_on, split_once}
use open_mcp_chain.Errors.Value.{GoError, is_nil}
use open_mcp_chain.Auth.Subject.{Subject, err_invalid_token, authorize, normalise}
use open_mcp_chain.Auth.Tokens.{
  Outcome, ◌>>=◌, labelled, Crypto, JwtClaims, JwtManager, verify, token_type_access,
}
use open_mcp_chain.Auth.Service.{mode_jwt, Store, Service}
use open_mcp_chain.Auth.Service.Requests.{
  is_disabled, enabled, id_of, loaded_for, verify_jwt, verify_jwt_by, verify_in, token_in,
  authenticate_request,
}
use open_mcp_chain.Auth.Middleware.{
  served, required, after_authorize, after_authenticate, middleware,
}
use open_mcp_chain.Auth.Tokens.Checked.{
  value_or, bind-inl, unless-inl, labelled-inl, verify_split-inl, IsSigned,
}

enabled-inl : (s t : Subject) → enabled s ≡ inl t → (s.disabled ≡ false) × (s ≡ t)
enabled-inl s t h =
    let (on, same) = unless-inl s.disabled _ (inl s) t h in (on, ap (value_or s) same)

id_of-inl : (o : Option ℤ) (n : ℤ) → id_of o ≡ inl n → o ≡ some n
id_of-inl none n h = ground arith
id_of-inl (some b) n h = ap (λ r. some (value_or b r)) h

-- The token authenticates the subject in mode jwt: it has the manager's signature, is an access token, has not
-- expired, and names the subject that the store loads, which is not disabled.
pub record IsAuthentic {W : Type 0} (crypto : Crypto) (jwt : Option JwtManager)
    (users : Option (Store W)) (now : ℕ) (token : Text) (w : W) (subject : Subject) : Type 0 where
  pub manager : JwtManager
  pub store : Store W
  pub claims : JwtClaims
  pub id : ℤ
  pub loaded : Subject
  pub has_manager : jwt ≡ some manager
  pub has_store : users ≡ some store
  pub is_signed : IsSigned crypto manager now claims (split_on b'.' token)
  pub is_alive : (claims.expires_at ≡ 0) ⊎ (now ≤ claims.expires_at)
  pub is_access : claims.token_type ≡ token_type_access
  pub names_id : atoi claims.subject ≡ some id
  pub loads : store.load_subject id w ≡ inl loaded
  pub is_enabled : loaded.disabled ≡ false
  pub is_subject : normalise loaded ≡ subject

loaded_for-inl :
    {W : Type 0} (users : Option (Store W)) (id : ℤ) (w : W) (subject : Subject)
    → loaded_for users id w ≡ inl subject
    → (store : Store W) × (loaded : Subject) × (users ≡ some store)
      × (store.load_subject id w ≡ inl loaded)
      × (loaded.disabled ≡ false)
      × (normalise loaded ≡ subject)
loaded_for-inl none id w subject h = ground arith
loaded_for-inl (some store) id w subject h =
    let finish : Subject → Outcome Subject = λ s. inl (normalise s) in
    let check : Subject → Outcome Subject = λ s. enabled s >>= finish in
    let (loaded, found, h1) =
      bind-inl (labelled (txt "load subject") (store.load_subject id w)) check subject h in
    let (kept, on, h2) = bind-inl (enabled loaded) finish subject h1 in
    let (held, same) = enabled-inl loaded kept on in
    (
      store,
      loaded,
      refl,
      labelled-inl (txt "load subject") (store.load_subject id w) loaded found,
      held,
      ap normalise same ∙ ap (value_or subject) h2,
    )

verify_jwt_by-inl :
    {W : Type 0} (crypto : Crypto) (jwt : Option JwtManager) (users : Option (Store W)) (now : ℕ)
    (token : Text) (w : W) (subject : Subject)
    → verify_jwt_by crypto jwt users now token w ≡ inl subject
    → IsAuthentic crypto jwt users now token w subject
unfolding verify
verify_jwt_by-inl crypto none users now token w subject h = ground arith
verify_jwt_by-inl crypto (some m) users now token w subject h =
    let load : ℤ → Outcome Subject = λ id. loaded_for users id w in
    let named : JwtClaims → Outcome Subject = λ c. id_of (atoi c.subject) >>= load in
    let check : JwtClaims → Outcome Subject =
      λ c. if not (c.token_type == token_type_access) then inr err_invalid_token else named c in
    let (claims, good, h1) = bind-inl (verify crypto m now token) check subject h in
    let (access, h2) =
      unless-inl (not (claims.token_type == token_type_access)) err_invalid_token (named claims)
        subject h1 in
    let (id, read, h3) = bind-inl (id_of (atoi claims.subject)) load subject h2 in
    let (store, loaded, known, found, held, same) = loaded_for-inl users id w subject h3 in
    let (signed, alive) = verify_split-inl crypto m now claims (split_on b'.' token) good in
    record {
      manager = m;
      store = store;
      claims = claims;
      id = id;
      loaded = loaded;
      has_manager = refl;
      has_store = known;
      is_signed = signed;
      is_alive = alive;
      is_access = (text_beq_iff claims.token_type token_type_access).0 (ground (arith, access));
      names_id = id_of-inl (atoi claims.subject) id read;
      loads = found;
      is_enabled = held;
      is_subject = same;
    }

authenticated :
    {W : Type 0} (crypto : Crypto) (s : Service W) (now : ℕ) (authorization : Text) (w : W)
    (caller : Subject)
    → s.mode ≡ mode_jwt
    → authenticate_request crypto s now authorization w ≡ inl caller
    → (token : Text) × (token_in (split_once b' ' (trim_space authorization)) ≡ inl token)
      × IsAuthentic crypto s.jwt s.store now token w caller
unfolding authenticate_request verify_in verify_jwt
authenticated crypto s now authorization w caller mode h =
    let verify_token : Text → Outcome Subject =
      λ token. verify_jwt_by crypto s.jwt s.store now token w in
    let (token, found, h1) =
      bind-inl (token_in (split_once b' ' (trim_space authorization))) verify_token caller
        (rw mode at h) in
    (token, found, verify_jwt_by-inl crypto s.jwt s.store now token w caller h1)

after_authorize-served :
    (r : GoError × Option Subject) (in_context : Option Subject)
    → after_authorize r ≡ served in_context
    → is_nil r.0 ≡ true
after_authorize-served (e, subject) c h = elim (Bool-cases (is_nil e)) [
  | inl good ↦ good
  | inr bad ↦ ground (arith, h, bad)
]

not_skipped : {A : Type 0} (b : Bool) (x y z : A) → b ≡ false → (if b then x else y) ≡ z → y ≡ z
not_skipped true x y z h e = ground arith
not_skipped false x y z h e = e

authorized :
    (perms : List Text) (o : Outcome Subject) (in_context : Option Subject)
    → after_authenticate perms o ≡ served in_context
    → (caller : Subject) × (o ≡ inl caller)
      × ((perms ≡ []) ⊎ (is_nil (authorize perms (some caller)).0 ≡ true))
authorized perms (inr e) c h = ground arith
authorized [] (inl caller) c h = (caller, refl, inl refl)
authorized (p ∷ ps) (inl caller) c h =
    (caller, refl, inr (after_authorize-served (authorize (p ∷ ps) (some caller)) c h))

-- Behind a service of mode jwt, a request reaches the handler only with a bearer token that the service's manager
-- signed, of type access and not expired, whose subject the store loads and has not disabled; and with all
-- permissions that the method requires, where it requires any.
pub middleware-served :
    {W : Type 0} (crypto : Crypto) (s : Service W) (permissions : Map Text (List Text)) (now : ℕ)
    (method authorization : Text) (w : W) (in_context : Option Subject)
    → s.mode ≡ mode_jwt
    → middleware crypto s permissions now method authorization w ≡ served in_context
    → (token : Text) × (caller : Subject) × (token_in (split_once b' ' (trim_space authorization))
        ≡ inl token)
      × IsAuthentic crypto s.jwt s.store now token w caller
      × ((required permissions method ≡ [])
          ⊎ (is_nil (authorize (required permissions method) (some caller)).0 ≡ true))
unfolding middleware
middleware-served crypto s permissions now method authorization w in_context mode h =
    let (caller, found, allowed) =
      authorized (required permissions method) (authenticate_request crypto s now authorization w)
        in_context (not_skipped (is_disabled s.mode) (served none) _ _ (ap is_disabled mode) h) in
    let (token, held, authentic) = authenticated crypto s now authorization w caller mode found in
    (token, caller, held, authentic, allowed)
