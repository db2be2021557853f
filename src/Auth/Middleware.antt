-- ===== src/Auth/Middleware.antt =====
-- internal/auth/middleware.go: whether a request reaches the handler behind the middleware, and the subject in its
-- context. The audit log is left out. Errors of errors.New are told apart by their texts.
pub mod Gate
use open_mcp_chain.Prelude.{
  ℕ, Bool, true, false, Option, none, some, List, [], ◌∷◌, Text, txt, text_eq, ◌==◌, if◌then◌else◌,
  inl, inr,
}
use open_mcp_chain.Prelude.Map.{Map, lookup}
use open_mcp_chain.Errors.Value.{GoError, plain, is_nil}
use open_mcp_chain.Auth.Subject.{
  Subject, err_permission_denied, err_subject_revoked, authorize, normalise,
}
use open_mcp_chain.Auth.Tokens.{Outcome, Crypto}
use open_mcp_chain.Auth.Service.{Service}
use open_mcp_chain.Auth.Service.Requests.{is_disabled, authenticate_request}

-- The response is an error of this status, or the handler serves the request with the subject in the context.
pub data Reply : Type 0 where
  refused : ℕ → Reply
  served : Option Subject → Reply

abbrev pub same_error : GoError → GoError → Bool
same_error (plain s) (plain t) = s == t
same_error _ _ = false

-- The other cases of the switch give 401 as well.
unfoldable pub refusal_status : GoError → ℕ
refusal_status e =
    if same_error e err_permission_denied
    then 403
    else if same_error e err_subject_revoked
    then 403
    else 401

abbrev given : Option (List Text) → List Text
given none = []
given (some perms) = perms

abbrev or_any : List Text → List Text → List Text
or_any [] any = any
or_any (p ∷ ps) any = p ∷ ps

unfoldable pub required : Map Text (List Text) → Text → List Text
required permissions method =
    or_any (given (lookup method permissions)) (given (lookup (txt "*") permissions))

-- WithSubject
abbrev pub with_subject : Option Subject → Option Subject
with_subject none = none
with_subject (some s) = some (normalise s)

abbrev pub after_authorize : GoError × Option Subject → Reply
after_authorize (e, subject) = if is_nil e then served (with_subject subject) else refused 403

-- Authorize with no permission would pass any enabled subject; it is not called then.
abbrev pub authorize_for : List Text → Subject → Reply
authorize_for [] subject = served (with_subject (some subject))
authorize_for (p ∷ ps) subject = after_authorize (authorize (p ∷ ps) (some subject))

abbrev pub after_authenticate : List Text → Outcome Subject → Reply
after_authenticate perms (inr e) = refused (refusal_status e)
after_authenticate perms (inl subject) = authorize_for perms subject

unfoldable pub middleware :
    {W : Type 0} → Crypto → Service W → Map Text (List Text) → ℕ → Text → Text → W → Reply
middleware crypto s permissions now method authorization w =
    if is_disabled s.mode
    then served none
    else after_authenticate (required permissions method)
        (authenticate_request crypto s now authorization w)
