-- ===== src/Auth/Subject.antt =====
-- internal/auth/types.go: subjects and what they may do. A nil subject is `none`.
pub mod Permits
use open_mcp_chain.Prelude.{
  ℕ, Bool, true, false, not, Option, none, some, List, [], ◌∷◌, ◌++◌, Text, txt, text_eq, is_empty,
  trim_space, to_lower, if◌then◌else◌,
}
use open_mcp_chain.Prelude.Map.{Map, lookup, insert}
use open_mcp_chain.Errors.Value.{GoError, nil, plain, wrapped}

abbrev pub err_invalid_token : GoError
err_invalid_token = plain (txt "invalid token")

abbrev pub err_permission_denied : GoError
err_permission_denied = plain (txt "permission denied")

abbrev pub err_subject_revoked : GoError
err_subject_revoked = plain (txt "subject is disabled")

-- Ids are positive and do not overflow.
pub record User : Type 0 where
  pub id : ℕ
  pub username : Text
  pub password_hash : Text
  pub disabled : Bool

-- A map[string]struct{}.
abbrev pub Set : Type 0
Set = Map Text (Unit {0})

-- `permissions_set` is `none` before the first `normalise`.
pub record Subject : Type 0 where
  pub id : ℕ
  pub username : Text
  pub roles : List Text
  pub permissions : List Text
  pub disabled : Bool
  pub permissions_set : Option Set

abbrev pub normalised : Text → Text
normalised text = to_lower (trim_space text)

-- the loop of `normalise`
unfoldable pub add_permissions : Set → List Text → Set
add_permissions set [] = set
add_permissions set (perm ∷ perms) = add_permissions (insert (normalised perm) tt set) perms

abbrev filled : Option Set → List Text → Set
filled none perms = add_permissions [] perms
filled (some set) perms = set

unfoldable pub normalise : Subject → Subject
unfolding add_permissions
normalise s = record s { permissions_set = some (filled s.permissions_set s.permissions) }

abbrev has_key : Option (Unit {0}) → Bool
has_key none = false
has_key (some _) = true

abbrev set_of : Option Set → Set
set_of none = []
set_of (some set) = set

-- whether the subject has the permission, and the subject with its set filled
unfoldable pub has_permission : Subject → Text → Bool × Subject
unfolding normalise
has_permission s permission =
    let s' = normalise s in
    (has_key (lookup (normalised permission) (set_of s'.permissions_set)), s')

-- the loop of Authorize
unfoldable pub authorize_all : List Text → Subject → GoError × Subject
unfolding has_permission
authorize_all [] s = (nil, s)
authorize_all (perm ∷ perms) s =
    let (held, s') = has_permission s perm in
    let rest = authorize_all perms s' in
    let skipped = authorize_all perms s in
    if is_empty perm
    then skipped
    else if not held
    then (wrapped (txt "permission denied: missing " ++ perm) err_permission_denied, s')
    else rest

unfoldable pub authorize : List Text → Option Subject → GoError × Option Subject
unfolding authorize_all
authorize perms none = (err_invalid_token, none)
authorize perms (some s) =
    let (e, s') = authorize_all perms s in
    if s.disabled then (err_subject_revoked, some s) else (e, some s')

-- The slices are copied and the set is built again.
unfoldable pub clone : Subject → Subject
unfolding normalise
clone s = normalise (record s { permissions_set = none })

pub record Seed : Type 0 where
  pub username : Text
  pub password : Text
  pub roles : List Text
  pub permissions : List Text
  pub disabled : Bool
