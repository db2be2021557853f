-- ===== src/Auth/Subject/Permits.antt =====
-- What Authorize allows.
use open_mcp_chain.Prelude.{
  ◌≡◌, refl, ◌∙◌, Bool, true, false, not, ◌&&◌, ◌||◌, none, some, List, [], ◌∷◌, map, Text, text_eq,
  is_empty, contains, arith,
}
use open_mcp_chain.Prelude.Map.{lookup, insert, lookup-insert}
use open_mcp_chain.Errors.Value.{is_nil}
use open_mcp_chain.Auth.Subject.{
  Set, Subject, normalised, has_key, filled, add_permissions, normalise, has_permission,
  authorize_all, authorize,
}

lookup-add_permissions :
    (set : Set) (perms : List Text) (k : Text)
    → has_key (lookup k (add_permissions set perms))
      ≡ (contains (map normalised perms) k || has_key (lookup k set))
unfolding add_permissions
lookup-add_permissions set [] k = refl
lookup-add_permissions set (perm ∷ perms) k = ground (
  arith,
  lookup-add_permissions (insert (normalised perm) tt set) perms k,
  lookup-insert (normalised perm) k tt set,
)

-- Whether a list of permissions holds all that are asked for; an empty one is not asked for.
abbrev pub holds_all : List Text → List Text → Bool
holds_all held [] = true
holds_all held (perm ∷ perms) =
    (is_empty perm || contains (map normalised held) (normalised perm)) && holds_all held perms

-- The set in effect holds the permissions.
abbrev Agrees : Subject → Type 0
Agrees s =
    (k : Text)
    → has_key (lookup k (filled s.permissions_set s.permissions))
      ≡ contains (map normalised s.permissions) k

authorize_all-holds_all :
    (perms : List Text) (s : Subject)
    → Agrees s
    → is_nil (authorize_all perms s).0 ≡ holds_all s.permissions perms
unfolding authorize_all has_permission normalise
authorize_all-holds_all [] s agree = refl
authorize_all-holds_all (perm ∷ perms) s agree = ground (
  arith,
  agree (normalised perm),
  authorize_all-holds_all perms s agree,
  authorize_all-holds_all perms (normalise s) agree,
)

or_false : (b : Bool) → (b || false) ≡ b
or_false true = refl
or_false false = refl

unset-Agrees : (s : Subject) → s.permissions_set ≡ none → Agrees s
unfolding lookup
unset-Agrees s h k = rw h (lookup-add_permissions [] s.permissions k ∙ or_false _)

-- A subject whose set is not built yet is authorised exactly if it is not disabled and each permission asked
-- for that is not the empty string is, in lower case and without surrounding blanks, one of its own.
pub authorize-holds_all :
    (perms : List Text) (s : Subject)
    → s.permissions_set ≡ none
    → is_nil (authorize perms (some s)).0 ≡ (not s.disabled && holds_all s.permissions perms)
unfolding authorize
authorize-holds_all perms s h = ground (arith, authorize_all-holds_all perms s (unset-Agrees s h))
