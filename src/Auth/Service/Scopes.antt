-- ===== src/Auth/Service/Scopes.antt =====
-- What the scopes of an introspected token add to the permissions of a local user.
use open_mcp_chain.Prelude.{
  ◌≡◌, refl, sym, ap, false, arith, Option, none, some, List, [], ◌∷◌, Text, inl,
}
use open_mcp_chain.Errors.Value.{nil}
use open_mcp_chain.Auth.Subject.{User, Subject, Seed, Set, normalise, has_permission, clone}
use open_mcp_chain.Auth.MemoryStore.{
  MemoryStore, Sealed, loaded_subject, load_subject, find_user_by_username,
}
use open_mcp_chain.Auth.Service.{OauthSubject}
use open_mcp_chain.Auth.Service.Requests.{merge_permissions, oauth_subject_in, memory_store}

-- A subject has the same permissions whatever scopes are merged into it, once its set is built.
merged_permission :
    (perms : List Text) (s : Subject) (set : Set) (p : Text)
    → s.permissions_set ≡ some set
    → (has_permission (normalise (merge_permissions perms s)) p).0 ≡ (has_permission s p).0
unfolding merge_permissions has_permission normalise
merged_permission [] s set p h = rw h refl
merged_permission (q ∷ qs) s set p h = rw h refl

abbrev subject_in : Option Subject → Option Set
subject_in none = none
subject_in (some s) = s.permissions_set

loaded-set :
    (o : Option Subject) (s : Subject)
    → loaded_subject o ≡ (some s, nil)
    → (set : Set) × (s.permissions_set ≡ some set)
unfolding loaded_subject clone normalise
loaded-set none s h = ground arith
loaded-set (some t) s h = (_, sym (ap (λ r. subject_in r.0) h))

-- With the in-memory store, the scopes of an active token of a user who is enabled give no permission: the
-- subject that verifyOAuth returns has the permissions that the user has in the store, and no others.
pub verify_oauth-scopes :
    (sealed : Seed → Sealed) (username : Text) (info : OauthSubject) (w : MemoryStore) (user : User)
    (s : Subject)
    → find_user_by_username username w ≡ (some user, nil)
    → load_subject user.id w ≡ (some s, nil)
    → s.disabled ≡ false
    → (subject : Subject) × (oauth_subject_in (memory_store sealed) username info w ≡ inl subject)
      × ((p : Text) → (has_permission subject p).0 ≡ (has_permission s p).0)
unfolding oauth_subject_in memory_store load_subject
verify_oauth-scopes sealed username info w user s known loaded unlocked =
    let (set, built) = loaded-set _ s loaded in
    (
      normalise (merge_permissions info.permissions s),
      rw (known, loaded, unlocked),
      λ p. merged_permission info.permissions s set p built,
    )
