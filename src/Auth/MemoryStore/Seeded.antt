-- ===== src/Auth/MemoryStore/Seeded.antt =====
-- What a seed changes, and what it leaves.
use mathlib.Core.Path.{subst}
use open_mcp_chain.Prelude.{
  ◌≡◌, refl, ap, ◌∙◌, false, some, Text, text_eq, nat_eq, ◌==◌, Bool-cases, Option-cases, ◌⊎◌, inl,
  inr, is_empty, trim_space,
}
use open_mcp_chain.Prelude.Map.{lookup, lookup-insert_self, lookup-insert_ne}
use open_mcp_chain.Errors.Value.{GoError, nil}
use open_mcp_chain.Auth.Subject.{User, Seed, normalise, clone}
use open_mcp_chain.Auth.MemoryStore.{
  MemoryStore, Sealed, hash_password, subject_of, user_of, seed_id, write_seed, apply_seed,
  find_user_by_username, load_subject, found_user, loaded_subject, planted, plant,
}
use open_mcp_chain.Auth.MemoryStore.Linked.{IsLinked, seed_id-distinct}

abbrev IsSeeded : Seed → Text → Text → MemoryStore → Type 0
IsSeeded seed name hashed after =
    (u : User) × (found_user (lookup name after.users) ≡ (some u, nil))
    × (u.password_hash ≡ hashed)
    × (u.disabled ≡ seed.disabled)
    × (load_subject u.id after ≡ (some (subject_of u.id name seed), nil))

write_seed-IsSeeded :
    (seed : Seed) (name hashed : Text) (store : MemoryStore)
    → IsSeeded seed name hashed (write_seed seed name hashed store)
unfolding write_seed load_subject loaded_subject found_user clone normalise subject_of
write_seed-IsSeeded seed name hashed store =
    let id = (seed_id (lookup name store.users) store.next_id).0 in
    (
      user_of id name hashed seed.disabled,
      ap found_user (lookup-insert_self name (user_of id name hashed seed.disabled) store.users),
      refl,
      refl,
      ap loaded_subject (lookup-insert_self id (subject_of id name seed) store.by_id),
    )

apply_seed-write_seed :
    (seed : Seed) (hashed : Text) (store : MemoryStore)
    → is_empty (trim_space seed.username) ≡ false
    → is_empty (trim_space seed.password) ≡ false
    → apply_seed seed (inl hashed) store
      ≡ (nil, write_seed seed (trim_space seed.username) hashed store)
unfolding apply_seed hash_password
apply_seed-write_seed seed hashed store named secret = rw (named, secret) refl

-- ApplySeed of a seed with a user name and a password, for which the salt and digest give a hash: there is no
-- error; the user is then found by the seed's name, with or without blanks around it, and has the hash and
-- the state of the seed; and the subject of the user's id is the one that the seed describes.
pub apply_seed-found :
    (seed : Seed) (hashed : Text) (store : MemoryStore)
    → is_empty (trim_space seed.username) ≡ false
    → is_empty (trim_space seed.password) ≡ false
    → let (e, store') = apply_seed seed (inl hashed) store in
      (e ≡ nil)
      × (u : User) × (find_user_by_username seed.username store' ≡ (some u, nil))
      × (u.password_hash ≡ hashed)
      × (u.disabled ≡ seed.disabled)
      × (load_subject u.id store' ≡ (some (subject_of u.id (trim_space seed.username) seed), nil))
unfolding find_user_by_username
apply_seed-found seed hashed store named secret =
    let (u, found, hash, state, subject) =
      write_seed-IsSeeded seed (trim_space seed.username) hashed store in
    rw (apply_seed-write_seed seed hashed store named secret) (refl, u, found, hash, state, subject)

module _ (store : MemoryStore) (linked : IsLinked store) (j : Text) (u : User)
    (found : lookup j store.users ≡ some u) where
  abbrev Kept : MemoryStore → Type 0
  Kept after = (lookup j after.users ≡ some u) × (load_subject u.id after ≡ load_subject u.id store)

  write_seed-Kept :
      (seed : Seed) (name hashed : Text)
      → (name == j) ≡ false
      → Kept (write_seed seed name hashed store)
  unfolding write_seed load_subject loaded_subject
  write_seed-Kept seed name hashed apart =
      let id = (seed_id (lookup name store.users) store.next_id).0 in
      let distinct = seed_id-distinct store name j u linked found apart in
      (
        lookup-insert_ne name j (user_of id name hashed seed.disabled) store.users apart ∙ found,
        ap loaded_subject (lookup-insert_ne id u.id (subject_of id name seed) store.by_id distinct),
      )

  -- On a linked store, a seed leaves the users of other names as they are, and the subjects of their ids,
  -- whatever ApplySeed returns.
  pub apply_seed-others :
      (seed : Seed) (sealed : Sealed)
      → (trim_space seed.username == j) ≡ false
      → (lookup j (apply_seed seed sealed store).1.users ≡ some u)
        × (load_subject u.id (apply_seed seed sealed store).1 ≡ load_subject u.id store)
  unfolding apply_seed
  apply_seed-others seed sealed apart = elim (Bool-cases (is_empty (trim_space seed.username))) [
    | inl blank ↦ rw blank (found, refl)
    | inr named ↦ rw named (sealing (hash_password seed.password sealed))
  ]
    where
      sealing :
          (hash : Sealed)
          → Kept
              (elim hash as (λ h. GoError × MemoryStore) [
                | inr err ↦ (err, store)
                | inl hashed ↦ (nil, write_seed seed (trim_space seed.username) hashed store)
              ]).1
      sealing (inl hashed) = write_seed-Kept seed (trim_space seed.username) hashed apart
      sealing (inr err) = (found, refl)

module _ (seed : Seed) (store : MemoryStore) where
  -- The name of the seed finds what it found before.
  abbrev Unseen : MemoryStore ⊎ GoError → Type 0
  Unseen (inl after) =
      lookup (trim_space seed.username) after.users ≡ lookup (trim_space seed.username) store.users
  Unseen (inr err) = Unit

  planted-Unseen :
      (hash : Sealed)
      → (seed.username == trim_space seed.username) ≡ false
      → Unseen (planted hash seed store)
  unfolding planted
  planted-Unseen (inr err) blanks = tt
  planted-Unseen (inl hashed) blanks =
      lookup-insert_ne seed.username (trim_space seed.username)
        (user_of store.next_id seed.username hashed seed.disabled) store.users blanks

  plant-Unseen :
      (sealed : Sealed)
      → (seed.username == trim_space seed.username) ≡ false
      → Unseen (plant seed sealed store)
  unfolding plant
  plant-Unseen sealed blanks = elim (Bool-cases (is_empty (trim_space seed.username))) [
    | inl empty ↦ rw empty refl
    | inr named ↦ elim (Option-cases (lookup seed.username store.users)) [
      | inl free ↦ rw (named, free) (planted-Unseen (hash_password seed.password sealed) blanks)
      | inr (u, taken) ↦ rw (named, taken) refl
    ]
  ]

-- NewMemoryStore takes a seed's name as it is, and FindUserByUsername looks without the blanks around it: a
-- seed whose name has blanks around it adds nothing to what the name finds.
pub plant-unseen :
    (seed : Seed) (sealed : Sealed) (store store' : MemoryStore)
    → (seed.username == trim_space seed.username) ≡ false
    → plant seed sealed store ≡ inl store'
    → find_user_by_username seed.username store' ≡ find_user_by_username seed.username store
unfolding find_user_by_username
plant-unseen seed sealed store store' blanks h =
    ap found_user (subst (Unseen seed store) h (plant-Unseen seed store sealed blanks))
