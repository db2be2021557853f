-- ===== src/Auth/MemoryStore.antt =====
-- internal/auth/memory_store.go. A nil map holds nothing. Each operation is one critical section.
pub mod Linked
pub mod Seeded
use Prim.Native.Nat.{◌+◌}
use open_mcp_chain.Prelude.{
  ℕ, Bool, true, false, Option, none, some, List, [], ◌∷◌, Text, txt, text_eq, nat_eq, is_empty,
  trim_space, to_lower, text_ltb, eqb, map, if◌then◌else◌, ◌⊎◌, inl, inr,
}
use open_mcp_chain.Prelude.Map.{Map, lookup, insert}
use open_mcp_chain.Prelude.Sort.{sort_slice}
use open_mcp_chain.Errors.Value.{GoError, nil, plain}
use open_mcp_chain.Auth.Subject.{User, Subject, Seed, Set, normalise, clone}

pub record MemoryStore : Type 0 where
  pub users : Map Text User
  pub by_id : Map ℕ Subject
  pub next_id : ℕ

-- the first loop of dedupeStrings
unfoldable pub seen_strings : Set → List Text → Set
seen_strings seen [] = seen
seen_strings seen (value ∷ values) =
    let value' = trim_space value in
    if is_empty value'
    then seen_strings seen values
    else seen_strings (insert (to_lower value') tt seen) values

unfoldable pub dedupe_strings : List Text → List Text
unfolding seen_strings sort_slice
dedupe_strings values = sort_slice text_ltb (map (λ e. e.0) (seen_strings [] values))

-- What the salt and the digest of one call of HashPassword give: a hash, or an error.
abbrev pub Sealed : Type 0
Sealed = Text ⊎ GoError

unfoldable pub hash_password : Text → Sealed → Sealed
hash_password password sealed =
    if is_empty (trim_space password) then inr (plain (txt "password cannot be empty")) else sealed

-- the subject of a seed
unfoldable pub subject_of : ℕ → Text → Seed → Subject
unfolding dedupe_strings normalise
subject_of id username seed = normalise (record {
  id = id;
  username = username;
  roles = dedupe_strings seed.roles;
  permissions = dedupe_strings seed.permissions;
  disabled = seed.disabled;
  permissions_set = none;
})

abbrev user_of : ℕ → Text → Text → Bool → User
user_of id username hash disabled = record {
  id = id;
  username = username;
  password_hash = hash;
  disabled = disabled;
}

-- from the hash of the password on
unfoldable pub planted : Sealed → Seed → MemoryStore → MemoryStore ⊎ GoError
unfolding subject_of
planted (inr err) seed store = inr err
planted (inl hashed) seed store = inl (record {
  users =
      insert seed.username (user_of store.next_id seed.username hashed seed.disabled) store.users;
  by_id = insert store.next_id (subject_of store.next_id seed.username seed) store.by_id;
  next_id = store.next_id + 1;
})

-- one seed of NewMemoryStore
unfoldable pub plant : Seed → Sealed → MemoryStore → MemoryStore ⊎ GoError
unfolding planted hash_password
plant seed sealed store =
    if is_empty (trim_space seed.username)
    then inl store
    else elim (lookup seed.username store.users) [
      | some _ ↦ inl store
      | none ↦ planted (hash_password seed.password sealed) seed store
    ]

-- the loop of NewMemoryStore
unfoldable pub plant_all : List (Seed × Sealed) → MemoryStore → MemoryStore ⊎ GoError
unfolding plant
plant_all [] store = inl store
plant_all ((seed, sealed) ∷ seeds) store = elim (plant seed sealed store) [
  | inr err ↦ inr err
  | inl store' ↦ plant_all seeds store'
]

abbrev pub empty_store : MemoryStore
empty_store = record { users = []; by_id = []; next_id = 1 }

unfoldable pub new_memory_store : List (Seed × Sealed) → MemoryStore ⊎ GoError
unfolding plant_all
new_memory_store seeds = plant_all seeds empty_store

-- the id of the user that a seed writes, and the counter after it
unfoldable pub seed_id : Option User → ℕ → ℕ × ℕ
seed_id (some user) next_id = (user.id, next_id)
seed_id none next_id = let id = if eqb next_id 0 then 1 else next_id in (id, id + 1)

-- the writes of ApplySeed
unfoldable pub write_seed : Seed → Text → Text → MemoryStore → MemoryStore
unfolding seed_id subject_of
write_seed seed username hashed store =
    let (id, next_id) = seed_id (lookup username store.users) store.next_id in
    record {
      users = insert username (user_of id username hashed seed.disabled) store.users;
      by_id = insert id (subject_of id username seed) store.by_id;
      next_id = next_id;
    }

unfoldable pub apply_seed : Seed → Sealed → MemoryStore → GoError × MemoryStore
unfolding write_seed hash_password
apply_seed seed sealed store =
    let username = trim_space seed.username in
    if is_empty username
    then (plain (txt "seed username cannot be empty"), store)
    else elim (hash_password seed.password sealed) [
      | inr err ↦ (err, store)
      | inl hashed ↦ (nil, write_seed seed username hashed store)
    ]

-- what FindUserByUsername and LoadSubject return for what the map holds
unfoldable pub found_user : Option User → Option User × GoError
found_user (some user) = (some user, nil)
found_user none = (none, plain (txt "user not found"))

unfoldable pub loaded_subject : Option Subject → Option Subject × GoError
unfolding clone
loaded_subject (some subject) = (some (clone subject), nil)
loaded_subject none = (none, plain (txt "subject not found"))

unfoldable pub find_user_by_username : Text → MemoryStore → Option User × GoError
unfolding found_user
find_user_by_username username store = found_user (lookup (trim_space username) store.users)

unfoldable pub load_subject : ℕ → MemoryStore → Option Subject × GoError
unfolding loaded_subject
load_subject id store = loaded_subject (lookup id store.by_id)
