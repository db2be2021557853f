-- ===== src/Auth/MemoryStore/Linked.antt =====
-- Every user has a subject of its own: what the two maps of the store say of each other.
use Prim.Native.Nat.{◌<◌}
use mathlib.Core.Path.{subst}
use open_mcp_chain.Prelude.{
  ℕ, ◌≤◌, ◌≡◌, refl, sym, ap, ◌∙◌, false, some, Text, text_eq, nat_eq, text_beq_iff, eqb, eqb_iff,
  ◌==◌, arith, Bool-cases, Option-cases, inl, inr, is_empty, trim_space,
}
use open_mcp_chain.Prelude.Map.{lookup, insert, lookup-insert_self, lookup-insert_ne}
use open_mcp_chain.Errors.Value.{GoError, nil}
use open_mcp_chain.Auth.Subject.{User, Subject, Seed, normalise}
use open_mcp_chain.Auth.MemoryStore.{
  MemoryStore, Sealed, hash_password, subject_of, user_of, seed_id, write_seed, apply_seed,
  empty_store,
}

-- A user is stored under its name, with an id that was given out, and the subject of that id is its own.
pub record IsLinkedUser (store : MemoryStore) (name : Text) (u : User) : Type 0 where
  pub named : u.username ≡ name
  pub below : u.id < store.next_id
  pub owned :
      (s : Subject) × (lookup u.id store.by_id ≡ some s)
      × (s.username ≡ name)
      × (s.id ≡ u.id)
      × (s.disabled ≡ u.disabled)

pub record IsLinked (store : MemoryStore) : Type 0 where
  pub at_name :
      (name : Text) (u : User) → lookup name store.users ≡ some u → IsLinkedUser store name u

module _ (store : MemoryStore) (linked : IsLinked store) (seed : Seed) (name hashed : Text)
    (id next : ℕ) where
  abbrev written : MemoryStore
  written = record {
    users = insert name (user_of id name hashed seed.disabled) store.users;
    by_id = insert id (subject_of id name seed) store.by_id;
    next_id = next;
  }

  written-IsLinkedUser :
      id < next → IsLinkedUser written name (user_of id name hashed seed.disabled)
  unfolding subject_of normalise
  written-IsLinkedUser given = record {
    named = refl;
    below = given;
    owned = (
      subject_of id name seed,
      lookup-insert_self id (subject_of id name seed) store.by_id,
      refl,
      refl,
      refl,
    );
  }

  kept-IsLinkedUser :
      (j : Text) (u : User)
      → store.next_id ≤ next
      → eqb id u.id ≡ false
      → IsLinkedUser store j u
      → IsLinkedUser written j u
  kept-IsLinkedUser j u grown free l =
      let (s, found, username, same_id, disabled) = l.owned in
      let below = l.below in
      record {
        named = l.named;
        below = omega arith;
        owned = (
          s,
          lookup-insert_ne id u.id (subject_of id name seed) store.by_id free ∙ found,
          username,
          same_id,
          disabled,
        );
      }

  same_name :
      (j : Text) (u : User)
      → id < next
      → name ≡ j
      → lookup j (insert name (user_of id name hashed seed.disabled) store.users) ≡ some u
      → IsLinkedUser written j u
  same_name j u given key h =
      let users = insert name (user_of id name hashed seed.disabled) store.users in
      let there = lookup-insert_self name (user_of id name hashed seed.disabled) store.users in
      let h' = subst (λ (k : Text). lookup k users ≡ some u) (sym key) h in
      let user : user_of id name hashed seed.disabled ≡ u = cc in
      subst (λ (v : User). IsLinkedUser written j v) user
        (subst (λ (k : Text). IsLinkedUser written k (user_of id name hashed seed.disabled)) key
          (written-IsLinkedUser given))

  written-IsLinked :
      id < next
      → store.next_id ≤ next
      → ((j : Text) (u : User)
          → lookup j store.users ≡ some u
          → (name == j) ≡ false
          → eqb id u.id ≡ false)
      → IsLinked written
  written-IsLinked given grown free = record {
    at_name = λ j u h. elim (Bool-cases (name == j)) [
      | inl same ↦ same_name j u given ((text_beq_iff name j).0 same) h
      | inr apart ↦
          let found =
            sym (lookup-insert_ne name j (user_of id name hashed seed.disabled) store.users apart)
            ∙ h in
          kept-IsLinkedUser j u grown (free j u found apart) (linked.at_name j u found)
    ];
  }

pub empty_store-IsLinked : IsLinked empty_store
unfolding lookup
empty_store-IsLinked = record { at_name = λ name u h. absurd (cc) }

-- Two users with one id have one name.
id_of_one :
    (store : MemoryStore) (i j : Text) (u v : User)
    → IsLinkedUser store i u
    → IsLinkedUser store j v
    → u.id ≡ v.id
    → i ≡ j
id_of_one store i j u v l k e =
    let (s, found, username, same_id, disabled) = l.owned in
    let (s', found', username', same_id', disabled') = k.owned in
    let at_same = subst (λ (n : ℕ). lookup n store.by_id ≡ some s) e found in
    let subject : s ≡ s' = cc in sym username ∙ ap (λ (x : Subject). x.username) subject ∙ username'

distinct_ids :
    (store : MemoryStore) (i j : Text) (u v : User)
    → IsLinkedUser store i u
    → IsLinkedUser store j v
    → (i == j) ≡ false
    → eqb u.id v.id ≡ false
distinct_ids store i j u v l k apart = elim (Bool-cases (eqb u.id v.id)) [
  | inl same ↦
      let one = id_of_one store i j u v l k ((eqb_iff u.id v.id).0 same) in
      let equal = (text_beq_iff i j).1 one in absurd (cc)
  | inr differ ↦ differ
]

-- The id that a seed writes is not that of a user with another name.
pub seed_id-distinct :
    (store : MemoryStore) (name j : Text) (u : User)
    → IsLinked store
    → lookup j store.users ≡ some u
    → (name == j) ≡ false
    → eqb (seed_id (lookup name store.users) store.next_id).0 u.id ≡ false
unfolding seed_id
seed_id-distinct store name j u linked found apart =
    let other = linked.at_name j u found in
    elim (Option-cases (lookup name store.users)) [
      | inl absent ↦ let below = other.below in rw (absent, seed_id) (ground arith)
      | inr (v, present) ↦
          rw (present, seed_id)
            (distinct_ids store name j v u (linked.at_name name v present) other apart)
    ]

seed_id-below :
    (store : MemoryStore) (name : Text)
    → IsLinked store
    → let (id, next) = seed_id (lookup name store.users) store.next_id in
      (id < next) × (store.next_id ≤ next)
unfolding seed_id
seed_id-below store name linked = elim (Option-cases (lookup name store.users)) [
  | inl absent ↦ rw (absent, seed_id) (ground arith, ground arith)
  | inr (v, present) ↦ rw (present, seed_id) ((linked.at_name name v present).below, omega arith)
]

write_seed-IsLinked :
    (seed : Seed) (name hashed : Text) (store : MemoryStore)
    → IsLinked store
    → IsLinked (write_seed seed name hashed store)
unfolding write_seed
write_seed-IsLinked seed name hashed store linked =
    let (below, grown) = seed_id-below store name linked in
    written-IsLinked store linked seed name hashed _ _ below grown
      (λ j u found apart. seed_id-distinct store name j u linked found apart)

-- On a store whose users are all stored under their names, with ids given out and with subjects of their own
-- that have the same name, id and state, ApplySeed of any seed leaves it so, errors included.
pub apply_seed-IsLinked :
    (seed : Seed) (sealed : Sealed) (store : MemoryStore)
    → IsLinked store
    → IsLinked (apply_seed seed sealed store).1
unfolding apply_seed
apply_seed-IsLinked seed sealed store linked =
    elim (Bool-cases (is_empty (trim_space seed.username))) [
      | inl blank ↦ rw blank linked
      | inr named ↦ rw named (sealing (hash_password seed.password sealed))
    ]
  where
    sealing :
        (hash : Sealed)
        → IsLinked
            (elim hash as (λ h. GoError × MemoryStore) [
              | inr err ↦ (err, store)
              | inl hashed ↦ (nil, write_seed seed (trim_space seed.username) hashed store)
            ]).1
    sealing (inl hashed) = write_seed-IsLinked seed (trim_space seed.username) hashed store linked
    sealing (inr err) = linked
