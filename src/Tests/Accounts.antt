-- ===== src/Tests/Accounts.antt =====
-- Knowledge and subjects at concrete inputs.
use open_mcp_chain.Prelude.{
  text_beq, is_empty, Text, nat_eq, ◌==◌, inl, ◌≡◌, refl, true, false, ◌&&◌, none, some, [], ◌∷◌,
  List, txt, text_eq, take, keep_if, trim_space, to_lower,
}
use open_mcp_chain.Prelude.Int.{pos}
use open_mcp_chain.Errors.Value.{nil, is_nil}
use open_mcp_chain.Knowledge.{Snippet, new_static_provider, matches, query}
use open_mcp_chain.Knowledge.Query.{query-take}
use open_mcp_chain.Auth.MemoryStore.{
  MemoryStore, empty_store, apply_seed, find_user_by_username, load_subject, subject_of, plant,
  hash_password, write_seed, seed_id,
}
use open_mcp_chain.Auth.MemoryStore.Linked.{IsLinked, empty_store-IsLinked, apply_seed-IsLinked}
use open_mcp_chain.Auth.MemoryStore.Seeded.{apply_seed-found, apply_seed-others, plant-unseen}
use open_mcp_chain.Prelude.Map.{lookup, insert}
use open_mcp_chain.Auth.Subject.{User, Seed, Subject, authorize}
use open_mcp_chain.Auth.Subject.Permits.{holds_all, authorize-holds_all}

abbrev snippets : List Snippet
snippets =
    record { title = txt "a"; content = []; keywords = txt "Gas" ∷ []; tags = [] }
    ∷ record { title = txt "b"; content = []; keywords = []; tags = [] }
    ∷ []

query-take_example :
    query (new_static_provider snippets (pos 0)) (txt "gas price") []
    ≡ take 3 (
        keep_if
          (λ s. matches s (to_lower (trim_space (txt "gas price"))) (to_lower (trim_space [])))
          snippets)
query-take_example = query-take snippets (pos 0) (txt "gas price") []

abbrev alice : Subject
alice = record {
  id = 1;
  username = txt "alice";
  roles = [];
  permissions = txt "tasks.read" ∷ txt "tasks.write" ∷ [];
  disabled = false;
  permissions_set = none;
}

authorize-holds_all_example :
    is_nil (authorize (txt "Tasks.Read " ∷ [] ∷ []) (some alice)).0
    ≡ (true && holds_all alice.permissions (txt "Tasks.Read " ∷ [] ∷ []))
authorize-holds_all_example = authorize-holds_all (txt "Tasks.Read " ∷ [] ∷ []) alice refl

abbrev seed_of : Text → Seed
seed_of name = record {
  username = name;
  password = txt "secret";
  roles = txt "Admin" ∷ [];
  permissions = txt " Tasks.Read" ∷ [];
  disabled = false;
}

abbrev store_a : MemoryStore
store_a = (apply_seed (seed_of (txt " alice")) (inl (txt "h1")) empty_store).1

store_a-IsLinked : IsLinked store_a
store_a-IsLinked =
    apply_seed-IsLinked (seed_of (txt " alice")) (inl (txt "h1")) empty_store empty_store-IsLinked

apply_seed-IsLinked_example : IsLinked (apply_seed (seed_of (txt "bob")) (inl (txt "h2")) store_a).1
apply_seed-IsLinked_example =
    apply_seed-IsLinked (seed_of (txt "bob")) (inl (txt "h2")) store_a store_a-IsLinked

bob_named : is_empty (trim_space (txt " bob")) ≡ false
unfolding trim_space
bob_named = refl

secret_given : is_empty (trim_space (txt "secret")) ≡ false
unfolding trim_space
secret_given = refl

apply_seed-found_example :
    let (e, store') = apply_seed (seed_of (txt " bob")) (inl (txt "h2")) store_a in
    (e ≡ nil)
    × (u : User) × (find_user_by_username (txt " bob") store' ≡ (some u, nil))
    × (u.password_hash ≡ txt "h2")
    × (u.disabled ≡ false)
    × (load_subject u.id store'
        ≡ (some (subject_of u.id (trim_space (txt " bob")) (seed_of (txt " bob"))), nil))
apply_seed-found_example =
    apply_seed-found (seed_of (txt " bob")) (txt "h2") store_a bob_named secret_given

abbrev alice_user : User
alice_user = record { id = 1; username = txt "alice"; password_hash = txt "h1"; disabled = false }

alice_stored : lookup (txt "alice") store_a.users ≡ some alice_user
unfolding apply_seed hash_password write_seed trim_space lookup insert text_beq seed_id
alice_stored = refl

bob_apart : (trim_space (txt " bob") == txt "alice") ≡ false
unfolding trim_space text_beq
bob_apart = refl

apply_seed-others_example :
    (lookup (txt "alice") (apply_seed (seed_of (txt " bob")) (inl (txt "h2")) store_a).1.users
      ≡ some alice_user)
    × (load_subject 1 (apply_seed (seed_of (txt " bob")) (inl (txt "h2")) store_a).1
        ≡ load_subject 1 store_a)
apply_seed-others_example =
    apply_seed-others store_a store_a-IsLinked (txt "alice") alice_user alice_stored
      (seed_of (txt " bob")) (inl (txt "h2")) bob_apart

abbrev store_b : MemoryStore
store_b = record {
  users =
      insert (txt " bob")
        (record { id = 1; username = txt " bob"; password_hash = txt "h2"; disabled = false }) [];
  by_id = insert 1 (subject_of 1 (txt " bob") (seed_of (txt " bob"))) [];
  next_id = 2;
}

blanks_differ : (txt " bob" == trim_space (txt " bob")) ≡ false
unfolding trim_space text_beq
blanks_differ = refl

b_planted : plant (seed_of (txt " bob")) (inl (txt "h2")) empty_store ≡ inl store_b
unfolding plant hash_password trim_space lookup insert
b_planted = refl

plant-unseen_example :
    find_user_by_username (txt " bob") store_b ≡ find_user_by_username (txt " bob") empty_store
plant-unseen_example =
    plant-unseen (seed_of (txt " bob")) (inl (txt "h2")) empty_store store_b blanks_differ b_planted
