-- ===== src/Task/Store/Valid.antt =====
-- What holds of every stored task, and that each operation of the store keeps it.
use mathlib.Core.Path.{subst₂}
use open_mcp_chain.Prelude.{
  ℕ, ◌≤◌, ◌≡◌, refl, Bool, Option, none, some, [], Text, text_eq, arith, Bool-cases, Option-cases,
  inl, inr, is_empty,
}
use open_mcp_chain.Prelude.Map.{lookup, lookup-insert_cases, insert, IsUnique, insert-IsUnique}
use open_mcp_chain.Errors.Registry.{Code}
use open_mcp_chain.Task.Types.{running, succeeded, ExecutionResult, Task}
use open_mcp_chain.Task.Store.Claim.{claim_cases}
use open_mcp_chain.Task.Store.{
  MemoryStore, new_memory_store, new_memory_store, created, create, claimed, claim, completed,
  mark_succeeded, broken, mark_failed,
}

-- A claimed task was attempted and carries no error; a completed one has a result and no error.
pub record IsValidTask (id : Text) (t : Task) : Type 0 where
  pub keyed : t.id ≡ id
  pub bounded : t.attempts ≤ t.max_retries
  pub running_attempted :
      t.status ≡ running → (1 ≤ t.attempts) × (t.last_error ≡ []) × (t.error_code ≡ [])
  pub succeeded_result :
      t.status ≡ succeeded
      → ((r : ExecutionResult) × (t.result ≡ some r)) × (t.last_error ≡ []) × (t.error_code ≡ [])

pub record IsValid (store : MemoryStore) : Type 0 where
  pub unique : IsUnique store.tasks
  pub at_id : (id : Text) (t : Task) → lookup id store.tasks ≡ some t → IsValidTask id t

-- Writing a valid task under its key keeps the store valid.
pub insert-IsValid :
    (store : MemoryStore) (id : Text) (t : Task)
    → IsValid store
    → IsValidTask id t
    → IsValid (record { tasks = insert id t store.tasks })
insert-IsValid store id t v vt = record {
  unique = insert-IsUnique id t store.tasks v.unique;
  at_id = λ j u h. elim (lookup-insert_cases id j t u store.tasks h) [
    | inl (same, written) ↦ subst₂ IsValidTask same written vt
    | inr before ↦ v.at_id j u before
  ];
}

pub empty-IsValid : IsValid new_memory_store
unfolding lookup
empty-IsValid = record { unique = tt; at_id = λ id t h. absurd (cc) }

-- A task that Create accepts into a valid store: within its retries, and with the status pending or
-- failed, or with what the status it has requires.
abbrev pub IsAcceptable : Option Task → Type 0
IsAcceptable none = Unit
IsAcceptable (some t) = IsValidTask t.id t

created-IsValidTask : (t : Task) (now : ℕ) → IsValidTask t.id t → IsValidTask t.id (created t now)
unfolding created
created-IsValidTask t now v = ground arith

pub create-IsValid :
    (task : Option Task) (now : ℕ) (store : MemoryStore)
    → IsAcceptable task
    → IsValid store
    → IsValid (create task now store).1
unfolding create
create-IsValid none now store a v = v
create-IsValid (some t) now store a v = elim (Bool-cases (is_empty t.id)) [
  | inl empty ↦ rw empty v
  | inr named ↦ elim (Option-cases (lookup t.id store.tasks)) [
    | inl free ↦
        rw (named, free) (insert-IsValid store t.id (created t now) v (created-IsValidTask t now a))
    | inr (u, taken) ↦ rw (named, taken) v
  ]
]

pub claim-IsValid :
    (id : Text) (now : ℕ) (store : MemoryStore) → IsValid store → IsValid (claim id now store).1
claim-IsValid id now store v = elim (claim_cases id now store) [
  | inl no_claim ↦ rw no_claim.unchanged v
  | inr g ↦
      let vt = v.at_id id g.task g.found in
      let before = g.retry_left in
      rw g.outcome (insert-IsValid store id (claimed g.task now) v (unfold claimed in ground arith))
]

pub mark_succeeded-IsValid :
    (id : Text) (result : ExecutionResult) (now : ℕ) (store : MemoryStore)
    → IsValid store
    → IsValid (mark_succeeded id result now store).1
unfolding mark_succeeded
mark_succeeded-IsValid id result now store v = elim (Option-cases (lookup id store.tasks)) [
  | inl missing ↦ rw (missing, mark_succeeded) v
  | inr (t, found) ↦
      let vt = v.at_id id t found in
      rw (found, mark_succeeded)
        (insert-IsValid store id (completed result t now) v (
          unfold completed in
          record {
            keyed = vt.keyed;
            bounded = vt.bounded;
            running_attempted = λ h. cc;
            succeeded_result = λ h. ((result, refl), refl, refl);
          }))
]

pub mark_failed-IsValid :
    (id : Text) (code : Code) (text : Text) (terminal : Bool) (now : ℕ) (store : MemoryStore)
    → IsValid store
    → IsValid (mark_failed id code text terminal now store).1
unfolding mark_failed
mark_failed-IsValid id code text terminal now store v =
    elim (Option-cases (lookup id store.tasks)) [
      | inl missing ↦ rw (missing, mark_failed) v
      | inr (t, found) ↦
          let vt = v.at_id id t found in
          rw (found, mark_failed)
            (insert-IsValid store id (broken code text t now) v (unfold broken in ground arith))
    ]
