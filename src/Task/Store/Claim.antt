-- ===== src/Task/Store/Claim.antt =====
-- The two ways in which a claim ends.
use Prim.Native.Nat.{◌<◌}
use open_mcp_chain.Prelude.{
  ℕ, ◌≡◌, refl, Bool, true, false, ◌⊎◌, inl, inr, some, Text, text_eq, arith, Bool-cases,
  Option-cases, leb,
}
use open_mcp_chain.Prelude.Map.{lookup, insert}
use open_mcp_chain.Errors.Value.{nil, is_nil}
use open_mcp_chain.Task.Types.{Status, running, succeeded, Task}
use open_mcp_chain.Task.Store.{MemoryStore, clone_task, claimed, claim_task, claim}

abbrev pub is_locked : Status → Bool
is_locked running = true
is_locked succeeded = true
is_locked _ = false

-- A refused claim returns an error and changes nothing.
pub record Refused (id : Text) (now : ℕ) (store : MemoryStore) : Type 0 where
  pub error_returned : is_nil (claim id now store).0.1 ≡ false
  pub unchanged : (claim id now store).1 ≡ store

-- A granted claim found a task that is neither running nor completed and has a retry left, stores it as
-- running with one attempt more, and returns a copy of what it stored.
pub record Granted (id : Text) (now : ℕ) (store : MemoryStore) : Type 0 where
  pub task : Task
  pub found : lookup id store.tasks ≡ some task
  pub unlocked : is_locked task.status ≡ false
  pub retry_left : task.attempts < task.max_retries
  pub outcome : claim id now store ≡ (
    (some (clone_task (claimed task now)), nil),
    record { tasks = insert id (claimed task now) store.tasks },
  )

module _ (id : Text) (now : ℕ) (store : MemoryStore) where
  from_task :
      (t : Task)
      → lookup id store.tasks ≡ some t
      → (s : Status) → t.status ≡ s
      → (leb t.max_retries t.attempts ≡ true) ⊎ (leb t.max_retries t.attempts ≡ false)
      → Refused id now store ⊎ Granted id now store
  unfolding claim
  from_task t found succeeded e d = inl (record {
    error_returned = rw (found, claim, e, claim_task);
    unchanged = rw (found, claim, e, claim_task);
  })
  from_task t found running e d = inl (record {
    error_returned = rw (found, claim, e, claim_task);
    unchanged = rw (found, claim, e, claim_task);
  })
  from_task t found _ e (inl full) = inl (record {
    error_returned = rw (found, claim, e, claim_task, full);
    unchanged = rw (found, claim, e, claim_task, full);
  })
  from_task t found _ e (inr free) = inr (record {
    task = t;
    found = found;
    unlocked = rw e;
    retry_left = ground arith;
    outcome = simp (found, claim, e, claim_task, free);
  })

  pub claim_cases : Refused id now store ⊎ Granted id now store
  unfolding claim
  claim_cases = elim (Option-cases (lookup id store.tasks)) [
    | inl missing ↦
        inl (record { error_returned = rw (missing, claim); unchanged = rw (missing, claim) })
    | inr (t, found) ↦ from_task t found t.status refl (Bool-cases (leb t.max_retries t.attempts))
  ]

  pub granted_outcome :
      (t : Task)
      → lookup id store.tasks ≡ some t
      → (s : Status) → t.status ≡ s
      → is_locked s ≡ false
      → t.attempts < t.max_retries
      → claim id now store ≡ (
        (some (clone_task (claimed t now)), nil),
        record { tasks = insert id (claimed t now) store.tasks },
      )
  unfolding claim
  granted_outcome t found succeeded e unlocked left = absurd (cc)
  granted_outcome t found running e unlocked left = absurd (cc)
  granted_outcome t found _ e unlocked left =
      let free : leb t.max_retries t.attempts ≡ false = ground arith in
      simp (found, claim, e, claim_task, free)

  -- the claim of a stored task that is neither running nor completed and has a retry left
  abbrev pub granted :
      (t : Task)
      → lookup id store.tasks ≡ some t
      → is_locked t.status ≡ false
      → t.attempts < t.max_retries
      → Granted id now store
  granted t found unlocked left = record {
    task = t;
    found = found;
    unlocked = unlocked;
    retry_left = left;
    outcome = granted_outcome t found t.status refl unlocked left;
  }
