-- ===== src/Task/Store/History.antt =====
-- Any sequence of the store's operations, as the goroutines that share it may make them: how often a
-- task can be claimed.
use Prim.Native.Nat.{◌+◌}
use mathlib.Core.Path.{subst}
use open_mcp_chain.Prelude.{
  ℕ, zero, ◌≤◌, ◌≡◌, refl, ◌∙◌, Bool, true, false, inl, inr, Option, none, some, List, [], ◌∷◌,
  Text, text_eq, text_beq_iff, arith, if◌then◌else◌, ◌==◌, Bool-cases, Option-cases, is_empty,
}
use open_mcp_chain.Prelude.Map.{lookup, lookup-insert, lookup-insert_ne, insert}
use open_mcp_chain.Errors.Registry.{Code}
use open_mcp_chain.Errors.Value.{is_nil}
use open_mcp_chain.Task.Types.{ExecutionResult, Task}
use open_mcp_chain.Task.Store.Claim.{claim_cases}
use open_mcp_chain.Task.Store.{
  MemoryStore, created, create, claimed, claim, completed, mark_succeeded, broken, mark_failed,
}

-- One call of the store's interface, and the clock in it.
pub data Operation : Type 0 where
  creating : Option Task → ℕ → Operation
  claiming : Text → ℕ → Operation
  succeeding : Text → ExecutionResult → ℕ → Operation
  failing : Text → Code → Text → Bool → ℕ → Operation

unfoldable pub apply : Operation → MemoryStore → MemoryStore
apply (creating task now) store = (create task now store).1
apply (claiming id now) store = (claim id now store).1
apply (succeeding id result now) store = (mark_succeeded id result now store).1
apply (failing id code text terminal now) store = (mark_failed id code text terminal now store).1

-- 1 for a claim of `id` that returns no error, 0 for all else
unfoldable pub granted : Text → Operation → MemoryStore → ℕ
granted id (claiming j now) store =
    if j == id then (if is_nil (claim j now store).0.1 then 1 else 0) else 0
granted id _ store = 0

unfoldable pub run : List Operation → MemoryStore → MemoryStore
run [] store = store
run (op ∷ ops) store = run ops (apply op store)

unfoldable pub claims : Text → List Operation → MemoryStore → ℕ
claims id [] store = 0
claims id (op ∷ ops) store = granted id op store + claims id ops (apply op store)

-- How one operation may change the task under a key.
record Evolves (t t' : Task) (n : ℕ) : Type 0 where
  counted : t'.attempts ≡ t.attempts + n
  same_max : t'.max_retries ≡ t.max_retries
  bounded : t.attempts ≤ t.max_retries → t'.attempts ≤ t'.max_retries

if_zero : (b : Bool) → (if b then 0 else 0) ≡ zero
if_zero true = refl
if_zero false = refl

unchanged : {t : Task} → Evolves t t 0
unchanged = record { counted = omega arith; same_max = refl; bounded = λ h. h }

module _ (id : Text) (store : MemoryStore) (t : Task) (found : lookup id store.tasks ≡ some t) where
  -- a write under any key, of a task that evolves from the one found there
  written :
      (j : Text) (u u' : Task) (n : ℕ)
      → lookup j store.tasks ≡ some u
      → Evolves u u' n
      → (t' : Task) × (lookup id (insert j u' store.tasks) ≡ some t')
        × Evolves t t' (if j == id then n else 0)
  written j u u' n at_j ev = elim (Bool-cases (j == id)) [
    | inl same ↦
        let key : j ≡ id = (text_beq_iff j id).0 same in
        let task : u ≡ t = cc in
        (
          u',
          ground (arith, lookup-insert j id u' store.tasks),
          rw same (subst (λ (v : Task). Evolves v u' n) task ev),
        )
    | inr apart ↦ (t, lookup-insert_ne j id u' store.tasks apart ∙ found, rw apart unchanged)
  ]

  claiming-Evolves :
      (j : Text) (now : ℕ)
      → (t' : Task) × (lookup id (claim j now store).1.tasks ≡ some t')
        × Evolves t t' (granted id (claiming j now) store)
  unfolding granted
  claiming-Evolves j now = elim (claim_cases j now store) [
    | inl r ↦ (t, rw r.unchanged found, rw (r.error_returned, if_zero (j == id)) unchanged)
    | inr g ↦
        let left = g.retry_left in
        rw g.outcome (
          written j g.task (claimed g.task now) 1 g.found (
            unfold claimed in
            record { counted = refl; same_max = refl; bounded = λ _. omega arith }))
  ]

  kept_by_write :
      (j : Text) (u u' : Task)
      → lookup j store.tasks ≡ some u
      → Evolves u u' 0
      → (t' : Task) × (lookup id (insert j u' store.tasks) ≡ some t') × Evolves t t' 0
  kept_by_write j u u' at_j ev = rw (if_zero (j == id)) at (written j u u' 0 at_j ev)

  pub creating_keeps :
      (task : Option Task) (now : ℕ) → lookup id (create task now store).1.tasks ≡ some t
  unfolding create
  creating_keeps none now = found
  creating_keeps (some u) now = elim (Bool-cases (is_empty u.id)) [
    | inl empty ↦ rw empty found
    | inr named ↦ elim (Option-cases (lookup u.id store.tasks)) [
      | inl free ↦
          rw (named, free)
            (ground
              (arith, lookup-insert u.id id (created u now) store.tasks, text_beq_iff u.id id))
      | inr (w, taken) ↦ rw (named, taken) found
    ]
  ]

  -- every operation leaves a task under the same key
  apply-Evolves :
      (op : Operation)
      → (t' : Task) × (lookup id (apply op store).tasks ≡ some t')
        × Evolves t t' (granted id op store)
  unfolding apply granted mark_succeeded mark_failed
  apply-Evolves (claiming j now) = claiming-Evolves j now
  apply-Evolves (succeeding j result now) = elim (Option-cases (lookup j store.tasks)) [
    | inl missing ↦ (t, rw (missing, apply, mark_succeeded) found, unchanged)
    | inr (u, at_j) ↦
        rw (at_j, apply, mark_succeeded)
          (kept_by_write j u (completed result u now) at_j (
            unfold completed in
            (record { counted = omega arith; same_max = refl; bounded = λ h. h })))
  ]
  apply-Evolves (failing j code text terminal now) = elim (Option-cases (lookup j store.tasks)) [
    | inl missing ↦ (t, rw (missing, apply, mark_failed) found, unchanged)
    | inr (u, at_j) ↦
        rw (at_j, apply, mark_failed)
          (kept_by_write j u (broken code text u now) at_j (
            unfold broken in (record { counted = omega arith; same_max = refl; bounded = λ h. h })))
  ]
  apply-Evolves (creating task now) = (t, creating_keeps task now, unchanged)

-- For any operations on a store that holds a task whose attempts are within its retries: the task is
-- still there under its key, with the same retries; its attempts have grown by exactly the number of
-- claims of it that were granted; and so, with the attempts it had, those are at most its retries.
pub claims_bounded :
    (id : Text) (ops : List Operation) (store : MemoryStore) (t : Task)
    → lookup id store.tasks ≡ some t
    → t.attempts ≤ t.max_retries
    → ((t' : Task) × (lookup id (run ops store).tasks ≡ some t')
        × (t'.attempts ≡ t.attempts + claims id ops store)
        × (t'.max_retries ≡ t.max_retries))
      × (t.attempts + claims id ops store ≤ t.max_retries)
unfolding run claims
claims_bounded id [] store t found h = ((t, found, omega arith, refl), omega arith)
claims_bounded id (op ∷ ops) store t found h =
    let (t', found', ev) = apply-Evolves id store t found op in
    let ((u, at_end, counted, same), within) =
      claims_bounded id ops (apply op store) t' found' (ev.bounded h) in
    let e1 = ev.counted in
    let e2 = ev.same_max in ((u, at_end, omega arith, omega arith), omega arith)
