-- ===== src/Task/Store/Exclusion.antt =====
-- A task that is running or completed is not handed out again, unless it is marked failed.
use open_mcp_chain.Prelude.{
  ℕ, ◌≡◌, refl, ◌∙◌, Bool, true, false, inl, inr, some, List, [], ◌∷◌, Text, text_eq, text_beq_iff,
  arith, ◌==◌, Bool-cases, Option-cases, All,
}
use open_mcp_chain.Prelude.Map.{lookup, lookup-insert, lookup-insert_ne, insert}
use open_mcp_chain.Task.Types.{Task}
use open_mcp_chain.Task.Store.{
  MemoryStore, claimed, claim, completed, mark_succeeded, broken, mark_failed,
}
use open_mcp_chain.Task.Store.Claim.{is_locked, claim_cases}
use open_mcp_chain.Task.Store.History.{
  Operation, creating, claiming, succeeding, failing, apply, granted, run, claims, creating_keeps,
}

-- Whether an operation is a MarkFailed of `id`.
abbrev pub breaks : Text → Operation → Bool
breaks id (failing j code text terminal now) = j == id
breaks id _ = false

module _ (id : Text) (store : MemoryStore) (t : Task) (found : lookup id store.tasks ≡ some t)
    (locked : is_locked t.status ≡ true) where
  abbrev StaysLocked : MemoryStore → Type 0
  StaysLocked after = (t' : Task) × (lookup id after.tasks ≡ some t') × (is_locked t'.status ≡ true)

  -- a write under another key, or of a locked task
  locked_write :
      (j : Text) (u : Task)
      → ((j == id) ≡ true → is_locked u.status ≡ true)
      → StaysLocked (record { tasks = insert j u store.tasks })
  locked_write j u h = elim (Bool-cases (j == id)) [
    | inl same ↦ (u, ground (arith, lookup-insert j id u store.tasks), h same)
    | inr apart ↦ (t, lookup-insert_ne j id u store.tasks apart ∙ found, locked)
  ]

  claiming_locked :
      (j : Text) (now : ℕ)
      → StaysLocked (claim j now store).1 × (granted id (claiming j now) store ≡ 0)
  unfolding granted
  claiming_locked j now = elim (claim_cases j now store) [
    | inl r ↦ (rw r.unchanged (t, found, locked), rw r.error_returned (ground arith))
    | inr g ↦
        let there = g.found in
        let free = g.unlocked in
        elim (Bool-cases (j == id)) [
          | inl same ↦
              let key : j ≡ id = (text_beq_iff j id).0 same in
              let task : g.task ≡ t = cc in absurd (ground arith)
          | inr apart ↦
              (rw g.outcome (locked_write j (claimed g.task now) (λ same. absurd (cc))), rw apart)
        ]
  ]

  apply_locked :
      (op : Operation)
      → breaks id op ≡ false
      → StaysLocked (apply op store) × (granted id op store ≡ 0)
  unfolding apply granted mark_succeeded mark_failed
  apply_locked (creating task now) h = ((t, creating_keeps id store t found task now, locked), refl)
  apply_locked (claiming j now) h = claiming_locked j now
  apply_locked (succeeding j result now) h = elim (Option-cases (lookup j store.tasks)) [
    | inl missing ↦ (rw (missing, apply, mark_succeeded) (t, found, locked), refl)
    | inr (u, at_j) ↦ (
      rw (at_j, apply, mark_succeeded)
          (locked_write j (completed result u now) (λ _. unfold completed in refl)),
      refl,
    )
  ]
  apply_locked (failing j code text terminal now) h = elim (Option-cases (lookup j store.tasks)) [
    | inl missing ↦ (rw (missing, apply, mark_failed) (t, found, locked), refl)
    | inr (u, at_j) ↦
        (rw (at_j, apply, mark_failed) (locked_write j (broken code text u now) (λ same. cc)), refl)
  ]

-- While a task is running or completed, no sequence of operations on the store, by any number of
-- goroutines, grants a claim of it, as long as none of them marks it failed; and it stays running or
-- completed.
pub claims_exclusive :
    (id : Text) (ops : List Operation) (store : MemoryStore) (t : Task)
    → lookup id store.tasks ≡ some t
    → is_locked t.status ≡ true
    → All (λ op. breaks id op ≡ false) ops
    → (claims id ops store ≡ 0)
      × ((t' : Task) × (lookup id (run ops store).tasks ≡ some t') × (is_locked t'.status ≡ true))
unfolding claims run
claims_exclusive id [] store t found locked h = (refl, (t, found, locked))
claims_exclusive id (op ∷ ops) store t found locked (h, hs) =
    let ((t', found', locked'), not_granted) = apply_locked id store t found locked op h in
    let (rest, there) = claims_exclusive id ops (apply op store) t' found' locked' hs in
    (omega arith, there)
