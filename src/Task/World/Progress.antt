-- ===== src/Task/World/Progress.antt =====
-- The queue is emptied: each message costs a retry or is not followed by another.
use Prim.Native.Nat.{◌+◌, ◌-◌}
use open_mcp_chain.Prelude.{
  ℕ, zero, suc, ◌≤◌, ◌≡◌, refl, Bool, true, false, Option, none, some, List, [], ◌∷◌, Text, text_eq,
  arith, ap, length, length-append, if◌then◌else◌, ◌==◌, Bool-cases, Option-cases, ◌⊎◌, inl, inr,
}
use open_mcp_chain.Prelude.Map.{Map, lookup, insert}
use open_mcp_chain.Errors.Registry.{Code}
use open_mcp_chain.Errors.Value.{GoError, nil, is_nil}
use open_mcp_chain.Task.Types.{ExecutionResult, Task}
use open_mcp_chain.Task.Store.{claimed, clone_task, completed, broken}
use open_mcp_chain.Task.Store.Claim.{claim_cases}
use open_mcp_chain.Task.Store.{
  MemoryStore, claim as store_claim, mark_succeeded as store_mark_succeeded,
  mark_failed as store_mark_failed,
}
use open_mcp_chain.Task.Queue.{MemoryQueue, receive, publish as queue_publish}
use open_mcp_chain.Task.Interfaces.{
  Action, pure, ◌>>=◌, ok, err, from_pair, Event, Store, TaskResult,
}
use open_mcp_chain.Task.Processor.{
  Processor, to_request, emit_alert, republish, unmarked, fail_task, recovered, try_recovery,
  handle_execution_failure, handle_result, run_task, claim_failed, after_claim, handle_with, handle,
}
use open_mcp_chain.Task.World.{
  World, Agent, claim, mark_succeeded, mark_failed, publish, read_clock, notify, now, memory_store,
  executor_of, recovery_of, in_env, memory_processor, drain,
}

abbrev left : Task → ℕ
left t = t.max_retries - t.attempts

-- The attempts that the stored tasks have left.
unfoldable pub retries_left : Map Text Task → ℕ
retries_left [] = 0
retries_left ((id, t) ∷ m) = left t + retries_left m

retries_left-insert :
    (id : Text) (t t' : Task) (m : Map Text Task)
    → lookup id m ≡ some t
    → retries_left (insert id t' m) + left t ≡ retries_left m + left t'
unfolding lookup insert retries_left
retries_left-insert id t t' [] h = cc
retries_left-insert id t t' ((j, u) ∷ m) h = elim (Bool-cases (j == id)) [
  | inl same ↦ ground arith
  | inr apart ↦ ground (arith, retries_left-insert id t t' m)
]

module _ (id : Text) (now : ℕ) (store : MemoryStore) where
  retries_left-mark_succeeded :
      (result : ExecutionResult)
      → retries_left (store_mark_succeeded id result now store).1.tasks ≡ retries_left store.tasks
  unfolding store_mark_succeeded
  retries_left-mark_succeeded result = elim (Option-cases (lookup id store.tasks)) [
    | inl missing ↦ rw (missing, store_mark_succeeded)
    | inr (t, found) ↦
        rw (found, store_mark_succeeded)
          (unfold completed in
            omega (arith, retries_left-insert id t (completed result t now) store.tasks found))
  ]

  retries_left-mark_failed :
      (code text : Text) (terminal : Bool)
      → retries_left (store_mark_failed id code text terminal now store).1.tasks
        ≡ retries_left store.tasks
  unfolding store_mark_failed
  retries_left-mark_failed code text terminal = elim (Option-cases (lookup id store.tasks)) [
    | inl missing ↦ rw (missing, store_mark_failed)
    | inr (t, found) ↦
        rw (found, store_mark_failed)
          (unfold broken in
            omega (arith, retries_left-insert id t (broken code text t now) store.tasks found))
  ]

-- The messages in the queue, and the attempts that the tasks have left.
abbrev pub work : {E : Type 0} → World E → ℕ
work w = length w.queue.items + retries_left w.store.tasks

-- An action that adds at most `n` to the work.
record Spends {E A : Type 0} (n : ℕ) (m : Action (World E) A) : Type 0 where
  at : (w : World E) → work (m w).1 ≤ work w + n

module _ {E A : Type 0} where
  Spends-pure : (n : ℕ) (a : A) → Spends {E = E} n (pure a)
  unfolding pure
  Spends-pure n a = record { at = λ w. omega arith }

  Spends-if :
      (n : ℕ) (b : Bool) (m m' : Action (World E) A)
      → Spends n m
      → Spends n m'
      → Spends n (if b then m else m')
  Spends-if n true m m' h h' = h
  Spends-if n false m m' h h' = h'

module _ {E A B : Type 0} where
  -- an action that adds nothing, and what follows it
  Spends-bind :
      (n : ℕ) (m : Action (World E) A) (f : A → Action (World E) B)
      → Spends 0 m
      → ((a : A) → Spends n (f a))
      → Spends n (m >>= f)
  unfolding ◌>>=◌
  Spends-bind n m f h k = record {
    at = λ w. let first = h.at w in let second = (k (m w).0).at (m w).1 in omega arith;
  }

module _ {E : Type 0} where
  mark_succeeded-Spends :
      (id : Text) (result : ExecutionResult) → Spends {E = E} 0 (mark_succeeded id result)
  unfolding mark_succeeded
  mark_succeeded-Spends id result = record {
    at = λ w. omega (arith, retries_left-mark_succeeded id (now w) w.store result);
  }

  mark_failed-Spends :
      (id code text : Text) (terminal : Bool) → Spends {E = E} 0 (mark_failed id code text terminal)
  unfolding mark_failed
  mark_failed-Spends id code text terminal = record {
    at = λ w. omega (arith, retries_left-mark_failed id (now w) w.store code text terminal);
  }

  publish-Spends : (id : Text) → Spends {E = E} 1 (publish id)
  unfolding publish queue_publish
  publish-Spends id = record { at = λ w. ground (arith, length-append w.queue.items (id ∷ [])) }

  notify-Spends : (event : Event) → Spends {E = E} 0 (notify event)
  unfolding notify
  notify-Spends event = record { at = λ w. omega arith }

  read_clock-Spends : Spends {E = E} 0 read_clock
  unfolding read_clock
  read_clock-Spends = record { at = λ w. omega arith }

ruleset spends_rules = (
  Spends-pure, Spends-if, Spends-bind, mark_succeeded-Spends, mark_failed-Spends, notify-Spends,
  read_clock-Spends,
)

module _ {E : Type 0} (agent : Agent E) where
  abbrev p : Processor (World E)
  p = memory_processor agent

  abbrev s : Store (World E)
  s = memory_store

  emit_alert-Spends :
      (n : ℕ) (task : Task) (code : Code) (cause : GoError) (stage : Text)
      → Spends n (emit_alert p s task code cause stage)
  unfolding emit_alert
  emit_alert-Spends n task code cause stage = search spends_rules

  republish-Spends : (id message : Text) → Spends 1 (republish p s id message)
  unfolding republish ◌>>=◌
  republish-Spends id message = record { at = λ w. (publish-Spends id).at w }

  unmarked-Spends :
      (id : Text) (code : Code) (e : GoError) (message : Text)
      → Spends 1 (unmarked p s id code e message)
  unfolding unmarked
  unmarked-Spends id code e message = search (spends_rules, republish-Spends)

  fail_task-Spends : (task : Task) (cause : GoError) → Spends 1 (fail_task p s task cause)
  unfolding fail_task
  fail_task-Spends task cause = search (spends_rules, republish-Spends, emit_alert-Spends) depth 7

  recovered-Spends :
      (task : Task) (cause : GoError) (r : Option ExecutionResult × GoError)
      → Spends 1 (recovered p s task cause r)
  unfolding recovered
  recovered-Spends task cause (none, nil) = fail_task-Spends task cause
  recovered-Spends task cause (some fallback, nil) =
      search (spends_rules, unmarked-Spends, emit_alert-Spends) depth 7
  recovered-Spends task cause (r, e) = search (spends_rules, fail_task-Spends, emit_alert-Spends)

  handle_result-Spends : (task : Task) (r : Option TaskResult) → Spends 1 (handle_result p s task r)
  unfolding handle_result
  handle_result-Spends task r = search (spends_rules, unmarked-Spends)

  in_env-Spends : {A : Type 0} (f : E → A × E) → Spends 0 (in_env f)
  in_env-Spends f = record { at = λ w. omega arith }

  try_recovery-Spends :
      (r : Option (Task → GoError → E → (Option ExecutionResult × GoError) × E)) (task : Task)
      (cause : GoError)
      → Spends 1 (try_recovery p s (recovery_of r) task cause)
  unfolding try_recovery
  try_recovery-Spends none task cause = fail_task-Spends task cause
  try_recovery-Spends (some r) task cause =
      Spends-if 1 _ _ _ (fail_task-Spends task cause)
        (Spends-bind 1 _ _ (in_env-Spends (r task cause)) (λ x. recovered-Spends task cause x))

  failure-Spends :
      (task : Task) (cause : GoError) → Spends 1 (handle_execution_failure p s task cause)
  unfolding handle_execution_failure
  failure-Spends task cause = try_recovery-Spends agent.recover task cause

  run_task-Spends : (task : Task) → Spends 1 (run_task p s (executor_of agent) task)
  unfolding run_task
  run_task-Spends task =
      Spends-bind 1 _ _ (in_env-Spends (agent.execute (to_request task)))
        λ r. Spends-if 1 _ _ _ (handle_result-Spends task r.0) (failure-Spends task r.1)

  claim_failed-Spends : (id : Text) (e : GoError) → Spends 0 (claim_failed p s id e)
  unfolding claim_failed
  claim_failed-Spends id e = search (spends_rules, emit_alert-Spends)

  from_pair_err : {A : Type 0} (r : Option A × GoError) → is_nil r.1 ≡ false → from_pair r ≡ err r.1
  from_pair_err (some a, nil) h = cc
  from_pair_err (none, e) h = refl
  from_pair_err (some a, e) h = refl

  -- What follows a claim is paid by the retry that the claim used up.
  claim_step :
      (id : Text) (w : World E)
      → ((task : Task) × ((claim id w).0 ≡ ok task) × (work (claim id w).1 + 1 ≤ work w))
        ⊎ ((e : GoError) × ((claim id w).0 ≡ err e) × (work (claim id w).1 ≤ work w))
  unfolding claim
  claim_step id w = elim (claim_cases id (now w) w.store) [
    | inl r ↦ inr (
      (store_claim id (now w) w.store).0.1,
      from_pair_err (store_claim id (now w) w.store).0 r.error_returned,
      rw r.unchanged (omega arith),
    )
    | inr g ↦ inl (
      clone_task (claimed g.task (now w)),
      rw g.outcome,
      rw g.outcome (
          unfold claimed in
          omega (
            arith,
            g.retry_left,
            retries_left-insert id g.task (claimed g.task (now w)) w.store.tasks g.found,
          )),
    )
  ]

  handle_with-Spends : (id : Text) → Spends 0 (handle_with p s (executor_of agent) id)
  unfolding handle_with after_claim ◌>>=◌
  handle_with-Spends id = record {
    at = λ w. elim (claim_step id w) [
      | inl (task, granted, less) ↦
          rw (granted, after_claim) (omega (arith, (run_task-Spends task).at (claim id w).1))
      | inr (e, refused, same) ↦
          rw (refused, after_claim) (omega (arith, (claim_failed-Spends id e).at (claim id w).1))
    ];
  }

  handle-Spends : (id : Text) → Spends 0 (handle p id)
  unfolding handle
  handle-Spends id = handle_with-Spends id

receive-nil : (q : MemoryQueue) → q.items ≡ [] → receive q ≡ none
unfolding receive
receive-nil q e = ground arith

receive-cons :
    (q : MemoryQueue) (id : Text) (rest : List Text)
    → q.items ≡ id ∷ rest
    → receive q ≡ some (id, record q { items = rest })
unfolding receive
receive-cons q id rest e = ground arith

List-cases : (xs : List Text) → (xs ≡ []) ⊎ ((id : Text) × (rest : List Text) × (xs ≡ id ∷ rest))
List-cases [] = inl refl
List-cases (x ∷ xs) = inr (x, xs, refl)

-- One worker on the in-memory deployment, with any agent and recovery handler: with as much fuel as there
-- are messages in the queue and retries left in the store, it empties the queue.
pub drain_total :
    {E : Type 0} (fuel : ℕ) (agent : Agent E) (w : World E)
    → work w ≤ fuel
    → (w' : World E) × (drain fuel agent w ≡ some w') × (w'.queue.items ≡ [])
unfolding drain
drain_total zero agent w h = elim (List-cases w.queue.items) [
  | inl e ↦ (w, rw (receive-nil w.queue e, drain), e)
  | inr (id, rest, e) ↦ absurd (omega (arith, ap (length {A = Text}) e))
]
drain_total (suc fuel) agent w h = elim (List-cases w.queue.items) [
  | inl e ↦ (w, rw (receive-nil w.queue e, drain), e)
  | inr (id, rest, e) ↦
      let w₁ = record w { queue = record w.queue { items = rest } } in
      let spent = (handle-Spends agent id).at w₁ in
      rw (receive-cons w.queue id rest e, drain)
        (drain_total fuel agent (handle (memory_processor agent) id w₁).1
          (omega (arith, spent, ap (length {A = Text}) e)))
]
