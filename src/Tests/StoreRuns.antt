-- ===== src/Tests/StoreRuns.antt =====
-- The store at concrete inputs.
use Prim.Native.Nat.{◌+◌}
use open_mcp_chain.Prelude.{
  ◌≡◌, refl, true, false, none, some, [], ◌∷◌, List, txt, text_beq, text_eq, ◌≤◌, arith, All,
}
use open_mcp_chain.Prelude.Map.{lookup}
use open_mcp_chain.Task.Types.{Task}
use open_mcp_chain.Task.Store.{MemoryStore, new_memory_store}
use open_mcp_chain.Task.Store.Claim.{is_locked}
use open_mcp_chain.Task.Store.Valid.{IsValid, empty-IsValid}
use open_mcp_chain.Task.Store.History.{
  Operation, creating, claiming, succeeding, failing, run, claims, claims_bounded,
}
use open_mcp_chain.Task.Store.Exclusion.{breaks, claims_exclusive}
use open_mcp_chain.Task.Store.Runs.{IsSane, run-IsValid}
use open_mcp_chain.Tests.Samples.{
  task_a, task_b, held_a, done, store_of, a-IsValidTask, b-IsValidTask,
}

abbrev two_tasks : MemoryStore
two_tasks = store_of (task_a ∷ task_b ∷ [])

abbrev held : MemoryStore
held = store_of (held_a ∷ task_b ∷ [])

-- Three claims of `a`, with a failure after the first: the second is refused while it runs.
abbrev retried : List Operation
retried =
    claiming (txt "a") 10
    ∷ claiming (txt "a") 11
    ∷ failing (txt "a") (txt "EXECUTOR_FAILURE") (txt "boom") false 12
    ∷ claiming (txt "a") 13
    ∷ succeeding (txt "a") done 14
    ∷ claiming (txt "b") 15
    ∷ []

abbrev unbroken : List Operation
unbroken =
    claiming (txt "a") 10
    ∷ failing (txt "b") (txt "TIMEOUT") (txt "late") true 11
    ∷ succeeding (txt "a") done 12
    ∷ claiming (txt "a") 13
    ∷ []

a_stored : lookup (txt "a") two_tasks.tasks ≡ some task_a
unfolding lookup text_beq
a_stored = refl

a_held : lookup (txt "a") held.tasks ≡ some held_a
unfolding lookup text_beq
a_held = refl

claims_bounded_example :
    ((t' : Task) × (lookup (txt "a") (run retried two_tasks).tasks ≡ some t')
      × (t'.attempts ≡ 0 + claims (txt "a") retried two_tasks)
      × (t'.max_retries ≡ 2))
    × (0 + claims (txt "a") retried two_tasks ≤ 2)
claims_bounded_example = claims_bounded (txt "a") retried two_tasks task_a a_stored (omega arith)

unbroken-All : All (λ op. breaks (txt "a") op ≡ false) unbroken
unfolding text_beq
unbroken-All = (refl, (refl, (refl, (refl, tt))))

claims_exclusive_example :
    (claims (txt "a") unbroken held ≡ 0)
    × ((t' : Task) × (lookup (txt "a") (run unbroken held).tasks ≡ some t')
        × (is_locked t'.status ≡ true))
claims_exclusive_example = claims_exclusive (txt "a") unbroken held held_a a_held refl unbroken-All

abbrev from_scratch : List Operation
from_scratch = creating (some task_a) 5 ∷ creating none 6 ∷ creating (some task_b) 6 ∷ retried

from_scratch-IsSane : All IsSane from_scratch
from_scratch-IsSane = (a-IsValidTask, (tt, (b-IsValidTask, (tt, (tt, (tt, (tt, (tt, (tt, tt)))))))))

run-IsValid_example : IsValid (run from_scratch new_memory_store)
run-IsValid_example = run-IsValid from_scratch new_memory_store from_scratch-IsSane empty-IsValid
