-- ===== src/Task/Store/Runs.antt =====
-- Validity over any sequence of operations.
use open_mcp_chain.Prelude.{List, [], ◌∷◌, All}
use open_mcp_chain.Task.Store.{MemoryStore}
use open_mcp_chain.Task.Store.Valid.{
  IsValid, IsAcceptable, create-IsValid, claim-IsValid, mark_succeeded-IsValid, mark_failed-IsValid,
}
use open_mcp_chain.Task.Store.History.{
  Operation, creating, claiming, succeeding, failing, apply, run,
}

-- What a caller of Create must see to.
abbrev pub IsSane : Operation → Type 0
IsSane (creating task now) = IsAcceptable task
IsSane _ = Unit

apply-IsValid :
    (op : Operation) (store : MemoryStore) → IsSane op → IsValid store → IsValid (apply op store)
unfolding apply
apply-IsValid (creating task now) store a v = create-IsValid task now store a v
apply-IsValid (claiming id now) store a v = claim-IsValid id now store v
apply-IsValid (succeeding id result now) store a v = mark_succeeded-IsValid id result now store v
apply-IsValid (failing id code text terminal now) store a v =
    mark_failed-IsValid id code text terminal now store v

-- Any operations on a valid store leave it valid, if each task given to Create is itself a valid one: ids
-- are the keys and are unique, no task has more attempts than retries, a running task has been attempted
-- and shows no error, a succeeded task has a result and shows no error.
pub run-IsValid :
    (ops : List Operation) (store : MemoryStore)
    → All IsSane ops
    → IsValid store
    → IsValid (run ops store)
unfolding run
run-IsValid [] store a v = v
run-IsValid (op ∷ ops) store (a, rest) v =
    run-IsValid ops (apply op store) rest (apply-IsValid op store a v)
