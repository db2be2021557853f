-- ===== src/Storage/Calls.antt =====
-- Calls of the repository one after another, in a transaction or on their own.
use open_mcp_chain.Prelude.{ℕ, Option, List, [], ◌∷◌, if◌then◌else◌, Bool-cases, inl, inr}
use open_mcp_chain.Errors.Value.{GoError, nil, is_nil}
use open_mcp_chain.Task.Interfaces.{Action}
use open_mcp_chain.Storage.{
  TaskRecord, Table, TxFunction, LogFile, tx_create, tx_update, tx_delete, create, update, delete,
}
use open_mcp_chain.Storage.Order.{IsTable, tx_create-IsTable, tx_update-IsTable, tx_delete-IsTable}

-- One call of the interface TaskRepository that writes, and the clock in it.
pub data Call : Type 0 where
  creates : Option TaskRecord → Call
  updates : ℕ → TaskRecord → Call
  deletes : ℕ → Call

unfoldable pub tx_call : Call → TxFunction
unfolding tx_create tx_update tx_delete
tx_call (creates r) = tx_create r
tx_call (updates now r) = tx_update now r
tx_call (deletes id) = tx_delete id

-- A transaction that makes the calls in turn and returns the first error.
unfoldable pub script : List Call → TxFunction
unfolding tx_call
script [] t = (nil, t)
script (c ∷ calls) t =
    let (e, t') = tx_call c t in let rest = script calls t' in if is_nil e then rest else (e, t')

tx_call-IsTable : (c : Call) (t : Table) → IsTable t → IsTable (tx_call c t).1
unfolding tx_call
tx_call-IsTable (creates r) t v = tx_create-IsTable r t v
tx_call-IsTable (updates now r) t v = tx_update-IsTable now r t v
tx_call-IsTable (deletes id) t v = tx_delete-IsTable id t v

-- Any calls on a table that is in order leave it in order, those that fail included: newest first, with ids
-- that are distinct and at most the last one given, and no more than 512 records.
pub script-IsTable : (calls : List Call) (t : Table) → IsTable t → IsTable (script calls t).1
unfolding script
script-IsTable [] t v = v
script-IsTable (c ∷ calls) t v =
    let v' = tx_call-IsTable c t v in
    elim (Bool-cases (is_nil (tx_call c t).0)) [
      | inl fine ↦ rw fine (script-IsTable calls (tx_call c t).1 v')
      | inr failed ↦ rw failed v'
    ]

module _ {W : Type 0} (log : LogFile W) where
  unfoldable pub call : Call → Action (Table × W) GoError
  unfolding create update delete
  call (creates r) = create log r
  call (updates now r) = update log now r
  call (deletes id) = delete log id

  -- The calls on the repository itself, up to the first error.
  unfoldable pub directly : List Call → Action (Table × W) GoError
  unfolding call
  directly [] s = (nil, s)
  directly (c ∷ calls) s =
      let (e, s') = call c s in let rest = directly calls s' in if is_nil e then rest else (e, s')
