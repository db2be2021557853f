-- ===== src/Storage.antt =====
-- internal/storage/mysql/task_repository.go: the repository of executions in memory, with its log file, and
-- the view of it that a transaction works on. Ids and times are not negative, and ids have no upper bound: where
-- lastID is the greatest int64, `lastID++` wraps, which is not modelled.
pub mod Order
pub mod Calls
pub mod Loading
pub mod Commit
pub mod Reversal
pub mod Reload
use Prim.Native.Nat.{◌+◌}
use mathlib.Core.List.{reverse}
use open_mcp_chain.Prelude.{
  ℕ, Bool, true, false, ◌||◌, Option, none, some, List, [], ◌∷◌, ◌++◌, Text, txt, eqb, ltb, leb,
  length, take, if◌then◌else◌, utf8_length,
}
use open_mcp_chain.Prelude.Int.{ℤ, pos, leb_ℤ, ltb_ℤ, pos_part}
use open_mcp_chain.Prelude.Sort.{sort_slice}
use open_mcp_chain.Errors.Value.{GoError, nil, plain, wrapped, is_nil, error_text}
use open_mcp_chain.Task.Interfaces.{Action, pure, ◌>>=◌}

pub record TaskRecord : Type 0 where
  pub id : ℕ
  pub goal : Text
  pub chain_action : Text
  pub address : Text
  pub thought : Text
  pub reply : Text
  pub chain_id : Text
  pub block_number : Text
  pub observes : Text
  pub created_at : ℕ
  pub updated_at : ℕ

-- The fields of memoryTxRepository; those of MemoryTaskRepository without the lock and the file.
pub record Table : Type 0 where
  pub records : List TaskRecord
  pub last_id : ℕ

-- encoding/json on a record and on a line, without the newline; `none` is a line that Unmarshal refuses.
pub record LineFormat : Type 0 where
  pub encode : TaskRecord → Text
  pub decode : Text → Option TaskRecord

-- What the repository does with its log file: opening it with O_TRUNC, appending a line, opening it to read,
-- and reading its lines, whatever their length, with the error of reading.
pub record LogFile (W : Type 0) : Type 0 where
  pub format : LineFormat
  pub truncate : Action W GoError
  pub write_line : Text → Action W GoError
  pub open_read : Action W GoError
  pub read_lines : Action W (List Text × GoError)

-- database/sql's sentinel
abbrev pub err_no_rows : GoError
err_no_rows = plain (txt "sql: no rows in result set")

-- the function given to sort.Slice
unfoldable pub newer : TaskRecord → TaskRecord → Bool
newer r q = if eqb r.created_at q.created_at then ltb q.id r.id else ltb q.created_at r.created_at

abbrev pub max_records : ℕ
max_records = 512

unfoldable pub sort_task_records : List TaskRecord → List TaskRecord
unfolding newer
sort_task_records records = sort_slice newer records

-- sortRecords, and the same statements in memoryTxRepository: sorted, and cut after 512 records
unfoldable pub sort_records : List TaskRecord → List TaskRecord
unfolding sort_task_records
sort_records records =
    let sorted = sort_task_records records in
    if ltb max_records (length sorted) then take max_records sorted else sorted

-- the record that Create appends
unfoldable pub numbered : ℕ → TaskRecord → TaskRecord
numbered id record' = record record' {
  id = id;
  updated_at = if eqb record'.updated_at 0 then record'.created_at else record'.updated_at;
}

unfoldable pub get_by_id : ℕ → List TaskRecord → Option TaskRecord
get_by_id id [] = none
get_by_id id (r ∷ records) = if eqb r.id id then some r else get_by_id id records

-- the record that Update stores in place of `old`
unfoldable pub revised : ℕ → TaskRecord → TaskRecord → TaskRecord
revised now new old = record new {
  updated_at = if eqb new.updated_at 0 then now else new.updated_at;
  created_at = if eqb new.created_at 0 then old.created_at else new.created_at;
}

abbrev pub consed : TaskRecord → Option (List TaskRecord) → Option (List TaskRecord)
consed r none = none
consed r (some records) = some (r ∷ records)

-- the loop of Update; `none` where no record has the id
unfoldable pub replace_record : ℕ → TaskRecord → List TaskRecord → Option (List TaskRecord)
unfolding revised
replace_record now new [] = none
replace_record now new (r ∷ records) =
    let rest = replace_record now new records in
    if eqb r.id new.id then some (revised now new r ∷ records) else consed r rest

-- the loop and the cut of Delete; `none` where no record has the id
unfoldable pub remove_record : ℕ → List TaskRecord → Option (List TaskRecord)
remove_record id [] = none
remove_record id (r ∷ records) =
    let rest = remove_record id records in if eqb r.id id then some records else consed r rest

unfoldable pub list_latest : ℤ → List TaskRecord → List TaskRecord
list_latest limit records =
    if leb_ℤ limit (pos 0) || ltb_ℤ (pos (length records)) limit
    then records
    else take (pos_part limit) records

-- The methods of memoryTxRepository that write.
unfoldable pub tx_create : Option TaskRecord → Table → GoError × Table
unfolding numbered sort_records
tx_create none t = (plain (txt "record 不能为空"), t)
tx_create (some r) t =
    let id = t.last_id + 1 in
    (nil, record { records = sort_records (t.records ++ numbered id r ∷ []); last_id = id })

unfoldable pub tx_update : ℕ → TaskRecord → Table → GoError × Table
unfolding replace_record sort_records
tx_update now r t = elim (replace_record now r t.records) [
  | none ↦ (err_no_rows, t)
  | some records ↦ (nil, record t { records = sort_records records })
]

unfoldable pub tx_delete : ℕ → Table → GoError × Table
unfolding remove_record
tx_delete id t = elim (remove_record id t.records) [
  | none ↦ (err_no_rows, t)
  | some records ↦ (nil, record t { records = records })
]

-- A function of a transaction: what it does to its view, and the error it returns.
abbrev pub TxFunction : Type 0
TxFunction = Table → GoError × Table

-- WithTransaction of the view runs the function on the view itself; `none` is a nil function.
unfoldable pub tx_with_transaction : Option TxFunction → Table → GoError × Table
tx_with_transaction none t = (plain (txt "事务函数不能为空"), t)
tx_with_transaction (some fn) t = fn t

module _ {W : Type 0} (log : LogFile W) where
  abbrev encode_line : TaskRecord → Text
  encode_line = log.format.encode

  -- the loop of persistToDisk, over the records from the last to the first
  unfoldable pub write_lines : List TaskRecord → Action W GoError
  write_lines [] = pure nil
  write_lines (r ∷ records) = do
    e ← log.write_line (encode_line r)
    if is_nil e then write_lines records else pure (wrapped (txt "写入任务日志失败: " ++ error_text e) e)

  unfoldable pub persist_to_disk : List TaskRecord → Action W GoError
  unfolding write_lines
  persist_to_disk records = do
    e ← log.truncate
    if is_nil e
        then write_lines (reverse records)
        else pure (wrapped (txt "打开任务日志失败: " ++ error_text e) e)

  -- a table in memory and the write of it to the file
  abbrev stored : Table → W → GoError × (Table × W)
  stored t w = let (e, w') = persist_to_disk t.records w in (e, (t, w'))

  unfoldable pub create : Option TaskRecord → Action (Table × W) GoError
  unfolding numbered sort_records persist_to_disk
  create none (t, w) = (plain (txt "record 不能为空"), (t, w))
  create (some r) (t, w) =
      let id = t.last_id + 1 in
      stored (record { records = sort_records (t.records ++ numbered id r ∷ []); last_id = id }) w

  unfoldable pub update : ℕ → TaskRecord → Action (Table × W) GoError
  unfolding replace_record sort_records persist_to_disk
  update now r (t, w) = elim (replace_record now r t.records) [
    | none ↦ (err_no_rows, (t, w))
    | some records ↦ stored (record t { records = sort_records records }) w
  ]

  unfoldable pub delete : ℕ → Action (Table × W) GoError
  unfolding remove_record persist_to_disk
  delete id (t, w) = elim (remove_record id t.records) [
    | none ↦ (err_no_rows, (t, w))
    | some records ↦ stored (record t { records = records }) w
  ]

  unfoldable pub with_transaction : Option TxFunction → Action (Table × W) GoError
  unfolding sort_records persist_to_disk
  with_transaction none (t, w) = (plain (txt "事务函数不能为空"), (t, w))
  with_transaction (some fn) (t, w) =
      let (e, t') = fn t in
      if is_nil e then stored (record t' { records = sort_records t'.records }) w else (e, (t, w))
