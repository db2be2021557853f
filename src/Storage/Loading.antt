-- ===== src/Storage/Loading.antt =====
-- internal/storage/mysql/task_repository.go: loadFromDisk, which reads the log file into a new repository.
use Prim.Native.Nat.{◌+◌}
use open_mcp_chain.Prelude.{
  ℕ, Bool, Option, none, some, List, [], ◌∷◌, ◌++◌, Text, txt, eqb, ltb, leb, if◌then◌else◌,
  utf8_length,
}
use open_mcp_chain.Errors.Value.{GoError, nil, plain, wrapped, is_nil, error_text}
use open_mcp_chain.Task.Interfaces.{Action, pure, ◌>>=◌}
use open_mcp_chain.Storage.{TaskRecord, Table, LineFormat, LogFile, sort_records}

-- What loadFromDisk has read so far.
pub record Restored : Type 0 where
  pub records : List TaskRecord
  pub max_id : ℕ
  pub fallback_id : ℕ

-- one line of the file; `none` is a line that json.Unmarshal refuses. `now` is what time.Now gives.
unfoldable pub restore_line : ℕ → Option TaskRecord → Restored → Restored
restore_line now none acc = acc
restore_line now (some r) acc =
    let fallback_id = if eqb r.id 0 then acc.fallback_id + 1 else acc.fallback_id in
    let id = if eqb r.id 0 then fallback_id else r.id in
    let created_at = if eqb r.created_at 0 then now else r.created_at in
    let updated_at = if eqb r.updated_at 0 then created_at else r.updated_at in
    record {
      records =
          acc.records
          ++ record r { id = id; created_at = created_at; updated_at = updated_at } ∷ [];
      max_id = if ltb acc.max_id id then id else acc.max_id;
      fallback_id = fallback_id;
    }

unfoldable pub restore_lines : LineFormat → ℕ → List Text → Restored → Restored
unfolding restore_line
restore_lines format now [] acc = acc
restore_lines format now (line ∷ lines) acc =
    restore_lines format now lines (restore_line now (format.decode line) acc)

abbrev pub empty_table : Table
empty_table = record { records = []; last_id = 0 }

abbrev pub nothing_restored : Restored
nothing_restored = record { records = []; max_id = 0; fallback_id = 0 }

-- the end of loadFromDisk
unfoldable pub table_of : Restored → Table
unfolding sort_records
table_of acc = elim acc.records [
  | [] ↦ empty_table
  | _ ∷ _ ↦ record { records = sort_records acc.records; last_id = acc.max_id }
]

-- bufio.MaxScanTokenSize, bufio.ErrTooLong
abbrev pub max_scan_token_size : ℕ
max_scan_token_size = 65536

abbrev pub err_too_long : GoError
err_too_long = plain (txt "bufio.Scanner: token too long")

-- The bytes of a line, which with its newline has to fit into the buffer of the scanner.
unfoldable pub is_too_long : Text → Bool
unfolding utf8_length
is_too_long line = leb max_scan_token_size (utf8_length line)

abbrev before : Text → List Text × GoError → List Text × GoError
before line (lines, e) = (line ∷ lines, e)

-- The lines that bufio.Scanner yields and the error it has at the end, over the lines of a file and the error
-- of reading it: a line that is too long ends the scan.
unfoldable pub scan : List Text → GoError → List Text × GoError
unfolding is_too_long
scan [] e = ([], e)
scan (line ∷ lines) e =
    let rest = scan lines e in if is_too_long line then ([], err_too_long) else before line rest

-- what loadFromDisk makes of what the scanner yields
unfoldable pub loaded : LineFormat → ℕ → List Text × GoError → Option Table × GoError
unfolding restore_lines table_of
loaded format now (lines, e) =
    if is_nil e
    then (some (table_of (restore_lines format now lines nothing_restored)), nil)
    else (none, wrapped (txt "解析任务日志失败: " ++ error_text e) e)

-- NewMemoryTaskRepository on a directory that is there: loadFromDisk of a new repository. All lines are read
-- at one time of the clock.
unfoldable pub load_from_disk : {W : Type 0} → LogFile W → ℕ → Action W (Option Table × GoError)
unfolding loaded scan
load_from_disk log now = do
  e ← log.open_read
  if is_nil e
      then (do read ← log.read_lines; pure (loaded log.format now (scan read.0 read.1)))
      else pure (none, wrapped (txt "读取任务日志失败: " ++ error_text e) e)
