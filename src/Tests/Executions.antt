-- ===== src/Tests/Executions.antt =====
-- The repository of executions at a concrete table, on a file that is a list of lines.
use open_mcp_chain.Prelude.{
  ◌≡◌, refl, arith, ℕ, Option, some, List, [], ◌∷◌, ◌++◌, txt, Text, utf8_length, none,
  if◌then◌else◌,
}
use open_mcp_chain.Errors.Value.{nil, is_nil}
use open_mcp_chain.Storage.{
  TaskRecord, Table, LineFormat, LogFile, with_transaction, persist_to_disk, newer,
}
use open_mcp_chain.Storage.Loading.{load_from_disk}
use open_mcp_chain.Storage.Order.{IsTable, ids}
use open_mcp_chain.Storage.Calls.{Call, creates, updates, deletes, script, directly, script-IsTable}
use open_mcp_chain.Storage.Commit.{IsWritable, transaction_refines}
use open_mcp_chain.Storage.Reload.{IsFile, reload}
use open_mcp_chain.Storage.Reversal.{greatest}

abbrev execution : ℕ → ℕ → TaskRecord
execution id at = record {
  id = id;
  goal = txt "balance";
  chain_action = [];
  address = [];
  thought = [];
  reply = txt "7";
  chain_id = [];
  block_number = [];
  observes = [];
  created_at = at;
  updated_at = at;
}

-- A format in which a line is the id and the time of an execution.
abbrev decode_execution : Text → Option TaskRecord
decode_execution (id ∷ at ∷ []) = some (execution id at)
decode_execution _ = none

abbrev pairs : LineFormat
pairs = record { encode = λ r. r.id ∷ r.created_at ∷ []; decode = decode_execution }

abbrev Lines : Type 0
Lines = List Text

abbrev lines_log : LogFile Lines
lines_log = record {
  format = pairs;
  truncate = λ w. (nil, []);
  write_line = λ line w. (nil, w ++ line ∷ []);
  open_read = λ w. (nil, w);
  read_lines = λ w. ((w, nil), w);
}

lines_log-IsWritable : IsWritable lines_log
lines_log-IsWritable = record { truncates = λ w. refl; writes = λ line w. refl }

lines_log-IsFile : IsFile lines_log (λ w. w)
lines_log-IsFile = record {
  truncate_fine = λ w. refl;
  truncate_empties = λ w. refl;
  write_fine = λ line w. refl;
  write_appends = λ line w h. refl;
  open_fine = λ w. refl;
  open_keeps = λ w. refl;
  read_gives = λ w. refl;
}

abbrev two : Table
two = record { records = execution 2 9 ∷ execution 1 5 ∷ []; last_id = 3 }

two-IsTable : IsTable two
unfolding newer
two-IsTable = record {
  sorted = ((refl, tt), (tt, tt));
  distinct = ((λ e. ground (arith, e), tt), (tt, tt));
  given = (omega arith, (omega arith, tt));
  short = omega arith;
}

abbrev calls : List Call
calls = creates (some (execution 0 7)) ∷ updates 12 (execution 1 5) ∷ deletes 8 ∷ []

script-IsTable_example : IsTable (script calls two).1
script-IsTable_example = script-IsTable calls two two-IsTable

transaction_refines_example :
    let (e, (t', w')) = directly lines_log calls (two, []) in
    let (e₁, (t₁, w₁)) = with_transaction lines_log (some (script calls)) (two, []) in
    (e₁ ≡ e) × (t₁ ≡ (if is_nil e then t' else two))
transaction_refines_example =
    transaction_refines lines_log lines_log-IsWritable calls two [] two-IsTable

reload_example :
    (load_from_disk lines_log 20 (persist_to_disk lines_log two.records []).1).0
    ≡ (some (record { records = two.records; last_id = greatest (ids two.records) }), nil)
unfolding utf8_length
reload_example =
    reload lines_log (λ w. w) lines_log-IsFile 20 two [] two-IsTable
      ((omega arith, omega arith, omega arith), ((omega arith, omega arith, omega arith), tt))
      (
        (((refl, (refl, tt)), (refl, (refl, tt))), refl),
        ((((refl, (refl, tt)), (refl, (refl, tt))), refl), tt),
      )
