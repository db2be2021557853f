-- ===== src/Storage/Commit.antt =====
-- A transaction against the same calls on the repository itself.
use Prim.Native.Nat.{◌+◌}
use mathlib.Core.List.{reverse}
use open_mcp_chain.Prelude.{
  ◌≡◌, refl, sym, ◌∙◌, none, some, List, [], ◌∷◌, ◌++◌, if◌then◌else◌, Bool-cases, Option-cases,
  inl, inr, true, Text,
}
use open_mcp_chain.Errors.Value.{GoError, nil, is_nil}
use open_mcp_chain.Task.Interfaces.{◌>>=◌}
use open_mcp_chain.Storage.{
  TaskRecord, Table, LogFile, replace_record, remove_record, numbered, sort_records, write_lines,
  persist_to_disk, tx_create, tx_update, tx_delete, create, update, delete, with_transaction,
}
use open_mcp_chain.Storage.Order.{IsTable, sort_records_fixed}
use open_mcp_chain.Storage.Calls.{
  Call, creates, updates, deletes, tx_call, script, script-IsTable, call, directly,
}

-- A log file that can be opened and takes every line.
pub record IsWritable {W : Type 0} (log : LogFile W) : Type 0 where
  pub truncates : (w : W) → (log.truncate w).0 ≡ nil
  pub writes : (line : Text) (w : W) → (log.write_line line w).0 ≡ nil

nil_of_is_nil : (e : GoError) → is_nil e ≡ true → e ≡ nil
nil_of_is_nil nil h = refl
nil_of_is_nil _ h = cc

module _ {W : Type 0} (log : LogFile W) (writable : IsWritable log) where
  write_lines-nil : (records : List TaskRecord) (w : W) → (write_lines log records w).0 ≡ nil
  unfolding write_lines ◌>>=◌
  write_lines-nil [] w = refl
  write_lines-nil (r ∷ records) w =
      rw (writable.writes (log.format.encode r) w)
        (write_lines-nil records (log.write_line (log.format.encode r) w).1)

  persist_to_disk-nil :
      (records : List TaskRecord) (w : W) → (persist_to_disk log records w).0 ≡ nil
  unfolding persist_to_disk ◌>>=◌
  persist_to_disk-nil records w =
      rw (writable.truncates w) (write_lines-nil (reverse records) (log.truncate w).1)

  -- The results of a call, without the file.
  abbrev Agrees : GoError × (Table × W) → GoError × Table → Type 0
  Agrees (e, (t, w)) (e', t') = (e ≡ e') × (t ≡ t')

  call-Agrees : (c : Call) (t : Table) (w : W) → Agrees (call log c (t, w)) (tx_call c t)
  unfolding call tx_call create update delete tx_create tx_update tx_delete
  call-Agrees (creates none) t w = (refl, refl)
  call-Agrees (creates (some r)) t w =
      let id = t.last_id + 1 in
      (persist_to_disk-nil (sort_records (t.records ++ numbered id r ∷ [])) w, refl)
  call-Agrees (updates now r) t w = elim (Option-cases (replace_record now r t.records)) [
    | inl missing ↦ rw (missing, update, tx_update) (refl, refl)
    | inr (l, found) ↦ rw (found, update, tx_update) (persist_to_disk-nil (sort_records l) w, refl)
  ]
  call-Agrees (deletes id) t w = elim (Option-cases (remove_record id t.records)) [
    | inl missing ↦ rw (missing, delete, tx_delete) (refl, refl)
    | inr (l, found) ↦ rw (found, delete, tx_delete) (persist_to_disk-nil l w, refl)
  ]

  directly-Agrees :
      (calls : List Call) (t : Table) (w : W) → Agrees (directly log calls (t, w)) (script calls t)
  unfolding directly script
  directly-Agrees [] t w = (refl, refl)
  directly-Agrees (c ∷ calls) t w =
      let (error, table) = call-Agrees c t w in
      elim (Bool-cases (is_nil (tx_call c t).0)) [
        | inl fine ↦
            let (_, (t', w')) = call log c (t, w) in
            rw (error, fine, sym table) (directly-Agrees calls t' w')
        | inr failed ↦ rw (error, failed) (refl, table)
      ]

  -- With a file that takes every write, a transaction that makes the calls in turn on a table in order
  -- returns what the calls return one after another on the repository, up to the first error; it leaves the
  -- same table where they all succeed, and otherwise the table as it was.
  pub transaction_refines :
      (calls : List Call) (t : Table) (w : W)
      → IsTable t
      → let (e, (t', w')) = directly log calls (t, w) in
        let (e₁, (t₁, w₁)) = with_transaction log (some (script calls)) (t, w) in
        (e₁ ≡ e) × (t₁ ≡ (if is_nil e then t' else t))
  unfolding with_transaction
  transaction_refines calls t w v =
      let (error, table) = directly-Agrees calls t w in
      let fixed = sort_records_fixed (script calls t).1 (script-IsTable calls t v) in
      elim (Bool-cases (is_nil (script calls t).0)) [
        | inl fine ↦
            rw (error, fine, fixed)
              (
                persist_to_disk-nil (script calls t).1.records w
                    ∙ sym (nil_of_is_nil (script calls t).0 fine),
                sym table,
              )
        | inr failed ↦ rw (error, failed) (refl, refl)
      ]
