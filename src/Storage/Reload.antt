-- ===== src/Storage/Reload.antt =====
-- What a new repository finds in the file that another one wrote.
use mathlib.Core.List.{reverse}
use open_mcp_chain.Prelude.{
  ℕ, ◌≤◌, ◌≡◌, refl, sym, ap, ◌∙◌, none, some, List, [], ◌∷◌, ◌++◌, arith, if◌then◌else◌, eqb, ltb,
  max, All, true, false, Bool, ◌&&◌, Text, txt, utf8_length, Bool-cases, inl, inr,
}
use open_mcp_chain.Prelude.Numerals.{Lacks}
use open_mcp_chain.Prelude.Shuffle.{Shuffle, none_left, keep, swap, chain, Shuffle-All}
use open_mcp_chain.Errors.Value.{GoError, nil, wrapped, error_text}
use open_mcp_chain.Task.Interfaces.{pure, ◌>>=◌}
use open_mcp_chain.Storage.{TaskRecord, Table, LineFormat, LogFile, write_lines, persist_to_disk}
use open_mcp_chain.Storage.Loading.{
  Restored, restore_line, restore_lines, scan, is_too_long, max_scan_token_size, err_too_long,
  loaded, load_from_disk, nothing_restored,
}
use open_mcp_chain.Storage.Order.{IsTable, ids}
use open_mcp_chain.Storage.Reversal.{greatest, Shuffle-reverse, table_of-reverse}

-- A text with neither a newline nor a carriage return, which the scanner would read back otherwise.
abbrev pub IsLine : Text → Type 0
IsLine line = Lacks 10 line × Lacks 13 line

-- A file that takes every line and gives back the lines that were written.
pub record IsFile {W : Type 0} (log : LogFile W) (contents : W → List Text) : Type 0 where
  pub truncate_fine : (w : W) → (log.truncate w).0 ≡ nil
  pub truncate_empties : (w : W) → contents (log.truncate w).1 ≡ []
  pub write_fine : (line : Text) (w : W) → (log.write_line line w).0 ≡ nil
  pub write_appends :
      (line : Text) (w : W)
      → IsLine line
      → contents (log.write_line line w).1 ≡ contents w ++ line ∷ []
  pub open_fine : (w : W) → (log.open_read w).0 ≡ nil
  pub open_keeps : (w : W) → contents (log.open_read w).1 ≡ contents w
  pub read_gives : (w : W) → (log.read_lines w).0 ≡ (contents w, nil)

-- Nothing that loadFromDisk would fill in.
abbrev pub IsComplete : TaskRecord → Type 0
IsComplete r = (1 ≤ r.id) × (1 ≤ r.created_at) × (1 ≤ r.updated_at)

-- JSON makes one line of the record, and reads the record from it.
abbrev pub IsReadable : LineFormat → TaskRecord → Type 0
IsReadable format r = IsLine (format.encode r) × (format.decode (format.encode r) ≡ some r)

-- Every record has a line that is shorter than 64 KB.
abbrev pub all_fit : LineFormat → List TaskRecord → Bool
all_fit format [] = true
all_fit format (r ∷ records) =
    ltb (utf8_length (format.encode r)) max_scan_token_size && all_fit format records

all_fit-Shuffle :
    (format : LineFormat) {l m : List TaskRecord}
    → Shuffle l m
    → all_fit format l ≡ all_fit format m
all_fit-Shuffle format none_left = refl
all_fit-Shuffle format (keep r s) = rw (all_fit-Shuffle format s) refl
all_fit-Shuffle format (swap r q l) = ground arith
all_fit-Shuffle format (chain s t) = all_fit-Shuffle format s ∙ all_fit-Shuffle format t

append-nil {ℓ} : {A : Type ℓ} (xs : List A) → xs ++ [] ≡ xs
append-nil [] = refl
append-nil (x ∷ xs) = ap (◌∷◌ x) (append-nil xs)

append_assoc {ℓ} :
    {A : Type ℓ} (xs : List A) (x : A) (ys : List A) → (xs ++ x ∷ []) ++ ys ≡ xs ++ x ∷ ys
append_assoc [] x ys = refl
append_assoc (z ∷ xs) x ys = ap (◌∷◌ z) (append_assoc xs x ys)

lines_of : LineFormat → List TaskRecord → List Text
lines_of format [] = []
lines_of format (r ∷ records) = format.encode r ∷ lines_of format records

scan-fit :
    (format : LineFormat) (records : List TaskRecord)
    → all_fit format records ≡ true
    → scan (lines_of format records) nil ≡ (lines_of format records, nil)
unfolding scan lines_of is_too_long
scan-fit format [] h = refl
scan-fit format (r ∷ records) h = ground (arith, scan-fit format records)

scan-long :
    (format : LineFormat) (records : List TaskRecord)
    → all_fit format records ≡ false
    → (scan (lines_of format records) nil).1 ≡ err_too_long
unfolding scan lines_of is_too_long
scan-long format [] h = cc
scan-long format (r ∷ records) h = ground (arith, scan-long format records)

module _ {W : Type 0} (log : LogFile W) (contents : W → List Text)
    (file : IsFile log contents) where
  write_lines-contents :
      (records : List TaskRecord) (w : W)
      → All (IsReadable log.format) records
      → contents (write_lines log records w).1 ≡ contents w ++ lines_of log.format records
  unfolding write_lines ◌>>=◌ lines_of
  write_lines-contents [] w h = sym (append-nil (contents w))
  write_lines-contents (r ∷ records) w ((line, _), h) =
      rw
        (
          file.write_fine (log.format.encode r) w,
          write_lines-contents records (log.write_line (log.format.encode r) w).1 h,
          file.write_appends (log.format.encode r) w line,
        )
        (append_assoc (contents w) (log.format.encode r) (lines_of log.format records))

  persist_to_disk-contents :
      (records : List TaskRecord) (w : W)
      → All (IsReadable log.format) (reverse records)
      → contents (persist_to_disk log records w).1 ≡ lines_of log.format (reverse records)
  unfolding persist_to_disk ◌>>=◌
  persist_to_disk-contents records w h =
      rw
        (
          file.truncate_fine w,
          write_lines-contents (reverse records) (log.truncate w).1 h,
          file.truncate_empties w,
        )
        refl

restore_line_complete :
    (now : ℕ) (r : TaskRecord) (acc : Restored)
    → IsComplete r
    → restore_line now (some r) acc ≡ record {
      records = acc.records ++ r ∷ [];
      max_id = max acc.max_id r.id;
      fallback_id = acc.fallback_id;
    }
unfolding restore_line
restore_line_complete now r acc (id, created, updated) =
    let named : eqb r.id 0 ≡ false = ground arith in
    let dated : eqb r.created_at 0 ≡ false = ground arith in
    let changed : eqb r.updated_at 0 ≡ false = ground arith in
    let greater : (if ltb acc.max_id r.id then r.id else acc.max_id) ≡ max acc.max_id r.id =
      ground arith in
    simp (named, dated, changed, greater)

restore_lines_complete :
    (format : LineFormat) (now : ℕ) (records : List TaskRecord) (acc : Restored)
    → All IsComplete records
    → All (IsReadable format) records
    → restore_lines format now (lines_of format records) acc ≡ record {
      records = acc.records ++ records;
      max_id = max acc.max_id (greatest (ids records));
      fallback_id = acc.fallback_id;
    }
unfolding restore_lines lines_of
restore_lines_complete format now [] acc h readable =
    let least : max acc.max_id 0 ≡ acc.max_id = omega arith in
    rw (append-nil acc.records, least) refl
restore_lines_complete format now (r ∷ records) acc (complete, h) ((_, same), readable) =
    let assoc : max (max acc.max_id r.id) (greatest (ids records))
        ≡ max acc.max_id (max r.id (greatest (ids records))) =
      omega arith in
    let acc' : Restored = record {
      records = acc.records ++ r ∷ [];
      max_id = max acc.max_id r.id;
      fallback_id = acc.fallback_id;
    } in
    let rest = restore_lines_complete format now records acc' h readable in
    ap (restore_lines format now (lines_of format records))
      (ap (λ l. restore_line now l acc) same ∙ restore_line_complete now r acc complete)
    ∙ rest
    ∙ rw (append_assoc acc.records r records, assoc) refl

loaded-long :
    (format : LineFormat) (now : ℕ) (scanned : List Text × GoError)
    → scanned.1 ≡ err_too_long
    → loaded format now scanned
      ≡ (none, wrapped (txt "解析任务日志失败: bufio.Scanner: token too long") err_too_long)
unfolding loaded error_text
loaded-long format now (lines, e) h = rw h refl

-- What loading makes of the lines of a table that is in order and complete.
loaded-lines :
    (format : LineFormat) (now : ℕ) (t : Table)
    → IsTable t
    → All IsComplete t.records
    → All (IsReadable format) t.records
    → loaded format now (scan (lines_of format (reverse t.records)) nil) ≡ (
        if all_fit format t.records
        then (some (record { records = t.records; last_id = greatest (ids t.records) }), nil)
        else (none, wrapped (txt "解析任务日志失败: bufio.Scanner: token too long") err_too_long))
unfolding loaded
loaded-lines format now t v complete readable =
    let mirrored = Shuffle-reverse t.records in
    let lines =
      restore_lines_complete format now (reverse t.records) nothing_restored
        (Shuffle-All IsComplete mirrored complete)
        (Shuffle-All (IsReadable format) mirrored readable) in
    elim (Bool-cases (all_fit format t.records)) [
      | inl fit ↦
          rw
            (
              fit,
              scan-fit format (reverse t.records) (sym (all_fit-Shuffle format mirrored) ∙ fit),
              lines,
            )
            (ap (λ (x : Table). (some x, nil)) (table_of-reverse t v))
      | inr long ↦ rw long (
          loaded-long format now (scan (lines_of format (reverse t.records)) nil)
            (scan-long format (reverse t.records) (sym (all_fit-Shuffle format mirrored) ∙ long)))
    ]

module _ {W : Type 0} (log : LogFile W) (contents : W → List Text)
    (file : IsFile log contents) where
  load_from_disk-contents :
      (now : ℕ) (w : W)
      → (load_from_disk log now w).0 ≡ loaded log.format now (scan (contents w) nil)
  unfolding load_from_disk ◌>>=◌ pure
  load_from_disk-contents now w =
      rw (file.open_fine w, file.read_gives (log.open_read w).1, file.open_keeps w) refl

  -- A repository whose table is in order and complete, and whose records JSON writes in one line each and reads
  -- back, writes itself to a file that takes every line and gives it back. Where each line is shorter than
  -- 64 KB, a new repository on that file has the same records in the same order, and goes on from the greatest
  -- id among them; otherwise the new repository cannot be made, as the scanner refuses a line.
  pub reload :
      (now : ℕ) (t : Table) (w : W)
      → IsTable t
      → All IsComplete t.records
      → All (IsReadable log.format) t.records
      → (load_from_disk log now (persist_to_disk log t.records w).1).0 ≡ (
          if all_fit log.format t.records
          then (some (record { records = t.records; last_id = greatest (ids t.records) }), nil)
          else (none, wrapped (txt "解析任务日志失败: bufio.Scanner: token too long") err_too_long))
  reload now t w v complete readable =
      rw
        (
          load_from_disk-contents now (persist_to_disk log t.records w).1,
          persist_to_disk-contents log contents file t.records w
              (Shuffle-All (IsReadable log.format) (Shuffle-reverse t.records) readable),
        )
        (loaded-lines log.format now t v complete readable)
