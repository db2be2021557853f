-- ===== src/Storage/Reversal.antt =====
-- Sorting records that are read in the opposite order, and the last id among them.
use mathlib.Core.Path.{subst}
use mathlib.Core.List.{reverse, reverse-cons}
use open_mcp_chain.Prelude.{ℕ, ◌≡◌, ◌≢◌, refl, sym, ap, ◌∙◌, List, [], ◌∷◌, ◌++◌, arith, max, All}
use open_mcp_chain.Prelude.Shuffle.{
  Shuffle, none_left, keep, swap, chain, Shuffle-refl, Shuffle-map,
}
use open_mcp_chain.Prelude.Sort.{sort_slice}
use open_mcp_chain.Prelude.SortLaws.{IsApart, sort_slice_unique, IsDistinct}
use open_mcp_chain.Storage.{TaskRecord, Table, newer, sort_task_records, sort_records}
use open_mcp_chain.Storage.Loading.{table_of}
use open_mcp_chain.Storage.Order.{
  IsTable, IsDistinct as IsDistinct_ids, ids, newer-IsStrict, sort_records_fixed,
}

abbrev pub greatest : List ℕ → ℕ
greatest [] = 0
greatest (n ∷ ns) = max n (greatest ns)

Shuffle-snoc {ℓ} : {A : Type ℓ} (x : A) (xs : List A) → Shuffle (x ∷ xs) (xs ++ x ∷ [])
Shuffle-snoc x [] = Shuffle-refl _
Shuffle-snoc x (y ∷ ys) = chain (swap x y ys) (keep y (Shuffle-snoc x ys))

pub Shuffle-reverse {ℓ} : {A : Type ℓ} (xs : List A) → Shuffle xs (reverse xs)
Shuffle-reverse [] = none_left
Shuffle-reverse (x ∷ xs) =
    subst (Shuffle (x ∷ xs)) (sym (reverse-cons x xs))
      (chain (keep x (Shuffle-reverse xs)) (Shuffle-snoc x (reverse xs)))

Shuffle-greatest : {ns ms : List ℕ} → Shuffle ns ms → greatest ns ≡ greatest ms
Shuffle-greatest none_left = refl
Shuffle-greatest (keep n s) = ap (max n) (Shuffle-greatest s)
Shuffle-greatest (swap n m ns) = omega arith
Shuffle-greatest (chain s t) = Shuffle-greatest s ∙ Shuffle-greatest t

newer-IsApart : (r q : TaskRecord) → r.id ≢ q.id → IsApart newer r q
unfolding newer
newer-IsApart r q h = ground arith

All-IsApart :
    (r : TaskRecord) (l : List TaskRecord) → All (λ n. r.id ≢ n) (ids l) → All (IsApart newer r) l
All-IsApart r [] h = tt
All-IsApart r (q ∷ l) (h, hs) = (newer-IsApart r q h, All-IsApart r l hs)

ids-IsDistinct : (l : List TaskRecord) → IsDistinct_ids (ids l) → IsDistinct newer l
ids-IsDistinct [] d = tt
ids-IsDistinct (r ∷ l) (h, d) = (All-IsApart r l h, ids-IsDistinct l d)

-- Sorting the lines of the file gives the table back.
sort_records-reverse : (t : Table) → IsTable t → sort_records (reverse t.records) ≡ t.records
unfolding sort_records sort_task_records
sort_records-reverse t v =
    let same =
      sort_slice_unique newer newer-IsStrict (Shuffle-reverse t.records)
        (ids-IsDistinct t.records v.distinct) in
    rw (sym same) (sort_records_fixed t v)

table_of-cons :
    (r : TaskRecord) (records : List TaskRecord) (m f : ℕ)
    → table_of (record { records = r ∷ records; max_id = m; fallback_id = f })
      ≡ record { records = sort_records (r ∷ records); last_id = m }
unfolding table_of
table_of-cons r records m f = refl

table_of-any :
    (records : List TaskRecord) (f : ℕ)
    → table_of
        (record { records = records; max_id = max 0 (greatest (ids records)); fallback_id = f })
      ≡ record { records = sort_records records; last_id = greatest (ids records) }
unfolding table_of sort_records sort_task_records sort_slice
table_of-any [] f = refl
table_of-any (r ∷ records) f =
    let same : max 0 (greatest (ids (r ∷ records))) ≡ greatest (ids (r ∷ records)) = omega arith in
    rw same (table_of-cons r records (greatest (ids (r ∷ records))) f)

pub table_of-reverse :
    (t : Table)
    → IsTable t
    → table_of (record {
      records = reverse t.records;
      max_id = max 0 (greatest (ids (reverse t.records)));
      fallback_id = 0;
    })
      ≡ record { records = t.records; last_id = greatest (ids t.records) }
table_of-reverse t v =
    let same =
      Shuffle-greatest (Shuffle-map (λ (r : TaskRecord). r.id) (Shuffle-reverse t.records)) in
    table_of-any (reverse t.records) 0 ∙ rw (sort_records-reverse t v, same) refl
