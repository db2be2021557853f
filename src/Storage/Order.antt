-- ===== src/Storage/Order.antt =====
-- The records of a repository: newest first, with ids of their own, at most 512.
use Prim.Native.Nat.{◌+◌}
use open_mcp_chain.Prelude.{
  ℕ, zero, suc, ◌≤◌, ◌≡◌, ◌≢◌, refl, sym, ap, false, Option, none, some, List, [], ◌∷◌, ◌++◌, map,
  arith, eqb, ltb, length, take, length-take, if◌then◌else◌, Bool-cases, Option-cases, All, inl,
  inr,
}
use open_mcp_chain.Prelude.Sort.{sort_slice}
use open_mcp_chain.Prelude.SortLaws.{
  IsStrict, IsSorted, sort_slice-IsSorted, sort_slice-Shuffle, sort_slice_fixed,
}
use open_mcp_chain.Prelude.Shuffle.{Shuffle, none_left, keep, swap, chain, Shuffle-map, Shuffle-All}
use open_mcp_chain.Storage.{
  TaskRecord, Table, newer, max_records, sort_task_records, sort_records, numbered, revised,
  replace_record, remove_record, tx_create, tx_update, tx_delete,
}

pub newer-IsStrict : IsStrict newer
unfolding newer
newer-IsStrict = record { asym = λ r q h. ground arith; through = λ r q s h k. ground arith }

abbrev pub ids : List TaskRecord → List ℕ
ids records = map (λ r. r.id) records

-- No number occurs twice.
abbrev pub IsDistinct : List ℕ → Type 0
IsDistinct [] = Unit
IsDistinct (n ∷ ns) = All (λ m. n ≢ m) ns × IsDistinct ns

pub record IsTable (t : Table) : Type 0 where
  pub sorted : IsSorted newer t.records
  pub distinct : IsDistinct (ids t.records)
  pub given : All (λ n. n ≤ t.last_id) (ids t.records)
  pub short : length t.records ≤ max_records

Shuffle-IsDistinct : {ns ms : List ℕ} → Shuffle ns ms → IsDistinct ns → IsDistinct ms
Shuffle-IsDistinct none_left d = d
Shuffle-IsDistinct (keep n s) (h, d) = (Shuffle-All (λ m. n ≢ m) s h, Shuffle-IsDistinct s d)
Shuffle-IsDistinct (swap n m ns) ((nm, hn), (hm, d)) = ((λ e. nm (sym e), hm), (hn, d))
Shuffle-IsDistinct (chain s t) d = Shuffle-IsDistinct t (Shuffle-IsDistinct s d)

All-take {ℓ κ} : {A : Type ℓ} (P : A → Type κ) (n : ℕ) (xs : List A) → All P xs → All P (take n xs)
All-take P zero xs h = tt
All-take P (suc n) [] h = tt
All-take P (suc n) (x ∷ xs) (h, hs) = (h, All-take P n xs hs)

take-IsSorted : (n : ℕ) (l : List TaskRecord) → IsSorted newer l → IsSorted newer (take n l)
take-IsSorted zero l s = tt
take-IsSorted (suc n) [] s = tt
take-IsSorted (suc n) (x ∷ xs) (h, s) =
    (All-take (λ y. newer y x ≡ false) n xs h, take-IsSorted n xs s)

take-IsDistinct : (n : ℕ) (ns : List ℕ) → IsDistinct ns → IsDistinct (take n ns)
take-IsDistinct zero ns d = tt
take-IsDistinct (suc n) [] d = tt
take-IsDistinct (suc n) (m ∷ ms) (h, d) = (All-take (λ k. m ≢ k) n ms h, take-IsDistinct n ms d)

ids-take : (n : ℕ) (l : List TaskRecord) → ids (take n l) ≡ take n (ids l)
ids-take zero l = refl
ids-take (suc n) [] = refl
ids-take (suc n) (r ∷ l) = ap (◌∷◌ r.id) (ids-take n l)

abbrev cut : List TaskRecord → List TaskRecord
cut l = if ltb max_records (length l) then take max_records l else l

cut-IsTable :
    (l : List TaskRecord) (last : ℕ)
    → IsSorted newer l
    → IsDistinct (ids l)
    → All (λ n. n ≤ last) (ids l)
    → IsTable (record { records = cut l; last_id = last })
cut-IsTable l last s d h = elim (Bool-cases (ltb max_records (length l))) [
  | inl long ↦ rw long (record {
    sorted = take-IsSorted max_records l s;
    distinct = rw (ids-take max_records l) (take-IsDistinct max_records (ids l) d);
    given = rw (ids-take max_records l) (All-take (λ n. n ≤ last) max_records (ids l) h);
    short = omega (arith, length-take max_records l);
  })
  | inr short ↦ rw short (record { sorted = s; distinct = d; given = h; short = ground arith })
]

-- Records with distinct ids up to `last` make a table once they are sorted and cut.
pub sort_records-IsTable :
    (records : List TaskRecord) (last : ℕ)
    → IsDistinct (ids records)
    → All (λ n. n ≤ last) (ids records)
    → IsTable (record { records = sort_records records; last_id = last })
unfolding sort_records sort_task_records
sort_records-IsTable records last d h =
    let same = Shuffle-map (λ (r : TaskRecord). r.id) (sort_slice-Shuffle newer records) in
    cut-IsTable (sort_slice newer records) last (sort_slice-IsSorted newer newer-IsStrict records)
      (Shuffle-IsDistinct same d) (Shuffle-All (λ n. n ≤ last) same h)

-- A table that is in order is left as it is.
pub sort_records_fixed : (t : Table) → IsTable t → sort_records t.records ≡ t.records
unfolding sort_records sort_task_records
sort_records_fixed t v =
    let short = v.short in
    let uncut : ltb max_records (length t.records) ≡ false = ground arith in
    rw (sort_slice_fixed newer t.records v.sorted, uncut) refl

All-append {ℓ κ} :
    {A : Type ℓ} (P : A → Type κ) (xs : List A) (y : A) → All P xs → P y → All P (xs ++ y ∷ [])
All-append P [] y h k = (k, tt)
All-append P (x ∷ xs) y (h, hs) k = (h, All-append P xs y hs k)

ids-append : (l : List TaskRecord) (r : TaskRecord) → ids (l ++ r ∷ []) ≡ ids l ++ r.id ∷ []
ids-append [] r = refl
ids-append (q ∷ l) r = ap (◌∷◌ q.id) (ids-append l r)

raise : (last : ℕ) (ns : List ℕ) → All (λ n. n ≤ last) ns → All (λ n. n ≤ last + 1) ns
raise last [] h = tt
raise last (n ∷ ns) (h, hs) = (omega arith, raise last ns hs)

-- An id past all others is not among them.
IsDistinct-append :
    (last : ℕ) (ns : List ℕ)
    → IsDistinct ns
    → All (λ n. n ≤ last) ns
    → IsDistinct (ns ++ (last + 1) ∷ [])
IsDistinct-append last [] d h = (tt, tt)
IsDistinct-append last (n ∷ ns) (apart, d) (h, hs) =
    (All-append (λ m. n ≢ m) ns (last + 1) apart (λ e. omega arith), IsDistinct-append last ns d hs)

pub tx_create-IsTable : (r : Option TaskRecord) (t : Table) → IsTable t → IsTable (tx_create r t).1
unfolding tx_create numbered
tx_create-IsTable none t v = v
tx_create-IsTable (some r) t v =
    let id = t.last_id + 1 in
    let ns = ids-append t.records (numbered id r) in
    sort_records-IsTable (t.records ++ numbered id r ∷ []) id
      (rw ns (IsDistinct-append t.last_id (ids t.records) v.distinct v.given))
      (rw ns (
        All-append (λ n. n ≤ id) (ids t.records) id (raise t.last_id (ids t.records) v.given)
          (omega arith)))

ids-replace_record :
    (now : ℕ) (new : TaskRecord) (l l' : List TaskRecord)
    → replace_record now new l ≡ some l'
    → ids l' ≡ ids l
unfolding replace_record revised
ids-replace_record now new [] l' h = cc
ids-replace_record now new (r ∷ l) l' h = elim (Bool-cases (eqb r.id new.id)) [
  | inl same ↦
      let here : replace_record now new (r ∷ l) ≡ some (revised now new r ∷ l) = rw same refl in
      let result : l' ≡ revised now new r ∷ l = cc in
      let id : new.id ≡ r.id = ground arith in rw result (ap (λ n. n ∷ ids l) id)
  | inr apart ↦ elim (Option-cases (replace_record now new l)) [
    | inl missing ↦
        let nowhere : replace_record now new (r ∷ l) ≡ none = rw (apart, missing) refl in
        absurd (cc)
    | inr (rest, found) ↦
        let later : replace_record now new (r ∷ l) ≡ some (r ∷ rest) = rw (apart, found) refl in
        let result : l' ≡ r ∷ rest = cc in
        rw result (ap (◌∷◌ r.id) (ids-replace_record now new l rest found))
  ]
]

pub tx_update-IsTable :
    (now : ℕ) (r : TaskRecord) (t : Table) → IsTable t → IsTable (tx_update now r t).1
unfolding tx_update
tx_update-IsTable now r t v = elim (Option-cases (replace_record now r t.records)) [
  | inl missing ↦ rw (missing, tx_update) v
  | inr (l, found) ↦
      let same = ids-replace_record now r t.records l found in
      rw (found, tx_update)
        (sort_records-IsTable l t.last_id (rw same v.distinct) (rw same v.given))
]

-- `ys` is `xs` with one element removed.
pub data Removed {ℓ} {A : Type ℓ} : List A → List A → Type ℓ where
  here : (x : A) (xs : List A) → Removed (x ∷ xs) xs
  later : {xs ys : List A} (x : A) → Removed xs ys → Removed (x ∷ xs) (x ∷ ys)

Removed-All {ℓ κ} :
    {A : Type ℓ} (P : A → Type κ) {xs ys : List A} → Removed xs ys → All P xs → All P ys
Removed-All P (here x xs) (h, hs) = hs
Removed-All P (later x q) (h, hs) = (h, Removed-All P q hs)

Removed-ids : {l l' : List TaskRecord} → Removed l l' → Removed (ids l) (ids l')
Removed-ids (here x xs) = here x.id (ids xs)
Removed-ids (later x q) = later x.id (Removed-ids q)

Removed-IsSorted : {l l' : List TaskRecord} → Removed l l' → IsSorted newer l → IsSorted newer l'
Removed-IsSorted (here x xs) (h, s) = s
Removed-IsSorted (later x q) (h, s) =
    (Removed-All (λ y. newer y x ≡ false) q h, Removed-IsSorted q s)

Removed-IsDistinct : {ns ms : List ℕ} → Removed ns ms → IsDistinct ns → IsDistinct ms
Removed-IsDistinct (here n ns) (h, d) = d
Removed-IsDistinct (later n q) (h, d) = (Removed-All (λ m. n ≢ m) q h, Removed-IsDistinct q d)

length-Removed {ℓ} : {A : Type ℓ} {xs ys : List A} → Removed xs ys → length xs ≡ length ys + 1
length-Removed (here x xs) = omega arith
length-Removed (later x q) = omega (arith, length-Removed q)

remove_record-Removed :
    (id : ℕ) (l l' : List TaskRecord) → remove_record id l ≡ some l' → Removed l l'
unfolding remove_record
remove_record-Removed id [] l' h = cc
remove_record-Removed id (r ∷ l) l' h = elim (Bool-cases (eqb r.id id)) [
  | inl same ↦
      let result : remove_record id (r ∷ l) ≡ some l = rw same refl in
      let rest : l' ≡ l = cc in rw rest (here r l)
  | inr apart ↦ elim (Option-cases (remove_record id l)) [
    | inl missing ↦
        let nowhere : remove_record id (r ∷ l) ≡ none = rw (apart, missing) refl in absurd (cc)
    | inr (rest, found) ↦
        let result : remove_record id (r ∷ l) ≡ some (r ∷ rest) = rw (apart, found) refl in
        let whole : l' ≡ r ∷ rest = cc in rw whole (later r (remove_record-Removed id l rest found))
  ]
]

pub tx_delete-IsTable : (id : ℕ) (t : Table) → IsTable t → IsTable (tx_delete id t).1
unfolding tx_delete
tx_delete-IsTable id t v = elim (Option-cases (remove_record id t.records)) [
  | inl missing ↦ rw (missing, tx_delete) v
  | inr (l, found) ↦
      let less = remove_record-Removed id t.records l found in
      let short = v.short in
      rw (found, tx_delete)
        (record {
          sorted = Removed-IsSorted less v.sorted;
          distinct = Removed-IsDistinct (Removed-ids less) v.distinct;
          given = Removed-All (λ n. n ≤ t.last_id) (Removed-ids less) v.given;
          short = omega (arith, length-Removed less);
        })
]
