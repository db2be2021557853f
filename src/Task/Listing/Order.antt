-- ===== src/Task/Listing/Order.antt =====
-- The order of a listing: what `List` returns before it cuts out a page.
use open_mcp_chain.Prelude.{
  ◌<◌, ◌≡◌, ◌≢◌, refl, true, false, not, ◌⊎◌, inl, inr, none, some, List, [], ◌∷◌, map, Text,
  text_eq, text_beq_iff, text_ltb, arith, Bool-cases, All, keep_if,
}
use open_mcp_chain.Prelude.Map.{Map, lookup, IsUnique}
use open_mcp_chain.Prelude.Shuffle.{Shuffle, Shuffle-map, Shuffle-keep_if}
use open_mcp_chain.Prelude.SortLaws.{
  IsStrict, IsSorted, IsDistinct, IsApart, sort_slice-Shuffle, sort_slice-IsSorted,
  sort_slice_unique,
}
use open_mcp_chain.Task.Types.{Task}
use open_mcp_chain.Task.Options.{SortOrder, updated_asc, ListOptions}
use open_mcp_chain.Task.Store.{MemoryStore, clone_task}
use open_mcp_chain.Task.Store.Valid.{IsValid}
use open_mcp_chain.Task.Listing.{matches_list_filters, task_less, filtered, listing}

text_ltb-asym : (s t : Text) → text_ltb s t ≡ true → text_ltb t s ≡ false
unfolding text_ltb
text_ltb-asym [] [] h = ground arith
text_ltb-asym [] (y ∷ ys) h = refl
text_ltb-asym (x ∷ xs) [] h = ground arith
text_ltb-asym (x ∷ xs) (y ∷ ys) h = ground (arith, text_ltb-asym xs ys)

text_ltb-through :
    (s t u : Text) → text_ltb s t ≡ false → text_ltb t u ≡ false → text_ltb s u ≡ false
unfolding text_ltb
text_ltb-through [] [] u h k = k
text_ltb-through [] (y ∷ ys) u h k = ground arith
text_ltb-through (x ∷ xs) [] [] h k = refl
text_ltb-through (x ∷ xs) [] (z ∷ zs) h k = ground arith
text_ltb-through (x ∷ xs) (y ∷ ys) [] h k = refl
text_ltb-through (x ∷ xs) (y ∷ ys) (z ∷ zs) h k = ground (arith, text_ltb-through xs ys zs)

text_ltb_apart : (s t : Text) → s ≢ t → text_ltb s t ≡ not (text_ltb t s)
unfolding text_ltb
text_ltb_apart [] [] h = absurd (h refl)
text_ltb_apart [] (y ∷ ys) h = refl
text_ltb_apart (x ∷ xs) [] h = refl
text_ltb_apart (x ∷ xs) (y ∷ ys) h = ground (arith, text_ltb_apart xs ys)

task_less-IsStrict : (o : SortOrder) → IsStrict (task_less o)
unfolding task_less
task_less-IsStrict updated_asc = record {
  asym = λ t u h. ground (arith, text_ltb-asym t.id u.id);
  through = λ t u v h k. ground (arith, text_ltb-through t.id u.id v.id);
}
task_less-IsStrict _ = record {
  asym = λ t u h. ground (arith, text_ltb-asym t.id u.id);
  through = λ t u v h k. ground (arith, text_ltb-through t.id u.id v.id);
}

task_less-IsApart : (o : SortOrder) (t u : Task) → t.id ≢ u.id → IsApart (task_less o) t u
unfolding task_less
task_less-IsApart updated_asc t u h = ground (arith, text_ltb_apart t.id u.id h)
task_less-IsApart _ t u h = ground (arith, text_ltb_apart t.id u.id h)

-- `t` may stand before `u`: by the update times in the direction asked for, between equal ones by the
-- creation times in the same direction, and between equal ones by the ids, which always ascend.
abbrev pub Precedes : SortOrder → Task → Task → Type 0
Precedes updated_asc t u =
    (t.updated_at < u.updated_at)
    ⊎ ((t.updated_at ≡ u.updated_at)
        × ((t.created_at < u.created_at)
            ⊎ ((t.created_at ≡ u.created_at) × (text_ltb u.id t.id ≡ false))))
Precedes _ t u =
    (u.updated_at < t.updated_at)
    ⊎ ((t.updated_at ≡ u.updated_at)
        × ((u.created_at < t.created_at)
            ⊎ ((t.created_at ≡ u.created_at) × (text_ltb u.id t.id ≡ false))))

abbrev pub IsOrdered : SortOrder → List Task → Type 0
IsOrdered o [] = Unit
IsOrdered o (t ∷ ts) = All (Precedes o t) ts × IsOrdered o ts

precedes : (o : SortOrder) (t u : Task) → task_less o u t ≡ false → Precedes o t u
unfolding task_less
precedes updated_asc t u h = ground arith
precedes _ t u h = ground arith

All-Precedes :
    (o : SortOrder) (t : Task) (us : List Task)
    → All (λ u. task_less o u t ≡ false) us
    → All (Precedes o t) us
All-Precedes o t [] h = tt
All-Precedes o t (u ∷ us) (h, hs) = (precedes o t u h, All-Precedes o t us hs)

IsSorted-IsOrdered : (o : SortOrder) (ts : List Task) → IsSorted (task_less o) ts → IsOrdered o ts
IsSorted-IsOrdered o [] s = tt
IsSorted-IsOrdered o (t ∷ ts) (h, s) = (All-Precedes o t ts h, IsSorted-IsOrdered o ts s)

-- For any options and store, the listing is ordered by update time in the direction of the options, ties
-- by creation time in the same direction, and those by ascending id; and it is a rearrangement of the
-- tasks that pass the filters.
pub listing-IsOrdered :
    (opts : ListOptions) (store : MemoryStore)
    → IsOrdered opts.order (listing opts store) × Shuffle (filtered opts store) (listing opts store)
unfolding listing
listing-IsOrdered opts store = (
  IsSorted-IsOrdered opts.order (listing opts store) (
      sort_slice-IsSorted (task_less opts.order) (task_less-IsStrict opts.order)
        (filtered opts store)),
  sort_slice-Shuffle (task_less opts.order) (filtered opts store),
)

-- Each stored task has its key as its id.
abbrev Keyed : Map Text Task → Type 0
Keyed m = All (λ (e : Text × Task). e.1.id ≡ e.0) m

module _ (opts : ListOptions) where
  chosen : Map Text Task → List Task
  chosen m = map clone_task (keep_if (λ t. matches_list_filters t opts) (map (λ e. e.1) m))

  absent-IsApart :
      (t : Task) (m : Map Text Task)
      → Keyed m
      → lookup t.id m ≡ none
      → All (IsApart (task_less opts.order) (clone_task t)) (chosen m)
  unfolding chosen lookup
  absent-IsApart t [] k h = tt
  absent-IsApart t ((j, u) ∷ m) (key, k) h = elim (Bool-cases (matches_list_filters u opts)) [
    | inl good ↦ rw good (
      task_less-IsApart opts.order (clone_task t) (clone_task u)
          (unfold clone_task in ground (arith, text_beq_iff j t.id)),
      absent-IsApart t m k (ground arith),
    )
    | inr bad ↦ rw bad (absent-IsApart t m k (ground arith))
  ]

  chosen-IsDistinct :
      (m : Map Text Task) → Keyed m → IsUnique m → IsDistinct (task_less opts.order) (chosen m)
  unfolding chosen
  chosen-IsDistinct [] k q = tt
  chosen-IsDistinct ((j, u) ∷ m) (key, k) (fresh, q) =
      elim (Bool-cases (matches_list_filters u opts)) [
        | inl good ↦ rw good (absent-IsApart u m k (rw key fresh), chosen-IsDistinct m k q)
        | inr bad ↦ rw bad (chosen-IsDistinct m k q)
      ]

entries-Keyed :
    (m : Map Text Task)
    → ((id : Text) (t : Task) → lookup id m ≡ some t → t.id ≡ id)
    → IsUnique m
    → Keyed m
unfolding lookup
entries-Keyed [] k q = tt
entries-Keyed ((j, u) ∷ m) k (fresh, q) = (
  k j u (ground (arith, text_beq_iff j j)),
  entries-Keyed m (λ id t h. k id t (ground (arith, text_beq_iff j id))) q,
)

-- The iteration order of the map does not matter: two valid stores whose entries are the same up to their
-- order have the same listing, for any options.
pub listing_order_free :
    (opts : ListOptions) (store store' : MemoryStore)
    → IsValid store
    → Shuffle store.tasks store'.tasks
    → listing opts store ≡ listing opts store'
unfolding listing filtered
listing_order_free opts store store' v s =
    sort_slice_unique (task_less opts.order) (task_less-IsStrict opts.order)
      (Shuffle-map clone_task
        (Shuffle-keep_if (λ t. matches_list_filters t opts) (Shuffle-map (λ e. e.1) s)))
      (unfold chosen in
        chosen-IsDistinct opts store.tasks
          (entries-Keyed store.tasks (λ id t h. (v.at_id id t h).keyed) v.unique) v.unique)
