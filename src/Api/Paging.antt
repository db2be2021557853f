-- ===== src/Api/Paging.antt =====
-- The pages that handleListTasks answers with, in the in-memory deployment.
use Prim.Native.Nat.{◌+◌, ◌*◌}
use open_mcp_chain.Prelude.{
  ℕ, zero, suc, ◌≤◌, ◌<◌, ◌≡◌, refl, sym, ap, ◌∙◌, inl, inr, Option, none, some, List, [], ◌∷◌,
  ◌++◌, map, arith, take, drop, length, length-take, length-drop, take_all, keep_if, ltb, max,
  Bool-cases, if◌then◌else◌,
}
use open_mcp_chain.Prelude.Int.{pos}
use open_mcp_chain.Prelude.Shuffle.{Shuffle, none_left, keep, swap, chain}
use open_mcp_chain.Prelude.SortLaws.{sort_slice-Shuffle}
use open_mcp_chain.Task.Types.{Task, TaskStats}
use open_mcp_chain.Task.Options.{
  ListOptions, ListOption, zero_options, with_offset, with_limit, apply_defaults,
  apply_list_options, build_list_options,
}
use open_mcp_chain.Task.Options.Normal.{apply_defaults_idem}
use open_mcp_chain.Task.Store.{MemoryStore, clone_task}
use open_mcp_chain.Task.Listing.{matches_list_filters, task_less, filtered, listing}
use open_mcp_chain.Task.Listing.Pages.{
  at_page, apply_defaults-at_page, list-at_page, take-append-drop_add,
}
use open_mcp_chain.Task.Stats.{stats as store_stats}
use open_mcp_chain.Task.Stats.Counts.{stats_counts}
use open_mcp_chain.Task.Interfaces.{◌>>=◌, Result, ok}
use open_mcp_chain.Task.Service.{list, stats}
use open_mcp_chain.Task.World.{World, memory_service, list as world_list, stats as world_stats}
use open_mcp_chain.Api.{Response, ListResponse, Body, respond, task_list}
use open_mcp_chain.Api.Filters.{FilterOptions}
use open_mcp_chain.Api.Tasks.{list_response, after_list, answer_page}

-- The page of size `n` from `k` on of all the tasks that are listed, as a client is to see it.
abbrev pub page_of : ℕ → ℕ → List Task → ListResponse
page_of k n all =
    let end = k + length (take n (drop k all)) in
    record {
      tasks = take n (drop k all);
      total = max end (length all);
      has_more = ltb end (length all);
      next_offset = if ltb end (length all) then some end else none;
    }

-- The listing in effect for the options of a request.
abbrev pub listed : List (Option ListOption) → MemoryStore → List Task
listed opts store = listing (build_list_options opts) store

apply_list_options-append :
    (xs ys : List (Option ListOption)) (o : ListOptions)
    → apply_list_options (xs ++ ys) o ≡ apply_list_options ys (apply_list_options xs o)
unfolding apply_list_options
apply_list_options-append [] ys o = refl
apply_list_options-append (none ∷ xs) ys o = apply_list_options-append xs ys o
apply_list_options-append (some f ∷ xs) ys o = apply_list_options-append xs ys (f o)

abbrev paged : List (Option ListOption) → ℕ → ℕ → List (Option ListOption)
paged opts k n = opts ++ some (with_offset (pos k)) ∷ some (with_limit (pos n)) ∷ []

apply-paged :
    (opts : List (Option ListOption)) (k n : ℕ) (o : ListOptions)
    → apply_list_options (paged opts k n) o ≡ at_page (apply_list_options opts o) k n
unfolding apply_list_options with_offset with_limit
apply-paged opts k n o =
    apply_list_options-append opts (some (with_offset (pos k)) ∷ some (with_limit (pos n)) ∷ []) o

build-paged :
    (opts : List (Option ListOption)) (k n : ℕ)
    → 1 ≤ n
    → n ≤ 100
    → build_list_options (paged opts k n) ≡ at_page (build_list_options opts) k n
unfolding build_list_options
build-paged opts k n low high =
    ap apply_defaults (apply-paged opts k n zero_options)
    ∙ apply_defaults-at_page (apply_list_options opts zero_options) k n low high

build_list_options_idem :
    (opts : List (Option ListOption))
    → apply_defaults (build_list_options opts) ≡ build_list_options opts
unfolding build_list_options
build_list_options_idem opts = apply_defaults_idem (apply_list_options opts zero_options)

Shuffle-length {ℓ} : {A : Type ℓ} {xs ys : List A} → Shuffle xs ys → length xs ≡ length ys
Shuffle-length none_left = refl
Shuffle-length (keep x s) = ap suc (Shuffle-length s)
Shuffle-length (swap x y xs) = refl
Shuffle-length (chain s s') = Shuffle-length s ∙ Shuffle-length s'

length-map {ℓ} : {A B : Type ℓ} (f : A → B) (xs : List A) → length (map f xs) ≡ length xs
length-map f [] = refl
length-map f (x ∷ xs) = ap suc (length-map f xs)

-- Stats counts what List lists.
total-listed :
    (opts : List (Option ListOption)) (store : MemoryStore)
    → (store_stats (build_list_options opts) store).total ≡ length (listed opts store)
unfolding listing filtered
total-listed opts store =
    let o = build_list_options opts in
    let (total, _, _, _, _, _, _, _) = stats_counts o store in
    total
    ∙ ap (λ o'. length (keep_if (λ t. matches_list_filters t o') (map (λ e. e.1) store.tasks)))
        (build_list_options_idem opts)
    ∙ sym (
        length-map clone_task
          (keep_if (λ t. matches_list_filters t o) (map (λ e. e.1) store.tasks)))
    ∙ Shuffle-length (sort_slice-Shuffle (task_less o.order) (filtered o store))

-- List returns the page of the listing, and changes nothing.
list-paged :
    {E : Type 0} (m k n : ℕ) (opts : List (Option ListOption)) (w : World E)
    → 1 ≤ n
    → n ≤ 100
    → list (memory_service m) (paged opts k n) w ≡ (ok (take n (drop k (listed opts w.store))), w)
unfolding list world_list
list-paged m k n opts w low high = rw (
  build-paged opts k n low high,
  list-at_page (build_list_options opts) k n w.store low high,
  build_list_options_idem opts,
)

page-full :
    (k n : ℕ) (all : List Task) (counted : TaskStats)
    → counted.total ≡ length all
    → list_response k n (take n (drop k all)) (ok counted) ≡ page_of k n all
unfolding list_response
page-full k n all counted h = ground (arith, h)

abbrev respond_to :
    {E : Type 0} → ℕ → ℕ → FilterOptions → Result (List Task) × World E → Response × World E
respond_to m limit filters (found, w) = after_list (memory_service m) limit filters found w

list_page_lem :
    {E : Type 0} (m limit : ℕ) (filters : FilterOptions) (w : World E)
    → 1 ≤ limit
    → limit ≤ 100
    → answer_page (memory_service m) limit filters w
      ≡ (respond 200 (task_list (page_of filters.offset limit (listed filters.options w.store))), w)
unfolding answer_page after_list stats world_stats ◌>>=◌
list_page_lem m limit filters w low high =
    ap (respond_to m limit filters) (list-paged m filters.offset limit filters.options w low high)
    ∙ ap (λ page. (respond 200 (task_list page), w))
        (page-full filters.offset limit (listed filters.options w.store)
          (store_stats (build_list_options filters.options) w.store)
          (total-listed filters.options w.store))

abbrev tasks_in : Body → List Task
tasks_in (task_list page) = page.tasks
tasks_in _ = []

abbrev next_in : Body → Option ℕ
next_in (task_list page) = page.next_offset
next_in _ = none

abbrev then_more : List Task → Option (List Task) → Option (List Task)
then_more ts none = none
then_more ts (some us) = some (ts ++ us)

-- A client that reads the pages one after the other, as long as the response names a next offset. `none`: the
-- fuel is used up.
pub read_on : {E : Type 0} → ℕ → ℕ → ℕ → FilterOptions → World E → Option (List Task)
read_on zero m limit filters w = none
read_on (suc fuel) m limit filters w =
    let (response, w') = answer_page (memory_service m) limit filters w in
    elim (next_in response.body) [
      | none ↦ some (tasks_in response.body)
      | some k ↦
          then_more (tasks_in response.body)
            (read_on fuel m limit (record filters { offset = k }) w')
    ]

page_end :
    (k n : ℕ) (all : List Task)
    → length all ≤ k + length (take n (drop k all))
    → take n (drop k all) ≡ drop k all
page_end k n all h =
    take_all n (drop k all) (omega (arith, length-take n (drop k all), length-drop k all))

page_middle :
    (k n : ℕ) (all : List Task)
    → k + length (take n (drop k all)) < length all
    → length (take n (drop k all)) ≡ n
page_middle k n all h = omega (arith, length-take n (drop k all), length-drop k all)

abbrev read_page :
    {E : Type 0} → ℕ → ℕ → ℕ → FilterOptions → Response × World E → Option (List Task)
read_page fuel m limit filters (response, w) = elim (next_in response.body) [
  | none ↦ some (tasks_in response.body)
  | some k ↦
      then_more (tasks_in response.body) (read_on fuel m limit (record filters { offset = k }) w)
]

-- A client that follows the next offsets of the in-memory deployment, whose tasks do not change meanwhile, with a
-- limit from 1 to 100, comes to an end once the pages it may read cover what is listed, and has then read
-- exactly the tasks listed from its first offset on, each once and in order.
pub read_on_all :
    {E : Type 0} (fuel m limit : ℕ) (filters : FilterOptions) (w : World E)
    → 1 ≤ limit
    → limit ≤ 100
    → length (listed filters.options w.store) ≤ filters.offset + suc fuel * limit
    → read_on (suc fuel) m limit filters w
      ≡ some (drop filters.offset (listed filters.options w.store))
unfolding read_on
read_on_all zero m limit filters w low high h =
    let all = listed filters.options w.store in
    let k = filters.offset in
    elim (Bool-cases (ltb (k + length (take limit (drop k all))) (length all))) [
      | inl more ↦ ground (arith, page_middle k limit all (ground arith))
      | inr last ↦
          ap (read_page zero m limit filters) (list_page_lem m limit filters w low high)
          ∙ rw last (ap some (page_end k limit all (ground arith)))
    ]
read_on_all (suc fuel) m limit filters w low high h =
    let all = listed filters.options w.store in
    let k = filters.offset in
    elim (Bool-cases (ltb (k + length (take limit (drop k all))) (length all))) [
      | inl more ↦
          ap (read_page (suc fuel) m limit filters) (list_page_lem m limit filters w low high)
          ∙ rw
              (
                more,
                page_middle k limit all (ground arith),
                read_on_all fuel m limit (record filters { offset = k + limit }) w low high
                    (grind arith),
              )
              (ap some (take-append-drop_add k limit all))
      | inr last ↦
          ap (read_page (suc fuel) m limit filters) (list_page_lem m limit filters w low high)
          ∙ rw last (ap some (page_end k limit all (ground arith)))
    ]
