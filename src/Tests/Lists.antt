-- ===== src/Tests/Lists.antt =====
-- Listings and counts at concrete inputs.
use Prim.Native.Nat.{◌+◌}
use open_mcp_chain.Prelude.{
  ℕ, ◌≡◌, refl, some, List, [], ◌∷◌, txt, text_beq, text_eq, arith, ◌≤◌, length, take, drop, All,
  ◌⊎◌, text_ltb,
}
use open_mcp_chain.Prelude.Int.{pos}
use open_mcp_chain.Prelude.Map.{insert}
use open_mcp_chain.Prelude.Sort.{sort_slice}
use open_mcp_chain.Prelude.Shuffle.{Shuffle, swap}
use open_mcp_chain.Task.Types.{pending, running, succeeded, failed, Task}
use open_mcp_chain.Task.Options.{updated_asc, apply_defaults}
use open_mcp_chain.Task.Store.{clone_task, MemoryStore, new_memory_store}
use open_mcp_chain.Task.Store.Valid.{IsValid, empty-IsValid, insert-IsValid}
use open_mcp_chain.Task.Listing.{task_less, matches_list_filters, list, listing, filtered}
use open_mcp_chain.Task.Listing.Order.{IsOrdered, listing-IsOrdered, listing_order_free}
use open_mcp_chain.Task.Listing.Pages.{list_page, read_pages, read_pages_all}
use open_mcp_chain.Task.Stats.{stats}
use open_mcp_chain.Task.Stats.Counts.{passing, count, count_other, stats_counts, stats_order_free}
use open_mcp_chain.Tests.Samples.{
  task_a, task_b, store_of, some_options, a-IsValidTask, b-IsValidTask,
}

abbrev ab : MemoryStore
ab = store_of (task_a ∷ task_b ∷ [])

abbrev ba : MemoryStore
ba = store_of (task_b ∷ task_a ∷ [])

ab-ba : Shuffle ab.tasks ba.tasks
ab-ba = swap (txt "a", task_a) (txt "b", task_b) []

ab-IsValid : IsValid ab
unfolding insert text_beq
ab-IsValid =
    insert-IsValid (store_of (task_a ∷ [])) (txt "b") task_b
      (insert-IsValid new_memory_store (txt "a") task_a empty-IsValid a-IsValidTask) b-IsValidTask

listing-IsOrdered_example :
    IsOrdered updated_asc (listing some_options ab)
    × Shuffle (filtered some_options ab) (listing some_options ab)
listing-IsOrdered_example = listing-IsOrdered some_options ab

listing_order_free_example : listing some_options ab ≡ listing some_options ba
listing_order_free_example = listing_order_free some_options ab ba ab-IsValid ab-ba

list_page_example :
    (k : ℕ) × (n : ℕ) × (results : List Task) × (list some_options ab ≡ some results)
    × ((apply_defaults some_options).offset ≡ pos k)
    × ((apply_defaults some_options).limit ≡ pos n)
    × (results ≡ take n (drop k (listing (apply_defaults some_options) ab)))
    × (length results ≤ 100)
list_page_example = list_page some_options ab

both_pass : length (listing (apply_defaults some_options) ab) ≡ 2
unfolding apply_defaults listing sort_slice matches_list_filters task_less clone_task text_ltb
both_pass = refl

read_pages_all_example : read_pages some_options 1 2 0 ab ≡ listing (apply_defaults some_options) ab
read_pages_all_example =
    read_pages_all some_options 1 2 ab (omega arith) (omega arith) (omega (arith, both_pass))

stats_counts_example :
    let s = stats some_options ab in
    let ts = passing some_options ab in
    (s.total ≡ length ts)
    × (s.pending_count ≡ count pending ts)
    × (s.running_count ≡ count running ts)
    × (s.succeeded_count ≡ count succeeded ts)
    × (s.failed_count ≡ count failed ts)
    × (s.total
        ≡ s.pending_count + s.running_count + s.succeeded_count + s.failed_count + count_other ts)
    × All (λ t. t.updated_at ≤ s.newest_updated_at) ts
    × All (λ t. (t.updated_at ≡ 0) ⊎ (s.oldest_updated_at ≤ t.updated_at)) ts
stats_counts_example = stats_counts some_options ab

stats_order_free_example : stats some_options ab ≡ stats some_options ba
stats_order_free_example = stats_order_free some_options ab ba ab-ba
