-- ===== src/Tests/Pages.antt =====
-- A client that reads the tasks of the in-memory deployment page by page, over a concrete store.
use open_mcp_chain.Prelude.{◌≡◌, refl, arith, false, some, [], ◌∷◌, text_ltb, drop, length}
use open_mcp_chain.Prelude.Sort.{sort_slice}
use open_mcp_chain.Task.Types.{pending}
use open_mcp_chain.Task.Options.{build_list_options, with_statuses}
use open_mcp_chain.Task.Store.{clone_task}
use open_mcp_chain.Task.Listing.{task_less, matches_list_filters, listing}
use open_mcp_chain.Task.World.{World}
use open_mcp_chain.Api.Filters.{FilterOptions}
use open_mcp_chain.Api.Paging.{listed, read_on, read_on_all}
use open_mcp_chain.Tests.Samples.{task_a, task_b, world_of}

abbrev w : World (Unit {0})
w = world_of (task_a ∷ task_b ∷ []) [] false

abbrev pending_ones : FilterOptions
pending_ones = record { options = some (with_statuses (pending ∷ [])) ∷ []; offset = 0 }

both_listed : length (listed pending_ones.options w.store) ≡ 2
unfolding build_list_options with_statuses listing sort_slice matches_list_filters task_less
    clone_task text_ltb
both_listed = refl

read_on_all_example :
    read_on 2 3 1 pending_ones w ≡ some (drop 0 (listed pending_ones.options w.store))
read_on_all_example =
    read_on_all 1 3 1 pending_ones w (omega arith) (omega arith) (omega (arith, both_listed))
