-- ===== src/Task/Stats.antt =====
-- internal/task/memory_store.go: Stats.
pub mod Counts
use Prim.Native.Nat.{◌+◌}
use open_mcp_chain.Prelude.{
  ℕ, Bool, true, false, not, ◌&&◌, ◌||◌, List, [], ◌∷◌, map, eqb, ltb, if◌then◌else◌,
}
use open_mcp_chain.Task.Types.{Status, pending, running, succeeded, failed, other, Task, TaskStats}
use open_mcp_chain.Task.Options.{ListOptions, apply_defaults}
use open_mcp_chain.Task.Store.{MemoryStore}
use open_mcp_chain.Task.Listing.{matches_list_filters}

abbrev pub zero_stats : TaskStats
zero_stats = record {
  total = 0;
  pending_count = 0;
  running_count = 0;
  succeeded_count = 0;
  failed_count = 0;
  oldest_updated_at = 0;
  newest_updated_at = 0;
}

-- the switch on the status
count_status : Status → TaskStats → TaskStats
count_status pending s = record s { pending_count = s.pending_count + 1 }
count_status running s = record s { running_count = s.running_count + 1 }
count_status succeeded s = record s { succeeded_count = s.succeeded_count + 1 }
count_status failed s = record s { failed_count = s.failed_count + 1 }
count_status (other t) s = s

-- one task that passes the filters
unfoldable pub add_task : Task → TaskStats → TaskStats
unfolding count_status
add_task task stats =
    let s = count_status task.status (record stats { total = stats.total + 1 }) in
    let at = task.updated_at in
    record s {
      newest_updated_at = if ltb s.newest_updated_at at then at else s.newest_updated_at;
      oldest_updated_at =
          if eqb s.oldest_updated_at 0 || (not (eqb at 0) && ltb at s.oldest_updated_at)
          then at
          else s.oldest_updated_at;
    }

-- the loop
unfoldable pub collect : ListOptions → List Task → TaskStats → TaskStats
unfolding add_task matches_list_filters
collect opts [] stats = stats
collect opts (task ∷ rest) stats =
    collect opts rest (if matches_list_filters task opts then add_task task stats else stats)

-- the reset after the loop
unfoldable pub finish : TaskStats → TaskStats
finish stats =
    if eqb stats.total 0
    then record stats { oldest_updated_at = 0; newest_updated_at = 0 }
    else stats

unfoldable pub stats : ListOptions → MemoryStore → TaskStats
unfolding collect finish apply_defaults
stats opts store = finish (collect (apply_defaults opts) (map (λ e. e.1) store.tasks) zero_stats)
