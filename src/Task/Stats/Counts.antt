-- ===== src/Task/Stats/Counts.antt =====
-- What Stats counts, against the list of the tasks that pass the filters.
use Prim.Native.Nat.{◌+◌}
use open_mcp_chain.Prelude.{
  ℕ, ◌≤◌, ◌≡◌, refl, ap, ◌∙◌, List, [], ◌∷◌, map, keep_if, length, arith, if◌then◌else◌, Bool-cases,
  ◌⊎◌, inl, inr, All,
}
use open_mcp_chain.Prelude.Shuffle.{
  Shuffle, none_left, keep, swap, chain, Shuffle-map, Shuffle-keep_if,
}
use open_mcp_chain.Task.Types.{
  Status, pending, running, succeeded, failed, status_eq, is_valid_status, Task, TaskStats,
}
use open_mcp_chain.Task.Options.{ListOptions, apply_defaults}
use open_mcp_chain.Task.Store.{MemoryStore}
use open_mcp_chain.Task.Listing.{matches_list_filters}
use open_mcp_chain.Task.Stats.{zero_stats, add_task, collect, finish, stats}

-- The loop without its test, over the tasks that pass.
add_all : List Task → TaskStats → TaskStats
add_all [] s = s
add_all (t ∷ ts) s = add_all ts (add_task t s)

collect-add_all :
    (opts : ListOptions) (ts : List Task) (s : TaskStats)
    → collect opts ts s ≡ add_all (keep_if (λ t. matches_list_filters t opts) ts) s
unfolding collect add_all
collect-add_all opts [] s = refl
collect-add_all opts (t ∷ ts) s = elim (Bool-cases (matches_list_filters t opts)) [
  | inl good ↦ rw good (collect-add_all opts ts (add_task t s))
  | inr bad ↦ rw bad (collect-add_all opts ts s)
]

add_task_comm : (t u : Task) (s : TaskStats) → add_task t (add_task u s) ≡ add_task u (add_task t s)
unfolding add_task
add_task_comm t u s = ground arith

add_all-Shuffle : {ts us : List Task} (s : TaskStats) → Shuffle ts us → add_all ts s ≡ add_all us s
unfolding add_all
add_all-Shuffle s none_left = refl
add_all-Shuffle s (keep t p) = add_all-Shuffle (add_task t s) p
add_all-Shuffle s (swap t u ts) = ap (add_all ts) (add_task_comm u t s)
add_all-Shuffle s (chain p q) = add_all-Shuffle s p ∙ add_all-Shuffle s q

-- The iteration order of the map does not matter to Stats: stores whose entries are the same up to their
-- order have the same statistics, for any options.
pub stats_order_free :
    (opts : ListOptions) (store store' : MemoryStore)
    → Shuffle store.tasks store'.tasks
    → stats opts store ≡ stats opts store'
unfolding stats
stats_order_free opts store store' p =
    rw (collect-add_all, collect-add_all)
      (ap finish (
        add_all-Shuffle zero_stats (
          Shuffle-keep_if (λ t. matches_list_filters t (apply_defaults opts))
            (Shuffle-map (λ e. e.1) p))))

-- The stored tasks that pass the filters.
abbrev pub passing : ListOptions → MemoryStore → List Task
passing opts store =
    keep_if (λ t. matches_list_filters t (apply_defaults opts)) (map (λ e. e.1) store.tasks)

-- How many tasks have a status.
pub count : Status → List Task → ℕ
count s [] = 0
count s (t ∷ ts) = (if status_eq t.status s then 1 else 0) + count s ts

abbrev pub count_other : List Task → ℕ
count_other [] = 0
count_other (t ∷ ts) = (if is_valid_status t.status then 0 else 1) + count_other ts

-- The counters after some tasks, from those before them.
record Counted (before after : TaskStats) (ts : List Task) : Type 0 where
  total : after.total ≡ before.total + length ts
  pendings : after.pending_count ≡ before.pending_count + count pending ts
  runnings : after.running_count ≡ before.running_count + count running ts
  succeededs : after.succeeded_count ≡ before.succeeded_count + count succeeded ts
  faileds : after.failed_count ≡ before.failed_count + count failed ts
  newest_grows : before.newest_updated_at ≤ after.newest_updated_at
  oldest_falls :
      1 ≤ before.oldest_updated_at
      → (1 ≤ after.oldest_updated_at) × (after.oldest_updated_at ≤ before.oldest_updated_at)
  newest_bounds : All (λ t. t.updated_at ≤ after.newest_updated_at) ts
  oldest_bounds : All (λ t. (t.updated_at ≡ 0) ⊎ (after.oldest_updated_at ≤ t.updated_at)) ts

Counted-cons :
    (t : Task) (ts : List Task) (s after : TaskStats)
    → Counted (add_task t s) after ts
    → Counted s after (t ∷ ts)
unfolding add_task count
Counted-cons t ts s after rest = record {
  total = ground (arith, rest.total);
  pendings = ground (arith, rest.pendings);
  runnings = ground (arith, rest.runnings);
  succeededs = ground (arith, rest.succeededs);
  faileds = ground (arith, rest.faileds);
  newest_grows = ground (arith, rest.newest_grows);
  oldest_falls = λ h. ground (arith, rest.oldest_falls);
  newest_bounds = (ground (arith, rest.newest_grows), rest.newest_bounds);
  oldest_bounds = (ground (arith, rest.oldest_falls), rest.oldest_bounds);
}

add_all-Counted : (ts : List Task) (s : TaskStats) → Counted s (add_all ts s) ts
unfolding add_all count
add_all-Counted [] s = record {
  total = omega arith;
  pendings = omega arith;
  runnings = omega arith;
  succeededs = omega arith;
  faileds = omega arith;
  newest_grows = omega arith;
  oldest_falls = λ h. (h, omega arith);
  newest_bounds = tt;
  oldest_bounds = tt;
}
add_all-Counted (t ∷ ts) s =
    Counted-cons t ts s (add_all ts (add_task t s)) (add_all-Counted ts (add_task t s))

finish_counted : (s : TaskStats) → 1 ≤ s.total → finish s ≡ s
unfolding finish
finish_counted s h = ground arith

finish-add_all : (ts : List Task) → finish (add_all ts zero_stats) ≡ add_all ts zero_stats
unfolding add_all finish
finish-add_all [] = refl
finish-add_all (t ∷ ts) =
    let c = add_all-Counted (t ∷ ts) zero_stats in
    let n = c.total in finish_counted (add_all ts (add_task t zero_stats)) (omega arith)

stats-add_all :
    (opts : ListOptions) (store : MemoryStore)
    → stats opts store ≡ add_all (passing opts store) zero_stats
unfolding stats
stats-add_all opts store = rw collect-add_all (finish-add_all (passing opts store))

count_all :
    (ts : List Task)
    → count pending ts + count running ts + count succeeded ts + count failed ts + count_other ts
      ≡ length ts
unfolding count is_valid_status
count_all [] = refl
count_all (t ∷ ts) = ground (arith, count_all ts)

-- For any options and store, over the stored tasks that pass the filters: Total is their number, each
-- counter the number of those with its status, and Total the sum of the counters and of the tasks with no
-- supported status; no task was updated after NewestUpdatedAt, and none before OldestUpdatedAt, but those
-- whose update time is 0.
pub stats_counts :
    (opts : ListOptions) (store : MemoryStore)
    → let s = stats opts store in
      let ts = passing opts store in
      (s.total ≡ length ts)
      × (s.pending_count ≡ count pending ts)
      × (s.running_count ≡ count running ts)
      × (s.succeeded_count ≡ count succeeded ts)
      × (s.failed_count ≡ count failed ts)
      × (s.total
          ≡ s.pending_count + s.running_count + s.succeeded_count + s.failed_count + count_other ts)
      × All (λ t. t.updated_at ≤ s.newest_updated_at) ts
      × All (λ t. (t.updated_at ≡ 0) ⊎ (s.oldest_updated_at ≤ t.updated_at)) ts
stats_counts opts store =
    let ts = passing opts store in
    let c = add_all-Counted ts zero_stats in
    let all = count_all ts in
    rw stats-add_all (
      ground (arith, c.total),
      ground (arith, c.pendings),
      ground (arith, c.runnings),
      ground (arith, c.succeededs),
      ground (arith, c.faileds),
      ground (arith, c.total, c.pendings, c.runnings, c.succeededs, c.faileds, count_all ts),
      c.newest_bounds,
      c.oldest_bounds,
    )
