-- ===== src/Task/Listing.antt =====
-- internal/task/memory_store.go: List and the filters that it shares with Stats.
pub mod Order
pub mod Pages
use Prim.Native.Nat.{◌+◌}
use open_mcp_chain.Prelude.{
  ℕ, Bool, true, false, not, ◌&&◌, ◌||◌, Option, none, some, List, [], ◌∷◌, map, Text, text_eq,
  ◌==◌, is_empty, eqb, ltb, text_ltb, trim_space, to_lower, contains_text, length, keep_if, slice,
  if◌then◌else◌,
}
use open_mcp_chain.Prelude.Int.{ℤ, pos, ◌+ℤ◌, leb_ℤ, ltb_ℤ}
use open_mcp_chain.Prelude.Sort.{sort_slice}
use open_mcp_chain.Task.Types.{Status, status_eq, ExecutionResult, Metadata, Task}
use open_mcp_chain.Task.Options.{
  SortOrder, updated_desc, updated_asc, ListOptions, has_status, apply_defaults,
}
use open_mcp_chain.Task.Store.{MemoryStore, clone_task}

abbrev has_content : Option ExecutionResult → Bool
has_content none = false
has_content (some r) =
    not (is_empty r.thought)
    || not (is_empty r.reply)
    || not (is_empty r.chain_id)
    || not (is_empty r.block_number)
    || not (is_empty r.observations)

unfoldable pub task_has_result : Task → Bool
task_has_result task = has_content task.result

abbrev result_texts : Option ExecutionResult → List Text
result_texts none = []
result_texts (some r) = r.thought ∷ r.reply ∷ r.chain_id ∷ r.block_number ∷ r.observations ∷ []

-- the loop over `candidates`
any_contains : List Text → Text → Bool
any_contains [] normalized = false
any_contains (value ∷ rest) normalized =
    contains_text (to_lower value) normalized || any_contains rest normalized

-- the loop over the metadata
metadata_contains : Metadata → Text → Bool
metadata_contains [] normalized = false
metadata_contains ((key, value) ∷ rest) normalized =
    contains_text (to_lower key) normalized
    || (not (is_empty (to_lower value)) && contains_text (to_lower value) normalized)
    || metadata_contains rest normalized

abbrev entries : Option Metadata → Metadata
entries none = []
entries (some metadata) = metadata

unfoldable pub task_matches_query : Task → Text → Bool
unfolding any_contains metadata_contains to_lower trim_space contains_text
task_matches_query task query =
    let normalized = to_lower (trim_space query) in
    if is_empty normalized
    then true
    else any_contains
        (task.id ∷ task.goal ∷ task.chain_action ∷ task.address ∷ task.last_error ∷ []) normalized
      || any_contains (result_texts task.result) normalized
      || metadata_contains (entries task.metadata) normalized

abbrev bool_ne : Bool → Bool → Bool
bool_ne true b = not b
bool_ne false b = b

abbrev result_mismatch : Task → Option Bool → Bool
result_mismatch task none = false
result_mismatch task (some wanted) = bool_ne (task_has_result task) wanted

abbrev is_nil_list : List Status → Bool
is_nil_list [] = true
is_nil_list _ = false

-- Each line is one of the early returns.
unfoldable pub matches_list_filters : Task → ListOptions → Bool
unfolding has_status task_has_result task_matches_query
matches_list_filters task opts =
    if not (is_nil_list opts.statuses) && not (has_status opts.statuses task.status)
    then false
    else if ltb_ℤ (pos 0) opts.updated_gte && ltb_ℤ (pos task.updated_at) opts.updated_gte
    then false
    else if ltb_ℤ (pos 0) opts.updated_lte && ltb_ℤ opts.updated_lte (pos task.updated_at)
    then false
    else if result_mismatch task opts.has_result
    then false
    else if not (is_empty opts.query) && not (task_matches_query task opts.query)
    then false
    else true

-- the function given to sort.Slice
unfoldable pub task_less : SortOrder → Task → Task → Bool
task_less updated_asc t u =
    if eqb t.updated_at u.updated_at
    then (if eqb t.created_at u.created_at
        then text_ltb t.id u.id
        else ltb t.created_at u.created_at)
    else ltb t.updated_at u.updated_at
task_less _ t u =
    if eqb t.updated_at u.updated_at
    then (if eqb t.created_at u.created_at
        then text_ltb t.id u.id
        else ltb u.created_at t.created_at)
    else ltb u.updated_at t.updated_at

-- the copies of the stored tasks that pass the filters, in the order of `range`
unfoldable pub filtered : ListOptions → MemoryStore → List Task
filtered opts store =
    map clone_task (keep_if (λ t. matches_list_filters t opts) (map (λ e. e.1) store.tasks))

-- all of them in the order of the listing
unfoldable pub listing : ListOptions → MemoryStore → List Task
unfolding filtered
listing opts store = sort_slice (task_less opts.order) (filtered opts store)

-- the end of the slice
unfoldable pub end_index : ℤ → ℤ → ℕ → ℤ
end_index offset limit n =
    if ltb_ℤ (pos 0) limit && ltb_ℤ (offset +ℤ limit) (pos n) then offset +ℤ limit else pos n

unfoldable pub page : ℤ → ℤ → List Task → Option (List Task)
unfolding end_index ◌+ℤ◌
page offset limit results =
    if leb_ℤ (pos (length results)) offset
    then some []
    else slice offset (end_index offset limit (length results)) results

-- `none` would be a panic of the slice expression; the error that List returns is always nil.
unfoldable pub list : ListOptions → MemoryStore → Option (List Task)
list opts store =
    let opts' = apply_defaults opts in page opts'.offset opts'.limit (listing opts' store)
