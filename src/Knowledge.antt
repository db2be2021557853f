-- ===== src/Knowledge.antt =====
-- internal/knowledge/static.go: the static knowledge base, without the loading of its file.
pub mod Query
use open_mcp_chain.Prelude.{
  ℕ, Bool, true, false, ◌||◌, List, [], ◌∷◌, ◌++◌, Text, is_empty, trim_space, to_lower,
  contains_text, length, leb, if◌then◌else◌,
}
use open_mcp_chain.Prelude.Int.{ℤ, pos, leb_ℤ, pos_part}

pub record Snippet : Type 0 where
  pub title : Text
  pub content : Text
  pub keywords : List Text
  pub tags : List Text

pub record StaticProvider : Type 0 where
  pub items : List Snippet
  pub max_results : ℕ

unfoldable pub new_static_provider : List Snippet → ℤ → StaticProvider
new_static_provider items max_results = record {
  items = items;
  max_results = if leb_ℤ max_results (pos 0) then 3 else pos_part max_results;
}

-- one of the two loops of `matches`
unfoldable pub any_matches : List Text → Text → Text → Bool
any_matches [] goal chain_action = false
any_matches (word ∷ words) goal chain_action =
    let normalized = to_lower (trim_space word) in
    if is_empty normalized
    then any_matches words goal chain_action
    else if contains_text goal normalized || contains_text chain_action normalized
    then true
    else any_matches words goal chain_action

abbrev is_nil_list : List Text → Bool
is_nil_list [] = true
is_nil_list _ = false

unfoldable pub matches : Snippet → Text → Text → Bool
unfolding any_matches
matches snippet goal chain_action =
    if is_nil_list snippet.keywords
    then true
    else if any_matches snippet.keywords goal chain_action
    then true
    else if is_nil_list snippet.tags
    then false
    else any_matches snippet.tags goal chain_action

-- the loop of Query, from the results so far
unfoldable pub collect_matches : ℕ → Text → Text → List Snippet → List Snippet → List Snippet
collect_matches max_results goal chain_action results [] = results
collect_matches max_results goal chain_action results (item ∷ items) =
    let results' = results ++ item ∷ [] in
    let found = collect_matches max_results goal chain_action results' items in
    let skipped = collect_matches max_results goal chain_action results items in
    if matches item goal chain_action
    then (if leb max_results (length results') then results' else found)
    else skipped

unfoldable pub query : StaticProvider → Text → Text → List Snippet
query p goal chain_action =
    collect_matches p.max_results (to_lower (trim_space goal)) (to_lower (trim_space chain_action))
      [] p.items
