-- ===== src/Task/Options.antt =====
-- internal/task/list_options.go
pub mod Normal
use Prim.Native.Nat.{◌-◌}
use open_mcp_chain.Prelude.{
  ℕ, Bool, true, false, ◌&&◌, Option, none, some, List, [], ◌∷◌, ◌++◌, Text, trim_space, eqb, ltb,
  if◌then◌else◌,
}
use open_mcp_chain.Prelude.Int.{ℤ, pos, negsuc, leb_ℤ, ltb_ℤ}
use open_mcp_chain.Task.Types.{Status, status_eq, is_valid_status}

-- A value of the integer type that is none of the two constants is `unknown_order`.
pub data SortOrder : Type 0 where
  updated_desc updated_asc : SortOrder
  unknown_order : ℤ → SortOrder

abbrev pub default_list_limit : ℕ
default_list_limit = 20

abbrev pub max_list_limit : ℕ
max_list_limit = 100

-- A nil and an empty `Statuses` are both `[]`: the code tells them apart nowhere.
pub record ListOptions : Type 0 where
  pub limit : ℤ
  pub offset : ℤ
  pub statuses : List Status
  pub updated_gte : ℤ
  pub updated_lte : ℤ
  pub has_result : Option Bool
  pub order : SortOrder
  pub query : Text

abbrev pub zero_options : ListOptions
zero_options = record {
  limit = pos 0;
  offset = pos 0;
  statuses = [];
  updated_gte = pos 0;
  updated_lte = pos 0;
  has_result = none;
  order = updated_desc;
  query = [];
}

-- `seen[status]` for the statuses met so far
unfoldable pub has_status : List Status → Status → Bool
has_status [] s = false
has_status (t ∷ ts) s = if status_eq s t then true else has_status ts s

-- the loop of normalizeStatuses; the keys of `seen` are the elements of `result`
unfoldable pub collect_statuses : List Status → List Status → List Status
unfolding has_status is_valid_status
collect_statuses result [] = result
collect_statuses result (status ∷ input) =
    collect_statuses
      (if is_valid_status status
        then (if has_status result status then result else result ++ status ∷ [])
        else result)
      input

unfoldable pub normalize_statuses : List Status → List Status
unfolding collect_statuses
normalize_statuses input = collect_statuses [] input

abbrev normalize_order : SortOrder → SortOrder
normalize_order (unknown_order n) = updated_desc
normalize_order order = order

-- the two statements on `opts.Limit`
unfoldable pub clamp_limit : ℤ → ℤ
clamp_limit limit =
    let limit' = if leb_ℤ limit (pos 0) then pos default_list_limit else limit in
    if ltb_ℤ (pos max_list_limit) limit' then pos max_list_limit else limit'

unfoldable pub clamp_offset : ℤ → ℤ
clamp_offset offset = if ltb_ℤ offset (pos 0) then pos 0 else offset

unfoldable pub apply_defaults : ListOptions → ListOptions
unfolding clamp_limit clamp_offset normalize_statuses trim_space
apply_defaults opts = record opts {
  limit = clamp_limit opts.limit;
  offset = clamp_offset opts.offset;
  statuses = normalize_statuses opts.statuses;
  order = normalize_order opts.order;
  query = trim_space opts.query;
}

-- func(*ListOptions)
abbrev pub ListOption : Type 0
ListOption = ListOptions → ListOptions

-- time.Time by its seconds since 1970 and the nanoseconds within the second.
pub record Time : Type 0 where
  pub unix : ℤ
  pub nanos : ℕ

-- ts.IsZero(): January 1, year 1
abbrev is_zero_time : Time → Bool
is_zero_time ts = is_year_one ts.unix && eqb ts.nanos 0
  where
    is_year_one : ℤ → Bool
    is_year_one (pos n) = false
    is_year_one (negsuc n) = eqb n 62135596799

unfoldable pub with_limit : ℤ → ListOption
with_limit limit opts = record opts { limit = limit }

unfoldable pub with_offset : ℤ → ListOption
with_offset offset opts = record opts { offset = offset }

unfoldable pub with_statuses : List Status → ListOption
with_statuses statuses opts = record opts { statuses = statuses }

unfoldable pub with_updated_since : Time → ListOption
with_updated_since ts opts = record opts {
  updated_gte = if is_zero_time ts then pos 0 else ts.unix;
}

unfoldable pub with_updated_until : Time → ListOption
with_updated_until ts opts = record opts {
  updated_lte = if is_zero_time ts then pos 0 else ts.unix;
}

unfoldable pub with_result_presence : Bool → ListOption
with_result_presence has_result opts = record opts { has_result = some has_result }

unfoldable pub with_sort_order : SortOrder → ListOption
with_sort_order order opts = record opts { order = order }

unfoldable pub with_query : Text → ListOption
with_query query opts = record opts { query = query }

-- the loop of buildListOptions; a nil option is `none`
unfoldable pub apply_list_options : List (Option ListOption) → ListOptions → ListOptions
apply_list_options [] options = options
apply_list_options (none ∷ opts) options = apply_list_options opts options
apply_list_options (some opt ∷ opts) options = apply_list_options opts (opt options)

unfoldable pub build_list_options : List (Option ListOption) → ListOptions
unfolding apply_list_options apply_defaults
build_list_options opts = apply_defaults (apply_list_options opts zero_options)
