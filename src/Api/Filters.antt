-- ===== src/Api/Filters.antt =====
-- internal/api/server.go: parseFilterOptions and parseStatusFilters.
use open_mcp_chain.Prelude.{
  ℕ, not, Option, none, some, List, [], ◌∷◌, ◌++◌, Text, txt, text_eq, ◌==◌, is_empty, trim_space,
  to_lower, if◌then◌else◌,
}
use open_mcp_chain.Prelude.Int.{ℤ, pos}
use open_mcp_chain.Prelude.Map.{Map, lookup}
use open_mcp_chain.Task.Types.{Status, pending, running, succeeded, failed, other, is_valid_status}
use open_mcp_chain.Task.Options.{
  ListOption, Time, updated_asc, updated_desc, has_status, with_statuses, with_updated_since,
  with_updated_until, with_result_presence, with_sort_order, with_query,
}
use open_mcp_chain.Api.{first_value}
use open_mcp_chain.Prelude.Parse.{atoi, parse_bool, split_on}

pub record RequestError : Type 0 where
  pub status : ℕ
  pub code : Text
  pub message : Text

pub data Parsed (A : Type 0) : Type 0 where
  parsed : A → Parsed A
  invalid : RequestError → Parsed A

infixl 10 ◌>>=◌
abbrev ◌>>=◌ : {A B : Type 0} → Parsed A → (A → Parsed B) → Parsed B
parsed a >>= f = f a
invalid e >>= f = invalid e

abbrev pub bad_request : {A : Type 0} → Text → Text → Parsed A
bad_request code message = invalid (record { status = 400; code = code; message = message })

-- task.Status(trimmed)
unfoldable pub status_of_text : Text → Status
status_of_text s =
    if s == txt "pending"
    then pending
    else if s == txt "running"
    then running
    else if s == txt "succeeded"
    then succeeded
    else if s == txt "failed"
    then failed
    else other s

-- the inner loop of parseStatusFilters, from the statuses so far, which are the keys of `seen`
unfoldable pub add_tokens : List Status → List Text → Parsed (List Status)
unfolding status_of_text has_status
add_tokens statuses [] = parsed statuses
add_tokens statuses (token ∷ tokens) =
    let trimmed = trim_space token in
    let status = status_of_text trimmed in
    let same = add_tokens statuses tokens in
    let more = add_tokens (statuses ++ status ∷ []) tokens in
    if is_empty trimmed
    then same
    else if not (is_valid_status status)
    then bad_request (txt "INVALID_STATUS") (txt "status 参数包含未知的任务状态: " ++ trimmed)
    else if has_status statuses status
    then same
    else more

-- the outer loop
unfoldable pub parse_status_filters : List Status → List Text → Parsed (List Status)
unfolding add_tokens
parse_status_filters statuses [] = parsed statuses
parse_status_filters statuses (raw ∷ values) =
    add_tokens statuses (split_on b',' raw) >>= λ statuses'. parse_status_filters statuses' values

pub record FilterOptions : Type 0 where
  pub options : List (Option ListOption)
  pub offset : ℕ

abbrev Options : Type 0
Options = List (Option ListOption)

-- One statement of parseFilterOptions each; an empty value adds nothing.
unfoldable pub status_option : Option (List Text) → Parsed Options
unfolding parse_status_filters
status_option none = parsed []
status_option (some raw) = parse_status_filters [] raw >>= λ statuses. parsed (given statuses)
  where
    given : List Status → Options
    given [] = []
    given (s ∷ ss) = some (with_statuses (s ∷ ss)) ∷ []

unfoldable pub time_option :
    (Text → Option Time) → Text → Text → (Time → ListOption) → Text → Parsed Options
time_option parse_time code message option raw =
    if is_empty raw then parsed [] else elim (parse_time raw) [
      | none ↦ bad_request code message
      | some ts ↦ parsed (some (option ts) ∷ [])
    ]

unfoldable pub has_result_option : Text → Parsed Options
has_result_option raw = if is_empty raw then parsed [] else elim (parse_bool raw) [
  | none ↦ bad_request (txt "INVALID_HAS_RESULT") (txt "has_result 参数需为布尔值")
  | some b ↦ parsed (some (with_result_presence b) ∷ [])
]

unfoldable pub order_option : Text → Parsed Options
order_option raw =
    if is_empty raw
    then parsed []
    else if raw == txt "asc"
    then parsed (some (with_sort_order updated_asc) ∷ [])
    else if raw == txt "desc"
    then parsed (some (with_sort_order updated_desc) ∷ [])
    else bad_request (txt "INVALID_ORDER") (txt "order 参数仅支持 asc/desc")

abbrev not_negative : Option ℤ → Parsed ℕ
not_negative (some (pos n)) = parsed n
not_negative _ = bad_request (txt "INVALID_OFFSET") (txt "offset 参数必须为非负整数")

unfoldable pub parse_offset : Text → Parsed ℕ
parse_offset raw = if is_empty raw then parsed 0 else not_negative (atoi raw)

unfoldable pub query_option : Text → Options
query_option raw = if is_empty raw then [] else some (with_query raw) ∷ []

-- `parse_time` is time.Parse by RFC 3339.
unfoldable pub parse_filter_options :
    (Text → Option Time) → Map Text (List Text) → Parsed FilterOptions
unfolding status_option time_option has_result_option order_option parse_offset query_option
parse_filter_options parse_time query = do
  statuses ← status_option (lookup (txt "status") query)
  since ←
      time_option parse_time (txt "INVALID_SINCE") (txt "since 参数需为 RFC3339 时间格式")
        with_updated_since (first_value query (txt "since"))
  until ←
      time_option parse_time (txt "INVALID_UNTIL") (txt "until 参数需为 RFC3339 时间格式")
        with_updated_until (first_value query (txt "until"))
  has_result ← has_result_option (first_value query (txt "has_result"))
  order ← order_option (to_lower (first_value query (txt "order")))
  offset ← parse_offset (first_value query (txt "offset"))
  parsed (record {
    options =
        statuses
        ++ since
        ++ until
        ++ has_result
        ++ order
        ++ query_option (trim_space (first_value query (txt "q")));
    offset = offset;
  })
