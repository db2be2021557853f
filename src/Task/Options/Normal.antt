-- ===== src/Task/Options/Normal.antt =====
-- applyDefaults brings the options into a normal form, and leaves that form alone.
use mathlib.Core.List.{append-nil, append_assoc}
use open_mcp_chain.Prelude.{
  ℕ, ◌≤◌, ◌≡◌, refl, ap, ◌↔◌, true, false, ◌&&◌, ◌||◌, List, [], ◌∷◌, ◌++◌, text_beq_iff, arith,
  Bool-cases, inl, inr, ◌⊎◌, ◌∙◌,
}
use open_mcp_chain.Prelude.Int.{ℤ, pos, pos_part}
use open_mcp_chain.Prelude.Trim.{trim_space_idem}
use open_mcp_chain.Task.Types.{
  Status, pending, running, succeeded, failed, other, status_eq, is_valid_status,
}
use open_mcp_chain.Task.Options.{
  ListOptions, updated_asc, updated_desc, max_list_limit, has_status, collect_statuses,
  normalize_statuses, clamp_limit, clamp_offset, apply_defaults,
}

pub status_eq_iff : (s t : Status) → (status_eq s t ≡ true) ↔ (s ≡ t)
status_eq_iff (other s) (other t) = ground (arith, text_beq_iff s t)
status_eq_iff pending t = ground arith
status_eq_iff running t = ground arith
status_eq_iff succeeded t = ground arith
status_eq_iff failed t = ground arith
status_eq_iff (other s) t = ground arith

has_status-append :
    (xs ys : List Status) (s : Status)
    → has_status (xs ++ ys) s ≡ (has_status xs s || has_status ys s)
unfolding has_status
has_status-append [] ys s = refl
has_status-append (x ∷ xs) ys s = ground (arith, has_status-append xs ys s)

-- No status stands twice in the list.
abbrev pub IsDistinct : List Status → Type 0
IsDistinct [] = Unit
IsDistinct (s ∷ ss) = (has_status ss s ≡ false) × IsDistinct ss

IsDistinct-append :
    (xs : List Status) (s : Status)
    → IsDistinct xs
    → has_status xs s ≡ false
    → IsDistinct (xs ++ s ∷ [])
unfolding has_status
IsDistinct-append [] s d h = (refl, tt)
IsDistinct-append (x ∷ xs) s (fresh, d) h = (
  ground (arith, has_status-append xs (s ∷ []) x, status_eq_iff s x, status_eq_iff x s),
  IsDistinct-append xs s d (ground arith),
)

collect_statuses-IsDistinct :
    (result input : List Status) → IsDistinct result → IsDistinct (collect_statuses result input)
unfolding collect_statuses
collect_statuses-IsDistinct result [] d = d
collect_statuses-IsDistinct result (s ∷ input) d = elim (Bool-cases (is_valid_status s)) [
  | inr bad ↦ rw bad (collect_statuses-IsDistinct result input d)
  | inl good ↦ elim (Bool-cases (has_status result s)) [
    | inl seen ↦ rw (good, seen) (collect_statuses-IsDistinct result input d)
    | inr new ↦
        rw (good, new)
          (collect_statuses-IsDistinct (result ++ s ∷ []) input (IsDistinct-append result s d new))
  ]
]

valid_cases : (s t : Status) → status_eq s t ≡ true → is_valid_status s ≡ is_valid_status t
valid_cases s t h = ap is_valid_status ((status_eq_iff s t).0 h)

has_status-collect_statuses :
    (result input : List Status) (s : Status)
    → has_status (collect_statuses result input) s
      ≡ (has_status result s || (is_valid_status s && has_status input s))
unfolding collect_statuses has_status
has_status-collect_statuses result [] s = ground arith
has_status-collect_statuses result (t ∷ input) s = ground (
  arith,
  has_status-collect_statuses result input s,
  has_status-collect_statuses (result ++ t ∷ []) input s,
  has_status-append result (t ∷ []) s,
  status_eq_iff s t,
  valid_cases s t,
)

fresh_before :
    (acc : List Status) (s : Status) (xs : List Status)
    → IsDistinct (acc ++ s ∷ xs)
    → has_status acc s ≡ false
unfolding has_status
fresh_before [] s xs d = refl
fresh_before (a ∷ acc) s xs (fresh, d) = ground (
  arith,
  fresh_before acc s xs d,
  has_status-append acc (s ∷ xs) a,
  status_eq_iff s a,
  status_eq_iff a s,
)

-- Distinct valid statuses are collected as they stand.
collect_statuses_of_normal :
    (acc xs : List Status)
    → ((s : Status) → has_status xs s ≡ true → is_valid_status s ≡ true)
    → IsDistinct (acc ++ xs)
    → collect_statuses acc xs ≡ acc ++ xs
unfolding collect_statuses
collect_statuses_of_normal acc [] valid d = rw append-nil
collect_statuses_of_normal acc (x ∷ xs) valid d =
    let good : is_valid_status x ≡ true =
      valid x (unfold has_status in ground (arith, status_eq_iff x x)) in
    let rest =
      λ (s : Status) (h : has_status xs s ≡ true). valid s (unfold has_status in ground arith) in
    let joined = append_assoc acc (x ∷ []) xs in
    rw (good, fresh_before acc x xs d)
      (collect_statuses_of_normal (acc ++ x ∷ []) xs rest (rw joined d) ∙ joined)

normalize_statuses-valid :
    (xs : List Status) (s : Status)
    → has_status (normalize_statuses xs) s ≡ true
    → is_valid_status s ≡ true
unfolding normalize_statuses has_status
normalize_statuses-valid xs s h = ground (arith, has_status-collect_statuses [] xs s)

normalize_statuses_idem :
    (xs : List Status) → normalize_statuses (normalize_statuses xs) ≡ normalize_statuses xs
unfolding normalize_statuses
normalize_statuses_idem xs =
    collect_statuses_of_normal [] (normalize_statuses xs) (normalize_statuses-valid xs)
      (collect_statuses-IsDistinct [] xs tt)

clamp_limit_idem : (n : ℤ) → clamp_limit (clamp_limit n) ≡ clamp_limit n
unfolding clamp_limit
clamp_limit_idem n = ground arith

clamp_offset_idem : (n : ℤ) → clamp_offset (clamp_offset n) ≡ clamp_offset n
unfolding clamp_offset
clamp_offset_idem n = ground arith

-- applyDefaults applied a second time changes nothing, for any options: the service applies it, and
-- then the store does again.
pub apply_defaults_idem :
    (opts : ListOptions) → apply_defaults (apply_defaults opts) ≡ apply_defaults opts
unfolding apply_defaults
apply_defaults_idem opts = ground (
  arith,
  clamp_limit_idem opts.limit,
  clamp_offset_idem opts.offset,
  normalize_statuses_idem opts.statuses,
  trim_space_idem opts.query,
)

-- Whatever the options were, afterwards the limit lies between 1 and 100, the offset is not negative, and
-- the order is one of the two that are defined.
pub apply_defaults_bounds :
    (opts : ListOptions)
    → let opts' = apply_defaults opts in
      ((n : ℕ) × (opts'.limit ≡ pos n) × (1 ≤ n) × (n ≤ max_list_limit))
      × ((n : ℕ) × (opts'.offset ≡ pos n))
      × ((opts'.order ≡ updated_asc) ⊎ (opts'.order ≡ updated_desc))
unfolding apply_defaults clamp_limit clamp_offset
apply_defaults_bounds opts = (
  (pos_part (clamp_limit opts.limit), ground arith, ground arith, ground arith),
  (pos_part (clamp_offset opts.offset), ground arith),
  ground arith,
)

-- normalizeStatuses keeps exactly the supported statuses that the input holds, each once.
pub normalize_statuses_lem :
    (input : List Status)
    → IsDistinct (normalize_statuses input)
      × ((s : Status)
          → has_status (normalize_statuses input) s ≡ (is_valid_status s && has_status input s))
unfolding normalize_statuses
normalize_statuses_lem input = (
  collect_statuses-IsDistinct [] input tt,
  λ s. unfold has_status in has_status-collect_statuses [] input s,
)
