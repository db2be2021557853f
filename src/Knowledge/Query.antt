-- ===== src/Knowledge/Query.antt =====
-- What Query finds.
use Prim.Native.Nat.{◌+◌}
use open_mcp_chain.Prelude.{
  ℕ, zero, suc, ◌≤◌, ◌≡◌, refl, sym, true, false, List, [], ◌∷◌, ◌++◌, Text, length, length-append,
  leb, arith, take, keep_if, if◌then◌else◌, Bool-cases, inl, inr, trim_space, to_lower,
}
use open_mcp_chain.Prelude.Int.{ℤ, pos, leb_ℤ, pos_part}
use open_mcp_chain.Knowledge.{Snippet, new_static_provider, matches, collect_matches, query}

append_assoc {ℓ} :
    {A : Type ℓ} (xs : List A) (x : A) (ys : List A) → (xs ++ x ∷ []) ++ ys ≡ xs ++ x ∷ ys
append_assoc [] x ys = refl
append_assoc (z ∷ xs) x ys = rw (append_assoc xs x ys) refl

append-nil {ℓ} : {A : Type ℓ} (xs : List A) → xs ++ [] ≡ xs
append-nil [] = refl
append-nil (x ∷ xs) = rw (append-nil xs) refl

-- With `room` places left, the loop appends the first `room` matches of what is to come.
collect_matches-take :
    (room limit : ℕ) (goal action : Text) (results items : List Snippet)
    → limit ≡ length results + suc room
    → collect_matches limit goal action results items
      ≡ results ++ take (suc room) (keep_if (λ s. matches s goal action) items)
unfolding collect_matches
collect_matches-take room limit goal action results [] h = sym (append-nil results)
collect_matches-take zero limit goal action results (item ∷ items) h =
    elim (Bool-cases (matches item goal action)) [
      | inl good ↦
          let full : leb limit (length (results ++ item ∷ [])) ≡ true =
            rw (length-append results (item ∷ [])) (ground arith) in
          rw (good, full) refl
      | inr bad ↦ rw bad (collect_matches-take zero limit goal action results items h)
    ]
collect_matches-take (suc room) limit goal action results (item ∷ items) h =
    elim (Bool-cases (matches item goal action)) [
      | inl good ↦
          let longer = length-append results (item ∷ []) in
          let free : leb limit (length (results ++ item ∷ [])) ≡ false = rw longer (ground arith) in
          let rest =
            collect_matches-take room limit goal action (results ++ item ∷ []) items
              (rw longer (omega arith)) in
          rw (good, free, rest) (append_assoc results item _)
      | inr bad ↦ rw bad (collect_matches-take (suc room) limit goal action results items h)
    ]

collect_matches-nil :
    (limit : ℕ) (goal action : Text) (items : List Snippet)
    → 1 ≤ limit
    → collect_matches limit goal action [] items
      ≡ take limit (keep_if (λ s. matches s goal action) items)
collect_matches-nil zero goal action items low = absurd (omega arith)
collect_matches-nil (suc room) goal action items low =
    collect_matches-take room (suc room) goal action [] items (omega arith)

-- For any snippets and configured maximum, Query returns the first snippets that match the goal or the chain
-- action, in their order, up to the maximum in effect, which is 3 where the configured one is not positive.
pub query-take :
    (items : List Snippet) (n : ℤ) (goal action : Text)
    → let goal' = to_lower (trim_space goal) in
      let action' = to_lower (trim_space action) in
      query (new_static_provider items n) goal action
      ≡ take
          (if leb_ℤ n (pos 0) then 3 else pos_part n)
          (keep_if (λ s. matches s goal' action') items)
unfolding query new_static_provider
query-take items n goal action = collect_matches-nil _ _ _ items (ground arith)
