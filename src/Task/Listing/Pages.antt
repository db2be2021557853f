-- ===== src/Task/Listing/Pages.antt =====
-- The pages that `List` cuts out of the listing.
use Prim.Native.Nat.{◌+◌, ◌-◌, ◌*◌}
use native.Mathlib.Decide.{dec_lt}
use open_mcp_chain.Prelude.{
  ℕ, zero, suc, ◌≤◌, ◌<◌, ◌≡◌, refl, sym, ap, ◌∙◌, Option, none, some, List, [], ◌∷◌, ◌++◌, arith,
  take, drop, length, length-take, length-drop, take_all, drop_all, slice,
}
use open_mcp_chain.Prelude.Int.{pos, ◌+ℤ◌}
use open_mcp_chain.Task.Types.{Task}
use open_mcp_chain.Task.Options.{
  ListOptions, apply_defaults, clamp_limit, clamp_offset, max_list_limit,
}
use open_mcp_chain.Task.Options.Normal.{apply_defaults_bounds}
use open_mcp_chain.Task.Store.{MemoryStore}
use open_mcp_chain.Task.Listing.{matches_list_filters, filtered, listing, end_index, page, list}

take-nil {ℓ} : {A : Type ℓ} (n : ℕ) → take {A = A} n [] ≡ []
take-nil zero = refl
take-nil (suc n) = refl

-- A cut that ends with the list is a cut of any greater size.
take-drop_end {ℓ} :
    {A : Type ℓ} (k n : ℕ) (xs : List A)
    → length xs ≤ k + n
    → take (length xs - k) (drop k xs) ≡ take n (drop k xs)
take-drop_end k n xs h =
    take_all (length xs - k) (drop k xs) (omega (arith, length-drop k xs))
    ∙ sym (take_all n (drop k xs) (omega (arith, length-drop k xs)))

cut_size : (k n : ℕ) → k + n - k ≡ n
cut_size k n = omega arith

page_past :
    (k n : ℕ) (xs : List Task) → length xs ≤ k → page (pos k) (pos n) xs ≡ some (take n (drop k xs))
unfolding page
page_past k n xs h = ground (arith, drop_all k xs h, take-nil {A = Task} n)

end_before : (k n m : ℕ) → 1 ≤ n → k + n < m → end_index (pos k) (pos n) m ≡ pos (k + n)
unfolding end_index ◌+ℤ◌
end_before k n m h b = ground arith

end_after : (k n m : ℕ) → m ≤ k + n → end_index (pos k) (pos n) m ≡ pos m
unfolding end_index ◌+ℤ◌
end_after k n m b = ground arith

page_inside :
    (k n : ℕ) (xs : List Task)
    → 1 ≤ n
    → k < length xs
    → page (pos k) (pos n) xs ≡ some (take n (drop k xs))
unfolding page slice
page_inside k n xs h inside = elim (dec_lt (k + n) (length xs)) [
  | yes b ↦ ground (arith, end_before k n (length xs) h b, cut_size k n)
  | no b ↦
      ground (arith, end_after k n (length xs) (omega arith), take-drop_end k n xs (omega arith))
]

page_lem : (k n : ℕ) (xs : List Task) → 1 ≤ n → page (pos k) (pos n) xs ≡ some (take n (drop k xs))
page_lem k n xs h = elim (dec_lt k (length xs)) [
  | yes b ↦ page_inside k n xs h b
  | no b ↦ page_past k n xs (omega arith)
]

-- For any options and store List panics never: it returns the part of the listing that starts at the
-- offset in effect and has the limit in effect, or less where the listing ends; at most 100 tasks.
pub list_page :
    (opts : ListOptions) (store : MemoryStore)
    → (k : ℕ) × (n : ℕ) × (results : List Task) × (list opts store ≡ some results)
      × ((apply_defaults opts).offset ≡ pos k)
      × ((apply_defaults opts).limit ≡ pos n)
      × (results ≡ take n (drop k (listing (apply_defaults opts) store)))
      × (length results ≤ max_list_limit)
unfolding list
list_page opts store =
    let ((n, limit, low, high), (k, offset), _) = apply_defaults_bounds opts in
    let all = listing (apply_defaults opts) store in
    (
      k,
      n,
      take n (drop k all),
      simp (limit, offset) (page_lem k n all low),
      offset,
      limit,
      refl,
      omega (arith, length-take n (drop k all)),
    )

-- The options for the page of size `n` that starts at `k`.
abbrev pub at_page : ListOptions → ℕ → ℕ → ListOptions
at_page opts k n = record opts { limit = pos n; offset = pos k }

abbrev or_none : Option (List Task) → List Task
or_none none = []
or_none (some ts) = ts

-- `p` pages of size `n`, one after the other, from `k` on
pub read_pages : ListOptions → ℕ → ℕ → ℕ → MemoryStore → List Task
read_pages opts n zero k store = []
read_pages opts n (suc p) k store =
    or_none (list (at_page opts k n) store) ++ read_pages opts n p (k + n) store

clamp_limit-pos : (n : ℕ) → 1 ≤ n → n ≤ max_list_limit → clamp_limit (pos n) ≡ pos n
unfolding clamp_limit
clamp_limit-pos n low high = ground arith

clamp_offset-pos : (k : ℕ) → clamp_offset (pos k) ≡ pos k
unfolding clamp_offset
clamp_offset-pos k = ground arith

pub apply_defaults-at_page :
    (opts : ListOptions) (k n : ℕ)
    → 1 ≤ n
    → n ≤ max_list_limit
    → apply_defaults (at_page opts k n) ≡ at_page (apply_defaults opts) k n
unfolding apply_defaults
apply_defaults-at_page opts k n low high = rw (clamp_limit-pos n low high, clamp_offset-pos k)

-- The listing does not depend on the page.
pub listing-at_page :
    (opts : ListOptions) (k n : ℕ) (store : MemoryStore)
    → listing (at_page opts k n) store ≡ listing opts store
unfolding listing filtered matches_list_filters
listing-at_page opts k n store = refl

pub list-at_page :
    (opts : ListOptions) (k n : ℕ) (store : MemoryStore)
    → 1 ≤ n
    → n ≤ max_list_limit
    → list (at_page opts k n) store ≡ some (take n (drop k (listing (apply_defaults opts) store)))
unfolding list
list-at_page opts k n store low high =
    rw (apply_defaults-at_page opts k n low high, listing-at_page (apply_defaults opts) k n store)
      (page_lem k n (listing (apply_defaults opts) store) low)

drop-nil {ℓ} : {A : Type ℓ} (n : ℕ) → drop {A = A} n [] ≡ []
drop-nil zero = refl
drop-nil (suc n) = refl

take-append-drop {ℓ} : {A : Type ℓ} (n : ℕ) (xs : List A) → take n xs ++ drop n xs ≡ xs
take-append-drop zero xs = refl
take-append-drop (suc n) [] = refl
take-append-drop (suc n) (x ∷ xs) = ap (◌∷◌ x) (take-append-drop n xs)

drop-add {ℓ} : {A : Type ℓ} (k n : ℕ) (xs : List A) → drop (k + n) xs ≡ drop n (drop k xs)
drop-add zero n xs = let e : 0 + n ≡ n = omega arith in rw e
drop-add (suc k) n [] = rw (drop-nil, drop-nil)
drop-add (suc k) n (x ∷ xs) =
    let e : suc k + n ≡ suc (k + n) = omega arith in rw e (drop-add k n xs)

pub take-append-drop_add {ℓ} :
    {A : Type ℓ} (k n : ℕ) (xs : List A) → take n (drop k xs) ++ drop (k + n) xs ≡ drop k xs
take-append-drop_add k n xs = rw (drop-add k n xs) (take-append-drop n (drop k xs))

read_pages_from :
    (opts : ListOptions) (n p k : ℕ) (store : MemoryStore)
    → 1 ≤ n
    → n ≤ max_list_limit
    → length (listing (apply_defaults opts) store) ≤ k + p * n
    → read_pages opts n p k store ≡ drop k (listing (apply_defaults opts) store)
unfolding read_pages
read_pages_from opts n zero k store low high h = sym (drop_all k _ (omega arith))
read_pages_from opts n (suc p) k store low high h =
    rw
      (
        list-at_page opts k n store low high,
        read_pages_from opts n p (k + n) store low high (grind arith),
      )
      (take-append-drop_add k n (listing (apply_defaults opts) store))

-- Reading a store that does not change page by page, with a page size from 1 to 100 and enough pages for
-- all the tasks that pass the filters, yields the whole listing: each task once, in order.
pub read_pages_all :
    (opts : ListOptions) (n p : ℕ) (store : MemoryStore)
    → 1 ≤ n
    → n ≤ max_list_limit
    → length (listing (apply_defaults opts) store) ≤ p * n
    → read_pages opts n p 0 store ≡ listing (apply_defaults opts) store
read_pages_all opts n p store low high h = read_pages_from opts n p 0 store low high (omega arith)
