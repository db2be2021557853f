-- ===== src/Config/Paths.antt =====
-- filepath.IsAbs and filepath.Join, on Unix.
use mathlib.Core.List.{reverse}
use open_mcp_chain.Prelude.{
  ◌≡◌, refl, Bool, true, false, List, [], ◌∷◌, ◌++◌, Text, txt, text_eq, ◌==◌, is_empty,
  if◌then◌else◌, eqb, arith, arith,
}
use open_mcp_chain.Prelude.Parse.{split_on, join_with}

unfoldable pub is_abs : Text → Bool
is_abs [] = false
is_abs (c ∷ s) = eqb c b'/'

-- an element `..`, after the elements kept so far, latest first
abbrev up : Bool → List Text → List Text
up rooted [] = if rooted then [] else txt ".." ∷ []
up rooted (e ∷ kept) = if e == txt ".." then txt ".." ∷ e ∷ kept else kept

-- the elements that filepath.Clean keeps, latest first
unfoldable pub clean_elements : Bool → List Text → List Text → List Text
clean_elements rooted kept [] = kept
clean_elements rooted kept (e ∷ rest) =
    clean_elements rooted
      (if is_empty e
        then kept
        else if e == txt "."
        then kept
        else if e == txt ".."
        then up rooted kept
        else e ∷ kept)
      rest

abbrev or_dot : Text → Text
or_dot [] = txt "."
or_dot (c ∷ s) = c ∷ s

unfoldable pub clean : Text → Text
unfolding is_abs clean_elements split_on
clean path =
    let kept = join_with b'/' (reverse (clean_elements (is_abs path) [] (split_on b'/' path))) in
    if is_abs path then b'/' ∷ kept else or_dot kept

unfoldable pub join : Text → Text → Text
unfolding clean
join [] [] = []
join [] (c ∷ t) = clean (c ∷ t)
join (c ∷ s) [] = clean (c ∷ s)
join (c ∷ s) (d ∷ t) = clean ((c ∷ s) ++ b'/' ∷ d ∷ t)

clean-is_abs : (s : Text) → is_abs s ≡ true → is_abs (clean s) ≡ true
unfolding clean is_abs
clean-is_abs s h = rw h refl

-- A path joined to an absolute one is absolute.
pub join-is_abs : (base path : Text) → is_abs base ≡ true → is_abs (join base path) ≡ true
unfolding join is_abs
join-is_abs [] path h = ground arith
join-is_abs (c ∷ s) [] h = clean-is_abs (c ∷ s) h
join-is_abs (c ∷ s) (d ∷ t) h = clean-is_abs ((c ∷ s) ++ b'/' ∷ d ∷ t) h
