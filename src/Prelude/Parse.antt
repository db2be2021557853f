-- ===== src/Prelude/Parse.antt =====
-- strconv.Atoi, strconv.ParseInt and FormatInt, strconv.ParseBool, strings.Split and SplitN by one byte,
-- strings.TrimPrefix and strings.Trim by a slash.
use Prim.Native.Nat.{◌+◌, ◌-◌, ◌*◌, ◌/◌, ◌%◌}
use mathlib.Core.List.{reverse}
use open_mcp_chain.Prelude.{
  ℕ, zero, suc, Bool, true, false, ◌&&◌, ◌||◌, Option, none, some, List, [], ◌∷◌, ◌++◌, Text, txt,
  text_eq, ◌==◌, starts_with, drop, length, leb, ltb, eqb, if◌then◌else◌,
}
use open_mcp_chain.Prelude.Int.{ℤ, pos, negsuc}

-- the value of decimal digits, after those read
unfoldable pub digits_value : ℕ → Text → Option ℕ
digits_value acc [] = some acc
digits_value acc (c ∷ s) =
    let rest = digits_value (acc * 10 + (c - b'0')) s in
    if leb b'0' c && leb c b'9' then rest else none

abbrev pub max_int : ℕ
max_int = 9223372036854775807

negated : ℕ → ℤ
negated zero = pos 0
negated (suc n) = negsuc n

unsigned : Bool → Option ℕ → Option ℤ
unsigned negative none = none
unsigned false (some n) = if leb n max_int then some (pos n) else none
unsigned true (some n) = if leb n (max_int + 1) then some (negated n) else none

digits : Text → Option ℕ
unfolding digits_value
digits [] = none
digits (c ∷ s) = digits_value 0 (c ∷ s)

-- strconv.Atoi on a 64-bit machine, and strconv.ParseInt in base 10 with 64 bits
unfoldable pub atoi : Text → Option ℤ
unfolding digits unsigned negated
atoi [] = none
atoi (c ∷ s) =
    if eqb c b'-'
    then unsigned true (digits s)
    else if eqb c b'+'
    then unsigned false (digits s)
    else unsigned false (digits (c ∷ s))

unfoldable pub parse_bool : Text → Option Bool
parse_bool s =
    if s == txt "1"
      || s == txt "t"
      || s == txt "T"
      || s == txt "true"
      || s == txt "TRUE"
      || s == txt "True"
    then some true
    else if s == txt "0"
        || s == txt "f"
        || s == txt "F"
        || s == txt "false"
        || s == txt "FALSE"
        || s == txt "False"
    then some false
    else none

abbrev push_front : ℕ → List Text → List Text
push_front c [] = (c ∷ []) ∷ []
push_front c (s ∷ ss) = (c ∷ s) ∷ ss

unfoldable pub split_on : ℕ → Text → List Text
split_on b [] = [] ∷ []
split_on b (c ∷ s) = let rest = split_on b s in if eqb c b then [] ∷ rest else push_front c rest

-- strings.Join by one byte
abbrev pub join_with : ℕ → List Text → Text
join_with b [] = []
join_with b (s ∷ []) = s
join_with b (s ∷ t ∷ rest) = s ++ b ∷ join_with b (t ∷ rest)

abbrev push_first : ℕ → Option (Text × Text) → Option (Text × Text)
push_first c none = none
push_first c (some (s, t)) = some (c ∷ s, t)

-- strings.SplitN by the byte into at most two parts; `none` where there is one part only.
unfoldable pub split_once : ℕ → Text → Option (Text × Text)
split_once b [] = none
split_once b (c ∷ s) =
    let rest = split_once b s in if eqb c b then some ([], s) else push_first c rest

-- the digits of a number in front of those that follow, on fuel
unfoldable pub decimal : ℕ → ℕ → Text → Text
decimal zero n after = after
decimal (suc fuel) n after =
    let digits = (b'0' + n % 10) ∷ after in
    let rest = decimal fuel (n / 10) digits in if ltb n 10 then digits else rest

-- strconv.FormatInt in base 10 of a number that is not negative
unfoldable pub format_int : ℕ → Text
unfolding decimal
format_int n = decimal (suc n) n []

unfoldable pub trim_prefix : Text → Text → Text
trim_prefix s prefix = if starts_with s prefix then drop (length prefix) s else s

trim_slashes_left : Text → Text
trim_slashes_left [] = []
trim_slashes_left (c ∷ s) = if eqb c b'/' then trim_slashes_left s else c ∷ s

unfoldable pub trim_slashes : Text → Text
unfolding trim_slashes_left
trim_slashes s = reverse (trim_slashes_left (reverse (trim_slashes_left s)))
