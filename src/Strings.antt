-- ===== src/Strings.antt =====
-- src/str.cpp: strings as lists of bytes.
pub mod Laws
use mathlib.Core.List.{reverse}
use mergerfs.Base.{
  ℕ, ◌+◌, Bool, true, false, ◌&&◌, List, [], ◌∷◌, ◌++◌, Str, Option, none, some, take, drop, ◌==◌,
  if◌then◌else◌,
}

-- What a `const char*` shows of a string: the bytes before the first NUL.
unfoldable pub c_str : Str → Str
c_str [] = []
c_str (c ∷ s) = if c == 0 then [] else c ∷ c_str s

-- A byte before the first part; there is none at the end of the input.
unfoldable pub prepend : ℕ → List Str → List Str
prepend c [] = (c ∷ []) ∷ []
prepend c (p ∷ ps) = (c ∷ p) ∷ ps

-- `while(std::getline(ss,part,delimiter))`: no part follows a delimiter that ends the input.
unfoldable pub getlines : ℕ → Str → List Str
unfolding prepend
getlines delimiter [] = []
getlines delimiter (c ∷ s) =
    let rest = getlines delimiter s in if c == delimiter then [] ∷ rest else prepend c rest

-- `str::split`, on an empty vector.
unfoldable pub split : Str → ℕ → List Str
unfolding getlines c_str
split s delimiter = getlines delimiter (c_str s)

-- `rv += sep + vec[i].substr(substridx)` for the rest of the vector.
unfoldable pub join_rest : List Str → ℕ → ℕ → Str
join_rest [] substridx sep = []
join_rest (s ∷ vec) substridx sep = sep ∷ (drop substridx s ++ join_rest vec substridx sep)

-- `str::join` from an index that no string is shorter than; beyond one, `substr` would throw.
unfoldable pub join_from : List Str → ℕ → ℕ → Str
unfolding join_rest
join_from [] substridx sep = []
join_from (s ∷ vec) substridx sep = drop substridx s ++ join_rest vec substridx sep

unfoldable pub join : List Str → ℕ → Str
unfolding join_from
join vec sep = join_from vec 0 sep

-- The same byte stands at this place of every string.
unfoldable pub all_start : ℕ → List Str → Bool
all_start chr [] = true
all_start chr ([] ∷ vec) = false
all_start chr ((c ∷ s) ∷ vec) = if c == chr then all_start chr vec else false

unfoldable pub tails : List Str → List Str
tails [] = []
tails ([] ∷ vec) = [] ∷ tails vec
tails ((c ∷ s) ∷ vec) = s ∷ tails vec

-- The loop of `longest_common_prefix_index` over the first string, `n` bytes in; `none` is `npos`.
unfoldable pub common_index : ℕ → Str → List Str → Option ℕ
unfolding all_start tails
common_index n [] vec = none
common_index n (chr ∷ s) vec =
    if all_start chr vec then common_index (n + 1) s (tails vec) else some n

unfoldable pub longest_common_prefix_index : List Str → Option ℕ
unfolding common_index
longest_common_prefix_index [] = none
longest_common_prefix_index (s ∷ vec) = common_index 0 s vec

-- `vec[0].substr(0,idx)`
unfoldable pub first_bytes : Option ℕ → List Str → Str
first_bytes (some idx) (s ∷ vec) = take idx s
first_bytes _ vec = []

unfoldable pub longest_common_prefix : List Str → Str
unfolding longest_common_prefix_index first_bytes
longest_common_prefix vec = first_bytes (longest_common_prefix_index vec) vec

unfoldable pub remove_common_prefix_and_join : List Str → ℕ → Str
unfolding longest_common_prefix_index join_from
remove_common_prefix_and_join vec sep =
    join_from vec (elim (longest_common_prefix_index vec) [ none ↦ 0 | some idx ↦ idx ]) sep

-- `s0` begins with `s1`.
unfoldable pub isprefix : Str → Str → Bool
isprefix s0 [] = true
isprefix [] (d ∷ s1) = false
isprefix (c ∷ s0) (d ∷ s1) = c == d && isprefix s0 s1

-- `std::equal` on the reversed strings.
unfoldable pub ends_with : Str → Str → Bool
unfolding isprefix
ends_with s suffix = isprefix (reverse s) (reverse suffix)

module _ (fnmatch : Str → Str → Bool) where
  -- Some pattern matches the string.
  unfoldable pub matches : List Str → Str → Bool
  matches [] s = false
  matches (p ∷ patterns) s = if fnmatch p s then true else matches patterns s

  unfoldable pub erase_fnmatches : List Str → List Str → List Str
  unfolding matches
  erase_fnmatches patterns [] = []
  erase_fnmatches patterns (s ∷ strs) =
      let rest = erase_fnmatches patterns strs in if matches patterns s then rest else s ∷ rest
