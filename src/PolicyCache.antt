-- ===== src/PolicyCache.antt =====
-- src/policy_cache.cpp: the answers of the `open` policy, kept for some seconds. Each operation is
-- modelled as it runs under its lock, with no other thread in between.
pub mod Map
pub mod Laws
use mergerfs.Base.{
  ℕ, ◌+◌, ◌-◌, ◌%◌, Bool, Option, none, some, List, [], ◌∷◌, Str, str_eq, leb, ◌==◌, if◌then◌else◌,
}
use mergerfs.StatVfs.{u64_mod}
use mergerfs.Policy.Types.{Rv, success, failure}

-- `PolicyCache::Value`
pub record Value : Type 0 where
  pub time : ℕ
  pub path : Str

-- `std::map<std::string,Value>`
abbrev pub Entries : Type 0
Entries = List (Str × Value)

unfoldable pub lookup : Str → Entries → Option Value
unfolding str_eq
lookup k [] = none
lookup k (e ∷ es) = if str_eq e.0 k then some e.1 else lookup k es

unfoldable pub erase : Str → Entries → Entries
unfolding str_eq
erase k [] = []
erase k (e ∷ es) = if str_eq e.0 k then erase k es else e ∷ erase k es

unfoldable pub insert : Str → Value → Entries → Entries
unfolding erase
insert k v es = (k, v) ∷ erase k es

-- `&_cache[fusepath_]`: a missing entry is made, with time 0 and an empty path.
unfoldable pub entry : Str → Entries → Value
unfolding lookup
entry k es = elim (lookup k es) [ none ↦ record { time = 0; path = [] } | some v ↦ v ]

-- `(now - time) >= timeout`, in 64 bits.
unfoldable pub is_stale : ℕ → ℕ → Value → Bool
is_stale timeout now v = leb timeout ((now + u64_mod - v.time) % u64_mod)

-- What a search by the policy gives: its result, and the path that it stores.
abbrev pub Answer : Type 0
Answer = Rv × Str

-- `PolicyCache::operator()`, when the search would give `answer`.
unfoldable pub after_search : Str → ℕ → Value → Answer → Entries → Answer × Entries
unfolding insert
after_search k now v (failure e, p) es = ((failure e, p), insert k v es)
after_search k now v (success, p) es = ((success, p), insert k (record { time = now; path = p }) es)

unfoldable pub call : ℕ → ℕ → Str → Answer → Entries → Answer × Entries
unfolding entry is_stale after_search
call timeout now fusepath answer es =
    if timeout == 0
    then (answer, es)
    else let v = entry fusepath es in
      if is_stale timeout now v
      then after_search fusepath now v answer es
      else ((success, v.path), insert fusepath v es)

-- `PolicyCache::cleanup`, when the dice say that it runs.
unfoldable pub cleanup : ℕ → ℕ → Entries → Entries
unfolding is_stale
cleanup timeout now [] = []
cleanup timeout now (e ∷ es) =
    if is_stale timeout now e.1 then cleanup timeout now es else e ∷ cleanup timeout now es
