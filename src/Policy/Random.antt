-- ===== src/Policy/Random.antt =====
-- src/policy_rand.cpp, src/policy_eprand.cpp, src/policy_erofs.cpp, src/policy_invalid.cpp.
-- `std::random_shuffle` is a parameter: what it makes of the vector in this call.
use mergerfs.Base.{List, Str}
use mergerfs.Errno.{erofs, einval}
use mergerfs.Policy.Types.{View, Outcome, Func, success, failure}
use mergerfs.Policy.Every.{all, epall}

-- `if(rv == 0) std::random_shuffle(paths.begin(),paths.end());`
unfoldable pub shuffle_if : (List Str → List Str) → Outcome → Outcome
shuffle_if random_shuffle (success, ps) = (success, random_shuffle ps)
shuffle_if random_shuffle (failure e, ps) = (failure e, ps)

unfoldable pub rand : (List Str → List Str) → View → Func
unfolding shuffle_if all
rand random_shuffle v cat bs fusepath minfreespace paths =
    shuffle_if random_shuffle (all v cat bs fusepath minfreespace paths)

unfoldable pub eprand : (List Str → List Str) → View → Func
unfolding shuffle_if epall
eprand random_shuffle v cat bs fusepath minfreespace paths =
    shuffle_if random_shuffle (epall v cat bs fusepath minfreespace paths)

unfoldable pub erofs_policy : Func
erofs_policy cat bs fusepath minfreespace paths = (failure erofs, paths)

unfoldable pub invalid_policy : Func
invalid_policy cat bs fusepath minfreespace paths = (failure einval, paths)
