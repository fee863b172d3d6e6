-- ===== src/Tests/Cache.antt =====
-- The cache of `open`, with a timeout of three seconds.
use mergerfs.Base.{◌≡◌, refl, [], ◌∷◌, Str, arith}
use mergerfs.Policy.Types.{success, failure}
use mergerfs.Policy.Table.{codes}
use mergerfs.PolicyCache.{Entries, call, erase, cleanup, is_stale}
use mergerfs.PolicyCache.Laws.{call-erase, call-call, call-cleanup}

abbrev file : Str
file = codes "/f"

abbrev other : Str
other = codes "/g"

abbrev a : Str
a = codes "/a"

abbrev c : Str
c = codes "/c"

abbrev held : Entries
held = (other, record { time = 90; path = c }) ∷ (file, record { time = 99; path = a }) ∷ []

call-erase_example : (call 3 100 file (success, c) (erase file held)).0 ≡ (success, c)
call-erase_example = call-erase 3 100 file (success, c) held (omega arith) (omega arith)

call-call_example :
    (call 3 102 other (failure 2, []) (call 3 100 other (success, c) held).1).0 ≡ (success, c)
unfolding call is_stale
call-call_example =
    call-call 3 100 102 other c (failure 2, []) held refl (omega arith) (omega arith) (omega arith)

call-cleanup_example :
    (call 3 100 file (success, c) (cleanup 3 100 held)).0 ≡ (call 3 100 file (success, c) held).0
unfolding mergerfs.PolicyCache.lookup
call-cleanup_example =
    call-cleanup 3 100 (omega arith) (omega arith) file (success, c) held (refl, (refl, tt))

-- A fresh entry is served without a search, a stale one is not.
hit : (call 3 100 file (success, c) held).0 ≡ (success, a)
unfolding call
hit = refl

miss : (call 3 100 other (failure 2, []) held).0 ≡ (failure 2, [])
unfolding call
miss = refl
