-- ===== src/StatVfs/Cache/Recent.antt =====
-- src/fs_statvfs_cache.cpp: how old an answer can be, and what a failure leaves.
use mergerfs.Base.{
  ℕ, zero, suc, ◌+◌, ◌-◌, ◌%◌, ◌≡◌, ◌≤◌, ◌<◌, refl, true, false, Bool-cases, ◌⊎◌, inl, inr, List,
  [], ◌∷◌, Str, str_eq, str_eq_refl, str_eq_iff, Option, none, some, ◌==◌, ltb, arith, sym, subst,
  ap, ◌∙◌, ◌≢◌,
}
use mathlib.Core.Bool.{true≢false}
use mergerfs.StatVfs.{StatVfs, u64_mod}
use mergerfs.StatVfs.Cache.{Element, Elements, blank, store, is_outdated, refreshed, statvfs_cache}

-- What the file systems were like: of each path, at each second.
abbrev pub History : Type 0
History = Str → ℕ → StatVfs

-- Every element is one that the program has not used, or what the file system was like at its time,
-- which is not later than now.
abbrev pub IsHistoric : History → ℕ → Elements → Type 0
IsHistoric f now es =
    (p : Str) → (es p ≡ blank) ⊎ (((es p).st ≡ f p (es p).time) × ((es p).time ≤ now))

-- The answer is what the file system was like at a time not before `now - timeout`.
abbrev pub IsRecent : History → ℕ → ℕ → Str → Option StatVfs → Type 0
IsRecent f timeout now p none = ⊥
IsRecent f timeout now p (some st) = (t : ℕ) × (st ≡ f p t) × (t ≤ now) × (now ≤ t + timeout)

store-IsHistoric :
    (f : History) (now : ℕ) (path : Str) (es : Elements)
    → IsHistoric f now es
    → IsHistoric f now (store path (record { time = now; st = f path now }) es)
unfolding store
store-IsHistoric f now path es h p = elim (Bool-cases (str_eq path p)) [
  | inl same ↦
      rw same
        (inr (subst (λ q. f path now ≡ f q now) ((str_eq_iff path p).0 same) refl, (omega arith)))
  | inr other ↦ rw other (h p)
]

blank-is_outdated :
    (timeout now : ℕ) → timeout < now → now < u64_mod → is_outdated timeout now blank ≡ true
unfolding is_outdated
blank-is_outdated timeout now h w =
    let same : (now + u64_mod - 0) % u64_mod ≡ now = ground arith in rw same (ground arith)

young-IsRecent :
    (timeout now : ℕ) (e : Element)
    → now < u64_mod
    → e.time ≤ now
    → is_outdated timeout now e ≡ false
    → now ≤ e.time + timeout
unfolding is_outdated
young-IsRecent timeout now e w le young =
    let same : (now + u64_mod - e.time) % u64_mod ≡ now - e.time = ground arith in
    let within : ltb timeout (now - e.time) ≡ false = rw (sym same) young in ground arith

later-IsHistoric :
    (f : History) (now later : ℕ) (es : Elements)
    → now ≤ later
    → IsHistoric f now es
    → IsHistoric f later es
later-IsHistoric f now later es le h p = elim (h p) [
  | inl unused ↦ inl unused
  | inr (real, past) ↦ inr (real, (omega arith))
]

-- A call with a timeout, and an element that is too old, or is not.
old_call :
    (timeout now : ℕ) (path : Str) (real : Option StatVfs) (es : Elements)
    → (timeout == 0) ≡ false
    → is_outdated timeout now (es path) ≡ true
    → statvfs_cache timeout now path real es ≡ refreshed now path es real
unfolding statvfs_cache
old_call timeout now path real es on old = rw (on, old) refl

young_call :
    (timeout now : ℕ) (path : Str) (real : Option StatVfs) (es : Elements)
    → (timeout == 0) ≡ false
    → is_outdated timeout now (es path) ≡ false
    → statvfs_cache timeout now path real es ≡ (some (es path).st, es)
unfolding statvfs_cache
young_call timeout now path real es on young = rw (on, young) refl

young_used :
    (timeout now : ℕ) (e : Element)
    → timeout < now
    → now < u64_mod
    → is_outdated timeout now e ≡ false
    → e ≢ blank
young_used timeout now e h w young unused = absurd (
    true≢false (
      sym (blank-is_outdated timeout now h w)
      ∙ subst (λ x. is_outdated timeout now x ≡ false) unused young))

statvfs_cache-IsRecent :
    (f : History) (timeout now : ℕ) (path : Str) (es : Elements)
    → timeout < now
    → now < u64_mod
    → IsHistoric f now es
    → IsRecent f timeout now path (statvfs_cache timeout now path (some (f path now)) es).0
      × IsHistoric f now (statvfs_cache timeout now path (some (f path now)) es).1
statvfs_cache-IsRecent f zero now path es h w past =
    unfold statvfs_cache in ((now, refl, (omega arith), (omega arith)), past)
statvfs_cache-IsRecent f (suc n) now path es h w past =
    elim (Bool-cases (is_outdated (suc n) now (es path))) [
      | inl old ↦ rw (old_call (suc n) now path (some (f path now)) es (ground arith) old) (
          unfold refreshed in
          ((now, refl, (omega arith), (omega arith)), store-IsHistoric f now path es past))
      | inr young ↦
          rw (young_call (suc n) now path (some (f path now)) es (ground arith) young)
            (elim (past path) [
              | inl unused ↦ absurd (young_used (suc n) now (es path) h w young unused)
              | inr (real, before) ↦ (
                ((es path).time, real, before, young-IsRecent (suc n) now (es path) w before young),
                past,
              )
            ])
    ]

-- Calls at their times, and the answers to them when no call of the system fails.
unfoldable pub run : History → ℕ → List (ℕ × Str) → Elements → List (Option StatVfs)
unfolding statvfs_cache
run f timeout [] es = []
run f timeout ((now, path) ∷ calls) es =
    let (answer, es') = statvfs_cache timeout now path (some (f path now)) es in
    answer ∷ run f timeout calls es'

-- The times do not go back, and stay between the timeout and 2^64.
abbrev pub IsOrdered : ℕ → ℕ → List (ℕ × Str) → Type 0
IsOrdered timeout start [] = Unit
IsOrdered timeout start ((now, path) ∷ calls) =
    (start ≤ now) × (timeout < now) × (now < u64_mod) × IsOrdered timeout now calls

-- Every answer is recent.
abbrev pub AreRecent : History → ℕ → List (ℕ × Str) → List (Option StatVfs) → Type 0
AreRecent f timeout [] answers = Unit
AreRecent f timeout ((now, path) ∷ calls) [] = ⊥
AreRecent f timeout ((now, path) ∷ calls) (a ∷ answers) =
    IsRecent f timeout now path a × AreRecent f timeout calls answers

run_from :
    (f : History) (timeout start : ℕ) (calls : List (ℕ × Str)) (es : Elements)
    → IsOrdered timeout start calls
    → IsHistoric f start es
    → AreRecent f timeout calls (run f timeout calls es)
unfolding run
run_from f timeout start [] es ordered past = tt
run_from f timeout start ((now, path) ∷ calls) es (le, h, w, ordered) past =
    let (recent, past') =
      statvfs_cache-IsRecent f timeout now path es h w (later-IsHistoric f start now es le past) in
    (recent, run_from f timeout now calls _ ordered past')

-- Every answer of the cache, from its start on, is what the file system was like at most `timeout`
-- seconds before the call, if no call of the system fails, the times of the calls do not go back,
-- and they lie after the timeout and below 2^64.
pub run-AreRecent :
    (f : History) (timeout : ℕ) (calls : List (ℕ × Str))
    → IsOrdered timeout 0 calls
    → AreRecent f timeout calls (run f timeout calls (λ p. blank))
run-AreRecent f timeout calls ordered =
    run_from f timeout 0 calls (λ p. blank) ordered (λ p. inl refl)

-- A call that fails is followed, within the timeout, by calls that succeed without asking the
-- system again: they give what was held before the failure, which is a record of zeros if nothing
-- was. The timeout is not zero, the element was out of date, and the times do not go back and are
-- below 2^64.
pub statvfs_cache-failed :
    (timeout now later : ℕ) (path : Str) (real : Option StatVfs) (es : Elements)
    → 0 < timeout
    → is_outdated timeout now (es path) ≡ true
    → now ≤ later
    → later ≤ now + timeout
    → later < u64_mod
    → (statvfs_cache timeout now path none es).0 ≡ none
      × (statvfs_cache timeout later path real (statvfs_cache timeout now path none es).1).0
        ≡ some (es path).st
statvfs_cache-failed timeout now later path real es on old le within w =
    let on' : (timeout == 0) ≡ false = ground arith in
    let e : Element = record (es path) { time = now } in
    let held : store path e es path ≡ e = unfold store in rw (str_eq_refl path) refl in
    let still : is_outdated timeout later (store path e es path) ≡ false =
      rw held (unfold is_outdated in ground arith) in
    rw (old_call timeout now path none es on' old) (
      unfold refreshed in
      (
        refl,
        rw (young_call timeout later path real (store path e es) on' still)
            (ap (λ x. some x.st) held),
      ))
