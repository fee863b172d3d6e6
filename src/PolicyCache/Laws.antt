-- ===== src/PolicyCache/Laws.antt =====
-- src/policy_cache.cpp: what a caller of the cache gets after the other operations.
use mergerfs.Base.{
  ℕ, ◌+◌, ◌≤◌, ◌<◌, ◌≡◌, refl, ◌∙◌, true, false, none, some, Option, [], Str, Bool-cases, inl, inr,
  arith, ap, Option-cases, sym,
}
use mergerfs.StatVfs.{u64_mod}
use mergerfs.Policy.Types.{success, failure}
use mergerfs.PolicyCache.{
  Value, Entries, lookup, erase, insert, entry, is_stale, Answer, after_search, call, cleanup,
}
use mergerfs.PolicyCache.Map.{lookup-erase, lookup-insert, IsMap, keep, lookup-cleanup}

entry-insert : (k : Str) (v : Value) (es : Entries) → entry k (insert k v es) ≡ v
unfolding entry
entry-insert k v es = rw (entry, lookup-insert k v es) refl

entry-erase : (k : Str) (es : Entries) → entry k (erase k es) ≡ record { time = 0; path = [] }
unfolding entry
entry-erase k es = rw (entry, lookup-erase k es) refl

-- A value of time 0 is stale as soon as the clock has passed the timeout.
blank_stale :
    (timeout now : ℕ)
    → timeout ≤ now
    → now < u64_mod
    → is_stale timeout now (record { time = 0; path = [] }) ≡ true
unfolding is_stale
blank_stale timeout now h w = ground arith

fresh :
    (timeout now time : ℕ) (p : Str)
    → time ≤ now
    → now < time + timeout
    → now < u64_mod
    → is_stale timeout now (record { time = time; path = p }) ≡ false
unfolding is_stale
fresh timeout now time p a b c = ground arith

-- A call whose entry is stale, or made with no timeout, gives what the search gives.
call-stale :
    (timeout now : ℕ) (k : Str) (a : Answer) (es : Entries)
    → is_stale timeout now (entry k es) ≡ true
    → (call timeout now k a es).0 ≡ a
unfolding call after_search
call-stale timeout now k (failure e, p) es h = ground (arith, h)
call-stale timeout now k (success, p) es h = ground (arith, h)

call-search :
    (timeout now : ℕ) (k p : Str) (es : Entries)
    → 0 < timeout
    → is_stale timeout now (entry k es) ≡ true
    → (call timeout now k (success, p) es).1 ≡ insert k (record { time = now; path = p }) es
unfolding call after_search
call-search timeout now k p es pos h = ground (arith, h)

call-hit :
    (timeout now : ℕ) (k : Str) (a : Answer) (es : Entries)
    → 0 < timeout
    → is_stale timeout now (entry k es) ≡ false
    → (call timeout now k a es).0 ≡ (success, (entry k es).path)
unfolding call
call-hit timeout now k a es pos h = ground (arith, h)

-- After an erasure the next call for the path gives what the search gives, provided that the clock
-- shows no less than the timeout.
pub call-erase :
    (timeout now : ℕ) (k : Str) (a : Answer) (es : Entries)
    → timeout ≤ now
    → now < u64_mod
    → (call timeout now k a (erase k es)).0 ≡ a
call-erase timeout now k a es h w =
    call-stale timeout now k a (erase k es) (rw (entry-erase k es) (blank_stale timeout now h w))

-- A search that succeeds is repeated from the cache: a later call for the path, within the timeout,
-- gives the path that was found, whatever a search would give then.
pub call-call :
    (timeout now later : ℕ) (k p : Str) (b : Answer) (es : Entries)
    → is_stale timeout now (entry k es) ≡ true
    → now ≤ later
    → later < now + timeout
    → later < u64_mod
    → (call timeout later k b (call timeout now k (success, p) es).1).0 ≡ (success, p)
call-call timeout now later k p b es h after soon w =
    let v : Value = record { time = now; path = p } in
    rw (call-search timeout now k p es (omega arith) h) (
      rw
        (call-hit timeout later k b (insert k v es) (omega arith)
          (rw (entry-insert k v es) (fresh timeout later now p after soon w)))
        (ap (λ u. (success, u.path)) (entry-insert k v es)))

-- What `entry` makes of a lookup.
abbrev value_of : Option Value → Value
value_of none = record { time = 0; path = [] }
value_of (some v) = v

entry_lem : (k : Str) (es : Entries) → entry k es ≡ value_of (lookup k es)
unfolding entry
entry_lem k es = elim (Option-cases (lookup k es)) [
  | inl e ↦ rw (entry, e) refl
  | inr (v, e) ↦ rw (entry, e) refl
]

module _ (timeout now : ℕ) (h : timeout ≤ now) (w : now < u64_mod) where
  keep-stale :
      (o : Option Value)
      → is_stale timeout now (value_of o) ≡ true
      → is_stale timeout now (value_of (keep timeout now o)) ≡ true
  keep-stale none stale = stale
  keep-stale (some v) stale = rw stale (blank_stale timeout now h w)

  keep-fresh :
      (o : Option Value)
      → is_stale timeout now (value_of o) ≡ false
      → value_of (keep timeout now o) ≡ value_of o
  keep-fresh none young = refl
  keep-fresh (some v) young = rw young refl

  never_fresh : (v : Value) → is_stale timeout now v ≡ false → 0 < timeout
  unfolding is_stale
  never_fresh v young = ground arith

  -- A cleanup is not seen by a later call at the same time: the call gives what it would have given
  -- without, provided that the keys are different and the clock shows no less than the timeout.
  pub call-cleanup :
      (k : Str) (a : Answer) (es : Entries)
      → IsMap es
      → (call timeout now k a (cleanup timeout now es)).0 ≡ (call timeout now k a es).0
  call-cleanup k a es m =
      let kept : entry k (cleanup timeout now es) ≡ value_of (keep timeout now (lookup k es)) =
        entry_lem k (cleanup timeout now es) ∙ ap value_of (lookup-cleanup timeout now k es m) in
      elim (Bool-cases (is_stale timeout now (entry k es))) [
        | inl stale ↦
            call-stale timeout now k a _
              (rw kept (keep-stale (lookup k es) (rw (sym (entry_lem k es)) stale)))
            ∙ sym (call-stale timeout now k a es stale)
        | inr young ↦
            let same : entry k (cleanup timeout now es) ≡ entry k es =
              kept
              ∙ keep-fresh (lookup k es) (rw (sym (entry_lem k es)) young)
              ∙ sym (entry_lem k es) in
            let some_time : 0 < timeout = never_fresh (entry k es) young in
            call-hit timeout now k a _ some_time (rw same young)
            ∙ ap (λ v. (success, v.path)) same
            ∙ sym (call-hit timeout now k a es some_time young)
      ]
