-- ===== src/Policy/Spec/Optimal/Latest.antt =====
-- src/policy_newest.cpp: the outcome is the branch whose file was modified last.
use mergerfs.Base.{
  ℕ, ℤ, ltb_ℤ, ◌≤ℤ◌, ◌<ℤ◌, Option-cases, ◌≡◌, refl, true, false, List, [], ◌∷◌, ◌++◌, Str, All,
  All-map, arith, inl, inr,
}
use mergerfs.Branch.{Branch, Branches}
use mergerfs.Policy.Types.{View, Category, Outcome, success, failure, exists_stat}
use mergerfs.Policy.Guard.{Verdict, take}
use mergerfs.Policy.Scan.{scan}
use mergerfs.Policy.Newest.{newest, time_min}
use mergerfs.Policy.Candidates.{candidates, add_candidate-All, reasons, worst, Reasoned}
use mergerfs.Policy.Spec.Guards.{
  ep_create_guard-Reasoned, ep_action_readonly_guard-Reasoned, search_guard-Reasoned,
}
use mergerfs.Policy.Spec.Best.{Ends, scan-Ends}
use mergerfs.Policy.Spec.Early.{newest_loop-scan}
use mergerfs.Policy.Spec.Optimal.Dated.{
  dated, ep_time, IsTimed, dated-Reasoned, create-IsEarly, action-IsEarly, search-IsEarly,
}

-- The last of the candidates with the latest time; or none is there, and the worst reason is given.
abbrev pub IsLatest : List (Str × ℤ) → List ℕ → List Str → Outcome → Type 0
IsLatest cs es paths (success, ps) =
    (pre : List (Str × ℤ)) × (p : Str) × (t : ℤ) × (post : List (Str × ℤ)) × (cs
      ≡ pre ++ (p, t) ∷ post)
    × (ps ≡ paths ++ p ∷ [])
    × All (λ c. c.1 ≤ℤ t) pre
    × All (λ c. c.1 <ℤ t) post
IsLatest cs es paths (failure e, ps) = (cs ≡ []) × (e ≡ worst es) × (ps ≡ paths)

ltb_ℤ_trans : (a b c : ℤ) → ltb_ℤ a b ≡ false → ltb_ℤ b c ≡ false → ltb_ℤ a c ≡ false
ltb_ℤ_trans a b c p q = ground arith

ltb_ℤ_beats : (a b c : ℤ) → ltb_ℤ b c ≡ true → ltb_ℤ a c ≡ false → ltb_ℤ a b ≡ false
ltb_ℤ_beats a b c p q = ground arith

none_before :
    (cs : List (Str × ℤ))
    → All (λ c. ltb_ℤ c.1 time_min ≡ true) cs
    → All (λ c. time_min ≤ℤ c.1) cs
    → cs ≡ []
none_before [] h bound = refl
none_before (c ∷ cs) h bound = absurd (ground arith)

Ends-IsLatest :
    (cs : List (Str × ℤ)) (es : List ℕ) (paths : List Str) (o : Outcome)
    → All (λ c. time_min ≤ℤ c.1) cs
    → Ends ltb_ℤ time_min cs es paths o
    → IsLatest cs es paths o
Ends-IsLatest cs es paths (success, ps) bound (pre, p, m, post, split, result, before, after) = (
  pre,
  p,
  m,
  post,
  split,
  result,
  All-map _ _ (λ c h. ground arith) pre before,
  All-map _ _ (λ c h. ground arith) post after,
)
Ends-IsLatest cs es paths (failure e, ps) bound (h, why, same) = (none_before cs h bound, why, same)

timed_dated :
    {A : Type 0} (v : View) (p : Str) (d : Verdict A) (m : ℤ)
    → IsTimed v
    → dated d (v.lstat p) ≡ take m
    → time_min ≤ℤ m
timed_dated v p d m timed h = elim (Option-cases (v.lstat p)) [
  | inl e ↦ absurd (ground arith)
  | inr (st, e) ↦ (let low : time_min ≤ℤ st.mtime = timed p st e in ground arith)
]

module _ (v : View) (timed : IsTimed v) (path : Str) (n : ℕ) where
  ep_time_bound :
      (cat : Category) (b : Branch) (m : ℤ) → ep_time v cat path n b ≡ take m → time_min ≤ℤ m
  unfolding exists_stat
  ep_time_bound Category.create b m h = timed_dated v _ _ m timed h
  ep_time_bound Category.action b m h = timed_dated v _ _ m timed h
  ep_time_bound Category.search b m h = timed_dated v _ _ m timed h
  ep_time_bound Category.invalid b m h = timed_dated v _ _ m timed h

  bounded :
      (cat : Category) (bs : Branches)
      → All (λ c. time_min ≤ℤ c.1) (candidates (ep_time v cat path n) bs)
  unfolding candidates
  bounded cat [] = tt
  bounded cat (b ∷ bs) =
      add_candidate-All (λ c. time_min ≤ℤ c.1) b.path (ep_time v cat path n b)
        (candidates (ep_time v cat path n) bs) (ep_time_bound cat b) (bounded cat bs)

  ep_time-Reasoned : (cat : Category) → Reasoned (ep_time v cat path n)
  ep_time-Reasoned Category.create b = dated-Reasoned _ _ (ep_create_guard-Reasoned v path n b)
  ep_time-Reasoned Category.action b =
      dated-Reasoned _ _ (ep_action_readonly_guard-Reasoned v path b)
  ep_time-Reasoned Category.search b = dated-Reasoned _ _ (search_guard-Reasoned v path b)
  ep_time-Reasoned Category.invalid b = dated-Reasoned _ _ (search_guard-Reasoned v path b)

  scan-IsLatest :
      (cat : Category) (bs : Branches) (paths : List Str)
      → IsLatest
          (candidates (ep_time v cat path n) bs)
          (reasons (ep_time v cat path n) bs)
          paths
          (scan ltb_ℤ time_min (ep_time v cat path n) bs paths)
  scan-IsLatest cat bs paths = Ends-IsLatest _ _ paths _ (bounded cat bs) (
      scan-Ends ltb_ℤ ltb_ℤ_trans ltb_ℤ_beats time_min (ep_time v cat path n) bs paths
        (ep_time-Reasoned cat))

  -- newest, in every category: it adds the last of the candidates, in the order of the branches, whose
  -- file has the latest modification time; or, if there is no candidate, it adds none and fails with
  -- the worst reason for which branches were passed over. The candidates are those of epff. Every time
  -- is assumed to be a 64-bit `time_t`.
  pub newest-IsLatest :
      (cat : Category) (bs : Branches) (paths : List Str)
      → IsLatest
          (candidates (ep_time v cat path n) bs)
          (reasons (ep_time v cat path n) bs)
          paths
          (newest v cat bs path n paths)
  unfolding newest
  newest-IsLatest Category.create bs paths =
      rw (newest_loop-scan _ _ (create-IsEarly v timed path n) bs paths)
        (scan-IsLatest Category.create bs paths)
  newest-IsLatest Category.action bs paths =
      rw (newest_loop-scan _ _ (action-IsEarly v timed path n) bs paths)
        (scan-IsLatest Category.action bs paths)
  newest-IsLatest Category.search bs paths =
      rw (newest_loop-scan _ _ (search-IsEarly v timed path n) bs paths)
        (scan-IsLatest Category.search bs paths)
  newest-IsLatest Category.invalid bs paths =
      rw (newest_loop-scan _ _ (search-IsEarly v timed path n) bs paths)
        (scan-IsLatest Category.invalid bs paths)
