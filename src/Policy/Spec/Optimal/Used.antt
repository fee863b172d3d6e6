-- ===== src/Policy/Spec/Optimal/Used.antt =====
-- src/policy_lus.cpp, src/policy_eplus.cpp: the outcome is the branch with the least space used.
use mergerfs.Base.{
  ℕ, ◌≤◌, ◌<◌, ◌≡◌, true, false, List, [], ◌∷◌, ◌++◌, Str, All, All-map, arith, leb→le, leb→lt,
  refl, none,
}
use mergerfs.Branch.{Branch, Branches}
use mergerfs.StatVfs.{u64_max}
use mergerfs.Policy.Types.{View, Category, Outcome, success, failure}
use mergerfs.Errno.{enoent}
use mergerfs.Policy.Guard.{Verdict, ep_search_used_guard}
use mergerfs.Policy.Scan.{Scan, scan, scan_step, scan_loop, offer, push_best}
use mergerfs.Policy.Candidates.{candidates, reasons, worst, Reasoned}
use mergerfs.Policy.LeastUsed.{eplus, eplus_search, lus, at_least}
use mergerfs.Policy.Spec.Best.{Ends, scan-Ends}
use mergerfs.Policy.Spec.Optimal.Measures.{ep_used, used, ep_used-Reasoned, used-Reasoned}

-- The first of the candidates with the least space used. Where there is none, no branch passes but
-- such as report the greatest 64-bit number as used, and the worst reason is given.
abbrev pub IsLeastUsed : List (Str × ℕ) → List ℕ → List Str → Outcome → Type 0
IsLeastUsed cs es paths (success, ps) =
    (pre : List (Str × ℕ)) × (p : Str) × (m : ℕ) × (post : List (Str × ℕ)) × (cs
      ≡ pre ++ (p, m) ∷ post)
    × (ps ≡ paths ++ p ∷ [])
    × All (λ c. m < c.1) pre
    × All (λ c. m ≤ c.1) post
IsLeastUsed cs es paths (failure e, ps) =
    All (λ c. u64_max ≤ c.1) cs × (e ≡ worst es) × (ps ≡ paths)

at_least_trans : (a b c : ℕ) → at_least a b ≡ false → at_least b c ≡ false → at_least a c ≡ false
at_least_trans a b c p q = ground arith

at_least_beats : (a b c : ℕ) → at_least b c ≡ true → at_least a c ≡ false → at_least a b ≡ false
at_least_beats a b c p q = ground arith

Ends-IsLeastUsed :
    (cs : List (Str × ℕ)) (es : List ℕ) (paths : List Str) (o : Outcome)
    → Ends at_least u64_max cs es paths o
    → IsLeastUsed cs es paths o
Ends-IsLeastUsed cs es paths (success, ps) (pre, p, m, post, split, result, before, after) = (
  pre,
  p,
  m,
  post,
  split,
  result,
  All-map _ _ (λ c h. leb→lt c.1 m h) pre before,
  All-map _ _ (λ c h. leb→le m c.1 h) post after,
)
Ends-IsLeastUsed cs es paths (failure e, ps) (h, why, same) =
    (All-map _ _ (λ c k. leb→le u64_max c.1 k) cs h, why, same)

scan-IsLeastUsed :
    (verdict : Branch → Verdict ℕ) (bs : Branches) (paths : List Str)
    → Reasoned verdict
    → IsLeastUsed
        (candidates verdict bs)
        (reasons verdict bs)
        paths
        (scan at_least u64_max verdict bs paths)
scan-IsLeastUsed verdict bs paths h =
    Ends-IsLeastUsed _ _ paths _
      (scan-Ends at_least at_least_trans at_least_beats u64_max verdict bs paths h)

-- What a policy gives in a category: the choice above for a creation and a change. A search finds
-- nothing, whatever the branches hold, and fails with ENOENT.
abbrev pub IsUsedChoice : Category → List (Str × ℕ) → List ℕ → List Str → Outcome → Type 0
IsUsedChoice Category.create cs es paths o = IsLeastUsed cs es paths o
IsUsedChoice Category.action cs es paths o = IsLeastUsed cs es paths o
IsUsedChoice Category.search cs es paths o = o ≡ (failure enoent, paths)
IsUsedChoice Category.invalid cs es paths o = o ≡ (failure enoent, paths)

abbrev from_zero : Scan ℕ
from_zero = record { error = enoent; best = 0; base = none }

module _ (v : View) (path : Str) where
  search_step :
      (b : Branch) → scan_step at_least b (ep_search_used_guard v path b) from_zero ≡ from_zero
  unfolding scan_step offer ep_search_used_guard
  search_step b = ground arith

  search_loop :
      (bs : Branches) → scan_loop at_least (ep_search_used_guard v path) from_zero bs ≡ from_zero
  unfolding scan_loop
  search_loop [] = refl
  search_loop (b ∷ bs) = rw (search_step b) (search_loop bs)

  -- No space is below the 0 that the search begins with.
  eplus_search-none :
      (bs : Branches) (paths : List Str) → eplus_search v bs path paths ≡ (failure enoent, paths)
  unfolding eplus_search scan push_best
  eplus_search-none bs paths = rw (search_loop bs) refl

module _ (v : View) (path : Str) (n : ℕ) (bs : Branches) (paths : List Str) where
  -- eplus. For a creation or a change it adds the first of the candidates, in the order of the branches,
  -- with the least space used; or it adds none and fails with the worst reason for which branches were
  -- passed over, and then every candidate uses no less than the greatest 64-bit number. The branches
  -- without the path are no candidates. A search adds none and fails with ENOENT, whatever the branches
  -- hold.
  pub eplus-IsLeastUsed :
      (cat : Category)
      → IsUsedChoice cat
          (candidates (ep_used v cat path n) bs)
          (reasons (ep_used v cat path n) bs)
          paths
          (eplus v cat bs path n paths)
  unfolding eplus
  eplus-IsLeastUsed Category.create =
      scan-IsLeastUsed _ bs paths (ep_used-Reasoned v Category.create path n)
  eplus-IsLeastUsed Category.action =
      scan-IsLeastUsed _ bs paths (ep_used-Reasoned v Category.action path n)
  eplus-IsLeastUsed Category.search = eplus_search-none v path bs paths
  eplus-IsLeastUsed Category.invalid = eplus_search-none v path bs paths

  -- lus. For a creation or a change it adds the first of the candidates, in the order of the branches,
  -- with the least space used; or it adds none and fails with the worst reason for which branches were
  -- passed over, and then every candidate uses no less than the greatest 64-bit number. For a creation
  -- the path need not exist on a candidate. A search adds none and fails with ENOENT, whatever the
  -- branches hold.
  pub lus-IsLeastUsed :
      (cat : Category)
      → IsUsedChoice cat
          (candidates (used v cat path n) bs)
          (reasons (used v cat path n) bs)
          paths
          (lus v cat bs path n paths)
  unfolding lus
  lus-IsLeastUsed Category.create =
      scan-IsLeastUsed _ bs paths (used-Reasoned v Category.create path n)
  lus-IsLeastUsed Category.action =
      scan-IsLeastUsed _ bs paths (used-Reasoned v Category.action path n)
  lus-IsLeastUsed Category.search = eplus_search-none v path bs paths
  lus-IsLeastUsed Category.invalid = eplus_search-none v path bs paths
