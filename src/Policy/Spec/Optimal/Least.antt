-- ===== src/Policy/Spec/Optimal/Least.antt =====
-- src/policy_lfs.cpp, src/policy_eplfs.cpp: the outcome is the branch with the least space.
use mergerfs.Base.{
  ℕ, ◌≤◌, ◌<◌, ◌≡◌, refl, true, false, List, [], ◌∷◌, ◌++◌, Str, All, All-map, arith, ltb→lt,
  ltb→le,
}
use mergerfs.Branch.{Branch, Branches}
use mergerfs.StatVfs.{u64_max}
use mergerfs.Policy.Types.{View, Category, Outcome, success, failure}
use mergerfs.Policy.Guard.{Verdict, take}
use mergerfs.Policy.Scan.{scan}
use mergerfs.Policy.Candidates.{candidates, reasons, worst, Reasoned, add_candidate-All}
use mergerfs.Policy.LeastFree.{eplfs, lfs, above}
use mergerfs.Policy.Spec.Best.{Ends, scan-Ends}
use mergerfs.Policy.Spec.Optimal.Measures.{
  ep_space, space, ep_space-Reasoned, space-Reasoned, ep_space_bound, space_bound,
}

-- The last of the candidates with the least space; or none is there, and the worst reason is given.
abbrev pub IsLeast : List (Str × ℕ) → List ℕ → List Str → Outcome → Type 0
IsLeast cs es paths (success, ps) =
    (pre : List (Str × ℕ)) × (p : Str) × (m : ℕ) × (post : List (Str × ℕ)) × (cs
      ≡ pre ++ (p, m) ∷ post)
    × (ps ≡ paths ++ p ∷ [])
    × All (λ c. m ≤ c.1) pre
    × All (λ c. m < c.1) post
IsLeast cs es paths (failure e, ps) = (cs ≡ []) × (e ≡ worst es) × (ps ≡ paths)

above_trans : (a b c : ℕ) → above a b ≡ false → above b c ≡ false → above a c ≡ false
above_trans a b c p q = ground arith

above_beats : (a b c : ℕ) → above b c ≡ true → above a c ≡ false → above a b ≡ false
above_beats a b c p q = ground arith

none_above :
    (cs : List (Str × ℕ))
    → All (λ c. above c.1 u64_max ≡ true) cs
    → All (λ c. c.1 ≤ u64_max) cs
    → cs ≡ []
none_above [] h bound = refl
none_above (c ∷ cs) h bound = ground arith

Ends-IsLeast :
    (cs : List (Str × ℕ)) (es : List ℕ) (paths : List Str) (o : Outcome)
    → All (λ c. c.1 ≤ u64_max) cs
    → Ends above u64_max cs es paths o
    → IsLeast cs es paths o
Ends-IsLeast cs es paths (success, ps) bound (pre, p, m, post, split, result, before, after) = (
  pre,
  p,
  m,
  post,
  split,
  result,
  All-map _ _ (λ c h. ltb→le c.1 m h) pre before,
  All-map _ _ (λ c h. ltb→lt m c.1 h) post after,
)
Ends-IsLeast cs es paths (failure e, ps) bound (h, why, same) = (none_above cs h bound, why, same)

bounded :
    (verdict : Branch → Verdict ℕ)
    → ((b : Branch) (m : ℕ) → verdict b ≡ take m → m ≤ u64_max)
    → (bs : Branches) → All (λ c. c.1 ≤ u64_max) (candidates verdict bs)
unfolding candidates
bounded verdict f [] = tt
bounded verdict f (b ∷ bs) =
    add_candidate-All (λ c. c.1 ≤ u64_max) b.path (verdict b) (candidates verdict bs) (f b)
      (bounded verdict f bs)

scan-IsLeast :
    (verdict : Branch → Verdict ℕ) (bs : Branches) (paths : List Str)
    → Reasoned verdict
    → ((b : Branch) (m : ℕ) → verdict b ≡ take m → m ≤ u64_max)
    → IsLeast
        (candidates verdict bs)
        (reasons verdict bs)
        paths
        (scan above u64_max verdict bs paths)
scan-IsLeast verdict bs paths h f =
    Ends-IsLeast _ _ paths _ (bounded verdict f bs)
      (scan-Ends above above_trans above_beats u64_max verdict bs paths h)

module _ (v : View) (path : Str) (n : ℕ) (bs : Branches) (paths : List Str) where
  -- eplfs, in every category: it adds the last of the candidates, in the order of the branches, with the
  -- least space available; or, if there is no candidate, it adds none and fails with the worst reason
  -- for which branches were passed over. The branches without the path are no candidates.
  pub eplfs-IsLeast :
      (cat : Category)
      → IsLeast
          (candidates (ep_space v cat path n) bs)
          (reasons (ep_space v cat path n) bs)
          paths
          (eplfs v cat bs path n paths)
  unfolding eplfs
  eplfs-IsLeast Category.create =
      scan-IsLeast _ bs paths (ep_space-Reasoned v Category.create path n)
        (ep_space_bound v Category.create path n)
  eplfs-IsLeast Category.action =
      scan-IsLeast _ bs paths (ep_space-Reasoned v Category.action path n)
        (ep_space_bound v Category.action path n)
  eplfs-IsLeast Category.search =
      scan-IsLeast _ bs paths (ep_space-Reasoned v Category.search path n)
        (ep_space_bound v Category.search path n)
  eplfs-IsLeast Category.invalid =
      scan-IsLeast _ bs paths (ep_space-Reasoned v Category.invalid path n)
        (ep_space_bound v Category.invalid path n)

  -- lfs, in every category: it adds the last of the candidates, in the order of the branches, with the
  -- least space available; or, if there is no candidate, it adds none and fails with the worst reason
  -- for which branches were passed over. For a creation the path need not exist on a candidate.
  pub lfs-IsLeast :
      (cat : Category)
      → IsLeast
          (candidates (space v cat path n) bs)
          (reasons (space v cat path n) bs)
          paths
          (lfs v cat bs path n paths)
  unfolding lfs
  lfs-IsLeast Category.create =
      scan-IsLeast _ bs paths (space-Reasoned v Category.create path n)
        (space_bound v Category.create path n)
  lfs-IsLeast Category.action =
      scan-IsLeast _ bs paths (space-Reasoned v Category.action path n)
        (space_bound v Category.action path n)
  lfs-IsLeast Category.search =
      scan-IsLeast _ bs paths (space-Reasoned v Category.search path n)
        (space_bound v Category.search path n)
  lfs-IsLeast Category.invalid =
      scan-IsLeast _ bs paths (space-Reasoned v Category.invalid path n)
        (space_bound v Category.invalid path n)
