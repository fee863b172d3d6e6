-- ===== src/Policy/Spec/Optimal/Most.antt =====
-- src/policy_mfs.cpp, src/policy_epmfs.cpp: the outcome is the branch with the most space.
use mergerfs.Base.{
  ℕ, ◌≤◌, ◌<◌, ◌≡◌, refl, true, false, List, [], ◌∷◌, ◌++◌, Str, All, All-map, arith, ltb, ltb→lt,
  ltb→le,
}
use mergerfs.Branch.{Branch, Branches}
use mergerfs.Policy.Types.{View, Category, Outcome, success, failure}
use mergerfs.Policy.Guard.{Verdict}
use mergerfs.Policy.Scan.{scan}
use mergerfs.Policy.Candidates.{candidates, reasons, worst, Reasoned}
use mergerfs.Policy.MostFree.{epmfs, mfs}
use mergerfs.Policy.Spec.Best.{Ends, scan-Ends}
use mergerfs.Policy.Spec.Optimal.Measures.{ep_space, space, ep_space-Reasoned, space-Reasoned}

-- The last of the candidates with the most space; or none is there, and the worst reason is given.
abbrev pub IsMost : List (Str × ℕ) → List ℕ → List Str → Outcome → Type 0
IsMost cs es paths (success, ps) =
    (pre : List (Str × ℕ)) × (p : Str) × (m : ℕ) × (post : List (Str × ℕ)) × (cs
      ≡ pre ++ (p, m) ∷ post)
    × (ps ≡ paths ++ p ∷ [])
    × All (λ c. c.1 ≤ m) pre
    × All (λ c. c.1 < m) post
IsMost cs es paths (failure e, ps) = (cs ≡ []) × (e ≡ worst es) × (ps ≡ paths)

ltb_trans : (a b c : ℕ) → ltb a b ≡ false → ltb b c ≡ false → ltb a c ≡ false
ltb_trans a b c p q = ground arith

ltb_beats : (a b c : ℕ) → ltb b c ≡ true → ltb a c ≡ false → ltb a b ≡ false
ltb_beats a b c p q = ground arith

none_below : (cs : List (Str × ℕ)) → All (λ c. ltb c.1 0 ≡ true) cs → cs ≡ []
none_below [] h = refl
none_below (c ∷ cs) h = ground arith

Ends-IsMost :
    (cs : List (Str × ℕ)) (es : List ℕ) (paths : List Str) (o : Outcome)
    → Ends ltb 0 cs es paths o
    → IsMost cs es paths o
Ends-IsMost cs es paths (success, ps) (pre, p, m, post, split, result, before, after) = (
  pre,
  p,
  m,
  post,
  split,
  result,
  All-map _ _ (λ c h. ltb→le m c.1 h) pre before,
  All-map _ _ (λ c h. ltb→lt c.1 m h) post after,
)
Ends-IsMost cs es paths (failure e, ps) (h, why, same) = (none_below cs h, why, same)

scan-IsMost :
    (verdict : Branch → Verdict ℕ) (bs : Branches) (paths : List Str)
    → Reasoned verdict
    → IsMost (candidates verdict bs) (reasons verdict bs) paths (scan ltb 0 verdict bs paths)
scan-IsMost verdict bs paths h =
    Ends-IsMost _ _ paths _ (scan-Ends ltb ltb_trans ltb_beats 0 verdict bs paths h)

module _ (v : View) (path : Str) (n : ℕ) (bs : Branches) (paths : List Str) where
  -- epmfs, in every category: it adds the last of the candidates, in the order of the branches, with
  -- the most space available; or, if there is no candidate, it adds none and fails with the worst
  -- reason for which branches were passed over. The branches without the path are no candidates.
  pub epmfs-IsMost :
      (cat : Category)
      → IsMost
          (candidates (ep_space v cat path n) bs)
          (reasons (ep_space v cat path n) bs)
          paths
          (epmfs v cat bs path n paths)
  unfolding epmfs
  epmfs-IsMost Category.create = scan-IsMost _ bs paths (ep_space-Reasoned v Category.create path n)
  epmfs-IsMost Category.action = scan-IsMost _ bs paths (ep_space-Reasoned v Category.action path n)
  epmfs-IsMost Category.search = scan-IsMost _ bs paths (ep_space-Reasoned v Category.search path n)
  epmfs-IsMost Category.invalid =
      scan-IsMost _ bs paths (ep_space-Reasoned v Category.invalid path n)

  -- mfs, in every category: it adds the last of the candidates, in the order of the branches, with the
  -- most space available; or, if there is no candidate, it adds none and fails with the worst reason for
  -- which branches were passed over. For a creation the path need not exist on a candidate.
  pub mfs-IsMost :
      (cat : Category)
      → IsMost
          (candidates (space v cat path n) bs)
          (reasons (space v cat path n) bs)
          paths
          (mfs v cat bs path n paths)
  unfolding mfs
  mfs-IsMost Category.create = scan-IsMost _ bs paths (space-Reasoned v Category.create path n)
  mfs-IsMost Category.action = scan-IsMost _ bs paths (space-Reasoned v Category.action path n)
  mfs-IsMost Category.search = scan-IsMost _ bs paths (space-Reasoned v Category.search path n)
  mfs-IsMost Category.invalid = scan-IsMost _ bs paths (space-Reasoned v Category.invalid path n)
