-- ===== src/Policy/Spec/Choice.antt =====
-- The contract of a policy that is called with an empty vector, and that the loops keep it.
use mergerfs.Base.{
  ℕ, Bool, ◌<◌, ◌≡◌, ◌≢◌, refl, List, [], ◌∷◌, ◌++◌, Str, All, Any, All-map, Any-map, arith, subst,
}
use mergerfs.Errno.{enoent}
use mergerfs.Branch.{Branch, Branches}
use mergerfs.Policy.Types.{Outcome, success, failure, unless_empty}
use mergerfs.Policy.Guard.{Verdict, take}
use mergerfs.Policy.Every.{collect}
use mergerfs.Policy.First.{first}
use mergerfs.Policy.Candidates.{
  candidates, candidates-Any, reasons, worst, worst-IsReason, IsReason, Reasoned,
}
use mergerfs.Policy.Spec.Every.{collect_lem, names}
use mergerfs.Policy.Spec.First.{first_lem, head_or}
use mergerfs.Policy.Spec.Best.{Ends}

-- The path is that of a branch which satisfies the predicate.
abbrev pub IsFrom : (Branch → Type 0) → Branches → Str → Type 0
IsFrom P bs p = Any (λ b. (b.path ≡ p) × P b) bs

-- On success at least one path is given, and each is that of a branch that satisfies `P`; on
-- failure none is given, and `errno` is set.
abbrev pub IsChoice : (Branch → Type 0) → Branches → Outcome → Type 0
IsChoice P bs (success, ps) = (ps ≢ []) × All (IsFrom P bs) ps
IsChoice P bs (failure e, ps) = (ps ≡ []) × (0 < e)

pub IsReason-pos : (e : ℕ) → IsReason e → 0 < e
IsReason-pos e h = ground arith

pub worst_pos : (es : List ℕ) → 0 < worst es
worst_pos es = IsReason-pos (worst es) (worst-IsReason es)

module _ {M : Type 0} (P : Branch → Type 0) (guard : Branch → Verdict M)
    (allowed : (b : Branch) (m : M) → guard b ≡ take m → P b) (bs : Branches) where
  pub candidates-IsFrom : All (λ c. IsFrom P bs c.0) (candidates guard bs)
  candidates-IsFrom =
      All-map _ _ (λ c. Any-map _ _ (λ b h. (h.0, allowed b c.1 h.1)) bs) (candidates guard bs)
        (candidates-Any guard bs)

module _ {M : Type 0} (Q : Str → Type 0) where
  names-All : (cs : List (Str × M)) → All (λ c. Q c.0) cs → All Q (names cs)
  names-All [] h = tt
  names-All (c ∷ cs) h = (h.0, names-All cs h.1)

  pub All_middle :
      (pre post : List (Str × M)) (c : Str × M) → All (λ d. Q d.0) (pre ++ c ∷ post) → Q c.0
  All_middle [] post c h = h.0
  All_middle (d ∷ pre) post c h = All_middle pre post c h.1

module _ (P : Branch → Type 0) (bs : Branches) where
  unless_empty-IsChoice :
      (e : ℕ) (ps : List Str) → 0 < e → All (IsFrom P bs) ps → IsChoice P bs (unless_empty e ps)
  unfolding unless_empty
  unless_empty-IsChoice e [] pos h = (refl, pos)
  unless_empty-IsChoice e (p ∷ ps) pos h = ((λ q. cc), h)

  head_or-IsChoice :
      {M : Type 0} (e : ℕ) (cs : List (Str × M))
      → 0 < e
      → All (λ c. IsFrom P bs c.0) cs
      → IsChoice P bs (head_or e [] cs)
  head_or-IsChoice e [] pos h = (refl, pos)
  head_or-IsChoice e (c ∷ cs) pos h = ((λ q. cc), (h.0, tt))

  pub Ends-IsChoice :
      {M : Type 0} (worse : M → M → Bool) (start : M) (cs : List (Str × M)) (es : List ℕ)
      (o : Outcome)
      → Ends worse start cs es [] o
      → All (λ c. IsFrom P bs c.0) cs
      → IsChoice P bs o
  Ends-IsChoice worse start cs es (success, ps) (pre, p, m, post, split, result, before, after) h =
      rw result (
        (λ q. cc),
        (All_middle (IsFrom P bs) pre post (p, m) (subst (All (λ c. IsFrom P bs c.0)) split h), tt),
      )
  Ends-IsChoice worse start cs es (failure e, ps) (h, why, same) f = (same, rw why (worst_pos es))

module _ {M : Type 0} (P : Branch → Type 0) (guard : Branch → Verdict M) (h : Reasoned guard)
    (allowed : (b : Branch) (m : M) → guard b ≡ take m → P b) (bs : Branches) where
  pub collect-IsChoice : IsChoice P bs (collect guard enoent bs [])
  collect-IsChoice = rw (collect_lem guard bs [] h) (
      unless_empty-IsChoice P bs _ _ (worst_pos (reasons guard bs))
        (names-All (IsFrom P bs) _ (candidates-IsFrom P guard allowed bs)))

  pub first-IsChoice : IsChoice P bs (first guard enoent bs [])
  first-IsChoice = rw (first_lem guard bs [] h) (
      head_or-IsChoice P bs _ _ (worst_pos (reasons guard bs))
        (candidates-IsFrom P guard allowed bs))
