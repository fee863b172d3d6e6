-- ===== src/Policy/Spec/First.antt =====
-- `first`, the loop of ff and epff, against the list of candidates.
use mergerfs.Base.{ℕ, List, [], ◌∷◌, ◌++◌, ◌≡◌, refl, ◌∙◌, ap, Str, inl, inr, foldl}
use mergerfs.Errno.{enoent}
use mergerfs.Branch.{Branch, Branches}
use mergerfs.Policy.Types.{Outcome, success, failure, calc_error}
use mergerfs.Policy.Guard.{Verdict, Verdict-cases}
use mergerfs.Policy.First.{first}
use mergerfs.Policy.Candidates.{
  candidates, reasons, worst, Reasoned, foldl-calc_error_start, reasons-IsReason,
}

module _ {M : Type 0} where
  -- The outcome of a search for the first candidate.
  abbrev pub head_or : ℕ → List Str → List (Str × M) → Outcome
  head_or error paths [] = (failure error, paths)
  head_or error paths (c ∷ cs) = (success, paths ++ c.0 ∷ [])

module _ {M : Type 0} (guard : Branch → Verdict M) where
  pub first-fold :
      (error : ℕ) (bs : Branches) (paths : List Str)
      → first guard error bs paths
        ≡ head_or (foldl calc_error error (reasons guard bs)) paths (candidates guard bs)
  unfolding first reasons candidates
  first-fold error [] paths = refl
  first-fold error (b ∷ bs) paths = elim (Verdict-cases (guard b)) [
    | inl (e, q) ↦ rw (q, first) (first-fold (calc_error error e) bs paths)
    | inr (inl q) ↦ rw (q, first) (first-fold error bs paths)
    | inr (inr (m, q)) ↦ rw (q, first)
  ]

  -- The loop of ff and epff, with a test that gives only known reasons: it adds the path of the first
  -- candidate. If there is none, it adds nothing and fails with the worst reason for which branches were
  -- passed over.
  pub first_lem :
      (bs : Branches) (paths : List Str)
      → Reasoned guard
      → first guard enoent bs paths ≡ head_or (worst (reasons guard bs)) paths (candidates guard bs)
  first_lem bs paths h =
      first-fold enoent bs paths
      ∙ ap (λ e. head_or e paths (candidates guard bs))
          (foldl-calc_error_start (reasons guard bs) (reasons-IsReason guard bs h))
