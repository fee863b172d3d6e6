-- ===== src/Policy/Spec/Every.antt =====
-- `collect`, the loop of all and epall, against the list of candidates.
use mergerfs.Base.{
  ℕ, List, [], ◌∷◌, ◌++◌, ◌≡◌, ◌∙◌, ap, map, Str, inl, inr, append-nil, append_assoc, foldl, sym,
}
use mergerfs.Errno.{enoent}
use mergerfs.Branch.{Branch, Branches}
use mergerfs.Policy.Types.{calc_error, unless_empty}
use mergerfs.Policy.Guard.{Verdict, Verdict-cases}
use mergerfs.Policy.Every.{collect}
use mergerfs.Policy.Candidates.{
  candidates, reasons, worst, Reasoned, foldl-calc_error_start, reasons-IsReason,
}

module _ {M : Type 0} where
  -- The paths of the candidates, in the order of the branches.
  abbrev pub names : List (Str × M) → List Str
  names = map (λ c. c.0)

module _ {M : Type 0} (guard : Branch → Verdict M) where
  pub collect-fold :
      (error : ℕ) (bs : Branches) (paths : List Str)
      → collect guard error bs paths
        ≡ unless_empty
            (foldl calc_error error (reasons guard bs))
            (paths ++ names (candidates guard bs))
  unfolding collect reasons candidates
  collect-fold error [] paths = ap (unless_empty error) (sym (append-nil paths))
  collect-fold error (b ∷ bs) paths = elim (Verdict-cases (guard b)) [
    | inl (e, q) ↦ rw (q, collect) (collect-fold (calc_error error e) bs paths)
    | inr (inl q) ↦ rw (q, collect) (collect-fold error bs paths)
    | inr (inr (m, q)) ↦
        rw (q, collect)
          (collect-fold error bs (paths ++ b.path ∷ [])
            ∙ ap (unless_empty (foldl calc_error error (reasons guard bs)))
                (append_assoc paths (b.path ∷ []) (names (candidates guard bs))))
  ]

  -- The loop of all and epall, with a test that gives only known reasons: it adds the paths of all the
  -- candidates, in the order of the branches, to what the vector held. If the vector is empty then, it
  -- fails with the worst reason for which branches were passed over.
  pub collect_lem :
      (bs : Branches) (paths : List Str)
      → Reasoned guard
      → collect guard enoent bs paths
        ≡ unless_empty (worst (reasons guard bs)) (paths ++ names (candidates guard bs))
  collect_lem bs paths h =
      collect-fold enoent bs paths
      ∙ ap (λ e. unless_empty e (paths ++ names (candidates guard bs)))
          (foldl-calc_error_start (reasons guard bs) (reasons-IsReason guard bs h))
