-- ===== src/Policy/Spec/Best.antt =====
-- `scan`, the loop of the policies that compare a measure, against the list of candidates.
use mergerfs.Base.{
  ℕ, Bool, true, false, Option, none, some, List, [], ◌∷◌, ◌++◌, ◌≡◌, refl, ◌∙◌, ap, inl, inr, Str,
  All, foldl, arith, if◌then◌else◌, Bool-cases,
}
use mergerfs.Branch.{Branch, Branches}
use mergerfs.Errno.{enoent}
use mergerfs.Policy.Types.{calc_error, Outcome, success, failure}
use mergerfs.Policy.Guard.{Verdict, skip, pass, take}
use mergerfs.Policy.Scan.{Scan, scan_loop, scan_step, offer, push_best, scan}
use mergerfs.Policy.Candidates.{
  candidates, reasons, add_candidate, add_reason, worst, Reasoned, foldl-calc_error_start,
  reasons-IsReason,
}

module _ {M : Type 0} where
  abbrev pub picked : ℕ → M × Option Str → Scan M
  picked e (m, base) = record { error = e; best = m; base = base }

module _ {M : Type 0} (worse : M → M → Bool) where
  -- The best of the candidates, when `best` and `base` are what the loop has kept so far.
  pub pick : M → Option Str → List (Str × M) → M × Option Str
  pick best base [] = (best, base)
  pick best base ((p, m) ∷ cs) =
      pick (if worse m best then best else m) (if worse m best then base else some p) cs

  -- One round, against the same round on the lists.
  scan_step-pick :
      (b : Branch) (d : Verdict M) (s : Scan M) (es : List ℕ) (cs : List (Str × M))
      → let s' = scan_step worse b d s in
        picked (foldl calc_error s'.error es) (pick s'.best s'.base cs)
        ≡ picked
            (foldl calc_error s.error (add_reason d es))
            (pick s.best s.base (add_candidate b.path d cs))
  unfolding scan_step offer pick
  scan_step-pick b (skip e) s es cs = refl
  scan_step-pick b pass s es cs = refl
  scan_step-pick b (take m) s es cs = ground arith

  pub scan_loop-pick :
      (verdict : Branch → Verdict M) (s : Scan M) (bs : Branches)
      → scan_loop worse verdict s bs
        ≡ picked
            (foldl calc_error s.error (reasons verdict bs))
            (pick s.best s.base (candidates verdict bs))
  unfolding scan_loop reasons candidates pick
  scan_loop-pick verdict s [] = refl
  scan_loop-pick verdict s (b ∷ bs) =
      scan_loop-pick verdict (scan_step worse b (verdict b) s) bs
      ∙ scan_step-pick b (verdict b) s (reasons verdict bs) (candidates verdict bs)

module _ {M : Type 0} (worse : M → M → Bool) where
  -- What the loop has chosen: the initial value is kept if every candidate is worse, and otherwise
  -- a candidate is chosen that no earlier one beats and that beats every later one.
  pub data Picked (best : M) (base : Option Str) (cs : List (Str × M))
      : M × Option Str → Type 0 where
    kept :
        {r : M × Option Str}
        → r ≡ (best, base)
        → All (λ c. worse c.1 best ≡ true) cs
        → Picked best base cs r
    chosen :
        {r : M × Option Str} (pre : List (Str × M)) (p : Str) (m : M) (post : List (Str × M))
        → r ≡ (m, some p)
        → cs ≡ pre ++ (p, m) ∷ post
        → worse m best ≡ false
        → All (λ c. worse m c.1 ≡ false) pre
        → All (λ c. worse c.1 m ≡ true) post
        → Picked best base cs r

module _ {M : Type 0} (worse : M → M → Bool)
    (trans : (a b c : M) → worse a b ≡ false → worse b c ≡ false → worse a c ≡ false)
    (beats : (a b c : M) → worse b c ≡ true → worse a c ≡ false → worse a b ≡ false) where
  skipped :
      (best : M) (base : Option Str) (p : Str) (m : M) (cs : List (Str × M))
      → worse m best ≡ true
      → (r : M × Option Str) → Picked worse best base cs r
      → Picked worse best base ((p, m) ∷ cs) r
  skipped best base p m cs w r (kept e h) = kept e (w, h)
  skipped best base p m cs w r (chosen pre q n post e split better before after) =
      chosen ((p, m) ∷ pre) q n post e (ap (λ t. (p, m) ∷ t) split) better
        (beats n m best w better, before) after

  taken :
      (best : M) (base : Option Str) (p : Str) (m : M) (cs : List (Str × M))
      → worse m best ≡ false
      → (r : M × Option Str) → Picked worse m (some p) cs r
      → Picked worse best base ((p, m) ∷ cs) r
  taken best base p m cs w r (kept e h) = chosen [] p m cs e refl w tt h
  taken best base p m cs w r (chosen pre q n post e split better before after) =
      chosen ((p, m) ∷ pre) q n post e (ap (λ t. (p, m) ∷ t) split) (trans n m best better w)
        (better, before) after

  pub pick-Picked :
      (best : M) (base : Option Str) (cs : List (Str × M))
      → Picked worse best base cs (pick worse best base cs)
  unfolding pick
  pick-Picked best base [] = kept refl tt
  pick-Picked best base ((p, m) ∷ cs) = elim (Bool-cases (worse m best)) [
    | inl w ↦ rw w (skipped best base p m cs w _ (pick-Picked best base cs))
    | inr w ↦ rw w (taken best base p m cs w _ (pick-Picked m (some p) cs))
  ]

module _ {M : Type 0} (worse : M → M → Bool) (start : M) (cs : List (Str × M)) where
  -- How the whole loop ends, when `es` are the reasons met on the way.
  abbrev pub Ends : List ℕ → List Str → Outcome → Type 0
  Ends es paths (success, ps) =
      (pre : List (Str × M)) × (p : Str) × (m : M) × (post : List (Str × M)) × (cs
        ≡ pre ++ (p, m) ∷ post)
      × (ps ≡ paths ++ p ∷ [])
      × All (λ c. worse m c.1 ≡ false) pre
      × All (λ c. worse c.1 m ≡ true) post
  Ends es paths (failure e, ps) =
      All (λ c. worse c.1 start ≡ true) cs × (e ≡ worst es) × (ps ≡ paths)

  push_best-Ends :
      (es : List ℕ) (paths : List Str) (r : M × Option Str)
      → Picked worse start none cs r
      → Ends es paths (push_best (picked (worst es) r) paths)
  unfolding push_best
  push_best-Ends es paths r (kept e h) = rw e (h, refl, refl)
  push_best-Ends es paths r (chosen pre p m post e split better before after) =
      rw e (pre, p, m, post, split, refl, before, after)

module _ {M : Type 0} (worse : M → M → Bool)
    (trans : (a b c : M) → worse a b ≡ false → worse b c ≡ false → worse a c ≡ false)
    (beats : (a b c : M) → worse b c ≡ true → worse a c ≡ false → worse a b ≡ false) where
  pub scan-Ends :
      (start : M) (verdict : Branch → Verdict M) (bs : Branches) (paths : List Str)
      → Reasoned verdict
      → Ends worse start
          (candidates verdict bs)
          (reasons verdict bs)
          paths
          (scan worse start verdict bs paths)
  unfolding scan
  scan-Ends start verdict bs paths h =
      rw
        (
          scan_loop-pick worse verdict (record { error = enoent; best = start; base = none }) bs,
          foldl-calc_error_start (reasons verdict bs) (reasons-IsReason verdict bs h),
        )
        (push_best-Ends worse start (candidates verdict bs) (reasons verdict bs) paths _
          (pick-Picked worse trans beats start none (candidates verdict bs)))
