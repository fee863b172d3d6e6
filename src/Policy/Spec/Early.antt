-- ===== src/Policy/Spec/Early.antt =====
-- The loop of newest tests the time of a branch before its file system. That is a scan of the
-- branches that pass all tests, since an error counts only where no branch has been taken.
use mergerfs.Base.{
  ℕ, ℤ, ltb_ℤ, true, false, some, ◌≡◌, refl, [], ◌∷◌, List, Str, ◌⊎◌, inl, inr, arith, sym, ◌∙◌,
  ◌++◌,
}
use mergerfs.Errno.{enoent}
use mergerfs.Branch.{Branch, Branches}
use mergerfs.Policy.Types.{calc_error, success}
use mergerfs.Policy.Guard.{Verdict, take, skip, pass}
use mergerfs.Policy.Scan.{Scan, offer, scan_step, scan_loop, push_best, scan}
use mergerfs.Policy.Newest.{newest_loop, newest_start, accept, time_min}

-- A branch with this verdict would not be taken after a branch of time `best`.
abbrev pub IsWorse : ℤ → Verdict ℤ → Type 0
IsWorse best (skip e) = Unit
IsWorse best pass = Unit
IsWorse best (take m) = ltb_ℤ m best ≡ true

-- An early verdict against that of all the tests.
abbrev pub IsEarly : ℤ → Verdict ℤ → Verdict ℤ → Type 0
IsEarly best (skip e) d = d ≡ skip e
IsEarly best (take m) d = (d ≡ take m) × (ltb_ℤ m best ≡ false)
IsEarly best pass d = (d ≡ pass) ⊎ ((ltb_ℤ time_min best ≡ true) × IsWorse best d)

-- The two loops agree but for the error, which is the same as long as no branch has been taken.
abbrev Agree : Scan ℤ → Scan ℤ → Type 0
Agree s t =
    (e : ℕ) × (t ≡ record s { error = e })
    × (((p : Str) × (s.base ≡ some p)) ⊎ ((e ≡ s.error) × (s.best ≡ time_min)))

passed-Agree :
    (b : Branch) (d : Verdict ℤ) (s t : Scan ℤ)
    → Agree s t
    → ltb_ℤ time_min s.best ≡ true
    → IsWorse s.best d
    → Agree s (scan_step ltb_ℤ b d t)
unfolding scan_step offer calc_error
passed-Agree b (skip x) s t (e, q, inl h) late worse = rw q (calc_error e x, refl, inl h)
passed-Agree b (skip x) s t (e, q, inr h) late worse = absurd (ground arith)
passed-Agree b pass s t h late worse = h
passed-Agree b (take m) s t (e, q, h) late worse = rw q (rw worse (e, refl, h))

step-Agree :
    (b : Branch) (early d : Verdict ℤ) (s t : Scan ℤ)
    → Agree s t
    → IsEarly s.best early d
    → Agree (accept b early s) (scan_step ltb_ℤ b d t)
unfolding accept scan_step offer
step-Agree b (skip x) d s t (e, q, inl h) same = rw (same, q) (calc_error e x, refl, inl h)
step-Agree b (skip x) d s t (e, q, inr (k, l)) same =
    rw (same, q, k) (calc_error s.error x, refl, inr (refl, l))
step-Agree b (take m) d s t (e, q, h) (same, better) =
    rw (same, q) (rw better (e, refl, inl (b.path, refl)))
step-Agree b pass d s t h (inl same) = rw same h
step-Agree b pass d s t h (inr (late, worse)) = passed-Agree b d s t h late worse

module _ (verdict : ℤ → Branch → Verdict ℤ) (full : Branch → Verdict ℤ)
    (early : (best : ℤ) (b : Branch) → IsEarly best (verdict best b) (full b)) where
  loop-Agree :
      (bs : Branches) (s t : Scan ℤ)
      → Agree s t
      → Agree (newest_loop verdict s bs) (scan_loop ltb_ℤ full t bs)
  unfolding newest_loop scan_loop
  loop-Agree [] s t h = h
  loop-Agree (b ∷ bs) s t h =
      loop-Agree bs _ _ (step-Agree b (verdict s.best b) (full b) s t h (early s.best b))

  push_best-some :
      (s : Scan ℤ) (p : Str) (paths : List Str)
      → s.base ≡ some p
      → push_best s paths ≡ (success, paths ++ p ∷ [])
  unfolding push_best
  push_best-some s p paths h = rw h refl

  push_best-Agree :
      (s t : Scan ℤ) (paths : List Str) → Agree s t → push_best s paths ≡ push_best t paths
  push_best-Agree s t paths (e, q, inl (p, h)) =
      rw q (push_best-some s p paths h ∙ sym (push_best-some (record s { error = e }) p paths h))
  push_best-Agree s t paths (e, q, inr (h, l)) = rw (q, h) refl

  pub newest_loop-scan :
      (bs : Branches) (paths : List Str)
      → push_best (newest_loop verdict newest_start bs) paths ≡ scan ltb_ℤ time_min full bs paths
  unfolding scan
  newest_loop-scan bs paths =
      push_best-Agree _ _ paths
        (loop-Agree bs newest_start newest_start (enoent, refl, inr (refl, refl)))
