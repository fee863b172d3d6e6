-- ===== src/Policy/Spec/Recent.antt =====
-- newest keeps the contract.
use mergerfs.Base.{ℕ, ℤ, ◌≡◌, refl, none, some, [], ◌∷◌, Str, arith, inl, inr, ◌⊎◌, Option-cases}
use mergerfs.Branch.{Branch, Branches}
use mergerfs.Policy.Types.{View, Category, calc_error, exists}
use mergerfs.Policy.Guard.{Verdict, take, skip, pass}
use mergerfs.Policy.Scan.{Scan, push_best}
use mergerfs.Policy.Newest.{
  newest, newest_loop, newest_start, accept, create_verdict, action_verdict, search_verdict,
}
use mergerfs.Policy.Candidates.{IsReason, IsSkipReason}
use mergerfs.Policy.Spec.Choice.{IsFrom, IsChoice, IsReason-pos}
use mergerfs.Policy.Spec.Allowed.{CanCreate, CanChange, HasPath}
use mergerfs.Policy.Spec.Measured.{Strong}

-- What the loop keeps: the path is good, if there is one, and the reason is one of the three.
abbrev Kept : (Str → Type 0) → Scan ℤ → Type 0
Kept Q s = ((s.base ≡ none) ⊎ ((p : Str) × (s.base ≡ some p) × Q p)) × IsReason s.error

module _ (P : Branch → Type 0) (verdict : ℤ → Branch → Verdict ℤ)
    (reasoned : (best : ℤ) (b : Branch) → IsSkipReason (verdict best b))
    (allowed : (best : ℤ) (b : Branch) (m : ℤ) → verdict best b ≡ take m → P b) where
  accept-Kept :
      (Q : Str → Type 0) (b : Branch) (d : Verdict ℤ) (s : Scan ℤ)
      → IsSkipReason d
      → ((m : ℤ) → d ≡ take m → Q b.path)
      → Kept Q s
      → Kept Q (accept b d s)
  unfolding accept calc_error
  accept-Kept Q b (skip e) s r f (h, k) = (h, ground arith)
  accept-Kept Q b pass s r f h = h
  accept-Kept Q b (take m) s r f (h, k) = (inr (b.path, refl, f m refl), k)

  newest_loop-Kept :
      (Q : Str → Type 0) (bs : Branches) (s : Scan ℤ)
      → ((p : Str) → IsFrom P bs p → Q p)
      → Kept Q s
      → Kept Q (newest_loop verdict s bs)
  unfolding newest_loop
  newest_loop-Kept Q [] s f h = h
  newest_loop-Kept Q (b ∷ bs) s f h =
      newest_loop-Kept Q bs (accept b (verdict s.best b) s) (λ p k. f p (inr k))
        (accept-Kept Q b (verdict s.best b) s (reasoned s.best b)
          (λ m e. f b.path (inl (refl, allowed s.best b m e))) h)

  Kept-IsChoice :
      (bs : Branches) (s : Scan ℤ) → Kept (IsFrom P bs) s → IsChoice P bs (push_best s [])
  unfolding push_best
  Kept-IsChoice bs s (inl e, k) = rw e (refl, IsReason-pos s.error k)
  Kept-IsChoice bs s (inr (p, e, h), k) = rw e ((λ q. cc), (h, tt))

  newest_loop-IsChoice :
      (bs : Branches) → IsChoice P bs (push_best (newest_loop verdict newest_start bs) [])
  newest_loop-IsChoice bs =
      Kept-IsChoice bs _
        (newest_loop-Kept (IsFrom P bs) bs newest_start (λ p h. h) (inl refl, inl refl))

module _ (v : View) (path : Str) (n : ℕ) where
  create_verdict-Reasoned : (best : ℤ) (b : Branch) → IsSkipReason (create_verdict v path n best b)
  unfolding create_verdict exists
  create_verdict-Reasoned best b = ground arith

  action_verdict-Reasoned : (best : ℤ) (b : Branch) → IsSkipReason (action_verdict v path best b)
  unfolding action_verdict exists
  action_verdict-Reasoned best b = ground arith

  search_verdict-Reasoned : (best : ℤ) (b : Branch) → IsSkipReason (search_verdict v path best b)
  unfolding search_verdict exists
  search_verdict-Reasoned best b = ground arith

  create_verdict-Strong :
      (best : ℤ) (b : Branch) (m : ℤ)
      → create_verdict v path n best b ≡ take m
      → HasPath v path b × CanCreate v n b
  unfolding create_verdict exists
  create_verdict-Strong best b m h = elim (Option-cases (v.statvfs b.path)) [
    | inl e ↦ absurd (ground arith)
    | inr (st, e) ↦ (ground arith, (st, e, ground arith, ground arith, ground arith, ground arith))
  ]

  action_verdict-Strong :
      (best : ℤ) (b : Branch) (m : ℤ)
      → action_verdict v path best b ≡ take m
      → HasPath v path b × CanChange v b
  unfolding action_verdict exists
  action_verdict-Strong best b m h = elim (Option-cases (v.statvfs b.path)) [
    | inl e ↦ absurd (ground arith)
    | inr (st, e) ↦ (ground arith, (st, e, ground arith, ground arith))
  ]

  search_verdict-Strong :
      (best : ℤ) (b : Branch) (m : ℤ) → search_verdict v path best b ≡ take m → HasPath v path b
  unfolding search_verdict exists
  search_verdict-Strong best b m h = ground arith

  pub newest-IsChoice :
      (bs : Branches) (cat : Category)
      → IsChoice (Strong v cat path n) bs (newest v cat bs path n [])
  unfolding newest
  newest-IsChoice bs Category.create =
      newest_loop-IsChoice _ _ create_verdict-Reasoned create_verdict-Strong bs
  newest-IsChoice bs Category.action =
      newest_loop-IsChoice _ _ action_verdict-Reasoned
        (λ best b m e. let r = action_verdict-Strong best b m e in (r.0, r)) bs
  newest-IsChoice bs Category.search =
      newest_loop-IsChoice _ _ search_verdict-Reasoned
        (λ best b m e. let r = search_verdict-Strong best b m e in (r, r)) bs
  newest-IsChoice bs Category.invalid =
      newest_loop-IsChoice _ _ search_verdict-Reasoned
        (λ best b m e. let r = search_verdict-Strong best b m e in (r, r)) bs
