-- ===== src/Policy/Candidates.antt =====
-- An independent description of what a loop over the branches sees: the branches that pass, each
-- with its measure, and the reasons for which the others were passed over.
use mergerfs.Base.{
  ℕ, Bool, List, [], ◌∷◌, ◌==◌, ◌||◌, ◌≡◌, refl, ◌⊎◌, inl, inr, if◌then◌else◌, Str, arith, foldl,
  ◌∙◌, All, Any, All-map, false,
}
use mergerfs.Errno.{enoent, enospc, erofs}
use mergerfs.Branch.{Branch, Branches}
use mergerfs.Policy.Types.{calc_error}
use mergerfs.Policy.Guard.{Verdict, skip, pass, take}

module _ {M : Type 0} where
  abbrev pub add_candidate : Str → Verdict M → List (Str × M) → List (Str × M)
  add_candidate p (skip e) cs = cs
  add_candidate p pass cs = cs
  add_candidate p (take m) cs = (p, m) ∷ cs

  unfoldable pub candidates : (Branch → Verdict M) → Branches → List (Str × M)
  candidates verdict [] = []
  candidates verdict (b ∷ bs) = add_candidate b.path (verdict b) (candidates verdict bs)

  abbrev pub add_reason : Verdict M → List ℕ → List ℕ
  add_reason (skip e) es = e ∷ es
  add_reason pass es = es
  add_reason (take m) es = es

  unfoldable pub reasons : (Branch → Verdict M) → Branches → List ℕ
  reasons verdict [] = []
  reasons verdict (b ∷ bs) = add_reason (verdict b) (reasons verdict bs)

unfoldable pub has : ℕ → List ℕ → Bool
has e [] = false
has e (x ∷ xs) = e == x || has e xs

-- A read-only branch is reported before a full one, a full one before a missing file.
unfoldable pub worst : List ℕ → ℕ
unfolding has
worst es = if has erofs es then erofs else if has enospc es then enospc else enoent

abbrev pub IsReason : ℕ → Type 0
IsReason e = (e ≡ enoent) ⊎ ((e ≡ enospc) ⊎ (e ≡ erofs))

abbrev pub IsSkipReason : {M : Type 0} → Verdict M → Type 0
IsSkipReason (skip e) = IsReason e
IsSkipReason pass = Unit
IsSkipReason (take m) = Unit

-- The reasons of a verdict are among the three.
abbrev pub Reasoned : {M : Type 0} → (Branch → Verdict M) → Type 0
Reasoned verdict = (b : Branch) → IsSkipReason (verdict b)

add_reason-IsReason :
    {M : Type 0} (d : Verdict M) (es : List ℕ)
    → IsSkipReason d
    → All IsReason es
    → All IsReason (add_reason d es)
add_reason-IsReason (skip e) es k h = (k, h)
add_reason-IsReason pass es k h = h
add_reason-IsReason (take m) es k h = h

pub reasons-IsReason :
    {M : Type 0} (verdict : Branch → Verdict M) (bs : Branches)
    → Reasoned verdict
    → All IsReason (reasons verdict bs)
unfolding reasons
reasons-IsReason verdict [] h = tt
reasons-IsReason verdict (b ∷ bs) h =
    add_reason-IsReason (verdict b) (reasons verdict bs) (h b) (reasons-IsReason verdict bs h)

calc_error-IsReason : (cur e : ℕ) → IsReason cur → IsReason e → IsReason (calc_error cur e)
unfolding calc_error
calc_error-IsReason cur e c k = ground arith

worst-calc_error :
    (cur e : ℕ) (es : List ℕ)
    → IsReason cur
    → IsReason e
    → worst (calc_error cur e ∷ es) ≡ worst (cur ∷ e ∷ es)
unfolding calc_error worst
worst-calc_error cur e es c k = ground arith

-- The fold of `calc_error` keeps the worst reason, whatever the order.
pub foldl-calc_error :
    (cur : ℕ) (es : List ℕ)
    → IsReason cur
    → All IsReason es
    → foldl calc_error cur es ≡ worst (cur ∷ es)
foldl-calc_error cur [] c h = unfold worst in ground arith
foldl-calc_error cur (e ∷ es) c h =
    foldl-calc_error (calc_error cur e) es (calc_error-IsReason cur e c h.0) h.1
    ∙ worst-calc_error cur e es c h.0

worst-enoent : (es : List ℕ) → worst (enoent ∷ es) ≡ worst es
unfolding worst
worst-enoent es = refl

-- The policies' fold of `error` from ENOENT on, over reasons out of ENOENT, ENOSPC and EROFS, is the
-- worst of the reasons: EROFS if it is among them, else ENOSPC if that is, else ENOENT. The order of
-- the branches does not matter. So a full branch is not what is reported where another is read-only,
-- other than README.md says.
pub foldl-calc_error_start : (es : List ℕ) → All IsReason es → foldl calc_error enoent es ≡ worst es
foldl-calc_error_start es h = foldl-calc_error enoent es (inl refl) h ∙ worst-enoent es

pub add_candidate-All :
    {M : Type 0} (P : Str × M → Type 0) (p : Str) (d : Verdict M) (cs : List (Str × M))
    → ((m : M) → d ≡ take m → P (p, m))
    → All P cs
    → All P (add_candidate p d cs)
add_candidate-All P p (skip e) cs f h = h
add_candidate-All P p pass cs f h = h
add_candidate-All P p (take m) cs f h = (f m refl, h)

-- Every candidate is the path of a branch that passed, with its measure.
pub candidates-Any :
    {M : Type 0} (verdict : Branch → Verdict M) (bs : Branches)
    → All (λ c. Any (λ b. (b.path ≡ c.0) × (verdict b ≡ take c.1)) bs) (candidates verdict bs)
unfolding candidates
candidates-Any verdict [] = tt
candidates-Any verdict (b ∷ bs) =
    add_candidate-All _ b.path (verdict b) (candidates verdict bs) (λ m e. inl (refl, e))
      (All-map _ _ (λ c h. inr h) (candidates verdict bs) (candidates-Any verdict bs))

pub worst-IsReason : (es : List ℕ) → IsReason (worst es)
unfolding worst
worst-IsReason es = ground arith
