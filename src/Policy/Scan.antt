-- ===== src/Policy/Scan.antt =====
-- The loop that the policies which compare a measure share: it keeps the best branch so far.
use mergerfs.Base.{ℕ, Bool, Option, none, some, List, [], ◌∷◌, ◌++◌, Str, if◌then◌else◌}
use mergerfs.Errno.{enoent}
use mergerfs.Branch.{Branch, Branches}
use mergerfs.Policy.Types.{Outcome, success, failure, calc_error}
use mergerfs.Policy.Guard.{Verdict, skip, pass, take}

-- The variables of the loop: `error`, the measure of the best branch, and its path (or NULL).
pub record Scan (M : Type 0) : Type 0 where
  pub error : ℕ
  pub best : M
  pub base : Option Str

-- The end of the loop's body: `if(worse(m,best)) continue; best = m; basepath = &branch->path;`.
unfoldable pub offer : {M : Type 0} → (M → M → Bool) → Branch → M → Scan M → Scan M
offer worse b m s = if worse m s.best then s else record s { best = m; base = some b.path }

-- One round. The verdict is what the tests above the comparison have decided.
unfoldable pub scan_step : {M : Type 0} → (M → M → Bool) → Branch → Verdict M → Scan M → Scan M
unfolding calc_error offer
scan_step worse b (skip e) s = record s { error = calc_error s.error e }
scan_step worse b pass s = s
scan_step worse b (take m) s = offer worse b m s

-- After the loop: `if(basepath == NULL) return (errno=error,-1); paths.push_back(basepath);`.
unfoldable pub push_best : {M : Type 0} → Scan M → List Str → Outcome
push_best s paths = elim s.base [
  | none ↦ (failure s.error, paths)
  | some p ↦ (success, paths ++ p ∷ [])
]

unfoldable pub scan_loop :
    {M : Type 0} → (M → M → Bool) → (Branch → Verdict M) → Scan M → Branches → Scan M
unfolding scan_step
scan_loop worse verdict s [] = s
scan_loop worse verdict s (b ∷ bs) = scan_loop worse verdict (scan_step worse b (verdict b) s) bs

-- A whole function of this form: `start` is the value that `best` begins with.
unfoldable pub scan :
    {M : Type 0} → (M → M → Bool) → M → (Branch → Verdict M) → Branches → List Str → Outcome
unfolding scan_loop push_best
scan worse start verdict bs paths =
    push_best (scan_loop worse verdict (record { error = enoent; best = start; base = none }) bs)
      paths
