-- ===== src/Fuse/Results/Attempts.antt =====
-- The calls of a handler on the branches, one after the other, and the answer that they amount to.
use mergerfs.Base.{
  ℕ, ◌<◌, ℤ, pos, negsuc, neg_ℤ, neg_of, eqb_ℤ, ◌≡◌, ◌≢◌, refl, ◌∙◌, ap, Bool, true, false, List,
  [], ◌∷◌, Str, All, arith, if◌then◌else◌,
}
use mergerfs.Policy.Types.{Rv, success, failure}
use mergerfs.Os.{SetsErrno}
use mergerfs.Fuse.Action.{fold_rv}

-- Some call succeeded.
unfoldable pub any_success : List Rv → Bool
any_success [] = false
any_success (success ∷ rs) = true
any_success (failure e ∷ rs) = any_success rs

-- The `errno` of the last call that failed.
unfoldable pub last_errno : ℕ → List Rv → ℕ
last_errno e0 [] = e0
last_errno e0 (success ∷ rs) = last_errno e0 rs
last_errno e0 (failure e ∷ rs) = last_errno e rs

-- The answer to the kernel: 0 if some call succeeded, and otherwise the negated `errno` of the last.
unfoldable pub answer : List Rv → ℤ
unfolding any_success last_errno
answer rs = if any_success rs then pos 0 else neg_of (last_errno 0 rs)

module _ {R W : Type 0} (call : Str → W → R × W) where
  -- The calls on a list of branches, in order: their results, and the world after them.
  unfoldable pub attempts : List Str → W → List R × W
  attempts [] w = ([], w)
  attempts (p ∷ ps) w = let (r, w1) = call p w in let (rs, w2) = attempts ps w1 in (r ∷ rs, w2)

  pub attempts-nonempty : (ps : List Str) (w : W) → ps ≢ [] → (attempts ps w).0 ≢ []
  unfolding attempts
  attempts-nonempty [] w h e = h refl
  attempts-nonempty (p ∷ ps) w h e = cc

  pub attempts-All :
      (P : R → Type 0) (ps : List Str) (w : W)
      → ((p : Str) (u : W) → P (call p u).0)
      → All P (attempts ps w).0
  unfolding attempts
  attempts-All P [] w h = tt
  attempts-All P (p ∷ ps) w h = (h p w, attempts-All P ps (call p w).1 h)

module _ {W : Type 0} (call : Str → W → Rv × W) where
  pub attempts-SetsErrno :
      (ps : List Str) (w : W)
      → ((p : Str) (u : W) → SetsErrno (call p u).0)
      → All SetsErrno (attempts call ps w).0
  attempts-SetsErrno ps w h = attempts-All call SetsErrno ps w h

-- The variable `error` after calls with these results.
unfoldable pub fold_all : ℤ → List Rv → ℤ
unfolding fold_rv
fold_all error [] = error
fold_all error (r ∷ rs) = fold_all (fold_rv r error) rs

fold_all-zero : (rs : List Rv) → fold_all (pos 0) rs ≡ pos 0
unfolding fold_all
fold_all-zero [] = refl
fold_all-zero (success ∷ rs) = fold_all-zero rs
fold_all-zero (failure e ∷ rs) = fold_all-zero rs

fold_rv-failure :
    (e : ℕ) (error : ℤ) → eqb_ℤ error (pos 0) ≡ false → fold_rv (failure e) error ≡ pos e
unfolding fold_rv
fold_rv-failure e error h = rw h

fold_all-failed :
    (e0 : ℕ) (rs : List Rv)
    → 0 < e0
    → All SetsErrno rs
    → fold_all (pos e0) rs ≡ (if any_success rs then pos 0 else pos (last_errno e0 rs))
unfolding fold_all any_success last_errno
fold_all-failed e0 [] h hs = refl
fold_all-failed e0 (success ∷ rs) h hs = fold_all-zero rs
fold_all-failed e0 (failure e ∷ rs) h hs =
    rw (fold_rv-failure e (pos e0) (ground arith)) (fold_all-failed e rs hs.0 hs.1)

neg_if : (b : Bool) (n : ℕ) → neg_ℤ (if b then pos 0 else pos n) ≡ (if b then pos 0 else neg_of n)
neg_if true n = refl
neg_if false n = refl

-- The initial value -1 stands for no call at all, and is gone after the first.
pub fold_all-answer :
    (rs : List Rv) → rs ≢ [] → All SetsErrno rs → neg_ℤ (fold_all (negsuc 0) rs) ≡ answer rs
fold_all-answer [] h hs = absurd (h refl)
fold_all-answer (success ∷ rs) h hs = unfold fold_all answer in ap neg_ℤ (fold_all-zero rs)
fold_all-answer (failure e ∷ rs) h hs =
    unfold fold_all answer in
    rw (fold_rv-failure e (negsuc 0) refl)
      (ap neg_ℤ (fold_all-failed e rs hs.0 hs.1) ∙ neg_if (any_success rs) (last_errno e rs))

last_errno_pos : (e0 : ℕ) (rs : List Rv) → 0 < e0 → All SetsErrno rs → 0 < last_errno e0 rs
unfolding last_errno
last_errno_pos e0 [] h hs = h
last_errno_pos e0 (success ∷ rs) h hs = last_errno_pos e0 rs h hs.1
last_errno_pos e0 (failure e ∷ rs) h hs = last_errno_pos e rs hs.0 hs.1

is_zero_if : (b : Bool) (n : ℕ) → 0 < n → eqb_ℤ (if b then pos 0 else pos n) (pos 0) ≡ b
is_zero_if b n h = ground arith

-- `error` is 0 after the calls exactly if one of them has succeeded.
pub fold_all-any_success :
    (rs : List Rv) → All SetsErrno rs → eqb_ℤ (fold_all (negsuc 0) rs) (pos 0) ≡ any_success rs
unfolding fold_all any_success
fold_all-any_success [] hs = refl
fold_all-any_success (success ∷ rs) hs = rw (fold_all-zero rs)
fold_all-any_success (failure e ∷ rs) hs =
    rw (fold_rv-failure e (negsuc 0) refl, fold_all-failed e rs hs.0 hs.1)
      (is_zero_if (any_success rs) (last_errno e rs) (last_errno_pos e rs hs.0 hs.1))
