-- ===== src/Fuse/Results/Renamed.antt =====
-- rename, when it does not preserve paths: the answer and what is removed.
use mergerfs.Base.{
  ◌<◌, ℤ, neg_of, not, ◌&&◌, ◌≡◌, ◌≢◌, refl, true, false, Bool-cases, List, [], ◌∷◌, map, Str, All,
  str_eq_iff, arith, inl, inr, if◌then◌else◌,
}
use mergerfs.Branch.{Branch, Branches}
use mergerfs.Os.{Os, SetsErrno}
use mergerfs.Os.Laws.{IsLawful}
use mergerfs.Path.{dirname}
use mergerfs.ClonePath.Errors.{clonepath_as_root-SetsErrno}
use mergerfs.Policy.Types.{Category, Outcome, Rv, success, failure, make}
use mergerfs.Policy.Spec.Choice.{IsChoice, IsFrom}
use mergerfs.Fuse.Config.{Config, State, run_policy}
use mergerfs.Fuse.Rename.{
  member, remove_all, finish, start, rename_create_path_on, rename_create_path,
}
use mergerfs.Fuse.Results.Attempts.{
  attempts, attempts-nonempty, attempts-All, fold_all-any_success, answer, any_success,
  fold_all-answer,
}
use mergerfs.Fuse.Results.Actions.{run_policy-IsChoice}
use mergerfs.PolicyCache.{erase}
use mergerfs.Policy.Table.{path_preserving}
use mergerfs.Fuse.Action.{in_world}
use mergerfs.Fuse.Rename.{rename}
use mergerfs.Fuse.Results.Rounds.{selected, leftovers}
use mergerfs.Fuse.Results.Renames.{
  Attempt, rv_of_attempt, of_rename, rename_if_cloned, attempt_on, leftover, loop-attempts,
}

pub member_head : (p : Str) (ps : List Str) → member (p ∷ ps) p ≡ true
unfolding member
member_head p ps = rw ((str_eq_iff p p).1 refl)

pub selected-nonempty :
    (P : Branch → Type 0) (ps : List Str) (p : Str) (bs : Branches)
    → member ps p ≡ true
    → IsFrom P bs p
    → selected ps bs ≢ []
unfolding selected
selected-nonempty P ps p [] h from e = elim from [ ]
selected-nonempty P ps p (b ∷ bs) h (inl (same, good)) e =
    let found : member ps b.path ≡ true = rw same h in ground (arith, found)
selected-nonempty P ps p (b ∷ bs) h (inr from) e = elim (Bool-cases (member ps b.path)) [
  | inl found ↦ ground arith
  | inr other ↦ selected-nonempty P ps p bs h from (ground arith)
]

All-map_rv :
    (tries : List Attempt)
    → All (λ a. SetsErrno (rv_of_attempt a)) tries
    → All SetsErrno (map rv_of_attempt tries)
All-map_rv [] h = tt
All-map_rv (a ∷ tries) h = (h.0, All-map_rv tries h.1)

map_rv-nonempty : (tries : List Attempt) → tries ≢ [] → map rv_of_attempt tries ≢ []
map_rv-nonempty [] h e = h refl
map_rv-nonempty (a ∷ tries) h e = cc

of_rename-SetsErrno : (r : Rv) → SetsErrno r → SetsErrno (rv_of_attempt (of_rename r))
of_rename-SetsErrno success h = h
of_rename-SetsErrno (failure e) h = h

module _ (os : Os) (old new : Str) (bs : Branches) where
  -- If one of the two policies fails, its `errno` is returned and nothing is done. Otherwise a
  -- rename is attempted on each branch that the action policy gave, and the answer is that of the
  -- attempts. The leftovers are removed if some attempt succeeded, and nothing is removed otherwise.
  abbrev pub IsRenamed : Outcome → Outcome → os.World → ℤ × os.World → Type 0
  IsRenamed (failure e, ps) o w r = (r ≡ (neg_of e, w)) × (0 < e)
  IsRenamed (success, ps) (failure e, qs) w r = (r ≡ (neg_of e, w)) × (0 < e)
  IsRenamed (success, ps) (success, []) w r = ⊥
  IsRenamed (success, ps) (success, q ∷ qs) w r =
      let (tries, w') = attempts (attempt_on os old new q) (selected ps bs) w in
      let rs = map rv_of_attempt tries in
      (selected ps bs ≢ [])
      × (r.0 ≡ answer rs)
      × (r.1 ≡ (
          if any_success rs
          then remove_all os (leftovers (leftover os old new) new ps bs tries) w'
          else w'))

  module _ (l : IsLawful os) where
    rename_if_cloned-SetsErrno :
        (base : Str) (x : Rv × os.World)
        → SetsErrno x.0
        → SetsErrno (rv_of_attempt (rename_if_cloned os old new base x).0)
    rename_if_cloned-SetsErrno base (failure e, w) h = h
    rename_if_cloned-SetsErrno base (success, w) h =
        of_rename-SetsErrno _ (l.rename_errno (make base old) (make base new) w)

    tries-SetsErrno :
        (q : Str) (ps : List Str) (w : os.World)
        → All SetsErrno (map rv_of_attempt (attempts (attempt_on os old new q) ps w).0)
    tries-SetsErrno q ps w = All-map_rv _ (
        attempts-All (attempt_on os old new q) (λ a. SetsErrno (rv_of_attempt a)) ps w
          (λ p u.
            rename_if_cloned-SetsErrno p _ (clonepath_as_root-SetsErrno os l q p (dirname new) u)))

    rename_create_path_on-IsRenamed :
        (P Q : Branch → Type 0) (acted found : Outcome) (w : os.World)
        → IsChoice P bs acted
        → IsChoice Q bs found
        → IsRenamed acted found w (rename_create_path_on os bs old new acted found w)
    unfolding rename_create_path_on finish
    rename_create_path_on-IsRenamed P Q (failure e, ps) o w h k = (refl, h.1)
    rename_create_path_on-IsRenamed P Q (success, ps) (failure e, qs) w h k = (refl, k.1)
    rename_create_path_on-IsRenamed P Q (success, ps) (success, []) w h k = k.0 refl
    rename_create_path_on-IsRenamed P Q (success, []) (success, q ∷ qs) w h k = absurd (h.0 refl)
    rename_create_path_on-IsRenamed P Q (success, p ∷ ps) (success, q ∷ qs) w h k =
        let some_branch : selected (p ∷ ps) bs ≢ [] =
          selected-nonempty P (p ∷ ps) p bs (member_head p ps) h.1.0 in
        let errs = tries-SetsErrno q (selected (p ∷ ps) bs) w in
        rw (loop-attempts os old new q (p ∷ ps) bs (start os w)) (
          some_branch,
          fold_all-answer _
              (map_rv-nonempty _ (attempts-nonempty (attempt_on os old new q) _ w some_branch))
              errs,
          rw (fold_all-any_success _ errs) refl,
        )

module _ (os : Os) (l : IsLawful os) (old new : Str) where
  -- rename, if it does not preserve paths: the entry of the old path is dropped from the cache. If the
  -- rename policy or the search for the new parent fails, the negated `errno` is returned, and the world
  -- is as before. Otherwise, on each configured branch that the rename policy gave, of which there is at
  -- least one, the new parent is cloned and the path renamed if the clone succeeded. The answer is 0 if
  -- some branch got through both, and the negated `errno` of the last failure if none did. In the first
  -- case only, the `leftovers` are removed: the new path on the other branches, the old path where the
  -- rename failed, and the empty path where the clone failed. `IsLawful` is assumed of the operating
  -- system.
  pub rename-IsRenamed :
      (cfg : Config) (s : State os)
      → (path_preserving cfg.create && not cfg.ignorepponrename) ≡ false
      → let r = rename os cfg old new s in
        IsRenamed os old new cfg.branches
          (run_policy os Category.action cfg.rename cfg old [] s.world)
          (run_policy os Category.search cfg.getattr cfg (dirname new) [] s.world)
          s.world
          (r.0, r.1.world)
        × (r.1.open_cache ≡ erase old s.open_cache)
  unfolding rename in_world rename_create_path
  rename-IsRenamed cfg s h = rw h (
    rename_create_path_on-IsRenamed os old new cfg.branches l _ _ _ _ s.world
        (run_policy-IsChoice os l Category.action cfg.rename cfg old s.world)
        (run_policy-IsChoice os l Category.search cfg.getattr cfg (dirname new) s.world),
    refl,
  )
