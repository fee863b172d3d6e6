-- ===== src/Fuse/Results/Renames.antt =====
-- rename.
use mergerfs.Base.{ℕ, pos, ◌≡◌, refl, sym, ◌∙◌, List, [], ◌∷◌, append-nil, Str}
use mergerfs.Branch.{Branches}
use mergerfs.Os.{Os}
use mergerfs.Path.{dirname}
use mergerfs.ClonePath.{clonepath_as_root}
use mergerfs.Policy.Types.{Rv, success, failure, make}
use mergerfs.Fuse.Action.{fold_rv}
use mergerfs.Fuse.Rename.{
  Progress, conclude, status, renamed_after_clone, rename_create_path_core, rename_create_path_loop,
}
use mergerfs.Fuse.Results.Rounds.{selected, advance, whole, rounds, rounds-attempts}
use mergerfs.Fuse.Results.Attempts.{attempts}

-- What became of one branch that has the old path.
pub data Attempt : Type 0 where
  renamed : Attempt
  not_cloned : ℕ → Attempt
  not_renamed : ℕ → Attempt

abbrev pub rv_of_attempt : Attempt → Rv
rv_of_attempt renamed = success
rv_of_attempt (not_cloned e) = failure e
rv_of_attempt (not_renamed e) = failure e

abbrev pub of_rename : Rv → Attempt
of_rename success = renamed
of_rename (failure e) = not_renamed e

module _ (os : Os) (old new : Str) where
  abbrev pub rename_if_cloned : Str → Rv × os.World → Attempt × os.World
  rename_if_cloned base (failure e, w) = (not_cloned e, w)
  rename_if_cloned base (success, w) =
      let (r, w') = os.rename (make base old) (make base new) w in (of_rename r, w')

  -- What is done for one branch: the parent of the new path is cloned, then comes the rename.
  abbrev pub attempt_on : Str → Str → os.World → Attempt × os.World
  attempt_on q base w = rename_if_cloned base (clonepath_as_root os q base (dirname new) w)

  -- What is removed after a success: the old path where the rename failed, the empty path where the
  -- clone failed, and the new path of the branches that had no old one.
  abbrev pub leftover : Str → Attempt → List Str
  leftover base renamed = []
  leftover base (not_cloned e) = [] ∷ []
  leftover base (not_renamed e) = make base old ∷ []

  abbrev after : Str → Progress os.World → Attempt × os.World → Progress os.World
  after base = advance leftover new [] rv_of_attempt base

  conclude-rename :
      (base : Str) (s : Progress os.World) (r : Rv) (w : os.World)
      → conclude (make base old) (status r) s.error s.toremove w ≡ after base s (of_rename r, w)
  unfolding conclude status fold_rv
  conclude-rename base s success w =
      λ i. record { error = pos 0; toremove = sym (append-nil s.toremove) i; world = w }
  conclude-rename base s (failure e) w = refl

  core-attempt :
      (base : Str) (s : Progress os.World) (x : Rv × os.World)
      → renamed_after_clone os (make base old) (make base new) s.error s.toremove x
        ≡ after base s (rename_if_cloned base x)
  unfolding renamed_after_clone
  core-attempt base s (failure e, w) = unfold conclude status fold_rv in refl
  core-attempt base s (success, w) = conclude-rename base s _ _

  module _ (q : Str) (ps : List Str) where
    -- The body of the loop.
    abbrev body : Str → Progress os.World → Progress os.World
    body base s = rename_create_path_core os ps base q old new (dirname new) s

    loop-rounds :
        (bs : Branches) (s : Progress os.World)
        → rename_create_path_loop os ps q old new (dirname new) bs s
          ≡ rounds leftover new ps rv_of_attempt body bs s
    unfolding rename_create_path_loop rounds
    loop-rounds [] s = refl
    loop-rounds (b ∷ bs) s = loop-rounds bs _

    pub loop-attempts :
        (bs : Branches) (s : Progress os.World)
        → rename_create_path_loop os ps q old new (dirname new) bs s
          ≡ whole leftover new ps rv_of_attempt bs s
              (attempts (attempt_on q) (selected ps bs) s.world)
    loop-attempts bs s =
        loop-rounds bs s
        ∙ rounds-attempts leftover new ps rv_of_attempt (attempt_on q) body
            (λ base t is_member.
              unfold rename_create_path_core in
              rw is_member
                (core-attempt base t (clonepath_as_root os q base (dirname new) t.world)))
            (λ base t other. unfold rename_create_path_core in rw other) bs s
