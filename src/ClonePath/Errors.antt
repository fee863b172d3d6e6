-- ===== src/ClonePath/Errors.antt =====
-- A clone of a path that fails has set `errno`.
use mathlib.Core.WellFounded.{Acc}
use mergerfs.Base.{◌≡◌, refl, Bool, true, false, [], ◌∷◌, Str, arith, str_eq, if◌then◌else◌}
use mergerfs.Errno.{enotdir}
use mergerfs.Os.{Os, SetsErrno}
use mergerfs.Os.Laws.{IsLawful}
use mergerfs.Path.{dirname}
use mergerfs.Path.Length.{Shorter, Shorter_acc}
use mergerfs.Policy.Types.{Rv, success, failure, make}
use mergerfs.ClonePath.{
  metadata_fails, clone_metadata, made_dir, after_stat, clone_dir, after_parent, with_parent,
  clone_acc, clonepath, clonepath_as_root,
}

metadata_fails-ignored : (tolerant : Bool) (r : Rv) → metadata_fails false tolerant r ≡ false
unfolding metadata_fails
metadata_fails-ignored tolerant success = refl
metadata_fails-ignored tolerant (failure e) = refl

module _ (os : Os) (l : IsLawful os) where
  choose :
      (b : Bool) (x y : Rv × os.World)
      → SetsErrno x.0
      → SetsErrno y.0
      → SetsErrno (if b then x else y).0
  choose true x y hx hy = hx
  choose false x y hx hy = hy

  -- Where the errors of metadata are not returned, the copies of metadata never fail.
  clone_metadata-success :
      (p q : Str) (st : os.FileStat) (w : os.World) → (clone_metadata os false p q st w).0 ≡ success
  unfolding clone_metadata
  clone_metadata-success p q st w = simp metadata_fails-ignored

  made_dir-SetsErrno :
      (p q : Str) (st : os.FileStat) (x : Rv × os.World)
      → SetsErrno x.0
      → SetsErrno (made_dir os false p q st x).0
  unfolding made_dir
  made_dir-SetsErrno p q st (success, w) h = rw (clone_metadata-success p q st w) tt
  made_dir-SetsErrno p q st (failure e, w) h = ground arith

  after_stat-SetsErrno :
      (from to r : Str) (x : (Rv × os.FileStat) × os.World)
      → SetsErrno x.0.0
      → SetsErrno (after_stat os false from to r x).0
  unfolding after_stat
  after_stat-SetsErrno from to r ((failure e, st), w) h = h
  after_stat-SetsErrno from to r ((success, st), w) h =
      choose _ (failure enotdir, w) _ (omega arith)
        (made_dir-SetsErrno _ _ st _ (l.mkdir_errno (make to r) (os.mode st) w))

  clone_dir-SetsErrno :
      (from to r : Str) (w : os.World) → SetsErrno (clone_dir os false from to r w).0
  unfolding clone_dir
  clone_dir-SetsErrno from to r w = after_stat-SetsErrno from to r _ (l.stat_errno _ w)

  after_parent-SetsErrno :
      (rest : os.World → Rv × os.World)
      → ((w : os.World) → SetsErrno (rest w).0)
      → (x : Rv × os.World) → SetsErrno x.0
      → SetsErrno (after_parent os rest x).0
  unfolding after_parent
  after_parent-SetsErrno rest hr (success, w) h = hr w
  after_parent-SetsErrno rest hr (failure e, w) h = h

  with_parent-SetsErrno :
      (dir : Str) (parent rest : os.World → Rv × os.World)
      → ((w : os.World) → SetsErrno (parent w).0)
      → ((w : os.World) → SetsErrno (rest w).0)
      → (w : os.World) → SetsErrno (with_parent os dir parent rest w).0
  unfolding with_parent
  with_parent-SetsErrno [] parent rest hp hr w = hr w
  with_parent-SetsErrno (d ∷ ds) parent rest hp hr w =
      after_parent-SetsErrno rest hr (parent w) (hp w)

  clone_acc-SetsErrno :
      (from to r : Str) (a : Acc Shorter r) (w : os.World)
      → SetsErrno (clone_acc os false from to r a w).0
  unfolding clone_acc
  clone_acc-SetsErrno from to [] (Acc.intro _ smaller) w = tt
  clone_acc-SetsErrno from to (c ∷ s) (Acc.intro _ smaller) w =
      with_parent-SetsErrno (dirname (c ∷ s)) _ (clone_dir os false from to (c ∷ s))
        (clone_acc-SetsErrno from to (dirname (c ∷ s)) (smaller _ _))
        (clone_dir-SetsErrno from to (c ∷ s)) w

  pub clonepath_as_root-SetsErrno :
      (from to r : Str) (w : os.World) → SetsErrno (clonepath_as_root os from to r w).0
  unfolding clonepath_as_root clonepath
  clonepath_as_root-SetsErrno from to [] w = tt
  clonepath_as_root-SetsErrno from to (c ∷ s) w =
      choose (str_eq from to) (success, w) _ tt
        (clone_acc-SetsErrno from to (c ∷ s) (Shorter_acc (c ∷ s)) w)
