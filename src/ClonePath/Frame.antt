-- ===== src/ClonePath/Frame.antt =====
-- What a clone of a path can change: only what lies under the branch that it is made on.
use mathlib.Core.WellFounded.{Acc}
use mergerfs.Base.{ℕ, Bool, true, false, [], ◌∷◌, Str, str_eq, if◌then◌else◌}
use mergerfs.Errno.{enotdir}
use mergerfs.Os.{Os}
use mergerfs.Path.{dirname}
use mergerfs.Path.Length.{Shorter, Shorter_acc}
use mergerfs.Policy.Types.{Rv, success, failure, make}
use mergerfs.ClonePath.{
  clone_metadata, made_dir, clone_dir, after_stat, after_parent, with_parent, clone_acc, clonepath,
  clonepath_as_root,
}

-- The invariant survives every call that reads, and every call that writes under `tosrc`.
pub record Keeps (os : Os) (tosrc : Str) (I : os.World → Type 0) : Type 0 where
  pub by_stat : (p : Str) (w : os.World) → I w → I (os.stat p w).1
  pub by_mkdir : (r : Str) (m : ℕ) (w : os.World) → I w → I (os.mkdir (make tosrc r) m w).1
  pub by_copy_attr : (p r : Str) (w : os.World) → I w → I (os.copy_attr p (make tosrc r) w).1
  pub by_copy_xattr : (p r : Str) (w : os.World) → I w → I (os.copy_xattr p (make tosrc r) w).1
  pub by_lchown :
      (r : Str) (st : os.FileStat) (w : os.World)
      → I w
      → I (os.lchown_check_on_error (make tosrc r) st w).1
  pub by_utime :
      (r : Str) (st : os.FileStat) (w : os.World) → I w → I (os.utime (make tosrc r) st w).1

module _ (os : Os) (from to : Str) (I : os.World → Type 0) (k : Keeps os to I) where
  choose : (b : Bool) (x y : Rv × os.World) → I x.1 → I y.1 → I (if b then x else y).1
  choose true x y hx hy = hx
  choose false x y hx hy = hy

  clone_metadata-Keeps :
      (e : Bool) (p r : Str) (st : os.FileStat) (w : os.World)
      → I w
      → I (clone_metadata os e p (make to r) st w).1
  unfolding clone_metadata
  clone_metadata-Keeps e p r st w h =
      let (r1, w1) = os.copy_attr p (make to r) w in
      let h1 : I w1 = k.by_copy_attr p r w h in
      let (r2, w2) = os.copy_xattr p (make to r) w1 in
      let h2 : I w2 = k.by_copy_xattr p r w1 h1 in
      let (r3, w3) = os.lchown_check_on_error (make to r) st w2 in
      let h3 : I w3 = k.by_lchown r st w2 h2 in
      let (r4, w4) = os.utime (make to r) st w3 in
      let h4 : I w4 = k.by_utime r st w3 h3 in
      choose _ (r1, w1) _ h1
        (choose _ (r2, w2) _ h2 (choose _ (r3, w3) _ h3 (choose _ (r4, w4) _ h4 h4)))

  made_dir-Keeps :
      (e : Bool) (p r : Str) (st : os.FileStat) (x : Rv × os.World)
      → I x.1
      → I (made_dir os e p (make to r) st x).1
  unfolding made_dir
  made_dir-Keeps e p r st (success, w) h = clone_metadata-Keeps e p r st w h
  made_dir-Keeps e p r st (failure x, w) h = h

  after_stat-Keeps :
      (e : Bool) (r : Str) (x : (Rv × os.FileStat) × os.World)
      → I x.1
      → I (after_stat os e from to r x).1
  unfolding after_stat
  after_stat-Keeps e r ((failure x, st), w) h = h
  after_stat-Keeps e r ((success, st), w) h =
      choose _ (failure enotdir, w) _ h
        (made_dir-Keeps e _ r st (os.mkdir (make to r) (os.mode st) w)
          (k.by_mkdir r (os.mode st) w h))

  clone_dir-Keeps : (e : Bool) (r : Str) (w : os.World) → I w → I (clone_dir os e from to r w).1
  unfolding clone_dir
  clone_dir-Keeps e r w h = after_stat-Keeps e r _ (k.by_stat _ w h)

  after_parent-Keeps :
      (rest : os.World → Rv × os.World)
      → ((w : os.World) → I w → I (rest w).1)
      → (x : Rv × os.World) → I x.1
      → I (after_parent os rest x).1
  unfolding after_parent
  after_parent-Keeps rest hr (success, w) h = hr w h
  after_parent-Keeps rest hr (failure e, w) h = h

  with_parent-Keeps :
      (dir : Str) (parent rest : os.World → Rv × os.World)
      → ((w : os.World) → I w → I (parent w).1)
      → ((w : os.World) → I w → I (rest w).1)
      → (w : os.World) → I w
      → I (with_parent os dir parent rest w).1
  unfolding with_parent
  with_parent-Keeps [] parent rest hp hr w h = hr w h
  with_parent-Keeps (d ∷ ds) parent rest hp hr w h = after_parent-Keeps rest hr (parent w) (hp w h)

  clone_acc-Keeps :
      (e : Bool) (r : Str) (a : Acc Shorter r) (w : os.World)
      → I w
      → I (clone_acc os e from to r a w).1
  unfolding clone_acc
  clone_acc-Keeps e [] (Acc.intro _ smaller) w h = h
  clone_acc-Keeps e (c ∷ s) (Acc.intro _ smaller) w h =
      with_parent-Keeps (dirname (c ∷ s)) _ (clone_dir os e from to (c ∷ s))
        (clone_acc-Keeps false (dirname (c ∷ s)) (smaller _ _)) (clone_dir-Keeps e (c ∷ s)) w h

  -- The same of a clone that is not asked for as root.
  pub clonepath-Keeps : (e : Bool) (r : Str) (w : os.World) → I w → I (clonepath os e from to r w).1
  unfolding clonepath
  clonepath-Keeps e r w h = clone_acc-Keeps e r (Shorter_acc r) w h

  -- Whatever holds of the world and survives the reads and the writes under `tosrc` (`Keeps`) survives
  -- the clone of any path from `fromsrc` to `tosrc`, whether the clone succeeds or not.
  pub clonepath_as_root-Keeps :
      (r : Str) (w : os.World) → I w → I (clonepath_as_root os from to r w).1
  unfolding clonepath_as_root
  clonepath_as_root-Keeps [] w h = h
  clonepath_as_root-Keeps (c ∷ s) w h =
      choose (str_eq from to) (success, w) _ h
        (unfold clonepath in clone_acc-Keeps false (c ∷ s) (Shorter_acc (c ∷ s)) w h)
