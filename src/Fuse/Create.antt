-- ===== src/Fuse/Create.antt =====
-- mkdir, mknod and symlink (src/fuse_mkdir.cpp, src/fuse_mknod.cpp, src/fuse_symlink.cpp): the path of
-- the parent is cloned to every branch that the policy gives, and the call is done there.
use Prim.Native.Nat.{bit_and}
use mergerfs.Base.{
  ℕ, ◌-◌, ℤ, negsuc, neg_ℤ, neg_of, Bool, true, false, List, [], ◌∷◌, Str, if◌then◌else◌,
}
use mergerfs.Os.{Os}
use mergerfs.Path.{dirname}
use mergerfs.ClonePath.{clonepath_as_root}
use mergerfs.Policy.Types.{Category, Outcome, Rv, success, failure, make}
use mergerfs.Policy.Kind.{Kind}
use mergerfs.Policy.Table.{codes}
use mergerfs.Fuse.Config.{Config, State, run_policy}
use mergerfs.Fuse.Action.{fold_rv, in_world}

-- `mode & ~umask`
unfoldable pub clear_bits : ℕ → ℕ → ℕ
clear_bits mode umask = mode - bit_and mode umask

module _ (os : Os) where
  -- `fs::acl::dir_has_defaults` (src/fs_acl.cpp)
  unfoldable pub dir_has_defaults : Str → os.World → Bool × os.World
  unfolding dirname
  dir_has_defaults fullpath w =
      let (r, w') = os.lgetxattr (dirname fullpath) (codes "system.posix_acl_default") w in
      (elim r [ success ↦ true | failure e ↦ false ], w')

  -- `mkdir_core`, `mknod_core`: the mask applies unless the directory has default ACLs.
  unfoldable pub masked :
      (Str → ℕ → os.World → Rv × os.World) → ℕ → ℕ → Str → os.World → Rv × os.World
  unfolding dir_has_defaults clear_bits
  masked op mode umask fullpath w =
      let (has, w') = dir_has_defaults fullpath w in
      op fullpath (if has then mode else clear_bits mode umask) w'

  -- `X_loop_core`, or what stands in its place if the parent was not cloned.
  unfoldable pub after_clone :
      (Str → os.World → Rv × os.World) → Str → Str → ℤ → Rv × os.World → ℤ × os.World
  unfolding fold_rv make
  after_clone op fusepath createpath error (failure e, w) = (fold_rv (failure e) error, w)
  after_clone op fusepath createpath error (success, w) =
      let (r, w') = op (make createpath fusepath) w in (fold_rv r error, w')

  -- `X_loop`
  unfoldable pub create_loop :
      (Str → os.World → Rv × os.World) → Str → Str → Str → List Str → ℤ → os.World → ℤ × os.World
  unfolding after_clone clonepath_as_root
  create_loop op existing fusepath fusedirpath [] error w = (error, w)
  create_loop op existing fusepath fusedirpath (p ∷ ps) error w =
      let (error', w') =
        after_clone op fusepath p error (clonepath_as_root os existing p fusedirpath w) in
      create_loop op existing fusepath fusedirpath ps error' w'

  -- `l::X` after the two calls of policies. `*existingpaths[0]` is there when a
  -- policy succeeds; without it the C++ is undefined, and the clause for that is never reached.
  unfoldable pub on_created :
      (Str → os.World → Rv × os.World) → Str → Str → Outcome → Outcome → os.World → ℤ × os.World
  unfolding create_loop
  on_created op fusepath fusedirpath (failure e, existing) created w = (neg_of e, w)
  on_created op fusepath fusedirpath (success, existing) (failure e, ps) w = (neg_of e, w)
  on_created op fusepath fusedirpath (success, []) (success, ps) w = (neg_of 0, w)
  on_created op fusepath fusedirpath (success, q ∷ existing) (success, ps) w =
      let (error, w') = create_loop op q fusepath fusedirpath ps (negsuc 0) w in (neg_ℤ error, w')

  -- `l::X`
  unfoldable pub make_node :
      (Str → os.World → Rv × os.World) → Kind → Config → Str → os.World → ℤ × os.World
  unfolding on_created run_policy dirname
  make_node op k cfg fusepath w =
      on_created op fusepath (dirname fusepath)
        (run_policy os Category.search cfg.getattr cfg (dirname fusepath) [] w)
        (run_policy os Category.create k cfg (dirname fusepath) [] w) w

  unfoldable pub mkdir : Config → Str → ℕ → ℕ → State os → ℤ × State os
  unfolding in_world make_node masked
  mkdir cfg fusepath mode umask =
      in_world os (make_node (masked os.mkdir mode umask) cfg.mkdir cfg fusepath)

  unfoldable pub mknod : Config → Str → ℕ → ℕ → ℕ → State os → ℤ × State os
  unfolding in_world make_node masked
  mknod cfg fusepath mode umask dev =
      in_world os (make_node (masked (λ p m. os.mknod p m dev) mode umask) cfg.mknod cfg fusepath)

  unfoldable pub symlink : Config → Str → Str → State os → ℤ × State os
  unfolding in_world make_node
  symlink cfg oldpath newpath =
      in_world os (make_node (λ p. os.symlink oldpath p) cfg.symlink cfg newpath)
