-- ===== src/Fuse/Action.antt =====
-- The handlers that do one call on every branch that the policy gives: unlink, rmdir, chmod, chown,
-- truncate, utimens, setxattr and removexattr (src/fuse_unlink.cpp and its like).
use mergerfs.Base.{
  ℕ, ℤ, pos, negsuc, neg_ℤ, neg_of, not, ◌&&◌, List, [], ◌∷◌, Str, str_eq, if◌then◌else◌, ◌==◌,
}
use mergerfs.Errno.{calc, enoattr}
use mergerfs.Os.{Os, Timespecs, rv_of, errno_of}
use mergerfs.Policy.Types.{Category, Outcome, Rv, success, failure, make}
use mergerfs.Policy.Kind.{Kind}
use mergerfs.Policy.Table.{codes}
use mergerfs.PolicyCache.{erase}
use mergerfs.Fuse.Config.{Config, State, run_policy}

-- `int error` after a call, by `error::calc(rv,error,errno)`.
unfoldable pub fold_rv : Rv → ℤ → ℤ
unfolding calc
fold_rv r error = calc (rv_of r) error (pos (errno_of r))

module _ (os : Os) where
  -- `X_loop_core`: the call on one branch.
  unfoldable pub loop_core :
      (Str → os.World → Rv × os.World) → Str → Str → ℤ → os.World → ℤ × os.World
  unfolding fold_rv make
  loop_core op fusepath basepath error w =
      let (r, w') = op (make basepath fusepath) w in (fold_rv r error, w')

  -- `X_loop`, from the value of `error` on.
  unfoldable pub loop :
      (Str → os.World → Rv × os.World) → Str → List Str → ℤ → os.World → ℤ × os.World
  unfolding loop_core
  loop op fusepath [] error w = (error, w)
  loop op fusepath (p ∷ ps) error w =
      let (error', w') = loop_core op fusepath p error w in loop op fusepath ps error' w'

  -- `l::X` after the call of the policy.
  unfoldable pub on_paths :
      (Str → os.World → Rv × os.World) → Str → Outcome → os.World → ℤ × os.World
  unfolding loop
  on_paths op fusepath (failure e, ps) w = (neg_of e, w)
  on_paths op fusepath (success, ps) w =
      let (error, w') = loop op fusepath ps (negsuc 0) w in (neg_ℤ error, w')

  -- `l::X`
  unfoldable pub action :
      (Str → os.World → Rv × os.World) → Kind → Config → Str → os.World → ℤ × os.World
  unfolding on_paths run_policy
  action op k cfg fusepath w =
      on_paths op fusepath (run_policy os Category.action k cfg fusepath [] w) w

  unfoldable pub in_world : (os.World → ℤ × os.World) → State os → ℤ × State os
  in_world f s = let (r, w) = f s.world in (r, record s { world = w })

  unfoldable pub unlink : Config → Str → State os → ℤ × State os
  unfolding in_world action erase
  unlink cfg fusepath s =
      in_world (action os.unlink cfg.unlink cfg fusepath)
        (record s { open_cache = erase fusepath s.open_cache })

  unfoldable pub rmdir : Config → Str → State os → ℤ × State os
  unfolding in_world action
  rmdir cfg fusepath = in_world (action os.rmdir cfg.rmdir cfg fusepath)

  unfoldable pub chmod : Config → Str → ℕ → State os → ℤ × State os
  unfolding in_world action
  chmod cfg fusepath mode = in_world (action (λ p. os.chmod p mode) cfg.chmod cfg fusepath)

  unfoldable pub chown : Config → Str → ℕ → ℕ → State os → ℤ × State os
  unfolding in_world action
  chown cfg fusepath uid gid = in_world (action (λ p. os.lchown p uid gid) cfg.chown cfg fusepath)

  unfoldable pub truncate : Config → Str → ℤ → State os → ℤ × State os
  unfolding in_world action
  truncate cfg fusepath size = in_world (action (λ p. os.truncate p size) cfg.truncate cfg fusepath)

  unfoldable pub utimens : Config → Str → Timespecs → State os → ℤ × State os
  unfolding in_world action
  utimens cfg fusepath ts = in_world (action (λ p. os.lutime p ts) cfg.utimens cfg fusepath)

  unfoldable pub removexattr : Config → Str → Str → State os → ℤ × State os
  unfolding in_world action str_eq
  removexattr cfg fusepath attrname s =
      if str_eq fusepath cfg.controlfile
      then (neg_of enoattr, s)
      else if not (cfg.xattr == 0)
      then (neg_of cfg.xattr, s)
      else in_world (action (λ p. os.lremovexattr p attrname) cfg.removexattr cfg fusepath) s

  -- `FUSE::setxattr` for a path that is not the control file.
  unfoldable pub setxattr : Config → Str → Str → Str → ℕ → State os → ℤ × State os
  unfolding in_world action str_eq
  setxattr cfg fusepath attrname attrval flags s =
      if not cfg.security_capability && str_eq attrname (codes "security.capability")
      then (neg_of enoattr, s)
      else if not (cfg.xattr == 0)
      then (neg_of cfg.xattr, s)
      else in_world (action (λ p. os.lsetxattr p attrname attrval flags) cfg.setxattr cfg fusepath)
          s
