-- ===== src/Fuse/Results/Lost.antt =====
-- rename, when it preserves paths: a search that fails is taken for a success.
use mergerfs.Base.{
  ℕ, zero, suc, ◌<◌, ◌≡◌, refl, pos, negsuc, neg_of, List, [], ◌∷◌, Str, true, arith, str_eq_refl,
}
use mergerfs.Errno.{enoent}
use mergerfs.Os.{Os}
use mergerfs.Path.{dirname}
use mergerfs.Policy.Types.{Category, success, failure, make}
use mergerfs.Fuse.Config.{Config, run_policy}
use mergerfs.Fuse.Rename.{
  Progress, member, retry_rename, clonepath_if_would_create, rename_preserve_path_core,
}

module _ (os : Os) (cfg : Config) (ps : List Str) (base old new : Str) (s : Progress os.World) where
  cloned :
      (w : os.World) (e : ℕ) (found created : List Str)
      → run_policy os Category.create cfg.create cfg (dirname new) [] w ≡ (success, base ∷ created)
      → run_policy os Category.search cfg.getattr cfg (dirname new) [] w ≡ (failure e, found)
      → clonepath_if_would_create os cfg base new w ≡ (record { rv = neg_of e; errno = e }, w)
  unfolding clonepath_if_would_create
  cloned w e found created creates searches = rw (creates, searches) (rw (str_eq_refl base) refl)

  not_retried :
      (p q : Str) (n : ℕ) (w : os.World)
      → retry_rename os p q (record { rv = negsuc n; errno = suc n }, w)
        ≡ (record { rv = negsuc n; errno = suc n }, w)
  unfolding retry_rename
  not_retried p q n w = ground arith

  -- One round of a rename that preserves paths, on a branch that has the old path: if the rename fails
  -- with ENOENT, the create policy would choose this branch, and the search for the new parent fails
  -- with an `errno` greater than 1 (EPERM), then the rename is not tried again, and yet the round counts
  -- as a success and leaves `toremove` as it was.
  pub rename_preserve_path_core_lost :
      (w : os.World) (e : ℕ) (found created : List Str)
      → member ps base ≡ true
      → os.rename (make base old) (make base new) s.world ≡ (failure enoent, w)
      → run_policy os Category.create cfg.create cfg (dirname new) [] w ≡ (success, base ∷ created)
      → run_policy os Category.search cfg.getattr cfg (dirname new) [] w ≡ (failure e, found)
      → 1 < e
      → rename_preserve_path_core os cfg ps base old new s
        ≡ record { error = pos 0; toremove = s.toremove; world = w }
  unfolding rename_preserve_path_core
  rename_preserve_path_core_lost w zero found created is_member failed creates searches big =
      absurd (omega arith)
  rename_preserve_path_core_lost w (suc zero) found created is_member failed creates searches big =
      absurd (omega arith)
  rename_preserve_path_core_lost w (suc (suc n)) found created is_member failed creates searches
        big =
      rw
        (
          is_member,
          failed,
          cloned w (suc (suc n)) found created creates searches,
          not_retried (make base old) (make base new) (suc n) w,
        )
        (ground arith)
