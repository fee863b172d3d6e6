-- ===== src/Fuse/Rename.antt =====
-- src/fuse_rename.cpp.
use mergerfs.Base.{
  ℕ, ℤ, pos, negsuc, neg_ℤ, neg_of, eqb_ℤ, Bool, true, false, not, ◌&&◌, List, [], ◌∷◌, ◌++◌, Str,
  str_eq, ◌==◌, if◌then◌else◌,
}
use mergerfs.Errno.{calc, enoent, exdev}
use mergerfs.Branch.{Branches}
use mergerfs.Os.{Os, rv_of, errno_of}
use mergerfs.Path.{dirname}
use mergerfs.ClonePath.{clonepath_as_root}
use mergerfs.Policy.Types.{Category, Outcome, Rv, success, failure, make}
use mergerfs.Policy.Table.{path_preserving}
use mergerfs.PolicyCache.{erase}
use mergerfs.Fuse.Config.{Config, State, run_policy}
use mergerfs.Fuse.Action.{in_world}

-- `member`
unfoldable pub member : List Str → Str → Bool
unfolding str_eq
member [] needle = false
member (p ∷ haystack) needle = if str_eq p needle then true else member haystack needle

-- An `int rv` with the `errno` that stands with it.
pub record Status : Type 0 where
  pub rv : ℤ
  pub errno : ℕ

unfoldable pub status : Rv → Status
status r = record { rv = rv_of r; errno = errno_of r }

-- The variables of the loops: `error`, and the paths to remove.
pub record Progress (W : Type 0) : Type 0 where
  pub error : ℤ
  pub toremove : List Str
  pub world : W

unfoldable pub push : {W : Type 0} → Str → Progress W → Progress W
push p s = record s { toremove = s.toremove ++ p ∷ [] }

-- `error = error::calc(rv,error,errno); if(rv == -1) toremove.push_back(oldfullpath);`
unfoldable pub conclude : {W : Type 0} → Str → Status → ℤ → List Str → W → Progress W
unfolding calc
conclude oldfullpath st error toremove w = record {
  error = calc st.rv error (pos st.errno);
  toremove = if eqb_ℤ st.rv (negsuc 0) then toremove ++ oldfullpath ∷ [] else toremove;
  world = w;
}

module _ (os : Os) where
  -- `_remove`
  unfoldable pub remove_all : List Str → os.World → os.World
  remove_all [] w = w
  remove_all (p ∷ ps) w = remove_all ps (os.remove p w).1

  -- Of `_rename_create_path_core`, what follows the clone: `oldfullpath` is still empty if it failed.
  unfoldable pub renamed_after_clone : Str → Str → ℤ → List Str → Rv × os.World → Progress os.World
  unfolding conclude status
  renamed_after_clone oldfullpath newfullpath error toremove (failure e, w) =
      conclude [] (status (failure e)) error toremove w
  renamed_after_clone oldfullpath newfullpath error toremove (success, w) =
      let (r, w') = os.rename oldfullpath newfullpath w in
      conclude oldfullpath (status r) error toremove w'

  unfoldable pub rename_create_path_core :
      List Str → Str → Str → Str → Str → Str → Progress os.World → Progress os.World
  unfolding renamed_after_clone member push clonepath_as_root make
  rename_create_path_core oldbasepaths oldbasepath newbasepath oldfusepath newfusepath
        newfusedirpath s =
      if member oldbasepaths oldbasepath
      then renamed_after_clone (make oldbasepath oldfusepath) (make oldbasepath newfusepath) s.error
          s.toremove (clonepath_as_root os newbasepath oldbasepath newfusedirpath s.world)
      else push (make oldbasepath newfusepath) s

  unfoldable pub rename_create_path_loop :
      List Str → Str → Str → Str → Str → Branches → Progress os.World → Progress os.World
  unfolding rename_create_path_core
  rename_create_path_loop oldbasepaths newbasepath oldfusepath newfusepath newfusedirpath [] s = s
  rename_create_path_loop oldbasepaths newbasepath oldfusepath newfusepath newfusedirpath (b ∷ bs)
        s =
      rename_create_path_loop oldbasepaths newbasepath oldfusepath newfusepath newfusedirpath bs (
        rename_create_path_core oldbasepaths b.path newbasepath oldfusepath newfusepath
          newfusedirpath s)

  -- `if(error == 0) _remove(toremove); return -error;`
  unfoldable pub finish : Progress os.World → ℤ × os.World
  unfolding remove_all
  finish s =
      (neg_ℤ s.error, if eqb_ℤ s.error (pos 0) then remove_all s.toremove s.world else s.world)

  abbrev pub start : os.World → Progress os.World
  start w = record { error = negsuc 0; toremove = []; world = w }

  -- As in `on_created`, the clause for a success with no path is never reached.
  unfoldable pub rename_create_path_on :
      Branches → Str → Str → Outcome → Outcome → os.World → ℤ × os.World
  unfolding rename_create_path_loop finish dirname
  rename_create_path_on bs oldfusepath newfusepath (failure e, ps) target w = (neg_of e, w)
  rename_create_path_on bs oldfusepath newfusepath (success, ps) (failure e, qs) w = (neg_of e, w)
  rename_create_path_on bs oldfusepath newfusepath (success, ps) (success, []) w = (neg_of 0, w)
  rename_create_path_on bs oldfusepath newfusepath (success, ps) (success, q ∷ qs) w =
      finish
        (rename_create_path_loop ps q oldfusepath newfusepath (dirname newfusepath) bs (start w))

  unfoldable pub rename_create_path : Config → Str → Str → os.World → ℤ × os.World
  unfolding rename_create_path_on run_policy dirname
  rename_create_path cfg oldfusepath newfusepath w =
      rename_create_path_on cfg.branches oldfusepath newfusepath
        (run_policy os Category.action cfg.rename cfg oldfusepath [] w)
        (run_policy os Category.search cfg.getattr cfg (dirname newfusepath) [] w) w

  -- `_clonepath`: it returns `-errno`, not -1, if the search fails, and 0 whatever the clone does.
  unfoldable pub clone_from : Outcome → Str → Str → os.World → Status × os.World
  unfolding clonepath_as_root
  clone_from (failure e, ps) dstbasepath fusedirpath w = (record { rv = neg_of e; errno = e }, w)
  clone_from (success, []) dstbasepath fusedirpath w = (record { rv = pos 0; errno = 0 }, w)
  clone_from (success, p ∷ ps) dstbasepath fusedirpath w =
      (record { rv = pos 0; errno = 0 }, (clonepath_as_root os p dstbasepath fusedirpath w).1)

  -- `_clonepath_if_would_create`, after its call of the create policy.
  unfoldable pub clone_if_created : Outcome → Outcome → Str → Str → os.World → Status × os.World
  unfolding clone_from str_eq
  clone_if_created (failure e, ps) found oldbasepath fusedirpath w =
      (record { rv = negsuc 0; errno = e }, w)
  clone_if_created (success, []) found oldbasepath fusedirpath w =
      (record { rv = pos 0; errno = 0 }, w)
  clone_if_created (success, p ∷ ps) found oldbasepath fusedirpath w =
      if str_eq oldbasepath p
      then clone_from found oldbasepath fusedirpath w
      else (record { rv = negsuc 0; errno = exdev }, w)

  unfoldable pub clonepath_if_would_create : Config → Str → Str → os.World → Status × os.World
  unfolding clone_if_created run_policy dirname
  clonepath_if_would_create cfg oldbasepath newfusepath w =
      clone_if_created (run_policy os Category.create cfg.create cfg (dirname newfusepath) [] w)
        (run_policy os Category.search cfg.getattr cfg (dirname newfusepath) [] w) oldbasepath
        (dirname newfusepath) w

  -- `if(rv == 0) rv = fs::rename(oldfullpath,newfullpath);`
  unfoldable pub retry_rename : Str → Str → Status × os.World → Status × os.World
  unfolding status
  retry_rename oldfullpath newfullpath (st, w) =
      if eqb_ℤ st.rv (pos 0)
      then (let (r, w') = os.rename oldfullpath newfullpath w in (status r, w'))
      else (st, w)

  -- The first `fs::rename`, and what follows if it failed with ENOENT.
  unfoldable pub rename_or_clone :
      Config → Str → Str → Str → Str → Rv × os.World → Status × os.World
  unfolding retry_rename clonepath_if_would_create status
  rename_or_clone cfg oldbasepath newfusepath oldfullpath newfullpath (success, w) =
      (status success, w)
  rename_or_clone cfg oldbasepath newfusepath oldfullpath newfullpath (failure e, w) =
      if e == enoent
      then retry_rename oldfullpath newfullpath
          (clonepath_if_would_create cfg oldbasepath newfusepath w)
      else (status (failure e), w)

  unfoldable pub rename_preserve_path_core :
      Config → List Str → Str → Str → Str → Progress os.World → Progress os.World
  unfolding rename_or_clone conclude member push make
  rename_preserve_path_core cfg oldbasepaths oldbasepath oldfusepath newfusepath s =
      let oldfullpath = make oldbasepath oldfusepath in
      let newfullpath = make oldbasepath newfusepath in
      if member oldbasepaths oldbasepath
      then (let (st, w') =
            rename_or_clone cfg oldbasepath newfusepath oldfullpath newfullpath
              (os.rename oldfullpath newfullpath s.world) in
          conclude oldfullpath st s.error s.toremove w')
      else push newfullpath s

  unfoldable pub rename_preserve_path_loop :
      Config → List Str → Str → Str → Branches → Progress os.World → Progress os.World
  unfolding rename_preserve_path_core
  rename_preserve_path_loop cfg oldbasepaths oldfusepath newfusepath [] s = s
  rename_preserve_path_loop cfg oldbasepaths oldfusepath newfusepath (b ∷ bs) s =
      rename_preserve_path_loop cfg oldbasepaths oldfusepath newfusepath bs
        (rename_preserve_path_core cfg oldbasepaths b.path oldfusepath newfusepath s)

  unfoldable pub rename_preserve_path_on : Config → Str → Str → Outcome → os.World → ℤ × os.World
  unfolding rename_preserve_path_loop finish
  rename_preserve_path_on cfg oldfusepath newfusepath (failure e, ps) w = (neg_of e, w)
  rename_preserve_path_on cfg oldfusepath newfusepath (success, ps) w =
      finish (rename_preserve_path_loop cfg ps oldfusepath newfusepath cfg.branches (start w))

  unfoldable pub rename_preserve_path : Config → Str → Str → os.World → ℤ × os.World
  unfolding rename_preserve_path_on run_policy
  rename_preserve_path cfg oldfusepath newfusepath w =
      rename_preserve_path_on cfg oldfusepath newfusepath
        (run_policy os Category.action cfg.rename cfg oldfusepath [] w) w

  -- `FUSE::rename`
  unfoldable pub rename : Config → Str → Str → State os → ℤ × State os
  unfolding rename_create_path rename_preserve_path path_preserving in_world erase
  rename cfg oldpath newpath s =
      in_world os
        (if path_preserving cfg.create && not cfg.ignorepponrename
          then rename_preserve_path cfg oldpath newpath
          else rename_create_path cfg oldpath newpath)
        (record s { open_cache = erase oldpath s.open_cache })
