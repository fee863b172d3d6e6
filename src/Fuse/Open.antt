-- ===== src/Fuse/Open.antt =====
-- Handlers that open files: src/fuse_open.cpp, with the breaking of hard links of src/fs_cow.cpp and
-- src/fs_mktemp.cpp; src/fuse_create.cpp; and src/fuse_write.cpp, which moves a file when its branch
-- is full.
pub mod Laws
use Prim.Native.Nat.{bit_or}
use mergerfs.Base.{
  ℕ, zero, suc, ◌+◌, ◌/◌, ◌%◌, ℤ, pos, negsuc, neg_of, Bool, false, not, ◌&&◌, ◌||◌, [], ◌∷◌, ◌++◌,
  Str, length, Option, none, some, ◌==◌, ltb, if◌then◌else◌,
}
use mergerfs.Errno.{eexist, enospc, edquot}
use mergerfs.Path.{dirname}
use mergerfs.Os.{Os}
use mergerfs.ClonePath.{clonepath_as_root}
use mergerfs.Policy.Types.{Category, Outcome, Rv, success, failure, make}
use mergerfs.PolicyCache.{Answer, call}
use mergerfs.Branch.Text.{to_paths}
use mergerfs.Settings.{Settings, handler_config}
use mergerfs.Settings.Func.{FuseFunc}
use mergerfs.Fuse.Config.{State, run_policy}
use mergerfs.Fuse.Create.{dir_has_defaults, clear_bits}
use mergerfs.Files.{FileOs}
use mergerfs.Files.Clone.{clonefile}
use mergerfs.Move.{movefile}

-- `FileInfo`
pub record FileInfo : Type 0 where
  pub fd : ℕ
  pub fusepath : Str

-- `operator()` of a policy with a `string*`: the first of the paths.
unfoldable pub first_path : Outcome → Answer
first_path (r, []) = (r, [])
first_path (r, p ∷ ps) = (r, p)

-- `is_eligible(const int)`: O_WRONLY is 1 and O_RDWR is 2.
unfoldable pub writes : ℕ → Bool
writes flags = (flags / 2 % 2 == 1) || (flags % 2 == 1)

module _ (os : Os) (fos : FileOs os) where
  open os use {World, FileStat}

  -- `is_eligible(const struct stat&)`: a regular file with more than one link.
  unfoldable pub is_linked : (Rv × FileStat) × World → Bool × World
  is_linked ((failure e, st), w) = (false, w)
  is_linked ((success, st), w) = ((os.mode st / 4096 % 16 == 8) && ltb 1 (fos.nlink st), w)

  unfoldable pub is_eligible : Str → ℕ → World → Bool × World
  unfolding is_linked writes
  is_eligible fullpath flags w =
      if writes flags then is_linked (fos.lstat fullpath w) else (false, w)

  -- One round of `fs::mktemp`: the next one runs only if the name was taken.
  unfoldable pub after_try :
      Str → (World → (Rv × (ℕ × Str)) × World) → (Rv × ℕ) × World → (Rv × (ℕ × Str)) × World
  after_try tmp again ((success, fd), w) = ((success, (fd, tmp)), w)
  after_try tmp again ((failure e, fd), w) =
      if e == eexist then again w else ((failure e, (0, [])), w)

  -- The loop of `fs::mktemp`, with `flags_ | O_EXCL | O_CREAT`; S_IWUSR is 128.
  unfoldable pub mktemp_loop : ℕ → Str → ℕ → World → (Rv × (ℕ × Str)) × World
  unfolding after_try
  mktemp_loop zero base flags w = ((failure eexist, (0, [])), w)
  mktemp_loop (suc count) base flags w =
      let (six, w') = fos.letters w in
      let tmp = base ++ b'_' ∷ six in
      after_try tmp (mktemp_loop count base flags) (fos.sys_creat tmp flags 128 w')

  unfoldable pub mktemp : Str → ℕ → World → (Rv × (ℕ × Str)) × World
  unfolding mktemp_loop
  mktemp base flags = mktemp_loop 10 base (bit_or flags (128 + 64))

  -- `fs::cow::break_link`, from its last call to its first.
  unfoldable pub link_renamed : ℕ → ℕ → Str → Rv × World → Rv × World
  link_renamed src_fd dst_fd dst (failure e, w) =
      (failure e, (os.unlink dst (fos.close dst_fd (fos.close src_fd w))).1)
  link_renamed src_fd dst_fd dst (success, w) = (success, fos.close dst_fd (fos.close src_fd w))

  unfoldable pub link_cloned : ℕ → ℕ → Str → Str → Rv × World → Rv × World
  unfolding link_renamed
  link_cloned src_fd dst_fd dst src (failure e, w) =
      (failure e, (os.unlink dst (fos.close dst_fd (fos.close src_fd w))).1)
  link_cloned src_fd dst_fd dst src (success, w) =
      link_renamed src_fd dst_fd dst (os.rename dst src w)

  unfoldable pub link_made : ℕ → Str → (Rv × (ℕ × Str)) × World → Rv × World
  unfolding link_cloned clonefile
  link_made src_fd src ((failure e, made), w) = (failure e, fos.close src_fd w)
  link_made src_fd src ((success, (dst_fd, dst)), w) =
      link_cloned src_fd dst_fd dst src (clonefile os fos src_fd dst_fd w)

  unfoldable pub link_opened : Str → (Rv × ℕ) × World → Rv × World
  unfolding link_made mktemp
  link_opened src ((failure e, src_fd), w) = (failure e, w)
  link_opened src ((success, src_fd), w) = link_made src_fd src (mktemp src 1 w)

  -- O_NOFOLLOW is 2 ^ 17 on Linux for x86.
  unfoldable pub break_link : Str → World → Rv × World
  unfolding link_opened
  break_link src w = link_opened src (fos.sys_open src 131072 w)

  -- The answer of a handler that opens, and what it stores in `*fh_`.
  abbrev pub Opened : Type 0
  Opened = (ℤ × Option FileInfo) × World

  unfoldable pub opened : Str → (Rv × ℕ) × World → Opened
  opened fusepath ((failure e, fd), w) = ((neg_of e, none), w)
  opened fusepath ((success, fd), w) = ((pos 0, some (record { fd = fd; fusepath = fusepath })), w)

  -- `if(link_cow_ && is_eligible(...)) break_link(...)`; its result is not looked at.
  unfoldable pub break_if : Str → Bool × World → World
  unfolding break_link
  break_if fullpath (eligible, w) = if eligible then (break_link fullpath w).1 else w

  unfoldable pub unlinked : Bool → Str → ℕ → World → World
  unfolding is_eligible break_if
  unlinked link_cow fullpath flags w =
      if link_cow then break_if fullpath (is_eligible fullpath flags w) else w

  unfoldable pub open_core : Str → Str → ℕ → Bool → World → Opened
  unfolding unlinked opened make
  open_core basepath fusepath flags link_cow w =
      let fullpath = make basepath fusepath in
      opened fusepath (fos.sys_open fullpath flags (unlinked link_cow fullpath flags w))

  unfoldable pub after_cache : Str → ℕ → Bool → Answer → World → Opened
  unfolding open_core
  after_cache fusepath flags link_cow (failure e, p) w = ((neg_of e, none), w)
  after_cache fusepath flags link_cow (success, p) w = open_core p fusepath flags link_cow w

  -- `FUSE::open`
  unfoldable pub open_file : Settings → Str → ℕ → State os → (ℤ × Option FileInfo) × State os
  unfolding after_cache call first_path run_policy handler_config
  open_file cfg fusepath flags s =
      let found = first_path (
        run_policy os Category.search (cfg.policies FuseFunc.fuse_open) (handler_config cfg)
          fusepath [] s.world) in
      let (answer, es) = call cfg.open_timeout (fos.clock s.world) fusepath found s.open_cache in
      let (r, w) = after_cache fusepath flags cfg.link_cow answer s.world in
      (r, record { world = w; open_cache = es })

  -- `create_core`, and what it stores.
  unfoldable pub create_core : Str → Str → ℕ → ℕ → ℕ → World → Opened
  unfolding dir_has_defaults clear_bits opened make
  create_core createpath fusepath mode umask flags w =
      let fullpath = make createpath fusepath in
      let (has, w') = dir_has_defaults os fullpath w in
      opened fusepath
        (fos.sys_creat fullpath flags (if has then mode else clear_bits mode umask) w')

  unfoldable pub after_parent_clone : Str → Str → ℕ → ℕ → ℕ → Rv × World → Opened
  unfolding create_core
  after_parent_clone createpath fusepath mode umask flags (failure e, w) = ((neg_of e, none), w)
  after_parent_clone createpath fusepath mode umask flags (success, w) =
      create_core createpath fusepath mode umask flags w

  -- `l::create` after the calls of the policies. The two vectors are not empty when a policy
  -- succeeds; without a path the C++ is undefined, and the last clause is never reached.
  unfoldable pub create_on : Str → Str → ℕ → ℕ → ℕ → Outcome → Outcome → World → Opened
  unfolding after_parent_clone clonepath_as_root
  create_on fusepath dir mode umask flags (failure e, existing) created w = ((neg_of e, none), w)
  create_on fusepath dir mode umask flags (success, existing) (failure e, ps) w =
      ((neg_of e, none), w)
  create_on fusepath dir mode umask flags (success, q ∷ existing) (success, p ∷ ps) w =
      after_parent_clone p fusepath mode umask flags (clonepath_as_root os q p dir w)
  create_on fusepath dir mode umask flags _ _ w = ((pos 0, none), w)

  -- `FUSE::create`
  unfoldable pub create_file : Settings → Str → ℕ → ℕ → ℕ → World → Opened
  unfolding create_on run_policy dirname handler_config
  create_file s fusepath mode umask flags w =
      let cfg = handler_config s in
      create_on fusepath (dirname fusepath) mode umask flags
        (run_policy os Category.search cfg.getattr cfg (dirname fusepath) [] w)
        (run_policy os Category.create cfg.create cfg (dirname fusepath) [] w) w

  -- `write_direct_io` and `write_regular`, which answers the count whatever was written.
  unfoldable pub written : Bool → Str → (Rv × ℕ) × World → ℤ × World
  written direct_io buf ((failure e, n), w) = (neg_of e, w)
  written direct_io buf ((success, zero), w) = (pos 0, w)
  written direct_io buf ((success, suc n), w) = (pos (if direct_io then suc n else length buf), w)

  unfoldable pub out_of_space : ℤ → Bool
  out_of_space (pos n) = false
  out_of_space (negsuc n) = (suc n == enospc) || (suc n == edquot)

  unfoldable pub write_fd : Bool → Str → ℕ → ℕ → World → ℤ × World
  unfolding written
  write_fd direct_io buf offset fd w = written direct_io buf (fos.pwrite fd buf offset w)

  unfoldable pub after_move : Bool → Str → ℕ → FileInfo → (Rv × ℕ) × World → (ℤ × FileInfo) × World
  unfolding write_fd
  after_move direct_io buf offset fi ((failure e, fd), w) = ((neg_of enospc, fi), w)
  after_move direct_io buf offset fi ((success, fd), w) =
      let (r, w') = write_fd direct_io buf offset fd w in ((r, record fi { fd = fd }), w')

  -- `FUSE::write`; the file that `fi` describes may be moved.
  unfoldable pub write : Settings → Bool → Str → ℕ → FileInfo → World → (ℤ × FileInfo) × World
  unfolding write_fd out_of_space after_move movefile to_paths
  write s direct_io buf offset fi w =
      let (r, w') = write_fd direct_io buf offset fi.fd w in
      if out_of_space r && s.moveonenospc
      then after_move direct_io buf offset fi
          (movefile os fos (to_paths s.branches) fi.fusepath (length buf) fi.fd w')
      else ((r, fi), w')
