-- ===== src/Fuse/Open/Laws.antt =====
-- src/fuse_open.cpp after src/fuse_unlink.cpp.
use mergerfs.Base.{ℕ, ◌≡◌, ◌≤◌, ◌<◌, ap, Str, Option, ℤ, []}
use mergerfs.StatVfs.{u64_mod}
use mergerfs.Os.{Os}
use mergerfs.Policy.Types.{Category}
use mergerfs.PolicyCache.Laws.{call-erase}
use mergerfs.Settings.{Settings, handler_config}
use mergerfs.Settings.Func.{FuseFunc}
use mergerfs.Fuse.Config.{State, Config, run_policy}
use mergerfs.Fuse.Action.{unlink, in_world}
use mergerfs.Fuse.Open.{FileInfo, open_file, after_cache, first_path}
use mergerfs.Files.{FileOs}

-- What the caller sees of an open: the answer, and the world.
abbrev pub seen : (os : Os) → (ℤ × Option FileInfo) × State os → (ℤ × Option FileInfo) × os.World
seen os (r, s) = (r, s.world)

module _ (os : Os) (fos : FileOs os) where
  -- An open of a path after its removal does and answers what it would without a cache: the policy
  -- is asked again, whatever the cache held. The clock must not be before the timeout, and fit in 64
  -- bits.
  pub open_file-unlink :
      (s : Settings) (cfg : Config) (fusepath : Str) (flags : ℕ) (st : State os)
      → s.open_timeout ≤ fos.clock (unlink os cfg fusepath st).1.world
      → fos.clock (unlink os cfg fusepath st).1.world < u64_mod
      → seen os (open_file os fos s fusepath flags (unlink os cfg fusepath st).1)
        ≡ seen os (
            open_file os fos
              (record s { open_timeout = 0 })
              fusepath
              flags
              (unlink os cfg fusepath st).1)
  unfolding open_file unlink in_world
  open_file-unlink s cfg fusepath flags st h w =
      let world' = (unlink os cfg fusepath st).1.world in
      let found = first_path (
        run_policy os Category.search (s.policies FuseFunc.fuse_open) (handler_config s) fusepath []
          world') in
      ap (λ a. after_cache os fos fusepath flags s.link_cow a world')
        (call-erase s.open_timeout (fos.clock world') fusepath found st.open_cache h w)
