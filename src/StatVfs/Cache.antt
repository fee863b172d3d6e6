-- ===== src/StatVfs/Cache.antt =====
-- src/fs_statvfs_cache.cpp: what `statvfs` gave of a path is used again for some seconds. Each call
-- is modelled as it runs under its lock.
pub mod Recent
use mergerfs.Base.{
  ℕ, ◌+◌, ◌-◌, ◌%◌, Bool, Str, str_eq, Option, none, some, ◌==◌, ltb, if◌then◌else◌,
}
use mergerfs.StatVfs.{StatVfs, u64_mod}

-- `Element`
pub record Element : Type 0 where
  pub time : ℕ
  pub st : StatVfs

-- `g_cache`, which is only read by `operator[]`: a path that it lacks stands for an element of zeros.
abbrev pub Elements : Type 0
Elements = Str → Element

abbrev pub blank : Element
blank = record { time = 0; st = record { frsize = 0; blocks = 0; bavail = 0; flag = 0 } }

unfoldable pub store : Str → Element → Elements → Elements
unfolding str_eq
store path e es p = if str_eq path p then e else es p

-- `(now - e->time) > g_timeout`, in 64 bits.
unfoldable pub is_outdated : ℕ → ℕ → Element → Bool
is_outdated timeout now e = ltb timeout ((now + u64_mod - e.time) % u64_mod)

-- What follows `fs::statvfs(path_,&e->st)`: a failure is remembered by its time alone.
unfoldable pub refreshed : ℕ → Str → Elements → Option StatVfs → Option StatVfs × Elements
unfolding store
refreshed now path es none = (none, store path (record (es path) { time = now }) es)
refreshed now path es (some st) = (some st, store path (record { time = now; st = st }) es)

-- `fs::statvfs_cache`, when `fs::statvfs` would give `real`; `none` is a return of -1.
unfoldable pub statvfs_cache : ℕ → ℕ → Str → Option StatVfs → Elements → Option StatVfs × Elements
unfolding is_outdated refreshed
statvfs_cache timeout now path real es =
    if timeout == 0
    then (real, es)
    else if is_outdated timeout now (es path)
    then refreshed now path es real
    else (some (es path).st, es)
