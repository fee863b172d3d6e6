-- ===== src/StatVfs.antt =====
-- src/statvfs_util.hpp: what the policies read of a `struct statvfs`. Its fields are `uint64_t`,
-- and the products and the difference wrap around.
pub mod Cache
use mergerfs.Base.{ℕ, ◌+◌, ◌-◌, ◌*◌, ◌%◌, ◌^◌, Bool, ◌==◌}

pub record StatVfs : Type 0 where
  pub frsize : ℕ
  pub blocks : ℕ
  pub bavail : ℕ
  pub flag : ℕ

abbrev pub u64_mod : ℕ
u64_mod = 2 ^ 64

abbrev pub u64_max : ℕ
u64_max = u64_mod - 1

-- ST_RDONLY is the lowest bit of `f_flag`.
unfoldable pub readonly : StatVfs → Bool
readonly st = st.flag % 2 == 1

unfoldable pub spaceavail : StatVfs → ℕ
spaceavail st = st.frsize * st.bavail % u64_mod

unfoldable pub spaceused : StatVfs → ℕ
spaceused st = st.frsize * ((st.blocks + u64_mod - st.bavail) % u64_mod) % u64_mod
