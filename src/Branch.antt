-- ===== src/Branch.antt =====
-- src/branch.hpp: a branch is a directory of one underlying file system, with its mode.
pub mod Text
use mergerfs.Base.{Bool, true, false, ◌||◌, List, Str}

pub data Mode : Type 0 where
  invalid ro rw nc : Mode

pub record Branch : Type 0 where
  pub mode : Mode
  pub path : Str

abbrev pub Branches : Type 0
Branches = List Branch

-- `mode == Branch::RO`
abbrev pub eq_ro : Mode → Bool
eq_ro Mode.ro = true
eq_ro _ = false

-- `mode == Branch::NC`
abbrev pub eq_nc : Mode → Bool
eq_nc Mode.nc = true
eq_nc _ = false

unfoldable pub is_ro : Branch → Bool
is_ro b = eq_ro b.mode

unfoldable pub is_nc : Branch → Bool
is_nc b = eq_nc b.mode

unfoldable pub is_ro_or_nc : Branch → Bool
is_ro_or_nc b = eq_ro b.mode || eq_nc b.mode
