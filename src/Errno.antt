-- ===== src/Errno.antt =====
-- The error numbers that the program names, and `error::calc` of src/rv.hpp, which folds the
-- results of the calls on several branches into one.
use mergerfs.Base.{ℕ, ℤ, pos, negsuc, eqb_ℤ, if◌then◌else◌}

-- Linux numbers them so.
abbrev pub enoent : ℕ
enoent = 2

abbrev pub eexist : ℕ
eexist = 17

abbrev pub enotdir : ℕ
enotdir = 20

abbrev pub enotty : ℕ
enotty = 25

-- ENOTSUP and EOPNOTSUPP are one number on Linux.
abbrev pub enotsup : ℕ
enotsup = 95

-- ENOATTR stands for ENODATA.
abbrev pub enoattr : ℕ
enoattr = 61

abbrev pub enosys : ℕ
enosys = 38

abbrev pub erange : ℕ
erange = 34

abbrev pub edquot : ℕ
edquot = 122

abbrev pub exdev : ℕ
exdev = 18

abbrev pub einval : ℕ
einval = 22

abbrev pub enospc : ℕ
enospc = 28

abbrev pub erofs : ℕ
erofs = 30

unfoldable pub calc : ℤ → ℤ → ℤ → ℤ
calc rv prev cur = if eqb_ℤ rv (negsuc 0) then if eqb_ℤ prev (pos 0) then pos 0 else cur else pos 0
