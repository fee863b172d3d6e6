-- ===== src/Tests/Settings.antt =====
-- The branches' text, the numbers and the control file.
use mergerfs.Base.{negsuc, ◌≡◌, refl, pos, true, inl, some, [], ◌∷◌, ◌++◌, Str, str_eq, All, arith}
use mergerfs.Numbers.{decimal, factor, scaled, to_uint64_t}
use mergerfs.Numbers.Laws.{to_uint64_t-decimal}
use mergerfs.Branch.{Mode}
use mergerfs.Branch.Text.{Globbing, to_string, set, add_begin, erase_fnmatch}
use mergerfs.Branch.Text.RoundTrip.{IsStored, set-to_string}
use mergerfs.Policy.Table.{codes, find}
use mergerfs.Settings.{Settings, initial, set_category_policy, handler_config}
use mergerfs.Settings.Func.{find_category}
use mergerfs.Settings.Laws.{IsAssigned, set_category_policy-IsAssigned}
use mergerfs.Settings.ControlFile.Write.{Timeouts, Control, setxattr_controlfile}
use mergerfs.Settings.ControlFile.Read.{Process, getxattr_controlfile}
use mergerfs.Settings.ControlFile.Spared.{IsSpared}
use mergerfs.Settings.ControlFile.Laws.{setxattr_controlfile-IsSpared}
use mergerfs.Settings.ControlFile.RoundTrip.{setxattr_controlfile-getxattr_controlfile}
use mergerfs.Tests.Data.{pool, small, large, config}

-- No pattern stands for other paths.
abbrev plain : Globbing
plain = record { glob = λ s. s ∷ []; realpath = some; fnmatch = str_eq }

pool-IsStored : All (IsStored plain) pool
pool-IsStored = (
  ((λ e. cc), (ground arith), (ground arith), refl, refl),
  (
    ((λ e. cc), (ground arith), (ground arith), refl, refl),
    (((λ e. cc), (ground arith), (ground arith), refl, refl), tt),
  ),
)

set-to_string_example : set plain (to_string true pool) [] ≡ pool
set-to_string_example = set-to_string plain pool [] pool-IsStored

pool_text : to_string true pool ≡ codes "/a=RW:/b=RO:/c=RW"
unfolding to_string
pool_text = refl

-- The parts of a text that is added in front stand in the reverse order.
added :
    add_begin plain (codes "/d:/e=RO") pool
    ≡ record { mode = Mode.ro; path = codes "/e" }
      ∷ record { mode = Mode.rw; path = codes "/d" }
      ∷ pool
unfolding add_begin
added = refl

erased : erase_fnmatch plain (codes "/b") pool ≡ small ∷ large ∷ []
unfolding erase_fnmatch str_eq
erased = refl

to_uint64_t-decimal_example : to_uint64_t (decimal 4 ++ codes "G") ≡ scaled 4 (factor (codes "G"))
unfolding mergerfs.Numbers.starts_number
to_uint64_t-decimal_example = to_uint64_t-decimal 4 (codes "G") refl (ground arith)

-- What follows the suffix is not looked at.
suffix : to_uint64_t (codes "4Kx") ≡ some 4096
unfolding to_uint64_t
suffix = refl

set_category_policy-IsAssigned_example :
    IsAssigned
      (find_category (codes "search"))
      (find (codes "newest"))
      initial
      (set_category_policy (codes "search") (codes "newest") initial)
set_category_policy-IsAssigned_example =
    set_category_policy-IsAssigned (codes "search") (codes "newest") initial

-- What the handlers' tests are run with is the initial configuration, but for three members.
defaults : record (handler_config initial) { branches = pool; minfreespace = 10 } ≡ config
unfolding initial handler_config find_category find
defaults = refl

-- Timeouts that are texts themselves.
abbrev texts : Timeouts
texts = record {
  Number = Str;
  strtod = λ s. (s, []);
  Fuse = Str;
  set_attr_timeout = λ d f. d;
  set_entry_timeout = λ d f. d;
  set_negative_entry_timeout = λ d f. d;
  print = λ d. d;
  get_attr_timeout = λ f. f;
  get_entry_timeout = λ f. f;
  get_negative_entry_timeout = λ f. f;
}

abbrev process : Process
process = record { version = []; pid = 1 }

abbrev control : Control texts
control = record {
  settings = record initial { branches = pool };
  statfs_timeout = 0;
  fuse = codes "1";
}

answer :
    (setxattr_controlfile plain texts (codes "user.mergerfs.func.open") (codes "none") 0 control).0
    ≡ negsuc 21
unfolding setxattr_controlfile find mergerfs.Settings.Func.find_func
answer = refl

setxattr_controlfile-IsSpared_example :
    IsSpared texts control
      (setxattr_controlfile plain texts (codes "user.mergerfs.func.open") (codes "none") 0 control)
setxattr_controlfile-IsSpared_example =
    setxattr_controlfile-IsSpared plain texts (codes "user.mergerfs.func.open") (codes "none") 0
      control

-- A write of `xattr` is accepted, and changes nothing.
accepted :
    setxattr_controlfile plain texts (codes "user.mergerfs.xattr") (codes "nosys") 0 control
    ≡ (pos 0, control)
unfolding setxattr_controlfile
accepted = refl

read :
    getxattr_controlfile texts process (codes "user.mergerfs.branches") 100 control
    ≡ (pos 17, some (codes "/a=RW:/b=RO:/c=RW"))
unfolding getxattr_controlfile initial
read = refl

setxattr_controlfile-getxattr_controlfile_example :
    setxattr_controlfile plain texts
      (codes "user.mergerfs.branches")
      (codes "/a=RW:/b=RO:/c=RW")
      0
      control
    ≡ (pos 0, control)
unfolding initial find_category find
setxattr_controlfile-getxattr_controlfile_example =
    setxattr_controlfile-getxattr_controlfile plain texts process control
      (codes "user.mergerfs.branches") (codes "/a=RW:/b=RO:/c=RW") 100 (pos 17)
      ((codes "a", refl), pool-IsStored, refl, refl, refl, refl) (inl refl) read
