-- ===== src/Settings/Func.antt =====
-- src/fusefunc.cpp and src/category.cpp: the functions that a policy can be set for, their
-- categories, and the lookups by name. `open` is spelled `fuse_open`.
use mergerfs.Base.{ℕ, List, [], ◌∷◌, Str, str_eq, if◌then◌else◌}
use mergerfs.Policy.Types.{Category}
use mergerfs.Policy.Table.{codes}

-- `FuseFunc::Enum::Type`
pub data FuseFunc : Type 0 where
  invalid access chmod chown create getattr getxattr link listxattr mkdir mknod fuse_open readlink
        removexattr rename rmdir setxattr symlink truncate unlink utimens :
      FuseFunc

-- The values of the enumerations, from `invalid` on, which the program numbers -1.
unfoldable pub func_number : FuseFunc → ℕ
func_number FuseFunc.invalid = 0
func_number FuseFunc.access = 1
func_number FuseFunc.chmod = 2
func_number FuseFunc.chown = 3
func_number FuseFunc.create = 4
func_number FuseFunc.getattr = 5
func_number FuseFunc.getxattr = 6
func_number FuseFunc.link = 7
func_number FuseFunc.listxattr = 8
func_number FuseFunc.mkdir = 9
func_number FuseFunc.mknod = 10
func_number FuseFunc.fuse_open = 11
func_number FuseFunc.readlink = 12
func_number FuseFunc.removexattr = 13
func_number FuseFunc.rename = 14
func_number FuseFunc.rmdir = 15
func_number FuseFunc.setxattr = 16
func_number FuseFunc.symlink = 17
func_number FuseFunc.truncate = 18
func_number FuseFunc.unlink = 19
func_number FuseFunc.utimens = 20

unfoldable pub category_number : Category → ℕ
category_number Category.invalid = 0
category_number Category.action = 1
category_number Category.create = 2
category_number Category.search = 3

-- `_str`
unfoldable pub func_name : FuseFunc → Str
func_name FuseFunc.invalid = codes "invalid"
func_name FuseFunc.access = codes "access"
func_name FuseFunc.chmod = codes "chmod"
func_name FuseFunc.chown = codes "chown"
func_name FuseFunc.create = codes "create"
func_name FuseFunc.getattr = codes "getattr"
func_name FuseFunc.getxattr = codes "getxattr"
func_name FuseFunc.link = codes "link"
func_name FuseFunc.listxattr = codes "listxattr"
func_name FuseFunc.mkdir = codes "mkdir"
func_name FuseFunc.mknod = codes "mknod"
func_name FuseFunc.fuse_open = codes "open"
func_name FuseFunc.readlink = codes "readlink"
func_name FuseFunc.removexattr = codes "removexattr"
func_name FuseFunc.rename = codes "rename"
func_name FuseFunc.rmdir = codes "rmdir"
func_name FuseFunc.setxattr = codes "setxattr"
func_name FuseFunc.symlink = codes "symlink"
func_name FuseFunc.truncate = codes "truncate"
func_name FuseFunc.unlink = codes "unlink"
func_name FuseFunc.utimens = codes "utimens"

-- `_category`
unfoldable pub category_of : FuseFunc → Category
category_of FuseFunc.invalid = Category.invalid
category_of FuseFunc.access = Category.search
category_of FuseFunc.chmod = Category.action
category_of FuseFunc.chown = Category.action
category_of FuseFunc.create = Category.create
category_of FuseFunc.getattr = Category.search
category_of FuseFunc.getxattr = Category.search
category_of FuseFunc.link = Category.action
category_of FuseFunc.listxattr = Category.search
category_of FuseFunc.mkdir = Category.create
category_of FuseFunc.mknod = Category.create
category_of FuseFunc.fuse_open = Category.search
category_of FuseFunc.readlink = Category.search
category_of FuseFunc.removexattr = Category.action
category_of FuseFunc.rename = Category.action
category_of FuseFunc.rmdir = Category.action
category_of FuseFunc.setxattr = Category.action
category_of FuseFunc.symlink = Category.create
category_of FuseFunc.truncate = Category.action
category_of FuseFunc.unlink = Category.action
category_of FuseFunc.utimens = Category.action

-- The entries from `Enum::BEGIN` to `Enum::END`.
abbrev pub fusefuncs : List FuseFunc
fusefuncs =
    FuseFunc.access ∷ FuseFunc.chmod ∷ FuseFunc.chown ∷ FuseFunc.create ∷ FuseFunc.getattr
    ∷ FuseFunc.getxattr ∷ FuseFunc.link ∷ FuseFunc.listxattr ∷ FuseFunc.mkdir ∷ FuseFunc.mknod
    ∷ FuseFunc.fuse_open ∷ FuseFunc.readlink ∷ FuseFunc.removexattr ∷ FuseFunc.rename
    ∷ FuseFunc.rmdir ∷ FuseFunc.setxattr ∷ FuseFunc.symlink ∷ FuseFunc.truncate ∷ FuseFunc.unlink
    ∷ FuseFunc.utimens ∷ []

unfoldable pub find_func_in : List FuseFunc → Str → FuseFunc
unfolding func_name str_eq
find_func_in [] s = FuseFunc.invalid
find_func_in (f ∷ fs) s = if str_eq (func_name f) s then f else find_func_in fs s

-- `FuseFunc::find(const std::string&)`
unfoldable pub find_func : Str → FuseFunc
unfolding find_func_in
find_func s = find_func_in fusefuncs s

unfoldable pub category_name : Category → Str
category_name Category.invalid = codes "invalid"
category_name Category.action = codes "action"
category_name Category.create = codes "create"
category_name Category.search = codes "search"

abbrev pub categories : List Category
categories = Category.action ∷ Category.create ∷ Category.search ∷ []

unfoldable pub find_category_in : List Category → Str → Category
unfolding category_name str_eq
find_category_in [] s = Category.invalid
find_category_in (c ∷ cs) s = if str_eq (category_name c) s then c else find_category_in cs s

-- `Category::find(const std::string&)`
unfoldable pub find_category : Str → Category
unfolding find_category_in
find_category s = find_category_in categories s
