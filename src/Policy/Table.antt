-- ===== src/Policy/Table.antt =====
-- src/policy.cpp: the table of the policies, and the lookup by name.
use Prim.Native.Char.{code}
use Prim.Native.String.{String}
use mergerfs.Base.{Bool, true, false, List, [], ◌∷◌, Str, str_eq, if◌then◌else◌}
use mergerfs.Policy.Kind.{Kind}
use mergerfs.Policy.Types.{View, Func}
use mergerfs.Policy.Every.{all, epall}
use mergerfs.Policy.First.{ff, epff}
use mergerfs.Policy.MostFree.{mfs, epmfs}
use mergerfs.Policy.LeastFree.{lfs, eplfs}
use mergerfs.Policy.LeastUsed.{lus, eplus}
use mergerfs.Policy.Newest.{newest}
use mergerfs.Policy.Random.{rand, eprand, erofs_policy, invalid_policy}

-- The bytes of an ASCII text.
abbrev pub codes : String → Str
codes String.[] = []
codes (String.◌∷◌ c s) = code c ∷ codes s

-- `_str`
unfoldable pub name : Kind → Str
name Kind.invalid = codes "invalid"
name Kind.all = codes "all"
name Kind.epall = codes "epall"
name Kind.epff = codes "epff"
name Kind.eplfs = codes "eplfs"
name Kind.eplus = codes "eplus"
name Kind.epmfs = codes "epmfs"
name Kind.eprand = codes "eprand"
name Kind.erofs = codes "erofs"
name Kind.ff = codes "ff"
name Kind.lfs = codes "lfs"
name Kind.lus = codes "lus"
name Kind.mfs = codes "mfs"
name Kind.newest = codes "newest"
name Kind.rand = codes "rand"

-- `_path_preserving`
unfoldable pub path_preserving : Kind → Bool
path_preserving Kind.epall = true
path_preserving Kind.epff = true
path_preserving Kind.eplfs = true
path_preserving Kind.eplus = true
path_preserving Kind.epmfs = true
path_preserving Kind.eprand = true
path_preserving _ = false

-- `_func`
unfoldable pub func : (List Str → List Str) → View → Kind → Func
func random_shuffle v Kind.invalid = invalid_policy
func random_shuffle v Kind.all = all v
func random_shuffle v Kind.epall = epall v
func random_shuffle v Kind.epff = epff v
func random_shuffle v Kind.eplfs = eplfs v
func random_shuffle v Kind.eplus = eplus v
func random_shuffle v Kind.epmfs = epmfs v
func random_shuffle v Kind.eprand = eprand random_shuffle v
func random_shuffle v Kind.erofs = erofs_policy
func random_shuffle v Kind.ff = ff v
func random_shuffle v Kind.lfs = lfs v
func random_shuffle v Kind.lus = lus v
func random_shuffle v Kind.mfs = mfs v
func random_shuffle v Kind.newest = newest v
func random_shuffle v Kind.rand = rand random_shuffle v

-- The entries from `Enum::BEGIN` to `Enum::END`.
abbrev pub policies : List Kind
policies =
    Kind.all ∷ Kind.epall ∷ Kind.epff ∷ Kind.eplfs ∷ Kind.eplus ∷ Kind.epmfs ∷ Kind.eprand
    ∷ Kind.erofs ∷ Kind.ff ∷ Kind.lfs ∷ Kind.lus ∷ Kind.mfs ∷ Kind.newest ∷ Kind.rand ∷ []

unfoldable pub find_in : List Kind → Str → Kind
unfolding name str_eq
find_in [] s = Kind.invalid
find_in (k ∷ ks) s = if str_eq (name k) s then k else find_in ks s

-- `Policy::find(const std::string&)`
unfoldable pub find : Str → Kind
unfolding find_in
find s = find_in policies s
