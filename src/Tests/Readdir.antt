-- ===== src/Tests/Readdir.antt =====
-- A directory that stands on two of the three branches.
use mergerfs.Base.{
  ℕ, ◌≡◌, refl, sym, pos, none, some, Option, List, [], ◌∷◌, ◌++◌, Str, str_eq, if◌then◌else◌,
}
use mathlib.Core.Option.{some-injective}
use mergerfs.Policy.Table.{codes}
use mergerfs.Fuse.Readdir.{Dirent, Dir, Filler, readdir}
use mergerfs.Fuse.Readdir.Union.{IsFiller, IsUnion, names_on, readdir-IsUnion}
use mergerfs.Tests.Data.{pool}

abbrev listing : Filler
listing = record { Buffer = List Str; fill = λ b n st. some (b ++ n ∷ []); shown = λ b. b }

listing-IsFiller : IsFiller listing
listing-IsFiller = record { shows = λ b b' n st e. some-injective b' _ (sym e) }

abbrev entry : Str → Dirent
entry n = record { d_name = n; d_ino = 1; d_type = 8 }

unfoldable opendir : Str → Option Dir
unfolding str_eq
opendir p =
    if str_eq p (codes "/a/d")
    then some (record { devid = none; entries = entry (codes "f") ∷ entry (codes "g") ∷ [] })
    else if str_eq p (codes "/c/d")
    then some (record { devid = some 5; entries = entry (codes "g") ∷ entry (codes "h") ∷ [] })
    else none

-- The code of the first byte.
abbrev first_code : Str → ℕ
first_code [] = 0
first_code (c ∷ s) = c

merged :
    readdir first_code listing opendir pool (codes "/d") []
    ≡ (pos 0, some (codes "f" ∷ codes "g" ∷ codes "h" ∷ []))
unfolding readdir opendir
merged = refl

readdir-IsUnion_example :
    IsUnion first_code (names_on opendir (codes "/d") pool) (codes "f" ∷ codes "g" ∷ codes "h" ∷ [])
readdir-IsUnion_example =
    readdir-IsUnion first_code listing listing-IsFiller opendir pool (codes "/d") []
      (codes "f" ∷ codes "g" ∷ codes "h" ∷ []) refl merged
