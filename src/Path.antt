-- ===== src/Path.antt =====
-- src/fs_path.cpp: the parts of a path.
pub mod Length
use mathlib.Core.List.{reverse}
use mergerfs.Base.{Bool, true, false, not, List, [], ◌∷◌, Str, ◌==◌, if◌then◌else◌}

abbrev pub slash : Prim.Native.Nat.ℕ
slash = b'/'

-- `while(*i == '/' && i != ei) i++;` on the reversed string.
unfoldable pub skip_slashes : Str → Str
skip_slashes [] = []
skip_slashes (c ∷ s) = if c == slash then skip_slashes s else c ∷ s

-- `while(*i != '/' && i != ei) i++;`
unfoldable pub skip_name : Str → Str
skip_name [] = []
skip_name (c ∷ s) = if not (c == slash) then skip_name s else c ∷ s

-- `fs::path::dirname`: the trailing slashes, the last name and the slashes before it are erased.
unfoldable pub dirname : Str → Str
unfolding skip_slashes skip_name
dirname path = reverse (skip_slashes (skip_name (skip_slashes (reverse path))))
