-- ===== src/Branch/Text.antt =====
-- src/branch.cpp: the branches as text, as the control file and the options give them. `glob`,
-- `realpath` and `fnmatch` are parameters.
pub mod RoundTrip
use mergerfs.Base.{
  ℕ, ◌-◌, Bool, true, false, List, [], ◌∷◌, ◌++◌, Str, Option, none, some, length, take, ◌==◌,
  if◌then◌else◌,
}
use mergerfs.Strings.{split, ends_with, matches}
use mergerfs.Branch.{Mode, Branches}

abbrev pub colon : ℕ
colon = b':'

abbrev pub text_ro : Str
text_ro = b'=' ∷ b'R' ∷ b'O' ∷ []

abbrev pub text_rw : Str
text_rw = b'=' ∷ b'R' ∷ b'W' ∷ []

abbrev pub text_nc : Str
text_nc = b'=' ∷ b'N' ∷ b'C' ∷ []

-- `=` and the mode, if it is to be shown.
unfoldable pub mode_text : Bool → Mode → Str
mode_text false m = []
mode_text true Mode.ro = text_ro
mode_text true Mode.nc = text_nc
mode_text true _ = text_rw

-- The loop of `to_string`: `tmp`.
unfoldable pub entries : Bool → Branches → Str
unfolding mode_text
entries mode [] = []
entries mode (b ∷ bs) = b.path ++ (mode_text mode b.mode ++ colon ∷ entries mode bs)

-- `if(*tmp.rbegin() == ':') tmp.erase(tmp.size() - 1);`; with no branches the C++ is undefined.
unfoldable pub chop : Str → Str
chop [] = []
chop (c ∷ []) = if c == colon then [] else c ∷ []
chop (c ∷ (d ∷ s)) = c ∷ chop (d ∷ s)

-- `Branches::to_string`
unfoldable pub to_string : Bool → Branches → Str
unfolding entries chop
to_string mode bs = chop (entries mode bs)

-- `Branches::to_paths`
unfoldable pub to_paths : Branches → List Str
to_paths [] = []
to_paths (b ∷ bs) = b.path ∷ to_paths bs

-- The suffix that is cut off, and the mode that it stands for.
unfoldable pub parse_mode : Str → Mode × Str
unfolding ends_with
parse_mode s =
    if ends_with s text_ro
    then (Mode.ro, take (length s - 3) s)
    else if ends_with s text_rw
    then (Mode.rw, take (length s - 3) s)
    else if ends_with s text_nc
    then (Mode.nc, take (length s - 3) s)
    else (Mode.rw, s)

-- `Branches::erase_begin` and `Branches::erase_end`; with no branches the C++ is undefined.
unfoldable pub erase_begin : Branches → Branches
erase_begin [] = []
erase_begin (b ∷ bs) = bs

unfoldable pub erase_end : Branches → Branches
erase_end [] = []
erase_end (b ∷ []) = []
erase_end (b ∷ (c ∷ bs)) = b ∷ erase_end (c ∷ bs)

-- What the program asks of the C library here. `none` is a failure of `realpath`.
pub record Globbing : Type 0 where
  pub glob : Str → List Str
  pub realpath : Str → Option Str
  pub fnmatch : Str → Str → Bool

module _ (g : Globbing) where
  -- One round of `fs::realpathize`.
  unfoldable pub resolved : Str → Str
  resolved s = elim (g.realpath s) [ none ↦ s | some r ↦ r ]

  unfoldable pub realpathize : List Str → List Str
  unfolding resolved
  realpathize [] = []
  realpathize (s ∷ strs) = resolved s ∷ realpathize strs

  unfoldable pub with_mode : Mode → List Str → Branches
  with_mode m [] = []
  with_mode m (p ∷ ps) = record { mode = m; path = p } ∷ with_mode m ps

  -- `parse`, onto an empty vector.
  unfoldable pub parse : Str → Branches
  unfolding parse_mode with_mode realpathize
  parse s = let (m, pattern_) = parse_mode s in with_mode m (realpathize (g.glob pattern_))

  -- The loop of `set` and of `add_end`: each part is inserted at the end.
  unfoldable pub insert_end : Branches → List Str → Branches
  unfolding parse
  insert_end bs [] = bs
  insert_end bs (p ∷ paths) = insert_end (bs ++ parse p) paths

  -- The loop of `add_begin`: each part is inserted before those that were inserted earlier.
  unfoldable pub insert_begin : Branches → List Str → Branches
  unfolding parse
  insert_begin bs [] = bs
  insert_begin bs (p ∷ paths) = insert_begin (parse p ++ bs) paths

  -- `Branches::set`, `Branches::add_end` and `Branches::add_begin`
  unfoldable pub set : Str → Branches → Branches
  unfolding insert_end split
  set s bs = insert_end [] (split s colon)

  unfoldable pub add_end : Str → Branches → Branches
  unfolding insert_end split
  add_end s bs = insert_end bs (split s colon)

  unfoldable pub add_begin : Str → Branches → Branches
  unfolding insert_begin split
  add_begin s bs = insert_begin bs (split s colon)

  -- The loop of `erase_fnmatch`, with the patterns that were split.
  unfoldable pub erase_matches : List Str → Branches → Branches
  unfolding matches
  erase_matches patterns [] = []
  erase_matches patterns (b ∷ bs) =
      let rest = erase_matches patterns bs in
      if matches g.fnmatch patterns b.path then rest else b ∷ rest

  unfoldable pub erase_fnmatch : Str → Branches → Branches
  unfolding erase_matches split
  erase_fnmatch s bs = erase_matches (split s colon) bs
