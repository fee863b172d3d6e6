-- ===== src/Fuse/Readdir/Union.antt =====
-- src/fuse_readdir.cpp: the names that are given are those of the branches, without repetition.
use mergerfs.Base.{
  ℕ, suc, ℤ, pos, ◌≡◌, ◌≢◌, refl, sym, ap, subst, true, false, Bool-cases, inl, inr, List, [], ◌∷◌,
  ◌++◌, map, append_assoc, append-nil, Str, Option, none, some, All, Any, All-append, All-map,
  Any-append_left, Any-append_right, ◌==◌, arith,
}
use mathlib.Core.Path.{Path}
use mathlib.Core.Option.{some-injective}
use mergerfs.Branch.{Branches}
use mergerfs.Policy.Types.{make}
use mergerfs.Fuse.Readdir.{
  Dirent, Dir, DirStat, Filler, is_put, device, dir_stat, Names, after_fill, entries_loop,
  branch_names, after_branch, branches_loop, readdir, answered,
}

-- The number is among those of the list.
abbrev IsIn : ℕ → List ℕ → Type 0
IsIn h ks = Any (λ k. h ≡ k) ks

is_put-IsIn : (h : ℕ) (ks : List ℕ) → is_put h ks ≡ true → IsIn h ks
unfolding is_put
is_put-IsIn h [] e = absurd cc
is_put-IsIn h (k ∷ ks) e = elim (Bool-cases (h == k)) [
  | inl same ↦ inl (ground arith)
  | inr other ↦ inr (is_put-IsIn h ks (ground arith))
]

not_put : (h : ℕ) (ks : List ℕ) → is_put h ks ≡ false → All (λ k. h ≢ k) ks
unfolding is_put
not_put h [] e = tt
not_put h (k ∷ ks) e = elim (Bool-cases (h == k)) [
  | inl same ↦ absurd (ground arith)
  | inr other ↦ ((ground arith), not_put h ks (ground arith))
]

-- No two of the numbers are the same.
abbrev pub AreDifferent : List ℕ → Type 0
AreDifferent [] = Unit
AreDifferent (k ∷ ks) = All (λ j. j ≢ k) ks × AreDifferent ks

different_more :
    (h : ℕ) (ks : List ℕ) → AreDifferent ks → All (λ k. h ≢ k) ks → AreDifferent (ks ++ h ∷ [])
different_more h [] d new = (tt, tt)
different_more h (k ∷ ks) d new =
    (All-append (λ j. j ≢ k) ks (h ∷ []) d.0 (new.0, tt), different_more h ks d.1 new.1)

map-append : (f : Str → ℕ) (xs ys : List Str) → map f (xs ++ ys) ≡ map f xs ++ map f ys
map-append f [] ys = refl
map-append f (x ∷ xs) ys = ap (λ t. f x ∷ t) (map-append f xs ys)

-- What the names `out` that are given have to do with the names `input` of the branches: each is
-- one of them, no two have the same hash, and every one of the branches has the hash of one that is
-- given.
abbrev pub IsUnion : (Str → ℕ) → List Str → List Str → Type 0
IsUnion hash input out =
    All (λ n. Any (λ m. n ≡ m) input) out
    × AreDifferent (map hash out)
    × All (λ m. Any (λ k. hash m ≡ k) (map hash out)) input

-- The name that is put in is new.
IsUnion-new :
    (hash : Str → ℕ) (n : Str) (input out : List Str)
    → is_put (hash n) (map hash out) ≡ false
    → IsUnion hash input out
    → IsUnion hash (input ++ n ∷ []) (out ++ n ∷ [])
IsUnion-new hash n input out new (known, different, all) = rw (map-append hash out (n ∷ [])) (
  All-append _ out (n ∷ [])
      (All-map _ _ (λ m found. Any-append_left _ input (n ∷ []) found) out known)
      (Any-append_right _ input (n ∷ []) (inl refl), tt),
  different_more (hash n) (map hash out) different (not_put _ _ new),
  All-append _ input (n ∷ [])
      (All-map _ _ (λ m found. Any-append_left _ (map hash out) (hash n ∷ []) found) input all)
      (Any-append_right _ (map hash out) (hash n ∷ []) (inl refl), tt),
)

-- The name that is left out has the hash of one that was given.
IsUnion-old :
    (hash : Str → ℕ) (n : Str) (input out : List Str)
    → is_put (hash n) (map hash out) ≡ true
    → IsUnion hash input out
    → IsUnion hash (input ++ n ∷ []) out
IsUnion-old hash n input out old (known, different, all) = (
  All-map _ _ (λ m found. Any-append_left _ input (n ∷ []) found) out known,
  different,
  All-append _ input (n ∷ []) all (is_put-IsIn _ _ old, tt),
)

-- What is relied on of the filler: a call that succeeds adds the name at the end.
pub record IsFiller (f : Filler) : Type 0 where
  pub shows :
      (b b' : f.Buffer) (n : Str) (st : DirStat)
      → f.fill b n st ≡ some b'
      → f.shown b' ≡ f.shown b ++ n ∷ []

abbrev names_in : List Dirent → List Str
names_in [] = []
names_in (de ∷ des) = de.d_name ∷ names_in des

abbrev names_of : Option Dir → List Str
names_of none = []
names_of (some dir) = names_in dir.entries

-- The names of the directory on the branches where it can be opened.
abbrev pub names_on : (Str → Option Dir) → Str → Branches → List Str
names_on opendir dirname [] = []
names_on opendir dirname (b ∷ bs) =
    names_of (opendir (make b.path dirname)) ++ names_on opendir dirname bs

module _ (hash : Str → ℕ) (f : Filler) (law : IsFiller f) where
  open f use {Buffer, fill, shown}

  -- The set holds the hashes of what the buffer shows, and that is the union of the names so far.
  abbrev Good : List Str → Names hash f → Type 0
  Good input none = Unit
  Good input (some (names, buf)) = (names ≡ map hash (shown buf)) × IsUnion hash input (shown buf)

  -- A step keeps this, with some more names.
  abbrev Steps : List Str → (List ℕ → Buffer → Names hash f) → Type 0
  Steps more rest =
      (input : List Str) (names : List ℕ) (buf : Buffer)
      → Good input (some (names, buf))
      → Good (input ++ more) (rest names buf)

  filled :
      (n : Str) (st : DirStat) (more : List Str) (rest : List ℕ → Buffer → Names hash f)
      → Steps more rest
      → (input : List Str) (names : List ℕ) (buf : Buffer) → is_put (hash n) names ≡ false
      → Good input (some (names, buf))
      → (o : Option Buffer) → fill buf n st ≡ o
      → Good ((input ++ n ∷ []) ++ more) (after_fill hash f (names ++ hash n ∷ []) o rest)
  unfolding after_fill
  filled n st more rest later input names buf new good none e = tt
  filled n st more rest later input names buf new (same, union) (some buf') e =
      let shows = law.shows buf buf' n st e in
      let new' : is_put (hash n) (map hash (shown buf)) ≡ false =
        subst (λ ks. is_put (hash n) ks ≡ false) same new in
      later (input ++ n ∷ []) (names ++ hash n ∷ []) buf' (
        rw (shows, same) (sym (map-append hash (shown buf) (n ∷ []))),
        rw shows (IsUnion-new hash n input (shown buf) new' union),
      )

  entries_loop-Steps :
      (dev : ℕ) (des : List Dirent) → Steps (names_in des) (entries_loop hash f dev des)
  unfolding entries_loop
  entries_loop-Steps dev [] input names buf good = rw (append-nil input) good
  entries_loop-Steps dev (de ∷ des) input names buf good =
      subst (λ i. Good i (entries_loop hash f dev (de ∷ des) names buf))
        (append_assoc input (de.d_name ∷ []) (names_in des))
        (elim (Bool-cases (is_put (hash de.d_name) names)) [
          | inl old ↦ rw old (
              entries_loop-Steps dev des (input ++ de.d_name ∷ []) names buf (
                good.0,
                IsUnion-old hash de.d_name input (shown buf)
                    (subst (λ ks. is_put (hash de.d_name) ks ≡ true) good.0 old) good.1,
              ))
          | inr new ↦ rw new (
              filled de.d_name (dir_stat dev de) (names_in des) (entries_loop hash f dev des)
                (entries_loop-Steps dev des) input names buf new good
                (fill buf de.d_name (dir_stat dev de)) refl)
        ])

  branch_names-Steps : (i : ℕ) (o : Option Dir) → Steps (names_of o) (branch_names hash f i o)
  unfolding branch_names
  branch_names-Steps i none input names buf good = rw (append-nil input) good
  branch_names-Steps i (some dir) input names buf good =
      entries_loop-Steps (device i dir.devid) dir.entries input names buf good

  after_branch-Good :
      (input more : List Str) (r : Names hash f) (rest : List ℕ → Buffer → Names hash f)
      → Good input r
      → Steps more rest
      → Good (input ++ more) (after_branch hash f r rest)
  unfolding after_branch
  after_branch-Good input more none rest good later = tt
  after_branch-Good input more (some (names, buf)) rest good later = later input names buf good

  branches_loop-Steps :
      (opendir : Str → Option Dir) (dirname : Str) (i : ℕ) (bs : Branches)
      → Steps (names_on opendir dirname bs) (branches_loop hash f opendir dirname i bs)
  unfolding branches_loop
  branches_loop-Steps opendir dirname i [] input names buf good = rw (append-nil input) good
  branches_loop-Steps opendir dirname i (b ∷ bs) input names buf good =
      let o = opendir (make b.path dirname) in
      subst (λ l. Good l (branches_loop hash f opendir dirname i (b ∷ bs) names buf))
        (append_assoc input (names_of o) (names_on opendir dirname bs))
        (after_branch-Good (input ++ names_of o) (names_on opendir dirname bs)
          (branch_names hash f i o names buf) (branches_loop hash f opendir dirname (suc i) bs)
          (branch_names-Steps i o input names buf good)
          (branches_loop-Steps opendir dirname (suc i) bs))

  same_buffer : (b b' : Buffer) → Path (ℤ × Option Buffer) (pos 0, some b) (pos 0, some b') → b ≡ b'
  same_buffer b b' e = some-injective b b' (ap (λ (x : ℤ × Option Buffer). x.1) e)

  answered-IsUnion :
      (input : List Str) (r : Names hash f) (buf : Buffer)
      → Good input r
      → answered hash f r ≡ (pos 0, some buf)
      → IsUnion hash input (shown buf)
  unfolding answered
  answered-IsUnion input none buf good e = absurd cc
  answered-IsUnion input (some (names, b)) buf good e =
      subst (λ x. IsUnion hash input (shown x)) (same_buffer b buf e) good.1

  -- The names that readdir gives, when it answers 0 and the filler adds what it is given to a buffer
  -- that is empty at first: each is a name on some branch where the directory can be opened; no two
  -- of them have the same hash; and every name on such a branch has the hash of one that is given.
  pub readdir-IsUnion :
      (opendir : Str → Option Dir) (bs : Branches) (dirname : Str) (buf buf' : Buffer)
      → shown buf ≡ []
      → readdir hash f opendir bs dirname buf ≡ (pos 0, some buf')
      → IsUnion hash (names_on opendir dirname bs) (shown buf')
  unfolding readdir
  readdir-IsUnion opendir bs dirname buf buf' empty h =
      answered-IsUnion (names_on opendir dirname bs)
        (branches_loop hash f opendir dirname 0 bs [] buf) buf'
        (branches_loop-Steps opendir dirname 0 bs [] [] buf (rw empty refl, rw empty (tt, tt, tt)))
        h
