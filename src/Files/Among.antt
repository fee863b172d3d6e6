-- ===== src/Files/Among.antt =====
-- src/fs.cpp: the branches that are found are among those that were given.
use mergerfs.Base.{
  arith, ◌∙◌, ℕ, ◌≡◌, refl, sym, Bool, true, false, ◌⊎◌, inl, inr, List, [], ◌∷◌, Str, Option, none,
  some, ◌==◌, if◌then◌else◌, Any, ◌≤◌, ltb→le, ltb, leb, Bool-cases, subst, ap,
}
use mathlib.Core.Option.{some-injective}
use mergerfs.Os.{Os}
use mergerfs.Policy.Types.{View, Rv, success, failure, make, statvfs_cache_spaceavail}
use mergerfs.Files.{FileOs}
use mergerfs.Files.Find.{mfs_path, mfs_step, mfs_loop, find_step, find_on_dev, find_from, findonfs}

-- The path is one of the list.
abbrev pub IsAmong : Str → List Str → Type 0
IsAmong p ps = Any (λ x. x ≡ p) ps

mfs_step-best :
    (n : ℕ) (q : Str) (o : Option ℕ) (s : ℕ × Option Str)
    → ((mfs_step n q o s).1 ≡ s.1) ⊎ ((mfs_step n q o s).1 ≡ some q)
unfolding mfs_step
mfs_step-best n q none s = inl refl
mfs_step-best n q (some a) s = ground arith

-- The branch that `mfs` gives is the one that was found before, or one of the list.
mfs_loop-IsAmong :
    (v : View) (n : ℕ) (ps : List Str) (s : ℕ × Option Str) (p : Str)
    → (mfs_loop v n ps s).1 ≡ some p
    → (s.1 ≡ some p) ⊎ IsAmong p ps
unfolding mfs_loop
mfs_loop-IsAmong v n [] s p h = inl h
mfs_loop-IsAmong v n (q ∷ ps) s p h =
    let o = statvfs_cache_spaceavail v q in
    elim (mfs_loop-IsAmong v n ps (mfs_step n q o s) p h) [
      | inr found ↦ inr (inr found)
      | inl best ↦ elim (mfs_step-best n q o s) [
        | inl kept ↦ inl (sym kept ∙ best)
        | inr taken ↦ inr (inl (some-injective _ _ (sym taken ∙ best)))
      ]
    ]

pub mfs_path-IsAmong :
    (v : View) (n : ℕ) (ps : List Str) (p : Str) → mfs_path v n ps ≡ some p → IsAmong p ps
unfolding mfs_path
mfs_path-IsAmong v n ps p h = elim (mfs_loop-IsAmong v n ps (0, none) p h) [
  | inl e ↦ absurd cc
  | inr found ↦ found
]

-- The branch reports at least so much space.
abbrev pub HasRoom : View → ℕ → Str → Type 0
HasRoom v needed p = (a : ℕ) × (statvfs_cache_spaceavail v p ≡ some a) × (needed ≤ a)

abbrev AllRoomy : View → ℕ → ℕ × Option Str → Type 0
AllRoomy v n s = (p : Str) → s.1 ≡ some p → HasRoom v n p

mfs_step-HasRoom :
    (v : View) (n : ℕ) (q : Str) (o : Option ℕ) (s : ℕ × Option Str)
    → statvfs_cache_spaceavail v q ≡ o
    → AllRoomy v n s
    → AllRoomy v n (mfs_step n q o s)
unfolding mfs_step
mfs_step-HasRoom v n q none s e h = h
mfs_step-HasRoom v n q (some a) (mfs, best) e h = elim (Bool-cases (ltb a n)) [
  | inl small ↦ rw small h
  | inr enough ↦ elim (Bool-cases (leb a mfs)) [
    | inl less ↦ rw (enough, less) h
    | inr more ↦
        rw (enough, more)
          (λ p k. (
            a,
            subst (λ x. statvfs_cache_spaceavail v x ≡ some a) (some-injective _ _ k) e,
            ltb→le a n enough,
          ))
  ]
]

mfs_loop-HasRoom :
    (v : View) (n : ℕ) (ps : List Str) (s : ℕ × Option Str)
    → AllRoomy v n s
    → AllRoomy v n (mfs_loop v n ps s)
unfolding mfs_loop
mfs_loop-HasRoom v n [] s h = h
mfs_loop-HasRoom v n (q ∷ ps) s h =
    mfs_loop-HasRoom v n ps _ (mfs_step-HasRoom v n q (statvfs_cache_spaceavail v q) s refl h)

-- The branch that `mfs` gives has the room that was asked for.
pub mfs_path-HasRoom :
    (v : View) (n : ℕ) (ps : List Str) (p : Str) → mfs_path v n ps ≡ some p → HasRoom v n p
unfolding mfs_path
mfs_path-HasRoom v n ps p h = mfs_loop-HasRoom v n ps (0, none) (λ q e. absurd cc) p h

module _ (os : Os) (fos : FileOs os) where
  open os use {World, FileStat}

  abbrev pub Found : List Str → (Rv × Str) × World → Type 0
  Found ps x = x.0.0 ≡ success → IsAmong x.0.1 ps

  choose :
      (ps : List Str) (b : Bool) (x y : (Rv × Str) × World)
      → Found ps x
      → Found ps y
      → Found ps (if b then x else y)
  choose ps true x y hx hy = hx
  choose ps false x y hx hy = hy

  find_step-Found :
      (d : ℕ) (p : Str) (ps : List Str) (x : (Rv × FileStat) × World)
      (rest : World → (Rv × Str) × World)
      → ((w : World) → Found ps (rest w))
      → Found (p ∷ ps) (find_step os fos d p x rest)
  unfolding find_step
  find_step-Found d p ps ((failure e, st), w) rest later h = inr (later w h)
  find_step-Found d p ps ((success, st), w) rest later h =
      choose (p ∷ ps) (fos.dev st == d) ((success, p), w) (rest w) (λ _. inl refl)
        (λ found. inr (later w found)) h

  pub find_on_dev-Found :
      (d : ℕ) (fusepath : Str) (ps : List Str) (w : World)
      → Found ps (find_on_dev os fos d fusepath ps w)
  unfolding find_on_dev
  find_on_dev-Found d fusepath [] w h = absurd cc
  find_on_dev-Found d fusepath (p ∷ ps) w h =
      find_step-Found d p ps (fos.lstat (make p fusepath) w) (find_on_dev os fos d fusepath ps)
        (find_on_dev-Found d fusepath ps) h

  find_from-IsAmong :
      (fusepath : Str) (ps : List Str) (x : (Rv × FileStat) × World)
      → (find_from os fos fusepath ps x).0.0 ≡ success
      → IsAmong (find_from os fos fusepath ps x).0.1 ps
  unfolding find_from
  find_from-IsAmong fusepath ps ((failure e, st), w) h = absurd cc
  find_from-IsAmong fusepath ps ((success, st), w) h =
      find_on_dev-Found (fos.dev st) fusepath ps w h

  pub findonfs-IsAmong :
      (fusepath : Str) (fd : ℕ) (ps : List Str) (w : World) (p : Str) (w' : World)
      → findonfs os fos ps fusepath fd w ≡ ((success, p), w')
      → IsAmong p ps
  unfolding findonfs
  findonfs-IsAmong fusepath fd ps w p w' e =
      subst (λ (x : (Rv × Str) × World). IsAmong x.0.1 ps) e
        (find_from-IsAmong fusepath ps (fos.fstat fd w) (ap (λ (x : (Rv × Str) × World). x.0.0) e))

  -- `lstat` gave the device for the path on the branch.
  abbrev pub IsOn : ℕ → Str → Str → Type 0
  IsOn d fusepath p =
      (u : World) × (st : FileStat) × (u' : World) × (fos.lstat (make p fusepath) u
        ≡ ((success, st), u'))
      × (fos.dev st ≡ d)

  abbrev IsOnFound : ℕ → Str → (Rv × Str) × World → Type 0
  IsOnFound d fusepath x = x.0.0 ≡ success → IsOn d fusepath x.0.1

  find_step-IsOnFound :
      (d : ℕ) (fusepath p : Str) (u : World) (x : (Rv × FileStat) × World)
      (rest : World → (Rv × Str) × World)
      → fos.lstat (make p fusepath) u ≡ x
      → ((w : World) → IsOnFound d fusepath (rest w))
      → IsOnFound d fusepath (find_step os fos d p x rest)
  unfolding find_step
  find_step-IsOnFound d fusepath p u ((failure e, st), w) rest q later = later w
  find_step-IsOnFound d fusepath p u ((success, st), w) rest q later =
      elim (Bool-cases (fos.dev st == d)) [
        | inl same ↦ rw same (λ found. (u, st, w, q, ground arith))
        | inr other ↦ rw other (later w)
      ]

  find_on_dev-IsOnFound :
      (d : ℕ) (fusepath : Str) (ps : List Str) (w : World)
      → IsOnFound d fusepath (find_on_dev os fos d fusepath ps w)
  unfolding find_on_dev
  find_on_dev-IsOnFound d fusepath [] w = λ h. absurd cc
  find_on_dev-IsOnFound d fusepath (p ∷ ps) w =
      find_step-IsOnFound d fusepath p w _ (find_on_dev os fos d fusepath ps) refl
        (find_on_dev-IsOnFound d fusepath ps)

  -- The branch has the path, on the device of the open file.
  abbrev pub IsOnSame : Str → ℕ → World → Str → Type 0
  IsOnSame fusepath fd w p =
      (st : FileStat) × (w' : World) × (fos.fstat fd w ≡ ((success, st), w'))
      × IsOn (fos.dev st) fusepath p

  find_from-IsOnSame :
      (fusepath : Str) (fd : ℕ) (ps : List Str) (w : World) (x : (Rv × FileStat) × World)
      → fos.fstat fd w ≡ x
      → (find_from os fos fusepath ps x).0.0 ≡ success
      → IsOnSame fusepath fd w (find_from os fos fusepath ps x).0.1
  unfolding find_from
  find_from-IsOnSame fusepath fd ps w ((failure e, st), w') q h = absurd cc
  find_from-IsOnSame fusepath fd ps w ((success, st), w') q h =
      (st, w', q, find_on_dev-IsOnFound (fos.dev st) fusepath ps w' h)

  pub findonfs-IsOnSame :
      (fusepath : Str) (fd : ℕ) (ps : List Str) (w : World) (p : Str) (w' : World)
      → findonfs os fos ps fusepath fd w ≡ ((success, p), w')
      → IsOnSame fusepath fd w p
  unfolding findonfs
  findonfs-IsOnSame fusepath fd ps w p w' e =
      subst (λ (x : (Rv × Str) × World). IsOnSame fusepath fd w x.0.1) e
        (find_from-IsOnSame fusepath fd ps w (fos.fstat fd w) refl
          (ap (λ (x : (Rv × Str) × World). x.0.0) e))
