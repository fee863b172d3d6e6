-- ===== src/Path/Length.antt =====
-- The directory of a path is shorter than the path, so that a walk up ends.
use mathlib.Core.List.{reverse, reverse-append}
use mathlib.Core.WellFounded.{Acc}
use mergerfs.Base.{
  ℕ, zero, suc, ◌≤◌, ◌<◌, ◌≡◌, refl, [], ◌∷◌, Str, arith, length, length-append, ◌==◌, Bool-cases,
  inl, inr,
}
use mergerfs.Path.{dirname, skip_slashes, skip_name, slash}

length-reverse : (s : Str) → length (reverse s) ≡ length s
length-reverse [] = refl
length-reverse (c ∷ s) =
    rw (reverse-append (c ∷ []) s)
      (omega (arith, length-append (reverse s) (c ∷ []), length-reverse s))

skip_slashes-le : (s : Str) → length (skip_slashes s) ≤ length s
unfolding skip_slashes
skip_slashes-le [] = omega arith
skip_slashes-le (c ∷ s) = ground (arith, skip_slashes-le s)

skip_name-le : (s : Str) → length (skip_name s) ≤ length s
unfolding skip_name
skip_name-le [] = omega arith
skip_name-le (c ∷ s) = ground (arith, skip_name-le s)

-- One of the first two loops takes a byte away.
skipped-lt : (c : ℕ) (s : Str) → length (skip_name (skip_slashes (c ∷ s))) < length (c ∷ s)
unfolding skip_name skip_slashes
skipped-lt c s = elim (Bool-cases (c == slash)) [
  | inl e ↦ rw e (omega (arith, skip_name-le (skip_slashes s), skip_slashes-le s))
  | inr e ↦ rw (e, skip_name) (rw e (omega (arith, skip_name-le s)))
]

skipped-lt_all :
    (t : Str) → 0 < length t → length (skip_slashes (skip_name (skip_slashes t))) < length t
skipped-lt_all [] h = elim h [ ]
skipped-lt_all (c ∷ s) h =
    omega (arith, skipped-lt c s, skip_slashes-le (skip_name (skip_slashes (c ∷ s))))

pub dirname-lt : (path : Str) → 0 < length path → length (dirname path) < length path
unfolding dirname
dirname-lt path h =
    let t : Str = reverse path in
    omega (
      arith,
      length-reverse path,
      length-reverse (skip_slashes (skip_name (skip_slashes t))),
      skipped-lt_all t (omega (arith, length-reverse path)),
    )

-- Paths by their length.
abbrev pub Shorter : Str → Str → Type 0
Shorter s t = length s < length t

Acc-below : (k : ℕ) (s : Str) → length s < k → Acc Shorter s
Acc-below zero s h = elim h [ ]
Acc-below (suc k) s h = Acc.intro s (λ t ht. Acc-below k t (omega arith))

unfoldable pub Shorter_acc : (s : Str) → Acc Shorter s
unfolding Acc-below
Shorter_acc s = Acc-below (suc (length s)) s (omega arith)
