-- ===== src/Strings/Laws.antt =====
-- src/str.cpp: what split and ends_with make of text that was put together.
use mathlib.Core.List.{reverse, reverse-append}
use mergerfs.Base.{
  ℕ, ◌-◌, ◌≡◌, ◌≢◌, refl, ap, List, [], ◌∷◌, ◌++◌, Str, All, arith, length, length-append, take,
}
use mergerfs.Strings.{c_str, prepend, getlines, isprefix, ends_with}

-- The byte is not in the string.
abbrev pub Lacks : ℕ → Str → Type 0
Lacks b = All (λ c. c ≢ b)

pub c_str-Lacks : (s : Str) → Lacks 0 s → c_str s ≡ s
unfolding c_str
c_str-Lacks [] h = refl
c_str-Lacks (c ∷ s) (hc, hs) = ground (arith, c_str-Lacks s hs)

prepend_more : (c : ℕ) (p : Str) (ps : List Str) → prepend c (p ∷ ps) ≡ (c ∷ p) ∷ ps
unfolding prepend
prepend_more c p ps = refl

-- Up to a delimiter.
pub getlines_at :
    (d : ℕ) (p rest : Str) → Lacks d p → getlines d (p ++ d ∷ rest) ≡ p ∷ getlines d rest
unfolding getlines prepend
getlines_at d [] rest h = ground arith
getlines_at d (c ∷ p) rest (hc, hp) = ground (arith, getlines_at d p rest hp)

-- Up to the end.
pub getlines_last : (d c : ℕ) (p : Str) → Lacks d (c ∷ p) → getlines d (c ∷ p) ≡ (c ∷ p) ∷ []
unfolding getlines prepend
getlines_last d c [] (hc, hp) = ground arith
getlines_last d c (b ∷ p) (hc, hp) = ground (arith, getlines_last d b p hp)

pub ends_with-append :
    (p s t : Str) → ends_with (p ++ s) t ≡ isprefix (reverse s ++ reverse p) (reverse t)
unfolding ends_with
ends_with-append p s t = rw (reverse-append p s) refl

take_all : (p s : Str) → take (length p) (p ++ s) ≡ p
take_all [] s = refl
take_all (c ∷ p) s = ap (λ t. c ∷ t) (take_all p s)

-- `str.resize(str.size() - n)` takes off what was put on.
pub take-append : (p s : Str) → take (length (p ++ s) - length s) (p ++ s) ≡ p
take-append p s =
    let n : length (p ++ s) - length s ≡ length p = omega (arith, length-append p s) in
    rw n (take_all p s)
