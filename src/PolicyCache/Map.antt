-- ===== src/PolicyCache/Map.antt =====
-- src/policy_cache.cpp: the entries of the cache as a map.
use mergerfs.Base.{
  ℕ, ◌≡◌, refl, ◌∙◌, none, some, Option, [], ◌∷◌, Str, str_eq, str_eq_refl, str_eq_iff, Bool-cases,
  inl, inr, ap, subst, if◌then◌else◌,
}
use mergerfs.PolicyCache.{Value, Entries, lookup, erase, insert, is_stale, cleanup}

pub lookup-erase : (k : Str) (es : Entries) → lookup k (erase k es) ≡ none
unfolding lookup erase
lookup-erase k [] = refl
lookup-erase k (e ∷ es) = elim (Bool-cases (str_eq e.0 k)) [
  | inl same ↦ rw (erase, same) (lookup-erase k es)
  | inr other ↦ rw (erase, other) (rw (lookup, other) (lookup-erase k es))
]

pub lookup-insert : (k : Str) (v : Value) (es : Entries) → lookup k (insert k v es) ≡ some v
unfolding lookup insert
lookup-insert k v es = rw (str_eq_refl k) refl

-- The keys are different, as those of a `std::map` are.
abbrev pub IsMap : Entries → Type 0
IsMap [] = Unit
IsMap (e ∷ es) = (lookup e.0 es ≡ none) × IsMap es

abbrev pub keep : ℕ → ℕ → Option Value → Option Value
keep timeout now none = none
keep timeout now (some v) = if is_stale timeout now v then none else some v

pub lookup-cleanup :
    (timeout now : ℕ) (k : Str) (es : Entries)
    → IsMap es
    → lookup k (cleanup timeout now es) ≡ keep timeout now (lookup k es)
unfolding lookup cleanup
lookup-cleanup timeout now k [] h = refl
lookup-cleanup timeout now k (e ∷ es) h = elim (Bool-cases (str_eq e.0 k)) [
  | inl same ↦ elim (Bool-cases (is_stale timeout now e.1)) [
    | inl stale ↦
        let gone : lookup k es ≡ none =
          subst (λ j. lookup j es ≡ none) ((str_eq_iff e.0 k).0 same) h.0 in
        rw (same, stale) (lookup-cleanup timeout now k es h.1 ∙ ap (keep timeout now) gone)
    | inr young ↦ rw (same, young) (rw (lookup, same) refl)
  ]
  | inr other ↦ elim (Bool-cases (is_stale timeout now e.1)) [
    | inl stale ↦ rw (other, stale) (lookup-cleanup timeout now k es h.1)
    | inr young ↦ rw (other, young) (rw (lookup, other) (lookup-cleanup timeout now k es h.1))
  ]
]
