-- ===== src/Policy/Spec/Listed.antt =====
-- all, epall, ff, epff, rand and eprand keep the contract.
use mathlib.Core.List.{Permᴰ}
use mergerfs.Base.{ℕ, ◌≡◌, List, [], Str, All, Any-map, All-map, subst, sym}
use mergerfs.Branch.{Branch, Branches}
use mergerfs.Policy.Types.{View, Category, Outcome, success, failure}
use mergerfs.Policy.Every.{all, epall}
use mergerfs.Policy.First.{ff, epff}
use mergerfs.Policy.Random.{rand, eprand, shuffle_if}
use mergerfs.Policy.Spec.Choice.{IsChoice, collect-IsChoice, first-IsChoice}
use mergerfs.Policy.Spec.Guards.{
  create_guard-Reasoned, ep_create_guard-Reasoned, ep_action_readonly_guard-Reasoned,
  search_guard-Reasoned,
}
use mergerfs.Policy.Spec.Allowed.{
  Allows, create_guard-CanCreate, ep_create_guard-CanCreate, ep_action_readonly_guard-CanChange,
  search_guard-HasPath,
}
use mergerfs.Policy.Spec.Measured.{Strong}

-- A weaker demand on the branches.
pub IsChoice-map :
    (P Q : Branch → Type 0) (bs : Branches) (o : Outcome)
    → ((b : Branch) → P b → Q b)
    → IsChoice P bs o
    → IsChoice Q bs o
IsChoice-map P Q bs (success, ps) f (some_path, from) =
    (some_path, All-map _ _ (λ p. Any-map _ _ (λ b h. (h.0, f b h.1)) bs) ps from)
IsChoice-map P Q bs (failure e, ps) f h = h

module _ (v : View) (path : Str) (n : ℕ) (bs : Branches) where
  pub epall-IsChoice :
      (cat : Category) → IsChoice (Strong v cat path n) bs (epall v cat bs path n [])
  unfolding epall
  epall-IsChoice Category.create =
      collect-IsChoice _ _ (ep_create_guard-Reasoned v path n) (ep_create_guard-CanCreate v path) bs
  epall-IsChoice Category.action =
      collect-IsChoice _ _ (ep_action_readonly_guard-Reasoned v path)
        (λ b i e. let r = ep_action_readonly_guard-CanChange v path b i e in (r.0, r)) bs
  epall-IsChoice Category.search =
      collect-IsChoice _ _ (search_guard-Reasoned v path)
        (λ b i e. let r = search_guard-HasPath v path b i e in (r, r)) bs
  epall-IsChoice Category.invalid =
      collect-IsChoice _ _ (search_guard-Reasoned v path)
        (λ b i e. let r = search_guard-HasPath v path b i e in (r, r)) bs

  pub epff-IsChoice : (cat : Category) → IsChoice (Strong v cat path n) bs (epff v cat bs path n [])
  unfolding epff
  epff-IsChoice Category.create =
      first-IsChoice _ _ (ep_create_guard-Reasoned v path n) (ep_create_guard-CanCreate v path) bs
  epff-IsChoice Category.action =
      first-IsChoice _ _ (ep_action_readonly_guard-Reasoned v path)
        (λ b i e. let r = ep_action_readonly_guard-CanChange v path b i e in (r.0, r)) bs
  epff-IsChoice Category.search =
      first-IsChoice _ _ (search_guard-Reasoned v path)
        (λ b i e. let r = search_guard-HasPath v path b i e in (r, r)) bs
  epff-IsChoice Category.invalid =
      first-IsChoice _ _ (search_guard-Reasoned v path)
        (λ b i e. let r = search_guard-HasPath v path b i e in (r, r)) bs

  weaken :
      (cat : Category) (o : Outcome)
      → IsChoice (Strong v cat path n) bs o
      → IsChoice (Allows v cat path n) bs o
  weaken cat o = IsChoice-map _ _ bs o (λ b h. h.1)

  pub all-IsChoice : (cat : Category) → IsChoice (Allows v cat path n) bs (all v cat bs path n [])
  all-IsChoice Category.create =
      unfold all in collect-IsChoice _ _ (create_guard-Reasoned v n) (create_guard-CanCreate v) bs
  all-IsChoice Category.action =
      unfold all in weaken Category.action _ (epall-IsChoice Category.action)
  all-IsChoice Category.search =
      unfold all in weaken Category.search _ (epall-IsChoice Category.search)
  all-IsChoice Category.invalid =
      unfold all in weaken Category.invalid _ (epall-IsChoice Category.invalid)

  pub ff-IsChoice : (cat : Category) → IsChoice (Allows v cat path n) bs (ff v cat bs path n [])
  ff-IsChoice Category.create =
      unfold ff in first-IsChoice _ _ (create_guard-Reasoned v n) (create_guard-CanCreate v) bs
  ff-IsChoice Category.action =
      unfold ff in weaken Category.action _ (epff-IsChoice Category.action)
  ff-IsChoice Category.search =
      unfold ff in weaken Category.search _ (epff-IsChoice Category.search)
  ff-IsChoice Category.invalid =
      unfold ff in weaken Category.invalid _ (epff-IsChoice Category.invalid)

-- What holds of every element holds after a permutation.
All-Permᴰ : (Q : Str → Type 0) {xs ys : List Str} → Permᴰ xs ys → All Q ys → All Q xs
All-Permᴰ Q Permᴰ.nil h = h
All-Permᴰ Q (Permᴰ.cons e p) h = (subst Q (sym e) h.0, All-Permᴰ Q p h.1)
All-Permᴰ Q (Permᴰ.swap e f) h = (subst Q (sym e) h.1.0, (subst Q (sym f) h.0, h.1.1))
All-Permᴰ Q (Permᴰ.trans p q) h = All-Permᴰ Q p (All-Permᴰ Q q h)

-- A permutation of a list is empty only if the list is.
Permᴰ-nil : {xs ys : List Str} → Permᴰ xs ys → xs ≡ [] → ys ≡ []
Permᴰ-nil Permᴰ.nil h = h
Permᴰ-nil (Permᴰ.cons e p) h = absurd (cc)
Permᴰ-nil (Permᴰ.swap e f) h = absurd (cc)
Permᴰ-nil (Permᴰ.trans p q) h = Permᴰ-nil q (Permᴰ-nil p h)

module _ (random_shuffle : List Str → List Str)
    (permutes : (ps : List Str) → Permᴰ (random_shuffle ps) ps) where
  shuffle_if-IsChoice :
      (P : Branch → Type 0) (bs : Branches) (o : Outcome)
      → IsChoice P bs o
      → IsChoice P bs (shuffle_if random_shuffle o)
  unfolding shuffle_if
  shuffle_if-IsChoice P bs (success, ps) (some_path, from) =
      ((λ e. some_path (Permᴰ-nil (permutes ps) e)), All-Permᴰ _ (permutes ps) from)
  shuffle_if-IsChoice P bs (failure e, ps) h = h

  module _ (v : View) (path : Str) (n : ℕ) (bs : Branches) (cat : Category) where
    pub rand-IsChoice : IsChoice (Allows v cat path n) bs (rand random_shuffle v cat bs path n [])
    unfolding rand
    rand-IsChoice = shuffle_if-IsChoice _ bs (all v cat bs path n []) (all-IsChoice v path n bs cat)

    pub eprand-IsChoice :
        IsChoice (Strong v cat path n) bs (eprand random_shuffle v cat bs path n [])
    unfolding eprand
    eprand-IsChoice =
        shuffle_if-IsChoice _ bs (epall v cat bs path n []) (epall-IsChoice v path n bs cat)
