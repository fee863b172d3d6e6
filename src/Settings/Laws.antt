-- ===== src/Settings/Laws.antt =====
-- src/config.cpp: what a policy is set for.
use mergerfs.Base.{◌≡◌, ◌≢◌, refl, ◌⊎◌, inl, inr, Str, ◌==◌, if◌then◌else◌}
use mergerfs.Errno.{einval, enoattr}
use mergerfs.Policy.Types.{Category, Rv, success, failure}
use mergerfs.Policy.Kind.{Kind}
use mergerfs.Policy.Table.{find}
use mergerfs.Settings.{
  Settings, assign_all, assign_category, set_found_category, set_category_policy,
}
use mergerfs.Settings.Func.{FuseFunc, fusefuncs, category_of, category_number, find_category}

-- The policies after a category was set: those of its functions, and no other.
abbrev pub with_category : Category → Kind → (FuseFunc → Kind) → FuseFunc → Kind
with_category cat k policies f =
    if category_number (category_of f) == category_number cat then k else policies f

assign_all-action :
    (k : Kind) (p : FuseFunc → Kind) (f : FuseFunc)
    → assign_all Category.action k fusefuncs p f ≡ with_category Category.action k p f
unfolding assign_all
assign_all-action k p FuseFunc.invalid = refl
assign_all-action k p _ = refl

assign_all-create :
    (k : Kind) (p : FuseFunc → Kind) (f : FuseFunc)
    → assign_all Category.create k fusefuncs p f ≡ with_category Category.create k p f
unfolding assign_all
assign_all-create k p FuseFunc.invalid = refl
assign_all-create k p _ = refl

assign_all-search :
    (k : Kind) (p : FuseFunc → Kind) (f : FuseFunc)
    → assign_all Category.search k fusefuncs p f ≡ with_category Category.search k p f
unfolding assign_all
assign_all-search k p FuseFunc.invalid = refl
assign_all-search k p _ = refl

assign_all_lem :
    (cat : Category) (k : Kind) (p : FuseFunc → Kind) (f : FuseFunc)
    → cat ≢ Category.invalid
    → assign_all cat k fusefuncs p f ≡ with_category cat k p f
assign_all_lem Category.invalid k p f h = absurd (h refl)
assign_all_lem Category.action k p f h = assign_all-action k p f
assign_all_lem Category.create k p f h = assign_all-create k p f
assign_all_lem Category.search k p f h = assign_all-search k p f

-- The three answers of `set_category_policy` for a category and a policy that were found, and what
-- is then changed.
abbrev pub IsAssigned : Category → Kind → Settings → Rv × Settings → Type 0
IsAssigned cat k s (r, s') =
    ((cat ≡ Category.invalid) × (r ≡ failure enoattr) × (s' ≡ s))
    ⊎ ((cat ≢ Category.invalid) × (k ≡ Kind.invalid) × (r ≡ failure einval) × (s' ≡ s))
    ⊎ ((cat ≢ Category.invalid)
        × (k ≢ Kind.invalid)
        × (r ≡ success)
        × (s' ≡ record s { policies = s'.policies })
        × ((f : FuseFunc) → s'.policies f ≡ with_category cat k s.policies f))

assign_category-IsAssigned :
    (cat : Category) (k : Kind) (s : Settings)
    → cat ≢ Category.invalid
    → IsAssigned cat k s (assign_category cat k s)
unfolding assign_category
assign_category-IsAssigned cat Kind.invalid s h = inr (inl (h, refl, refl, refl))
assign_category-IsAssigned cat k s h =
    inr (inr (h, (λ e. cc), refl, refl, (λ f. assign_all_lem cat k s.policies f h)))

set_found_category-IsAssigned :
    (cat : Category) (policy : Str) (s : Settings)
    → IsAssigned cat (find policy) s (set_found_category cat policy s)
unfolding set_found_category
set_found_category-IsAssigned Category.invalid policy s = inl (refl, refl, refl)
set_found_category-IsAssigned cat policy s = assign_category-IsAssigned _ (find policy) s (λ e. cc)

-- An unknown category is refused with ENODATA and an unknown policy with EINVAL, and nothing is
-- changed. Otherwise the policy is set for every function of the category, and for no other, and
-- nothing else is changed.
pub set_category_policy-IsAssigned :
    (category policy : Str) (s : Settings)
    → IsAssigned (find_category category) (find policy) s (set_category_policy category policy s)
unfolding set_category_policy
set_category_policy-IsAssigned category policy s =
    set_found_category-IsAssigned (find_category category) policy s
