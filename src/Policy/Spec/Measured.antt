-- ===== src/Policy/Spec/Measured.antt =====
-- The policies that compare a measure keep the contract.
use mergerfs.Errno.{enoent}
use mergerfs.Base.{refl, arith, ℕ, ◌≡◌, List, [], ◌∷◌, ◌++◌, Str, All, subst}
use mergerfs.Branch.{Branch, Branches}
use mergerfs.Policy.Types.{View, Category, Outcome, success, failure}
use mergerfs.Policy.Guard.{take, create_guard, ep_create_guard, ep_action_guard}
use mergerfs.Policy.MostFree.{epmfs, mfs}
use mergerfs.Policy.LeastFree.{eplfs, lfs}
use mergerfs.Policy.LeastUsed.{eplus, lus}
use mergerfs.Policy.Spec.Choice.{IsFrom, IsChoice, All_middle, worst_pos, candidates-IsFrom}
use mergerfs.Policy.Spec.Allowed.{
  HasPath, Allows, create_guard-CanCreate, ep_create_guard-CanCreate, ep_action_guard-CanChange,
  ep_search_avail_guard-HasPath, ep_search_used_guard-HasPath, on_avail-take, on_used-take,
}
use mergerfs.Policy.Spec.Optimal.Measures.{ep_space, space, ep_used, used}
use mergerfs.Policy.Spec.Optimal.Most.{IsMost, epmfs-IsMost, mfs-IsMost}
use mergerfs.Policy.Spec.Optimal.Least.{IsLeast, eplfs-IsLeast, lfs-IsLeast}
use mergerfs.Policy.Spec.Optimal.Used.{
  IsLeastUsed, IsUsedChoice, eplus-IsLeastUsed, lus-IsLeastUsed,
}

-- The branch has the path, and allows the operation.
abbrev pub Strong : View → Category → Str → ℕ → Branch → Type 0
Strong v cat path n b = HasPath v path b × Allows v cat path n b

module _ (P : Branch → Type 0) (bs : Branches) (cs : List (Str × ℕ)) (es : List ℕ)
    (from : All (λ c. IsFrom P bs c.0) cs) where
  middle :
      (pre post : List (Str × ℕ)) (p : Str) (m : ℕ) (ps : List Str)
      → cs ≡ pre ++ (p, m) ∷ post
      → ps ≡ [] ++ p ∷ []
      → IsChoice P bs (success, ps)
  middle pre post p m ps split result = rw result (
    (λ q. cc),
    (All_middle (IsFrom P bs) pre post (p, m) (subst (All (λ c. IsFrom P bs c.0)) split from), tt),
  )

  IsMost-IsChoice : (o : Outcome) → IsMost cs es [] o → IsChoice P bs o
  IsMost-IsChoice (success, ps) (pre, p, m, post, split, result, before, after) =
      middle pre post p m ps split result
  IsMost-IsChoice (failure e, ps) (h, why, same) = (same, rw why (worst_pos es))

  IsLeast-IsChoice : (o : Outcome) → IsLeast cs es [] o → IsChoice P bs o
  IsLeast-IsChoice (success, ps) (pre, p, m, post, split, result, before, after) =
      middle pre post p m ps split result
  IsLeast-IsChoice (failure e, ps) (h, why, same) = (same, rw why (worst_pos es))

  IsLeastUsed-IsChoice : (o : Outcome) → IsLeastUsed cs es [] o → IsChoice P bs o
  IsLeastUsed-IsChoice (success, ps) (pre, p, m, post, split, result, before, after) =
      middle pre post p m ps split result
  IsLeastUsed-IsChoice (failure e, ps) (h, why, same) = (same, rw why (worst_pos es))

  no_choice : (o : Outcome) → o ≡ (failure enoent, []) → IsChoice P bs o
  no_choice o h = rw h (refl, omega arith)

  IsUsedChoice-IsChoice :
      (cat : Category) (o : Outcome) → IsUsedChoice cat cs es [] o → IsChoice P bs o
  IsUsedChoice-IsChoice Category.create o h = IsLeastUsed-IsChoice o h
  IsUsedChoice-IsChoice Category.action o h = IsLeastUsed-IsChoice o h
  IsUsedChoice-IsChoice Category.search o h = no_choice o h
  IsUsedChoice-IsChoice Category.invalid o h = no_choice o h

module _ (v : View) (path : Str) (n : ℕ) where
  ep_space-Strong :
      (cat : Category) (b : Branch) (m : ℕ)
      → ep_space v cat path n b ≡ take m
      → Strong v cat path n b
  ep_space-Strong Category.create b m h =
      let (i, e) = on_avail-take (ep_create_guard v path n b) m h in
      ep_create_guard-CanCreate v path b i e
  ep_space-Strong Category.action b m h =
      let (i, e) = on_avail-take (ep_action_guard v path b) m h in
      let r = ep_action_guard-CanChange v path b i e in (r.0, r)
  ep_space-Strong Category.search b m h =
      let r = ep_search_avail_guard-HasPath v path b m h in (r, r)
  ep_space-Strong Category.invalid b m h =
      let r = ep_search_avail_guard-HasPath v path b m h in (r, r)

  ep_used-Strong :
      (cat : Category) (b : Branch) (m : ℕ)
      → ep_used v cat path n b ≡ take m
      → Strong v cat path n b
  ep_used-Strong Category.create b m h =
      let (i, e) = on_used-take (ep_create_guard v path n b) m h in
      ep_create_guard-CanCreate v path b i e
  ep_used-Strong Category.action b m h =
      let (i, e) = on_used-take (ep_action_guard v path b) m h in
      let r = ep_action_guard-CanChange v path b i e in (r.0, r)
  ep_used-Strong Category.search b m h = let r = ep_search_used_guard-HasPath v path b m h in (r, r)
  ep_used-Strong Category.invalid b m h =
      let r = ep_search_used_guard-HasPath v path b m h in (r, r)

  space-Allows :
      (cat : Category) (b : Branch) (m : ℕ) → space v cat path n b ≡ take m → Allows v cat path n b
  space-Allows Category.create b m h =
      let (i, e) = on_avail-take (create_guard v n b) m h in create_guard-CanCreate v b i e
  space-Allows Category.action b m h = (ep_space-Strong Category.action b m h).1
  space-Allows Category.search b m h = (ep_space-Strong Category.search b m h).1
  space-Allows Category.invalid b m h = (ep_space-Strong Category.invalid b m h).1

  used-Allows :
      (cat : Category) (b : Branch) (m : ℕ) → used v cat path n b ≡ take m → Allows v cat path n b
  used-Allows Category.create b m h =
      let (i, e) = on_used-take (create_guard v n b) m h in create_guard-CanCreate v b i e
  used-Allows Category.action b m h = (ep_used-Strong Category.action b m h).1
  used-Allows Category.search b m h = (ep_used-Strong Category.search b m h).1
  used-Allows Category.invalid b m h = (ep_used-Strong Category.invalid b m h).1

  module _ (bs : Branches) (cat : Category) where
    pub epmfs-IsChoice : IsChoice (Strong v cat path n) bs (epmfs v cat bs path n [])
    epmfs-IsChoice =
        IsMost-IsChoice _ bs _ _
          (candidates-IsFrom _ (ep_space v cat path n) (ep_space-Strong cat) bs) _
          (epmfs-IsMost v path n bs [] cat)

    pub mfs-IsChoice : IsChoice (Allows v cat path n) bs (mfs v cat bs path n [])
    mfs-IsChoice =
        IsMost-IsChoice _ bs _ _ (candidates-IsFrom _ (space v cat path n) (space-Allows cat) bs) _
          (mfs-IsMost v path n bs [] cat)

    pub eplfs-IsChoice : IsChoice (Strong v cat path n) bs (eplfs v cat bs path n [])
    eplfs-IsChoice =
        IsLeast-IsChoice _ bs _ _
          (candidates-IsFrom _ (ep_space v cat path n) (ep_space-Strong cat) bs) _
          (eplfs-IsLeast v path n bs [] cat)

    pub lfs-IsChoice : IsChoice (Allows v cat path n) bs (lfs v cat bs path n [])
    lfs-IsChoice =
        IsLeast-IsChoice _ bs _ _ (candidates-IsFrom _ (space v cat path n) (space-Allows cat) bs) _
          (lfs-IsLeast v path n bs [] cat)

    pub eplus-IsChoice : IsChoice (Strong v cat path n) bs (eplus v cat bs path n [])
    eplus-IsChoice =
        IsUsedChoice-IsChoice _ bs _ _
          (candidates-IsFrom _ (ep_used v cat path n) (ep_used-Strong cat) bs) cat _
          (eplus-IsLeastUsed v path n bs [] cat)

    pub lus-IsChoice : IsChoice (Allows v cat path n) bs (lus v cat bs path n [])
    lus-IsChoice =
        IsUsedChoice-IsChoice _ bs _ _
          (candidates-IsFrom _ (used v cat path n) (used-Allows cat) bs) cat _
          (lus-IsLeastUsed v path n bs [] cat)
