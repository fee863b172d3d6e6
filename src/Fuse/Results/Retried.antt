-- ===== src/Fuse/Results/Retried.antt =====
-- src/fuse_rename.cpp: what is done for one branch when rename preserves paths, in system calls.
use mergerfs.Base.{
  ◌<◌, ℤ, pos, negsuc, neg_of, ◌≡◌, refl, false, [], ◌∷◌, Str, ℕ, str_eq, ◌==◌, eqb_ℤ, arith,
  Bool-cases, inl, inr, if◌then◌else◌, zero, suc, subst,
}
use mergerfs.Errno.{enoent, exdev}
use mergerfs.Branch.{Branch, Branches}
use mergerfs.Os.{Os, SetsErrno, rv_of, errno_of}
use mergerfs.ClonePath.{clonepath_as_root}
use mergerfs.Os.Laws.{IsLawful}
use mergerfs.Path.{dirname}
use mergerfs.Policy.Types.{Category, Outcome, Rv, success, failure, make}
use mergerfs.Policy.Spec.Choice.{IsChoice}
use mergerfs.Fuse.Config.{Config, run_policy}
use mergerfs.Fuse.Rename.{
  Status, status, clone_from, clone_if_created, clonepath_if_would_create, retry_rename,
  rename_or_clone,
}
use mergerfs.Fuse.Results.Actions.{run_policy-IsChoice}

negsuc-eqb_ℤ : (n : ℕ) → eqb_ℤ (negsuc n) (pos 0) ≡ false
negsuc-eqb_ℤ n = ground arith

-- A status as a result: only -1 is a failure.
abbrev pub rv_of_status : Status → Rv
rv_of_status st = if eqb_ℤ st.rv (negsuc 0) then failure st.errno else success

module _ (os : Os) (cfg : Config) (old new : Str) where
  abbrev pub rename_on : Str → os.World → Status × os.World
  rename_on base w =
      let (r, w') = os.rename (make base old) (make base new) w in
      (record { rv = rv_of r; errno = errno_of r }, w')

  -- The second attempt, when the search for the new parent has given its outcome: the parent is cloned
  -- from the first path, and the rename is made whatever came of that. The status of a search that
  -- fails is `-errno` and not -1.
  abbrev pub clone_and_rename : Outcome → Str → os.World → Status × os.World
  clone_and_rename (failure e, qs) base w = (record { rv = neg_of e; errno = e }, w)
  clone_and_rename (success, []) base w = rename_on base w
  clone_and_rename (success, q ∷ qs) base w =
      rename_on base (clonepath_as_root os q base (dirname new) w).1

  -- The second attempt, when the create policy has given its outcome for the new parent: another branch
  -- than this one is EXDEV.
  abbrev pub rename_again : Outcome → Outcome → Str → os.World → Status × os.World
  rename_again (failure e, ps) found base w = (record { rv = negsuc 0; errno = e }, w)
  rename_again (success, []) found base w = rename_on base w
  rename_again (success, p ∷ ps) found base w =
      if str_eq base p
      then clone_and_rename found base w
      else (record { rv = negsuc 0; errno = exdev }, w)

  -- After the first attempt: there is a second one only after ENOENT.
  abbrev pub rename_twice : Str → Rv × os.World → Status × os.World
  rename_twice base (success, w) = (record { rv = pos 0; errno = 0 }, w)
  rename_twice base (failure e, w) =
      if e == enoent
      then rename_again (run_policy os Category.create cfg.create cfg (dirname new) [] w)
          (run_policy os Category.search cfg.getattr cfg (dirname new) [] w) base w
      else (record { rv = negsuc 0; errno = e }, w)

  -- What is done for one branch.
  abbrev pub try_on : Str → os.World → Status × os.World
  try_on base w = rename_twice base (os.rename (make base old) (make base new) w)

  retry_rename-zero :
      (base : Str) (w : os.World)
      → retry_rename os (make base old) (make base new) (record { rv = pos 0; errno = 0 }, w)
        ≡ rename_on base w
  unfolding retry_rename status
  retry_rename-zero base w = refl

  retry_rename-negsuc :
      (base : Str) (n e : ℕ) (w : os.World)
      → retry_rename os (make base old) (make base new) (record { rv = negsuc n; errno = e }, w)
        ≡ (record { rv = negsuc n; errno = e }, w)
  unfolding retry_rename
  retry_rename-negsuc base n e w = rw (negsuc-eqb_ℤ n) refl

  retry_rename-neg_of :
      (base : Str) (e : ℕ) (w : os.World)
      → 0 < e
      → retry_rename os (make base old) (make base new) (record { rv = neg_of e; errno = e }, w)
        ≡ (record { rv = neg_of e; errno = e }, w)
  retry_rename-neg_of base zero w h = absurd (omega arith)
  retry_rename-neg_of base (suc e) w h = retry_rename-negsuc base e (suc e) w

  module _ (Q : Branch → Type 0) where
    clone_from-rename :
        (o : Outcome) (base : Str) (w : os.World)
        → IsChoice Q cfg.branches o
        → retry_rename os (make base old) (make base new) (clone_from os o base (dirname new) w)
          ≡ clone_and_rename o base w
    unfolding clone_from
    clone_from-rename (failure e, qs) base w h = retry_rename-neg_of base e w h.1
    clone_from-rename (success, []) base w h = retry_rename-zero base w
    clone_from-rename (success, q ∷ qs) base w h = retry_rename-zero base _

    clone_if_created-rename :
        (created found : Outcome) (base : Str) (w : os.World)
        → IsChoice Q cfg.branches found
        → retry_rename os
            (make base old)
            (make base new)
            (clone_if_created os created found base (dirname new) w)
          ≡ rename_again created found base w
    unfolding clone_if_created
    clone_if_created-rename (failure e, ps) found base w h = retry_rename-negsuc base 0 e w
    clone_if_created-rename (success, []) found base w h = retry_rename-zero base w
    clone_if_created-rename (success, p ∷ ps) found base w h = elim (Bool-cases (str_eq base p)) [
      | inl same ↦ rw same (clone_from-rename found base w h)
      | inr other ↦ rw other (retry_rename-negsuc base 0 exdev w)
    ]

  pub rename_or_clone-twice :
      (l : IsLawful os) (base : Str) (x : Rv × os.World)
      → rename_or_clone os cfg base new (make base old) (make base new) x ≡ rename_twice base x
  unfolding rename_or_clone clonepath_if_would_create status
  rename_or_clone-twice l base (success, w) = refl
  rename_or_clone-twice l base (failure e, w) = elim (Bool-cases (e == enoent)) [
    | inl missing ↦ rw missing (
        clone_if_created-rename _ _ _ base w
          (run_policy-IsChoice os l Category.search cfg.getattr cfg (dirname new) w))
    | inr other ↦ rw other refl
  ]

-- A status of -1 comes with an `errno`.
abbrev pub HasErrno : Status → Type 0
HasErrno st = SetsErrno (rv_of_status st)

status-HasErrno : (r : Rv) → SetsErrno r → HasErrno (status r)
unfolding status
status-HasErrno success h = tt
status-HasErrno (failure e) h = h

errno-HasErrno : (a : ℤ) (e : ℕ) → 0 < e → HasErrno (record { rv = a; errno = e })
errno-HasErrno a e h = ground arith

module _ (os : Os) (cfg : Config) (P Q : Branch → Type 0) (bs : Branches) where
  clone_from-HasErrno :
      (o : Outcome) (base dir : Str) (w : os.World)
      → IsChoice P bs o
      → HasErrno (clone_from os o base dir w).0
  unfolding clone_from
  clone_from-HasErrno (failure e, ps) base dir w h = errno-HasErrno (neg_of e) e h.1
  clone_from-HasErrno (success, []) base dir w h = tt
  clone_from-HasErrno (success, p ∷ ps) base dir w h = tt

  clone_if_created-HasErrno :
      (created found : Outcome) (base dir : Str) (w : os.World)
      → IsChoice Q bs created
      → IsChoice P bs found
      → HasErrno (clone_if_created os created found base dir w).0
  unfolding clone_if_created
  clone_if_created-HasErrno (failure e, ps) found base dir w h k = errno-HasErrno (negsuc 0) e h.1
  clone_if_created-HasErrno (success, []) found base dir w h k = tt
  clone_if_created-HasErrno (success, p ∷ ps) found base dir w h k =
      elim (Bool-cases (str_eq base p)) [
        | inl same ↦ rw same (clone_from-HasErrno found base dir w k)
        | inr other ↦ rw other (errno-HasErrno (negsuc 0) exdev (omega arith))
      ]

module _ (os : Os) (l : IsLawful os) (cfg : Config) where
  retry_rename-HasErrno :
      (p q : Str) (x : Status × os.World) → HasErrno x.0 → HasErrno (retry_rename os p q x).0
  unfolding retry_rename
  retry_rename-HasErrno p q (st, w) h = elim (Bool-cases (eqb_ℤ st.rv (pos 0))) [
    | inl e ↦ rw e (status-HasErrno _ (l.rename_errno p q w))
    | inr e ↦ rw e h
  ]

  rename_or_clone-HasErrno :
      (base new p q : Str) (x : Rv × os.World)
      → SetsErrno x.0
      → HasErrno (rename_or_clone os cfg base new p q x).0
  unfolding rename_or_clone clonepath_if_would_create
  rename_or_clone-HasErrno base new p q (success, w) h = status-HasErrno success tt
  rename_or_clone-HasErrno base new p q (failure e, w) h = elim (Bool-cases (e == enoent)) [
    | inl missing ↦ rw missing (
        retry_rename-HasErrno p q (clonepath_if_would_create os cfg base new w) (
          clone_if_created-HasErrno os cfg _ _ cfg.branches _ _ base (dirname new) w
            (run_policy-IsChoice os l Category.create cfg.create cfg (dirname new) w)
            (run_policy-IsChoice os l Category.search cfg.getattr cfg (dirname new) w)))
    | inr other ↦ rw other (status-HasErrno (failure e) h)
  ]

module _ (os : Os) (cfg : Config) (old new : Str) (l : IsLawful os) where
  pub try_on-HasErrno : (p : Str) (w : os.World) → HasErrno (try_on os cfg old new p w).0
  try_on-HasErrno p w =
      let x = os.rename (make p old) (make p new) w in
      subst (λ (y : Status × os.World). HasErrno y.0) (rename_or_clone-twice os cfg old new l p x)
        (rename_or_clone-HasErrno os l cfg p new (make p old) (make p new) x
          (l.rename_errno (make p old) (make p new) w))
