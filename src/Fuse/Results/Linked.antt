-- ===== src/Fuse/Results/Linked.antt =====
-- link, when it preserves paths: the answer, from the results of the tries.
use mergerfs.Base.{
  ◌<◌, ◌==◌, ℤ, negsuc, neg_of, not, ◌&&◌, ◌≡◌, ◌≢◌, refl, ap, true, Bool-cases, List, [], ◌∷◌, Str,
  str_eq, inl, inr, arith, subst, if◌then◌else◌,
}
use mergerfs.Errno.{enoent, exdev}
use mergerfs.Branch.{Branch}
use mergerfs.Os.{Os, SetsErrno}
use mergerfs.Os.Laws.{IsLawful}
use mergerfs.Path.{dirname}
use mergerfs.ClonePath.{clonepath_as_root}
use mergerfs.ClonePath.Errors.{clonepath_as_root-SetsErrno}
use mergerfs.Policy.Types.{Category, Outcome, Rv, success, failure, make}
use mergerfs.Policy.Table.{path_preserving}
use mergerfs.Policy.Spec.Choice.{IsChoice}
use mergerfs.Policy.Spec.Failing.{search-SetsErrno}
use mergerfs.Fuse.Config.{Config, State, run_policy}
use mergerfs.Fuse.Action.{in_world}
use mergerfs.Fuse.Link.{
  clone_found, clone_if_created, clonepath_if_would_create, retry_link, link_or_clone,
  link_preserve_path_core, link_preserve_path_loop, link_preserve_path_on, link_preserve_path, link,
}
use mergerfs.Fuse.Results.Attempts.{
  attempts, attempts-nonempty, attempts-SetsErrno, answer, fold_all, fold_all-answer,
}
use mergerfs.Fuse.Results.Actions.{run_policy-IsChoice}

module _ (os : Os) (l : IsLawful os) (cfg : Config) where
  clone_found-SetsErrno :
      (o : Outcome) (base dir : Str) (w : os.World)
      → SetsErrno o.0
      → SetsErrno (clone_found os o base dir w).0
  unfolding clone_found
  clone_found-SetsErrno (failure e, ps) base dir w h = h
  clone_found-SetsErrno (success, []) base dir w h = tt
  clone_found-SetsErrno (success, p ∷ ps) base dir w h =
      clonepath_as_root-SetsErrno os l p base dir w

  clone_if_created-SetsErrno :
      (P : Branch → Type 0) (o : Outcome) (base dir : Str) (w : os.World)
      → IsChoice P cfg.branches o
      → SetsErrno (clone_if_created os cfg o base dir w).0
  unfolding clone_if_created run_policy
  clone_if_created-SetsErrno P (failure e, ps) base dir w h = h.1
  clone_if_created-SetsErrno P (success, []) base dir w h = tt
  clone_if_created-SetsErrno P (success, p ∷ ps) base dir w h = elim (Bool-cases (str_eq base p)) [
    | inl same ↦ rw same (
        clone_found-SetsErrno _ base dir w (
          search-SetsErrno (os.random_shuffle w) (os.view w) cfg.branches dir cfg.minfreespace
            (p ∷ ps) cfg.getattr))
    | inr other ↦ rw other (omega arith)
  ]

  retry_link-SetsErrno :
      (p q : Str) (x : Rv × os.World) → SetsErrno x.0 → SetsErrno (retry_link os p q x).0
  unfolding retry_link
  retry_link-SetsErrno p q (failure e, w) h = h
  retry_link-SetsErrno p q (success, w) h = l.link_errno p q w

  link_or_clone-SetsErrno :
      (base new p q : Str) (x : Rv × os.World)
      → SetsErrno x.0
      → SetsErrno (link_or_clone os cfg base new p q x).0
  unfolding link_or_clone clonepath_if_would_create
  link_or_clone-SetsErrno base new p q (success, w) h = tt
  link_or_clone-SetsErrno base new p q (failure e, w) h = elim (Bool-cases (e == enoent)) [
    | inl missing ↦ rw missing (
        retry_link-SetsErrno p q (clonepath_if_would_create os cfg base new w) (
          clone_if_created-SetsErrno _ _ base (dirname new) w
            (run_policy-IsChoice os l Category.create cfg.create cfg (dirname new) w)))
    | inr other ↦ rw other h
  ]

module _ (os : Os) (cfg : Config) (old new : Str) where
  abbrev pub link_on : Str → os.World → Rv × os.World
  link_on base w = os.link (make base old) (make base new) w

  abbrev pub link_after : Str → Rv × os.World → Rv × os.World
  link_after base (failure e, w) = (failure e, w)
  link_after base (success, w) = link_on base w

  -- The second attempt, when the search for the new parent has given its outcome: the parent is cloned
  -- from the first path, and the link is made if that succeeds.
  abbrev pub clone_and_link : Outcome → Str → os.World → Rv × os.World
  clone_and_link (failure e, qs) base w = (failure e, w)
  clone_and_link (success, []) base w = link_on base w
  clone_and_link (success, q ∷ qs) base w =
      link_after base (clonepath_as_root os q base (dirname new) w)

  -- The second attempt, when the create policy has given its outcome for the new parent: another branch
  -- than this one is EXDEV. The search adds to the paths of the create policy.
  abbrev pub link_again : Outcome → Str → os.World → Rv × os.World
  link_again (failure e, ps) base w = (failure e, w)
  link_again (success, []) base w = link_on base w
  link_again (success, p ∷ ps) base w =
      if str_eq base p
      then clone_and_link (run_policy os Category.search cfg.getattr cfg (dirname new) (p ∷ ps) w)
          base w
      else (failure exdev, w)

  -- After the first attempt: there is a second one only after ENOENT.
  abbrev pub link_twice : Str → Rv × os.World → Rv × os.World
  link_twice base (success, w) = (success, w)
  link_twice base (failure e, w) =
      if e == enoent
      then link_again (run_policy os Category.create cfg.create cfg (dirname new) [] w) base w
      else (failure e, w)

  -- What is done for one branch.
  abbrev pub try_link : Str → os.World → Rv × os.World
  try_link base w = link_twice base (link_on base w)

  retry_link-after :
      (base : Str) (x : Rv × os.World)
      → retry_link os (make base old) (make base new) x ≡ link_after base x
  unfolding retry_link
  retry_link-after base (failure e, w) = refl
  retry_link-after base (success, w) = refl

  clone_found-link :
      (o : Outcome) (base : Str) (w : os.World)
      → retry_link os (make base old) (make base new) (clone_found os o base (dirname new) w)
        ≡ clone_and_link o base w
  unfolding clone_found
  clone_found-link (failure e, qs) base w = retry_link-after base (failure e, w)
  clone_found-link (success, []) base w = retry_link-after base (success, w)
  clone_found-link (success, q ∷ qs) base w =
      retry_link-after base (clonepath_as_root os q base (dirname new) w)

  clone_if_created-link :
      (o : Outcome) (base : Str) (w : os.World)
      → retry_link os
          (make base old)
          (make base new)
          (clone_if_created os cfg o base (dirname new) w)
        ≡ link_again o base w
  unfolding clone_if_created
  clone_if_created-link (failure e, ps) base w = retry_link-after base (failure e, w)
  clone_if_created-link (success, []) base w = retry_link-after base (success, w)
  clone_if_created-link (success, p ∷ ps) base w = elim (Bool-cases (str_eq base p)) [
    | inl same ↦ rw same (clone_found-link _ base w)
    | inr other ↦ rw other (retry_link-after base (failure exdev, w))
  ]

  link_or_clone-twice :
      (base : Str) (x : Rv × os.World)
      → link_or_clone os cfg base new (make base old) (make base new) x ≡ link_twice base x
  unfolding link_or_clone clonepath_if_would_create
  link_or_clone-twice base (success, w) = refl
  link_or_clone-twice base (failure e, w) = elim (Bool-cases (e == enoent)) [
    | inl missing ↦ rw missing (clone_if_created-link _ base w)
    | inr other ↦ rw other refl
  ]

  -- If the policy fails, its `errno` is returned and nothing is done. Otherwise the link is tried on
  -- each path that the policy gave, and the answer is that of the tries.
  abbrev pub IsTried : Outcome → os.World → ℤ × os.World → Type 0
  IsTried (failure e, ps) w r = (r ≡ (neg_of e, w)) × (0 < e)
  IsTried (success, ps) w r =
      (ps ≢ []) × (r ≡ (answer (attempts try_link ps w).0, (attempts try_link ps w).1))

  loop-tries :
      (ps : List Str) (error : ℤ) (w : os.World)
      → link_preserve_path_loop os cfg old new ps error w
        ≡ (fold_all error (attempts try_link ps w).0, (attempts try_link ps w).1)
  unfolding link_preserve_path_loop link_preserve_path_core attempts fold_all
  loop-tries [] error w = refl
  loop-tries (p ∷ ps) error w =
      rw (link_or_clone-twice p (link_on p w)) (loop-tries ps _ (try_link p w).1)

  module _ (l : IsLawful os) where
    try_link-SetsErrno : (p : Str) (w : os.World) → SetsErrno (try_link p w).0
    try_link-SetsErrno p w =
        subst (λ (x : Rv × os.World). SetsErrno x.0) (link_or_clone-twice p (link_on p w))
          (link_or_clone-SetsErrno os l cfg p new (make p old) (make p new) (link_on p w)
            (l.link_errno (make p old) (make p new) w))

    link_preserve_path_on-IsTried :
        (P : Branch → Type 0) (o : Outcome) (w : os.World)
        → IsChoice P cfg.branches o
        → IsTried o w (link_preserve_path_on os cfg old new o w)
    unfolding link_preserve_path_on
    link_preserve_path_on-IsTried P (failure e, ps) w h = (refl, h.1)
    link_preserve_path_on-IsTried P (success, ps) w h = (
      h.0,
      rw (loop-tries ps (negsuc 0) w) (
          ap (λ (a : ℤ). (a, (attempts try_link ps w).1))
            (fold_all-answer _ (attempts-nonempty try_link ps w h.0)
              (attempts-SetsErrno try_link ps w (λ p u. try_link-SetsErrno p u)))),
    )

    -- link, if it preserves paths: if the link policy fails, the negated `errno` is returned, and the
    -- world is as before. Otherwise, on each path that the policy gave, of which there is at least
    -- one, the link is tried (`try_link`), and, where it fails with ENOENT and not otherwise, tried again
    -- if the create policy gives this branch for the new parent and the parent was cloned from the
    -- first path that the search has then; an error of these steps, EXDEV for another branch, takes
    -- the place of ENOENT. The answer is 0 if some branch was linked, and the
    -- negated `errno` of the last failure if none was. `IsLawful` is assumed of the operating system.
    pub link-IsTried :
        (s : State os)
        → (path_preserving cfg.create && not cfg.ignorepponrename) ≡ true
        → IsTried
            (run_policy os Category.action cfg.link cfg old [] s.world)
            s.world
            (let r = link os cfg old new s in (r.0, r.1.world))
    unfolding link in_world link_preserve_path
    link-IsTried s h = rw h (
        link_preserve_path_on-IsTried _ _ s.world
          (run_policy-IsChoice os l Category.action cfg.link cfg old s.world))
