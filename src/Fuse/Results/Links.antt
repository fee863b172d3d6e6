-- ===== src/Fuse/Results/Links.antt =====
-- link: the answer, from the results of the calls.
use mergerfs.Base.{◌<◌, ℤ, negsuc, neg_of, ◌≡◌, ◌≢◌, refl, ap, List, [], ◌∷◌, Str, false, not, ◌&&◌}
use mergerfs.Branch.{Branch, Branches}
use mergerfs.Os.{Os}
use mergerfs.Os.Laws.{IsLawful}
use mergerfs.Path.{dirname}
use mergerfs.ClonePath.{clonepath_as_root}
use mergerfs.Policy.Types.{Category, Outcome, Rv, success, failure, make}
use mergerfs.Policy.Table.{path_preserving}
use mergerfs.Policy.Spec.Choice.{IsChoice}
use mergerfs.Fuse.Config.{Config, State, run_policy}
use mergerfs.Fuse.Action.{in_world}
use mergerfs.Fuse.Link.{
  link_create_path_core, link_create_path_loop, link_create_path_on, link_create_path, link,
}
use mergerfs.Fuse.Results.Attempts.{attempts, answer, fold_all}
use mergerfs.Fuse.Results.Actions.{run_policy-IsChoice}
use mergerfs.Fuse.Results.Creations.{if_cloned, clone_and, answer-attempts}

module _ (os : Os) (old new : Str) where
  -- The link within one branch.
  abbrev pub link_on : Str → os.World → Rv × os.World
  link_on base w = os.link (make base old) (make base new) w

  -- If one of the two policies fails, its `errno` is returned and nothing is done. Otherwise the
  -- parent of the new path is cloned from the first path of the search to each path of the action,
  -- the link is made there, and the answer is that of the attempts.
  abbrev pub IsLinked : Outcome → Outcome → os.World → ℤ × os.World → Type 0
  IsLinked (failure e, ps) o w r = (r ≡ (neg_of e, w)) × (0 < e)
  IsLinked (success, ps) (failure e, qs) w r = (r ≡ (neg_of e, w)) × (0 < e)
  IsLinked (success, ps) (success, []) w r = ⊥
  IsLinked (success, ps) (success, q ∷ qs) w r =
      (ps ≢ [])
      × (r ≡ (
        answer (attempts (clone_and os q (dirname new) link_on) ps w).0,
        (attempts (clone_and os q (dirname new) link_on) ps w).1,
      ))

  link_core-attempt :
      (p : Str) (error : ℤ) (x : Rv × os.World)
      → link_create_path_core os p old new error x
        ≡ (let y = if_cloned os (link_on p) x in (fold_all error (y.0 ∷ []), y.1))
  unfolding link_create_path_core fold_all
  link_core-attempt p error (failure e, w) = refl
  link_core-attempt p error (success, w) = refl

  link_loop-attempts :
      (q dir : Str) (ps : List Str) (error : ℤ) (w : os.World)
      → let x = attempts (clone_and os q dir link_on) ps w in
        link_create_path_loop os ps q old new dir error w ≡ (fold_all error x.0, x.1)
  unfolding link_create_path_loop attempts fold_all
  link_loop-attempts q dir [] error w = refl
  link_loop-attempts q dir (p ∷ ps) error w =
      rw (link_core-attempt p error (clonepath_as_root os q p dir w))
        (link_loop-attempts q dir ps _ _)

  module _ (l : IsLawful os) where
    link_create_path_on-IsLinked :
        (P Q : Branch → Type 0) (bs : Branches) (acted found : Outcome) (w : os.World)
        → IsChoice P bs acted
        → IsChoice Q bs found
        → IsLinked acted found w (link_create_path_on os old new acted found w)
    unfolding link_create_path_on
    link_create_path_on-IsLinked P Q bs (failure e, ps) o w h k = (refl, h.1)
    link_create_path_on-IsLinked P Q bs (success, ps) (failure e, qs) w h k = (refl, k.1)
    link_create_path_on-IsLinked P Q bs (success, ps) (success, []) w h k = k.0 refl
    link_create_path_on-IsLinked P Q bs (success, ps) (success, q ∷ qs) w h k = (
      h.0,
      rw (link_loop-attempts q (dirname new) ps (negsuc 0) w) (
          ap (λ (a : ℤ). (a, (attempts (clone_and os q (dirname new) link_on) ps w).1))
            (answer-attempts os (dirname new) link_on l
              (λ p u. l.link_errno (make p old) (make p new) u) q ps w h.0)),
    )

    -- link, if it does not preserve paths: the branches come from the action of the
    -- create policy, not of the link policy, and the parent's source from a search by the link policy. If
    -- one of the two fails, the negated `errno` is returned, and the world is as before. Otherwise the
    -- parent of the new path is cloned to each of the branches, of which there is at least one, and the
    -- link is made there if the clone succeeded. The answer is 0 if some branch got through both, and the
    -- negated `errno` of the last failure if none did. `IsLawful` is assumed of the operating system.
    pub link-IsLinked :
        (cfg : Config) (s : State os)
        → (path_preserving cfg.create && not cfg.ignorepponrename) ≡ false
        → IsLinked
            (run_policy os Category.action cfg.create cfg old [] s.world)
            (run_policy os Category.search cfg.link cfg (dirname new) [] s.world)
            s.world
            (let r = link os cfg old new s in (r.0, r.1.world))
    unfolding link in_world link_create_path
    link-IsLinked cfg s h = rw h (
        link_create_path_on-IsLinked _ _ cfg.branches _ _ s.world
          (run_policy-IsChoice os l Category.action cfg.create cfg old s.world)
          (run_policy-IsChoice os l Category.search cfg.link cfg (dirname new) s.world))
