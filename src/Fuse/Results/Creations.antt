-- ===== src/Fuse/Results/Creations.antt =====
-- mkdir, mknod, symlink and link: the answer, from the results of the calls.
use mergerfs.Base.{◌<◌, ℤ, negsuc, neg_ℤ, neg_of, ◌≡◌, ◌≢◌, refl, ap, List, [], ◌∷◌, Str}
use mergerfs.Branch.{Branch, Branches}
use mergerfs.Os.{Os, SetsErrno}
use mergerfs.Os.Laws.{IsLawful}
use mergerfs.Path.{dirname}
use mergerfs.ClonePath.{clonepath_as_root}
use mergerfs.ClonePath.Errors.{clonepath_as_root-SetsErrno}
use mergerfs.Policy.Types.{Category, Outcome, Rv, success, failure, make}
use mergerfs.Policy.Kind.{Kind}
use mergerfs.Policy.Spec.Choice.{IsChoice}
use mergerfs.Fuse.Config.{Config, run_policy}
use mergerfs.Fuse.Create.{after_clone, create_loop, on_created, make_node}
use mergerfs.Fuse.Results.Attempts.{
  attempts, attempts-nonempty, attempts-SetsErrno, answer, fold_all, fold_all-answer,
}
use mergerfs.Fuse.Results.Actions.{run_policy-IsChoice}

module _ (os : Os) where
  -- A call that is made only if the clone of the parent's path has succeeded.
  abbrev pub if_cloned : (os.World → Rv × os.World) → Rv × os.World → Rv × os.World
  if_cloned call (failure e, w) = (failure e, w)
  if_cloned call (success, w) = call w

  if_cloned-SetsErrno :
      (call : os.World → Rv × os.World) (x : Rv × os.World)
      → ((w : os.World) → SetsErrno (call w).0)
      → SetsErrno x.0
      → SetsErrno (if_cloned call x).0
  if_cloned-SetsErrno call (failure e, w) hc h = h
  if_cloned-SetsErrno call (success, w) hc h = hc w

  -- What is done for one branch: the directory `dir` is cloned from `existing`, then comes the call.
  abbrev pub clone_and :
      Str → Str → (Str → os.World → Rv × os.World) → Str → os.World → Rv × os.World
  clone_and existing dir call base w =
      if_cloned (call base) (clonepath_as_root os existing base dir w)

  -- If one of the two policies fails, its `errno` is returned and nothing is done. Otherwise the
  -- parent is cloned from the first path of the search to each path of the other policy, the call
  -- is done there, and the answer is that of the attempts.
  abbrev pub IsCloned :
      Str → (Str → os.World → Rv × os.World) → Outcome → Outcome → os.World → ℤ × os.World → Type 0
  IsCloned dir call (failure e, qs) o w r = (r ≡ (neg_of e, w)) × (0 < e)
  IsCloned dir call (success, []) o w r = ⊥
  IsCloned dir call (success, q ∷ qs) (failure e, ps) w r = (r ≡ (neg_of e, w)) × (0 < e)
  IsCloned dir call (success, q ∷ qs) (success, ps) w r =
      (ps ≢ [])
      × (r ≡ (
        answer (attempts (clone_and q dir call) ps w).0,
        (attempts (clone_and q dir call) ps w).1,
      ))

  module _ (dir : Str) (call : Str → os.World → Rv × os.World) (l : IsLawful os)
      (errs : (p : Str) (w : os.World) → SetsErrno (call p w).0) where
    pub clone_and-SetsErrno : (q p : Str) (w : os.World) → SetsErrno (clone_and q dir call p w).0
    clone_and-SetsErrno q p w =
        if_cloned-SetsErrno (call p) (clonepath_as_root os q p dir w) (errs p)
          (clonepath_as_root-SetsErrno os l q p dir w)

    -- The answer of a loop that folds the results of the attempts.
    pub answer-attempts :
        (q : Str) (ps : List Str) (w : os.World)
        → ps ≢ []
        → neg_ℤ (fold_all (negsuc 0) (attempts (clone_and q dir call) ps w).0)
          ≡ answer (attempts (clone_and q dir call) ps w).0
    answer-attempts q ps w h =
        fold_all-answer _ (attempts-nonempty (clone_and q dir call) ps w h)
          (attempts-SetsErrno (clone_and q dir call) ps w (clone_and-SetsErrno q))

  module _ (op : Str → os.World → Rv × os.World) (path : Str) where
    after_clone-attempt :
        (p : Str) (error : ℤ) (x : Rv × os.World)
        → after_clone os op path p error x
          ≡ (let y = if_cloned (op (make p path)) x in (fold_all error (y.0 ∷ []), y.1))
    unfolding after_clone fold_all
    after_clone-attempt p error (failure e, w) = refl
    after_clone-attempt p error (success, w) = refl

    create_loop-attempts :
        (q dir : Str) (ps : List Str) (error : ℤ) (w : os.World)
        → let x = attempts (clone_and q dir (λ p. op (make p path))) ps w in
          create_loop os op q path dir ps error w ≡ (fold_all error x.0, x.1)
    unfolding create_loop attempts fold_all
    create_loop-attempts q dir [] error w = refl
    create_loop-attempts q dir (p ∷ ps) error w =
        rw (after_clone-attempt p error (clonepath_as_root os q p dir w))
          (create_loop-attempts q dir ps _ _)

  module _ (op : Str → os.World → Rv × os.World) (l : IsLawful os)
      (errs : (p : Str) (w : os.World) → SetsErrno (op p w).0) where
    on_created-IsCloned :
        (P Q : Branch → Type 0) (bs : Branches) (path dir : Str) (found created : Outcome)
        (w : os.World)
        → IsChoice P bs found
        → IsChoice Q bs created
        → IsCloned dir
            (λ p. op (make p path))
            found
            created
            w
            (on_created os op path dir found created w)
    unfolding on_created
    on_created-IsCloned P Q bs path dir (failure e, qs) o w h k = (refl, h.1)
    on_created-IsCloned P Q bs path dir (success, []) o w h k = h.0 refl
    on_created-IsCloned P Q bs path dir (success, q ∷ qs) (failure e, ps) w h k = (refl, k.1)
    on_created-IsCloned P Q bs path dir (success, q ∷ qs) (success, ps) w h k = (
      k.0,
      rw (create_loop-attempts op path q dir ps (negsuc 0) w) (
          ap (λ (a : ℤ). (a, (attempts (clone_and q dir (λ p. op (make p path))) ps w).1))
            (answer-attempts dir (λ p. op (make p path)) l (λ p u. errs (make p path) u) q ps w
              k.0)),
    )

    -- mkdir, mknod and symlink (`l::mkdir` and its like), for any create policy and any call that sets a
    -- positive `errno` when it fails: if the search for the parent or the create policy fails, the negated
    -- `errno` is returned, and the world is as before. Otherwise, for each path of the create policy, of
    -- which there is at least one, the parent is cloned from the first path of the search, and the call is
    -- made there only if the clone succeeded. The answer is 0 if some branch got through both, and the
    -- negated `errno` of the last failure if none did. `IsLawful` is assumed of the operating system.
    pub make_node-IsCloned :
        (k : Kind) (cfg : Config) (path : Str) (w : os.World)
        → IsCloned
            (dirname path)
            (λ p. op (make p path))
            (run_policy os Category.search cfg.getattr cfg (dirname path) [] w)
            (run_policy os Category.create k cfg (dirname path) [] w)
            w
            (make_node os op k cfg path w)
    unfolding make_node
    make_node-IsCloned k cfg path w =
        on_created-IsCloned _ _ cfg.branches path (dirname path) _ _ w
          (run_policy-IsChoice os l Category.search cfg.getattr cfg (dirname path) w)
          (run_policy-IsChoice os l Category.create k cfg (dirname path) w)
