-- ===== src/Fuse/Results/Actions.antt =====
-- unlink and its like: the answer, from the results of the calls.
use mergerfs.Base.{◌<◌, ℤ, negsuc, neg_of, ◌≡◌, ◌≢◌, refl, ap, List, [], ◌∷◌, Str}
use mergerfs.Branch.{Branch, Branches}
use mergerfs.Os.{Os, SetsErrno}
use mergerfs.Os.Laws.{IsLawful}
use mergerfs.Policy.Types.{Category, Outcome, Rv, success, failure, make}
use mergerfs.Policy.Kind.{Kind}
use mergerfs.Policy.Spec.Choice.{IsChoice}
use mergerfs.Policy.Spec.Allowed.{Allows}
use mergerfs.Policy.Spec.Contract.{func-IsChoice}
use mergerfs.Fuse.Config.{Config, run_policy}
use mergerfs.Fuse.Action.{loop, on_paths, action}
use mergerfs.Fuse.Results.Attempts.{
  attempts, attempts-nonempty, attempts-SetsErrno, answer, fold_all, fold_all-answer,
}

module _ (os : Os) where
  -- Every policy, called by a handler, keeps its contract.
  pub run_policy-IsChoice :
      IsLawful os
      → (cat : Category) (k : Kind) (cfg : Config) (path : Str) (w : os.World)
      → IsChoice
          (Allows (os.view w) cat path cfg.minfreespace)
          cfg.branches
          (run_policy os cat k cfg path [] w)
  unfolding run_policy
  run_policy-IsChoice l cat k cfg path w =
      func-IsChoice (os.random_shuffle w) (l.permutes w) (os.view w) cat cfg.branches path
        cfg.minfreespace k

  module _ (op : Str → os.World → Rv × os.World) (path : Str) where
    -- The call of the handler on one branch.
    abbrev pub on_branch : Str → os.World → Rv × os.World
    on_branch base w = op (make base path) w

    loop-attempts :
        (ps : List Str) (error : ℤ) (w : os.World)
        → loop os op path ps error w
          ≡ (fold_all error (attempts on_branch ps w).0, (attempts on_branch ps w).1)
    unfolding loop attempts fold_all
    loop-attempts [] error w = refl
    loop-attempts (p ∷ ps) error w = loop-attempts ps _ (op (make p path) w).1

  -- If the policy fails, its `errno` is returned and nothing is done. Otherwise the call is done on
  -- each path that it gives, and the answer is that of the attempts.
  abbrev pub IsActed :
      (Str → os.World → Rv × os.World) → Str → Outcome → os.World → ℤ × os.World → Type 0
  IsActed op path (failure e, ps) w r = (r ≡ (neg_of e, w)) × (0 < e)
  IsActed op path (success, ps) w r =
      (ps ≢ [])
      × (r ≡ (answer (attempts (on_branch op path) ps w).0, (attempts (on_branch op path) ps w).1))

  module _ (op : Str → os.World → Rv × os.World)
      (errs : (p : Str) (w : os.World) → SetsErrno (op p w).0) where
    on_paths-IsActed :
        (P : Branch → Type 0) (bs : Branches) (path : Str) (o : Outcome) (w : os.World)
        → IsChoice P bs o
        → IsActed op path o w (on_paths os op path o w)
    unfolding on_paths
    on_paths-IsActed P bs path (failure e, ps) w h = (refl, h.1)
    on_paths-IsActed P bs path (success, ps) w h = (
      h.0,
      rw (loop-attempts op path ps (negsuc 0) w) (
          ap (λ (a : ℤ). (a, (attempts (on_branch op path) ps w).1))
            (fold_all-answer _ (attempts-nonempty (on_branch op path) ps w h.0)
              (attempts-SetsErrno (on_branch op path) ps w (λ p u. errs (make p path) u)))),
    )

    -- A handler that acts on every branch of its policy (`l::chmod` and its like), for any policy and any
    -- call that sets a positive `errno` when it fails: if the policy fails, the negated `errno` is
    -- returned, and the world is as before. Otherwise the call is made on each path that the policy gave,
    -- of which there is at least one, in order, and the answer is 0 if some call succeeded, and the
    -- negated `errno` of the last call if none did. `IsLawful` is assumed of the operating system.
    pub action-IsActed :
        IsLawful os
        → (k : Kind) (cfg : Config) (path : Str) (w : os.World)
        → IsActed op path
            (run_policy os Category.action k cfg path [] w)
            w
            (action os op k cfg path w)
    unfolding action
    action-IsActed l k cfg path w =
        on_paths-IsActed _ cfg.branches path _ w
          (run_policy-IsChoice l Category.action k cfg path w)
