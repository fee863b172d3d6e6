-- ===== src/Fuse/Results/Idle.antt =====
-- link, when it preserves paths: the vector that the create policy has filled is handed to the search.
use mergerfs.Base.{
  ◌≡◌, ◌≢◌, refl, true, Bool-cases, List, [], ◌∷◌, Str, str_eq, str_eq_iff, str_eq_refl, inl, inr,
  sym,
}
use mergerfs.Os.{Os}
use mergerfs.Path.{dirname}
use mergerfs.ClonePath.{clonepath_as_root}
use mergerfs.Policy.Types.{Outcome, success, failure}
use mergerfs.Policy.Kind.{Kind}
use mergerfs.Policy.Spec.Appends.{Appends, search-Appends}
use mergerfs.Fuse.Config.{Config, run_policy}
use mergerfs.Fuse.Link.{clone_found, clone_if_created, clonepath_if_would_create}

module _ (os : Os) (cfg : Config) (steady : cfg.getattr ≢ Kind.rand)
    (settled : cfg.getattr ≢ Kind.eprand) where
  clone_to_itself :
      (from to dir : Str) (w : os.World)
      → str_eq to from ≡ true
      → (clonepath_as_root os from to dir w).1 ≡ w
  unfolding clonepath_as_root
  clone_to_itself from to [] w h = refl
  clone_to_itself from to (c ∷ dir) w h =
      rw (sym ((str_eq_iff to from).0 h)) (rw (str_eq_refl to) refl)

  clone_found_idle :
      (o : Outcome) (p base dir : Str) (ps : List Str) (w : os.World)
      → Appends (p ∷ ps) o
      → str_eq base p ≡ true
      → (clone_found os o base dir w).1 ≡ w
  unfolding clone_found
  clone_found_idle (failure e, qs) p base dir ps w h same = refl
  clone_found_idle (success, []) p base dir ps w h same = refl
  clone_found_idle (success, q ∷ qs) p base dir ps w (rest, h) same =
      clone_to_itself q base dir w (let e : q ≡ p = cc in rw e same)

  clone_if_created_idle :
      (o : Outcome) (base new : Str) (w : os.World)
      → (clone_if_created os cfg o base (dirname new) w).1 ≡ w
  unfolding clone_if_created run_policy
  clone_if_created_idle (failure e, ps) base new w = refl
  clone_if_created_idle (success, []) base new w = refl
  clone_if_created_idle (success, p ∷ ps) base new w = elim (Bool-cases (str_eq base p)) [
    | inl same ↦ rw same (
        clone_found_idle _ p base (dirname new) ps w
          (search-Appends (os.random_shuffle w) (os.view w) cfg.branches (dirname new)
            cfg.minfreespace (p ∷ ps) cfg.getattr steady settled)
          same)
    | inr other ↦ rw other refl
  ]

  -- When link preserves paths, and the getattr policy is neither rand nor eprand, the clone of the new
  -- parent changes nothing: `clonepath_if_would_create` leaves the world as it was, whatever the
  -- policies answer.
  pub clonepath_if_would_create_idle :
      (base new : Str) (w : os.World) → (clonepath_if_would_create os cfg base new w).1 ≡ w
  unfolding clonepath_if_would_create
  clonepath_if_would_create_idle base new w = clone_if_created_idle _ base new w
