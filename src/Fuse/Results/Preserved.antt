-- ===== src/Fuse/Results/Preserved.antt =====
-- rename, when it preserves paths: the answer and what is removed.
use mergerfs.Base.{
  ◌<◌, ℤ, pos, negsuc, neg_of, not, ◌&&◌, ◌≡◌, ◌≢◌, refl, true, List, [], ◌∷◌, map, Str, All, eqb_ℤ,
  ◌∙◌, sym, append-nil, Bool-cases, inl, inr, if◌then◌else◌,
}
use mergerfs.Errno.{calc}
use mergerfs.Branch.{Branch, Branches}
use mergerfs.Os.{Os, SetsErrno}
use mergerfs.Os.Laws.{IsLawful}
use mergerfs.Policy.Types.{Category, Outcome, success, failure, make}
use mergerfs.Policy.Spec.Choice.{IsChoice}
use mergerfs.Policy.Table.{path_preserving}
use mergerfs.PolicyCache.{erase}
use mergerfs.Fuse.Config.{Config, State, run_policy}
use mergerfs.Fuse.Action.{in_world, fold_rv}
use mergerfs.Fuse.Rename.{
  Status, Progress, conclude, remove_all, finish, start, rename_preserve_path_core,
  rename_preserve_path_loop, rename_preserve_path_on, rename_preserve_path, rename,
}
use mergerfs.Fuse.Results.Attempts.{
  attempts, attempts-nonempty, attempts-All, fold_all-any_success, answer, any_success,
  fold_all-answer,
}
use mergerfs.Fuse.Results.Retried.{
  rv_of_status, try_on, rename_or_clone-twice, HasErrno, try_on-HasErrno,
}
use mergerfs.Fuse.Results.Rounds.{selected, leftovers, advance, whole, rounds, rounds-attempts}
use mergerfs.Fuse.Results.Renamed.{member_head, selected-nonempty}
use mergerfs.Fuse.Results.Actions.{run_policy-IsChoice}

module _ (os : Os) (cfg : Config) (old new : Str) where
  -- What is removed after a success: the old path where the rename failed.
  abbrev pub stays : Str → Status → List Str
  stays base st = if eqb_ℤ st.rv (negsuc 0) then make base old ∷ [] else []

  abbrev body : List Str → Str → Progress os.World → Progress os.World
  body ps base s = rename_preserve_path_core os cfg ps base old new s

  loop-rounds :
      (ps : List Str) (bs : Branches) (s : Progress os.World)
      → rename_preserve_path_loop os cfg ps old new bs s
        ≡ rounds stays new ps rv_of_status (body ps) bs s
  unfolding rename_preserve_path_loop rounds
  loop-rounds ps [] s = refl
  loop-rounds ps (b ∷ bs) s = loop-rounds ps bs _

  conclude-advance :
      (ps : List Str) (base : Str) (st : Status) (w : os.World) (s : Progress os.World)
      → conclude (make base old) st s.error s.toremove w
        ≡ advance stays new ps rv_of_status base s (st, w)
  unfolding conclude fold_rv calc
  conclude-advance ps base st w s = elim (Bool-cases (eqb_ℤ st.rv (negsuc 0))) [
    | inl e ↦ rw e refl
    | inr e ↦
        rw e (λ i. record { error = pos 0; toremove = sym (append-nil s.toremove) i; world = w })
  ]

  pub loop-tries :
      (l : IsLawful os) (ps : List Str) (bs : Branches) (s : Progress os.World)
      → rename_preserve_path_loop os cfg ps old new bs s
        ≡ whole stays new ps rv_of_status bs s
            (attempts (try_on os cfg old new) (selected ps bs) s.world)
  loop-tries l ps bs s =
      loop-rounds ps bs s
      ∙ rounds-attempts stays new ps rv_of_status (try_on os cfg old new) (body ps)
          (λ base t is_member.
            unfold rename_preserve_path_core in
            rw
              (
                is_member,
                rename_or_clone-twice os cfg old new l base
                    (os.rename (make base old) (make base new) t.world),
              )
              (conclude-advance ps base (try_on os cfg old new base t.world).0
                (try_on os cfg old new base t.world).1 t))
          (λ base t other. unfold rename_preserve_path_core in rw other) bs s

All-map_set : (tries : List Status) → All HasErrno tries → All SetsErrno (map rv_of_status tries)
All-map_set [] h = tt
All-map_set (st ∷ tries) h = (h.0, All-map_set tries h.1)

map_status-nonempty : (tries : List Status) → tries ≢ [] → map rv_of_status tries ≢ []
map_status-nonempty [] h e = h refl
map_status-nonempty (st ∷ tries) h e = cc

module _ (os : Os) (cfg : Config) (old new : Str) where
  -- If the policy fails, its `errno` is returned and nothing is done. Otherwise the rename is tried
  -- on each branch that the policy gave, and the answer is that of the tries. The leftovers are
  -- removed if some try succeeded, and nothing is removed otherwise.
  abbrev pub IsPreserved : Outcome → os.World → ℤ × os.World → Type 0
  IsPreserved (failure e, ps) w r = (r ≡ (neg_of e, w)) × (0 < e)
  IsPreserved (success, ps) w r =
      let (tries, w') = attempts (try_on os cfg old new) (selected ps cfg.branches) w in
      let rs = map rv_of_status tries in
      (selected ps cfg.branches ≢ [])
      × (r.0 ≡ answer rs)
      × (r.1 ≡ (
          if any_success rs
          then remove_all os (leftovers (stays os cfg old new) new ps cfg.branches tries) w'
          else w'))

  module _ (l : IsLawful os) where
    tries-SetsErrno :
        (ps : List Str) (w : os.World)
        → All SetsErrno (map rv_of_status (attempts (try_on os cfg old new) ps w).0)
    tries-SetsErrno ps w =
        All-map_set _
          (attempts-All (try_on os cfg old new) HasErrno ps w (try_on-HasErrno os cfg old new l))

    rename_preserve_path_on-IsPreserved :
        (P : Branch → Type 0) (o : Outcome) (w : os.World)
        → IsChoice P cfg.branches o
        → IsPreserved o w (rename_preserve_path_on os cfg old new o w)
    unfolding rename_preserve_path_on finish
    rename_preserve_path_on-IsPreserved P (failure e, ps) w h = (refl, h.1)
    rename_preserve_path_on-IsPreserved P (success, []) w h = absurd (h.0 refl)
    rename_preserve_path_on-IsPreserved P (success, p ∷ ps) w h =
        let some_branch : selected (p ∷ ps) cfg.branches ≢ [] =
          selected-nonempty P (p ∷ ps) p cfg.branches (member_head p ps) h.1.0 in
        let errs = tries-SetsErrno (selected (p ∷ ps) cfg.branches) w in
        rw (loop-tries os cfg old new l (p ∷ ps) cfg.branches (start os w)) (
          some_branch,
          fold_all-answer _
              (map_status-nonempty _ (attempts-nonempty (try_on os cfg old new) _ w some_branch))
              errs,
          rw (fold_all-any_success _ errs) refl,
        )

module _ (os : Os) (l : IsLawful os) (old new : Str) where
  -- rename, if it preserves paths: the entry of the old path is dropped from the cache. If the rename
  -- policy fails, the negated `errno` is returned, and the world is as before. Otherwise, on each
  -- configured branch that the policy gave, of which there is at least one, the rename is tried, and,
  -- where it fails with ENOENT and not otherwise, tried again (`try_on`) if the create policy gives
  -- this branch for the new parent and the search for the parent succeeds, whose first path it is then
  -- cloned from. The status is `-errno` if that search fails, and -1 if the create policy fails, gives
  -- another branch (EXDEV), or the last rename fails. The answer is 0 if some branch ended with a status
  -- other than -1, and the negated `errno` of the last that ended with -1 if none did. In the first case only, the new path on the other branches is removed, and
  -- the old path where the status is -1. `IsLawful` is assumed of the operating system.
  pub rename-IsPreserved :
      (cfg : Config) (s : State os)
      → (path_preserving cfg.create && not cfg.ignorepponrename) ≡ true
      → let r = rename os cfg old new s in
        IsPreserved os cfg old new
          (run_policy os Category.action cfg.rename cfg old [] s.world)
          s.world
          (r.0, r.1.world)
        × (r.1.open_cache ≡ erase old s.open_cache)
  unfolding rename in_world rename_preserve_path
  rename-IsPreserved cfg s h = rw h (
    rename_preserve_path_on-IsPreserved os cfg old new l _ _ s.world
        (run_policy-IsChoice os l Category.action cfg.rename cfg old s.world),
    refl,
  )
