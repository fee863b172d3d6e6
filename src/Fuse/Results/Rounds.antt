-- ===== src/Fuse/Results/Rounds.antt =====
-- The loops of src/fuse_rename.cpp over the configured branches: an attempt on each branch that the
-- action policy gave, and the paths to remove.
use mergerfs.Base.{
  ◌≡◌, refl, sym, ap, ◌∙◌, true, false, Bool-cases, List, [], ◌∷◌, ◌++◌, map, append-nil,
  append_assoc, Str, inl, inr, if◌then◌else◌,
}
use mergerfs.Branch.{Branch, Branches}
use mergerfs.Policy.Types.{Rv, make}
use mergerfs.Fuse.Action.{fold_rv}
use mergerfs.Fuse.Rename.{member, Progress, push}
use mergerfs.Fuse.Results.Attempts.{attempts, fold_all}

-- The branches that the action policy gave, in the order of the configuration.
unfoldable pub selected : List Str → Branches → List Str
selected ps [] = []
selected ps (b ∷ bs) = if member ps b.path then b.path ∷ selected ps bs else selected ps bs

module _ {A : Type 0} (leftover : Str → A → List Str) (new : Str) (ps : List Str) where
  -- The paths to remove, from what became of the selected branches.
  unfoldable pub leftovers : Branches → List A → List Str
  leftovers [] tries = []
  leftovers (b ∷ bs) [] = if member ps b.path then [] else make b.path new ∷ leftovers bs []
  leftovers (b ∷ bs) (a ∷ tries) =
      if member ps b.path
      then leftover b.path a ++ leftovers bs tries
      else make b.path new ∷ leftovers bs (a ∷ tries)

  leftovers-member :
      (b : Branch) (bs : Branches) (a : A) (tries : List A)
      → member ps b.path ≡ true
      → leftovers (b ∷ bs) (a ∷ tries) ≡ leftover b.path a ++ leftovers bs tries
  unfolding leftovers
  leftovers-member b bs a tries h = rw h

  leftovers-other :
      (b : Branch) (bs : Branches) (tries : List A)
      → member ps b.path ≡ false
      → leftovers (b ∷ bs) tries ≡ make b.path new ∷ leftovers bs tries
  unfolding leftovers
  leftovers-other b bs [] h = rw h
  leftovers-other b bs (a ∷ tries) h = rw h

  module _ {W : Type 0} (rv_of : A → Rv) where
    -- `error` and the paths to remove after one attempt.
    abbrev pub advance : Str → Progress W → A × W → Progress W
    advance base s (a, w) = record {
      error = fold_rv (rv_of a) s.error;
      toremove = s.toremove ++ leftover base a;
      world = w;
    }

    -- All of the loop: the attempts, one after the other, and then the two variables.
    abbrev pub whole : Branches → Progress W → List A × W → Progress W
    whole bs s (tries, w) = record {
      error = fold_all s.error (map rv_of tries);
      toremove = s.toremove ++ leftovers bs tries;
      world = w;
    }

    -- The same state with another list of paths to remove.
    removing : List Str → Progress W → Progress W
    removing t s = record s { toremove = t }

    -- The body of the loop, run on the branches.
    unfoldable pub rounds : (Str → Progress W → Progress W) → Branches → Progress W → Progress W
    rounds body [] s = s
    rounds body (b ∷ bs) s = rounds body bs (body b.path s)

    pub rounds-attempts :
        (attempt : Str → W → A × W) (body : Str → Progress W → Progress W)
        → ((base : Str) (s : Progress W)
            → member ps base ≡ true
            → body base s ≡ advance base s (attempt base s.world))
        → ((base : Str) (s : Progress W)
            → member ps base ≡ false
            → body base s ≡ push (make base new) s)
        → (bs : Branches) (s : Progress W)
        → rounds body bs s ≡ whole bs s (attempts attempt (selected ps bs) s.world)
    unfolding rounds selected attempts fold_all push removing
    rounds-attempts attempt body hit miss [] s =
        ap (λ t. removing t s) (sym (append-nil s.toremove)) ∙ unfold leftovers in refl
    rounds-attempts attempt body hit miss (b ∷ bs) s = elim (Bool-cases (member ps b.path)) [
      | inl is_member ↦
          let (a, w) = attempt b.path s.world in
          let (tries, w') = attempts attempt (selected ps bs) w in
          rw (is_member, hit b.path s is_member)
            (rounds-attempts attempt body hit miss bs (advance b.path s (a, w))
              ∙ ap (λ t. removing t (whole (b ∷ bs) s (a ∷ tries, w')))
                  (append_assoc s.toremove (leftover b.path a) (leftovers bs tries)
                    ∙ ap (λ t. s.toremove ++ t) (sym (leftovers-member b bs a tries is_member))))
      | inr no_member ↦
          let (tries, w') = attempts attempt (selected ps bs) s.world in
          rw (no_member, miss b.path s no_member)
            (rounds-attempts attempt body hit miss bs (push (make b.path new) s)
              ∙ ap (λ t. removing t (whole (b ∷ bs) s (tries, w')))
                  (append_assoc s.toremove (make b.path new ∷ []) (leftovers bs tries)
                    ∙ ap (λ t. s.toremove ++ t) (sym (leftovers-other b bs tries no_member))))
    ]
