-- ===== src/Branch/Text/RoundTrip.antt =====
-- src/branch.cpp: the branches that are read from their own text.
use mergerfs.Base.{
  ℕ, ◌≡◌, ◌≢◌, refl, ap, sym, ◌∙◌, true, false, [], ◌∷◌, ◌++◌, map, append-nil, append_assoc, Str,
  All, All-append, some, ◌⊎◌, inl, inr, arith,
}
use mergerfs.Strings.{isprefix, split, getlines, ends_with}
use mergerfs.Strings.Laws.{
  Lacks, c_str-Lacks, getlines_at, getlines_last, ends_with-append, take-append,
}
use mergerfs.Branch.{Mode, Branch, Branches}
use mergerfs.Branch.Text.{
  Globbing, colon, mode_text, entries, chop, to_string, parse_mode, parse, with_mode, realpathize,
  resolved, insert_end, set, text_ro, text_rw, text_nc,
}

-- The text of one branch.
abbrev item : Branch → Str
item b = b.path ++ mode_text true b.mode

-- One of the three suffixes, and only that, ends a text that was put together with it.
ends_ro : (p : Str) → ends_with (p ++ text_ro) text_ro ≡ true
unfolding isprefix
ends_ro p = rw (ends_with-append p text_ro text_ro) refl

ends_rw :
    (p : Str)
    → (ends_with (p ++ text_rw) text_ro ≡ false) × (ends_with (p ++ text_rw) text_rw ≡ true)
unfolding isprefix
ends_rw p =
    (rw (ends_with-append p text_rw text_ro) refl, rw (ends_with-append p text_rw text_rw) refl)

ends_nc :
    (p : Str)
    → (ends_with (p ++ text_nc) text_ro ≡ false)
      × (ends_with (p ++ text_nc) text_rw ≡ false)
      × (ends_with (p ++ text_nc) text_nc ≡ true)
unfolding isprefix
ends_nc p = (
  rw (ends_with-append p text_nc text_ro) refl,
  rw (ends_with-append p text_nc text_rw) refl,
  rw (ends_with-append p text_nc text_nc) refl,
)

parse_mode-item :
    (m : Mode) (p : Str) → m ≢ Mode.invalid → parse_mode (p ++ mode_text true m) ≡ (m, p)
unfolding parse_mode mode_text
parse_mode-item Mode.invalid p h = absurd (h refl)
parse_mode-item Mode.ro p h =
    rw (ends_ro p) (ap (λ (t : Str). (Mode.ro, t)) (take-append p text_ro))
parse_mode-item Mode.rw p h =
    let (other, this) = ends_rw p in
    rw (other, this) (ap (λ (t : Str). (Mode.rw, t)) (take-append p text_rw))
parse_mode-item Mode.nc p h =
    let (first, second, this) = ends_nc p in
    rw (first, second, this) (ap (λ (t : Str). (Mode.nc, t)) (take-append p text_nc))

chop-append : (p s : Str) (c : ℕ) → chop (p ++ c ∷ s) ≡ p ++ chop (c ∷ s)
unfolding chop
chop-append [] s c = refl
chop-append (d ∷ []) s c = refl
chop-append (d ∷ (e ∷ p)) s c = ap (λ t. d ∷ t) (chop-append (e ∷ p) s c)

-- A branch that the program keeps: its mode is valid, and its path has neither a colon nor a NUL, is
-- a pattern of itself alone, and is its own real path.
abbrev pub IsStored : Globbing → Branch → Type 0
IsStored g b =
    (b.mode ≢ Mode.invalid)
    × Lacks colon b.path
    × Lacks 0 b.path
    × (g.glob b.path ≡ b.path ∷ [])
    × (g.realpath b.path ≡ some b.path)

module _ (g : Globbing) where
  parse-item : (b : Branch) → IsStored g b → parse g (item b) ≡ b ∷ []
  unfolding parse realpathize resolved with_mode
  parse-item b (valid, _, _, alone, real) =
      rw (parse_mode-item b.mode b.path valid, alone) (rw (resolved, real) refl)

mode_text-Lacks : (d : ℕ) (m : Mode) → d ≡ colon ⊎ d ≡ 0 → Lacks d (mode_text true m)
unfolding mode_text
mode_text-Lacks d Mode.ro h = ground arith
mode_text-Lacks d _ h = ground arith

item-Lacks : (d : ℕ) (b : Branch) → d ≡ colon ⊎ d ≡ 0 → Lacks d b.path → Lacks d (item b)
item-Lacks d b h lacks = All-append _ b.path _ lacks (mode_text-Lacks d b.mode h)

chop-Lacks : (s : Str) → Lacks 0 s → Lacks 0 (chop s)
unfolding chop
chop-Lacks [] h = tt
chop-Lacks (c ∷ []) h = ground arith
chop-Lacks (c ∷ (d ∷ s)) h = (h.0, chop-Lacks (d ∷ s) h.1)

append-nonempty : (p s : Str) → s ≢ [] → p ++ s ≢ []
append-nonempty [] s h e = h e
append-nonempty (c ∷ p) s h e = cc

mode_text-nonempty : (m : Mode) → mode_text true m ≢ []
unfolding mode_text
mode_text-nonempty Mode.ro e = cc
mode_text-nonempty _ e = cc

entries-nonempty : (b : Branch) (bs : Branches) → entries true (b ∷ bs) ≢ []
unfolding entries
entries-nonempty b bs =
    append-nonempty b.path _ (append-nonempty (mode_text true b.mode) _ (λ e. cc))

chop_more : (c : ℕ) (s : Str) → s ≢ [] → chop (c ∷ s) ≡ c ∷ chop s
unfolding chop
chop_more c [] h = absurd (h refl)
chop_more c (d ∷ s) h = refl

entries-item :
    (b : Branch) (bs : Branches) → entries true (b ∷ bs) ≡ item b ++ colon ∷ entries true bs
unfolding entries
entries-item b bs = sym (append_assoc b.path (mode_text true b.mode) (colon ∷ entries true bs))

-- One more entry in front of the text.
chop-entries :
    (b c : Branch) (bs : Branches)
    → chop (entries true (b ∷ (c ∷ bs))) ≡ item b ++ colon ∷ chop (entries true (c ∷ bs))
chop-entries b c bs = rw (entries-item b (c ∷ bs)) (
    chop-append (item b) (entries true (c ∷ bs)) colon
    ∙ ap (λ t. item b ++ t) (chop_more colon _ (entries-nonempty c bs)))

chop_single : (b : Branch) → chop (entries true (b ∷ [])) ≡ item b
chop_single b =
    rw (entries-item b [])
      (chop-append (item b) (entries true []) colon ∙ unfold chop entries in append-nil (item b))

getlines_item : (d : ℕ) (s : Str) → Lacks d s → s ≢ [] → getlines d s ≡ s ∷ []
getlines_item d [] h e = absurd (e refl)
getlines_item d (c ∷ s) h e = getlines_last d c s h

module _ (g : Globbing) where
  entries-Lacks : (bs : Branches) → All (IsStored g) bs → Lacks 0 (entries true bs)
  unfolding entries
  entries-Lacks [] h = tt
  entries-Lacks (b ∷ bs) (hb, h) = All-append _ b.path _ hb.2 (
      All-append _ (mode_text true b.mode) _ (mode_text-Lacks 0 b.mode (inr refl))
        ((omega arith), entries-Lacks bs h))

  getlines-entries :
      (bs : Branches) → All (IsStored g) bs → getlines colon (chop (entries true bs)) ≡ map item bs
  getlines-entries [] h = unfold entries chop getlines in refl
  getlines-entries (b ∷ []) h = rw (chop_single b) (
      getlines_item colon (item b) (item-Lacks colon b (inl refl) h.0.1)
        (append-nonempty b.path _ (mode_text-nonempty b.mode)))
  getlines-entries (b ∷ (c ∷ bs)) h = rw (chop-entries b c bs) (
      rw
        (getlines_at colon (item b) (chop (entries true (c ∷ bs)))
          (item-Lacks colon b (inl refl) h.0.1))
        (ap (λ t. item b ∷ t) (getlines-entries (c ∷ bs) h.1)))

  insert_end-items :
      (acc bs : Branches) → All (IsStored g) bs → insert_end g acc (map item bs) ≡ acc ++ bs
  unfolding insert_end
  insert_end-items acc [] h = sym (append-nil acc)
  insert_end-items acc (b ∷ bs) h =
      rw (insert_end, parse-item g b h.0)
        (insert_end-items (acc ++ b ∷ []) bs h.1 ∙ append_assoc acc (b ∷ []) bs)

  -- The text that `to_string` makes of the branches, with their modes, is read by `set` as the same
  -- branches in the same order, whatever the branches were before, if every branch is one that the
  -- program keeps (`IsStored`).
  pub set-to_string :
      (bs before : Branches) → All (IsStored g) bs → set g (to_string true bs) before ≡ bs
  unfolding set to_string split
  set-to_string bs before h =
      rw (c_str-Lacks _ (chop-Lacks _ (entries-Lacks bs h)), getlines-entries bs h)
        (insert_end-items [] bs h)
