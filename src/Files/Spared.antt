-- ===== src/Files/Spared.antt =====
-- src/fs.cpp and src/fs_clonefile.cpp: the search for a file's branch and the copy of a file leave
-- what no removal and no rename changes.
use mergerfs.Base.{
  Option, some, sym, ◌∙◌, ℕ, ◌≡◌, ◌≢◌, Bool, true, false, Bool-cases, inl, inr, List, [], ◌∷◌, Str,
  ◌==◌, if◌then◌else◌,
}
use mergerfs.Os.{Os}
use mergerfs.Policy.Types.{Rv, success, failure}
use mergerfs.Files.{FileOs}
use mergerfs.Files.Assumed.{IsSame, Spares}
use mergerfs.Files.Find.{find_step, find_on_dev, find_from}
use mergerfs.Files.Clone.{
  copydata, after_sendfile, after_copy_file_range, after_ficlone, after_fchmod, after_fchown, owned,
  after_xattr, with_xattr, after_attr, after_data, clone_fds,
}

module _ (os : Os) (fos : FileOs os) (content : os.World → Str → Option Str)
    (opened : os.World → ℕ → Option Str) (source : Str) (k : Spares os fos content opened source)
    (c : Option Str) where
  -- The file holds `c`.
  abbrev pub Holds : os.World → Type 0
  Holds w = content w source ≡ c

  -- The file holds `c`, and the descriptor is open on another one.
  abbrev pub HoldsBeside : ℕ → os.World → Type 0
  HoldsBeside b w = Holds w × (opened w b ≢ some source)

  pub beside :
      (b : ℕ) (w w' : os.World)
      → HoldsBeside b w
      → IsSame content opened source w w'
      → HoldsBeside b w'
  beside b w w' (held, other) (same, still) = (same ∙ held, λ e. other (sym (still b) ∙ e))

  find_step-Spares :
      (d : ℕ) (p : Str) (x : (Rv × os.FileStat) × os.World)
      (rest : os.World → (Rv × Str) × os.World)
      → ((w : os.World) → Holds w → Holds (rest w).1)
      → Holds x.1
      → Holds (find_step os fos d p x rest).1
  unfolding find_step
  find_step-Spares d p ((failure e, st), w) rest later h = later w h
  find_step-Spares d p ((success, st), w) rest later h = elim (Bool-cases (fos.dev st == d)) [
    | inl same ↦ rw same h
    | inr other ↦ rw other (later w h)
  ]

  find_on_dev-Spares :
      (d : ℕ) (fusepath : Str) (ps : List Str) (w : os.World)
      → Holds w
      → Holds (find_on_dev os fos d fusepath ps w).1
  unfolding find_on_dev
  find_on_dev-Spares d fusepath [] w h = h
  find_on_dev-Spares d fusepath (p ∷ ps) w h =
      find_step-Spares d p _ (find_on_dev os fos d fusepath ps) (find_on_dev-Spares d fusepath ps)
        ((k.by_lstat _ w).0 ∙ h)

  pub find_from-Spares :
      (fusepath : Str) (ps : List Str) (x : (Rv × os.FileStat) × os.World)
      → Holds x.1
      → Holds (find_from os fos fusepath ps x).1
  unfolding find_from
  find_from-Spares fusepath ps ((failure e, st), w) h = h
  find_from-Spares fusepath ps ((success, st), w) h = find_on_dev-Spares _ fusepath ps w h

  kept :
      (fd : ℕ) (t : Bool) (x y : Rv × os.World)
      → HoldsBeside fd x.1
      → HoldsBeside fd y.1
      → HoldsBeside fd (if t then x else y).1
  kept fd true x y hx hy = hx
  kept fd false x y hx hy = hy

  after_sendfile-Spares :
      (a b : ℕ) (x : (Rv × ℕ) × os.World)
      → HoldsBeside b x.1
      → HoldsBeside b (after_sendfile os fos a b x).1
  unfolding after_sendfile
  after_sendfile-Spares a b ((success, m), w) h = h
  after_sendfile-Spares a b ((failure e, m), w) h =
      kept b _ (fos.copyfile a b w) (failure e, w) (beside b _ _ h (k.by_copyfile a b w h.1)) h

  after_copy_file_range-Spares :
      (a b n : ℕ) (x : (Rv × ℕ) × os.World)
      → HoldsBeside b x.1
      → HoldsBeside b (after_copy_file_range os fos a b n x).1
  unfolding after_copy_file_range
  after_copy_file_range-Spares a b n ((success, m), w) h = h
  after_copy_file_range-Spares a b n ((failure e, m), w) h =
      kept b _ _ (failure e, w)
        (after_sendfile-Spares a b (fos.sendfile a b n w)
          (beside b _ _ h (k.by_sendfile a b n w h.1)))
        h

  after_ficlone-Spares :
      (a b n : ℕ) (x : Rv × os.World)
      → HoldsBeside b x.1
      → HoldsBeside b (after_ficlone os fos a b n x).1
  unfolding after_ficlone
  after_ficlone-Spares a b n (success, w) h = h
  after_ficlone-Spares a b n (failure e, w) h =
      kept b _ _ (failure e, w)
        (after_copy_file_range-Spares a b n (fos.copy_file_range a b n w)
          (beside b _ _ h (k.by_copy_file_range a b n w h.1)))
        h

  after_fchmod-Spares :
      (b : ℕ) (st : os.FileStat) (x : Rv × os.World)
      → HoldsBeside b x.1
      → HoldsBeside b (after_fchmod os fos b st x).1
  unfolding after_fchmod
  after_fchmod-Spares b st (failure e, w) h = h
  after_fchmod-Spares b st (success, w) h = beside b _ _ h (k.by_futime b st w h.1)

  after_fchown-Spares :
      (b : ℕ) (st : os.FileStat) (x : Rv × os.World)
      → HoldsBeside b x.1
      → HoldsBeside b (after_fchown os fos b st x).1
  unfolding after_fchown
  after_fchown-Spares b st (failure e, w) h = h
  after_fchown-Spares b st (success, w) h =
      after_fchmod-Spares b st _ (beside b _ _ h (k.by_fchmod b st w h.1))

  owned-Spares :
      (b : ℕ) (st : os.FileStat) (w : os.World)
      → HoldsBeside b w
      → HoldsBeside b (owned os fos b st w).1
  unfolding owned
  owned-Spares b st w h = after_fchown-Spares b st _ (beside b _ _ h (k.by_fchown b st w h.1))

  after_xattr-Spares :
      (b : ℕ) (st : os.FileStat) (x : Rv × os.World)
      → HoldsBeside b x.1
      → HoldsBeside b (after_xattr os fos b st x).1
  unfolding after_xattr
  after_xattr-Spares b st (failure e, w) h = kept b _ (failure e, w) _ h (owned-Spares b st w h)
  after_xattr-Spares b st (success, w) h = owned-Spares b st w h

  with_xattr-Spares :
      (a b : ℕ) (st : os.FileStat) (w : os.World)
      → HoldsBeside b w
      → HoldsBeside b (with_xattr os fos a b st w).1
  unfolding with_xattr
  with_xattr-Spares a b st w h =
      after_xattr-Spares b st (fos.copy_fd_xattr a b w) (beside b _ _ h (k.by_xattr a b w h.1))

  after_attr-Spares :
      (a b : ℕ) (st : os.FileStat) (x : Rv × os.World)
      → HoldsBeside b x.1
      → HoldsBeside b (after_attr os fos a b st x).1
  unfolding after_attr
  after_attr-Spares a b st (failure e, w) h =
      kept b _ (failure e, w) _ h (with_xattr-Spares a b st w h)
  after_attr-Spares a b st (success, w) h = with_xattr-Spares a b st w h

  after_data-Spares :
      (a b : ℕ) (st : os.FileStat) (x : Rv × os.World)
      → HoldsBeside b x.1
      → HoldsBeside b (after_data os fos a b st x).1
  unfolding after_data
  after_data-Spares a b st (failure e, w) h = h
  after_data-Spares a b st (success, w) h =
      after_attr-Spares a b st (fos.copy_fd_attr a b w) (beside b _ _ h (k.by_attr a b w h.1))

  pub clone_fds-Spares :
      (a b : ℕ) (x : (Rv × os.FileStat) × os.World)
      → HoldsBeside b x.1
      → HoldsBeside b (clone_fds os fos a b x).1
  unfolding clone_fds copydata
  clone_fds-Spares a b ((failure e, st), w) h = h
  clone_fds-Spares a b ((success, st), w) h =
      let ready = fos.prepare a b (fos.size st) w in
      let h' = beside b w ready h (k.by_prepare a b (fos.size st) w h.1) in
      after_data-Spares a b st (copydata os fos a b (fos.size st) w) (
        after_ficlone-Spares a b (fos.size st) (fos.ficlone a b ready)
          (beside b _ _ h' (k.by_ficlone a b ready h'.1)))
