-- ===== src/Files/Cloned.antt =====
-- src/fs_clonefile.cpp: a copy that succeeds has made the calls of a whole one.
use mergerfs.Base.{
  ℕ, ◌≡◌, refl, ◌∙◌, Bool, true, false, not, ◌||◌, ◌==◌, ◌⊎◌, inl, inr, if◌then◌else◌, arith,
}
use mergerfs.Errno.{einval, enosys, enotsup}
use mergerfs.Os.{Os}
use mergerfs.Policy.Types.{Rv, success, failure}
use mergerfs.ClonePath.{ignorable_error}
use mergerfs.Files.{FileOs}
use mergerfs.Files.Trace.{DataCopied, IsTolerated, IsCloned}
use mergerfs.Files.Clone.{
  copydata, after_sendfile, after_copy_file_range, after_ficlone, after_fchmod, after_fchown, owned,
  after_xattr, with_xattr, after_attr, after_data, clone_fds, clonefile,
}

chosen :
    {A : Type 0} (t : Bool) (x y z : A)
    → (if t then x else y) ≡ z
    → ((t ≡ true) × (x ≡ z)) ⊎ ((t ≡ false) × (y ≡ z))
chosen true x y z h = inl (refl, h)
chosen false x y z h = inr (refl, h)

same_error : (e d : ℕ) → (e == d) ≡ true → e ≡ d
same_error e d h = ground arith

one_of : (e c d : ℕ) → (e == c || e == d) ≡ true → (e ≡ c) ⊎ (e ≡ d)
one_of e c d h = ground arith

not-false : (t : Bool) → not t ≡ false → t ≡ true
not-false true h = refl
not-false false h = cc

module _ (os : Os) (fos : FileOs os) (a b : ℕ) where
  open os use {World, FileStat}

  module _ (n : ℕ) (w w' : World) where
    after_sendfile-DataCopied :
        (e d m : ℕ) (w1 w2 : World) (x : (Rv × ℕ) × World)
        → fos.ficlone a b w ≡ (failure e, w1)
        → e ≡ enotsup
        → fos.copy_file_range a b n w1 ≡ ((failure d, m), w2)
        → d ≡ enotsup
        → fos.sendfile a b n w2 ≡ x
        → after_sendfile os fos a b x ≡ (success, w')
        → DataCopied os fos a b n w w'
    unfolding after_sendfile
    after_sendfile-DataCopied e d m w1 w2 ((success, k), w3) f p c q s h =
        DataCopied.by_sendfile e d m k w1 w2 f p c q (s ∙ (λ i. ((success, k), (h i).1)))
    after_sendfile-DataCopied e d m w1 w2 ((failure g, k), w3) f p c q s h =
        elim (chosen (g == einval || g == enosys) (fos.copyfile a b w3) (failure g, w3)
          (success, w') h) [
            | inl (known, done) ↦
                DataCopied.by_copyfile e d m g k w1 w2 w3 f p c q s (one_of g einval enosys known)
                  done
            | inr (other, failed) ↦ absurd cc
          ]

    after_copy_file_range-DataCopied :
        (e : ℕ) (w1 : World) (x : (Rv × ℕ) × World)
        → fos.ficlone a b w ≡ (failure e, w1)
        → e ≡ enotsup
        → fos.copy_file_range a b n w1 ≡ x
        → after_copy_file_range os fos a b n x ≡ (success, w')
        → DataCopied os fos a b n w w'
    unfolding after_copy_file_range
    after_copy_file_range-DataCopied e w1 ((success, m), w2) f p c h =
        DataCopied.by_copy_file_range e m w1 f p (c ∙ (λ i. ((success, m), (h i).1)))
    after_copy_file_range-DataCopied e w1 ((failure d, m), w2) f p c h =
        elim (chosen (d == enotsup) (after_sendfile os fos a b (fos.sendfile a b n w2))
          (failure d, w2) (success, w') h) [
            | inl (known, done) ↦
                after_sendfile-DataCopied e d m w1 w2 _ f p c (same_error d enotsup known) refl done
            | inr (other, failed) ↦ absurd cc
          ]

    after_ficlone-DataCopied :
        (x : Rv × World)
        → fos.ficlone a b w ≡ x
        → after_ficlone os fos a b n x ≡ (success, w')
        → DataCopied os fos a b n w w'
    unfolding after_ficlone
    after_ficlone-DataCopied (success, w1) f h = DataCopied.by_ficlone (f ∙ h)
    after_ficlone-DataCopied (failure e, w1) f h =
        elim (chosen (e == enotsup)
          (after_copy_file_range os fos a b n (fos.copy_file_range a b n w1)) (failure e, w1)
          (success, w') h) [
            | inl (known, done) ↦
                after_copy_file_range-DataCopied e w1 _ f (same_error e enotsup known) refl done
            | inr (other, failed) ↦ absurd cc
          ]

  module _ (st : FileStat) (w' : World) where
    -- The last three calls, from `w` on.
    abbrev IsOwned : World → Type 0
    IsOwned w =
        (o : World) × (m : World) × (fos.fchown_check_on_error b st w ≡ (success, o))
        × (fos.fchmod_check_on_error b st o ≡ (success, m))
        × (fos.futime b st m ≡ (success, w'))

    -- The extended attributes and what follows, from `w` on.
    abbrev IsLabelled : World → Type 0
    IsLabelled w = (t : World) × IsTolerated (fos.copy_fd_xattr a b w) t × IsOwned t

    after_fchmod-IsOwned :
        (w o : World) (x : Rv × World)
        → fos.fchown_check_on_error b st w ≡ (success, o)
        → fos.fchmod_check_on_error b st o ≡ x
        → after_fchmod os fos b st x ≡ (success, w')
        → IsOwned w
    unfolding after_fchmod
    after_fchmod-IsOwned w o (failure e, w1) q r h = absurd cc
    after_fchmod-IsOwned w o (success, w1) q r h = (o, w1, q, r, h)

    after_fchown-IsOwned :
        (w : World) (x : Rv × World)
        → fos.fchown_check_on_error b st w ≡ x
        → after_fchown os fos b st x ≡ (success, w')
        → IsOwned w
    unfolding after_fchown
    after_fchown-IsOwned w (failure e, w1) q h = absurd cc
    after_fchown-IsOwned w (success, w1) q h = after_fchmod-IsOwned w w1 _ q refl h

    owned-IsOwned : (w : World) → owned os fos b st w ≡ (success, w') → IsOwned w
    unfolding owned
    owned-IsOwned w h = after_fchown-IsOwned w _ refl h

    after_xattr-IsLabelled :
        (w : World) (x : Rv × World)
        → fos.copy_fd_xattr a b w ≡ x
        → after_xattr os fos b st x ≡ (success, w')
        → IsLabelled w
    unfolding after_xattr
    after_xattr-IsLabelled w (success, w1) q h = (w1, inl q, owned-IsOwned w1 h)
    after_xattr-IsLabelled w (failure e, w1) q h =
        elim (chosen (not (ignorable_error e)) (failure e, w1) (owned os fos b st w1) (success, w')
          h) [
            | inl (fatal, failed) ↦ absurd cc
            | inr (ignored, done) ↦ (w1, inr (e, q, not-false _ ignored), owned-IsOwned w1 done)
          ]

    with_xattr-IsLabelled : (w : World) → with_xattr os fos a b st w ≡ (success, w') → IsLabelled w
    unfolding with_xattr
    with_xattr-IsLabelled w h = after_xattr-IsLabelled w _ refl h

    after_attr-IsLabelled :
        (w : World) (x : Rv × World)
        → fos.copy_fd_attr a b w ≡ x
        → after_attr os fos a b st x ≡ (success, w')
        → (t : World) × IsTolerated (fos.copy_fd_attr a b w) t × IsLabelled t
    unfolding after_attr
    after_attr-IsLabelled w (success, w1) q h = (w1, inl q, with_xattr-IsLabelled w1 h)
    after_attr-IsLabelled w (failure e, w1) q h =
        elim (chosen (not (ignorable_error e)) (failure e, w1) (with_xattr os fos a b st w1)
          (success, w') h) [
            | inl (fatal, failed) ↦ absurd cc
            | inr (ignored, done) ↦
                (w1, inr (e, q, not-false _ ignored), with_xattr-IsLabelled w1 done)
          ]

  module _ (w w' : World) where
    after_data-IsCloned :
        (st : FileStat) (sized : World) (x : Rv × World)
        → fos.fstat a w ≡ ((success, st), sized)
        → copydata os fos a b (fos.size st) sized ≡ x
        → after_data os fos a b st x ≡ (success, w')
        → IsCloned os fos a b w w'
    unfolding after_data copydata
    after_data-IsCloned st sized (failure e, w1) q d h = absurd cc
    after_data-IsCloned st sized (success, w1) q d h =
        let (t, attr, (u, xattr, (o, m, p, q1, r))) = after_attr-IsLabelled st w' w1 _ refl h in
        record {
          st = st;
          sized = sized;
          filled = w1;
          with_attr = t;
          with_xattr = u;
          with_owner = o;
          with_mode = m;
          by_fstat = q;
          data_copied = after_ficlone-DataCopied (fos.size st) _ w1 _ refl d;
          attr = attr;
          xattr = xattr;
          by_fchown = p;
          by_fchmod = q1;
          by_futime = r;
        }

    clone_fds-IsCloned :
        (x : (Rv × FileStat) × World)
        → fos.fstat a w ≡ x
        → clone_fds os fos a b x ≡ (success, w')
        → IsCloned os fos a b w w'
    unfolding clone_fds
    clone_fds-IsCloned ((failure e, st), w1) q h = absurd cc
    clone_fds-IsCloned ((success, st), w1) q h = after_data-IsCloned st w1 _ q refl h

    -- A copy that succeeds has made all the calls of `IsCloned`.
    pub clonefile-IsCloned : clonefile os fos a b w ≡ (success, w') → IsCloned os fos a b w w'
    unfolding clonefile
    clonefile-IsCloned h = clone_fds-IsCloned _ refl h
