-- ===== src/Move/Order.antt =====
-- src/fs_movefile.cpp: what a move that succeeds has done, and in which order.
use mergerfs.Base.{ℕ, ◌+◌, ◌%◌, ℤ, ◌≡◌, refl, false, List, Str, Option, none, some}
use mergerfs.Path.{dirname}
use mergerfs.StatVfs.{u64_mod}
use mergerfs.ClonePath.{clonepath}
use mergerfs.Os.{Os}
use mergerfs.Policy.Types.{Rv, success, failure, make}
use mergerfs.Files.{FileOs}
use mergerfs.Files.Find.{mfs_path, findonfs}
use mergerfs.Files.Clone.{clonefile}
use mergerfs.Files.Cloned.{clonefile-IsCloned}
use mergerfs.Move.{
  clean_up, after_rename, after_setfl, after_copy, after_temp, after_open, after_path, to_branch,
  after_find, after_fstat, movefile,
}
use mergerfs.Move.Trace.{IsReplaced, IsCopied, IsMove}
use mergerfs.Files.Among.{mfs_path-IsAmong, mfs_path-HasRoom, findonfs-IsAmong, findonfs-IsOnSame}

module _ (os : Os) (fos : FileOs os) where
  open os use {World, FileStat}

  after_rename-Done :
      (source target temp : Str) (fdin fdout origfd : ℕ) (flags : ℤ) (before copied flagged : World)
      (x : Rv × World)
      → clonefile os fos fdin fdout before ≡ (success, copied)
      → fos.setfl fdout flags copied ≡ (success, flagged)
      → os.rename temp target flagged ≡ x
      → let m = after_rename os fos source fdin fdout temp origfd x in
        m.0.0 ≡ success → IsReplaced os fos flags source target temp fdin fdout origfd before m
  unfolding after_rename clean_up
  after_rename-Done source target temp fdin fdout origfd flags before copied flagged (failure e, w)
        c f r h =
      absurd cc
  after_rename-Done source target temp fdin fdout origfd flags before copied flagged (success, w) c
        f r h =
      record {
        copied = copied;
        flagged = flagged;
        renamed = w;
        copy_made = clonefile-IsCloned os fos fdin fdout before copied c;
        by_setfl = f;
        by_rename = r;
        result = refl;
      }

  after_setfl-Done :
      (source target temp : Str) (fdin fdout origfd : ℕ) (flags : ℤ) (before copied : World)
      (x : Rv × World)
      → clonefile os fos fdin fdout before ≡ (success, copied)
      → fos.setfl fdout flags copied ≡ x
      → let m = after_setfl os fos source target fdin fdout temp origfd x in
        m.0.0 ≡ success → IsReplaced os fos flags source target temp fdin fdout origfd before m
  unfolding after_setfl clean_up
  after_setfl-Done source target temp fdin fdout origfd flags before copied (failure e, w) c f h =
      absurd cc
  after_setfl-Done source target temp fdin fdout origfd flags before copied (success, w) c f h =
      after_rename-Done source target temp fdin fdout origfd flags before copied w
        (os.rename temp target w) c f refl h

  after_copy-Done :
      (source target temp : Str) (fdin fdout origfd : ℕ) (flags : ℤ) (before : World)
      (x : Rv × World)
      → clonefile os fos fdin fdout before ≡ x
      → let m = after_copy os fos flags source target fdin fdout temp origfd x in
        m.0.0 ≡ success → IsReplaced os fos flags source target temp fdin fdout origfd before m
  unfolding after_copy clean_up
  after_copy-Done source target temp fdin fdout origfd flags before (failure e, w) c h = absurd cc
  after_copy-Done source target temp fdin fdout origfd flags before (success, w) c h =
      after_setfl-Done source target temp fdin fdout origfd flags before w (fos.setfl fdout flags w)
        c refl h

  after_temp-Done :
      (source target : Str) (fdin origfd : ℕ) (flags : ℤ) (before opened : World)
      (x : (Rv × (ℕ × Str)) × World)
      → fos.sys_open source 0 before ≡ ((success, fdin), opened)
      → fos.mkstemp target opened ≡ x
      → let m = after_temp os fos flags source target fdin origfd x in
        m.0.0 ≡ success → IsCopied os fos flags source target origfd before m
  unfolding after_temp
  after_temp-Done source target fdin origfd flags before opened ((failure e, made), w) o t h =
      absurd cc
  after_temp-Done source target fdin origfd flags before opened ((success, (fdout, temp)), w) o t
        h =
      record {
        fdin = fdin;
        fdout = fdout;
        temp = temp;
        opened = opened;
        made = w;
        by_open = o;
        by_mkstemp = t;
        replaced =
            after_copy-Done source target temp fdin fdout origfd flags w
              (clonefile os fos fdin fdout w) refl h;
      }

  after_open-Done :
      (source target : Str) (origfd : ℕ) (flags : ℤ) (before : World) (x : (Rv × ℕ) × World)
      → fos.sys_open source 0 before ≡ x
      → let m = after_open os fos flags source target origfd x in
        m.0.0 ≡ success → IsCopied os fos flags source target origfd before m
  unfolding after_open
  after_open-Done source target origfd flags before ((failure e, fdin), w) o h = absurd cc
  after_open-Done source target origfd flags before ((success, fdin), w) o h =
      after_temp-Done source target fdin origfd flags before w (fos.mkstemp target w) o refl h

  module _ (ps : List Str) (fusepath : Str) (additional origfd : ℕ) (before : World) (st : FileStat)
      (sized : World) (by_fstat : fos.fstat origfd before ≡ ((success, st), sized)) where
    abbrev needed : ℕ
    needed = (fos.size st + additional) % u64_mod

    abbrev flags : ℤ
    flags = (fos.getfl origfd sized).0

    after_path-Done :
        (inbase outbase : Str) (found : World) (x : Rv × World)
        → findonfs os fos ps fusepath origfd (fos.getfl origfd sized).1 ≡ ((success, inbase), found)
        → mfs_path (os.view found) needed ps ≡ some outbase
        → clonepath os false inbase outbase (dirname fusepath) found ≡ x
        → let m = after_path os fos flags (make inbase fusepath) (make outbase fusepath) origfd x in
          m.0.0 ≡ success → IsMove os fos ps fusepath additional origfd before m
    unfolding after_path
    after_path-Done inbase outbase found (failure e, w) f c d h = absurd cc
    after_path-Done inbase outbase found (success, w) f c d h = record {
      st = st;
      sized = sized;
      inbase = inbase;
      outbase = outbase;
      found = found;
      cloned = w;
      by_fstat = by_fstat;
      by_find = f;
      by_mfs = c;
      by_clonepath = d;
      in_list = findonfs-IsAmong os fos fusepath origfd ps _ inbase found f;
      on_device = findonfs-IsOnSame os fos fusepath origfd ps _ inbase found f;
      out_list = mfs_path-IsAmong (os.view found) needed ps outbase c;
      room = mfs_path-HasRoom (os.view found) needed ps outbase c;
      copied = after_open-Done _ _ origfd flags w (fos.sys_open (make inbase fusepath) 0 w) refl h;
    }

    to_branch-Done :
        (inbase : Str) (o : Option Str) (w : World)
        → findonfs os fos ps fusepath origfd (fos.getfl origfd sized).1 ≡ ((success, inbase), w)
        → mfs_path (os.view w) needed ps ≡ o
        → let m = to_branch os fos flags fusepath inbase origfd o w in
          m.0.0 ≡ success → IsMove os fos ps fusepath additional origfd before m
    unfolding to_branch
    to_branch-Done inbase none w f c h = absurd cc
    to_branch-Done inbase (some outbase) w f c h = after_path-Done inbase outbase w _ f c refl h

    after_find-Done :
        (x : (Rv × Str) × World)
        → findonfs os fos ps fusepath origfd (fos.getfl origfd sized).1 ≡ x
        → let m = after_find os fos flags needed ps fusepath origfd x in
          m.0.0 ≡ success → IsMove os fos ps fusepath additional origfd before m
    unfolding after_find
    after_find-Done ((failure e, inbase), w) f h = absurd cc
    after_find-Done ((success, inbase), w) f h = to_branch-Done inbase _ w f refl h

  after_fstat-Done :
      (ps : List Str) (fusepath : Str) (additional origfd : ℕ) (before : World)
      (x : (Rv × FileStat) × World)
      → fos.fstat origfd before ≡ x
      → let m = after_fstat os fos ps fusepath additional origfd x in
        m.0.0 ≡ success → IsMove os fos ps fusepath additional origfd before m
  unfolding after_fstat
  after_fstat-Done ps fusepath additional origfd before ((failure e, st), w) s h = absurd cc
  after_fstat-Done ps fusepath additional origfd before ((success, st), w) s h =
      after_find-Done ps fusepath additional origfd before st w s _ refl h

  -- A move that succeeds (`IsMove`): the first branch is one of the list where the path stands on the
  -- device of the file that is open as `origfd`; the second is one of the list that has room for the
  -- size of that file and `additional_size`; the directory was cloned there; the file, opened by its
  -- path on the first, was copied (`IsCloned`: by the first way of copying data that is there, with
  -- what the system says of it, and with attributes, owner, mode and times) to a temporary file beside
  -- its path on the second; this was given the flags of `origfd` and renamed to that path; and then the
  -- path on the first was removed. The answer is the new descriptor, and the old one is closed.
  -- Nothing keeps the two branches apart: if they are the same, the path that the copy was just
  -- renamed to is the one that is removed next.
  pub movefile-IsMove :
      (ps : List Str) (fusepath : Str) (additional_size origfd : ℕ) (w : World)
      → (movefile os fos ps fusepath additional_size origfd w).0.0 ≡ success
      → IsMove os fos ps fusepath additional_size origfd w
          (movefile os fos ps fusepath additional_size origfd w)
  unfolding movefile
  movefile-IsMove ps fusepath additional_size origfd w h =
      after_fstat-Done ps fusepath additional_size origfd w (fos.fstat origfd w) refl h
