-- ===== src/Move/Trace.antt =====
-- src/fs_movefile.cpp: the calls that a move that succeeds has made, in their order.
use mergerfs.Base.{ℕ, ◌+◌, ◌%◌, ℤ, ◌≡◌, false, List, Str, some}
use mergerfs.Path.{dirname}
use mergerfs.StatVfs.{u64_mod}
use mergerfs.ClonePath.{clonepath}
use mergerfs.Os.{Os}
use mergerfs.Policy.Types.{success, make}
use mergerfs.Files.{FileOs}
use mergerfs.Files.Find.{mfs_path, findonfs}
use mergerfs.Files.Trace.{IsCloned}
use mergerfs.Move.{Moved}
use mergerfs.Files.Among.{IsAmong, IsOnSame, HasRoom}

-- What is done once the temporary file is there, when it succeeds: `fdin` was copied to `fdout`
-- (`IsCloned`); `fdout` was given `flags`; the temporary file was renamed to `target`; and only then
-- `source` was removed, and the two descriptors that are of no more use were closed.
pub record IsReplaced (os : Os) (fos : FileOs os) (flags : ℤ) (source target temp : Str)
    (fdin fdout origfd : ℕ) (before : os.World) (m : Moved os fos) : Type 0 where
  pub copied : os.World
  pub flagged : os.World
  pub renamed : os.World
  pub copy_made : IsCloned os fos fdin fdout before copied
  pub by_setfl : fos.setfl fdout flags copied ≡ (success, flagged)
  pub by_rename : os.rename temp target flagged ≡ (success, renamed)
  pub result :
      m ≡ ((success, fdout), fos.close origfd (fos.close fdin (os.unlink source renamed).1))

-- What is done once the directory is there: `fdin` is `source`, opened for reading, and `fdout` a
-- temporary file beside `target`, and one replaces the other as above.
pub record IsCopied (os : Os) (fos : FileOs os) (flags : ℤ) (source target : Str) (origfd : ℕ)
    (before : os.World) (m : Moved os fos) : Type 0 where
  pub fdin : ℕ
  pub fdout : ℕ
  pub temp : Str
  pub opened : os.World
  pub made : os.World
  pub by_open : fos.sys_open source 0 before ≡ ((success, fdin), opened)
  pub by_mkstemp : fos.mkstemp target opened ≡ ((success, (fdout, temp)), made)
  pub replaced : IsReplaced os fos flags source target temp fdin fdout origfd made m

-- What a move has done when it succeeds: the size of the open file and its flags were read; the branch
-- of the list where the file stands was found; another (or the same) of the list was chosen that has
-- room for the file and `additional`; the directory was cloned there; and the file was copied, with
-- the flags that were read.
pub record IsMove (os : Os) (fos : FileOs os) (ps : List Str) (fusepath : Str)
    (additional origfd : ℕ) (before : os.World) (m : Moved os fos) : Type 0 where
  pub st : os.FileStat
  pub sized : os.World
  pub inbase : Str
  pub outbase : Str
  pub found : os.World
  pub cloned : os.World
  pub by_fstat : fos.fstat origfd before ≡ ((success, st), sized)
  pub by_find :
      findonfs os fos ps fusepath origfd (fos.getfl origfd sized).1 ≡ ((success, inbase), found)
  pub by_mfs : mfs_path (os.view found) ((fos.size st + additional) % u64_mod) ps ≡ some outbase
  pub by_clonepath : clonepath os false inbase outbase (dirname fusepath) found ≡ (success, cloned)
  pub in_list : IsAmong inbase ps
  pub on_device : IsOnSame os fos fusepath origfd (fos.getfl origfd sized).1 inbase
  pub out_list : IsAmong outbase ps
  pub room : HasRoom (os.view found) ((fos.size st + additional) % u64_mod) outbase
  pub copied :
      IsCopied os fos
        (fos.getfl origfd sized).0
        (make inbase fusepath)
        (make outbase fusepath)
        origfd
        cloned
        m
