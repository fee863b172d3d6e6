-- ===== src/Files/Assumed.antt =====
-- What is assumed of the calls on files, where the file at one path is to be kept.
use mergerfs.Base.{Option, some, ℕ, ℤ, ◌≡◌, ◌≢◌, Str}
use mergerfs.Os.{Os}
use mergerfs.Policy.Types.{success}
use mergerfs.ClonePath.Frame.{Keeps}
use mergerfs.Files.{FileOs}

-- The file at `source` and what is open are as before.
abbrev pub IsSame :
    {W : Type 0} → (W → Str → Option Str) → (W → ℕ → Option Str) → Str → W → W → Type 0
IsSame content opened source w w' =
    (content w' source ≡ content w source) × ((fd : ℕ) → opened w' fd ≡ opened w fd)

-- What is assumed of the calls, when `content` is what can be read at a path, and `opened` the path of
-- the file that a descriptor is open on. A call that writes to a descriptor, which is the last one
-- that it is given, leaves the file at `source` alone if the descriptor is open on another file. Of
-- the paths only the one that is given is removed. A rename that fails changes nothing. `mkstemp`
-- makes and opens a file of a new name. What is open is changed by `open`, `mkstemp` and `close` only.
pub record Spares (os : Os) (fos : FileOs os) (content : os.World → Str → Option Str)
    (opened : os.World → ℕ → Option Str) (source : Str) : Type 0 where
  pub by_clone : (to : Str) (c : Option Str) → Keeps os to (λ w. content w source ≡ c)
  pub by_fstat : (a : ℕ) (w : os.World) → IsSame content opened source w (fos.fstat a w).1
  pub by_lstat : (p : Str) (w : os.World) → IsSame content opened source w (fos.lstat p w).1
  pub by_getfl : (a : ℕ) (w : os.World) → IsSame content opened source w (fos.getfl a w).1
  pub by_setfl :
      (a : ℕ) (fl : ℤ) (w : os.World) → IsSame content opened source w (fos.setfl a fl w).1
  pub by_ficlone :
      (a b : ℕ) (w : os.World)
      → opened w b ≢ some source
      → IsSame content opened source w (fos.ficlone a b w).1
  pub by_copy_file_range :
      (a b n : ℕ) (w : os.World)
      → opened w b ≢ some source
      → IsSame content opened source w (fos.copy_file_range a b n w).1
  pub by_sendfile :
      (a b n : ℕ) (w : os.World)
      → opened w b ≢ some source
      → IsSame content opened source w (fos.sendfile a b n w).1
  pub by_copyfile :
      (a b : ℕ) (w : os.World)
      → opened w b ≢ some source
      → IsSame content opened source w (fos.copyfile a b w).1
  pub by_attr :
      (a b : ℕ) (w : os.World)
      → opened w b ≢ some source
      → IsSame content opened source w (fos.copy_fd_attr a b w).1
  pub by_xattr :
      (a b : ℕ) (w : os.World)
      → opened w b ≢ some source
      → IsSame content opened source w (fos.copy_fd_xattr a b w).1
  pub by_fchown :
      (b : ℕ) (st : os.FileStat) (w : os.World)
      → opened w b ≢ some source
      → IsSame content opened source w (fos.fchown_check_on_error b st w).1
  pub by_fchmod :
      (b : ℕ) (st : os.FileStat) (w : os.World)
      → opened w b ≢ some source
      → IsSame content opened source w (fos.fchmod_check_on_error b st w).1
  pub by_futime :
      (b : ℕ) (st : os.FileStat) (w : os.World)
      → opened w b ≢ some source
      → IsSame content opened source w (fos.futime b st w).1
  pub by_prepare :
      (a b n : ℕ) (w : os.World)
      → opened w b ≢ some source
      → IsSame content opened source w (fos.prepare a b n w)
  pub by_open :
      (p : Str) (fl : ℕ) (w : os.World) → content (fos.sys_open p fl w).1 source ≡ content w source
  pub by_mkstemp : (p : Str) (w : os.World) → content (fos.mkstemp p w).1 source ≡ content w source
  pub by_close : (fd : ℕ) (w : os.World) → content (fos.close fd w) source ≡ content w source
  pub by_unlink :
      (p : Str) (w : os.World) → p ≢ source → content (os.unlink p w).1 source ≡ content w source
  pub by_failed_rename :
      (p q : Str) (w : os.World)
      → (os.rename p q w).0 ≢ success
      → content (os.rename p q w).1 source ≡ content w source
  pub fresh :
      (p t : Str) (fd : ℕ) (w : os.World)
      → (fos.mkstemp p w).0 ≡ (success, (fd, t))
      → (t ≢ source) × (opened (fos.mkstemp p w).1 fd ≢ some source)
