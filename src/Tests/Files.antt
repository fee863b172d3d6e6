-- ===== src/Tests/Files.antt =====
-- Files that are moved, copied and opened, and the cache of `statvfs`.
use mergerfs.Base.{
  ℕ, suc, ◌≡◌, refl, ap, negsuc, ◌-◌, ◌^◌, zero, pos, none, some, List, [], ◌∷◌, Str, length, All,
  arith, Option, ◌==◌, if◌then◌else◌,
}
use mergerfs.Fuse.Rename.{member}
use mergerfs.StatVfs.{StatVfs}
use mergerfs.StatVfs.Cache.{blank, statvfs_cache}
use mergerfs.StatVfs.Cache.Recent.{run, AreRecent, run-AreRecent, statvfs_cache-failed}
use mergerfs.Os.{Os}
use mergerfs.Policy.Types.{Rv, success, failure}
use mergerfs.Policy.Table.{codes}
use mergerfs.Settings.{Settings, initial}
use mergerfs.Fuse.Config.{State}
use mergerfs.Fuse.Action.{unlink}
use mergerfs.Fuse.Open.{open_file}
use mergerfs.Fuse.Open.Laws.{seen, open_file-unlink}
use mergerfs.Files.{FileOs}
use mergerfs.Move.{movefile}
use mergerfs.Files.Clone.{clonefile}
use mergerfs.Move.Order.{movefile-IsMove}
use mergerfs.Move.Trace.{IsMove}
use mergerfs.Copy.{Turn, Round, copyfile, as_int}
use mergerfs.Copy.Laws.{Works, copyfile_complete}
use mergerfs.Tests.Data.{toy, pool, config}

-- A system in which only removals leave a trace, and a rename answers `r`.
abbrev quiet : Rv → Os
quiet r = record toy {
  mkdir = λ p m w. (success, w);
  copy_attr = λ p q w. (success, w);
  copy_xattr = λ p q w. (success, w);
  lchown_check_on_error = λ p st w. (success, w);
  utime = λ p st w. (success, w);
  rename = λ p q w. (r, w);
}

abbrev files : (r : Rv) → FileOs (quiet r)
files r = record {
  dev = λ st. 1;
  size = λ st. 3;
  nlink = λ st. 1;
  fstat = λ fd w. ((success, 33188), w);
  lstat = λ p w. ((success, 33188), w);
  getfl = λ fd w. (pos 2, w);
  setfl = λ fd fl w. (success, w);
  sys_open = λ p fl w. ((success, 8), w);
  mkstemp = λ p w. ((success, (9, codes "/c/f.t")), w);
  close = λ fd w. w;
  sys_creat = λ p fl m w. ((success, 7), w);
  pwrite = λ fd buf offset w. ((success, length buf), w);
  letters = λ w. (codes "ABCDEF", w);
  clock = λ w. 100;
  prepare = λ a b n w. w;
  ficlone = λ a b w. (failure 95, w);
  copy_file_range = λ a b n w. ((success, 1), w);
  sendfile = λ a b n w. ((success, n), w);
  copyfile = λ a b w. (success, w);
  copy_fd_attr = λ a b w. (failure 95, w);
  copy_fd_xattr = λ a b w. (success, w);
  fchown_check_on_error = λ a st w. (success, w);
  fchmod_check_on_error = λ a st w. (success, w);
  futime = λ a st w. (success, w);
}

-- As many turns, each of which moves one byte.
abbrev many : ℕ → List Turn
many zero = []
many (suc n) = Turn.moves 0 ∷ many n

many-Works : (n : ℕ) → All Works (many n)
many-Works zero = tt
many-Works (suc n) = (tt, many-Works n)

-- The cache of open holds another branch.
abbrev opening : State (quiet success)
opening = record {
  world = [];
  open_cache = (codes "/f", record { time = 99; path = codes "/c" }) ∷ [];
}

abbrev source : Str
source = codes "/a/f"

-- What can be read at a path: it holds `abc` unless it was removed.
abbrev content : List Str → Str → Option Str
content w p = if member w p then none else some (codes "abc")

-- Descriptor 9 is open on the temporary file, and the others are on the source.
abbrev open_on : List Str → ℕ → Option Str
open_on w fd = if fd == 9 then some (codes "/c/f.t") else some source

abbrev two : List Str
two = codes "/a" ∷ codes "/c" ∷ []

moved_run :
    movefile (quiet success) (files success) two (codes "/f") 10 5 [] ≡ ((success, 9), source ∷ [])
unfolding movefile
moved_run = refl

movefile-IsMove_example :
    IsMove
      (quiet success)
      (files success)
      two
      (codes "/f")
      10
      5
      []
      (movefile (quiet success) (files success) two (codes "/f") 10 5 [])
movefile-IsMove_example =
    movefile-IsMove (quiet success) (files success) two (codes "/f") 10 5 []
      (ap (λ (m : (Rv × ℕ) × List Str). m.0.0) moved_run)

-- One byte of three is copied, which is taken for the whole.
short_run : clonefile (quiet success) (files success) 8 9 [] ≡ (success, [])
unfolding clonefile
short_run = refl

-- With one branch the file is moved to where it is, and removed there.
lost_run :
    movefile (quiet success) (files success) (codes "/a" ∷ []) (codes "/f") 10 5 []
    ≡ ((success, 9), source ∷ [])
unfolding movefile
lost_run = refl

-- A read that is interrupted, and then one that moves two bytes of three.
abbrev rounds : List Round
rounds =
    record { reading = Turn.interrupted; writing = many 16 }
    ∷ record { reading = Turn.moves 1; writing = many 16 }
    ∷ record { reading = Turn.moves 1; writing = many 16 }
    ∷ record { reading = Turn.moves 1; writing = many 16 }
    ∷ []

copyfile_complete_example : copyfile 3 1 rounds (codes "abc") [] ≡ some (as_int 3, codes "abc")
copyfile_complete_example =
    copyfile_complete 1 rounds (codes "abc") [] (omega arith)
      (
        (tt, many-Works 16, (omega arith)),
        (
          (tt, many-Works 16, (omega arith)),
          ((tt, many-Works 16, (omega arith)), ((tt, many-Works 16, (omega arith)), tt)),
        ),
      )
      (omega arith)

-- A size whose low 32 bits are set is answered as a failure is.
wrapped : as_int (2 ^ 32 - 1) ≡ negsuc 0
unfolding as_int
wrapped = refl

-- A file system whose free space is the time.
abbrev growing : Str → ℕ → StatVfs
growing p t = record { frsize = 1; blocks = 500; bavail = t; flag = 0 }

abbrev calls : List (ℕ × Str)
calls = (100, codes "/a") ∷ (102, codes "/a") ∷ (104, codes "/a") ∷ []

run-AreRecent_example : AreRecent growing 3 calls (run growing 3 calls (λ p. blank))
run-AreRecent_example = run-AreRecent growing 3 calls (
    (
      (omega arith),
      (omega arith),
      (omega arith),
      (
        (omega arith),
        (omega arith),
        (omega arith),
        ((omega arith), (omega arith), (omega arith), tt),
      ),
    ))

answers :
    run growing 3 calls (λ p. blank)
    ≡ some (growing [] 100) ∷ some (growing [] 100) ∷ some (growing [] 104) ∷ []
unfolding run
answers = refl

statvfs_cache-failed_example :
    ((statvfs_cache 3 100 (codes "/a") none (λ p. blank)).0 ≡ none)
    × ((statvfs_cache 3 102
          (codes "/a")
          (some (growing [] 102))
          (statvfs_cache 3 100 (codes "/a") none (λ p. blank)).1).0
        ≡ some blank.st)
unfolding mergerfs.StatVfs.Cache.is_outdated
statvfs_cache-failed_example =
    statvfs_cache-failed 3 100 102 (codes "/a") (some (growing [] 102)) (λ p. blank) (omega arith)
      refl (omega arith) (omega arith) (omega arith)

abbrev cached : Settings
cached = record initial { branches = pool; open_timeout = 3 }

open_file-unlink_example :
    seen (quiet success) (
      open_file
        (quiet success)
        (files success)
        cached
        (codes "/f")
        0
        (unlink (quiet success) config (codes "/f") opening).1)
    ≡ seen (quiet success) (
        open_file
          (quiet success)
          (files success)
          (record cached { open_timeout = 0 })
          (codes "/f")
          0
          (unlink (quiet success) config (codes "/f") opening).1)
open_file-unlink_example =
    open_file-unlink (quiet success) (files success) cached config (codes "/f") 0 opening
      (omega arith) (omega arith)
