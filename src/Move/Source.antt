-- ===== src/Move/Source.antt =====
-- src/fs_movefile.cpp: a move that fails leaves the file that was to be moved.
use mergerfs.Base.{ℕ, ◌≢◌, Str, Option}
use mergerfs.Os.{Os}
use mergerfs.Policy.Types.{success}
use mergerfs.Files.{FileOs}
use mergerfs.Move.{Moved}
use mergerfs.Files.Assumed.{Spares}
use mergerfs.Files.Spared.{Holds, HoldsBeside}

module _ (os : Os) (fos : FileOs os) (content : os.World → Str → Option Str)
    (opened : os.World → ℕ → Option Str) (source : Str) (k : Spares os fos content opened source)
    (c : Option Str) where
  abbrev I : os.World → Type 0
  I w = Holds os fos content opened source k c w

  abbrev J : ℕ → os.World → Type 0
  J b w = HoldsBeside os fos content opened source k c b w

  -- The property at a failure.
  abbrev AtFailure : Moved os fos → Type 0
  AtFailure ((r, fd), w) = r ≢ success → I w
