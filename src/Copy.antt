-- ===== src/Copy.antt =====
-- src/fs_copyfile.cpp: a file is copied through a buffer. What the calls of `read` and `write` do is
-- given as a list of turns, one for each call, so that a function that runs out of turns is one that
-- still loops.
pub mod Laws
use mergerfs.Base.{
  ℕ, suc, ◌+◌, ◌-◌, ◌*◌, ◌%◌, ◌^◌, ℤ, pos, negsuc, Bool, true, false, List, [], ◌∷◌, ◌++◌, Str,
  length, take, drop, Option, none, some, ltb, leb, if◌then◌else◌,
}

-- A call is interrupted, or fails, or moves at most so many bytes and one more, but no more than it
-- was asked for; it moves at least one byte if there is one.
pub data Turn : Type 0 where
  interrupted : Turn
  moves : ℕ → Turn
  fails : ℕ → Turn

unfoldable pub is_empty : Str → Bool
is_empty [] = true
is_empty (c ∷ s) = false

-- How a loop ends: with the bytes that the destination has then, or with an `errno` as well.
pub data Ending : Type 0 where
  complete : Str → Ending
  broken : ℕ → Str → Ending

-- `writen`: `buf` holds the bytes that are left. The condition stands at the end of the loop, and
-- `continue` goes there.
unfoldable pub writen : List Turn → Str → Str → Option Ending
unfolding is_empty
writen [] buf dst = none
writen (Turn.interrupted ∷ turns) buf dst =
    let again = writen turns buf dst in if is_empty buf then some (Ending.complete dst) else again
writen (Turn.fails e ∷ turns) buf dst = some (Ending.broken e dst)
writen (Turn.moves n ∷ turns) buf dst =
    let dst' = dst ++ take (suc n) buf in
    let again = writen turns (drop (suc n) buf) dst' in
    if is_empty (drop (suc n) buf) then some (Ending.complete dst') else again

-- One round of the outer loop: a call of `read`, and the calls of `write` that follow it.
pub record Round : Type 0 where
  pub reading : Turn
  pub writing : List Turn

-- The conversion of `totalwritten` to the `int` that is returned.
unfoldable pub as_int : ℕ → ℤ
as_int n = let m = n % 2 ^ 32 in if ltb m (2 ^ 31) then pos m else negsuc (2 ^ 32 - 1 - m)

abbrev pub Copied : Type 0
Copied = ℤ × Str

-- What follows `nw = writen(...)`.
unfoldable pub after_writen : Option Ending → (Str → Option Copied) → Option Copied
after_writen none rest = none
after_writen (some (Ending.broken e dst)) rest = some (negsuc 0, dst)
after_writen (some (Ending.complete dst)) rest = rest dst

abbrev pub smaller : ℕ → ℕ → ℕ
smaller a b = if leb a b then a else b

-- What follows a read of `chunk`; the end of the file was reached if that is empty.
unfoldable pub after_read : List Turn → Str → ℕ → Str → (Str → Option Copied) → Option Copied
unfolding after_writen writen as_int
after_read turns [] total dst rest = some (as_int total, dst)
after_read turns (c ∷ chunk) total dst rest = after_writen (writen turns (c ∷ chunk) dst) rest

-- The body of the outer loop; `rest` is the next round, at a new offset, total and destination.
unfoldable pub copy_round :
    ℕ → Turn → List Turn → Str → ℕ → Str → (Str → ℕ → Str → Option Copied) → Option Copied
unfolding after_read
copy_round bufsize Turn.interrupted writing src total dst rest = rest src total dst
copy_round bufsize (Turn.fails e) writing src total dst rest = some (negsuc 0, dst)
copy_round bufsize (Turn.moves n) writing src total dst rest =
    let chunk = take (smaller (suc n) bufsize) src in
    after_read writing chunk total dst
      (rest (drop (smaller (suc n) bufsize) src) (total + length chunk))

-- `copyfile` from a point on: `src` holds the bytes that follow the file's offset.
unfoldable pub copy_loop : ℕ → ℕ → List Round → Str → ℕ → Str → Option Copied
unfolding copy_round as_int
copy_loop count bufsize [] src total dst =
    if ltb total count then none else some (as_int total, dst)
copy_loop count bufsize (r ∷ rounds) src total dst =
    let again =
      copy_round bufsize r.reading r.writing src total dst (copy_loop count bufsize rounds) in
    if ltb total count then again else some (as_int total, dst)

-- `fs::copyfile`, when `fstat` gives the size and the size of a block, and `lseek` goes to the start.
unfoldable pub copyfile : ℕ → ℕ → List Round → Str → Str → Option Copied
unfolding copy_loop
copyfile size blksize rounds src dst = copy_loop size (16 * blksize) rounds src 0 dst
